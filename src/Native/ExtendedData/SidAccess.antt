-- ===== src/Native/ExtendedData/SidAccess.antt =====
-- src/native/etw_types/extended_data.rs: what is read from a copied SID.
use ferrisetw.Base.{
  ℕ, zero, suc, ◌+◌, ◌-◌, ◌*◌, min, ◌<◌, ◌≤◌, ◌≡◌, refl, ap, ◌∙◌, inl, inr, false, some, List, [],
  ◌∷◌, ltb, leb, le→leb, Bool-cases, length, length-take, take, drop, get_range, from_le_bytes,
  arith,
}
use ferrisetw.Native.ExtendedData.{sid_from_raw, sub_authority_count, sub_authority}

drop-take : (n m k : ℕ) (xs : List ℕ) → n + k ≤ m → take k (drop n (take m xs)) ≡ take k (drop n xs)
drop-take zero zero zero xs h = refl
drop-take zero m zero xs h = refl
drop-take zero zero (suc k) xs h = absurd (omega arith)
drop-take zero (suc m) (suc k) [] h = refl
drop-take zero (suc m) (suc k) (x ∷ xs) h = ap (◌∷◌ x) (drop-take zero m k xs (omega arith))
drop-take (suc n) zero k xs h = absurd (omega arith)
drop-take (suc n) (suc m) k [] h = refl
drop-take (suc n) (suc m) k (x ∷ xs) h = drop-take n m k xs (omega arith)

add_sub_left : (lo n : ℕ) → lo + n - lo ≡ n
add_sub_left lo n = omega arith

range_within :
    (lo n : ℕ) (xs : List ℕ)
    → lo + n ≤ length xs
    → get_range lo (lo + n) xs ≡ some (take n (drop lo xs))
unfolding get_range
range_within lo n xs h =
    rw (le→leb lo (lo + n) (omega arith), le→leb (lo + n) (length xs) h, add_sub_left lo n)

sid-inv :
    (blob sid : List ℕ)
    → sid_from_raw blob ≡ some sid
    → (sid ≡ take (8 + 4 * sub_authority_count blob) blob)
      × (8 + 4 * sub_authority_count blob ≤ length blob)
unfolding sid_from_raw
sid-inv [] sid e = absurd (cc)
sid-inv (r ∷ []) sid e = absurd (cc)
sid-inv (r ∷ c ∷ rest) sid e = elim (Bool-cases (ltb (length (r ∷ c ∷ rest)) (8 + 4 * c))) [
  | inl h ↦ absurd (ground arith)
  | inr h ↦ (ground arith, ground arith)
]

count-take :
    (n : ℕ) (xs : List ℕ) → 2 ≤ n → sub_authority_count (take n xs) ≡ sub_authority_count xs
count-take zero xs h = absurd (omega arith)
count-take (suc zero) xs h = absurd (omega arith)
count-take (suc (suc n)) [] h = refl
count-take (suc (suc n)) (x ∷ []) h = refl
count-take (suc (suc n)) (x ∷ y ∷ xs) h = refl

not_leb : (a b : ℕ) → b < a → leb a b ≡ false
not_leb a b h = ground arith

sub_authority_within :
    (sid : List ℕ) (index : ℕ)
    → index < sub_authority_count sid
    → 8 + 4 * index + 4 ≤ length sid
    → sub_authority sid index ≡ some (from_le_bytes (take 4 (drop (8 + 4 * index) sid)))
unfolding sub_authority
sub_authority_within sid index h fits =
    rw (not_leb (sub_authority_count sid) index h, range_within (8 + 4 * index) 4 sid fits)

-- The bytes of a SID that was copied from an item hold every sub-authority below its count, and
-- each is read from the four bytes of the item at its place.
pub sub_authority-from_raw :
    (blob sid : List ℕ)
    → sid_from_raw blob ≡ some sid
    → (index : ℕ) → index < sub_authority_count sid
    → sub_authority sid index ≡ some (from_le_bytes (take 4 (drop (8 + 4 * index) blob)))
sub_authority-from_raw blob sid e index h =
    let (copy, fits) = sid-inv blob sid e in
    let same : sub_authority_count sid ≡ sub_authority_count blob =
      ap sub_authority_count copy
      ∙ count-take (8 + 4 * sub_authority_count blob) blob (omega arith) in
    let long : length sid ≡ min (8 + 4 * sub_authority_count blob) (length blob) =
      ap length copy ∙ length-take (8 + 4 * sub_authority_count blob) blob in
    sub_authority_within sid index h (omega arith)
    ∙ ap (λ s. some (from_le_bytes (take 4 (drop (8 + 4 * index) s)))) copy
    ∙ ap (λ bs. some (from_le_bytes bs))
        (drop-take (8 + 4 * index) (8 + 4 * sub_authority_count blob) 4 blob (omega arith))
