-- ===== src/Native/ExtendedData/Names.antt =====
-- src/native/etw_types/extended_data.rs: the event name in TraceLogging metadata.
use ferrisetw.Base.{
  ℕ, zero, suc, ◌+◌, ◌-◌, min, ◌<◌, ◌≤◌, ◌≡◌, refl, sym, ap, ◌∙◌, false, Option, some, List, [],
  ◌∷◌, ◌++◌, All, ltb, leb, length, length-append, take, drop, get_or, from_le_bytes, arith,
}
use ferrisetw.Native.ExtendedData.{skip_tags, get_event_name, name_between}

three_more : (n : ℕ) → 2 + n + 1 ≡ suc (suc (suc n))
three_more n = omega arith

not_leb : (a b : ℕ) → b < a → leb a b ≡ false
not_leb a b h = ground arith

not_ltb : (a b : ℕ) → b ≤ a → ltb a b ≡ false
not_ltb a b h = ground arith

abbrev pub IsTag : ℕ → Type 0
IsTag b = 128 ≤ b

get_or-append : (xs ys : List ℕ) (b : ℕ) → get_or (xs ++ b ∷ ys) (length xs) 0 ≡ b
get_or-append [] ys b = refl
get_or-append (x ∷ xs) ys b = get_or-append xs ys b

length-snoc : (xs : List ℕ) (b : ℕ) → length (xs ++ b ∷ []) ≡ suc (length xs)
length-snoc xs b = omega (arith, length-append xs (b ∷ []))

-- One tag, put on the end of what stands before.
append-cons : (xs ys : List ℕ) (b : ℕ) → (xs ++ b ∷ []) ++ ys ≡ xs ++ b ∷ ys
append-cons [] ys b = refl
append-cons (x ∷ xs) ys b = ap (◌∷◌ x) (append-cons xs ys b)

skip_tags-stop :
    (rounds : ℕ) (blob : List ℕ) (i : ℕ) → get_or blob i 0 < 128 → skip_tags rounds blob i ≡ i
unfolding skip_tags
skip_tags-stop zero blob i h = refl
skip_tags-stop (suc rounds) blob i h = ground arith

skip_tags-step :
    (rounds : ℕ) (blob : List ℕ) (i : ℕ)
    → IsTag (get_or blob i 0)
    → skip_tags (suc rounds) blob i ≡ skip_tags rounds blob (suc i)
unfolding skip_tags
skip_tags-step rounds blob i h = ground arith

skip_tags-past :
    (tags before after : List ℕ) (last rounds : ℕ)
    → All IsTag tags
    → last < 128
    → length tags ≤ rounds
    → skip_tags rounds (before ++ (tags ++ last ∷ after)) (length before)
      ≡ length before + length tags
skip_tags-past [] before after last rounds all low enough =
    skip_tags-stop rounds (before ++ last ∷ after) (length before)
      (omega (arith, get_or-append before after last))
    ∙ (omega arith)
skip_tags-past (t ∷ tags) before after last zero all low enough = absurd (omega arith)
skip_tags-past (t ∷ tags) before after last (suc rounds) (high, all) low enough =
    let blob = before ++ t ∷ (tags ++ last ∷ after) in
    skip_tags-step rounds blob (length before)
      (omega (arith, get_or-append before (tags ++ last ∷ after) t))
    ∙ sym (
        ap (λ b. skip_tags rounds b (suc (length before)))
          (append-cons before (tags ++ last ∷ after) t))
    ∙ sym (
        ap (skip_tags rounds ((before ++ t ∷ []) ++ (tags ++ last ∷ after))) (length-snoc before t))
    ∙ skip_tags-past tags (before ++ t ∷ []) after last rounds all low (omega arith)
    ∙ (omega (arith, length-snoc before t))

drop-past : (xs : List ℕ) (y : ℕ) (ys : List ℕ) → drop (suc (length xs)) (xs ++ y ∷ ys) ≡ ys
drop-past [] y ys = refl
drop-past (x ∷ xs) y ys = drop-past xs y ys

take-append : (xs ys : List ℕ) → take (length xs) (xs ++ ys) ≡ xs
take-append [] ys = refl
take-append (x ∷ xs) ys = ap (◌∷◌ x) (take-append xs ys)

take-past :
    (xs : List ℕ) (y : ℕ) (ys : List ℕ) (n : ℕ)
    → length xs < n
    → (zs : List ℕ) × (take n (xs ++ y ∷ ys) ≡ xs ++ y ∷ zs)
take-past xs y ys zero h = absurd (omega arith)
take-past [] y ys (suc n) h = (take n ys, refl)
take-past (x ∷ xs) y ys (suc n) h =
    let (zs, e) = take-past xs y ys n (omega arith) in (zs, ap (◌∷◌ x) e)

module _ (memchr : ℕ → List ℕ → Option ℕ)
    (memchr_first : (b : ℕ) (xs ys : List ℕ)
      → All (λ x. ¬ (x ≡ b)) xs
      → memchr b (xs ++ b ∷ ys) ≡ some (length xs)) where
  name_between_nul :
      (blob : List ℕ) (tags_end size : ℕ) (name rest : List ℕ)
      → drop (tags_end + 1) blob ≡ name ++ 0 ∷ rest
      → tags_end + 1 + length name < size
      → All (λ x. ¬ (x ≡ 0)) name
      → name_between memchr blob tags_end size ≡ some name
  unfolding name_between
  name_between_nul blob tags_end size name rest e fits nonzero =
      let (zs, cut) = take-past name 0 rest (size - (tags_end + 1)) (omega arith) in
      let sliced = ap (take (size - (tags_end + 1))) e ∙ cut in
      rw (not_leb size tags_end (omega arith), sliced, memchr_first 0 name zs nonzero)
        (ap (λ bytes. some (take (length name) bytes)) sliced ∙ ap some (take-append name (0 ∷ zs)))

  -- Of metadata that starts with its declared size, tags whose high bit is set, a last tag whose
  -- high bit is clear, and a name with its NUL, all within the declared size, the name is read,
  -- whatever follows and however far the declared size goes beyond the metadata.
  pub get_event_name-reads :
      (lo hi : ℕ) (tags : List ℕ) (last : ℕ) (name rest : List ℕ)
      → All IsTag tags
      → last < 128
      → All (λ x. ¬ (x ≡ 0)) name
      → length tags + length name + 4 ≤ from_le_bytes (lo ∷ hi ∷ [])
      → get_event_name memchr (lo ∷ hi ∷ (tags ++ last ∷ (name ++ 0 ∷ rest))) ≡ some name
  unfolding get_event_name
  get_event_name-reads lo hi tags last name rest high low nonzero fits =
      let blob : List ℕ = lo ∷ hi ∷ (tags ++ last ∷ (name ++ 0 ∷ rest)) in
      let declared = from_le_bytes (lo ∷ hi ∷ []) in
      let size = min declared (length blob) in
      let long : length tags + length name + 4 ≤ length blob =
        omega
          (arith, length-append tags (last ∷ (name ++ 0 ∷ rest)), length-append name (0 ∷ rest)) in
      let skipped : skip_tags (size - 2) blob 2 ≡ 2 + length tags =
        skip_tags-past tags (lo ∷ hi ∷ []) (name ++ 0 ∷ rest) last (size - 2) high low
          (omega arith) in
      let dropped : drop (2 + length tags + 1) blob ≡ name ++ 0 ∷ rest =
        ap (λ n. drop n blob) (three_more (length tags)) ∙ drop-past tags last (name ++ 0 ∷ rest) in
      rw (not_ltb (length blob) 2 (omega (arith, long))) (
        ap (λ i. name_between memchr blob i size) skipped
        ∙ name_between_nul blob (2 + length tags) size name rest dropped (omega arith) nonzero)
