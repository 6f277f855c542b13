-- ===== src/Provider/EventFilter/Pieces.antt =====
-- src/provider/event_filter.rs: the names that Windows finds in the content of a descriptor.
use ferrisetw.Base.{
  ℕ, ◌≡◌, refl, ap, ◌∙◌, inl, inr, Bool, true, false, ◌||◌, List, [], ◌∷◌, ◌++◌, All, ltb, ◌==◌,
  Bool-cases, if◌then◌else◌, length, length-append, arith,
}
use ferrisetw.Provider.EventFilter.{
  contains, utf16_units, encode_utf16, any_event_name_refused, names_size, copy_names,
}

-- One more element of the first piece; without a piece there is no end to close it.
abbrev extend : ℕ → List (List ℕ) → List (List ℕ)
extend x [] = []
extend x (piece ∷ pieces) = (x ∷ piece) ∷ pieces

-- The pieces of a list that an end closes.
abbrev pub split_at_ends : (ℕ → Bool) → List ℕ → List (List ℕ)
split_at_ends is_end [] = []
split_at_ends is_end (x ∷ xs) =
    let rest = split_at_ends is_end xs in if is_end x then [] ∷ rest else extend x rest

abbrev pub is_nul : ℕ → Bool
is_nul b = b == 0

-- What ends an executable name in the wide string.
abbrev pub ends_name : ℕ → Bool
ends_name u = (u == 59) || (u == 0)

abbrev pub IsInside : (ℕ → Bool) → ℕ → Type 0
IsInside is_end x = is_end x ≡ false

pub split_at_ends-piece :
    (is_end : ℕ → Bool) (piece : List ℕ) (e : ℕ) (rest : List ℕ)
    → All (IsInside is_end) piece
    → is_end e ≡ true
    → split_at_ends is_end (piece ++ e ∷ rest) ≡ piece ∷ split_at_ends is_end rest
split_at_ends-piece is_end [] e rest all h = rw h
split_at_ends-piece is_end (x ∷ xs) e rest (inside, all) h =
    rw inside (ap (extend x) (split_at_ends-piece is_end xs e rest all h))

All-append : (P : ℕ → Type 0) (xs ys : List ℕ) → All P xs → All P ys → All P (xs ++ ys)
All-append P [] ys all others = others
All-append P (x ∷ xs) ys (here, all) others = (here, All-append P xs ys all others)

not_contains : (name : List ℕ) → contains 0 name ≡ false → All (IsInside is_nul) name
not_contains [] e = tt
not_contains (x ∷ xs) e = (ground arith, not_contains xs (ground arith))

pub split-copy_names :
    (names : List (List ℕ))
    → any_event_name_refused names ≡ false
    → split_at_ends is_nul (copy_names names) ≡ names
split-copy_names [] e = refl
split-copy_names (name ∷ names) e =
    split_at_ends-piece is_nul name 0 (copy_names names) (not_contains name (ground arith)) refl
    ∙ ap (◌∷◌ name) (split-copy_names names (ground arith))

pub copy_names-length : (names : List (List ℕ)) → length (copy_names names) ≡ names_size names
copy_names-length [] = refl
copy_names-length (name ∷ names) =
    omega (arith, length-append name (0 ∷ copy_names names), copy_names-length names)

units-IsInside : (c : ℕ) → ¬ (c ≡ 59) → ¬ (c ≡ 0) → All (IsInside ends_name) (utf16_units c)
units-IsInside c h g = elim (Bool-cases (ltb c 0x10000)) [
  | inl e ↦ rw e (ground arith, tt)
  | inr e ↦ rw e (ground arith, (ground arith, tt))
]

pub encode_utf16-IsInside :
    (name : List ℕ)
    → contains 59 name ≡ false
    → contains 0 name ≡ false
    → All (IsInside ends_name) (encode_utf16 name)
encode_utf16-IsInside [] e f = tt
encode_utf16-IsInside (c ∷ cs) e f =
    All-append (IsInside ends_name) (utf16_units c) (encode_utf16 cs)
      (units-IsInside c (ground arith) (ground arith))
      (encode_utf16-IsInside cs (ground arith) (ground arith))
