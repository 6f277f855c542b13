-- ===== src/Query/Utf16.antt =====
-- src/query.rs: descriptions read back from UTF-16, whose encoding is that of
-- src/provider/event_filter.rs.
use ferrisetw.Base.{
  ℕ, ◌+◌, ◌-◌, ◌*◌, ◌/◌, ◌%◌, ◌<◌, ◌≤◌, ◌⊎◌, ◌≡◌, refl, ap, ◌∙◌, inl, inr, true, false, ◌&&◌, List,
  [], ◌∷◌, ◌++◌, All, ltb, ◌==◌, Bool-cases, from_le_bytes, arith,
}
use ferrisetw.Provider.EventFilter.{utf16_units, encode_utf16}
use ferrisetw.Query.{
  is_surrogate, is_high, is_low, from_utf16_lossy, units_to_nul, decode_description,
}

-- A Unicode scalar value: a code point other than a surrogate.
abbrev pub IsScalar : ℕ → Type 0
IsScalar c = (c < 0xd800) ⊎ ((0xe000 ≤ c) × (c < 0x110000))

-- A character of a description: any but NUL.
abbrev pub IsText : ℕ → Type 0
IsText c = IsScalar c × (0 < c)

abbrev pub IsUnit : ℕ → Type 0
IsUnit u = (0 < u) × (u < 0x10000)

abbrev pub unit_bytes : List ℕ → List ℕ
unit_bytes [] = []
unit_bytes (u ∷ us) = (u % 256) ∷ (u / 256) ∷ unit_bytes us

lossy_unit :
    (u : ℕ) (us : List ℕ)
    → is_surrogate u ≡ false
    → from_utf16_lossy (u ∷ us) ≡ u ∷ from_utf16_lossy us
lossy_unit u [] e = rw e
lossy_unit u (v ∷ us) e = rw e

lossy_pair :
    (u v : ℕ) (us : List ℕ)
    → is_surrogate u ≡ true
    → (is_high u && is_low v) ≡ true
    → from_utf16_lossy (u ∷ v ∷ us)
      ≡ (0x10000 + (u - 0xd800) * 0x400 + (v - 0xdc00)) ∷ from_utf16_lossy us
lossy_pair u v us e f = rw (e, f)

not_surrogate : (c : ℕ) → IsScalar c → is_surrogate c ≡ false
not_surrogate c (inl h) = ground arith
not_surrogate c (inr (h, g)) = ground arith

-- The pair of a character outside the basic plane.
pair_surrogate : (n : ℕ) → n < 0x100000 → is_surrogate (0xd800 + n / 0x400) ≡ true
pair_surrogate n h = ground arith

pair_halves :
    (n : ℕ) → n < 0x100000 → (is_high (0xd800 + n / 0x400) && is_low (0xdc00 + n % 0x400)) ≡ true
pair_halves n h = ground arith

pair_char :
    (n : ℕ)
    → 0x10000 + (0xd800 + n / 0x400 - 0xd800) * 0x400 + (0xdc00 + n % 0x400 - 0xdc00) ≡ 0x10000 + n
pair_char n = omega arith

outside :
    (c : ℕ)
    → IsScalar c
    → ltb c 0x10000 ≡ false
    → (c - 0x10000 < 0x100000) × (0x10000 + (c - 0x10000) ≡ c)
outside c (inl h) e = ground arith
outside c (inr (h, g)) e = (ground arith, ground arith)

lossy-units :
    (c : ℕ) (us : List ℕ)
    → IsScalar c
    → from_utf16_lossy (utf16_units c ++ us) ≡ c ∷ from_utf16_lossy us
lossy-units c us h = elim (Bool-cases (ltb c 0x10000)) [
  | inl e ↦ rw e (lossy_unit c us (not_surrogate c h))
  | inr e ↦
      let (low, total) = outside c h e in
      let n = c - 0x10000 in
      rw e (
        lossy_pair (0xd800 + n / 0x400) (0xdc00 + n % 0x400) us (pair_surrogate n low)
          (pair_halves n low)
        ∙ ap (λ k. k ∷ from_utf16_lossy us) (pair_char n ∙ total))
]

pub from_utf16_lossy-encode_utf16 :
    (cs : List ℕ) → All IsText cs → from_utf16_lossy (encode_utf16 cs) ≡ cs
from_utf16_lossy-encode_utf16 [] all = refl
from_utf16_lossy-encode_utf16 (c ∷ cs) (h, all) =
    lossy-units c (encode_utf16 cs) h.0 ∙ ap (◌∷◌ c) (from_utf16_lossy-encode_utf16 cs all)

All-append : (us vs : List ℕ) → All IsUnit us → All IsUnit vs → All IsUnit (us ++ vs)
All-append [] vs h g = g
All-append (u ∷ us) vs (h, hs) g = (h, All-append us vs hs g)

units-IsUnit : (c : ℕ) → IsText c → All IsUnit (utf16_units c)
units-IsUnit c h = elim (Bool-cases (ltb c 0x10000)) [
  | inl e ↦ rw e ((h.1, ground arith), tt)
  | inr e ↦
      let (low, total) = outside c h.0 e in
      rw e ((omega arith, omega arith), ((omega arith, omega arith), tt))
]

encode_utf16-IsUnit : (cs : List ℕ) → All IsText cs → All IsUnit (encode_utf16 cs)
encode_utf16-IsUnit [] all = tt
encode_utf16-IsUnit (c ∷ cs) (h, all) =
    All-append (utf16_units c) (encode_utf16 cs) (units-IsUnit c h) (encode_utf16-IsUnit cs all)

unit_read : (u : ℕ) → IsUnit u → from_le_bytes ((u % 256) ∷ (u / 256) ∷ []) ≡ u
unit_read u h = omega arith

not_nul : (u : ℕ) → IsUnit u → (((u % 256) == 0) && ((u / 256) == 0)) ≡ false
not_nul u h = ground arith

units_to_nul-unit_bytes :
    (us rest : List ℕ) → All IsUnit us → units_to_nul (unit_bytes us ++ 0 ∷ 0 ∷ rest) ≡ us
units_to_nul-unit_bytes [] rest all = refl
units_to_nul-unit_bytes (u ∷ us) rest (h, all) = rw (not_nul u h) (
    ap (λ v. v ∷ units_to_nul (unit_bytes us ++ 0 ∷ 0 ∷ rest)) (unit_read u h)
    ∙ ap (◌∷◌ u) (units_to_nul-unit_bytes us rest all))

pub decode_description-encoded :
    (cs rest : List ℕ)
    → All IsText cs
    → decode_description (unit_bytes (encode_utf16 cs) ++ 0 ∷ 0 ∷ rest) ≡ cs
decode_description-encoded cs rest all =
    ap from_utf16_lossy
      (units_to_nul-unit_bytes (encode_utf16 cs) rest (encode_utf16-IsUnit cs all))
    ∙ from_utf16_lossy-encode_utf16 cs all
