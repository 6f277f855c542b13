-- ===== src/Ser/Bounds.antt =====
-- src/ser.rs: the slices that `member_buffer` and `element_end` take are within their bytes.
use ferrisetw.Base.{
  ℕ, ◌-◌, ◌≤◌, ◌≡◌, refl, ap, ◌∙◌, inl, inr, Option, none, some, List, length, take, drop, le→leb,
  length-drop, get_range, get_to, get_from, get_to-cases, get_from-cases, Option-cases, arith,
}
use ferrisetw.Tdh.Property.{Property, Members, nil, cons}
use ferrisetw.Record.{EventRecord, Externals, pointer_size}
use ferrisetw.Parser.Result.{and_then}
use ferrisetw.Ser.Size.{member_size}
use ferrisetw.Ser.Struct.{member_buffer, element_end}
use mathlib.Core.Option.{some_inj}

and_then-inv :
    {A B : Type 0} (o : Option A) (f : A → Option B) (b : B)
    → and_then o f ≡ some b
    → (a : A) × (o ≡ some a) × (f a ≡ some b)
and_then-inv none f b e = cc
and_then-inv (some a) f b e = (a, refl, e)

get_from-le :
    (n : ℕ) (xs ys : List ℕ) → get_from n xs ≡ some ys → (n ≤ length xs) × (ys ≡ drop n xs)
get_from-le n xs ys e = elim (get_from-cases n xs) [ inl f ↦ cc | inr (le, f) ↦ (le, cc) ]

get_to-le : (n : ℕ) (xs ys : List ℕ) → get_to n xs ≡ some ys → n ≤ length xs
get_to-le n xs ys e = elim (get_to-cases n xs) [ inl f ↦ cc | inr (le, f) ↦ le ]

-- A value was computed.
abbrev pub IsTotal : {A : Type 0} → Option A → Type 0
IsTotal {A} m = (a : A) × (m ≡ some a)

module _ (x : Externals) (r : EventRecord) where
  member_buffer-bounds :
      (p : Property) (bytes : List ℕ) (offset : ℕ) (buffer : List ℕ) (next : ℕ)
      → member_buffer x r p bytes offset ≡ some (buffer, next)
      → (offset ≤ next) × (next ≤ length bytes)
  unfolding member_buffer
  member_buffer-bounds p bytes offset buffer next e =
      let (remaining, f, g) = and_then-inv (get_from offset bytes) _ (buffer, next) e in
      let (size, h, k) = and_then-inv (member_size x (pointer_size r) p remaining) _ _ g in
      let (b, l, m) = and_then-inv (get_to size remaining) _ _ k in
      let (le, at) = get_from-le offset bytes remaining f in
      let fits = get_to-le size remaining b l in
      let len = ap length at ∙ length-drop offset bytes in
      let sum = ap (λ t. t.1) (some_inj.0 m) in (omega arith, omega arith)

  -- The end of an element lies between its start and the end of the bytes.
  pub element_end-bounds :
      (ms : Members) (bytes : List ℕ) (offset end : ℕ)
      → offset ≤ length bytes
      → element_end x r ms bytes offset ≡ some end
      → (offset ≤ end) × (end ≤ length bytes)
  unfolding element_end
  element_end-bounds nil bytes offset end le e = let f = some_inj.0 e in (omega arith, omega arith)
  element_end-bounds (cons p ms) bytes offset end le e =
      elim (Option-cases (member_buffer x r p bytes offset)) [
        | inl f ↦ cc (rw (f, element_end) at e)
        | inr ((buffer, next), f) ↦
            let (lo, hi) = member_buffer-bounds p bytes offset buffer next f in
            let (lo', hi') = element_end-bounds ms bytes next end hi (rw (f, element_end) at e) in
            (omega arith, hi')
      ]

  -- `element within buffer`: the expectation of `StructArraySer::serialize` is met.
  element-in_bounds :
      (ms : Members) (bytes : List ℕ) (offset end : ℕ)
      → offset ≤ length bytes
      → element_end x r ms bytes offset ≡ some end
      → IsTotal (get_range offset end bytes)
  unfolding get_range
  element-in_bounds ms bytes offset end le e =
      let (lo, hi) = element_end-bounds ms bytes offset end le e in
      (
        take (end - offset) (drop offset bytes),
        rw (le→leb offset end lo, le→leb end (length bytes) hi) refl,
      )

  pub in_bounds_not_none :
      (ms : Members) (bytes : List ℕ) (offset end : ℕ)
      → offset ≤ length bytes
      → element_end x r ms bytes offset ≡ some end
      → ¬ (get_range offset end bytes ≡ none)
  in_bounds_not_none ms bytes offset end le e f =
      let (element_bytes, g) = element-in_bounds ms bytes offset end le e in cc
