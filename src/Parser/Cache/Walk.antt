-- ===== src/Parser/Cache/Walk.antt =====
-- The walk of src/parser.rs as a function of the number of rounds, and positional lookups, which
-- do not depend on the lookups before them.
use ferrisetw.Base.{
  ℕ, zero, suc, ◌+◌, ◌≤◌, ◌<◌, ◌≡◌, refl, sym, ap, subst, ◌∙◌, inl, inr, none, some, List, [], ◌∷◌,
  leb, length, get_elem?, length-append, get_elem?-append, Option-cases, Bool-cases, arith, tests,
}
use native.Mathlib.Decide.{ℕ_discrete}
use ferrisetw.Tdh.Property.{Property}
use ferrisetw.Record.{EventRecord, PropertySlice, Externals, Schema}
use ferrisetw.Parser.Result.{
  ParserResult, ParserError, not_found, ok, err, ◌>>=◌, >>=-eq-ok, ParserResult-cases,
}
use ferrisetw.Parser.Cache.{
  CachedSlices, create, parse_next_property, property_bytes_at, fill, bytes_of,
}
use ferrisetw.Parser.Cache.Layout.{parse_next-Parsed}
use ferrisetw.Parser.Cache.Lookup.{Lookup, run, run-keeps}

module _ (x : Externals) (r : EventRecord) (properties : List Property) where
  unfoldable pub advance : ℕ → CachedSlices → ParserResult CachedSlices
  advance zero c = ok c
  advance (suc k) c = advance k c >>= parse_next_property x r properties

  abbrev pub reset : CachedSlices → CachedSlices
  reset c = record c { next_probe = 0 }

  pub parse_next-reset :
      (c c' : CachedSlices)
      → parse_next_property x r properties c ≡ ok c'
      → parse_next_property x r properties (reset c) ≡ ok (reset c')
  unfolding parse_next_property
  parse_next-reset c c' h = ground arith

  pub parse_next-reset_err :
      (c : CachedSlices) (e : ParserError)
      → parse_next_property x r properties c ≡ err e
      → parse_next_property x r properties (reset c) ≡ err e
  unfolding parse_next_property
  parse_next-reset_err c e h = ground arith

  pub parse_next-length :
      (c c' : CachedSlices)
      → parse_next_property x r properties c ≡ ok c'
      → length c'.slices ≡ suc (length c.slices)
  parse_next-length c c' h =
      let done = parse_next-Parsed x r properties c c' h in
      let s : PropertySlice = record { property = done.prop; buffer = done.buffer } in
      ap (λ (d : CachedSlices). length d.slices) done.after
      ∙ omega (arith, length-append c.slices (s ∷ []))

  parse_next-get_elem? :
      (c c' : CachedSlices) (i : ℕ)
      → parse_next_property x r properties c ≡ ok c'
      → i < length c.slices
      → get_elem? c'.slices i ≡ get_elem? c.slices i
  parse_next-get_elem? c c' i h lt =
      let done = parse_next-Parsed x r properties c c' h in
      ap (λ (d : CachedSlices). get_elem? d.slices i) done.after
      ∙ get_elem?-append c.slices (record { property = done.prop; buffer = done.buffer }) i lt

  pub advance_err :
      (k m : ℕ) (c : CachedSlices) (e : ParserError)
      → advance k c ≡ err e
      → k ≤ m
      → advance m c ≡ err e
  unfolding advance
  advance_err zero zero c e h le = h
  advance_err (suc k) zero c e h le = absurd (omega arith)
  advance_err k (suc m) c e h le = elim (ℕ_discrete k (suc m)) [
    | yes same ↦ subst (λ j. advance j c ≡ err e) same h
    | no other ↦ rw (advance_err k m c e h (omega arith), advance)
  ]

  pub advance-length :
      (k : ℕ) (c0 c : CachedSlices) → c0.slices ≡ [] → advance k c0 ≡ ok c → length c.slices ≡ k
  unfolding advance
  advance-length zero c0 c e0 h = ground arith
  advance-length (suc k) c0 c e0 h =
      let (b, hb, hc) = >>=-eq-ok (advance k c0) (parse_next_property x r properties) h in
      parse_next-length b c hc ∙ ap suc (advance-length k c0 b e0 hb)

  -- A longer walk passed through each shorter one, and kept what that had located.
  pub advance_prefix :
      (k m i : ℕ) (c0 c : CachedSlices)
      → c0.slices ≡ []
      → advance m c0 ≡ ok c
      → k ≤ m
      → i < k
      → (d : CachedSlices) × (advance k c0 ≡ ok d) × (get_elem? d.slices i ≡ get_elem? c.slices i)
  unfolding advance
  advance_prefix k zero i c0 c e0 h le lt = absurd (omega arith)
  advance_prefix k (suc m) i c0 c e0 h le lt = elim (ℕ_discrete k (suc m)) [
    | yes same ↦ (c, subst (λ j. advance j c0 ≡ ok c) (sym same) h, refl)
    | no other ↦
        let (b, hb, hc) = >>=-eq-ok (advance m c0) (parse_next_property x r properties) h in
        let (d, hd, same) = advance_prefix k m i c0 b e0 hb (omega arith) lt in
        (
          d,
          hd,
          same ∙ sym (parse_next-get_elem? b c i hc (omega (arith, advance-length m c0 b e0 hb))),
        )
  ]

  slice_at : ℕ → ParserResult CachedSlices → ParserResult (List ℕ)
  slice_at i (err e) = err e
  slice_at i (ok c) = elim (get_elem? c.slices i) [ none ↦ err not_found | some s ↦ ok s.buffer ]

  abbrev pub IsWalked : CachedSlices → CachedSlices → Type 0
  IsWalked c0 c = advance (length c.slices) c0 ≡ ok (reset c)

  pub parse_next-IsWalked :
      (c0 c c' : CachedSlices)
      → IsWalked c0 c
      → parse_next_property x r properties c ≡ ok c'
      → IsWalked c0 c'
  unfolding advance
  parse_next-IsWalked c0 c c' w h =
      rw (parse_next-length c c' h, advance, w) (parse_next-reset c c' h)

  found-slice_at :
      (i : ℕ) (c0 c : CachedSlices)
      → c0.slices ≡ []
      → IsWalked c0 c
      → suc i ≤ length c.slices
      → (bytes_of x r properties i (ok tt, c)).0 ≡ slice_at i (advance (suc i) c0)
  unfolding bytes_of slice_at
  found-slice_at i c0 c e0 w le =
      let (d, hd, same) = advance_prefix (suc i) _ i c0 (reset c) e0 w le (omega arith) in
      elim (Option-cases (get_elem? c.slices i)) [
        | inl e ↦ rw (hd, slice_at, same, bytes_of, e)
        | inr (s, e) ↦ rw (hd, slice_at, same, bytes_of, e)
      ]

  fill-slice_at :
      (n i : ℕ) (c0 c : CachedSlices)
      → c0.slices ≡ []
      → IsWalked c0 c
      → suc i ≤ n + length c.slices
      → (bytes_of x r properties i (fill x r properties n i c)).0 ≡ slice_at i (advance (suc i) c0)
  unfolding fill
  fill-slice_at zero i c0 c e0 w le = found-slice_at i c0 c e0 w (omega arith)
  fill-slice_at (suc n) i c0 c e0 w le = elim (Bool-cases (leb (length c.slices) i)) [
    | inr e ↦ rw (e, fill) (found-slice_at i c0 c e0 w (ground arith))
    | inl e ↦ elim (ParserResult-cases (parse_next_property x r properties c)) [
      | inr (error, f) ↦
          rw
            (
              e,
              f,
              fill,
              advance_err (suc (length c.slices)) (suc i) c0 error (stopped error f)
                  (omega (tests, e)),
            )
            (unfold bytes_of slice_at in refl)
      | inl (c', f) ↦
          rw (e, f, fill)
            (fill-slice_at n i c0 c' e0 (parse_next-IsWalked c0 c c' w f)
              (omega (arith, parse_next-length c c' f)))
    ]
  ]
    where
      stopped :
          (error : ParserError)
          → parse_next_property x r properties c ≡ err error
          → advance (suc (length c.slices)) c0 ≡ err error
      stopped error f = unfold advance in rw w (parse_next-reset_err c error f)

module _ (x : Externals) (r : EventRecord) (s : Schema) where
  pub run-IsWalked :
      (ls : List Lookup)
      → IsWalked x r s.properties (create r s) (run x r s.properties (create r s) ls)
  unfolding create advance
  run-IsWalked ls =
      run-keeps x r s.properties (IsWalked x r s.properties (create r s))
        (parse_next-IsWalked x r s.properties (create r s)) (λ c i w. w) ls (create r s) refl

  -- A positional lookup gives the same bytes or the same error after any history of lookups as on a
  -- new parser.
  pub property_bytes_at_order :
      (ls : List Lookup) (i : ℕ)
      → (property_bytes_at x r s.properties i (run x r s.properties (create r s) ls)).0
        ≡ (property_bytes_at x r s.properties i (create r s)).0
  unfolding property_bytes_at create advance
  property_bytes_at_order ls i =
      fill-slice_at x r s.properties _ i (create r s) _ refl (run-IsWalked ls) (omega arith)
      ∙ sym (fill-slice_at x r s.properties _ i (create r s) (create r s) refl refl (omega arith))
