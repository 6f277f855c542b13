-- ===== src/Parser/Cache/Search.antt =====
-- The search of `find_property` in src/parser.rs past what is located: its rounds against the walk.
use ferrisetw.Base.{
  ℕ, zero, suc, ◌+◌, ◌≡◌, refl, sym, ap, ◌∙◌, inl, inr, String, none, some, List, [], ◌∷◌, ◌++◌,
  true, false, ltb, lt→ltb, length, get_last?, get_elem?-lt, get_last?-append, Option-cases,
  Bool-cases, arith, if◌then◌else◌, ◌=s=◌,
}
use mathlib.Core.Option.{some_inj}
use native.Mathlib.Nat.{zero-add}
use ferrisetw.Tdh.Property.{Property, name}
use ferrisetw.Record.{EventRecord, PropertySlice, Externals}
use ferrisetw.Parser.Result.{ok-injective, ParserResult, ok, >>=-eq-ok, ParserResult-cases}
use ferrisetw.Parser.Cache.{CachedSlices, parse_next_property, parse_until}
use ferrisetw.Parser.Cache.Probe.{IsNamed, first_named, first_named-append}
use ferrisetw.Parser.Cache.Layout.{parse_next-Parsed}
use ferrisetw.Parser.Cache.Walk.{advance, reset, parse_next-reset, parse_next-reset_err}

abbrev pub found : ParserResult PropertySlice × CachedSlices → ParserResult PropertySlice
found q = q.0

add-suc_swap : (k m : ℕ) → suc k + m ≡ k + suc m
add-suc_swap k m = omega arith

module _ (x : Externals) (r : EventRecord) (properties : List Property) (n : String) where
  -- A successful round pushed one slice, and there was a property left to parse.
  pushed :
      (b d : CachedSlices)
      → parse_next_property x r properties b ≡ ok d
      → (s : PropertySlice) × (d.slices ≡ b.slices ++ s ∷ [])
        × (ltb (length b.slices) (length properties) ≡ true)
  pushed b d h =
      let done = parse_next-Parsed x r properties b d h in
      let s : PropertySlice = record { property = done.prop; buffer = done.buffer } in
      (
        s,
        ap (λ (c : CachedSlices). c.slices) done.after,
        lt→ltb _ _ (get_elem?-lt properties _ done.prop done.expected),
      )

  round_hit :
      (m : ℕ) (b d : CachedSlices) (s : PropertySlice)
      → parse_next_property x r properties b ≡ ok d
      → ltb (length b.slices) (length properties) ≡ true
      → get_last? d.slices ≡ some s
      → IsNamed n s
      → parse_until x r properties (suc m) n b ≡ (ok s, d)
  unfolding parse_until
  round_hit m b d s h more last hit = rw (more, h, last, hit, parse_until)

  round_miss :
      (m : ℕ) (b d : CachedSlices) (s : PropertySlice)
      → parse_next_property x r properties b ≡ ok d
      → ltb (length b.slices) (length properties) ≡ true
      → get_last? d.slices ≡ some s
      → (name s.property =s= n) ≡ false
      → parse_until x r properties (suc m) n b ≡ parse_until x r properties m n d
  unfolding parse_until
  round_miss m b d s h more last miss = rw (more, h, last, miss, parse_until)

  last_pushed :
      (b d : CachedSlices) (s : PropertySlice)
      → d.slices ≡ b.slices ++ s ∷ []
      → get_last? d.slices ≡ some s
  last_pushed b d s e = rw e (get_last?-append b.slices s)

  first_pushed :
      (b d : CachedSlices) (s : PropertySlice)
      → d.slices ≡ b.slices ++ s ∷ []
      → first_named n b.slices ≡ none
      → first_named n d.slices ≡ (if name s.property =s= n then some s else none)
  first_pushed b d s e unnamed = rw (e, first_named-append n b.slices s, unnamed)

  first_kept :
      (b d : CachedSlices) (s t : PropertySlice)
      → d.slices ≡ b.slices ++ s ∷ []
      → first_named n b.slices ≡ some t
      → first_named n d.slices ≡ some t
  first_kept b d s t e named = rw (e, first_named-append n b.slices s, named)

  -- Where the first `k` rounds met no property of the name, the search goes on from there.
  pub parse_until-advance :
      (k m : ℕ) (c0 d : CachedSlices)
      → advance x r properties k c0 ≡ ok d
      → first_named n d.slices ≡ none
      → parse_until x r properties (k + m) n c0 ≡ parse_until x r properties m n d
  unfolding advance
  parse_until-advance zero m c0 d h unnamed =
      cc (ap (λ (j : ℕ). parse_until x r properties j n c0) (zero-add m))
  parse_until-advance (suc k) m c0 d h unnamed =
      let (b, hb, hd) =
        >>=-eq-ok (advance x r properties k c0) (parse_next_property x r properties) h in
      let (s, e, more) = pushed b d hd in
      elim (Option-cases (first_named n b.slices)) [
        | inr (t, named) ↦ cc (first_kept b d s t e named)
        | inl none_yet ↦ elim (Bool-cases (name s.property =s= n)) [
          | inl hit ↦ cc (rw hit at (first_pushed b d s e none_yet))
          | inr miss ↦
              ap (λ (j : ℕ). parse_until x r properties j n c0) (add-suc_swap k m)
              ∙ parse_until-advance k (suc m) c0 b hb none_yet
              ∙ round_miss m b d s hd more (last_pushed b d s e) miss
        ]
      ]

  pub parse_until-first :
      (k m : ℕ) (c0 d : CachedSlices) (s : PropertySlice)
      → c0.slices ≡ []
      → advance x r properties k c0 ≡ ok d
      → first_named n d.slices ≡ some s
      → (parse_until x r properties (k + m) n c0).0 ≡ ok s
  unfolding advance
  parse_until-first zero m c0 d s e0 h named =
      cc (unnamed, ap (λ (c : CachedSlices). first_named n c.slices) (ok-injective h))
    where
      unnamed : first_named n c0.slices ≡ none
      unnamed = rw e0 (unfold first_named in refl)
  parse_until-first (suc k) m c0 d s e0 h named =
      let (b, hb, hd) =
        >>=-eq-ok (advance x r properties k c0) (parse_next_property x r properties) h in
      let (t, e, more) = pushed b d hd in
      let shift = ap (λ (j : ℕ). (parse_until x r properties j n c0).0) (add-suc_swap k m) in
      elim (Option-cases (first_named n b.slices)) [
        | inr (u, old) ↦
            shift
            ∙ parse_until-first k (suc m) c0 b u e0 hb old
            ∙ ap ok (some_inj.0 (sym (first_kept b d t u e old) ∙ named))
        | inl none_yet ↦ elim (Bool-cases (name t.property =s= n)) [
          | inr miss ↦ cc (rw miss at (first_pushed b d t e none_yet), named)
          | inl hit ↦
              shift
              ∙ ap found (
                  parse_until-advance k (suc m) c0 b hb none_yet
                  ∙ round_hit m b d t hd more (last_pushed b d t e) hit)
              ∙ ap ok (some_inj.0 (sym (rw hit at (first_pushed b d t e none_yet)) ∙ named))
        ]
      ]

  -- A round from two caches that differ in the probe only.
  parse_until-reset_round :
      (m : ℕ) (c c' : CachedSlices)
      → parse_next_property x r properties c ≡ ok c'
      → found (parse_until x r properties m n (reset x r properties c'))
        ≡ found (parse_until x r properties m n c')
      → found (parse_until x r properties (suc m) n (reset x r properties c))
        ≡ found (parse_until x r properties (suc m) n c)
  parse_until-reset_round m c c' f ih =
      let (s, e, more) = pushed c c' f in
      let last = last_pushed c c' s e in
      let g = parse_next-reset x r properties c c' f in
      elim (Bool-cases (name s.property =s= n)) [
        | inl hit ↦
            ap found
              (round_hit m (reset x r properties c) (reset x r properties c') s g more last hit)
            ∙ sym (ap found (round_hit m c c' s f more last hit))
        | inr miss ↦
            ap found
              (round_miss m (reset x r properties c) (reset x r properties c') s g more last miss)
            ∙ ih
            ∙ sym (ap found (round_miss m c c' s f more last miss))
      ]

  pub parse_until-reset :
      (m : ℕ) (c : CachedSlices)
      → (parse_until x r properties m n (reset x r properties c)).0
        ≡ (parse_until x r properties m n c).0
  unfolding parse_until
  parse_until-reset zero c = refl
  parse_until-reset (suc m) c = elim (Bool-cases (ltb (length c.slices) (length properties))) [
    | inr e ↦ rw (e, parse_until)
    | inl e ↦ elim (ParserResult-cases (parse_next_property x r properties c)) [
      | inr (error, f) ↦ rw (e, f, parse_next-reset_err x r properties c error f, parse_until)
      | inl (c', f) ↦ parse_until-reset_round m c c' f (parse_until-reset m c')
    ]
  ]
