-- ===== src/Parser/Cache/Names.antt =====
-- Lookups by name on the parser of src/parser.rs. Where the schema's names are distinct they do not
-- depend on the lookups before them; where a name repeats they do.
use ferrisetw.Base.{
  ℕ, ◌+◌, ◌-◌, ◌%◌, ◌≤◌, ◌<◌, ◌≡◌, refl, sym, ap, subst, ◌∙◌, inl, inr, String, none, some, List,
  [], length, get_elem?, length-map, length-take, get_elem?-map, get_elem?-of_take, get_elem?-lt,
  Option-cases, arith, eq_iff,
}
use native.Mathlib.Nat.{mod-eq_of_lt}
use ferrisetw.Tdh.Property.{Property, name}
use ferrisetw.Record.{EventRecord, PropertySlice, Externals, Schema}
use ferrisetw.Parser.Result.{ParserResult, ok}
use ferrisetw.Parser.Cache.{CachedSlices, create, find_property, parse_until, probe}
use ferrisetw.Parser.Cache.Probe.{
  IsNamed, first_named, first_named-some, first_named-none, probe-some, probe-first_round,
  probe-none, probe_offset, probe_offset-lt, probe_offset-mod,
}
use ferrisetw.Parser.Cache.Search.{found, parse_until-advance, parse_until-first, parse_until-reset}
use ferrisetw.Parser.Cache.Layout.{IsLaid}
use ferrisetw.Parser.Cache.Lookup.{Lookup, run, run-IsLaid}
use ferrisetw.Parser.Cache.Walk.{reset, IsWalked, run-IsWalked}

-- No two positions of a schema have the same name.
abbrev pub IsDistinct : List Property → Type 0
IsDistinct ps =
    (i j : ℕ) (p q : Property)
    → get_elem? ps i ≡ some p
    → get_elem? ps j ≡ some q
    → name p ≡ name q
    → i ≡ j

laid_property :
    (r : EventRecord) (properties : List Property) (c : CachedSlices) (i : ℕ) (s : PropertySlice)
    → IsLaid r properties c
    → get_elem? c.slices i ≡ some s
    → get_elem? properties i ≡ some s.property
laid_property r properties c i s laid at =
    get_elem?-of_take (length c.slices) i properties s.property (
      subst (λ (ps : List Property). get_elem? ps i ≡ some s.property) laid.order
        (get_elem?-map c.slices (λ s. s.property) i s at))

laid-le :
    (r : EventRecord) (properties : List Property) (c : CachedSlices)
    → IsLaid r properties c
    → length c.slices ≤ length properties
laid-le r properties c laid = omega (
  arith,
  length-map c.slices (λ (s : PropertySlice). s.property),
  ap length laid.order,
  length-take (length c.slices) properties,
)

-- Under distinct names the probe's hit is the oldest property of the name.
probe-first :
    (r : EventRecord) (properties : List Property) (c : CachedSlices) (n : String) (idx : ℕ)
    (s : PropertySlice)
    → IsDistinct properties
    → IsLaid r properties c
    → get_elem? c.slices idx ≡ some s
    → IsNamed n s
    → first_named n c.slices ≡ some s
probe-first r properties c n idx s distinct laid at named =
    elim (Option-cases (first_named n c.slices)) [
      | inl e ↦ cc (first_named-none n c.slices idx s e at, named)
      | inr (t, e) ↦
          let (i, at_i, named_t) = first_named-some n c.slices t e in
          let same : i ≡ idx =
            distinct i idx t.property s.property (laid_property r properties c i t laid at_i)
              (laid_property r properties c idx s laid at)
              ((eq_iff _ n).0 named_t ∙ sym ((eq_iff _ n).0 named)) in
          e ∙ sym at_i ∙ ap (get_elem? c.slices) same ∙ at
    ]

-- A miss of the probe leaves no located property of the name.
probe-missed :
    (c : CachedSlices) (n : String)
    → probe n c.slices c.next_probe (length c.slices) 0 ≡ none
    → first_named n c.slices ≡ none
probe-missed c n e = elim (Option-cases (first_named n c.slices)) [
  | inl f ↦ f
  | inr (t, f) ↦
      let (i, at, named) = first_named-some n c.slices t f in
      let lt : i < length c.slices = get_elem?-lt c.slices i t at in
      let offset = probe_offset c.next_probe (length c.slices) i in
      cc (
        named,
        probe-none n c.slices c.next_probe (length c.slices) 0 offset e (omega arith)
            (omega (arith, probe_offset-lt c.next_probe (length c.slices) i lt)) t
            (ap (get_elem? c.slices) (probe_offset-mod c.next_probe (length c.slices) i lt) ∙ at)
            (omega arith),
      )
]

find_property-search :
    (x : Externals) (r : EventRecord) (properties : List Property) (n : String)
    (c0 c : CachedSlices)
    → IsDistinct properties
    → c0.slices ≡ []
    → IsWalked x r properties c0 c
    → IsLaid r properties c
    → found (find_property x r properties n c)
      ≡ found (parse_until x r properties (length properties) n c0)
unfolding find_property
find_property-search x r properties n c0 c distinct e0 walked laid =
    elim (Option-cases (probe n c.slices c.next_probe (length c.slices) 0)) [
      | inr ((idx, s), e) ↦
          let (at, named) = probe-some n c.slices c.next_probe (length c.slices) 0 idx s e in
          rw (e, find_property)
            (sym (
              ap (λ (j : ℕ). found (parse_until x r properties j n c0)) split
              ∙ parse_until-first x r properties n (length c.slices) left c0
                  (reset x r properties c) s e0 walked
                  (probe-first r properties c n idx s distinct laid at named)))
      | inl e ↦
          rw (e, find_property)
            (sym (
              ap (λ (j : ℕ). found (parse_until x r properties j n c0)) split
              ∙ ap found (
                  parse_until-advance x r properties n (length c.slices) left c0
                    (reset x r properties c) walked (probe-missed c n e))
              ∙ parse_until-reset x r properties n left c))
    ]
  where
    left : ℕ
    left = length properties - length c.slices

    split : length properties ≡ length c.slices + left
    split = omega (arith, laid-le r properties c laid)

-- Where the names of the schema are distinct, a lookup by name gives the same slice or the same
-- error after any history of lookups as on a new parser.
pub find_property_order :
    (x : Externals) (r : EventRecord) (s : Schema) (ls : List Lookup) (n : String)
    → IsDistinct s.properties
    → (find_property x r s.properties n (run x r s.properties (create r s) ls)).0
      ≡ (find_property x r s.properties n (create r s)).0
unfolding create run
find_property_order x r s ls n distinct =
    find_property-search x r s.properties n (create r s) _ distinct none_yet (run-IsWalked x r s ls)
      (run-IsLaid x r s ls)
    ∙ sym (
        find_property-search x r s.properties n (create r s) (create r s) distinct none_yet
          (run-IsWalked x r s []) (run-IsLaid x r s []))
  where
    none_yet : (create r s).slices ≡ []
    none_yet = refl

find_property-hit :
    (x : Externals) (r : EventRecord) (properties : List Property) (c : CachedSlices) (n : String)
    (s : PropertySlice)
    → get_elem? c.slices c.next_probe ≡ some s
    → IsNamed n s
    → find_property x r properties n c
      ≡ (ok s, record c { next_probe = (c.next_probe + 1) % length c.slices })
unfolding find_property
find_property-hit x r properties c n s at named =
    rw (probe-first_round n c.slices c.next_probe s at named, find_property)

-- Where a name repeats, a lookup continues behind the last one: of two neighbours of one name, of
-- which the probe stands on the first, two equal lookups give first the one and then the other.
pub find_property_repeated :
    (x : Externals) (r : EventRecord) (properties : List Property) (c : CachedSlices) (n : String)
    (s t : PropertySlice)
    → get_elem? c.slices c.next_probe ≡ some s
    → get_elem? c.slices (c.next_probe + 1) ≡ some t
    → IsNamed n s
    → IsNamed n t
    → let again = (find_property x r properties n c).1 in
      ((find_property x r properties n c).0 ≡ ok s)
      × ((find_property x r properties n again).0 ≡ ok t)
find_property_repeated x r properties c n s t at_s at_t named_s named_t =
    let lt = get_elem?-lt c.slices (c.next_probe + 1) t at_t in
    let moved : CachedSlices = record c { next_probe = (c.next_probe + 1) % length c.slices } in
    let hit = find_property-hit x r properties c n s at_s named_s in
    (
      ap found hit,
      ap
            (λ (q : ParserResult PropertySlice × CachedSlices).
              found (find_property x r properties n q.1))
            hit
          ∙ ap found (
              find_property-hit x r properties moved n t
                (ap (get_elem? c.slices) (mod-eq_of_lt lt) ∙ at_t) named_t),
    )
