-- ===== src/Parser/Cache/Lookup.antt =====
-- Lookups one after the other on the parser of src/parser.rs: what holds after any history of
-- `find_property` and `property_bytes_at`.
use ferrisetw.Base.{
  ℕ, zero, suc, ◌≡◌, inl, inr, String, List, [], ◌∷◌, ltb, leb, length, get_elem?, get_last?,
  Option-cases, Bool-cases, ◌=s=◌,
}
use ferrisetw.Tdh.Property.{Property, name}
use ferrisetw.Record.{EventRecord, Externals, Schema}
use ferrisetw.Parser.Result.{ParserResult, ok, err, ParserResult-cases}
use ferrisetw.Parser.Cache.{
  CachedSlices, create, parse_next_property, find_property, property_bytes_at, parse_until, probe,
  fill, bytes_of,
}
use ferrisetw.Parser.Cache.Layout.{IsLaid, create-IsLaid, parse_next-IsLaid}

pub data Lookup : Type 0 where
  by_name : String → Lookup
  by_index : ℕ → Lookup

module _ (x : Externals) (r : EventRecord) (properties : List Property) where
  -- The cache after one lookup, and after a history of them.
  unfoldable pub look : CachedSlices → Lookup → CachedSlices
  look c (by_name n) = (find_property x r properties n c).1
  look c (by_index i) = (property_bytes_at x r properties i c).1

  unfoldable pub run : CachedSlices → List Lookup → CachedSlices
  unfolding look
  run c [] = c
  run c (l ∷ ls) = run (look c l) ls

  -- What successful rounds of the walk and moves of the probe keep, every lookup keeps.
  module _ (P : CachedSlices → Type 0)
      (parsed : (c c' : CachedSlices) → P c → parse_next_property x r properties c ≡ ok c' → P c')
      (probed : (c : CachedSlices) (i : ℕ) → P c → P (record c { next_probe = i })) where
    parse_until-keeps :
        (rounds : ℕ) (n : String) (c : CachedSlices)
        → P c
        → P (parse_until x r properties rounds n c).1
    unfolding parse_until
    parse_until-keeps zero n c p = p
    parse_until-keeps (suc rounds) n c p =
        elim (Bool-cases (ltb (length c.slices) (length properties))) [
          | inr e ↦ rw (e, parse_until) p
          | inl e ↦ elim (ParserResult-cases (parse_next_property x r properties c)) [
            | inr (error, f) ↦ rw (e, f, parse_until) p
            | inl (c', f) ↦ elim (Option-cases (get_last? c'.slices)) [
              | inl g ↦ rw (e, f, g, parse_until) (parsed c c' p f)
              | inr (last, g) ↦ elim (Bool-cases (name last.property =s= n)) [
                | inl hit ↦ rw (e, f, g, hit, parse_until) (parsed c c' p f)
                | inr miss ↦
                    rw (e, f, g, miss, parse_until)
                      (parse_until-keeps rounds n c' (parsed c c' p f))
              ]
            ]
          ]
        ]

    find_property-keeps :
        (n : String) (c : CachedSlices) → P c → P (find_property x r properties n c).1
    unfolding find_property
    find_property-keeps n c p =
        elim (Option-cases (probe n c.slices c.next_probe (length c.slices) 0)) [
          | inl e ↦ rw (e, find_property) (parse_until-keeps _ n c p)
          | inr ((idx, s), e) ↦ rw (e, find_property) (probed c _ p)
        ]

    fill-keeps :
        (rounds index : ℕ) (c : CachedSlices) → P c → P (fill x r properties rounds index c).1
    unfolding fill
    fill-keeps zero index c p = p
    fill-keeps (suc rounds) index c p = elim (Bool-cases (leb (length c.slices) index)) [
      | inr e ↦ rw (e, fill) p
      | inl e ↦ elim (ParserResult-cases (parse_next_property x r properties c)) [
        | inr (error, f) ↦ rw (e, f, fill) p
        | inl (c', f) ↦ rw (e, f, fill) (fill-keeps rounds index c' (parsed c c' p f))
      ]
    ]

    bytes_of-keeps :
        (index : ℕ) (m : ParserResult (Unit {0}) × CachedSlices)
        → P m.1
        → P (bytes_of x r properties index m).1
    unfolding bytes_of
    bytes_of-keeps index (err e, c) p = p
    bytes_of-keeps index (ok _, c) p = elim (Option-cases (get_elem? c.slices index)) [
      | inl e ↦ rw (e, bytes_of) p
      | inr (s, e) ↦ rw (e, bytes_of) p
    ]

    look-keeps : (l : Lookup) (c : CachedSlices) → P c → P (look c l)
    unfolding look property_bytes_at
    look-keeps (by_name n) c p = find_property-keeps n c p
    look-keeps (by_index i) c p = bytes_of-keeps i _ (fill-keeps _ i c p)

    pub run-keeps : (ls : List Lookup) (c : CachedSlices) → P c → P (run c ls)
    unfolding run
    run-keeps [] c p = p
    run-keeps (l ∷ ls) c p = run-keeps ls (look c l) (look-keeps l c p)

module _ (x : Externals) (r : EventRecord) (s : Schema) where
  -- After any history of lookups on a new parser, the cached slices are the first properties of
  -- the schema in its order, and their buffers one after the other are the bytes of the user buffer
  -- from the start of the values up to `last_cached_offset`, which stays within the buffer.
  pub run-IsLaid : (ls : List Lookup) → IsLaid r s.properties (run x r s.properties (create r s) ls)
  run-IsLaid ls =
      run-keeps x r s.properties (IsLaid r s.properties) (parse_next-IsLaid x r s.properties)
        (λ c i p. record { order = p.order; bytes = p.bytes }) ls (create r s) (create-IsLaid r s)
