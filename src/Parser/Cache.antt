-- ===== src/Parser/Cache.antt =====
-- src/parser.rs: `CachedSlices`, `Parser::create`, `property_values_start`, `parse_next_property`,
-- `find_property` and `property_bytes_at`. A call returns its result with the new cache; on an
-- error the cache keeps what was parsed before.
pub mod Layout
pub mod Lookup
pub mod Walk
pub mod Probe
pub mod Search
pub mod Names
use ferrisetw.Base.{
  ℕ, zero, suc, ◌+◌, ◌-◌, ◌%◌, String, Bool, true, false, ◌||◌, Option, none, some, List, [], ◌∷◌,
  ◌++◌, ltb, leb, ◌==◌, ◌=s=◌, if◌then◌else◌, length, get_elem?, get_last?, get_to, get_from,
}
use ferrisetw.Tdh.Property.{Property, name}
use ferrisetw.Record.{EventRecord, PropertySlice, Externals, Schema, DecodingSource}
use ferrisetw.Parser.Result.{ParserResult, ok, err, not_found, property_error, ◌>>=◌}
use ferrisetw.Parser.Size.{find_property_size}

pub record CachedSlices : Type 0 where
  pub slices : List PropertySlice
  pub next_probe : ℕ
  pub last_cached_offset : ℕ
  pub data_start : Option ℕ

-- `EVENT_HEADER_EXT_TYPE_EVENT_SCHEMA_TL` is 11 and `EVENT_HEADER_EXT_TYPE_PROV_TRAITS` is 12.
abbrev has_metadata : List ℕ → Bool
has_metadata [] = false
has_metadata (ext_type ∷ items) = (ext_type == 11 || ext_type == 12) || has_metadata items

unfoldable pub property_values_start : EventRecord → Schema → Option ℕ
property_values_start r s = elim s.decoding_source [
  | DecodingSource.tlg ↦ if has_metadata r.extended_data then some 0 else none
  | _ ↦ some 0
]

unfoldable pub create : EventRecord → Schema → CachedSlices
unfolding property_values_start
create r s = record {
  slices = [];
  next_probe = 0;
  last_cached_offset = 0;
  data_start = property_values_start r s;
}

-- The probe: `rounds` positions are left, and `i` have been tried.
unfoldable pub probe : String → List PropertySlice → ℕ → ℕ → ℕ → Option (ℕ × PropertySlice)
probe n slices next_probe zero i = none
probe n slices next_probe (suc rounds) i =
    let idx = (next_probe + i) % length slices in
    let rest = probe n slices next_probe rounds (i + 1) in
    elim (get_elem? slices idx) [
      | none ↦ none
      | some s ↦ if name s.property =s= n then some (idx, s) else rest
    ]

-- A parser: the event and the top-level properties of its schema.
module _ (x : Externals) (r : EventRecord) (properties : List Property) where
  -- The located bytes join the cache.
  push_slice : CachedSlices → Property → ℕ → List ℕ → ParserResult CachedSlices
  push_slice c p size remaining = elim (get_to size remaining) [
    | none ↦ err (property_error "Property length out of buffer bounds")
    | some buffer ↦ ok (record c {
      slices = c.slices ++ (record { property = p; buffer = buffer }) ∷ [];
      last_cached_offset = c.last_cached_offset + size;
    })
  ]

  parse_from : CachedSlices → Property → ℕ → ParserResult CachedSlices
  unfolding push_slice
  parse_from c p data_start = elim (get_from (data_start + c.last_cached_offset) r.user_buffer) [
    | none ↦ err (property_error "Invalid buffer bounds")
    | some remaining ↦ do
      size ← find_property_size x r p c.slices remaining
      push_slice c p size remaining
  ]

  unfoldable pub parse_next_property : CachedSlices → ParserResult CachedSlices
  unfolding parse_from get_to get_from
  parse_next_property c = elim (get_elem? properties (length c.slices)) [
    | none ↦ err not_found
    | some p ↦ elim c.data_start [
      | none ↦ err (property_error "unsupported event layout: inline TraceLogging metadata")
      | some data_start ↦ parse_from c p data_start
    ]
  ]

  abbrev pub is_named : String → Option PropertySlice → Bool
  is_named n none = false
  is_named n (some s) = name s.property =s= n

  -- `while cache.slices.len() < self.properties.len()`. A round parses one property, so that as
  -- many rounds as properties are left are enough.
  unfoldable pub parse_until : ℕ → String → CachedSlices → ParserResult PropertySlice × CachedSlices
  parse_until zero n c = (err not_found, c)
  parse_until (suc rounds) n c = elim (ltb (length c.slices) (length properties)) [
    | false ↦ (err not_found, c)
    | true ↦ elim (parse_next_property c) [
      | err e ↦ (err e, c)
      | ok c' ↦ elim (get_last? c'.slices) [
        | none ↦ (err not_found, c')
        | some last ↦ if name last.property =s= n then (ok last, c') else parse_until rounds n c'
      ]
    ]
  ]

  unfoldable pub find_property : String → CachedSlices → ParserResult PropertySlice × CachedSlices
  unfolding parse_until
  find_property n c = elim (probe n c.slices c.next_probe (length c.slices) 0) [
    | some (idx, s) ↦ (ok s, record c { next_probe = (idx + 1) % length c.slices })
    | none ↦ parse_until (length properties - length c.slices) n c
  ]

  -- `while cache.slices.len() <= index`, with `index + 1 - len` rounds.
  unfoldable pub fill : ℕ → ℕ → CachedSlices → ParserResult (Unit {0}) × CachedSlices
  fill zero index c = (ok tt, c)
  fill (suc rounds) index c = elim (leb (length c.slices) index) [
    | false ↦ (ok tt, c)
    | true ↦ elim (parse_next_property c) [ err e ↦ (err e, c) | ok c' ↦ fill rounds index c' ]
  ]

  bytes_of : ℕ → ParserResult (Unit {0}) × CachedSlices → ParserResult (List ℕ) × CachedSlices
  bytes_of index (err e, c) = (err e, c)
  bytes_of index (ok _, c) = elim (get_elem? c.slices index) [
    | none ↦ (err not_found, c)
    | some s ↦ (ok s.buffer, c)
  ]

  unfoldable pub property_bytes_at : ℕ → CachedSlices → ParserResult (List ℕ) × CachedSlices
  unfolding fill bytes_of
  property_bytes_at index c = bytes_of index (fill (suc index - length c.slices) index c)
