-- ===== src/Parser/Size.antt =====
-- src/parser.rs: `Parser::find_property_size`, `tdh_property_size` and `read_count_prefix`, with
-- `tdh::property_size` of src/native/tdh.rs.
use ferrisetw.Base.{
  ℕ, zero, suc, ◌+◌, ◌*◌, Bool, true, false, ◌&&◌, not, Option, none, some, List, [], ◌∷◌, ltb,
  ◌==◌, if◌then◌else◌, length, get_elem?, get_to, from_le_bytes, from_be_bytes,
}
use ferrisetw.Tdh.InType.{
  TdhInType, checked_mul, is_pointer, is_content_sized, schema_length_bytes,
  literal_schema_length_bytes,
}
use ferrisetw.Tdh.InType
use ferrisetw.Tdh.OutType.{TdhOutType}
use ferrisetw.Tdh.Lengths.{PropertyCount, PropertyLength, index_value_from_bytes}
use ferrisetw.Tdh.Property.{
  Property, PropertyInfo, value, array, struct, struct_array, unsupported, name, info, fixed_size,
  members_fixed_size,
}
use ferrisetw.Record.{EventRecord, PropertySlice, Externals, pointer_size}
use ferrisetw.Parser.Result.{
  ParserResult, ok, err, property_error, tdh_native_error, return_or, and_then,
}
use mathlib.Core.Option

-- The `index_value` closure: the value of an already parsed property.
unfoldable pub index_value : List PropertySlice → ℕ → Option ℕ
index_value parsed i = and_then (get_elem? parsed i) (λ s. index_value_from_bytes s.buffer)

-- The code units of the whole pairs of bytes, `chunks_exact(2)`.
abbrev pub wide_units : List ℕ → List ℕ
wide_units (a ∷ b ∷ bytes) = from_le_bytes (a ∷ b ∷ []) ∷ wide_units bytes
wide_units _ = []

-- `position(|unit| unit == 0)`
abbrev pub position_zero : List ℕ → Option ℕ
position_zero [] = none
position_zero (u ∷ us) = if u == 0 then some 0 else Option.map suc (position_zero us)

unfoldable pub read_count_prefix : List ℕ → Bool → ParserResult ℕ
unfolding get_to
read_count_prefix buffer big_endian = elim (get_to 2 buffer) [
  | none ↦ err (property_error "counted string does not have length")
  | some count_bytes ↦
      ok (if big_endian then from_be_bytes count_bytes else from_le_bytes count_bytes)
]

-- The counted arms: the count, then that many bytes.
unfoldable pub counted_size : List ℕ → Bool → ParserResult ℕ
unfolding read_count_prefix
counted_size remaining big_endian = elim (read_count_prefix remaining big_endian) [
  | ok byte_count ↦ ok (2 + byte_count)
  | err e ↦ err e
]

abbrev sid_size : List ℕ → ParserResult ℕ
sid_size remaining = elim (get_elem? remaining 1) [
  | none ↦ err (property_error "SID property is truncated")
  | some sub_authority_count ↦ ok (8 + 4 * sub_authority_count)
]

abbrev hex_dump_size : List ℕ → ParserResult ℕ
hex_dump_size remaining = elim (get_to 4 remaining) [
  | none ↦ err (property_error "hexdump property is truncated")
  | some count_bytes ↦ ok (4 + from_le_bytes count_bytes)
]

module _ (x : Externals) (r : EventRecord) where
  open x use {memchr, get_property_size}

  -- A native round trip: a status other than 0 is an error.
  unfoldable pub tdh_property_size : Property → ParserResult ℕ
  tdh_property_size p =
      let (status, size) = get_property_size r (name p) in
      if status == 0 then ok size else err (tdh_native_error status)

  ansi_size : List ℕ → ParserResult ℕ
  ansi_size remaining = elim (memchr 0 remaining) [
    | none ↦ err (property_error "AnsiString property is not null-terminated")
    | some nul_index ↦ ok (nul_index + 1)
  ]

  unicode_size : List ℕ → ParserResult ℕ
  unicode_size remaining = elim (position_zero (wide_units remaining)) [
    | none ↦ err (property_error "UnicodeString property is not null-terminated")
    | some nul_index ↦ ok ((nul_index + 1) * 2)
  ]

  -- The second `match in_type`: sizes read from the field bytes.
  unfoldable pub content_size : TdhInType → TdhOutType → List ℕ → Option (ParserResult ℕ)
  unfolding ansi_size unicode_size counted_size get_to
  content_size TdhInType.ansi_string o remaining = some (ansi_size remaining)
  content_size TdhInType.unicode_string o remaining = some (unicode_size remaining)
  content_size TdhInType.manifest_counted_string o remaining = some (counted_size remaining false)
  content_size TdhInType.counted_string o remaining = some (counted_size remaining false)
  content_size TdhInType.manifest_counted_ansi_string o remaining =
      some (counted_size remaining false)
  content_size TdhInType.counted_ansi_string o remaining = some (counted_size remaining false)
  content_size TdhInType.reversed_counted_string o remaining = some (counted_size remaining true)
  content_size TdhInType.reversed_counted_ansi_string o remaining =
      some (counted_size remaining true)
  content_size TdhInType.manifest_counted_binary o remaining = some (counted_size remaining false)
  content_size TdhInType.non_null_terminated_string o remaining = some (ok (length remaining))
  content_size TdhInType.non_null_terminated_ansi_string o remaining = some (ok (length remaining))
  content_size TdhInType.sid o remaining = some (sid_size remaining)
  content_size TdhInType.wbem_sid o remaining = some (sid_size remaining)
  content_size TdhInType.hex_dump o remaining = some (hex_dump_size remaining)
  content_size TdhInType.binary TdhOutType.ipv6 remaining = some (ok 16)
  content_size _ _ _ = none

  -- A computed size, or TDH's where there is none.
  abbrev or_tdh : Option ℕ → Property → ParserResult ℕ
  or_tdh none p = tdh_property_size p
  or_tdh (some size) p = ok size

  abbrev length_by_index : Property → TdhInType → List PropertySlice → ℕ → ParserResult ℕ
  length_by_index p t parsed i = elim (InType.fixed_size t) [
    | some size ↦ ok size
    | none ↦ or_tdh (and_then (index_value parsed i) (schema_length_bytes t)) p
  ]

  -- The first `match length`: a usable declared length.
  unfoldable pub declared_size :
      Property → TdhInType → List PropertySlice → PropertyLength → Option (ParserResult ℕ)
  unfolding tdh_property_size index_value
  declared_size p t parsed (PropertyLength.length l) =
      if ltb 0 l && not (is_content_sized t)
      then some (ok (literal_schema_length_bytes t l))
      else none
  declared_size p t parsed (PropertyLength.index i) =
      if not (is_content_sized t) then some (length_by_index p t parsed i) else none

  unfoldable pub value_size :
      Property
      → TdhInType
      → TdhOutType
      → PropertyLength
      → List PropertySlice
      → List ℕ
      → ParserResult ℕ
  unfolding declared_size content_size tdh_property_size
  value_size p t o l parsed remaining =
      if is_pointer t
      then ok (pointer_size r)
      else return_or (declared_size p t parsed l)
          (return_or (content_size t o remaining) (or_tdh (InType.fixed_size t) p))

  -- The size of one array element.
  unfoldable pub element_size : TdhInType → PropertyLength → List PropertySlice → Option ℕ
  unfolding index_value
  element_size t (PropertyLength.length zero) parsed = InType.fixed_size t
  element_size t (PropertyLength.length (suc l)) parsed =
      some (literal_schema_length_bytes t (suc l))
  element_size t (PropertyLength.index i) parsed = elim (InType.fixed_size t) [
    | some size ↦ some size
    | none ↦ and_then (index_value parsed i) (schema_length_bytes t)
  ]

  abbrev element_count : PropertyCount → List PropertySlice → Option ℕ
  element_count (PropertyCount.count c) parsed = some c
  element_count (PropertyCount.index i) parsed = index_value parsed i

  -- `elem_size.and_then(|elem| elem.checked_mul(element_count))` and its two fallbacks.
  abbrev total_size : Property → Option ℕ → ℕ → ParserResult ℕ
  total_size p elem_size c = elim (and_then elem_size (λ elem. checked_mul elem c)) [
    | some size ↦ ok size
    | none ↦ if c == 0 then ok 0 else tdh_property_size p
  ]

  unfoldable pub array_size :
      Property → TdhInType → PropertyLength → PropertyCount → List PropertySlice → ParserResult ℕ
  unfolding element_size index_value tdh_property_size
  array_size p t l c parsed =
      let elem_size = if is_pointer t then some (pointer_size r) else element_size t l parsed in
      elim (element_count c parsed) [
        | some n ↦ total_size p elem_size n
        | none ↦ tdh_property_size p
      ]

  -- A structure array whose count travels by reference.
  counted_elements : PropertyInfo → List PropertySlice → Option ℕ
  counted_elements (struct_array members (PropertyCount.index i)) parsed =
      and_then (members_fixed_size (pointer_size r) members)
        (λ elem. and_then (index_value parsed i) (λ c. checked_mul elem c))
  counted_elements _ parsed = none

  unfoldable pub struct_size : Property → List PropertySlice → ParserResult ℕ
  unfolding counted_elements fixed_size index_value tdh_property_size
  struct_size p parsed = elim (fixed_size (pointer_size r) p) [
    | some size ↦ ok size
    | none ↦ or_tdh (counted_elements (info p) parsed) p
  ]

  -- A property that cannot be decoded still occupies its bytes.
  unfoldable pub opaque_size : Property → PropertyLength → List PropertySlice → ParserResult ℕ
  unfolding index_value tdh_property_size
  opaque_size p (PropertyLength.length l) parsed = if ltb 0 l then ok l else tdh_property_size p
  opaque_size p (PropertyLength.index i) parsed = or_tdh (index_value parsed i) p

  abbrev dispatch_size : Property → PropertyInfo → List PropertySlice → List ℕ → ParserResult ℕ
  dispatch_size p (value t o l) parsed remaining = value_size p t o l parsed remaining
  dispatch_size p (array t o l c) parsed remaining = array_size p t l c parsed
  dispatch_size p (struct members) parsed remaining = struct_size p parsed
  dispatch_size p (struct_array members c) parsed remaining = struct_size p parsed
  dispatch_size p (unsupported l) parsed remaining = opaque_size p l parsed

  unfoldable pub find_property_size : Property → List PropertySlice → List ℕ → ParserResult ℕ
  find_property_size p parsed remaining = dispatch_size p (info p) parsed remaining
