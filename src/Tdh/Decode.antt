-- ===== src/Tdh/Decode.antt =====
-- src/native/tdh_types.rs: `PropertyFlags` and `Property::new`. src/native/tdh.rs:
-- `PropertyIterator`, which turns the property array of a TRACE_EVENT_INFO into properties.
-- The array is a list of entries. The name of an entry is the text at its offset, which is read as
-- Windows gives it. The recursion over nested structures has fuel.
-- Child: Nesting (when the recursion ends).
pub mod Nesting
use ferrisetw.Base.{
  ℕ, zero, suc, ◌+◌, ◌-◌, min, String, Bool, true, false, Option, none, some, List, [], ◌∷◌, ltb,
  ◌==◌, if◌then◌else◌, length, get_elem?,
}
use ferrisetw.Tdh.InType.{TdhInType}
use ferrisetw.Tdh.InType
use ferrisetw.Tdh.OutType.{TdhOutType}
use ferrisetw.Tdh.OutType
use ferrisetw.Tdh.Lengths.{PropertyCount, PropertyLength}
use ferrisetw.Tdh.Property.{
  Property, PropertyInfo, Members, property, value, array, struct, struct_array, unsupported, nil,
  cons,
}
use Prim.Native.Nat.{bit_and}

-- EVENT_PROPERTY_INFO. The unions are numbers: `in_type` is also StructStartIndex, `out_type` is
-- also NumOfStructMembers, `count` and `length` are also indices.
pub record EventPropertyInfo : Type 0 where
  pub flags : ℕ
  pub name : String
  pub in_type : ℕ
  pub out_type : ℕ
  pub count : ℕ
  pub length : ℕ

-- `PropertyFlags::contains`
abbrev pub contains_flag : ℕ → ℕ → Bool
contains_flag flags flag = bit_and flags flag == flag

abbrev pub property_struct : ℕ
property_struct = 0x1

abbrev property_param_length : ℕ
property_param_length = 0x2

abbrev property_param_count : ℕ
property_param_count = 0x4

abbrev property_has_custom_schema : ℕ
property_has_custom_schema = 0x80

abbrev length_of : EventPropertyInfo → PropertyLength
length_of e =
    if contains_flag e.flags property_param_length
    then PropertyLength.index e.length
    else PropertyLength.length e.length

-- A literal count means an array only above 1; a count by reference always does.
abbrev count_of : EventPropertyInfo → Option PropertyCount
count_of e =
    if contains_flag e.flags property_param_count
    then some (PropertyCount.index e.count)
    else if ltb 1 e.count
    then some (PropertyCount.count e.count)
    else none

abbrev in_type_of : ℕ → TdhInType
in_type_of n = elim (InType.from_u16 n) [ none ↦ TdhInType.null | some t ↦ t ]

abbrev out_type_of : ℕ → TdhOutType
out_type_of n = elim (OutType.from_u16 n) [ none ↦ TdhOutType.null | some o ↦ o ]

-- `Property::new`
unfoldable pub new : EventPropertyInfo → PropertyInfo
unfolding InType.from_u16 OutType.from_u16
new e =
    if contains_flag e.flags property_has_custom_schema
    then unsupported (length_of e)
    else elim (count_of e) [
      | none ↦ value (in_type_of e.in_type) (out_type_of e.out_type) (length_of e)
      | some c ↦ array (in_type_of e.in_type) (out_type_of e.out_type) (length_of e) c
    ]

abbrev struct_info : EventPropertyInfo → Members → PropertyInfo
struct_info e members = elim (count_of e) [
  | none ↦ struct members
  | some c ↦ struct_array members c
]

-- `Some` and `None` of the source, and the end of the fuel, which it does not have.
pub data Parsed (A : Type 0) : Type 0 where
  parsed : A → Parsed A
  unreadable out_of_fuel : Parsed A

-- `?`
abbrev pub and_then : {A B : Type 0} → Parsed A → (A → Parsed B) → Parsed B
and_then (parsed a) f = f a
and_then unreadable f = unreadable
and_then out_of_fuel f = out_of_fuel

-- The loop of `parse_members`, over `n` entries from `index` on.
unfoldable pub parse_range : (ℕ → Parsed Property) → ℕ → ℕ → Parsed Members
parse_range parse index zero = parsed nil
parse_range parse index (suc n) =
    let rest = parse_range parse (suc index) n in
    and_then (parse index) (λ p. and_then rest (λ ms. parsed (cons p ms)))

-- The clamped region of `parse_members`: its start and its number of entries.
abbrev pub region : List EventPropertyInfo → EventPropertyInfo → ℕ × ℕ
region entries e =
    let start = min e.in_type (length entries) in
    (start, min (start + e.out_type) (length entries) - start)

-- The members are parsed, then the count makes the structure or the array of structures.
unfoldable pub parse_struct :
    (ℕ → Parsed Property) → List EventPropertyInfo → EventPropertyInfo → Parsed Property
unfolding parse_range
parse_struct parse entries e =
    and_then (parse_range parse (region entries e).0 (region entries e).1)
      (λ members. parsed (property e.name (struct_info e members)))

unfoldable pub parse_property : ℕ → List EventPropertyInfo → ℕ → Parsed Property
unfolding new parse_struct
parse_property zero entries index = out_of_fuel
parse_property (suc fuel) entries index =
    let parse = parse_property fuel entries in
    elim (get_elem? entries index) [
      | none ↦ unreadable
      | some e ↦
          if contains_flag e.flags property_struct
          then parse_struct parse entries e
          else parsed (property e.name (new e))
    ]

-- `PropertyIterator::new`: a top-level count of 0 means that all entries are.
abbrev pub top_level : ℕ → List EventPropertyInfo → ℕ
top_level declared entries = if declared == 0 then length entries else min declared (length entries)

-- The properties that the iterator yields: it stops at the first that cannot be parsed.
unfoldable pub properties_from : ℕ → List EventPropertyInfo → ℕ → ℕ → Parsed (List Property)
unfolding parse_property
properties_from fuel entries index zero = parsed []
properties_from fuel entries index (suc n) =
    let rest = properties_from fuel entries (suc index) n in
    elim (parse_property fuel entries index) [
      | parsed p ↦ and_then rest (λ ps. parsed (p ∷ ps))
      | unreadable ↦ parsed []
      | out_of_fuel ↦ out_of_fuel
    ]
