-- ===== src/Ser/Size.antt =====
-- src/ser.rs: `variable_member_size` and the size part of `member_buffer`, and that the parser of
-- src/parser.rs computes the same size wherever the serializer has one.
use ferrisetw.Base.{
  ℕ, zero, suc, ◌+◌, ◌*◌, ◌≡◌, Bool, true, false, Option, none, some, String, List, if◌then◌else◌,
  length, get_elem?, get_to, from_le_bytes, from_be_bytes, arith,
}
use ferrisetw.Tdh.InType.{TdhInType}
use ferrisetw.Tdh.OutType.{TdhOutType}
use ferrisetw.Tdh.Lengths.{PropertyCount, PropertyLength}
use ferrisetw.Tdh.Property.{
  Property, PropertyInfo, property, value, array, struct, struct_array, unsupported, info,
  fixed_size, value_fixed_size, array_fixed_size,
}
use ferrisetw.Record.{EventRecord, PropertySlice, Externals, pointer_size}
use ferrisetw.Parser.Result.{ok}
use ferrisetw.Parser.Size.{
  wide_units, position_zero, find_property_size, value_size, array_size, struct_size, opaque_size,
  content_size, declared_size, counted_size, read_count_prefix, element_size,
}
use mathlib.Core.Option

module _ (x : Externals) where
  open x use {memchr}

  abbrev counted_member : Bool → List ℕ → Option ℕ
  counted_member big_endian remaining = elim (get_to 2 remaining) [
    | none ↦ none
    | some count ↦ some (2 + (if big_endian then from_be_bytes count else from_le_bytes count))
  ]

  abbrev sid_member : List ℕ → Option ℕ
  sid_member remaining = elim (get_elem? remaining 1) [
    | none ↦ none
    | some sub_authority_count ↦ some (8 + 4 * sub_authority_count)
  ]

  -- The `match in_type` of `variable_member_size`.
  unfoldable pub content_member_size : TdhInType → List ℕ → Option ℕ
  unfolding get_to
  content_member_size TdhInType.ansi_string remaining =
      Option.map (λ nul_index. nul_index + 1) (memchr 0 remaining)
  content_member_size TdhInType.unicode_string remaining =
      Option.map (λ units. (units + 1) * 2) (position_zero (wide_units remaining))
  content_member_size TdhInType.manifest_counted_string remaining = counted_member false remaining
  content_member_size TdhInType.counted_string remaining = counted_member false remaining
  content_member_size TdhInType.manifest_counted_ansi_string remaining =
      counted_member false remaining
  content_member_size TdhInType.counted_ansi_string remaining = counted_member false remaining
  content_member_size TdhInType.manifest_counted_binary remaining = counted_member false remaining
  content_member_size TdhInType.reversed_counted_string remaining = counted_member true remaining
  content_member_size TdhInType.reversed_counted_ansi_string remaining =
      counted_member true remaining
  content_member_size TdhInType.hex_dump remaining =
      Option.map (λ count. 4 + from_le_bytes count) (get_to 4 remaining)
  content_member_size TdhInType.non_null_terminated_string remaining = some (length remaining)
  content_member_size TdhInType.non_null_terminated_ansi_string remaining = some (length remaining)
  content_member_size TdhInType.sid remaining = sid_member remaining
  content_member_size TdhInType.wbem_sid remaining = sid_member remaining
  content_member_size _ remaining = none

  -- Only a value with the literal length 0 is sized from its bytes.
  unfoldable pub variable_member_size : PropertyInfo → List ℕ → Option ℕ
  unfolding content_member_size
  variable_member_size (value t o (PropertyLength.length zero)) remaining =
      content_member_size t remaining
  variable_member_size _ remaining = none

  -- `fixed_size(..).or_else(..)`
  unfoldable pub member_size : ℕ → Property → List ℕ → Option ℕ
  unfolding variable_member_size fixed_size
  member_size ps p remaining = elim (fixed_size ps p) [
    | some size ↦ some size
    | none ↦ variable_member_size (info p) remaining
  ]

  content-agree :
      (r : EventRecord) (t : TdhInType) (o : TdhOutType) (remaining : List ℕ) (n : ℕ)
      → content_member_size t remaining ≡ some n
      → content_size x r t o remaining ≡ some (ok n)
  unfolding content_member_size content_size counted_size read_count_prefix
  content-agree r TdhInType.null o remaining n e = cc
  content-agree r _ o remaining n e = ground arith

  module _ (r : EventRecord) (p : Property) (parsed : List PropertySlice) (remaining : List ℕ) where
    value-agree :
        (t : TdhInType) (o : TdhOutType) (l : PropertyLength) (n : ℕ)
        → (elim (value_fixed_size (pointer_size r) t l) [
          | some size ↦ some size
          | none ↦ variable_member_size (value t o l) remaining
        ])
          ≡ some n
        → value_size x r p t o l parsed remaining ≡ ok n
    unfolding value_size value_fixed_size variable_member_size declared_size content_member_size
        content_size
    value-agree TdhInType.null o (PropertyLength.length zero) n e = ground arith
    value-agree _ o (PropertyLength.length zero) n e = ground arith
    value-agree _ o (PropertyLength.length (suc l)) n e = ground arith
    value-agree _ o (PropertyLength.index i) n e = ground arith

    array-agree :
        (t : TdhInType) (l : PropertyLength) (c : PropertyCount) (n : ℕ)
        → array_fixed_size (pointer_size r) t l c ≡ some n
        → array_size x r p t l c parsed ≡ ok n
    unfolding array_size array_fixed_size element_size
    array-agree TdhInType.null (PropertyLength.length zero) c n e = ground arith
    array-agree _ (PropertyLength.length zero) c n e = ground arith
    array-agree _ (PropertyLength.length (suc l)) c n e = ground arith
    array-agree _ (PropertyLength.index i) c n e = ground arith

  -- `or_else` of a fallback that gives nothing.
  or_else_none :
      (o : Option ℕ) (n : ℕ)
      → (elim o as (λ o. Option ℕ) [ some size ↦ some size | none ↦ none ]) ≡ some n
      → o ≡ some n
  or_else_none none n e = e
  or_else_none (some size) n e = e

  module _ (r : EventRecord) (parsed : List PropertySlice) (remaining : List ℕ) where
    struct-agree :
        (p : Property) (n : ℕ)
        → fixed_size (pointer_size r) p ≡ some n
        → struct_size x r p parsed ≡ ok n
    unfolding struct_size
    struct-agree p n e = rw (e, struct_size)

    info-agree :
        (s : String) (i : PropertyInfo) (n : ℕ)
        → member_size (pointer_size r) (property s i) remaining ≡ some n
        → find_property_size x r (property s i) parsed remaining ≡ ok n
    unfolding member_size find_property_size fixed_size variable_member_size struct_size opaque_size
    info-agree s (value t o l) n e =
        value-agree r (property s (value t o l)) parsed remaining t o l n e
    info-agree s (array t o l c) n e =
        array-agree r (property s (array t o l c)) parsed remaining t l c n (or_else_none _ n e)
    info-agree s (struct members) n e =
        struct-agree (property s (struct members)) n (or_else_none _ n e)
    info-agree s (struct_array members c) n e =
        struct-agree (property s (struct_array members c)) n (or_else_none _ n e)
    info-agree s (unsupported (PropertyLength.length l)) n e = ground arith
    info-agree s (unsupported (PropertyLength.index i)) n e = cc

    -- Wherever the serializer can size a property from the schema and the bytes alone, the parser
    -- computes the same size, whatever was parsed before and without asking TDH.
    pub member_size-agree :
        (p : Property) (n : ℕ)
        → member_size (pointer_size r) p remaining ≡ some n
        → find_property_size x r p parsed remaining ≡ ok n
    member_size-agree (property s i) n e = info-agree s i n e
