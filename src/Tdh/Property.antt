-- ===== src/Tdh/Property.antt =====
-- src/native/tdh_types.rs: `PropertyInfo` and `Property`, and `Property::fixed_size`.
use ferrisetw.Base.{
  ℕ, ◌+◌, ◌%◌, String, ◌&&◌, not, Option, none, some, List, [], ◌∷◌, ltb, if◌then◌else◌,
}
use ferrisetw.Tdh.InType.{
  TdhInType, usize_mod, checked_mul, is_pointer, is_content_sized, literal_schema_length_bytes,
}
use ferrisetw.Tdh.InType
use ferrisetw.Tdh.OutType.{TdhOutType}
use ferrisetw.Tdh.Lengths.{PropertyCount, PropertyLength}

-- The cached UTF-16 form of the name follows from the name and is left out.
mutual
  pub data Property : Type 0 where
    property : String → PropertyInfo → Property

  pub data PropertyInfo : Type 0 where
    value : TdhInType → TdhOutType → PropertyLength → PropertyInfo
    array : TdhInType → TdhOutType → PropertyLength → PropertyCount → PropertyInfo
    struct : Members → PropertyInfo
    struct_array : Members → PropertyCount → PropertyInfo
    unsupported : PropertyLength → PropertyInfo

  -- The `Vec<Property>` of a structure's members.
  pub data Members : Type 0 where
    nil : Members
    cons : Property → Members → Members

abbrev pub name : Property → String
name (property n i) = n

abbrev pub info : Property → PropertyInfo
info (property n i) = i

abbrev pub to_list : Members → List Property
to_list nil = []
to_list (cons p ms) = p ∷ to_list ms

-- The literal count of an array, `None` where another property holds it.
abbrev pub literal_count : PropertyCount → Option ℕ
literal_count (PropertyCount.count c) = some c
literal_count (PropertyCount.index i) = none

abbrev declared_value_size : TdhInType → PropertyLength → Option ℕ
declared_value_size t (PropertyLength.length l) =
    if ltb 0 l && not (is_content_sized t)
    then some (literal_schema_length_bytes t l)
    else InType.fixed_size t
declared_value_size t (PropertyLength.index i) = none

-- The arm for a scalar value.
unfoldable pub value_fixed_size : ℕ → TdhInType → PropertyLength → Option ℕ
value_fixed_size pointer_size t l =
    if is_pointer t then some pointer_size else declared_value_size t l

abbrev declared_element_size : TdhInType → PropertyLength → Option ℕ
declared_element_size t (PropertyLength.length l) =
    if ltb 0 l then some (literal_schema_length_bytes t l) else InType.fixed_size t
declared_element_size t (PropertyLength.index i) = none

-- The arm for an array: `elem.checked_mul(count)`.
abbrev pub checked_total : Option ℕ → Option ℕ → Option ℕ
checked_total none c = none
checked_total (some elem) none = none
checked_total (some elem) (some c) = checked_mul elem c

unfoldable pub array_fixed_size : ℕ → TdhInType → PropertyLength → PropertyCount → Option ℕ
array_fixed_size pointer_size t l c =
    checked_total (if is_pointer t then some pointer_size else declared_element_size t l)
      (literal_count c)

-- `Iterator::sum` over `Option<usize>`, in a release build: `+` wraps around.
abbrev pub sum_some : Option ℕ → Option ℕ → Option ℕ
sum_some none b = none
sum_some (some a) none = none
sum_some (some a) (some b) = some ((a + b) % usize_mod)

-- The arm for a property that cannot be decoded.
abbrev pub unsupported_size : PropertyLength → Option ℕ
unsupported_size (PropertyLength.length l) = if ltb 0 l then some l else none
unsupported_size (PropertyLength.index i) = none

unfoldable mutual
  unfolding value_fixed_size array_fixed_size

  pub fixed_size : ℕ → Property → Option ℕ
  fixed_size pointer_size (property n i) = info_fixed_size pointer_size i

  pub info_fixed_size : ℕ → PropertyInfo → Option ℕ
  info_fixed_size pointer_size (value t o l) = value_fixed_size pointer_size t l
  info_fixed_size pointer_size (array t o l c) = array_fixed_size pointer_size t l c
  info_fixed_size pointer_size (struct members) = members_fixed_size pointer_size members
  info_fixed_size pointer_size (struct_array members c) =
      checked_total (members_fixed_size pointer_size members) (literal_count c)
  info_fixed_size pointer_size (unsupported l) = unsupported_size l

  -- The sum over the members of one structure.
  pub members_fixed_size : ℕ → Members → Option ℕ
  members_fixed_size pointer_size nil = some 0
  members_fixed_size pointer_size (cons p ms) =
      sum_some (fixed_size pointer_size p) (members_fixed_size pointer_size ms)
