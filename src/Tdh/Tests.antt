-- ===== src/Tdh/Tests.antt =====
-- The theorems of this directory at concrete types.
use mathlib.Core.Option.{some_inj}
use ferrisetw.Base.{ℕ, refl, ap, zero, suc, [], ◌∷◌, ◌≡◌, arith}
use ferrisetw.Tdh.InType.{TdhInType}
use ferrisetw.Tdh.OutType.{TdhOutType}
use ferrisetw.Tdh.Lengths.{PropertyLength}
use ferrisetw.Tdh.Property.{property, value, struct, nil, cons}
use ferrisetw.Tdh.Decode.{
  EventPropertyInfo, parsed, out_of_fuel, parse_property, contains_flag, property_struct,
}
use ferrisetw.Tdh.Decode.Nesting.{
  IsRanked, IsParsed, parse_property-IsParsed, parse_property_cyclic,
}

-- A structure with one member, and a structure that is its own member.
abbrev point_entry : EventPropertyInfo
point_entry = record { flags = 1; name = "point"; in_type = 1; out_type = 1; count = 1; length = 0 }

abbrev x_entry : EventPropertyInfo
x_entry = record { flags = 0; name = "x"; in_type = 8; out_type = 0; count = 1; length = 4 }

abbrev loop_entry : EventPropertyInfo
loop_entry = record { flags = 1; name = "loop"; in_type = 0; out_type = 1; count = 1; length = 0 }

-- The structure has the rank 1, its member 0.
abbrev point_rank : ℕ → ℕ
point_rank zero = 1
point_rank (suc i) = 0

point-IsRanked : IsRanked point_rank (point_entry ∷ x_entry ∷ [])
point-IsRanked zero zero e at is_struct lo hi =
    let same = ap (λ (e : EventPropertyInfo). e.in_type) (some_inj.0 at) in absurd (omega arith)
point-IsRanked zero (suc j) e at is_struct lo hi = omega arith
point-IsRanked (suc zero) j e at is_struct lo hi = cc (
  ap (λ (e : EventPropertyInfo). contains_flag e.flags property_struct) (some_inj.0 at),
  is_struct,
)
point-IsRanked (suc (suc i)) j e at is_struct lo hi = cc

parse_property-IsParsed_example : IsParsed (parse_property 2 (point_entry ∷ x_entry ∷ []) 0)
parse_property-IsParsed_example =
    parse_property-IsParsed (point_entry ∷ x_entry ∷ []) point_rank 2 0 point-IsRanked (omega arith)
      (omega arith)

point_parsed :
    parse_property 2 (point_entry ∷ x_entry ∷ []) 0
    ≡ parsed (
        property "point" (
          struct (
            cons
              (property "x" (value TdhInType.uint32 TdhOutType.null (PropertyLength.length 4)))
              nil)))
unfolding parse_property
point_parsed = refl

parse_property_cyclic_example : parse_property 100 (loop_entry ∷ []) 0 ≡ out_of_fuel
parse_property_cyclic_example =
    parse_property_cyclic (loop_entry ∷ []) 0 100 loop_entry refl refl (omega arith) (omega arith)
