-- ===== src/Parser/Tests.antt =====
-- Runs of the parser on small events, and its theorems at these events.
use ferrisetw.Base.{zero, suc, sym, eq_iff, ◌≡◌, refl, some, [], ◌∷◌, arith}
use ferrisetw.Tdh.InType.{literal_schema_length_bytes}
use ferrisetw.Tdh.Property.{Property, name}
use ferrisetw.Fixtures.{no_externals, uint32, uint16, pair, twins, six, four}
use ferrisetw.Parser.Result.{ok, err, not_found}
use ferrisetw.Parser.Cache.{
  CachedSlices, create, find_property, property_bytes_at, probe, parse_next_property,
}
use ferrisetw.Parser.Size.{find_property_size, value_size}
use ferrisetw.Parser.Cache.Layout.{IsLaid}
use ferrisetw.Parser.Cache.Lookup.{by_name, by_index, run, run-IsLaid}
use ferrisetw.Parser.Cache.Walk.{property_bytes_at_order}
use ferrisetw.Parser.Cache.Names.{IsDistinct, find_property_order, find_property_repeated}

find_port :
    (find_property no_externals six pair.properties "port" (create six pair)).0
    ≡ ok (record { property = uint16 "port"; buffer = 80 ∷ 0 ∷ [] })
unfolding find_property create probe parse_next_property find_property_size value_size
    literal_schema_length_bytes
find_port = refl

find_missing :
    (find_property no_externals six pair.properties "name" (create six pair)).0 ≡ err not_found
unfolding find_property create probe parse_next_property find_property_size value_size
    literal_schema_length_bytes
find_missing = refl

run-IsLaid_example : IsLaid six pair.properties (
    run no_externals six pair.properties
      (create six pair)
      (by_name "port" ∷ by_index 0 ∷ by_name "none" ∷ []))
run-IsLaid_example =
    run-IsLaid no_externals six pair (by_name "port" ∷ by_index 0 ∷ by_name "none" ∷ [])

property_bytes_at_order_example :
    (property_bytes_at no_externals four twins.properties 1
      (run no_externals four twins.properties (create four twins) (by_name "dup" ∷ []))).0
    ≡ (property_bytes_at no_externals four twins.properties 1 (create four twins)).0
property_bytes_at_order_example =
    property_bytes_at_order no_externals four twins (by_name "dup" ∷ []) 1

id_port :
    (p q : Property)
    → some (uint32 "id") ≡ some p
    → some (uint16 "port") ≡ some q
    → ¬ (name p ≡ name q)
id_port p q e f same = ground (arith, eq_iff "id" "port")

pair-IsDistinct : IsDistinct pair.properties
pair-IsDistinct zero zero p q at_i at_j same = refl
pair-IsDistinct zero (suc zero) p q at_i at_j same = absurd (id_port p q at_i at_j same)
pair-IsDistinct (suc zero) zero p q at_i at_j same = absurd (id_port q p at_j at_i (sym same))
pair-IsDistinct (suc zero) (suc zero) p q at_i at_j same = refl
pair-IsDistinct (suc (suc i)) j p q at_i at_j same = cc
pair-IsDistinct zero (suc (suc j)) p q at_i at_j same = cc
pair-IsDistinct (suc zero) (suc (suc j)) p q at_i at_j same = cc

find_property_order_example :
    (find_property no_externals six pair.properties "id" (
      run no_externals six pair.properties
        (create six pair)
        (by_name "port" ∷ by_name "id" ∷ []))).0
    ≡ (find_property no_externals six pair.properties "id" (create six pair)).0
find_property_order_example =
    find_property_order no_externals six pair (by_name "port" ∷ by_name "id" ∷ []) "id"
      pair-IsDistinct

-- Both properties of `twins` are located, and the probe stands on the first.
abbrev twins_cached : CachedSlices
twins_cached = record {
  slices =
      (record { property = uint16 "dup"; buffer = 1 ∷ 0 ∷ [] })
      ∷ (record { property = uint16 "dup"; buffer = 2 ∷ 0 ∷ [] })
      ∷ [];
  next_probe = 0;
  last_cached_offset = 4;
  data_start = some 0;
}

twins_cached_reached :
    run no_externals four twins.properties (create four twins) (by_index 1 ∷ []) ≡ twins_cached
unfolding run create property_bytes_at parse_next_property find_property_size value_size
    literal_schema_length_bytes
twins_cached_reached = refl

find_property_repeated_example :
    let again = (find_property no_externals four twins.properties "dup" twins_cached).1 in
    ((find_property no_externals four twins.properties "dup" twins_cached).0
      ≡ ok (record { property = uint16 "dup"; buffer = 1 ∷ 0 ∷ [] }))
    × ((find_property no_externals four twins.properties "dup" again).0
        ≡ ok (record { property = uint16 "dup"; buffer = 2 ∷ 0 ∷ [] }))
find_property_repeated_example =
    find_property_repeated no_externals four twins.properties twins_cached "dup"
      (record { property = uint16 "dup"; buffer = 1 ∷ 0 ∷ [] })
      (record { property = uint16 "dup"; buffer = 2 ∷ 0 ∷ [] }) refl refl refl refl
