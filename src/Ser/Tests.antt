-- ===== src/Ser/Tests.antt =====
-- Runs of the serializer on small events, and its theorems at these events.
use ferrisetw.Base.{ℕ, ◌≤◌, ◌≡◌, negsuc, refl, true, false, some, [], ◌∷◌, map, length, arith}
use ferrisetw.Fixtures.{no_externals, event, uint16, pair, six}
use ferrisetw.Tdh.InType.{TdhInType, literal_schema_length_bytes}
use ferrisetw.Tdh.OutType.{TdhOutType}
use ferrisetw.Tdh.Lengths.{PropertyLength}
use ferrisetw.Tdh.Property.{Property, Members, property, value, struct, nil, cons, name, to_list}
use ferrisetw.Record.{pointer_size}
use ferrisetw.Parser.Result.{ok}
use ferrisetw.Parser.Size.{find_property_size, value_size}
use ferrisetw.Parser.Cache.{create, parse_next_property}
use ferrisetw.Parser.Scalars.{unsigned, signed}
use ferrisetw.Ser.Size.{member_size, member_size-agree}
use ferrisetw.Ser.Handlers.{number, value_handler, ser_from_bytes}
use ferrisetw.Ser.Struct.{
  Entries, leaf, null, done, entry, ser_event, ser_members, ser_property, element_end,
}
use ferrisetw.Ser.Names.{entry_names, ser_event-names, ser_members-names}
use ferrisetw.Ser.Bounds.{IsTotal, element_end-bounds}
use ferrisetw.Ser.Lenient.{ser_event-lenient, ser_property-IsTotal}
use ferrisetw.Ser.Decode.{fixed_size-decoded}

abbrev counted : Property
counted = property "text" (value TdhInType.counted_string TdhOutType.null (PropertyLength.length 0))

counted_6 :
    member_size no_externals (pointer_size six) counted (4 ∷ 0 ∷ 104 ∷ 0 ∷ 105 ∷ 0 ∷ []) ≡ some 6
unfolding member_size
counted_6 = refl

member_size-agree_example :
    find_property_size no_externals six counted [] (4 ∷ 0 ∷ 104 ∷ 0 ∷ 105 ∷ 0 ∷ []) ≡ ok 6
member_size-agree_example =
    member_size-agree no_externals six [] (4 ∷ 0 ∷ 104 ∷ 0 ∷ 105 ∷ 0 ∷ []) counted 6 counted_6

-- The event that ends before its second property: that property is null.
abbrev cut_entries : Entries
cut_entries = entry "id" (leaf (number (unsigned 1))) (entry "port" null done)

ser_event_cut :
    ser_event no_externals (event (1 ∷ 0 ∷ 0 ∷ 0 ∷ 80 ∷ [])) pair false 0 ≡ some cut_entries
unfolding ser_event create parse_next_property find_property_size value_size
    literal_schema_length_bytes ser_from_bytes value_handler
ser_event_cut = refl

ser_event-names_example : entry_names cut_entries ≡ map name pair.properties
ser_event-names_example =
    ser_event-names no_externals (event (1 ∷ 0 ∷ 0 ∷ 0 ∷ 80 ∷ [])) pair false 0 cut_entries
      ser_event_cut

ser_event-lenient_example :
    (es : Entries) × (ser_event no_externals (event (1 ∷ 0 ∷ 0 ∷ 0 ∷ 80 ∷ [])) pair false 0
      ≡ some es)
    × (entry_names es ≡ map name pair.properties)
ser_event-lenient_example = ser_event-lenient no_externals (event (1 ∷ 0 ∷ 0 ∷ 0 ∷ 80 ∷ [])) pair 0

abbrev point : Members
point = cons (uint16 "x") (cons (uint16 "y") nil)

point_entries :
    ser_members no_externals six pair.properties true point 0
      (3 ∷ 0 ∷ 4 ∷ 0 ∷ [])
      0
      (create six pair)
    ≡ some (
      entry "x" (leaf (number (unsigned 3))) (entry "y" (leaf (number (unsigned 4))) done),
      create six pair,
    )
unfolding ser_members literal_schema_length_bytes ser_from_bytes value_handler
point_entries = refl

ser_members-names_example :
    entry_names
      (entry "x" (leaf (number (unsigned 3))) (entry "y" (leaf (number (unsigned 4))) done))
    ≡ map name (to_list point)
ser_members-names_example =
    ser_members-names no_externals six pair.properties true point 0 (3 ∷ 0 ∷ 4 ∷ 0 ∷ []) 0
      (create six pair)
      (entry "x" (leaf (number (unsigned 3))) (entry "y" (leaf (number (unsigned 4))) done))
      (create six pair) point_entries

ser_property-IsTotal_example : IsTotal (
    ser_property no_externals six pair.properties false
      (property "point" (struct point))
      0
      (3 ∷ [])
      (create six pair))
ser_property-IsTotal_example =
    ser_property-IsTotal no_externals six pair.properties (property "point" (struct point)) 0
      (3 ∷ []) (create six pair)

fixed_size-decoded_example :
    ser_from_bytes no_externals six
      (value_handler TdhInType.int16 TdhOutType.null)
      (value TdhInType.int16 TdhOutType.null (PropertyLength.length 0))
      0
      (0xfe ∷ 0xff ∷ [])
    ≡ ok (number (signed (negsuc 1)))
fixed_size-decoded_example =
    fixed_size-decoded no_externals six TdhInType.int16 (PropertyLength.length 0) 2 0
      (0xfe ∷ 0xff ∷ []) refl refl

point_end : element_end no_externals six point (3 ∷ 0 ∷ 4 ∷ 0 ∷ 9 ∷ []) 0 ≡ some 4
unfolding element_end literal_schema_length_bytes
point_end = refl

element_end-bounds_example : (0 ≤ 4) × (4 ≤ length {A = ℕ} (3 ∷ 0 ∷ 4 ∷ 0 ∷ 9 ∷ []))
element_end-bounds_example =
    element_end-bounds no_externals six point (3 ∷ 0 ∷ 4 ∷ 0 ∷ 9 ∷ []) 0 4 (omega arith) point_end
