-- ===== src/Ser/RecordTests.antt =====
-- The theorems about whole records and GUIDs at a concrete event.
use ferrisetw.Base.{◌≡◌, refl, true, false, none, some, [], ◌∷◌, map, arith}
use ferrisetw.Fixtures.{no_externals, event, pair}
use ferrisetw.Native.ExtendedData.Items.{ExtType, read_item, to_extended_data_item, read_fixed}
use ferrisetw.Parser.Scalars.{Guid}
use ferrisetw.Ser.Guid.{guid_to_ascii_upper}
use ferrisetw.Ser.Guid.Text.{IsHyphenated, read_guid, read_guid-guid_to_ascii_upper}
use ferrisetw.Ser.Names.{entry_names}
use ferrisetw.Ser.Record.{
  EventHeader, SchemaNames, Output, default_options, trim, ser_schema, ser_header, ser_item,
  ser_extended, ser_record,
}
use ferrisetw.Ser.Record.Modes.{
  Items, written_items, all_written, ser_extended_modes, ser_record-lenient,
}
use ferrisetw.Tdh.Property.{name}

-- 56781234-ABCD-4609-0102-030405060708
abbrev some_guid : Guid
some_guid = record {
  data1 = 0x56781234;
  data2 = 0xabcd;
  data3 = 0x4609;
  data4 = 1 ∷ 2 ∷ 3 ∷ 4 ∷ 5 ∷ 6 ∷ 7 ∷ 8 ∷ [];
}

read_guid-guid_to_ascii_upper_example :
    IsHyphenated (guid_to_ascii_upper some_guid)
    × (read_guid (guid_to_ascii_upper some_guid) ≡ some_guid)
read_guid-guid_to_ascii_upper_example = read_guid-guid_to_ascii_upper some_guid (
  omega arith,
  (
    omega arith,
    (
      omega arith,
      (
        refl,
        (
          omega arith,
          (
            omega arith,
            (
              omega arith,
              (omega arith, (omega arith, (omega arith, (omega arith, (omega arith, tt))))),
            ),
          ),
        ),
      ),
    ),
  ),
)

trimmed : trim (32 ∷ 65 ∷ 32 ∷ 66 ∷ 0xa0 ∷ []) ≡ 65 ∷ 32 ∷ 66 ∷ []
trimmed = refl

-- A session id, an item of an unknown type, and an item without data.
abbrev items : Items
items =
    (ExtType.ts_id, some (7 ∷ 0 ∷ 0 ∷ 0 ∷ []))
    ∷ (ExtType.other, some (1 ∷ []))
    ∷ (ExtType.event_key, none)
    ∷ []

two_left_out : all_written no_externals true items ≡ false
unfolding ser_item to_extended_data_item read_item read_fixed
two_left_out = refl

ser_extended_modes_example :
    (ser_extended no_externals true false items ≡ some (written_items no_externals true items))
    × (ser_extended no_externals true true items ≡ none)
unfolding ser_item to_extended_data_item read_item read_fixed
ser_extended_modes_example = ser_extended_modes no_externals true items

abbrev names : SchemaNames
names = record { provider_name = 65 ∷ 32 ∷ []; opcode_name = []; task_name = 66 ∷ [] }

abbrev header : EventHeader
header = record {
  size = 80;
  header_type = 0;
  flags = 0x240;
  event_property = 0;
  thread_id = 4;
  process_id = 8;
  time_stamp = 133000000000000000;
  provider_id = some_guid;
  activity_id = some_guid;
  event_descriptor = record {
    id = 2;
    version = 0;
    channel = 16;
    level = 4;
    opcode = 0;
    task = 1;
    keyword = 0x8000000000000000;
  };
}

ser_record-lenient_example :
    (out : Output) × (ser_record no_externals true default_options names header items
        (event (1 ∷ 0 ∷ 0 ∷ 0 ∷ 80 ∷ []))
        pair
        0
      ≡ some out)
    × (out.schema ≡ some (ser_schema names))
    × (out.header ≡ some (ser_header no_externals true header))
    × (out.extended ≡ none)
    × (entry_names out.event ≡ map name pair.properties)
ser_record-lenient_example =
    ser_record-lenient no_externals true default_options refl names header items
      (event (1 ∷ 0 ∷ 0 ∷ 0 ∷ 80 ∷ [])) pair 0
