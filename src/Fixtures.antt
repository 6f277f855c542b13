-- ===== src/Fixtures.antt =====
-- Small events and schemas that the tests of the other modules share.
use ferrisetw.Base.{ℕ, String, none, List, [], ◌∷◌}
use ferrisetw.Tdh.InType.{TdhInType}
use ferrisetw.Tdh.OutType.{TdhOutType}
use ferrisetw.Tdh.Lengths.{PropertyLength}
use ferrisetw.Tdh.Property.{Property, property, value}
use ferrisetw.Record.{EventRecord, Externals, Schema, DecodingSource}

abbrev pub no_externals : Externals
no_externals = record {
  memchr = λ b bytes. none;
  decode_utf16_lossy = λ units. units;
  convert_sid_to_string = λ bytes. none;
  get_property_size = λ r n. (87, 0);
}

abbrev pub event : List ℕ → EventRecord
event bytes = record {
  provider_id = 1;
  event_id = 2;
  opcode = 0;
  version = 0;
  level = 4;
  event_flags = 0;
  user_buffer = bytes;
  extended_data = [];
}

abbrev pub uint32 : String → Property
uint32 n = property n (value TdhInType.uint32 TdhOutType.null (PropertyLength.length 4))

abbrev pub uint16 : String → Property
uint16 n = property n (value TdhInType.uint16 TdhOutType.null (PropertyLength.length 2))

abbrev pub pair : Schema
pair = record {
  decoding_source = DecodingSource.xml_file;
  properties = uint32 "id" ∷ uint16 "port" ∷ [];
}

abbrev pub twins : Schema
twins = record {
  decoding_source = DecodingSource.xml_file;
  properties = uint16 "dup" ∷ uint16 "dup" ∷ [];
}

abbrev pub six : EventRecord
six = event (1 ∷ 0 ∷ 0 ∷ 0 ∷ 80 ∷ 0 ∷ [])

abbrev pub four : EventRecord
four = event (1 ∷ 0 ∷ 2 ∷ 0 ∷ [])
