-- ===== src/Record.antt =====
-- src/native/etw_types/event_record.rs, src/native/etw_types.rs, src/schema.rs, src/property.rs:
-- what the parser reads of an event and of its schema; and what is called outside the repository.
use ferrisetw.Base.{ℕ, String, List, Option, if◌then◌else◌, ◌==◌}
use ferrisetw.Tdh.Property.{Property}
use Prim.Native.Nat.{bit_and}

-- The fields of the header, the user data, and the `ExtType` of each extended data item.
pub record EventRecord : Type 0 where
  pub provider_id : ℕ
  pub event_id : ℕ
  pub opcode : ℕ
  pub version : ℕ
  pub level : ℕ
  pub event_flags : ℕ
  pub user_buffer : List ℕ
  pub extended_data : List ℕ

-- `EVENT_HEADER_FLAG_32_BIT_HEADER` is 0x20.
abbrev pub pointer_size : EventRecord → ℕ
pointer_size r = if bit_and r.event_flags 0x20 == 0 then 8 else 4

pub data DecodingSource : Type 0 where
  xml_file wbem wpp tlg max : DecodingSource

pub record Schema : Type 0 where
  pub decoding_source : DecodingSource
  pub properties : List Property

-- A located property: `buffer` is the part of the user buffer that holds its value.
pub record PropertySlice : Type 0 where
  pub property : Property
  pub buffer : List ℕ

-- Functions of crates and of Windows. `memchr` finds a byte; `decode_utf16_lossy` turns code units
-- into the UTF-8 bytes of a string; `convert_sid_to_string` is ConvertSidToStringSidA, `None` where
-- it fails; `get_property_size` is TdhGetPropertySize, a status and a size.
pub record Externals : Type 0 where
  pub memchr : ℕ → List ℕ → Option ℕ
  pub decode_utf16_lossy : List ℕ → List ℕ
  pub convert_sid_to_string : List ℕ → Option (List ℕ)
  pub get_property_size : EventRecord → String → ℕ × ℕ
