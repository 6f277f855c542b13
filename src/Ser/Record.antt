-- ===== src/Ser/Record.antt =====
-- src/ser.rs: `EventSerializer` with the fields Schema, Header and Extended next to the event. A
-- field that is skipped is `none`; the messages of errors are not kept. A name of the schema is the
-- list of its characters; a GUID of an item is its 16 bytes.
-- Children: Modes (what the options change).
pub mod Modes
use ferrisetw.Base.{
  ℕ, Bool, true, false, String, ◌&&◌, ◌||◌, Option, none, some, List, [], ◌∷◌, reverse, ltb, leb,
  ◌==◌, if◌then◌else◌, take, drop, from_le_bytes,
}
use ferrisetw.Native.ExtendedData.Items.{
  StackTraceItem, ExtType, ExtendedDataItem, unsupported, related_activity_id, trace_logging,
  to_extended_data_item,
}
use ferrisetw.Native.Time.{from_quad}
use ferrisetw.Parser.Scalars.{Guid, unsigned, guid_from_bytes}
use ferrisetw.Record.{EventRecord, Externals, Schema}
use ferrisetw.Ser.Guid.{guid_ext}
use ferrisetw.Ser.Handlers.{number, text, bytes, file_time}
use ferrisetw.Ser.Struct.{
  Json, leaf, object, sequence, Entries, done, entry, Elements, stop, element, ser_event,
}

pub record EventSerializerOptions : Type 0 where
  pub include_schema : Bool
  pub include_header : Bool
  pub include_extended_data : Bool
  pub fail_unimplemented : Bool

abbrev pub default_options : EventSerializerOptions
default_options = record {
  include_schema = true;
  include_header = true;
  include_extended_data = false;
  fail_unimplemented = false;
}

pub record EventDescriptor : Type 0 where
  pub id : ℕ
  pub version : ℕ
  pub channel : ℕ
  pub level : ℕ
  pub opcode : ℕ
  pub task : ℕ
  pub keyword : ℕ

-- The fields of an `EVENT_HEADER` that are written; the time stamp is the 64 bits of its quad.
pub record EventHeader : Type 0 where
  pub size : ℕ
  pub header_type : ℕ
  pub flags : ℕ
  pub event_property : ℕ
  pub thread_id : ℕ
  pub process_id : ℕ
  pub time_stamp : ℕ
  pub provider_id : Guid
  pub activity_id : Guid
  pub event_descriptor : EventDescriptor

pub record SchemaNames : Type 0 where
  pub provider_name : List ℕ
  pub opcode_name : List ℕ
  pub task_name : List ℕ

-- `char::is_whitespace`
abbrev pub is_whitespace : ℕ → Bool
is_whitespace c =
    (leb 9 c && leb c 13)
    || ((c == 0x20)
        || ((c == 0x85)
            || ((c == 0xa0)
                || ((c == 0x1680)
                    || ((leb 0x2000 c && leb c 0x200a)
                        || ((c == 0x2028)
                            || ((c == 0x2029)
                                || ((c == 0x202f) || ((c == 0x205f) || (c == 0x3000))))))))))

abbrev trim_start : List ℕ → List ℕ
trim_start [] = []
trim_start (c ∷ cs) = let rest = trim_start cs in if is_whitespace c then rest else c ∷ cs

-- `str::trim`
abbrev pub trim : List ℕ → List ℕ
trim cs = reverse (trim_start (reverse (trim_start cs)))

abbrev of_number : ℕ → Json
of_number n = leaf (number (unsigned n))

-- `SchemaSer`
abbrev pub ser_schema : SchemaNames → Entries
ser_schema names = entry "Provider" (leaf (text (trim names.provider_name))) (
    entry "Opcode" (leaf (text (trim names.opcode_name)))
      (entry "Task" (leaf (text (trim names.task_name))) done))

-- `DescriptorSer`
abbrev pub ser_descriptor : EventDescriptor → Entries
ser_descriptor d = entry "Id" (of_number d.id) (
    entry "Version" (of_number d.version) (
      entry "Channel" (of_number d.channel) (
        entry "Level" (of_number d.level) (
          entry "Opcode" (of_number d.opcode)
            (entry "Task" (of_number d.task) (entry "Keyword" (of_number d.keyword) done))))))

-- What is written for an item of the extended data: its type and its data.
pub record Item : Type 0 where
  pub ty : String
  pub content : Json

abbrev item : String → Json → Item
item t c = record { ty = t; content = c }

abbrev addresses_of : List ℕ → Elements
addresses_of [] = stop
addresses_of (a ∷ addresses) = element (of_number a) (addresses_of addresses)

-- `StackTraceSer`
abbrev pub ser_stack_trace : StackTraceItem → Json
ser_stack_trace t = object (
    entry "MatchId" (of_number t.match_id)
      (entry "Addresses" (sequence (addresses_of t.addresses)) done))

abbrev pub push : Item → Option (List Item) → Option (List Item)
push i none = none
push i (some items) = some (i ∷ items)

pub record Output : Type 0 where
  pub schema : Option Entries
  pub header : Option Entries
  pub extended : Option (List Item)
  pub event : Entries

abbrev pub when : {A : Type 0} → Bool → Option A → Option (Option A)
when false m = some none
when true none = none
when true (some a) = some (some a)

abbrev assemble :
    Option Entries → Option Entries → Option (Option (List Item)) → Option Entries → Option Output
assemble schema header none event = none
assemble schema header (some extended) none = none
assemble schema header (some extended) (some event) =
    some (record { schema = schema; header = header; extended = extended; event = event })

module _ (x : Externals) (is_human_readable : Bool) where
  -- `HeaderSer`
  unfoldable pub ser_header : EventHeader → Entries
  unfolding guid_ext from_quad
  ser_header h = entry "Size" (of_number h.size) (
      entry "HeaderType" (of_number h.header_type) (
        entry "Flags" (of_number h.flags) (
          entry "EventProperty" (of_number h.event_property) (
            entry "ThreadId" (of_number h.thread_id) (
              entry "ProcessId" (of_number h.process_id) (
                entry "TimeStamp" (leaf (file_time (from_quad h.time_stamp))) (
                  entry "ProviderId" (guid_ext is_human_readable h.provider_id) (
                    entry "ActivityId" (guid_ext is_human_readable h.activity_id)
                      (entry "Descriptor" (object (ser_descriptor h.event_descriptor)) done)))))))))

  -- `InstanceInfoSer`
  abbrev pub ser_instance_info : List ℕ → Json
  ser_instance_info info = object (
      entry "InstanceId" (of_number (from_le_bytes (take 4 info))) (
        entry "ParentInstanceId" (of_number (from_le_bytes (take 4 (drop 4 info))))
          (entry "ParentGuid" (guid_ext is_human_readable (guid_from_bytes (drop 8 info))) done)))

  -- `SidSer` and `ExtendedDataItemSer`; `none` for an item that is not supported, and for a SID
  -- whose text cannot be made.
  unfoldable pub ser_item : ExtendedDataItem → Option Item
  unfolding guid_ext
  ser_item unsupported = none
  ser_item (related_activity_id guid) =
      some (item "RelatedActivityId" (guid_ext is_human_readable (guid_from_bytes guid)))
  ser_item (ExtendedDataItem.sid sid) = elim (x.convert_sid_to_string sid) [
    | none ↦ none
    | some sddl ↦ some (item "Sid" (leaf (text sddl)))
  ]
  ser_item (ExtendedDataItem.ts_id id) = some (item "TsId" (of_number id))
  ser_item (ExtendedDataItem.instance_info info) =
      some (item "InstanceInfo" (ser_instance_info info))
  ser_item (ExtendedDataItem.stack_trace32 trace) =
      some (item "StackTrace32" (ser_stack_trace trace))
  ser_item (ExtendedDataItem.stack_trace64 trace) =
      some (item "StackTrace64" (ser_stack_trace trace))
  ser_item (trace_logging name) = some (item "TraceLogging" (leaf (text name)))
  ser_item (ExtendedDataItem.prov_traits traits) = some (item "ProvTraits" (leaf (bytes traits)))
  ser_item (ExtendedDataItem.container_id guid) =
      some (item "ContainerId" (guid_ext is_human_readable (guid_from_bytes guid)))
  ser_item (ExtendedDataItem.event_key key) = some (item "EventKey" (of_number key))
  ser_item (ExtendedDataItem.process_start_key key) = some (item "ProcessStartKey" (of_number key))

  -- `ExtendedSer`, over the type and the data of each item.
  unfoldable pub ser_extended : Bool → List (ExtType × Option (List ℕ)) → Option (List Item)
  unfolding to_extended_data_item ser_item
  ser_extended fail_unimplemented [] = some []
  ser_extended fail_unimplemented ((ext_type, raw) ∷ items) =
      let rest = ser_extended fail_unimplemented items in
      elim (ser_item (to_extended_data_item x.memchr ext_type raw)) [
        | none ↦ if fail_unimplemented then none else rest
        | some i ↦ push i rest
      ]

  -- `EventSerializer::serialize`
  unfoldable pub ser_record :
      EventSerializerOptions
      → SchemaNames
      → EventHeader
      → List (ExtType × Option (List ℕ))
      → EventRecord
      → Schema
      → (address : ℕ) → Option Output
  unfolding ser_header ser_extended ser_event
  ser_record options names header items r s address =
      assemble (if options.include_schema then some (ser_schema names) else none)
        (if options.include_header then some (ser_header header) else none)
        (when options.include_extended_data (ser_extended options.fail_unimplemented items))
        (ser_event x r s options.fail_unimplemented address)
