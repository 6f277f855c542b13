-- ===== src/Native/ExtendedData/Items.antt =====
-- src/native/etw_types/extended_data.rs: `StackTraceItem` and `to_extended_data_item`. The types of
-- items are the constants that the source matches on, and `other`. A GUID and an
-- EVENT_EXTENDED_ITEM_INSTANCE are their 16 and 24 bytes.
use ferrisetw.Base.{
  ℕ, zero, suc, ◌-◌, ◌/◌, Option, none, some, List, [], ◌∷◌, ltb, if◌then◌else◌, length, take, drop,
  from_le_bytes,
}
use ferrisetw.Native.ExtendedData.{sid_from_raw, get_event_name}

pub record StackTraceItem : Type 0 where
  pub match_id : ℕ
  pub addresses : List ℕ

pub data ExtType : Type 0 where
  related_activityid : ExtType
  sid : ExtType
  ts_id : ExtType
  instance_info : ExtType
  stack_trace32 : ExtType
  stack_trace64 : ExtType
  process_start_key : ExtType
  event_key : ExtType
  event_schema_tl : ExtType
  prov_traits : ExtType
  container_id : ExtType
  other : ExtType

pub data ExtendedDataItem : Type 0 where
  unsupported : ExtendedDataItem
  related_activity_id : List ℕ → ExtendedDataItem
  sid : List ℕ → ExtendedDataItem
  ts_id : ℕ → ExtendedDataItem
  instance_info : List ℕ → ExtendedDataItem
  stack_trace32 : StackTraceItem → ExtendedDataItem
  stack_trace64 : StackTraceItem → ExtendedDataItem
  trace_logging : List ℕ → ExtendedDataItem
  prov_traits : List ℕ → ExtendedDataItem
  container_id : List ℕ → ExtendedDataItem
  event_key : ℕ → ExtendedDataItem
  process_start_key : ℕ → ExtendedDataItem

-- `read_fixed`, of a value of `size` bytes.
unfoldable pub read_fixed : ℕ → List ℕ → Option (List ℕ)
read_fixed size blob = if ltb (length blob) size then none else some (take size blob)

-- The loop of `StackTraceItem::from_raw`; an address has `width` bytes.
abbrev pub read_addresses : ℕ → ℕ → List ℕ → List ℕ
read_addresses width zero bytes = []
read_addresses width (suc n) bytes =
    from_le_bytes (take width bytes) ∷ read_addresses width n (drop width bytes)

-- `StackTraceItem::from_raw`
unfoldable pub stack_trace_from_raw : ℕ → ℕ → List ℕ → Option StackTraceItem
stack_trace_from_raw width id blob =
    if ltb (length blob) 8
    then none
    else some (record {
      match_id = id;
      addresses = read_addresses width ((length blob - 8) / width) (drop 8 blob);
    })

abbrev map_or_unsupported : {A : Type 0} → Option A → (A → ExtendedDataItem) → ExtendedDataItem
map_or_unsupported none f = unsupported
map_or_unsupported (some a) f = f a

module _ (memchr : ℕ → List ℕ → Option ℕ) where
  unfoldable pub read_item : ExtType → List ℕ → ExtendedDataItem
  unfolding read_fixed stack_trace_from_raw sid_from_raw get_event_name
  read_item ExtType.related_activityid blob =
      map_or_unsupported (read_fixed 16 blob) related_activity_id
  read_item ExtType.sid blob = map_or_unsupported (sid_from_raw blob) ExtendedDataItem.sid
  read_item ExtType.ts_id blob =
      map_or_unsupported (read_fixed 4 blob) (λ bytes. ExtendedDataItem.ts_id (from_le_bytes bytes))
  read_item ExtType.instance_info blob =
      map_or_unsupported (read_fixed 24 blob) ExtendedDataItem.instance_info
  read_item ExtType.stack_trace32 blob = map_or_unsupported (read_fixed 8 blob) (λ id.
      map_or_unsupported (stack_trace_from_raw 4 (from_le_bytes id) blob)
        ExtendedDataItem.stack_trace32)
  read_item ExtType.stack_trace64 blob = map_or_unsupported (read_fixed 8 blob) (λ id.
      map_or_unsupported (stack_trace_from_raw 8 (from_le_bytes id) blob)
        ExtendedDataItem.stack_trace64)
  read_item ExtType.process_start_key blob =
      map_or_unsupported (read_fixed 8 blob)
        (λ bytes. ExtendedDataItem.process_start_key (from_le_bytes bytes))
  read_item ExtType.event_key blob =
      map_or_unsupported (read_fixed 8 blob)
        (λ bytes. ExtendedDataItem.event_key (from_le_bytes bytes))
  read_item ExtType.event_schema_tl blob = elim (get_event_name memchr blob) [
    | none ↦ trace_logging []
    | some name ↦ trace_logging name
  ]
  read_item ExtType.prov_traits blob = ExtendedDataItem.prov_traits blob
  read_item ExtType.container_id blob =
      map_or_unsupported (read_fixed 16 blob) ExtendedDataItem.container_id
  read_item ExtType.other blob = unsupported

  -- `to_extended_data_item`; the data is `none` where its pointer is null.
  unfoldable pub to_extended_data_item : ExtType → Option (List ℕ) → ExtendedDataItem
  unfolding read_item
  to_extended_data_item ext_type none = unsupported
  to_extended_data_item ext_type (some blob) = read_item ext_type blob
