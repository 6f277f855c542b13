-- ===== src/Native/ExtendedData/Complete.antt =====
-- src/native/etw_types/extended_data.rs: which items are read, and the addresses of a stack trace.
use ferrisetw.Base.{
  ℕ, zero, suc, ◌+◌, ◌-◌, ◌*◌, ◌/◌, ◌<◌, ◌≡◌, refl, sym, ap, ◌∙◌, inl, inr, Bool, true, false,
  Option, none, some, List, [], ◌∷◌, ltb, ltb→lt, leb, le→leb, ◌≤◌, if◌then◌else◌, Bool-cases,
  length, take, drop, drop-drop, get_elem?, get_or, from_le_bytes, arith,
}
use native.Mathlib.Nat.{mul-zero, mul-suc}
use ferrisetw.Native.ExtendedData.{sid_from_raw, get_event_name}
use ferrisetw.Native.ExtendedData.Items.{
  StackTraceItem, trace_logging, ExtType, ExtendedDataItem, unsupported, read_fixed, read_addresses,
  stack_trace_from_raw, read_item, to_extended_data_item,
}

abbrev pub is_supported : ExtendedDataItem → Bool
is_supported unsupported = false
is_supported _ = true

-- The bytes that an item of a type must have; `none` for the types that are not read.
abbrev pub fixed_part : ExtType → List ℕ → Option ℕ
fixed_part ExtType.related_activityid blob = some 16
fixed_part ExtType.sid blob = some (8 + 4 * get_or blob 1 0)
fixed_part ExtType.ts_id blob = some 4
fixed_part ExtType.instance_info blob = some 24
fixed_part ExtType.stack_trace32 blob = some 8
fixed_part ExtType.stack_trace64 blob = some 8
fixed_part ExtType.process_start_key blob = some 8
fixed_part ExtType.event_key blob = some 8
fixed_part ExtType.event_schema_tl blob = some 0
fixed_part ExtType.prov_traits blob = some 0
fixed_part ExtType.container_id blob = some 16
fixed_part ExtType.other blob = none

abbrev pub has_fixed_part : ExtType → List ℕ → Bool
has_fixed_part t blob = elim (fixed_part t blob) [ none ↦ false | some n ↦ leb n (length blob) ]

sid_supported :
    (memchr : ℕ → List ℕ → Option ℕ) (blob : List ℕ)
    → is_supported (read_item memchr ExtType.sid blob) ≡ has_fixed_part ExtType.sid blob
unfolding read_item sid_from_raw
sid_supported memchr [] = ground arith
sid_supported memchr (r ∷ []) = ground arith
sid_supported memchr (r ∷ c ∷ rest) = ground arith

name_supported :
    (name : Option (List ℕ))
    → is_supported (elim name [ none ↦ trace_logging [] | some n ↦ trace_logging n ]) ≡ true
name_supported none = refl
name_supported (some n) = refl

-- An item with data is read, and not dropped as unsupported, exactly when its data has the bytes
-- that its type must have: the fixed part of the structure, or the whole SID that the count of
-- sub-authorities announces. Items of other types are dropped.
pub to_extended_data_item-IsSupported :
    (memchr : ℕ → List ℕ → Option ℕ) (ext_type : ExtType) (blob : List ℕ)
    → is_supported (to_extended_data_item memchr ext_type (some blob))
      ≡ has_fixed_part ext_type blob
unfolding to_extended_data_item read_item read_fixed stack_trace_from_raw
to_extended_data_item-IsSupported memchr ExtType.related_activityid blob = ground arith
to_extended_data_item-IsSupported memchr ExtType.sid blob = sid_supported memchr blob
to_extended_data_item-IsSupported memchr ExtType.ts_id blob = ground arith
to_extended_data_item-IsSupported memchr ExtType.instance_info blob = ground arith
to_extended_data_item-IsSupported memchr ExtType.stack_trace32 blob = ground arith
to_extended_data_item-IsSupported memchr ExtType.stack_trace64 blob = ground arith
to_extended_data_item-IsSupported memchr ExtType.process_start_key blob = ground arith
to_extended_data_item-IsSupported memchr ExtType.event_key blob = ground arith
to_extended_data_item-IsSupported memchr ExtType.event_schema_tl blob =
    name_supported (get_event_name memchr blob) ∙ sym (le→leb 0 (length blob) (omega arith))
to_extended_data_item-IsSupported memchr ExtType.prov_traits blob = ground arith
to_extended_data_item-IsSupported memchr ExtType.container_id blob = ground arith
to_extended_data_item-IsSupported memchr ExtType.other blob = refl

read_addresses-get :
    (width n : ℕ) (bytes : List ℕ) (index : ℕ)
    → index < n
    → get_elem? (read_addresses width n bytes) index
      ≡ some (from_le_bytes (take width (drop (width * index) bytes)))
read_addresses-get width zero bytes index h = absurd (omega arith)
read_addresses-get width (suc n) bytes zero h = rw (mul-zero width)
read_addresses-get width (suc n) bytes (suc index) h =
    read_addresses-get width n (drop width bytes) index (omega arith)
    ∙ ap (λ bs. some (from_le_bytes (take width bs)))
        (drop-drop width (width * index) bytes
          ∙ ap (λ k. drop k bytes) (omega (arith, mul-suc width index)))

read_addresses-none :
    (width n : ℕ) (bytes : List ℕ) (index : ℕ)
    → n ≤ index
    → get_elem? (read_addresses width n bytes) index ≡ none
read_addresses-none width zero bytes index h = refl
read_addresses-none width (suc n) bytes zero h = absurd (omega arith)
read_addresses-none width (suc n) bytes (suc index) h =
    read_addresses-none width n (drop width bytes) index (omega arith)

read_addresses-at :
    (width n : ℕ) (bytes : List ℕ) (index : ℕ)
    → get_elem? (read_addresses width n bytes) index ≡ (
        if ltb index n
        then some (from_le_bytes (take width (drop (width * index) bytes)))
        else none)
read_addresses-at width n bytes index = elim (Bool-cases (ltb index n)) [
  | inl e ↦ rw e (read_addresses-get width n bytes index (ltb→lt index n e))
  | inr e ↦ rw e (read_addresses-none width n bytes index (ground arith))
]

read_addresses-length : (width n : ℕ) (bytes : List ℕ) → length (read_addresses width n bytes) ≡ n
read_addresses-length width zero bytes = refl
read_addresses-length width (suc n) bytes =
    ap suc (read_addresses-length width n (drop width bytes))

-- A stack trace that is read has exactly one address for every `width` whole bytes that follow the
-- eight of its match id, none when there are fewer, and each address is read from its own bytes of
-- the item; at any other index there is none.
pub stack_trace_from_raw-addresses :
    (width id : ℕ) (blob : List ℕ) (trace : StackTraceItem) (index : ℕ)
    → stack_trace_from_raw width id blob ≡ some trace
    → (length trace.addresses ≡ (length blob - 8) / width)
      × (get_elem? trace.addresses index ≡ (
          if ltb index ((length blob - 8) / width)
          then some (from_le_bytes (take width (drop (8 + width * index) blob)))
          else none))
unfolding stack_trace_from_raw
stack_trace_from_raw-addresses width id blob trace index e =
    let n = (length blob - 8) / width in
    elim (Bool-cases (ltb (length blob) 8)) [
      | inl short ↦ absurd (ground arith)
      | inr enough ↦
          let same : StackTraceItem.addresses trace ≡ read_addresses width n (drop 8 blob) =
            ground arith in
          (
            ap length same ∙ read_addresses-length width n (drop 8 blob),
            ap (λ found. get_elem? found index) same
                ∙ read_addresses-at width n (drop 8 blob) index
                ∙ ap (λ bs. if ltb index n then some (from_le_bytes (take width bs)) else none)
                    (drop-drop 8 (width * index) blob),
          )
    ]
