-- ===== src/Native/EtwTypes.antt =====
-- src/native/etw_types.rs: the properties of a session and the mask of kernel groups. A duration is
-- its milliseconds; the GUID of the trace is drawn before. The fields of Wnode that do not depend
-- on the arguments are left out.
pub mod Groups
pub mod Groupmask
use ferrisetw.Base.{
  ℕ, zero, suc, ◌+◌, ◌-◌, ◌*◌, ◌/◌, ◌%◌, ◌^◌, Bool, true, false, Option, none, some, List, [], ◌∷◌,
  ◌++◌, ltb, ◌==◌, if◌then◌else◌, length, take, replicate, min, max,
}
use Prim.Native.Nat.{bit_or}

pub data TraceInformation : Type 0 where
  trace_stack_tracing_info : TraceInformation
  trace_system_trace_enable_flags_info : TraceInformation
  trace_sampled_profile_interval_info : TraceInformation
  trace_profile_source_config_info : TraceInformation
  trace_profile_source_list_info : TraceInformation
  trace_version_info : TraceInformation
  trace_periodic_capture_state_info : TraceInformation
  trace_max_loggers_query : TraceInformation
  trace_max_pmc_counter_query : TraceInformation

abbrev pub trace_name_max_chars : ℕ
trace_name_max_chars = 200

pub data ClockType : Type 0 where
  qpc system_time : ClockType

abbrev pub clock_to_u32 : ClockType → ℕ
clock_to_u32 qpc = 1
clock_to_u32 system_time = 2

-- `TraceProperties` of src/trace.rs
pub record TraceProperties : Type 0 where
  pub buffer_size : ℕ
  pub min_buffer : ℕ
  pub max_buffer : ℕ
  pub flush_timer : ℕ
  pub log_file_mode : ℕ
  pub clock_type : ClockType

-- The path, the logging mode and the maximal size of a dump file.
pub record DumpFile : Type 0 where
  pub path : List ℕ
  pub file_mode : ℕ
  pub max_size : Option ℕ

pub record EventTraceProperties : Type 0 where
  pub guid : ℕ
  pub client_context : ℕ
  pub buffer_size : ℕ
  pub minimum_buffers : ℕ
  pub maximum_buffers : ℕ
  pub flush_timer : ℕ
  pub log_file_mode : ℕ
  pub enable_flags : ℕ
  pub has_log_file : Bool
  pub maximum_file_size : ℕ
  pub wide_trace_name : List ℕ
  pub wide_etl_dump_file_path : List ℕ

-- Rounded to the closest second, in a `u32`, at least one.
unfoldable pub flush_seconds : ℕ → ℕ
flush_seconds millis =
    let seconds = (millis + 500) / 1000 in
    max 1 (if ltb seconds (2 ^ 32) then seconds else 2 ^ 32 - 1)

-- A name in a zeroed array with room for the final NUL.
unfoldable pub fill_name : List ℕ → List ℕ
fill_name name =
    let name_len = min (length name) trace_name_max_chars in
    take name_len name ++ replicate (trace_name_max_chars + 1 - name_len) 0

abbrev with_dump_file : Option DumpFile → EventTraceProperties → EventTraceProperties
with_dump_file none s = s
with_dump_file (some file) s = record s {
  has_log_file = true;
  wide_etl_dump_file_path = fill_name file.path;
  log_file_mode = bit_or s.log_file_mode file.file_mode;
  maximum_file_size = elim file.max_size [ none ↦ s.maximum_file_size | some size ↦ size ];
}

-- `EventTraceProperties::new`. The mode that is taken for an empty one, and the bits that the kind
-- of the trace adds, are arguments.
unfoldable pub new_properties :
    (guid : ℕ)
    → (default_mode augmented_file_mode : ℕ) → (trace_name : List ℕ) → Option DumpFile
    → TraceProperties
    → (enable_flags : ℕ) → EventTraceProperties
unfolding flush_seconds fill_name
new_properties guid default_mode augmented_file_mode trace_name dump_file properties enable_flags =
    with_dump_file dump_file (record {
      guid = guid;
      client_context = clock_to_u32 properties.clock_type;
      buffer_size = properties.buffer_size;
      minimum_buffers = properties.min_buffer;
      maximum_buffers = properties.max_buffer;
      flush_timer = flush_seconds properties.flush_timer;
      log_file_mode =
          bit_or (if properties.log_file_mode == 0 then default_mode else properties.log_file_mode)
            augmented_file_mode;
      enable_flags = enable_flags;
      has_log_file = false;
      maximum_file_size = 0;
      wide_trace_name = fill_name trace_name;
      wide_etl_dump_file_path = replicate (trace_name_max_chars + 1) 0;
    })
