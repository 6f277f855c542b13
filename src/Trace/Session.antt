-- ===== src/Trace/Session.antt =====
-- src/trace.rs: how a session is started, opened, changed while it runs, and stopped. The session
-- of a user or kernel trace; `provider_at` reads the provider at an address. A name is its UTF-16
-- units.
-- Children: Start (the operations of a builder and of a trace).
pub mod Start
pub mod Lifecycle
pub mod Failure
pub mod Leaves
pub mod Sync
pub mod Running
pub mod Begun
pub mod Synced
pub mod Builder
pub mod FileTrace
use ferrisetw.Base.{
  ℕ, zero, suc, Bool, true, false, not, ◌&&◌, Option, none, some, List, [], ◌∷◌, ltb, ◌==◌,
  if◌then◌else◌, take,
}
use ferrisetw.Native.EtwTypes.{
  TraceProperties, DumpFile, EventTraceProperties, new_properties, trace_name_max_chars, qpc,
}
use ferrisetw.Native.EtwTypes
use ferrisetw.Native.EtwTypes.Groups.{ExtendedKernelGroup}
use ferrisetw.Native.Evntrace.{
  StackTracingEvent, unregister, start_trace, open_trace, enable_provider, disable_provider,
  capture_provider_state, control_trace, control_trace_by_name, close_trace,
}
use ferrisetw.Native.Evntrace.Info.{enable_stack_tracing, set_extended_kernel_groups}
use ferrisetw.Native.Windows.{
  ControlCode, Source, real_time_session, EvntraceNativeError, io_error, invalid_filter, TraceError,
  invalid_trace_name, etw_native_error, Result, ok, err, World, M, ◌>>=◌, ◌>>◌, pure, throw, native,
  for_each, Windows,
}
use ferrisetw.Native.Windows
use ferrisetw.Provider.Builder.{Provider}
use ferrisetw.Provider.EventFilter.{Platform}
use ferrisetw.Trace.Registry.{ProviderRegistry, add, remove_all_by_guid, remove_one, contains}
use Prim.Native.Nat.{bit_or}

pub data TraceKind : Type 0 where
  user kernel : TraceKind

-- `stop_guid` and `trace_guid` are the GUIDs that a start gives to its two properties.
pub record TraceBuilder : Type 0 where
  pub kind : TraceKind
  pub name : List ℕ
  pub etl_dump_file : Option DumpFile
  pub properties : TraceProperties
  pub stop_if_exist : Bool
  pub stack_tracing_events : List StackTracingEvent
  pub extended_kernel_groups : List ExtendedKernelGroup
  pub callback_data : ℕ
  pub stop_guid : ℕ
  pub trace_guid : ℕ

-- `UserTrace` and `KernelTrace`; `context` is the id of its context.
pub record Trace : Type 0 where
  pub properties : EventTraceProperties
  pub control_handle : ℕ
  pub trace_handle : ℕ
  pub context : ℕ

abbrev pub take_while_nonzero : List ℕ → List ℕ
take_while_nonzero [] = []
take_while_nonzero (u ∷ us) = let rest = take_while_nonzero us in if u == 0 then [] else u ∷ rest

-- `from_str_truncate`, the truncation to 200 units, and `from_vec_truncate`.
abbrev pub wide_name : List ℕ → List ℕ
wide_name name = take_while_nonzero (take trace_name_max_chars (take_while_nonzero name))

abbrev wide_dump_file : Option DumpFile → Option DumpFile
wide_dump_file none = none
wide_dump_file (some file) = some (record file { path = wide_name file.path })

abbrev pub has_nul : List ℕ → Bool
has_nul [] = false
has_nul (u ∷ us) = let rest = has_nul us in if u == 0 then true else rest

-- `EVENT_TRACE_SYSTEM_LOGGER_MODE`
abbrev system_logger_mode : ℕ
system_logger_mode = 0x02000000

abbrev pub has_filters : Provider → Bool
has_filters provider = elim provider.filters [ [] ↦ false | f ∷ fs ↦ true ]

module _ (windows : Windows) (platform : Platform) (provider_at : ℕ → Provider) where
  open windows use {
    is_win8_or_greater, error_wmi_instance_not_found, event_trace_real_time_mode,
    event_trace_no_per_processor_buffering,
  }

  abbrev pub guid_at : ℕ → ℕ
  guid_at p = (provider_at p).guid

  abbrev pub default_mode : ℕ
  default_mode = bit_or event_trace_real_time_mode event_trace_no_per_processor_buffering

  -- `enable_flags`
  abbrev pub kernel_flags : ℕ → List ℕ → ℕ
  kernel_flags flags [] = flags
  kernel_flags flags (p ∷ ps) = kernel_flags (bit_or flags (provider_at p).kernel_flags) ps

  abbrev enable_flags : TraceKind → List ℕ → ℕ
  enable_flags TraceKind.user ps = 0
  enable_flags TraceKind.kernel ps = kernel_flags 0 ps

  abbrev augmented_file_mode : TraceKind → ℕ
  augmented_file_mode TraceKind.user = 0
  augmented_file_mode TraceKind.kernel = if is_win8_or_greater then system_logger_mode else 0

  abbrev pub default_properties : TraceProperties
  default_properties = record {
    buffer_size = 32;
    min_buffer = 0;
    max_buffer = 0;
    flush_timer = 1000;
    log_file_mode = default_mode;
    clock_type = qpc;
  }

  -- The properties that `start` and `open_existing` build.
  unfoldable pub built_properties : TraceBuilder → List ℕ → EventTraceProperties
  unfolding new_properties
  built_properties b ps =
      new_properties b.trace_guid default_mode (augmented_file_mode b.kind) (wide_name b.name)
        (wide_dump_file b.etl_dump_file) b.properties (enable_flags b.kind ps)

  -- A trace that does not run is not an error.
  abbrev pub ignore_not_found : Result ℕ (Unit {0}) × World → Result TraceError (Unit {0}) × World
  ignore_not_found (ok done, w) = (ok tt, w)
  ignore_not_found (err code, w) =
      if code == error_wmi_instance_not_found
      then (ok tt, w)
      else (err (etw_native_error (io_error code)), w)

  -- The properties are those of a user trace.
  unfoldable pub stop_trace_by_name : (guid : ℕ) → List ℕ → M TraceError (Unit {0})
  unfolding new_properties control_trace_by_name
  stop_trace_by_name guid name w =
      let properties = new_properties guid default_mode 0 name none default_properties 0 in
      let stopped = control_trace_by_name windows platform properties name ControlCode.stop w in
      if has_nul name then (err invalid_trace_name, w) else ignore_not_found stopped

  -- The error of the first step is reported first.
  abbrev pub first_error :
      Result TraceError Bool → Result TraceError (Unit {0}) → Result TraceError (Unit {0})
  first_error (err e) stopped = err e
  first_error (ok pending) stopped = stopped

  -- Both steps run.
  unfoldable pub non_consuming_stop : Trace → M TraceError (Unit {0})
  unfolding close_trace control_trace
  non_consuming_stop t w =
      let closed = native (close_trace windows platform t.trace_handle t.context) w in
      let stopped =
        native (control_trace windows platform t.properties t.control_handle ControlCode.stop)
          closed.1 in
      (first_error closed.0 stopped.0, stopped.1)

  -- The drop of `TraceContext` comes after the stop.
  unfoldable pub drop_trace : Trace → World → World
  unfolding non_consuming_stop unregister
  drop_trace t w = unregister t.context (non_consuming_stop t w).1

  -- The drop of `StartedSessionGuard` where it was not handed over.
  unfoldable pub drop_guard : EventTraceProperties → ℕ → Option (ℕ × ℕ) → World → World
  unfolding close_trace control_trace unregister
  drop_guard properties handle none w =
      (control_trace windows platform properties handle ControlCode.stop w).1
  drop_guard properties handle (some (trace_handle, context)) w =
      let closed = (close_trace windows platform trace_handle context w).1 in
      (control_trace windows platform properties handle ControlCode.stop
        (unregister context closed)).1

  -- A step under the guard: an error leaves through its drop.
  abbrev pub guarded :
      {A : Type 0}
      → EventTraceProperties
      → ℕ
      → Option (ℕ × ℕ)
      → Result TraceError A × World
      → Result TraceError A × World
  guarded properties handle consumer (ok a, w) = (ok a, w)
  guarded properties handle consumer (err e, w) = (err e, drop_guard properties handle consumer w)

  abbrev pub under :
      {A : Type 0} → EventTraceProperties → ℕ → Option (ℕ × ℕ) → M TraceError A → M TraceError A
  under properties handle consumer m w = guarded properties handle consumer (m w)
