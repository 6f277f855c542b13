-- ===== src/Trace/Session/Builder.antt =====
-- src/trace.rs: the setters of `TraceBuilder`. The random name of a new builder and the GUIDs drawn
-- by its start are arguments; the providers are those of the registry of the builder.
use ferrisetw.Base.{ℕ, not, ◌&&◌, none, some, List, [], ◌∷◌, if◌then◌else◌, Bool, true, false}
use ferrisetw.Native.EtwTypes.{TraceProperties, DumpFile}
use ferrisetw.Native.EtwTypes.Groups.{ExtendedKernelGroup}
use ferrisetw.Native.Evntrace.{StackTracingEvent}
use ferrisetw.Native.Windows.{World, Windows}
use ferrisetw.Provider.Builder.{Provider}
use ferrisetw.Provider.EventFilter.{Platform}
use ferrisetw.Trace.Registry.{add}
use ferrisetw.Trace.Session.{TraceKind, TraceBuilder, default_properties}
use ferrisetw.Trace.Session.Start.{guid_of}

-- "NT Kernel Logger"
abbrev pub kernel_logger_name : List ℕ
kernel_logger_name =
    78 ∷ 84 ∷ 32 ∷ 75 ∷ 101 ∷ 114 ∷ 110 ∷ 101 ∷ 108 ∷ 32 ∷ 76 ∷ 111 ∷ 103 ∷ 103 ∷ 101 ∷ 114 ∷ []

abbrev is_kernel : TraceKind → Bool
is_kernel TraceKind.user = false
is_kernel TraceKind.kernel = true

abbrev pub set_trace_properties : TraceProperties → TraceBuilder → TraceBuilder
set_trace_properties properties b = record b { properties = properties }

abbrev pub set_etl_dump_file : DumpFile → TraceBuilder → TraceBuilder
set_etl_dump_file params b = record b { etl_dump_file = some params }

abbrev pub set_stop_if_exist : Bool → TraceBuilder → TraceBuilder
set_stop_if_exist stop b = record b { stop_if_exist = stop }

abbrev pub set_stack_tracing : List StackTracingEvent → TraceBuilder → TraceBuilder
set_stack_tracing events b = record b { stack_tracing_events = events }

abbrev pub set_extended_groups : List ExtendedKernelGroup → TraceBuilder → TraceBuilder
set_extended_groups groups b = record b { extended_kernel_groups = groups }

module _ (windows : Windows) (platform : Platform) (provider_at : ℕ → Provider) where
  unfoldable pub named : List ℕ → TraceBuilder → TraceBuilder
  named name b = record b {
    name = if is_kernel b.kind && not windows.is_win8_or_greater then kernel_logger_name else name;
  }

  -- `UserTrace::new`
  unfoldable pub new_user :
      (random_name : List ℕ) (callback_data stop_guid trace_guid : ℕ) → TraceBuilder
  new_user random_name callback_data stop_guid trace_guid = record {
    kind = TraceKind.user;
    name = random_name;
    etl_dump_file = none;
    properties = default_properties windows platform provider_at;
    stop_if_exist = true;
    stack_tracing_events = [];
    extended_kernel_groups = [];
    callback_data = callback_data;
    stop_guid = stop_guid;
    trace_guid = trace_guid;
  }

  -- `KernelTrace::new`: the setter checks the name.
  unfoldable pub new_kernel :
      (random_name : List ℕ) (callback_data stop_guid trace_guid : ℕ) → TraceBuilder
  unfolding named
  new_kernel random_name callback_data stop_guid trace_guid = named random_name (record {
    kind = TraceKind.kernel;
    name = [];
    etl_dump_file = none;
    properties = default_properties windows platform provider_at;
    stop_if_exist = true;
    stack_tracing_events = [];
    extended_kernel_groups = [];
    callback_data = callback_data;
    stop_guid = stop_guid;
    trace_guid = trace_guid;
  })

  -- `KernelTrace::trace_guid`, where a new GUID is drawn for other versions.
  unfoldable pub kernel_trace_guid : (system_trace_control_guid new_guid : ℕ) → ℕ
  kernel_trace_guid system_trace_control_guid new_guid =
      if windows.is_win8_or_greater then new_guid else system_trace_control_guid

  -- `enable`, at the address that the provider gets.
  unfoldable pub enable_at : ℕ → World → World
  unfolding add
  enable_at p w = record w { registry = add (guid_of windows platform provider_at) p w.registry }
