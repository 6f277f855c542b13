-- ===== src/Trace/SessionTests.antt =====
-- The theorems about sessions at a concrete trace with one provider.
use ferrisetw.Base.{
  ℕ, ◌≡◌, refl, true, false, none, some, List, [], ◌∷◌, ◌==◌, if◌then◌else◌, length, arith,
}
use ferrisetw.Native.EtwTypes.{qpc, trace_profile_source_list_info}
use ferrisetw.Native.Evntrace.{
  new_context, control_trace_by_name, start_trace, open_trace, control_trace, enable_provider,
  build_event_filter_descriptors, build_filters,
}
use ferrisetw.Native.Evntrace.Info.{query_array_info, query_rounds}
use ferrisetw.Native.Evntrace.Info.Rounds.{Answered, query_array_info-Answered}
use ferrisetw.Native.Evntrace.Quiet.{running}
use ferrisetw.Native.Evntrace.Contexts
use ferrisetw.Native.Evntrace.Contexts.{
  Store, LogFile, ContextOperation, open_operation, close_operation, drop_operation, retires,
  trace_callback_thunk, buffer_callback_thunk, thunks_dispatch,
}
use ferrisetw.Trace.Callbacks
use ferrisetw.Native.Windows.{
  Call, by_handle, start_trace_w, control_trace_w, open_trace_w, close_trace_w, process_trace,
  enable_trace_ex2, trace_query_information, trace_set_information, ok, err, etw_native_error,
  io_error, World, Windows, real_time_session, from_file,
}
use ferrisetw.Provider.Builder.{Provider}
use ferrisetw.Provider.EventFilter.{Platform}
use ferrisetw.Trace.Registry.{empty, is_registered, add}
use ferrisetw.Trace.Registry.Index.{empty-IsIndexed, add-IsIndexed}
use ferrisetw.Trace.Session.{
  TraceKind, TraceBuilder, Trace, drop_trace, drop_guard, built_properties, stop_trace_by_name,
}
use ferrisetw.Trace.Session.Leaves.{AfterStart, AfterDrop, start-Leaves, drop_trace-Restored}
use ferrisetw.Trace.Session.Synced.{started_operations-IsInSync}
use ferrisetw.Trace.Session.Start.{
  start, configure, build_started, UserOperation, enable_operation, disable_operation,
  capture_operation, apply_operations,
}
use ferrisetw.Trace.Session.Sync.{enabled}

abbrev platform : Platform
platform = record {
  max_event_filter_data_size = 1024;
  max_event_filter_event_id_count = 64;
  max_event_filter_event_name_size = 4096;
  max_event_filter_pid_count = 8;
  event_id_size = 6;
  event_name_header_size = 20;
  alloc = λ size. true;
}

-- Enabling the provider 9 is refused with 87, and everything else succeeds.
abbrev answer : List Call → ℕ
answer [] = 0
answer (enable_trace_ex2 h guid code level any all parameters ∷ calls) = if guid == 9 then 87 else 0
answer (start_trace_w properties ∷ calls) = 0
answer (control_trace_w target properties code ∷ calls) = 0
answer (open_trace_w context source ∷ calls) = 0
answer (close_trace_w h ∷ calls) = 0
answer (process_trace h ∷ calls) = 0
answer (trace_query_information h class size ∷ calls) = 0
answer (trace_set_information h class buf ∷ calls) = 0

abbrev windows : Windows
windows = record {
  status = answer;
  control_handle = λ calls. 5;
  trace_handle = λ calls. 7;
  last_os_error = λ calls. 6;
  needed = λ calls. 32;
  written = λ calls. [];
  is_win8_or_greater = true;
  error_success = 0;
  error_already_exists = 183;
  error_cancelled = 1223;
  error_ctx_close_pending = 7007;
  error_insufficient_buffer = 122;
  error_wmi_instance_not_found = 4201;
  event_enable_property_stack_trace = 4;
  event_trace_real_time_mode = 0x100;
  event_trace_no_per_processor_buffering = 0x10000000;
}

-- The provider at an address has that address as its GUID.
abbrev provider_at : ℕ → Provider
provider_at p = record {
  guid = p;
  any = 0;
  all = 0;
  level = 5;
  trace_flags = 0;
  kernel_flags = 0;
  capture_state = false;
  filters = [];
  callbacks = [];
}

abbrev builder : TraceBuilder
builder = record {
  kind = TraceKind.user;
  name = 97 ∷ 98 ∷ [];
  etl_dump_file = none;
  properties = record {
    buffer_size = 32;
    min_buffer = 0;
    max_buffer = 0;
    flush_timer = 1000;
    log_file_mode = 0;
    clock_type = qpc;
  };
  stop_if_exist = true;
  stack_tracing_events = [];
  extended_kernel_groups = [];
  callback_data = 4096;
  stop_guid = 2;
  trace_guid = 1;
}

abbrev with_provider : ℕ → World
with_provider p = record {
  calls = [];
  contexts = λ k. none;
  next_context_id = 1;
  registry = add (λ q. q) p empty;
}

abbrev trace : Trace
trace = record {
  properties = built_properties windows platform provider_at builder (3 ∷ []);
  control_handle = 5;
  trace_handle = 7;
  context = 1;
}

abbrev started : World
started = (start windows platform provider_at builder (with_provider 3)).1

starts : start windows platform provider_at builder (with_provider 3) ≡ (ok trace, started)
unfolding start stop_trace_by_name control_trace_by_name start_trace build_started configure
    enable_provider build_event_filter_descriptors build_filters open_trace new_context add
starts = refl

-- The start fails where the provider is enabled, after the session was started.
fails :
    (start windows platform provider_at builder (with_provider 9)).0
    ≡ err (etw_native_error (io_error 87))
unfolding start stop_trace_by_name control_trace_by_name start_trace build_started configure
    drop_guard control_trace enable_provider build_event_filter_descriptors build_filters open_trace
    new_context add
fails = refl

start-Leaves_example :
    AfterStart windows platform provider_at builder
      (with_provider 9)
      (start windows platform provider_at builder (with_provider 9))
start-Leaves_example = start-Leaves windows platform provider_at builder (with_provider 9) refl

drop_trace-Restored_example :
    AfterDrop windows platform provider_at builder
      (with_provider 3)
      5
      (drop_trace windows platform provider_at trace started)
drop_trace-Restored_example =
    drop_trace-Restored windows platform provider_at builder (with_provider 3) started trace refl
      starts

-- A STOP by handle is refused: the session of a failed start still runs.
abbrev refused : List Call → ℕ
refused (control_trace_w (by_handle h) properties code ∷ calls) = 5
refused calls = answer calls

abbrev refusing : Windows
refusing = record windows { status = refused }

left_running :
    running refusing (start refusing platform provider_at builder (with_provider 9)).1.calls
    ≡ 5 ∷ []
unfolding start stop_trace_by_name control_trace_by_name start_trace build_started configure
    drop_guard control_trace enable_provider build_event_filter_descriptors build_filters open_trace
    new_context add
left_running = refl

abbrev operations : List UserOperation
operations =
    enable_operation 4
    ∷ enable_operation 9
    ∷ capture_operation
    ∷ disable_operation 3
    ∷ enable_operation 5
    ∷ []

started_operations-IsInSync_example :
    is_registered 4
      (apply_operations windows platform provider_at trace operations started).registry
    ≡ enabled windows 5 4
        (apply_operations windows platform provider_at trace operations started).calls
unfolding add
started_operations-IsInSync_example =
    started_operations-IsInSync windows platform provider_at builder (with_provider 3) started trace
      refl refl (add-IsIndexed _ 3 empty (empty-IsIndexed _)) starts operations
      (refl, (refl, (refl, tt))) 4

-- The context 1 leads to the address 4096. Its trace is closed while others are opened.
abbrev one_context : World
one_context = record {
  calls = [];
  contexts = λ k. if k == 1 then some 4096 else none;
  next_context_id = 2;
  registry = empty;
}

abbrev context_operations : List ContextOperation
context_operations =
    open_operation (real_time_session (97 ∷ [])) 4096
    ∷ close_operation 7 1
    ∷ drop_operation 2
    ∷ open_operation (from_file (98 ∷ [])) 4096
    ∷ []

retired : retires 1 context_operations ≡ true
retired = refl

abbrev late_buffer : LogFile
late_buffer = record { context = 1; buffers_read = 3; events_lost = 0 }

abbrev no_counts : Store
no_counts = λ a. Callbacks.start

thunks_dispatch_example :
    (trace_callback_thunk
        (some 1)
        (Contexts.apply_all windows platform context_operations one_context)
        no_counts
      ≡ no_counts)
    × (buffer_callback_thunk
          (some late_buffer)
          (Contexts.apply_all windows platform context_operations one_context)
          no_counts
        ≡ no_counts)
thunks_dispatch_example =
    thunks_dispatch windows platform context_operations 1 one_context (omega arith) (omega arith)
      no_counts 3 0

-- Windows asks for a larger buffer once, then fills it.
abbrev growing : Windows
growing = record windows {
  status = λ calls. if length calls == 1 then 122 else 0;
  needed = λ calls. if length calls == 1 then 6 else 4;
  written = λ calls. 1 ∷ 2 ∷ 3 ∷ 4 ∷ 5 ∷ 6 ∷ [];
}

abbrev grown : World
grown = record one_context {
  calls =
      trace_query_information 0 trace_profile_source_list_info 6
      ∷ trace_query_information 0 trace_profile_source_list_info 2
      ∷ [];
}

query_array_info-Answered_example :
    Answered growing platform 4 one_context
      (query_array_info growing platform trace_profile_source_list_info 2 one_context)
query_array_info-Answered_example =
    query_array_info-Answered growing platform trace_profile_source_list_info 2 one_context

grown_answer :
    query_array_info growing platform trace_profile_source_list_info 2 one_context
    ≡ (ok (1 ∷ 2 ∷ 3 ∷ 4 ∷ []), grown)
unfolding query_array_info query_rounds
grown_answer = refl
