-- ===== src/Native/Evntrace.antt =====
-- src/native/evntrace.rs: the wrappers of the Windows calls, and the registry of contexts.
-- Children: Info (information classes), Quiet (proofs of what leaves sessions running), Contexts
-- (the thunks and the contexts that they look up).
pub mod Info
pub mod Quiet
pub mod Contexts
use ferrisetw.Base.{
  ℕ, zero, suc, ◌+◌, ◌-◌, ◌%◌, ◌^◌, min, String, Bool, true, false, not, ◌||◌, Option, none, some,
  List, [], ◌∷◌, ◌++◌, ltb, ◌==◌, if◌then◌else◌, length, take, replicate,
}
use ferrisetw.Native.EtwTypes.{EventTraceProperties, TraceInformation}
use ferrisetw.Native.EtwTypes.Groups.{ExtendedKernelGroup}
use ferrisetw.Native.EtwTypes.Groupmask.{set_groups, from_bytes, as_bytes}
use ferrisetw.Native.EtwTypes
use ferrisetw.Native.Windows.{
  Call, start_trace_w, control_trace_w, open_trace_w, close_trace_w, process_trace,
  enable_trace_ex2, trace_query_information, trace_set_information, ControlCode, ProviderControl,
  Target, by_handle, by_name, Source, EnableTraceParameters, EvntraceNativeError, invalid_handle,
  already_exist, io_error, invalid_data, invalid_filter, Result, ok, err, World, M, ◌>>=◌, ◌>>◌,
  pure, throw, call, Windows,
}
use ferrisetw.Native.Windows
use ferrisetw.Provider.Builder.{Provider}
use ferrisetw.Provider.EventFilter.{
  EventFilter, EventFilterDescriptor, FilterType, event_id, event_name, executable_name, pid,
  stackwalk, FilterResult, Platform, to_event_filter_descriptor,
}
use ferrisetw.Provider.EventFilter
use Prim.Native.Nat.{bit_or}

-- `StackTracingEvent` of src/trace.rs; the GUID is its 16 bytes in memory.
pub record StackTracingEvent : Type 0 where
  pub event_guid : List ℕ
  pub event_type : ℕ

abbrev pub filter_invalid_trace_handles : ℕ → Option ℕ
filter_invalid_trace_handles h = if (h == 2 ^ 64 - 1) || (h == 2 ^ 32 - 1) then none else some h

abbrev pub filter_invalid_control_handle : ℕ → Option ℕ
filter_invalid_control_handle h = if h == 0 then none else some h

-- `Some(handle)`, or the error for an invalid one.
abbrev pub with_handle :
    {A : Type 0} → Option ℕ → (ℕ → M EvntraceNativeError A) → M EvntraceNativeError A
with_handle none f w = (err invalid_handle, w)
with_handle (some h) f w = f h w

-- `fetch_add` of 1 on an `AtomicUsize`, which wraps around.
abbrev pub next_id : ℕ → ℕ
next_id id = (id + 1) % 2 ^ 64

-- The registry: a new context takes the next id.
unfoldable pub new_context : (callback_data : ℕ) → M EvntraceNativeError ℕ
new_context callback_data w = (
  ok w.next_context_id,
  record w {
    contexts = λ k. if k == w.next_context_id then some callback_data else w.contexts k;
    next_context_id = next_id w.next_context_id;
  },
)

unfoldable pub unregister : ℕ → World → World
unregister id w = record w { contexts = λ k. if k == id then none else w.contexts k }

-- The callback data that an event with this `UserContext` is dispatched to.
abbrev pub get_context : ℕ → World → Option ℕ
get_context id w = w.contexts id

abbrev filter_type_number : FilterType → ℕ
filter_type_number event_id = 0
filter_type_number event_name = 1
filter_type_number executable_name = 2
filter_type_number pid = 3
filter_type_number stackwalk = 4

abbrev pub same_type : FilterType → FilterType → Bool
same_type t u = filter_type_number t == filter_type_number u

abbrev pub has_type : FilterType → List EventFilterDescriptor → Bool
has_type t [] = false
has_type t (d ∷ ds) = same_type d.ty t || has_type t ds

module _ (windows : Windows) (platform : Platform) where
  open windows use {
    status, control_handle, trace_handle, last_os_error, needed, written, error_success,
    error_already_exists, error_cancelled, error_ctx_close_pending, error_insufficient_buffer,
    event_enable_property_stack_trace,
  }

  abbrev pub win32_result : ℕ → M EvntraceNativeError (Unit {0})
  win32_result code w = if code == error_success then (ok tt, w) else (err (io_error code), w)

  -- A call whose status is the result.
  abbrev pub send : Call → M EvntraceNativeError (Unit {0})
  send c = call c (λ calls. win32_result (status calls))

  -- The handle that `StartTraceW` returns in `calls`, unless it fails.
  abbrev pub started_handle :
      EventTraceProperties → List Call → M EvntraceNativeError (EventTraceProperties × ℕ)
  started_handle properties calls w =
      if status calls == error_success
      then with_handle (filter_invalid_control_handle (control_handle calls))
          (λ h. pure (properties, h)) w
      else if status calls == error_already_exists
      then (err already_exist, w)
      else (err (io_error (status calls)), w)

  unfoldable pub start_trace :
      EventTraceProperties → M EvntraceNativeError (EventTraceProperties × ℕ)
  start_trace properties = call (start_trace_w properties) (started_handle properties)

  -- An invalid handle drops the context again.
  abbrev pub opened : Option ℕ → ℕ → List Call → M EvntraceNativeError (ℕ × ℕ)
  opened none context calls w = (err (io_error (last_os_error calls)), unregister context w)
  opened (some h) context calls w = (ok (h, context), w)

  unfoldable pub open_trace : Source → (callback_data : ℕ) → M EvntraceNativeError (ℕ × ℕ)
  unfolding new_context unregister
  open_trace source callback_data = new_context callback_data >>= (λ id.
      call (open_trace_w id source)
        (λ calls. opened (filter_invalid_trace_handles (trace_handle calls)) id calls))

  -- The descriptors of the filters, where `seen` are those already built. The message leaves out the
  -- number of the type.
  unfoldable pub build_filters :
      List EventFilterDescriptor
      → List EventFilter
      → Result EvntraceNativeError (List EventFilterDescriptor)
  unfolding to_event_filter_descriptor
  build_filters seen [] = ok seen
  build_filters seen (filter ∷ filters) = elim (to_event_filter_descriptor platform filter) [
    | FilterResult.err message ↦ err (invalid_filter message)
    | FilterResult.ok d ↦
        let rest = build_filters (seen ++ d ∷ []) filters in
        if has_type d.ty seen
        then err (
            invalid_filter
              "several filters share a type; at most one filter of each type is allowed")
        else rest
  ]

  unfoldable pub build_event_filter_descriptors :
      Provider → M EvntraceNativeError (List EventFilterDescriptor)
  unfolding build_filters
  build_event_filter_descriptors provider w = (build_filters [] provider.filters, w)

  abbrev pub enable_property : Provider → List EventFilterDescriptor → ℕ
  enable_property provider filters =
      if has_type stackwalk filters
      then bit_or provider.trace_flags event_enable_property_stack_trace
      else provider.trace_flags

  abbrev pub enable_parameters : Provider → List EventFilterDescriptor → EnableTraceParameters
  enable_parameters provider filters = record {
    enable_property = enable_property provider filters;
    filters = filters;
  }

  unfoldable pub enable_provider : ℕ → Provider → M EvntraceNativeError (Unit {0})
  unfolding build_event_filter_descriptors
  enable_provider handle provider = with_handle (filter_invalid_control_handle handle) (λ h.
      build_event_filter_descriptors provider >>= (λ filters. send (
        enable_trace_ex2 h provider.guid ProviderControl.enable_provider provider.level provider.any
          provider.all (some (enable_parameters provider filters)))))

  unfoldable pub disable_provider : ℕ → (guid : ℕ) → M EvntraceNativeError (Unit {0})
  disable_provider handle guid =
      with_handle (filter_invalid_control_handle handle)
        (λ h. send (enable_trace_ex2 h guid ProviderControl.disable_provider 0 0 0 none))

  unfoldable pub capture_provider_state : ℕ → Provider → M EvntraceNativeError (Unit {0})
  capture_provider_state handle provider =
      with_handle (filter_invalid_control_handle handle)
        (λ h. send (enable_trace_ex2 h provider.guid ProviderControl.capture_state 0 0 0 none))

  unfoldable pub process : ℕ → M EvntraceNativeError (Unit {0})
  process handle = with_handle (filter_invalid_trace_handles handle) (λ h.
      call (process_trace h) (λ calls w.
        if (status calls == error_success) || (status calls == error_cancelled)
        then (ok tt, w)
        else (err (io_error (status calls)), w)))

  unfoldable pub control_trace :
      EventTraceProperties → ℕ → ControlCode → M EvntraceNativeError (Unit {0})
  control_trace properties handle code =
      with_handle (filter_invalid_control_handle handle)
        (λ h. send (control_trace_w (by_handle h) properties code))

  -- The error is the code of Windows.
  unfoldable pub control_trace_by_name :
      EventTraceProperties → List ℕ → ControlCode → M ℕ (Unit {0})
  control_trace_by_name properties name code =
      call (control_trace_w (by_name name) properties code)
        (λ calls w. if status calls == error_success then (ok tt, w) else (err (status calls), w))

  -- True where the close is pending.
  abbrev pub closed : List Call → M EvntraceNativeError Bool
  closed calls w =
      if status calls == error_success
      then (ok false, w)
      else if status calls == error_ctx_close_pending
      then (ok true, w)
      else (err (io_error (status calls)), w)

  unfoldable pub close_trace : ℕ → (context : ℕ) → M EvntraceNativeError Bool
  unfolding unregister
  close_trace handle context =
      with_handle (filter_invalid_trace_handles handle)
        (λ h w. call (close_trace_w h) closed (unregister context w))
