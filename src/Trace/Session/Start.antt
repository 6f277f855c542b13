-- ===== src/Trace/Session/Start.antt =====
-- src/trace.rs: `TraceBuilder::start`, `open_existing`, `stop` and `close`, and the changes of a
-- running user trace: `enable_provider`, `disable_provider` and `request_capture_state`. The changes
-- of the session and of its registry run under the lock of session mutations, so an operation is one
-- step; the request of a state after an enabling changes neither.
use ferrisetw.Base.{ℕ, Bool, true, false, not, ◌&&◌, none, some, List, [], ◌∷◌, if◌then◌else◌}
use ferrisetw.Native.EtwTypes.{EventTraceProperties}
use ferrisetw.Native.Evntrace.{
  start_trace, open_trace, enable_provider, disable_provider, capture_provider_state, close_trace,
}
use ferrisetw.Native.Evntrace.Info.{enable_stack_tracing, set_extended_kernel_groups}
use ferrisetw.Native.Windows.{
  real_time_session, invalid_filter, TraceError, etw_native_error, Result, ok, err, World, M, ◌>>=◌,
  ◌>>◌, pure, throw, native, for_each, Windows,
}
use ferrisetw.Provider.Builder.{Provider}
use ferrisetw.Provider.EventFilter.{Platform}
use ferrisetw.Trace.Registry.{add, remove_all_by_guid, remove_one, is_registered}
use ferrisetw.Trace.Session.{
  TraceKind, TraceBuilder, Trace, wide_name, has_filters, built_properties, stop_trace_by_name,
  non_consuming_stop, drop_trace, drop_guard, under,
}

pub data UserOperation : Type 0 where
  enable_operation disable_operation : ℕ → UserOperation
  capture_operation : UserOperation

module _ (windows : Windows) (platform : Platform) (provider_at : ℕ → Provider) where
  -- `kernel_filter_providers`
  abbrev pub kernel_filter_providers : List ℕ → List ℕ
  kernel_filter_providers [] = []
  kernel_filter_providers (p ∷ ps) =
      let rest = kernel_filter_providers ps in
      if has_filters (provider_at p) then p ∷ rest else rest

  abbrev pub is_empty : List ℕ → Bool
  is_empty [] = true
  is_empty (p ∷ ps) = false

  abbrev pub enable_all : ℕ → List ℕ → M TraceError (Unit {0})
  enable_all handle ps =
      for_each ps (λ p. native (enable_provider windows platform handle (provider_at p)))

  abbrev pub capture_one : ℕ → ℕ → M TraceError (Unit {0})
  capture_one handle p =
      if (provider_at p).capture_state
      then native (capture_provider_state windows platform handle (provider_at p))
      else pure tt

  abbrev pub capture_all : ℕ → List ℕ → M TraceError (Unit {0})
  capture_all handle ps = for_each ps (capture_one handle)

  -- A filter that cannot be applied is an error.
  abbrev pub enable_filtered : ℕ → List ℕ → M TraceError (Unit {0})
  enable_filtered handle filtered =
      if not (is_empty filtered) && not windows.is_win8_or_greater
      then throw (
          etw_native_error
            (invalid_filter "kernel providers cannot carry event filters before Windows 8"))
      else enable_all handle filtered

  -- What is set on the session between its start and its opening.
  unfoldable pub configure : TraceKind → TraceBuilder → ℕ → List ℕ → M TraceError (Unit {0})
  unfolding enable_stack_tracing set_extended_kernel_groups enable_provider
  configure TraceKind.user b handle ps = enable_all handle ps
  configure TraceKind.kernel b handle ps =
      native (enable_stack_tracing windows platform handle b.stack_tracing_events)
      >> native (set_extended_kernel_groups windows platform handle b.extended_kernel_groups)
      >> enable_filtered handle (kernel_filter_providers ps)

  abbrev pub capture_states : TraceKind → ℕ → List ℕ → M TraceError (Unit {0})
  capture_states TraceKind.user handle ps = capture_all handle ps
  capture_states TraceKind.kernel handle ps = pure tt

  abbrev pub trace_of : EventTraceProperties → ℕ → ℕ × ℕ → Trace
  trace_of properties handle (trace_handle, context) = record {
    properties = properties;
    control_handle = handle;
    trace_handle = trace_handle;
    context = context;
  }

  -- From the running session on, every step is under the guard.
  unfoldable pub build_started : TraceBuilder → EventTraceProperties × ℕ → M TraceError Trace
  unfolding configure open_trace capture_provider_state drop_guard
  build_started b (properties, handle) w =
      (under windows platform provider_at properties handle none
            (configure b.kind b handle w.registry.providers)
          >> (under windows platform provider_at properties handle none (
                native (
                  open_trace windows platform (real_time_session (wide_name b.name))
                    b.callback_data))
              >>= (λ consumer.
                  under windows platform provider_at properties handle (some consumer)
                    (capture_states b.kind handle w.registry.providers)
                  >> pure (trace_of properties handle consumer))))
        w

  unfoldable pub start : TraceBuilder → M TraceError Trace
  unfolding stop_trace_by_name start_trace build_started built_properties
  start b =
      (if b.stop_if_exist
        then stop_trace_by_name windows platform provider_at b.stop_guid b.name
        else pure tt)
      >> ((λ w.
            native
              (start_trace windows platform
                (built_properties windows platform provider_at b w.registry.providers))
              w)
          >>= build_started b)

  -- The control handle is 0.
  unfoldable pub open_existing : TraceBuilder → M TraceError Trace
  unfolding open_trace built_properties
  open_existing b w =
      (native (open_trace windows platform (real_time_session (wide_name b.name)) b.callback_data)
          >>= (λ consumer. pure (
              trace_of (built_properties windows platform provider_at b w.registry.providers) 0
                consumer)))
        w

  -- `stop` takes the trace, which is dropped afterwards.
  unfoldable pub stop : Trace → M TraceError (Unit {0})
  unfolding non_consuming_stop drop_trace
  stop t w =
      let stopped = non_consuming_stop windows platform provider_at t w in
      (stopped.0, drop_trace windows platform provider_at t stopped.1)

  unfoldable pub close : Trace → M TraceError Bool
  unfolding close_trace drop_trace
  close t w =
      let closed = native (close_trace windows platform t.trace_handle t.context) w in
      (closed.0, drop_trace windows platform provider_at t closed.1)

  abbrev pub guid_of : ℕ → ℕ
  guid_of p = (provider_at p).guid

  -- An error of Windows rolls the registration back.
  abbrev pub after_enable :
      ℕ → ℕ → Result TraceError (Unit {0}) × World → Result TraceError (Unit {0}) × World
  after_enable handle p (err e, w) =
      (err e, record w { registry = (remove_one guid_of p w.registry).1 })
  after_enable handle p (ok done, w) = capture_one handle p w

  -- `UserTrace::enable_provider`; `p` is the address of the provider.
  unfoldable pub enable : Trace → ℕ → M TraceError (Unit {0})
  unfolding add remove_one enable_provider capture_provider_state
  enable t p w = after_enable t.control_handle p (
      native (enable_provider windows platform t.control_handle (provider_at p))
        (record w { registry = add guid_of p w.registry }))

  abbrev pub after_disable : ℕ → Result TraceError (Unit {0}) × World → Result TraceError ℕ × World
  after_disable guid (err e, w) = (err e, w)
  after_disable guid (ok done, w) =
      let removed = remove_all_by_guid guid_of guid w.registry in
      (ok removed.0, record w { registry = removed.1 })

  -- `UserTrace::disable_provider`
  unfoldable pub disable : Trace → (guid : ℕ) → M TraceError ℕ
  unfolding disable_provider remove_all_by_guid
  disable t guid w =
      if not (is_registered guid w.registry)
      then (ok 0, w)
      else after_disable guid (native (disable_provider windows platform t.control_handle guid) w)

  unfoldable pub request_capture_state : Trace → M TraceError (Unit {0})
  unfolding capture_provider_state
  request_capture_state t w = capture_all t.control_handle w.registry.providers w

  -- Operations on one trace, in the order of the lock; the caller goes on after an error.
  unfoldable pub apply_operation : Trace → UserOperation → World → World
  unfolding enable disable request_capture_state
  apply_operation t (enable_operation p) w = (enable t p w).1
  apply_operation t (disable_operation guid) w = (disable t guid w).1
  apply_operation t capture_operation w = (request_capture_state t w).1

  unfoldable pub apply_operations : Trace → List UserOperation → World → World
  unfolding apply_operation
  apply_operations t [] w = w
  apply_operations t (o ∷ os) w = apply_operations t os (apply_operation t o w)
