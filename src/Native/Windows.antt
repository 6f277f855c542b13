-- ===== src/Native/Windows.antt =====
-- src/native/evntrace.rs: the Windows calls that the crate makes, and the state that they change.
-- Windows is a parameter: what a call returns is any function of the calls made so far, the latest
-- first. A GUID is a number, a name is its UTF-16 units.
use ferrisetw.Base.{ℕ, String, Bool, Option, List, [], ◌∷◌}
use ferrisetw.Native.EtwTypes.{EventTraceProperties, TraceInformation}
use ferrisetw.Provider.EventFilter.{EventFilterDescriptor}
use ferrisetw.Trace.Registry.{ProviderRegistry}

pub data ControlCode : Type 0 where
  query stop : ControlCode

pub data ProviderControl : Type 0 where
  enable_provider disable_provider capture_state : ProviderControl

pub record EnableTraceParameters : Type 0 where
  pub enable_property : ℕ
  pub filters : List EventFilterDescriptor

-- A session is controlled by its handle or, with the handle 0, by its name.
pub data Target : Type 0 where
  by_handle : ℕ → Target
  by_name : List ℕ → Target

pub data Source : Type 0 where
  real_time_session from_file : List ℕ → Source

pub data Call : Type 0 where
  start_trace_w : EventTraceProperties → Call
  control_trace_w : Target → EventTraceProperties → ControlCode → Call
  open_trace_w : (context : ℕ) → Source → Call
  close_trace_w : ℕ → Call
  process_trace : ℕ → Call
  enable_trace_ex2 :
      (handle guid : ℕ)
      → ProviderControl
      → (level any all : ℕ) → Option EnableTraceParameters
      → Call
  trace_query_information : (handle : ℕ) → TraceInformation → (size : ℕ) → Call
  trace_set_information : (handle : ℕ) → TraceInformation → List ℕ → Call

-- `status` and the outputs are those of the first call of the list.
pub record Windows : Type 0 where
  pub status : List Call → ℕ
  pub control_handle : List Call → ℕ
  pub trace_handle : List Call → ℕ
  pub last_os_error : List Call → ℕ
  pub needed : List Call → ℕ
  pub written : List Call → List ℕ
  pub is_win8_or_greater : Bool
  pub error_success : ℕ
  pub error_already_exists : ℕ
  pub error_cancelled : ℕ
  pub error_ctx_close_pending : ℕ
  pub error_insufficient_buffer : ℕ
  pub error_wmi_instance_not_found : ℕ
  pub event_enable_property_stack_trace : ℕ
  pub event_trace_real_time_mode : ℕ
  pub event_trace_no_per_processor_buffering : ℕ

-- `invalid_data` is an `IoError` of that kind, with its message.
pub data EvntraceNativeError : Type 0 where
  invalid_handle already_exist : EvntraceNativeError
  io_error : ℕ → EvntraceNativeError
  invalid_data : String → EvntraceNativeError
  invalid_filter : String → EvntraceNativeError

pub data TraceError : Type 0 where
  invalid_trace_name : TraceError
  etw_native_error : EvntraceNativeError → TraceError

pub data Result (E A : Type 0) : Type 0 where
  ok : A → Result E A
  err : E → Result E A

-- The calls so far, the latest first; CONTEXT_REGISTRY, from the id of a context to the address of
-- its callback data; NEXT_CONTEXT_ID; and the registry of providers of the trace at hand.
pub record World : Type 0 where
  pub calls : List Call
  pub contexts : ℕ → Option ℕ
  pub next_context_id : ℕ
  pub registry : ProviderRegistry

abbrev pub M : Type 0 → Type 0 → Type 0
M E A = World → Result E A × World

abbrev pub continue : {E A B : Type 0} → Result E A → (A → M E B) → M E B
continue (ok a) f w = f a w
continue (err e) f w = (err e, w)

infixl 5 ◌>>=◌ ◌>>◌
abbrev pub ◌>>=◌ : {E A B : Type 0} → M E A → (A → M E B) → M E B
◌>>=◌ m f w = continue (m w).0 f (m w).1

abbrev pub ◌>>◌ : {E B : Type 0} → M E (Unit {0}) → M E B → M E B
m >> k = m >>= λ _. k

abbrev pub pure : {E A : Type 0} → A → M E A
pure a w = (ok a, w)

abbrev pub throw : {E A : Type 0} → E → M E A
throw e w = (err e, w)

-- `?` on the result of a native function, which is wrapped.
abbrev pub wrap_error : {A : Type 0} → Result EvntraceNativeError A → Result TraceError A
wrap_error (ok a) = ok a
wrap_error (err e) = err (etw_native_error e)

abbrev pub native : {A : Type 0} → M EvntraceNativeError A → M TraceError A
native m w = (wrap_error (m w).0, (m w).1)

-- A call is recorded; the function is then given all calls.
abbrev pub call : {E A : Type 0} → Call → (List Call → M E A) → M E A
call c f w = f (c ∷ w.calls) (record w { calls = c ∷ w.calls })

-- `for` over a list, up to the first error.
abbrev pub for_each : {E A : Type 0} → List A → (A → M E (Unit {0})) → M E (Unit {0})
for_each [] f w = (ok tt, w)
for_each (x ∷ xs) f w = let rest = for_each xs f in continue (f x w).0 (λ _. rest) (f x w).1
