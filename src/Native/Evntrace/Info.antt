-- ===== src/Native/Evntrace/Info.antt =====
-- src/native/evntrace.rs: what is asked of a session and set on it by an information class.
pub mod Rounds
use ferrisetw.Base.{
  ℕ, zero, suc, min, ◌&&◌, List, [], ◌∷◌, ◌++◌, ltb, ◌==◌, if◌then◌else◌, length, take, replicate,
}
use ferrisetw.Native.EtwTypes.{
  TraceInformation, trace_stack_tracing_info, trace_system_trace_enable_flags_info,
}
use ferrisetw.Native.EtwTypes.Groups.{ExtendedKernelGroup}
use ferrisetw.Native.EtwTypes.Groupmask.{set_groups, from_bytes, as_bytes}
use ferrisetw.Native.Evntrace.{
  StackTracingEvent, filter_invalid_control_handle, with_handle, win32_result, send,
}
use ferrisetw.Native.Windows.{
  trace_query_information, trace_set_information, EvntraceNativeError, io_error, invalid_data, M,
  ◌>>=◌, ◌>>◌, pure, throw, call, Windows,
}
use ferrisetw.Provider.EventFilter.{Platform}

-- `stack_tracing_buffer`: a GUID, a type and seven reserved bytes for each event.
unfoldable pub stack_tracing_buffer : List StackTracingEvent → List ℕ
stack_tracing_buffer [] = []
stack_tracing_buffer (e ∷ events) =
    e.event_guid ++ (e.event_type ∷ replicate 7 0) ++ stack_tracing_buffer events

-- The size of `PerfinfoGroupmask`.
abbrev pub groupmask_size : ℕ
groupmask_size = 32

module _ (windows : Windows) (platform : Platform) where
  open windows use {status, needed, written, error_success, error_insufficient_buffer}

  -- The status, the bytes that are needed, and the buffer of `size` bytes after the call.
  abbrev pub trace_query_raw :
      (session : ℕ) → TraceInformation → (size : ℕ) → M EvntraceNativeError (ℕ × ℕ × List ℕ)
  trace_query_raw session class size =
      call (trace_query_information session class size)
        (λ calls. pure (status calls, needed calls, take size (written calls ++ replicate size 0)))

  unfoldable pub query_info : TraceInformation → (size : ℕ) → M EvntraceNativeError (List ℕ)
  query_info class size =
      trace_query_raw 0 class size
      >>= (λ answer. win32_result windows platform answer.0 >> pure answer.2)

  -- The loop over four rounds; `rounds` are left.
  unfoldable pub query_rounds :
      ℕ → TraceInformation → (capacity : ℕ) → M EvntraceNativeError (List ℕ)
  query_rounds zero class capacity =
      throw (invalid_data "the ETW API kept asking for a larger query buffer")
  query_rounds (suc rounds) class capacity = trace_query_raw 0 class capacity >>= (λ answer.
      let again = query_rounds rounds class answer.1 in
      if answer.0 == error_success
      then pure (take (min answer.1 (length answer.2)) answer.2)
      else if (answer.0 == error_insufficient_buffer) && ltb capacity answer.1
      then again
      else throw (io_error answer.0))

  unfoldable pub query_array_info :
      TraceInformation → (initial_capacity : ℕ) → M EvntraceNativeError (List ℕ)
  unfolding query_rounds
  query_array_info class initial_capacity = query_rounds 4 class initial_capacity

  unfoldable pub set_info : ℕ → TraceInformation → List ℕ → M EvntraceNativeError (Unit {0})
  set_info session class buf =
      with_handle (filter_invalid_control_handle session)
        (λ h. send windows platform (trace_set_information h class buf))

  unfoldable pub enable_stack_tracing :
      ℕ → List StackTracingEvent → M EvntraceNativeError (Unit {0})
  unfolding stack_tracing_buffer set_info
  enable_stack_tracing handle [] = pure tt
  enable_stack_tracing handle (e ∷ events) =
      set_info handle trace_stack_tracing_info (stack_tracing_buffer (e ∷ events))

  -- The groups are merged into the mask that was read.
  unfoldable pub merge_groups :
      ℕ → List ExtendedKernelGroup → ℕ × ℕ × List ℕ → M EvntraceNativeError (Unit {0})
  unfolding set_info set_groups from_bytes as_bytes
  merge_groups handle groups answer =
      win32_result windows platform answer.0
      >> set_info handle trace_system_trace_enable_flags_info
          (as_bytes (set_groups groups (from_bytes answer.2)))

  unfoldable pub set_extended_kernel_groups :
      ℕ → List ExtendedKernelGroup → M EvntraceNativeError (Unit {0})
  unfolding merge_groups
  set_extended_kernel_groups handle [] = pure tt
  set_extended_kernel_groups handle (g ∷ groups) =
      trace_query_raw handle trace_system_trace_enable_flags_info groupmask_size
      >>= merge_groups handle (g ∷ groups)
