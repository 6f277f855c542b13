-- ===== src/Native/Evntrace/Quiet.antt =====
-- src/native/evntrace.rs: the operations that neither start nor stop a session, and that leave the
-- registries alone.
use ferrisetw.Base.{
  ℕ, ◌≡◌, refl, ◌∙◌, inl, inr, Bool, true, false, not, ◌&&◌, Option, none, some, List, [], ◌∷◌,
  ◌==◌, if◌then◌else◌, Bool-cases,
}
use ferrisetw.Native.EtwTypes.{TraceInformation, trace_system_trace_enable_flags_info}
use ferrisetw.Native.EtwTypes.Groupmask.{set_groups, from_bytes, as_bytes}
use ferrisetw.Native.EtwTypes.Groups.{ExtendedKernelGroup}
use ferrisetw.Native.Evntrace.{
  StackTracingEvent, with_handle, filter_invalid_control_handle, win32_result, send,
  build_event_filter_descriptors, enable_provider, disable_provider, capture_provider_state,
}
use ferrisetw.Native.Evntrace.Info.{
  groupmask_size, trace_query_raw, set_info, merge_groups, enable_stack_tracing,
  set_extended_kernel_groups,
}
use ferrisetw.Native.Windows.{
  Call, start_trace_w, control_trace_w, open_trace_w, close_trace_w, process_trace,
  enable_trace_ex2, trace_query_information, trace_set_information, query, stop, by_handle, by_name,
  EvntraceNativeError, Result, ok, err, World, M, continue, ◌>>=◌, native, for_each, Windows,
}
use ferrisetw.Provider.Builder.{Provider}
use ferrisetw.Provider.EventFilter.{Platform}

abbrev pub remove_first : ℕ → List ℕ → List ℕ
remove_first h [] = []
remove_first h (x ∷ xs) = let rest = remove_first h xs in if x == h then xs else x ∷ rest

module _ (windows : Windows) where
  -- The sessions that run, of those that were started under a valid handle: a STOP that succeeds
  -- ends one, a STOP that fails does not. The properties that a STOP by name gives back have the
  -- handle of the session that it has ended.
  abbrev pub running : List Call → List ℕ
  running [] = []
  running (start_trace_w properties ∷ calls) =
      let latest = start_trace_w properties ∷ calls in
      if (windows.status latest == windows.error_success)
        && not (windows.control_handle latest == 0)
      then windows.control_handle latest ∷ running calls
      else running calls
  running (control_trace_w (by_handle h) properties stop ∷ calls) =
      if windows.status (control_trace_w (by_handle h) properties stop ∷ calls)
        == windows.error_success
      then remove_first h (running calls)
      else running calls
  running (control_trace_w (by_name name) properties stop ∷ calls) =
      let latest = control_trace_w (by_name name) properties stop ∷ calls in
      if windows.status latest == windows.error_success
      then remove_first (windows.control_handle latest) (running calls)
      else running calls
  running (control_trace_w target properties query ∷ calls) = running calls
  running (open_trace_w context source ∷ calls) = running calls
  running (close_trace_w h ∷ calls) = running calls
  running (process_trace h ∷ calls) = running calls
  running (enable_trace_ex2 h guid code level any all parameters ∷ calls) = running calls
  running (trace_query_information h class size ∷ calls) = running calls
  running (trace_set_information h class buf ∷ calls) = running calls

  -- Nothing has changed but for the calls that leave every session running.
  abbrev pub Same : World → World → Type 0
  Same w v =
      (running v.calls ≡ running w.calls)
      × ((v.contexts ≡ w.contexts)
          × ((v.next_context_id ≡ w.next_context_id) × (v.registry ≡ w.registry)))

  pub Same-refl : (w : World) → Same w w
  Same-refl w = (refl, (refl, (refl, refl)))

  pub Same-trans : (u v w : World) → Same u v → Same v w → Same u w
  Same-trans u v w (a, (b, (c, d))) (e, (f, (g, h))) = (e ∙ a, (f ∙ b, (g ∙ c, h ∙ d)))

  pub record IsQuiet {E A : Type 0} (m : M E A) : Type 0 where
    pub same : (w : World) → Same w (m w).1

  -- A pure step.
  pub pure-IsQuiet : {E A : Type 0} (r : Result E A) → IsQuiet {E = E} {A = A} (λ w. (r, w))
  pure-IsQuiet r = record { same = Same-refl }

  continue-Same :
      {E A B : Type 0} (r : Result E A) (f : A → M E B) (w : World)
      → ((a : A) → IsQuiet (f a))
      → Same w (continue r f w).1
  continue-Same (ok a) f w h = (h a).same w
  continue-Same (err e) f w h = Same-refl w

  pub bind-IsQuiet :
      {E A B : Type 0} (m : M E A) (f : A → M E B)
      → IsQuiet m
      → ((a : A) → IsQuiet (f a))
      → IsQuiet (m >>= f)
  bind-IsQuiet m f q h = record {
    same = λ w.
        Same-trans w (m w).1 (continue (m w).0 f (m w).1).1 (q.same w)
          (continue-Same (m w).0 f (m w).1 h);
  }

  pub native-IsQuiet : {A : Type 0} (m : M EvntraceNativeError A) → IsQuiet m → IsQuiet (native m)
  native-IsQuiet m q = record { same = q.same }

  for_each-Same :
      {E A : Type 0} (xs : List A) (f : A → M E (Unit {0})) (w : World)
      → ((a : A) → IsQuiet (f a))
      → Same w (for_each xs f w).1
  for_each-Same [] f w h = Same-refl w
  for_each-Same (x ∷ xs) f w h =
      Same-trans w (f x w).1 (continue (f x w).0 (λ _. for_each xs f) (f x w).1).1 ((h x).same w) (
        continue-Same (f x w).0 (λ _. for_each xs f) (f x w).1
          (λ _. record { same = λ v. for_each-Same xs f v h }))

  pub for_each-IsQuiet :
      {E A : Type 0} (xs : List A) (f : A → M E (Unit {0}))
      → ((a : A) → IsQuiet (f a))
      → IsQuiet (for_each xs f)
  for_each-IsQuiet xs f h = record { same = λ w. for_each-Same xs f w h }

  pub if-IsQuiet :
      {E A : Type 0} (b : Bool) (m n : M E A) → IsQuiet m → IsQuiet n → IsQuiet (if b then m else n)
  if-IsQuiet true m n q r = q
  if-IsQuiet false m n q r = r

  pub with_handle-IsQuiet :
      {A : Type 0} (o : Option ℕ) (f : ℕ → M EvntraceNativeError A)
      → ((h : ℕ) → IsQuiet (f h))
      → IsQuiet (with_handle o f)
  with_handle-IsQuiet none f q = record { same = Same-refl }
  with_handle-IsQuiet (some h) f q = record { same = (q h).same }

  pub call-Same :
      (c : Call) (w : World)
      → running (c ∷ w.calls) ≡ running w.calls
      → Same w (record w { calls = c ∷ w.calls })
  call-Same c w silent = (silent, (refl, (refl, refl)))

  module _ (platform : Platform) where
    pub win32_result-IsQuiet : (code : ℕ) → IsQuiet (win32_result windows platform code)
    win32_result-IsQuiet code = record {
      same = λ w. elim (Bool-cases (code == windows.error_success)) [
        | inl e ↦ rw e (Same-refl w)
        | inr e ↦ rw e (Same-refl w)
      ];
    }

    pub send-IsQuiet :
        (c : Call)
        → ((calls : List Call) → running (c ∷ calls) ≡ running calls)
        → IsQuiet (send windows platform c)
    send-IsQuiet c silent = record {
      same = λ w.
          Same-trans w (record w { calls = c ∷ w.calls }) (send windows platform c w).1
            (call-Same c w (silent w.calls))
            ((win32_result-IsQuiet (windows.status (c ∷ w.calls))).same
              (record w { calls = c ∷ w.calls }));
    }

    pub enable_provider-IsQuiet :
        (handle : ℕ) (provider : Provider)
        → IsQuiet (enable_provider windows platform handle provider)
    unfolding enable_provider build_event_filter_descriptors
    enable_provider-IsQuiet handle provider =
        with_handle-IsQuiet (filter_invalid_control_handle handle) _ (λ h.
          bind-IsQuiet (build_event_filter_descriptors windows platform provider) _ (pure-IsQuiet _)
            (λ filters. send-IsQuiet _ (λ calls. refl)))

    pub disable_provider-IsQuiet :
        (handle guid : ℕ) → IsQuiet (disable_provider windows platform handle guid)
    unfolding disable_provider
    disable_provider-IsQuiet handle guid =
        with_handle-IsQuiet (filter_invalid_control_handle handle) _
          (λ h. send-IsQuiet _ (λ calls. refl))

    pub capture_provider_state-IsQuiet :
        (handle : ℕ) (provider : Provider)
        → IsQuiet (capture_provider_state windows platform handle provider)
    unfolding capture_provider_state
    capture_provider_state-IsQuiet handle provider =
        with_handle-IsQuiet (filter_invalid_control_handle handle) _
          (λ h. send-IsQuiet _ (λ calls. refl))

    pub set_info-IsQuiet :
        (session : ℕ) (class : TraceInformation) (buf : List ℕ)
        → IsQuiet (set_info windows platform session class buf)
    unfolding set_info
    set_info-IsQuiet session class buf =
        with_handle-IsQuiet (filter_invalid_control_handle session) _
          (λ h. send-IsQuiet _ (λ calls. refl))

    pub enable_stack_tracing-IsQuiet :
        (handle : ℕ) (events : List StackTracingEvent)
        → IsQuiet (enable_stack_tracing windows platform handle events)
    unfolding enable_stack_tracing
    enable_stack_tracing-IsQuiet handle [] = pure-IsQuiet _
    enable_stack_tracing-IsQuiet handle (e ∷ events) = set_info-IsQuiet handle _ _

    trace_query_raw-IsQuiet :
        (session : ℕ) (class : TraceInformation) (size : ℕ)
        → IsQuiet (trace_query_raw windows platform session class size)
    trace_query_raw-IsQuiet session class size = record {
      same = λ w. call-Same (trace_query_information session class size) w refl;
    }

    merge_groups-IsQuiet :
        (handle : ℕ) (groups : List ExtendedKernelGroup) (answer : ℕ × ℕ × List ℕ)
        → IsQuiet (merge_groups windows platform handle groups answer)
    unfolding merge_groups
    merge_groups-IsQuiet handle groups answer =
        bind-IsQuiet (win32_result windows platform answer.0) _ (win32_result-IsQuiet answer.0)
          (λ _.
            set_info-IsQuiet handle trace_system_trace_enable_flags_info
              (as_bytes (set_groups groups (from_bytes answer.2))))

    pub set_extended_kernel_groups-IsQuiet :
        (handle : ℕ) (groups : List ExtendedKernelGroup)
        → IsQuiet (set_extended_kernel_groups windows platform handle groups)
    unfolding set_extended_kernel_groups
    set_extended_kernel_groups-IsQuiet handle [] = pure-IsQuiet _
    set_extended_kernel_groups-IsQuiet handle (g ∷ groups) =
        bind-IsQuiet
          (trace_query_raw windows platform handle trace_system_trace_enable_flags_info
            groupmask_size)
          _ (trace_query_raw-IsQuiet handle trace_system_trace_enable_flags_info groupmask_size)
          (merge_groups-IsQuiet handle (g ∷ groups))
