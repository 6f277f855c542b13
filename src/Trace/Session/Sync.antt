-- ===== src/Trace/Session/Sync.antt =====
-- src/trace.rs: the providers that a running session has enabled are those that are registered.
use ferrisetw.Base.{
  ℕ, ◌≡◌, refl, sym, ap, subst, ◌∙◌, inl, inr, Bool, true, false, ◌&&◌, none, some, List, [], ◌∷◌,
  ◌==◌, ==_iff, if◌then◌else◌, Bool-cases, arith,
}
use ferrisetw.Native.Evntrace.{
  with_handle, enable_provider, disable_provider, capture_provider_state,
  build_event_filter_descriptors, build_filters, enable_parameters, send,
}
use ferrisetw.Native.Evntrace.Quiet.{capture_provider_state-IsQuiet}
use ferrisetw.Native.Windows.{
  Call, start_trace_w, control_trace_w, open_trace_w, close_trace_w, process_trace,
  enable_trace_ex2, trace_query_information, trace_set_information, ProviderControl,
  EvntraceNativeError, io_error, Result, ok, err, World, M, continue, ◌>>=◌, wrap_error, Windows,
}
use ferrisetw.Provider.Builder.{Provider}
use ferrisetw.Provider.EventFilter.{EventFilterDescriptor, Platform}
use ferrisetw.Trace.Registry.{is_registered, contains, add, remove_one}
use ferrisetw.Trace.Registry.Index.{IsIndexed, add-IsIndexed, remove_all-IsIndexed}
use ferrisetw.Trace.Registry.Rollback.{
  remove_one-add, is_registered-add, is_registered-remove_all, contains-push, contains-remove_all,
}
use ferrisetw.Trace.Session.Start.{capture_one, after_enable, after_disable}

module _ (windows : Windows) where
  abbrev succeeds : List Call → Bool
  succeeds calls = windows.status calls == windows.error_success

  -- Whether the provider `guid` is enabled on the session `h`, by the latest successful call that
  -- enables or disables it. A new session has none.
  abbrev pub enabled : ℕ → ℕ → List Call → Bool
  enabled h guid [] = false
  enabled h guid
        (enable_trace_ex2 k g ProviderControl.enable_provider l any all parameters ∷ calls) =
      if (k == h)
        && ((g == guid)
            && succeeds
                (enable_trace_ex2 k g ProviderControl.enable_provider l any all parameters ∷ calls))
      then true
      else enabled h guid calls
  enabled h guid
        (enable_trace_ex2 k g ProviderControl.disable_provider l any all parameters ∷ calls) =
      if (k == h)
        && ((g == guid)
            && succeeds (
                enable_trace_ex2 k g ProviderControl.disable_provider l any all parameters ∷ calls))
      then false
      else enabled h guid calls
  enabled h guid (enable_trace_ex2 k g ProviderControl.capture_state l any all parameters ∷ calls) =
      enabled h guid calls
  enabled h guid (start_trace_w properties ∷ calls) =
      if succeeds (start_trace_w properties ∷ calls)
        && (windows.control_handle (start_trace_w properties ∷ calls) == h)
      then false
      else enabled h guid calls
  enabled h guid (control_trace_w target properties code ∷ calls) = enabled h guid calls
  enabled h guid (open_trace_w context source ∷ calls) = enabled h guid calls
  enabled h guid (close_trace_w k ∷ calls) = enabled h guid calls
  enabled h guid (process_trace k ∷ calls) = enabled h guid calls
  enabled h guid (trace_query_information k class size ∷ calls) = enabled h guid calls
  enabled h guid (trace_set_information k class buf ∷ calls) = enabled h guid calls

  module _ (platform : Platform) (provider_at : ℕ → Provider) (h : ℕ) where
    abbrev pub guid_at : ℕ → ℕ
    guid_at p = (provider_at p).guid

    -- The providers that the registry dispatches to are exactly those that the session collects.
    unfoldable pub IsInSync : World → Type 0
    IsInSync w = (g : ℕ) → is_registered g w.registry ≡ enabled h g w.calls

    -- What a call for the provider of `guid`, which is then enabled or not as `now`, leaves behind.
    abbrev pub Switched : Bool → ℕ → World → Result EvntraceNativeError (Unit {0}) × World → Type 0
    Switched now guid w (ok done, v) =
        (g : ℕ) → enabled h g v.calls ≡ (if guid == g then now else enabled h g w.calls)
    Switched now guid w (err e, v) = (g : ℕ) → enabled h g v.calls ≡ enabled h g w.calls

    flip_cases :
        (now b : Bool) (guid code : ℕ) (w v : World)
        → ((g : ℕ)
            → enabled h g v.calls
              ≡ (if (h == h) && ((guid == g) && b) then now else enabled h g w.calls))
        → Switched now guid w (if b then (ok tt, v) else (err (io_error code), v))
    flip_cases now true guid code w v e = λ g. e g ∙ ground (arith, ==_iff h h)
    flip_cases now false guid code w v e = λ g. e g ∙ ground (arith, ==_iff h h)

    flip_handle :
        (now z : Bool) (guid : ℕ) (w : World) (f : ℕ → M EvntraceNativeError (Unit {0}))
        → Switched now guid w (f h w)
        → Switched now guid w (with_handle (if z then none else some h) f w)
    flip_handle now true guid w f e = λ g. refl
    flip_handle now false guid w f e = e

    enable_call : Provider → List EventFilterDescriptor → Call
    enable_call p filters =
        enable_trace_ex2 h p.guid ProviderControl.enable_provider p.level p.any p.all
          (some (enable_parameters windows platform p filters))

    flip_filters :
        (p : Provider) (w : World) (r : Result EvntraceNativeError (List EventFilterDescriptor))
        → Switched true p.guid w
            (continue r (λ filters. send windows platform (enable_call p filters)) w)
    unfolding enable_call
    flip_filters p w (ok filters) =
        let calls = enable_call p filters ∷ w.calls in
        flip_cases true (succeeds calls) p.guid (windows.status calls) w
          (record w { calls = calls }) (λ g. refl)
    flip_filters p w (err e) = λ g. refl

    pub enable_provider-Switched :
        (p : Provider) (w : World) → Switched true p.guid w (enable_provider windows platform h p w)
    unfolding enable_provider build_event_filter_descriptors enable_call
    enable_provider-Switched p w =
        flip_handle true (h == 0) p.guid w
          (λ k. build_event_filter_descriptors windows platform p >>= (λ filters.
            send windows platform (
              enable_trace_ex2 k p.guid ProviderControl.enable_provider p.level p.any p.all
                (some (enable_parameters windows platform p filters)))))
          (flip_filters p w (build_filters windows platform [] p.filters))

    pub disable_provider-Switched :
        (guid : ℕ) (w : World) → Switched false guid w (disable_provider windows platform h guid w)
    unfolding disable_provider
    disable_provider-Switched guid w =
        let c = enable_trace_ex2 h guid ProviderControl.disable_provider 0 0 0 none in
        let calls = c ∷ w.calls in
        flip_handle false (h == 0) guid w
          (λ k.
            send windows platform
              (enable_trace_ex2 k guid ProviderControl.disable_provider 0 0 0 none))
          (flip_cases false (succeeds calls) guid (windows.status calls) w
            (record w { calls = calls }) (λ g. refl))

    pub capture_provider_state-enabled :
        (p : Provider) (w : World) (g : ℕ)
        → enabled h g (capture_provider_state windows platform h p w).1.calls ≡ enabled h g w.calls
    unfolding capture_provider_state
    capture_provider_state-enabled p w g =
        let c = enable_trace_ex2 h p.guid ProviderControl.capture_state 0 0 0 none in
        elim (Bool-cases (h == 0)) [
          | inl e ↦ rw e
          | inr e ↦ elim (Bool-cases (succeeds (c ∷ w.calls))) [
            | inl f ↦ rw (e, f)
            | inr f ↦ rw (e, f)
          ]
        ]

    abbrev pub UsesOnly : List ℕ → World → Type 0
    UsesOnly used w = (q : ℕ) → contains q used ≡ false → contains q w.registry.providers ≡ false

    -- The invariant: the registry is indexed, holds addresses among `used`, and is in sync.
    pub record IsConsistent (used : List ℕ) (w : World) : Type 0 where
      pub indexed : IsIndexed guid_at w.registry
      pub allocated : UsesOnly used w
      pub in_sync : IsInSync w

    unchanged-IsConsistent :
        (used : List ℕ) (w v : World)
        → IsConsistent used w
        → v.registry ≡ w.registry
        → ((g : ℕ) → enabled h g v.calls ≡ enabled h g w.calls)
        → IsConsistent used v
    unfolding IsInSync
    unchanged-IsConsistent used w v k e x = record {
      indexed = subst (IsIndexed guid_at) (sym e) k.indexed;
      allocated = λ q f. ap (λ r. contains q r.providers) e ∙ k.allocated q f;
      in_sync = λ g. ap (is_registered g) e ∙ k.in_sync g ∙ sym (x g);
    }

    pub capture_one-IsConsistent :
        (used : List ℕ) (p : ℕ) (w : World)
        → IsConsistent used w
        → IsConsistent used (capture_one windows platform provider_at h p w).1
    unfolding capture_provider_state
    capture_one-IsConsistent used p w k = elim (Bool-cases (provider_at p).capture_state) [
      | inl e ↦ rw e (
          unchanged-IsConsistent used w
            (capture_provider_state windows platform h (provider_at p) w).1 k
            ((capture_provider_state-IsQuiet windows platform h (provider_at p)).same w).1.1.1
            (capture_provider_state-enabled (provider_at p) w))
      | inr e ↦ rw e k
    ]

    larger : (used : List ℕ) (p : ℕ) (w : World) → UsesOnly used w → UsesOnly (p ∷ used) w
    larger used p w a = λ q e. a q (ground arith)

    add-IsConsistent :
        (used : List ℕ) (p : ℕ) (w v : World)
        → IsConsistent used w
        → v.registry ≡ add guid_at p w.registry
        → ((g : ℕ) → enabled h g v.calls ≡ (if guid_at p == g then true else enabled h g w.calls))
        → IsConsistent (p ∷ used) v
    unfolding IsInSync add
    add-IsConsistent used p w v k e x = record {
      indexed = subst (IsIndexed guid_at) (sym e) (add-IsIndexed guid_at p w.registry k.indexed);
      allocated = λ q f.
          ap (λ r. contains q r.providers) e
          ∙ contains-push p q w.registry.providers (k.allocated q (ground arith)) (ground arith);
      in_sync = λ g.
          ap (is_registered g) e
          ∙ is_registered-add guid_at p g w.registry
          ∙ ap (λ b. if guid_at p == g then true else b) (k.in_sync g)
          ∙ sym (x g);
    }

    pub enabled_case :
        (used : List ℕ) (p : ℕ) (w v : World) (r : Result EvntraceNativeError (Unit {0}))
        → IsConsistent used w
        → contains p used ≡ false
        → v.registry ≡ add guid_at p w.registry
        → Switched true (guid_at p) w (r, v)
        → IsConsistent
            (p ∷ used)
            (after_enable windows platform provider_at h p (wrap_error r, v)).1
    enabled_case used p w v (ok done) k fresh e s =
        capture_one-IsConsistent (p ∷ used) p v (add-IsConsistent used p w v k e s)
    enabled_case used p w v (err failure) k fresh e s =
        let back = record v { registry = (remove_one guid_at p v.registry).1 } in
        let same : back.registry ≡ w.registry =
          ap (λ r. (remove_one guid_at p r).1) e
          ∙ remove_one-add guid_at p w.registry k.indexed (k.allocated p fresh) in
        let c = unchanged-IsConsistent used w back k same s in
        record {
          indexed = c.indexed;
          allocated = larger used p back c.allocated;
          in_sync = c.in_sync;
        }

    pub disabled_case :
        (used : List ℕ) (guid : ℕ) (w v : World) (r : Result EvntraceNativeError (Unit {0}))
        → IsConsistent used w
        → is_registered guid w.registry ≡ true
        → v.registry ≡ w.registry
        → Switched false guid w (r, v)
        → IsConsistent used (after_disable windows platform provider_at guid (wrap_error r, v)).1
    unfolding IsInSync
    disabled_case used guid w v (err failure) k old e s = unchanged-IsConsistent used w v k e s
    disabled_case used guid w v (ok done) k old e s = record {
      indexed =
          remove_all-IsIndexed guid_at guid v.registry
            (subst (IsIndexed guid_at) (sym e) k.indexed);
      allocated = λ q f.
          contains-remove_all guid_at guid q v.registry
            (ap (λ r. contains q r.providers) e ∙ k.allocated q f);
      in_sync = λ g.
          is_registered-remove_all guid_at guid g v.registry (ap (is_registered guid) e ∙ old)
          ∙ ap (λ b. if guid == g then false else b) (ap (is_registered g) e ∙ k.in_sync g)
          ∙ sym (s g);
    }
