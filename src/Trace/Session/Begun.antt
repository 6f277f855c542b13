-- ===== src/Trace/Session/Begun.antt =====
-- src/trace.rs: a user trace that has started has enabled the providers of its registry.
use ferrisetw.Base.{
  ℕ, ◌≡◌, refl, sym, ap, subst, ◌∙◌, inl, inr, Bool, true, false, ◌&&◌, ◌||◌, Option, none, some,
  List, [], ◌∷◌, ◌==◌, ==_iff, if◌then◌else◌, Bool-cases,
}
use ferrisetw.Native.EtwTypes.{EventTraceProperties}
use ferrisetw.Native.Evntrace.{
  filter_invalid_trace_handles, new_context, unregister, start_trace, open_trace, opened,
  enable_provider, capture_provider_state, with_handle,
}
use ferrisetw.Native.Windows.{
  Call, start_trace_w, open_trace_w, Source, real_time_session, EvntraceNativeError, already_exist,
  io_error, TraceError, Result, ok, err, World, M, continue, ◌>>=◌, ◌>>◌, pure, wrap_error, native,
  Windows,
}
use ferrisetw.Provider.Builder.{Provider}
use ferrisetw.Provider.EventFilter.{Platform}
use ferrisetw.Trace.Session.{TraceKind, TraceBuilder, Trace, wide_name, guarded, under}
use ferrisetw.Trace.Session.Start.{
  capture_one, capture_all, enable_all, configure, capture_states, trace_of, build_started,
}
use ferrisetw.Trace.Session.Sync.{
  enabled, Switched, enable_provider-Switched, capture_provider_state-enabled,
}

module _ (windows : Windows) (platform : Platform) (provider_at : ℕ → Provider) where
  abbrev pub has_guid : ℕ → List ℕ → Bool
  has_guid g [] = false
  has_guid g (p ∷ ps) = ((provider_at p).guid == g) || has_guid g ps

  -- A step that succeeds leaves the providers `on` enabled on the session `h`.
  abbrev On : {A : Type 0} → ℕ → (ℕ → Bool) → Result TraceError A × World → Type 0
  On h on (ok a, v) = (g : ℕ) → enabled windows h g v.calls ≡ on g
  On h on (err e, v) = Unit {0}

  On-same :
      (h : ℕ) (on more : ℕ → Bool) (r : Result TraceError (Unit {0})) (w : World)
      → ((g : ℕ) → on g ≡ more g)
      → On h on (r, w)
      → On h more (r, w)
  On-same h on more (ok done) w e k = λ g. k g ∙ e g
  On-same h on more (err f) w e k = tt

  one_more : (a b c : Bool) → (b || (if a then true else c)) ≡ ((a || b) || c)
  one_more true true c = refl
  one_more true false c = refl
  one_more false b c = refl

  enabled_first :
      (h : ℕ) (p : ℕ) (ps : List ℕ) (on : ℕ → Bool) (w v : World)
      (r : Result EvntraceNativeError (Unit {0}))
      → ((g : ℕ) → enabled windows h g w.calls ≡ on g)
      → Switched windows platform provider_at h true (provider_at p).guid w (r, v)
      → ((u : World) (more : ℕ → Bool)
          → ((g : ℕ) → enabled windows h g u.calls ≡ more g)
          → On h (λ g. has_guid g ps || more g) (enable_all windows platform provider_at h ps u))
      → On h
          (λ g. has_guid g (p ∷ ps) || on g)
          (continue (wrap_error r) (λ _. enable_all windows platform provider_at h ps) v)
  enabled_first h p ps on w v (ok done) e s rest =
      let add_on : ℕ → Bool = λ g. if (provider_at p).guid == g then true else on g in
      let m = enable_all windows platform provider_at h ps v in
      On-same h (λ g. has_guid g ps || add_on g) (λ g. has_guid g (p ∷ ps) || on g) m.0 m.1
        (λ g. one_more ((provider_at p).guid == g) (has_guid g ps) (on g))
        (rest v add_on (λ g. s g ∙ ap (λ b. if (provider_at p).guid == g then true else b) (e g)))
  enabled_first h p ps on w v (err f) e s rest = tt

  enable_all-On :
      (h : ℕ) (ps : List ℕ) (on : ℕ → Bool) (w : World)
      → ((g : ℕ) → enabled windows h g w.calls ≡ on g)
      → On h (λ g. has_guid g ps || on g) (enable_all windows platform provider_at h ps w)
  enable_all-On h [] on w e = e
  enable_all-On h (p ∷ ps) on w e =
      let m = enable_provider windows platform h (provider_at p) w in
      enabled_first h p ps on w m.1 m.0 e
        (enable_provider-Switched windows platform provider_at h (provider_at p) w)
        (λ u more. enable_all-On h ps more u)

  -- No provider is enabled on a new session.
  abbrev pub NoneOn : Result EvntraceNativeError (EventTraceProperties × ℕ) × World → Type 0
  NoneOn (ok (properties, h), v) = (g : ℕ) → enabled windows h g v.calls ≡ false
  NoneOn (err e, v) = Unit {0}

  new_session :
      (b z c : Bool) (x code : ℕ) (properties : EventTraceProperties) (v : World) (old : ℕ → Bool)
      → ((g : ℕ) → enabled windows x g v.calls ≡ (if b && (x == x) then false else old g))
      → NoneOn (
          if b
          then with_handle (if z then none else some x) (λ h. pure (properties, h)) v
          else if c
          then (err already_exist, v)
          else (err (io_error code), v))
  new_session true true c x code properties v old e = tt
  new_session true false c x code properties v old e =
      λ g. e g ∙ ap (λ s. if s then false else old g) ((==_iff x x).1 refl)
  new_session false z true x code properties v old e = tt
  new_session false z false x code properties v old e = tt

  pub start_trace-NoneOn :
      (properties : EventTraceProperties) (w : World)
      → NoneOn (start_trace windows platform properties w)
  unfolding start_trace
  start_trace-NoneOn properties w =
      let calls = start_trace_w properties ∷ w.calls in
      let x = windows.control_handle calls in
      new_session (windows.status calls == windows.error_success) (x == 0)
        (windows.status calls == windows.error_already_exists) x (windows.status calls) properties
        (record w { calls = calls }) (λ g. enabled windows x g w.calls) (λ g. refl)

  -- The other steps enable and disable nothing.
  capture_one-On :
      (h p : ℕ) (on : ℕ → Bool) (w : World)
      → ((g : ℕ) → enabled windows h g w.calls ≡ on g)
      → (g : ℕ)
      → enabled windows h g (capture_one windows platform provider_at h p w).1.calls ≡ on g
  unfolding capture_provider_state
  capture_one-On h p on w e g = elim (Bool-cases (provider_at p).capture_state) [
    | inl f ↦
        rw f
          (capture_provider_state-enabled windows platform provider_at h (provider_at p) w g ∙ e g)
    | inr f ↦ rw f (e g)
  ]

  captured_rest :
      (h : ℕ) (on : ℕ → Bool) (r : Result TraceError (Unit {0})) (rest : M TraceError (Unit {0}))
      (v : World)
      → ((g : ℕ) → enabled windows h g v.calls ≡ on g)
      → ((u : World)
          → ((g : ℕ) → enabled windows h g u.calls ≡ on g)
          → (g : ℕ) → enabled windows h g (rest u).1.calls ≡ on g)
      → (g : ℕ) → enabled windows h g (continue r (λ _. rest) v).1.calls ≡ on g
  captured_rest h on (ok done) rest v e k = k v e
  captured_rest h on (err f) rest v e k = e

  capture_all-On :
      (h : ℕ) (ps : List ℕ) (on : ℕ → Bool) (w : World)
      → ((g : ℕ) → enabled windows h g w.calls ≡ on g)
      → (g : ℕ)
      → enabled windows h g (capture_all windows platform provider_at h ps w).1.calls ≡ on g
  capture_all-On h [] on w e = e
  capture_all-On h (p ∷ ps) on w e =
      let m = capture_one windows platform provider_at h p w in
      captured_rest h on m.0 (capture_all windows platform provider_at h ps) m.1
        (capture_one-On h p on w e) (capture_all-On h ps on)

  capture_states-On :
      (kind : TraceKind) (h : ℕ) (ps : List ℕ) (on : ℕ → Bool) (w : World)
      → ((g : ℕ) → enabled windows h g w.calls ≡ on g)
      → (g : ℕ)
      → enabled windows h g (capture_states windows platform provider_at kind h ps w).1.calls ≡ on g
  capture_states-On TraceKind.user h ps on w e = capture_all-On h ps on w e
  capture_states-On TraceKind.kernel h ps on w e = e

  opened-On :
      (h : ℕ) (on : ℕ → Bool) (o : Option ℕ) (i : ℕ) (calls : List Call) (v : World)
      → ((g : ℕ) → enabled windows h g v.calls ≡ on g)
      → (g : ℕ) → enabled windows h g (opened windows platform o i calls v).1.calls ≡ on g
  unfolding unregister
  opened-On h on none i calls v e = e
  opened-On h on (some k) i calls v e = e

  open_trace-On :
      (h : ℕ) (on : ℕ → Bool) (source : Source) (d : ℕ) (w : World)
      → ((g : ℕ) → enabled windows h g w.calls ≡ on g)
      → (g : ℕ) → enabled windows h g (open_trace windows platform source d w).1.calls ≡ on g
  unfolding open_trace new_context
  open_trace-On h on source d w e =
      let calls = open_trace_w w.next_context_id source ∷ w.calls in
      opened-On h on (filter_invalid_trace_handles (windows.trace_handle calls)) w.next_context_id
        calls (record (new_context d w).1 { calls = calls }) e

  -- The trace that is returned has the providers of `ps` enabled.
  abbrev pub EnabledAll : List ℕ → Result TraceError Trace × World → Type 0
  EnabledAll ps (ok t, v) = (g : ℕ) → enabled windows t.control_handle g v.calls ≡ has_guid g ps
  EnabledAll ps (err e, v) = Unit {0}

  module _ (properties : EventTraceProperties) (h : ℕ) (b : TraceBuilder) (ps : List ℕ) where
    abbrev AllOn : World → Type 0
    AllOn v = (g : ℕ) → enabled windows h g v.calls ≡ has_guid g ps

    past_capture :
        (v : World) (consumer : ℕ × ℕ) (r : Result TraceError (Unit {0}))
        → AllOn v
        → EnabledAll ps (
            continue
              (guarded windows platform provider_at properties h (some consumer) (r, v)).0
              (λ _. pure (trace_of windows platform provider_at properties h consumer))
              (guarded windows platform provider_at properties h (some consumer) (r, v)).1)
    past_capture v (trace_handle, id) (ok done) e = e
    past_capture v (trace_handle, id) (err failure) e = tt

    past_open :
        (v : World) (r : Result EvntraceNativeError (ℕ × ℕ))
        → AllOn v
        → EnabledAll ps (
            continue
              (guarded windows platform provider_at properties h none (wrap_error r, v)).0
              (λ consumer.
                under windows platform provider_at properties h
                  (some consumer)
                  (capture_states windows platform provider_at b.kind h ps)
                >> pure (trace_of windows platform provider_at properties h consumer))
              (guarded windows platform provider_at properties h none (wrap_error r, v)).1)
    past_open v (ok consumer) e =
        let m = capture_states windows platform provider_at b.kind h ps v in
        past_capture m.1 consumer m.0 (capture_states-On b.kind h ps (λ g. has_guid g ps) v e)
    past_open v (err failure) e = tt

    past_configure :
        (v : World) (r : Result TraceError (Unit {0}))
        → On h (λ g. has_guid g ps) (r, v)
        → EnabledAll ps (
            continue
              (guarded windows platform provider_at properties h none (r, v)).0
              (λ _.
                under windows platform provider_at properties h none (
                  native (
                    open_trace windows platform
                      (real_time_session (wide_name b.name))
                      b.callback_data))
                >>= (λ consumer.
                    under windows platform provider_at properties h
                      (some consumer)
                      (capture_states windows platform provider_at b.kind h ps)
                    >> pure (trace_of windows platform provider_at properties h consumer)))
              (guarded windows platform provider_at properties h none (r, v)).1)
    past_configure v (ok done) e =
        let source = real_time_session (wide_name b.name) in
        let m = open_trace windows platform source b.callback_data v in
        past_open m.1 m.0 (open_trace-On h (λ g. has_guid g ps) source b.callback_data v e)
    past_configure v (err failure) e = tt

  or_false : (a : Bool) → (a || false) ≡ a
  or_false true = refl
  or_false false = refl

  pub build_started-EnabledAll :
      (properties : EventTraceProperties) (h : ℕ) (b : TraceBuilder) (w : World)
      → b.kind ≡ TraceKind.user
      → ((g : ℕ) → enabled windows h g w.calls ≡ false)
      → EnabledAll w.registry.providers
          (build_started windows platform provider_at b (properties, h) w)
  unfolding build_started configure
  build_started-EnabledAll properties h b w user e =
      let ps = w.registry.providers in
      let m = enable_all windows platform provider_at h ps w in
      let on : On h (λ g. has_guid g ps) (configure windows platform provider_at b.kind b h ps w) =
        subst
          (λ kind. On h (λ g. has_guid g ps) (configure windows platform provider_at kind b h ps w))
          (sym user)
          (On-same h (λ g. has_guid g ps || false) (λ g. has_guid g ps) m.0 m.1
            (λ g. or_false (has_guid g ps)) (enable_all-On h ps (λ g. false) w e)) in
      let c = configure windows platform provider_at b.kind b h ps w in
      past_configure properties h b ps c.1 c.0 on
