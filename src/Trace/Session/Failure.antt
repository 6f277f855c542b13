-- ===== src/Trace/Session/Failure.antt =====
-- src/trace.rs: a start that fails stops the session that it has started, and a dropped trace stops
-- its session.
use ferrisetw.Base.{
  ℕ, ◌≡◌, refl, sym, ap, ◌∙◌, inl, inr, ◌⊎◌, false, not, ◌&&◌, Option, none, some, List, ◌∷◌, ◌==◌,
  ==_iff, if◌then◌else◌, Bool-cases,
}
use ferrisetw.Native.EtwTypes.{EventTraceProperties}
use ferrisetw.Native.Evntrace.{next_id, unregister, open_trace, control_trace, close_trace}
use ferrisetw.Native.Evntrace.Quiet.{
  remove_first, running, Same, IsQuiet, pure-IsQuiet, bind-IsQuiet, native-IsQuiet,
  for_each-IsQuiet, if-IsQuiet, enable_provider-IsQuiet, capture_provider_state-IsQuiet,
  enable_stack_tracing-IsQuiet, set_extended_kernel_groups-IsQuiet,
}
use ferrisetw.Native.Windows.{
  ControlCode, real_time_session, EvntraceNativeError, TraceError, Result, ok, err, World, continue,
  ◌>>=◌, ◌>>◌, pure, wrap_error, native, Windows,
}
use ferrisetw.Provider.Builder.{Provider}
use ferrisetw.Provider.EventFilter.{Platform}
use ferrisetw.Trace.Session.{TraceKind, TraceBuilder, Trace, wide_name, drop_guard, guarded, under}
use ferrisetw.Trace.Session.Lifecycle.{
  StopFailed, Stopped, control_trace-Stopped, without, close_trace-Retired, Opened,
  open_trace-Opened, without_insert,
}
use ferrisetw.Trace.Session.Start.{
  is_empty, kernel_filter_providers, enable_all, enable_filtered, configure, capture_states,
  trace_of, build_started,
}
use mathlib.Core.Path.{fun_ext}

abbrev pub insert : ℕ → ℕ → (ℕ → Option ℕ) → ℕ → Option ℕ
insert id d contexts k = if k == id then some d else contexts k

pub without_fresh :
    (id : ℕ) (contexts : ℕ → Option ℕ) → contexts id ≡ none → without id contexts ≡ contexts
without_fresh id contexts h = fun_ext (λ k. elim (Bool-cases (k == id)) [
  | inl e ↦ rw e (sym (ap contexts ((==_iff k id).0 e) ∙ h))
  | inr e ↦ rw e
])

pub remove_first-head : (h : ℕ) (hs : List ℕ) → remove_first h (h ∷ hs) ≡ hs
remove_first-head h hs = rw ((==_iff h h).1 refl)

module _ (windows : Windows) (platform : Platform) (provider_at : ℕ → Provider) where
  -- The sessions `left` run, and the session `h` besides them only where Windows has refused to
  -- stop it.
  abbrev pub Ended : ℕ → List ℕ → World → Type 0
  Ended h left v =
      (running windows v.calls ≡ left)
      ⊎ (StopFailed windows platform h v.calls × (running windows v.calls ≡ h ∷ left))

  -- The registries are as in `w`, too.
  abbrev pub Restored : List ℕ → ℕ → World → World → Type 0
  Restored left h w v = Ended h left v × ((v.contexts ≡ w.contexts) × (v.registry ≡ w.registry))

  -- The session `h` runs, and its trace has the context that was next, for the callback data `d`.
  abbrev pub Runs : List ℕ → World → ℕ → ℕ → Trace → World → Type 0
  Runs left w h d t v =
      (t.control_handle ≡ h)
      × ((t.context ≡ w.next_context_id)
          × ((running windows v.calls ≡ h ∷ left)
              × ((v.contexts ≡ insert w.next_context_id d w.contexts)
                  × ((v.next_context_id ≡ next_id w.next_context_id) × (v.registry ≡ w.registry)))))

  abbrev pub Outcome : List ℕ → World → ℕ → ℕ → Result TraceError Trace × World → Type 0
  Outcome left w h d (ok t, v) = Runs left w h d t v
  Outcome left w h d (err e, v) = Restored left h w v

  enable_all-IsQuiet :
      (handle : ℕ) (ps : List ℕ)
      → IsQuiet windows (enable_all windows platform provider_at handle ps)
  enable_all-IsQuiet handle ps = for_each-IsQuiet windows ps _ (λ p.
      native-IsQuiet windows _ (enable_provider-IsQuiet windows platform handle (provider_at p)))

  enable_filtered-IsQuiet :
      (handle : ℕ) (ps : List ℕ)
      → IsQuiet windows (enable_filtered windows platform provider_at handle ps)
  enable_filtered-IsQuiet handle ps =
      if-IsQuiet windows
        (not (is_empty windows platform provider_at ps) && not windows.is_win8_or_greater) _ _
        (pure-IsQuiet windows _) (enable_all-IsQuiet handle ps)

  configure-IsQuiet :
      (kind : TraceKind) (b : TraceBuilder) (handle : ℕ) (ps : List ℕ)
      → IsQuiet windows (configure windows platform provider_at kind b handle ps)
  unfolding configure
  configure-IsQuiet TraceKind.user b handle ps = enable_all-IsQuiet handle ps
  configure-IsQuiet TraceKind.kernel b handle ps =
      bind-IsQuiet windows _ _
        (bind-IsQuiet windows _ _
          (native-IsQuiet windows _
            (enable_stack_tracing-IsQuiet windows platform handle b.stack_tracing_events))
          (λ _.
            native-IsQuiet windows _ (
              set_extended_kernel_groups-IsQuiet windows platform handle b.extended_kernel_groups)))
        (λ _.
          enable_filtered-IsQuiet handle (kernel_filter_providers windows platform provider_at ps))

  capture_states-IsQuiet :
      (kind : TraceKind) (handle : ℕ) (ps : List ℕ)
      → IsQuiet windows (capture_states windows platform provider_at kind handle ps)
  capture_states-IsQuiet TraceKind.user handle ps = for_each-IsQuiet windows ps _ (λ p.
      if-IsQuiet windows (provider_at p).capture_state _ _
        (native-IsQuiet windows _
          (capture_provider_state-IsQuiet windows platform handle (provider_at p)))
        (pure-IsQuiet windows _))
  capture_states-IsQuiet TraceKind.kernel handle ps = pure-IsQuiet windows _

  module _ (properties : EventTraceProperties) (h : ℕ) (valid : (h == 0) ≡ false)
      (left : List ℕ) where
    pub left_over :
        (v u : World)
        → running windows v.calls ≡ h ∷ left
        → Stopped windows platform h v u
        → Ended h left u
    left_over v u e (inl stopped, kept) =
        inl (stopped ∙ ap (remove_first h) e ∙ remove_first-head h left)
    left_over v u e (inr (failed, same), kept) = inr (failed, same ∙ e)

    drop_guard-early :
        (w v : World)
        → running windows v.calls ≡ h ∷ left
        → v.contexts ≡ w.contexts
        → v.registry ≡ w.registry
        → Restored left h w (drop_guard windows platform provider_at properties h none v)
    unfolding drop_guard
    drop_guard-early w v a b c =
        let u = (control_trace windows platform properties h ControlCode.stop v).1 in
        let s = control_trace-Stopped windows platform properties h v valid in
        (left_over v u a s, (s.1.0 ∙ b, s.1.1.1 ∙ c))

    drop_guard-late :
        (w v : World) (trace_handle d id : ℕ)
        → running windows v.calls ≡ h ∷ left
        → v.contexts ≡ insert w.next_context_id d w.contexts
        → v.registry ≡ w.registry
        → id ≡ w.next_context_id
        → w.contexts w.next_context_id ≡ none
        → Restored left h w
            (drop_guard windows platform provider_at properties h (some (trace_handle, id)) v)
    unfolding drop_guard unregister
    drop_guard-late w v trace_handle d id a b c e fresh =
        let retired = (close_trace windows platform trace_handle id v).1 in
        let r = close_trace-Retired windows platform trace_handle id v in
        let x = unregister id retired in
        let s = control_trace-Stopped windows platform properties h x valid in
        (
          left_over x (control_trace windows platform properties h ControlCode.stop x).1 (r.0 ∙ a)
              s,
          (
            s.1.0
                ∙ r.1.0
                ∙ ap (without id) b
                ∙ ap (λ i. without i (insert w.next_context_id d w.contexts)) e
                ∙ without_insert w.next_context_id d w.contexts
                ∙ without_fresh w.next_context_id w.contexts fresh,
            s.1.1.1 ∙ r.1.1.1 ∙ c,
          ),
        )

    -- The steps of a build, from the last to the first.
    after_capture :
        (b : TraceBuilder) (w v : World) (trace_handle id : ℕ) (r : Result TraceError (Unit {0}))
        → running windows v.calls ≡ h ∷ left
        → v.contexts ≡ insert w.next_context_id b.callback_data w.contexts
        → v.next_context_id ≡ next_id w.next_context_id
        → v.registry ≡ w.registry
        → id ≡ w.next_context_id
        → w.contexts w.next_context_id ≡ none
        → Outcome left w h b.callback_data (
            continue
              (guarded windows platform provider_at properties h (some (trace_handle, id)) (r, v)).0
              (λ _. pure (trace_of windows platform provider_at properties h (trace_handle, id)))
              (guarded windows platform provider_at properties h
                (some (trace_handle, id))
                (r, v)).1)
    after_capture b w v trace_handle id (ok done) a c n g e fresh = (refl, (e, (a, (c, (n, g)))))
    after_capture b w v trace_handle id (err failure) a c n g e fresh =
        drop_guard-late w v trace_handle b.callback_data id a c g e fresh

    after_open :
        (b : TraceBuilder) (w v : World) (ps : List ℕ) (r : Result EvntraceNativeError (ℕ × ℕ))
        (u : World)
        → Same windows w v
        → running windows w.calls ≡ h ∷ left
        → w.contexts w.next_context_id ≡ none
        → Opened windows platform v b.callback_data (r, u)
        → Outcome left w h b.callback_data (
            continue
              (guarded windows platform provider_at properties h none (wrap_error r, u)).0
              (λ consumer.
                under windows platform provider_at properties h
                  (some consumer)
                  (capture_states windows platform provider_at b.kind h ps)
                >> pure (trace_of windows platform provider_at properties h consumer))
              (guarded windows platform provider_at properties h none (wrap_error r, u)).1)
    after_open b w v ps (ok (trace_handle, id)) u q a fresh o =
        let m = capture_states windows platform provider_at b.kind h ps in
        let k = (capture_states-IsQuiet b.kind h ps).same u in
        after_capture b w (m u).1 trace_handle id (m u).0 (k.0 ∙ o.1.0 ∙ q.0 ∙ a)
          (k.1.0
            ∙ o.1.1.0
            ∙ ap (λ n. insert n b.callback_data v.contexts) q.1.1.0
            ∙ ap (insert w.next_context_id b.callback_data) q.1.0)
          (k.1.1.0 ∙ o.1.1.1.0 ∙ ap next_id q.1.1.0) (k.1.1.1 ∙ o.1.1.1.1 ∙ q.1.1.1) (o.0 ∙ q.1.1.0)
          fresh
    after_open b w v ps (err e) u q a fresh o =
        let unused : v.contexts v.next_context_id ≡ none =
          ap (λ c. c v.next_context_id) q.1.0 ∙ ap w.contexts q.1.1.0 ∙ fresh in
        drop_guard-early w u (o.0 ∙ q.0 ∙ a)
          (sym (without_fresh v.next_context_id u.contexts o.1.1.0)
            ∙ o.1.0
            ∙ without_fresh v.next_context_id v.contexts unused
            ∙ q.1.0)
          (o.1.1.1 ∙ q.1.1.1)

    after_configure :
        (b : TraceBuilder) (w v : World) (ps : List ℕ) (r : Result TraceError (Unit {0}))
        → Same windows w v
        → running windows w.calls ≡ h ∷ left
        → w.contexts w.next_context_id ≡ none
        → Outcome left w h b.callback_data (
            continue
              (guarded windows platform provider_at properties h none (r, v)).0
              (λ _.
                under windows platform provider_at properties h none (
                  native (
                    open_trace windows platform
                      (real_time_session (wide_name b.name))
                      b.callback_data))
                >>= (λ consumer.
                    under windows platform provider_at properties h
                      (some consumer)
                      (capture_states windows platform provider_at b.kind h ps)
                    >> pure (trace_of windows platform provider_at properties h consumer)))
              (guarded windows platform provider_at properties h none (r, v)).1)
    after_configure b w v ps (ok done) q a fresh =
        let source = real_time_session (wide_name b.name) in
        let opened = open_trace windows platform source b.callback_data v in
        after_open b w v ps opened.0 opened.1 q a fresh
          (open_trace-Opened windows platform source b.callback_data v)
    after_configure b w v ps (err e) q a fresh = drop_guard-early w v (q.0 ∙ a) q.1.0 q.1.1.1

    pub build_started-Outcome :
        (b : TraceBuilder) (w : World)
        → running windows w.calls ≡ h ∷ left
        → w.contexts w.next_context_id ≡ none
        → Outcome left w h b.callback_data
            (build_started windows platform provider_at b (properties, h) w)
    unfolding build_started
    build_started-Outcome b w a fresh =
        let m = configure windows platform provider_at b.kind b h w.registry.providers in
        after_configure b w (m w).1 w.registry.providers (m w).0
          ((configure-IsQuiet b.kind b h w.registry.providers).same w) a fresh
