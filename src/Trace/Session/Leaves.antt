-- ===== src/Trace/Session/Leaves.antt =====
-- src/trace.rs: the whole of `start`, and the drop of the trace that it returns.
use ferrisetw.Base.{
  ℕ, ◌≡◌, refl, sym, ap, subst, ◌∙◌, inl, inr, ◌⊎◌, Bool, true, false, not, ◌&&◌, none, some, List,
  ◌∷◌, ◌==◌, if◌then◌else◌, Bool-cases,
}
use ferrisetw.Native.EtwTypes.{EventTraceProperties, new_properties}
use ferrisetw.Native.Evntrace.{
  next_id, unregister, start_trace, with_handle, control_trace, control_trace_by_name, close_trace,
}
use ferrisetw.Native.Evntrace.Quiet.{remove_first, running, Same}
use ferrisetw.Native.Windows.{
  start_trace_w, control_trace_w, by_name, ControlCode, EvntraceNativeError, already_exist,
  io_error, TraceError, Result, ok, err, World, M, continue, ◌>>=◌, pure, wrap_error, native,
  Windows,
}
use ferrisetw.Provider.Builder.{Provider}
use ferrisetw.Provider.EventFilter.{Platform}
use ferrisetw.Trace.Session.{
  TraceBuilder, Trace, default_mode, default_properties, ignore_not_found, built_properties,
  has_nul, stop_trace_by_name, non_consuming_stop, drop_trace,
}
use ferrisetw.Trace.Session.Lifecycle.{
  control_trace-Stopped, without, close_trace-Retired, without_insert,
}
use ferrisetw.Trace.Session.Failure.{
  insert, without_fresh, left_over, Restored, Runs, Outcome, build_started-Outcome,
}
use ferrisetw.Trace.Session.Start.{build_started, start}

module _ (windows : Windows) (platform : Platform) (provider_at : ℕ → Provider) where
  -- What `start_trace` leaves behind.
  abbrev pub Started :
      World → Result EvntraceNativeError (EventTraceProperties × ℕ) × World → Type 0
  Started w (ok (properties, h), v) =
      ((h == 0) ≡ false)
      × ((running windows v.calls ≡ h ∷ running windows w.calls)
          × ((v.contexts ≡ w.contexts)
              × ((v.next_context_id ≡ w.next_context_id) × (v.registry ≡ w.registry))))
  Started w (err e, v) = Same windows w v

  session_cases :
      (b z c : Bool) (x code : ℕ) (properties : EventTraceProperties) (w v : World)
      → running windows v.calls
        ≡ (if b && not z then x ∷ running windows w.calls else running windows w.calls)
      → (x == 0) ≡ z
      → (v.contexts ≡ w.contexts)
        × ((v.next_context_id ≡ w.next_context_id) × (v.registry ≡ w.registry))
      → Started w (
          if b
          then with_handle (if z then none else some x) (λ h. pure (properties, h)) v
          else if c
          then (err already_exist, v)
          else (err (io_error code), v))
  session_cases true true c x code properties w v u e same = (u, same)
  session_cases true false c x code properties w v u e same = (e, (u, same))
  session_cases false z true x code properties w v u e same = (u, same)
  session_cases false z false x code properties w v u e same = (u, same)

  pub start_trace-Started :
      (properties : EventTraceProperties) (w : World)
      → Started w (start_trace windows platform properties w)
  unfolding start_trace
  start_trace-Started properties w =
      let calls = start_trace_w properties ∷ w.calls in
      session_cases (windows.status calls == windows.error_success)
        (windows.control_handle calls == 0) (windows.status calls == windows.error_already_exists)
        (windows.control_handle calls) (windows.status calls) properties w
        (record w { calls = calls }) refl refl (refl, (refl, refl))

  ignore_not_found-world :
      (r : Result ℕ (Unit {0})) (v : World)
      → (ignore_not_found windows platform provider_at (r, v)).1 ≡ v
  ignore_not_found-world (ok done) v = refl
  ignore_not_found-world (err code) v =
      elim (Bool-cases (code == windows.error_wmi_instance_not_found)) [
        | inl e ↦ rw e refl
        | inr e ↦ rw e refl
      ]

  abbrev named_stop : List ℕ → EventTraceProperties → World → World
  named_stop name properties w = record w {
    calls = control_trace_w (by_name name) properties ControlCode.stop ∷ w.calls;
  }

  control_trace_by_name-world :
      (properties : EventTraceProperties) (name : List ℕ) (w : World)
      → (control_trace_by_name windows platform properties name ControlCode.stop w).1
        ≡ named_stop name properties w
  unfolding control_trace_by_name
  control_trace_by_name-world properties name w =
      elim (Bool-cases
        (windows.status (named_stop name properties w).calls == windows.error_success)) [
          | inl e ↦ rw e refl
          | inr e ↦ rw e refl
        ]

  -- What `stop_if_exist` does before a session is started: nothing, or one STOP by name.
  abbrev Before : TraceBuilder → World → World → Type 0
  Before b w v =
      (v ≡ w)
      ⊎ ((b.stop_if_exist ≡ true)
          × ((properties : EventTraceProperties) × (v ≡ named_stop b.name properties w)))

  abbrev pub stop_existing : TraceBuilder → M TraceError (Unit {0})
  stop_existing b =
      if b.stop_if_exist
      then stop_trace_by_name windows platform provider_at b.stop_guid b.name
      else pure tt

  stop_trace_by_name-Before :
      (b : TraceBuilder) (w : World)
      → b.stop_if_exist ≡ true
      → Before b w (stop_trace_by_name windows platform provider_at b.stop_guid b.name w).1
  unfolding stop_trace_by_name
  stop_trace_by_name-Before b w e =
      let mode = default_mode windows platform provider_at in
      let properties =
        new_properties b.stop_guid mode 0 b.name none
          (default_properties windows platform provider_at) 0 in
      let stopped = control_trace_by_name windows platform properties b.name ControlCode.stop w in
      elim (Bool-cases (has_nul b.name)) [
        | inl f ↦ rw f (inl refl)
        | inr f ↦ rw f (
            inr (
              e,
              (
                properties,
                ignore_not_found-world stopped.0 stopped.1
                    ∙ control_trace_by_name-world properties b.name w,
              ),
            ))
      ]

  stop_existing-Before : (b : TraceBuilder) (w : World) → Before b w (stop_existing b w).1
  stop_existing-Before b w =
      let m : M TraceError (Unit {0}) =
        stop_trace_by_name windows platform provider_at b.stop_guid b.name in
      elim (Bool-cases b.stop_if_exist) [
        | inl e ↦
            subst (λ c. Before b w ((if c then m else pure tt) w).1) (sym e)
              (stop_trace_by_name-Before b w e)
        | inr e ↦ subst (λ c. Before b w ((if c then m else pure tt) w).1) (sym e) (inl refl)
      ]

  -- The sessions that run when a session is started: all, or all but the one that a successful STOP
  -- of `stop_if_exist` has ended.
  abbrev pub Spared : TraceBuilder → World → List ℕ → Type 0
  Spared b w left =
      (left ≡ running windows w.calls)
      ⊎ ((b.stop_if_exist ≡ true)
          × ((properties : EventTraceProperties) × (((windows.status
                      (control_trace_w (by_name b.name) properties ControlCode.stop ∷ w.calls)
                    == windows.error_success)
                  ≡ true)
                × (left
                    ≡ remove_first
                        (windows.control_handle
                          (control_trace_w (by_name b.name) properties ControlCode.stop ∷ w.calls))
                        (running windows w.calls)))))

  named_stop-Spared :
      (b : TraceBuilder) (w : World) (properties : EventTraceProperties)
      → b.stop_if_exist ≡ true
      → Spared b w (running windows (named_stop b.name properties w).calls)
  named_stop-Spared b w properties e =
      let calls = (named_stop b.name properties w).calls in
      elim (Bool-cases (windows.status calls == windows.error_success)) [
        | inl f ↦ inr (
          e,
          (
            properties,
            (
              f,
              ap
                  (λ c.
                    if c
                    then remove_first (windows.control_handle calls) (running windows w.calls)
                    else running windows w.calls)
                  f,
            ),
          ),
        )
        | inr f ↦ inl (
            ap
              (λ c.
                if c
                then remove_first (windows.control_handle calls) (running windows w.calls)
                else running windows w.calls)
              f)
      ]

  Before-Spared :
      (b : TraceBuilder) (w v : World) → Before b w v → Spared b w (running windows v.calls)
  Before-Spared b w v (inl same) = inl (ap (λ (u : World). running windows u.calls) same)
  Before-Spared b w v (inr (e, (properties, same))) =
      subst (λ (u : World). Spared b w (running windows u.calls)) (sym same)
        (named_stop-Spared b w properties e)

  -- The registries are kept.
  abbrev pub Kept : World → World → Type 0
  Kept w v =
      (v.contexts ≡ w.contexts)
      × ((v.next_context_id ≡ w.next_context_id) × (v.registry ≡ w.registry))

  Before-Kept : (b : TraceBuilder) (w v : World) → Before b w v → Kept w v
  Before-Kept b w v (inl same) = subst (λ (u : World). Kept w u) (sym same) (refl, (refl, refl))
  Before-Kept b w v (inr (e, (properties, same))) =
      subst (λ (u : World). Kept w u) (sym same) (refl, (refl, refl))

  pub stop_existing-Kept : (b : TraceBuilder) (w : World) → Kept w (stop_existing b w).1
  stop_existing-Kept b w = Before-Kept b w (stop_existing b w).1 (stop_existing-Before b w)

  -- A started trace runs its session besides those left, and no other; a failed start leaves a
  -- session only where Windows has refused to stop it.
  abbrev pub Leaves : List ℕ → World → ℕ → Result TraceError Trace × World → Type 0
  Leaves left w d (ok t, v) =
      ((t.control_handle == 0) ≡ false)
      × Runs windows platform provider_at left w t.control_handle d t v
  Leaves left w d (err e, v) = (h : ℕ) × Restored windows platform provider_at left h w v

  abbrev pub AfterStart : TraceBuilder → World → Result TraceError Trace × World → Type 0
  AfterStart b w r = (left : List ℕ) × (Spared b w left × Leaves left w b.callback_data r)

  abbrev pub AfterDrop : TraceBuilder → World → (control_handle : ℕ) → World → Type 0
  AfterDrop b w h v =
      (left : List ℕ) × (Spared b w left × Restored windows platform provider_at left h w v)

  built-Leaves :
      (left : List ℕ) (w v u : World) (h d : ℕ) (r : Result TraceError Trace)
      → Kept w v
      → (h == 0) ≡ false
      → Outcome windows platform provider_at left v h d (r, u)
      → Leaves left w d (r, u)
  built-Leaves left w v u h d (ok t) (c, (n, g)) e o = (
    ap (λ k. k == 0) o.0 ∙ e,
    (
      refl,
      (
        o.1.0 ∙ n,
        (
          o.1.1.0 ∙ ap (λ k. k ∷ left) (sym o.0),
          (
            o.1.1.1.0 ∙ ap (λ k. insert k d v.contexts) n ∙ ap (insert w.next_context_id d) c,
            (o.1.1.1.1.0 ∙ ap next_id n, o.1.1.1.1.1 ∙ g),
          ),
        ),
      ),
    ),
  )
  built-Leaves left w v u h d (err e) (c, (n, g)) f o = (h, (o.0, (o.1.0 ∙ c, o.1.1 ∙ g)))

  after_start :
      (b : TraceBuilder) (w v u : World) (r : Result EvntraceNativeError (EventTraceProperties × ℕ))
      → Kept w v
      → w.contexts w.next_context_id ≡ none
      → Started v (r, u)
      → Leaves
          (running windows v.calls)
          w
          b.callback_data
          (continue (wrap_error r) (build_started windows platform provider_at b) u)
  after_start b w v u (ok (properties, h)) (c, (n, g)) fresh s =
      let contexts = s.1.1.0 ∙ c in
      let next = s.1.1.1.0 ∙ n in
      let unused : u.contexts u.next_context_id ≡ none =
        ap (λ c. c u.next_context_id) contexts ∙ ap w.contexts next ∙ fresh in
      let built = build_started windows platform provider_at b (properties, h) u in
      built-Leaves (running windows v.calls) w u built.1 h b.callback_data built.0
        (contexts, (next, s.1.1.1.1 ∙ g)) s.0
        (build_started-Outcome windows platform provider_at properties h s.0
          (running windows v.calls) b u s.1.0 unused)
  after_start b w v u (err e) (c, (n, g)) fresh s = (0, (inl s.0, (s.1.0 ∙ c, s.1.1.1 ∙ g)))

  after_name :
      (b : TraceBuilder) (w v : World) (r : Result TraceError (Unit {0}))
      → Kept w v
      → w.contexts w.next_context_id ≡ none
      → Leaves (running windows v.calls) w b.callback_data (
          continue r
            (λ _.
              (λ u.
                native
                  (start_trace windows platform
                    (built_properties windows platform provider_at b u.registry.providers))
                  u)
              >>= build_started windows platform provider_at b)
            v)
  after_name b w v (ok done) q fresh =
      let properties = built_properties windows platform provider_at b v.registry.providers in
      let m = start_trace windows platform properties v in
      after_start b w v m.1 m.0 q fresh (start_trace-Started properties v)
  after_name b w v (err e) (c, (n, g)) fresh = (0, (inl refl, (c, g)))

  -- A start that fails, at any step, leaves the registries of contexts and of providers as they
  -- were, and the sessions, too, except that the session that it has started still runs where the
  -- last call is the STOP of that session and Windows refuses it. One that succeeds leaves one
  -- session more, that of the returned trace, whose handle is valid and whose new context leads to
  -- its callback data. Before, with `stop_if_exist`, a STOP by name that succeeds has ended the session
  -- whose handle it gives back. The next context id is taken to be unused. What Windows answers is
  -- arbitrary.
  pub start-Leaves :
      (b : TraceBuilder) (w : World)
      → w.contexts w.next_context_id ≡ none
      → AfterStart b w (start windows platform provider_at b w)
  unfolding start
  start-Leaves b w fresh =
      let m = stop_existing b in
      let before = stop_existing-Before b w in
      (
        running windows (m w).1.calls,
        (
          Before-Spared b w (m w).1 before,
          after_name b w (m w).1 (m w).0 (stop_existing-Kept b w) fresh,
        ),
      )

  -- A trace that has started and is dropped, with whatever errors, leaves the registries as they
  -- were before the start, and the sessions, too, except that its session still runs where the last
  -- call is the STOP of that session and Windows refuses it. At the start, with `stop_if_exist`, a
  -- STOP by name that succeeds has ended the session whose handle it gives back. The next context id
  -- is taken to be unused before the start.
  pub drop_trace-Restored :
      (b : TraceBuilder) (w v : World) (t : Trace)
      → w.contexts w.next_context_id ≡ none
      → start windows platform provider_at b w ≡ (ok t, v)
      → AfterDrop b w t.control_handle (drop_trace windows platform provider_at t v)
  unfolding drop_trace non_consuming_stop unregister
  drop_trace-Restored b w v t fresh e =
      let (left, (spared, leaves)) = start-Leaves b w fresh in
      let o : Leaves left w b.callback_data (ok t, v) =
        subst (Leaves left w b.callback_data) e leaves in
      let x = (close_trace windows platform t.trace_handle t.context v).1 in
      let r = close_trace-Retired windows platform t.trace_handle t.context v in
      let s = control_trace-Stopped windows platform t.properties t.control_handle x o.0 in
      let u = (control_trace windows platform t.properties t.control_handle ControlCode.stop x).1 in
      (
        left,
        (
          spared,
          (
            left_over windows platform provider_at t.properties t.control_handle o.0 left x u
                (r.0 ∙ o.1.1.1.0) s,
            (
              ap (without t.context) s.1.0
                  ∙ r.1.0
                  ∙ ap (without t.context) o.1.1.1.1.0
                  ∙ ap (λ i. without i (insert w.next_context_id b.callback_data w.contexts))
                      o.1.1.0
                  ∙ without_insert w.next_context_id b.callback_data w.contexts
                  ∙ without_fresh w.next_context_id w.contexts fresh,
              s.1.1.1 ∙ r.1.1.1 ∙ o.1.1.1.1.1.1,
            ),
          ),
        ),
      )
