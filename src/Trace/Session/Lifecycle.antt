-- ===== src/Trace/Session/Lifecycle.antt =====
-- src/trace.rs: what a start, a failed start and a drop leave behind.
use ferrisetw.Base.{
  ℕ, ◌≡◌, refl, ap, ◌∙◌, inl, inr, ◌⊎◌, false, Option, none, some, List, ◌∷◌, ◌==◌, if◌then◌else◌,
  Bool-cases, Option-cases, arith,
}
use ferrisetw.Native.EtwTypes.{EventTraceProperties}
use ferrisetw.Native.Evntrace.{
  filter_invalid_control_handle, filter_invalid_trace_handles, next_id, new_context, unregister,
  open_trace, opened, control_trace, close_trace, closed,
}
use ferrisetw.Native.Evntrace.Quiet.{remove_first, running, Same, Same-refl}
use ferrisetw.Native.Windows.{
  Call, open_trace_w, close_trace_w, control_trace_w, by_handle, ControlCode, Source,
  EvntraceNativeError, Result, ok, err, World, Windows,
}
use ferrisetw.Provider.EventFilter.{Platform}
use mathlib.Core.Path.{fun_ext}

-- A context that is unregistered.
abbrev pub without : ℕ → (ℕ → Option ℕ) → ℕ → Option ℕ
without id contexts k = if k == id then none else contexts k

pub without_twice :
    (id : ℕ) (contexts : ℕ → Option ℕ) → without id (without id contexts) ≡ without id contexts
without_twice id contexts =
    fun_ext (λ k. elim (Bool-cases (k == id)) [ inl e ↦ rw e | inr e ↦ rw e ])

pub without_insert :
    (id d : ℕ) (contexts : ℕ → Option ℕ)
    → without id (λ k. if k == id then some d else contexts k) ≡ without id contexts
without_insert id d contexts =
    fun_ext (λ k. elim (Bool-cases (k == id)) [ inl e ↦ rw e | inr e ↦ rw e ])

without_self : (id : ℕ) (contexts : ℕ → Option ℕ) → without id contexts id ≡ none
without_self id contexts = ground arith

module _ (windows : Windows) (platform : Platform) where
  -- A STOP of the session `h` is the latest call, and Windows refuses it.
  abbrev pub StopFailed : ℕ → List Call → Type 0
  StopFailed h calls =
      (properties : EventTraceProperties) × ((earlier : List Call) × ((calls
            ≡ control_trace_w (by_handle h) properties ControlCode.stop ∷ earlier)
          × ((windows.status calls == windows.error_success) ≡ false)))

  -- The session under `h` is stopped unless Windows refuses it, and nothing else has changed.
  abbrev pub Stopped : ℕ → World → World → Type 0
  Stopped h v u =
      ((running windows u.calls ≡ remove_first h (running windows v.calls))
        ⊎ (StopFailed h u.calls × (running windows u.calls ≡ running windows v.calls)))
      × ((u.contexts ≡ v.contexts)
          × ((u.next_context_id ≡ v.next_context_id) × (u.registry ≡ v.registry)))

  valid_handle : (h : ℕ) → (h == 0) ≡ false → filter_invalid_control_handle h ≡ some h
  valid_handle h e = rw e

  pub control_trace-Stopped :
      (properties : EventTraceProperties) (h : ℕ) (v : World)
      → (h == 0) ≡ false
      → Stopped h v (control_trace windows platform properties h ControlCode.stop v).1
  unfolding control_trace
  control_trace-Stopped properties h v e =
      let calls = control_trace_w (by_handle h) properties ControlCode.stop ∷ v.calls in
      rw (valid_handle h e) (elim (Bool-cases (windows.status calls == windows.error_success)) [
        | inl f ↦ rw f (
          inl (
              ap
                (λ b.
                  if b then remove_first h (running windows v.calls) else running windows v.calls)
                f),
          (refl, (refl, refl)),
        )
        | inr f ↦ rw f (
          inr (
            (properties, (v.calls, (refl, f))),
            ap
                (λ b.
                  if b then remove_first h (running windows v.calls) else running windows v.calls)
                f,
          ),
          (refl, (refl, refl)),
        )
      ])

  abbrev pub Retired : ℕ → World → World → Type 0
  Retired id v u =
      (running windows u.calls ≡ running windows v.calls)
      × ((without id u.contexts ≡ without id v.contexts)
          × ((u.next_context_id ≡ v.next_context_id) × (u.registry ≡ v.registry)))

  closed-Same : (calls : List Call) (w : World) → Same windows w (closed windows platform calls w).1
  closed-Same calls w = elim (Bool-cases (windows.status calls == windows.error_success)) [
    | inl e ↦ rw e (Same-refl windows w)
    | inr e ↦ elim (Bool-cases (windows.status calls == windows.error_ctx_close_pending)) [
      | inl f ↦ rw (e, f) (Same-refl windows w)
      | inr f ↦ rw (e, f) (Same-refl windows w)
    ]
  ]

  pub close_trace-Retired :
      (h id : ℕ) (v : World) → Retired id v (close_trace windows platform h id v).1
  unfolding close_trace unregister
  close_trace-Retired h id v = elim (Option-cases (filter_invalid_trace_handles h)) [
    | inl e ↦ rw e (refl, (refl, (refl, refl)))
    | inr (g, e) ↦
        let u = unregister id v in
        let calls = close_trace_w g ∷ v.calls in
        let (a, (b, (c, d))) = closed-Same calls (record u { calls = calls }) in
        rw e (a, (ap (without id) b ∙ without_twice id v.contexts, (c, d)))
  ]

  -- What `open_trace` leaves behind.
  abbrev pub Opened : World → ℕ → Result EvntraceNativeError (ℕ × ℕ) × World → Type 0
  Opened w d (ok (h, id), v) =
      (id ≡ w.next_context_id)
      × ((running windows v.calls ≡ running windows w.calls)
          × ((v.contexts ≡ (λ k. if k == w.next_context_id then some d else w.contexts k))
              × ((v.next_context_id ≡ next_id w.next_context_id) × (v.registry ≡ w.registry))))
  Opened w d (err e, v) =
      (running windows v.calls ≡ running windows w.calls)
      × ((without w.next_context_id v.contexts ≡ without w.next_context_id w.contexts)
          × ((v.contexts w.next_context_id ≡ none) × (v.registry ≡ w.registry)))

  opened-Opened :
      (o : Option ℕ) (calls : List Call) (d : ℕ) (w v : World)
      → running windows v.calls ≡ running windows w.calls
      → v.contexts ≡ (λ k. if k == w.next_context_id then some d else w.contexts k)
      → v.next_context_id ≡ next_id w.next_context_id
      → v.registry ≡ w.registry
      → Opened w d (opened windows platform o w.next_context_id calls v)
  unfolding unregister
  opened-Opened none calls d w v a b c e = (
    a,
    (
      without_twice w.next_context_id v.contexts
          ∙ ap (without w.next_context_id) b
          ∙ without_insert w.next_context_id d w.contexts,
      (without_self w.next_context_id v.contexts, e),
    ),
  )
  opened-Opened (some h) calls d w v a b c e = (refl, (a, (b, (c, e))))

  pub open_trace-Opened :
      (source : Source) (d : ℕ) (w : World) → Opened w d (open_trace windows platform source d w)
  unfolding open_trace new_context
  open_trace-Opened source d w =
      let calls = open_trace_w w.next_context_id source ∷ w.calls in
      opened-Opened (filter_invalid_trace_handles (windows.trace_handle calls)) calls d w
        (record (new_context d w).1 { calls = calls }) refl refl refl refl
