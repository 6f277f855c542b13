-- ===== src/Trace/Session/Synced.antt =====
-- src/trace.rs: a user trace that has started stays in sync with its registry.
use ferrisetw.Base.{
  ℕ, ◌≡◌, refl, sym, ap, subst, ◌∙◌, inl, inr, true, false, ◌||◌, none, some, List, [], ◌∷◌, ◌==◌,
  if◌then◌else◌, Bool-cases,
}
use ferrisetw.Native.EtwTypes.{EventTraceProperties}
use ferrisetw.Native.Evntrace.{start_trace}
use ferrisetw.Native.Windows.{
  EvntraceNativeError, TraceError, Result, ok, err, World, continue, ◌>>=◌, wrap_error, native,
  Windows,
}
use ferrisetw.Provider.Builder.{Provider}
use ferrisetw.Provider.EventFilter.{Platform}
use ferrisetw.Trace.Registry.{is_registered, contains, unless_empty}
use ferrisetw.Trace.Registry.Index.{IsIndexed, select}
use ferrisetw.Trace.Session.{TraceKind, TraceBuilder, Trace, built_properties}
use ferrisetw.Trace.Session.Begun.{
  has_guid, NoneOn, start_trace-NoneOn, EnabledAll, build_started-EnabledAll,
}
use ferrisetw.Trace.Session.Leaves.{
  AfterStart, Started, Kept, start_trace-Started, stop_existing, stop_existing-Kept, start-Leaves,
}
use ferrisetw.Trace.Session.Running.{AreNew, apply_operations-IsInSync}
use ferrisetw.Trace.Session.Start.{guid_of, build_started, start, UserOperation, apply_operations}
use ferrisetw.Trace.Session.Sync.{enabled, IsInSync, IsConsistent}

module _ (windows : Windows) (platform : Platform) (provider_at : ℕ → Provider) where
  past_start :
      (b : TraceBuilder) (w v : World) (ps : List ℕ)
      (r : Result EvntraceNativeError (EventTraceProperties × ℕ))
      → b.kind ≡ TraceKind.user
      → w.registry.providers ≡ ps
      → Started windows platform provider_at w (r, v)
      → NoneOn windows platform provider_at (r, v)
      → EnabledAll windows platform provider_at ps
          (continue (wrap_error r) (build_started windows platform provider_at b) v)
  past_start b w v ps (ok (properties, h)) user e s fresh_session =
      subst
        (λ qs.
          EnabledAll windows platform provider_at qs
            (build_started windows platform provider_at b (properties, h) v))
        (ap (λ r. r.providers) s.1.1.1.1 ∙ e)
        (build_started-EnabledAll windows platform provider_at properties h b v user fresh_session)
  past_start b w v ps (err failure) user e s fresh_session = tt

  past_name :
      (b : TraceBuilder) (w v : World) (r : Result TraceError (Unit {0}))
      → b.kind ≡ TraceKind.user
      → Kept windows platform provider_at w v
      → EnabledAll windows platform provider_at w.registry.providers (
          continue r
            (λ _.
              (λ u.
                native
                  (start_trace windows platform
                    (built_properties windows platform provider_at b u.registry.providers))
                  u)
              >>= build_started windows platform provider_at b)
            v)
  past_name b w v (ok done) user q =
      let properties = built_properties windows platform provider_at b v.registry.providers in
      let m = start_trace windows platform properties v in
      past_start b v m.1 w.registry.providers m.0 user (ap (λ r. r.providers) q.1.1)
        (start_trace-Started windows platform provider_at properties v)
        (start_trace-NoneOn windows platform provider_at properties v)
  past_name b w v (err failure) user q = tt

  start-EnabledAll :
      (b : TraceBuilder) (w : World)
      → b.kind ≡ TraceKind.user
      → EnabledAll windows platform provider_at w.registry.providers
          (start windows platform provider_at b w)
  unfolding start
  start-EnabledAll b w user =
      let m = stop_existing windows platform provider_at b in
      past_name b w (m w).1 (m w).0 user (stop_existing-Kept windows platform provider_at b w)

  abbrev pub guids : ℕ → ℕ
  guids = guid_of windows platform provider_at

  after_first :
      (g q : ℕ) (qs : List ℕ)
      → (elim (unless_empty (if guids q == g then q ∷ qs else qs)) [ none ↦ false | some e ↦ true ])
        ≡ ((guids q == g) || (elim (unless_empty qs) [ none ↦ false | some e ↦ true ]))
  after_first g q qs = elim (Bool-cases (guids q == g)) [ inl e ↦ rw e | inr e ↦ rw e ]

  selected :
      (g : ℕ) (ps : List ℕ)
      → (elim (unless_empty (select guids g ps)) [ none ↦ false | some e ↦ true ])
        ≡ has_guid windows platform provider_at g ps
  selected g [] = refl
  selected g (p ∷ ps) =
      after_first g p (select guids g ps) ∙ ap (λ b. (guids p == g) || b) (selected g ps)

  started-IsConsistent :
      (b : TraceBuilder) (w v : World) (t : Trace)
      → b.kind ≡ TraceKind.user
      → w.contexts w.next_context_id ≡ none
      → IsIndexed guids w.registry
      → start windows platform provider_at b w ≡ (ok t, v)
      → IsConsistent windows platform provider_at t.control_handle w.registry.providers v
  unfolding IsInSync IsIndexed
  started-IsConsistent b w v t user fresh indexed e =
      let (left, (spared, leaves)) =
        subst (AfterStart windows platform provider_at b w) e
          (start-Leaves windows platform provider_at b w fresh) in
      let same : v.registry ≡ w.registry = leaves.1.1.1.1.1.1 in
      let on : EnabledAll windows platform provider_at w.registry.providers (ok t, v) =
        subst (EnabledAll windows platform provider_at w.registry.providers) e
          (start-EnabledAll b w user) in
      record {
        indexed = subst (IsIndexed guids) (sym same) indexed;
        allocated = λ q f. ap (λ r. contains q r.providers) same ∙ f;
        in_sync = λ g.
            ap (is_registered g) same
            ∙ ap (λ o. elim o [ none ↦ false | some entries ↦ true ]) (indexed g)
            ∙ selected g w.registry.providers
            ∙ sym (on g);
      }

  -- After the start of a user trace and any sequence of providers enabled and disabled on it, whatever
  -- each call of Windows answers, the registry has a provider of a GUID exactly if the latest
  -- successful call for the GUID on this session enables it: no provider is left enabled that events
  -- are not dispatched to, and none is registered that is not enabled. The index of the registry fits
  -- its providers before the start, each provider that is enabled has a new address, and the next
  -- context id is unused.
  pub started_operations-IsInSync :
      (b : TraceBuilder) (w v : World) (t : Trace)
      → b.kind ≡ TraceKind.user
      → w.contexts w.next_context_id ≡ none
      → IsIndexed guids w.registry
      → start windows platform provider_at b w ≡ (ok t, v)
      → (os : List UserOperation) → AreNew os w.registry.providers
      → (guid : ℕ)
      → is_registered guid (apply_operations windows platform provider_at t os v).registry
        ≡ enabled windows t.control_handle guid
            (apply_operations windows platform provider_at t os v).calls
  started_operations-IsInSync b w v t user fresh indexed e os new guid =
      apply_operations-IsInSync windows platform provider_at t os w.registry.providers v new
        (started-IsConsistent b w v t user fresh indexed e) guid
