-- ===== src/Trace/Session/Running.antt =====
-- src/trace.rs: any sequence of runtime changes keeps the session and the registry in sync.
use ferrisetw.Base.{ℕ, ◌≡◌, inl, inr, false, List, [], ◌∷◌, Bool-cases}
use ferrisetw.Native.Evntrace.{enable_provider, disable_provider}
use ferrisetw.Native.Evntrace.Quiet.{enable_provider-IsQuiet, disable_provider-IsQuiet}
use ferrisetw.Native.Windows.{TraceError, Result, ok, err, World, M, continue, Windows}
use ferrisetw.Provider.Builder.{Provider}
use ferrisetw.Provider.EventFilter.{Platform}
use ferrisetw.Trace.Registry.{is_registered, contains, add}
use ferrisetw.Trace.Session.{Trace}
use ferrisetw.Trace.Session.Start.{
  capture_one, capture_all, enable, disable, request_capture_state, UserOperation, enable_operation,
  disable_operation, capture_operation, apply_operations,
}
use ferrisetw.Trace.Session.Sync.{
  guid_at, enabled, IsInSync, IsConsistent, enabled_case, disabled_case, enable_provider-Switched,
  disable_provider-Switched, capture_one-IsConsistent,
}

-- `Arc::new` returns an address that was not used before.
abbrev pub AreNew : List UserOperation → List ℕ → Type 0
AreNew [] used = Unit {0}
AreNew (enable_operation p ∷ os) used = (contains p used ≡ false) × AreNew os (p ∷ used)
AreNew (disable_operation guid ∷ os) used = AreNew os used
AreNew (capture_operation ∷ os) used = AreNew os used

module _ (windows : Windows) where
  module _ (platform : Platform) (provider_at : ℕ → Provider) (t : Trace) where
    abbrev Holds : List ℕ → World → Type 0
    Holds used w = IsConsistent windows platform provider_at t.control_handle used w

    enable-IsConsistent :
        (used : List ℕ) (p : ℕ) (w : World)
        → Holds used w
        → contains p used ≡ false
        → Holds (p ∷ used) (enable windows platform provider_at t p w).1
    unfolding enable
    enable-IsConsistent used p w k fresh =
        let added = record w {
          registry = add (guid_at windows platform provider_at t.control_handle) p w.registry;
        } in
        let m = enable_provider windows platform t.control_handle (provider_at p) added in
        enabled_case windows platform provider_at t.control_handle used p w m.1 m.0 k fresh
          ((enable_provider-IsQuiet windows platform t.control_handle (provider_at p)).same
            added).1.1.1
          (enable_provider-Switched windows platform provider_at t.control_handle (provider_at p)
            added)

    disable-IsConsistent :
        (used : List ℕ) (guid : ℕ) (w : World)
        → Holds used w
        → Holds used (disable windows platform provider_at t guid w).1
    unfolding disable
    disable-IsConsistent used guid w k = elim (Bool-cases (is_registered guid w.registry)) [
      | inr e ↦ rw e k
      | inl e ↦
          let m = disable_provider windows platform t.control_handle guid w in
          rw e (
            disabled_case windows platform provider_at t.control_handle used guid w m.1 m.0 k e
              ((disable_provider-IsQuiet windows platform t.control_handle guid).same w).1.1.1
              (disable_provider-Switched windows platform provider_at t.control_handle guid w))
    ]

    continue-Holds :
        (used : List ℕ) (r : Result TraceError (Unit {0})) (rest : M TraceError (Unit {0}))
        (v : World)
        → Holds used v
        → ((u : World) → Holds used u → Holds used (rest u).1)
        → Holds used (continue r (λ _. rest) v).1
    continue-Holds used (ok done) rest v k h = h v k
    continue-Holds used (err e) rest v k h = k

    capture_all-IsConsistent :
        (used ps : List ℕ) (w : World)
        → Holds used w
        → Holds used (capture_all windows platform provider_at t.control_handle ps w).1
    capture_all-IsConsistent used [] w k = k
    capture_all-IsConsistent used (p ∷ ps) w k =
        let m = capture_one windows platform provider_at t.control_handle p in
        continue-Holds used (m w).0 (capture_all windows platform provider_at t.control_handle ps)
          (m w).1
          (capture_one-IsConsistent windows platform provider_at t.control_handle used p w k)
          (capture_all-IsConsistent used ps)

    apply_operations-IsConsistent :
        (os : List UserOperation) (used : List ℕ) (w : World)
        → AreNew os used
        → Holds used w
        → IsInSync windows platform provider_at t.control_handle
            (apply_operations windows platform provider_at t os w)
    unfolding apply_operations request_capture_state
    apply_operations-IsConsistent [] used w new k = k.in_sync
    apply_operations-IsConsistent (enable_operation p ∷ os) used w (fresh, new) k =
        apply_operations-IsConsistent os (p ∷ used) (enable windows platform provider_at t p w).1
          new (enable-IsConsistent used p w k fresh)
    apply_operations-IsConsistent (disable_operation guid ∷ os) used w new k =
        apply_operations-IsConsistent os used (disable windows platform provider_at t guid w).1 new
          (disable-IsConsistent used guid w k)
    apply_operations-IsConsistent (capture_operation ∷ os) used w new k =
        apply_operations-IsConsistent os used
          (request_capture_state windows platform provider_at t w).1 new
          (capture_all-IsConsistent used w.registry.providers w k)

    -- After any sequence of providers enabled and disabled on a running user trace, whatever each call
    -- of Windows answers, the registry has a provider of a GUID exactly if the latest successful call
    -- for the GUID on this session enables it: no provider is left enabled that events are not
    -- dispatched to, and none is registered that is not enabled. Each provider that is enabled has a
    -- new address, and before the sequence the session and the registry agree and the registry is
    -- consistent.
    pub apply_operations-IsInSync :
        (os : List UserOperation) (used : List ℕ) (w : World)
        → AreNew os used
        → IsConsistent windows platform provider_at t.control_handle used w
        → (guid : ℕ)
        → is_registered guid (apply_operations windows platform provider_at t os w).registry
          ≡ enabled windows t.control_handle guid
              (apply_operations windows platform provider_at t os w).calls
    unfolding IsInSync
    apply_operations-IsInSync os used w new k = apply_operations-IsConsistent os used w new k
