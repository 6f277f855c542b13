-- ===== src/Trace/Registry/Refine.antt =====
-- src/trace/callback_data.rs: the registry behaves as the plain list of its providers.
use ferrisetw.Base.{
  ℕ, ◌≡◌, refl, sym, ap, ◌∙◌, inl, inr, false, not, none, List, [], ◌∷◌, ◌++◌, ◌==◌, ==_iff, length,
  Bool-cases, Option-cases,
}
use ferrisetw.Trace.Registry.{
  ProviderRegistry, Operation, register, unregister_all, roll_back, retain, contains, empty,
  or_default, unless_empty, add, remove_all_by_guid, remove_one, dispatch, apply, apply_all,
}
use ferrisetw.Trace.Registry.Index.{
  IsIndexed, select, add-IsIndexed, remove_all-IsIndexed, remove_one-IsIndexed, empty-IsIndexed,
  or_default_unless, equal_tests,
}

module _ (guid : ℕ → ℕ) where
  -- The abstract view: the list of the providers in registration order.
  abbrev pub specify : Operation → List ℕ → List ℕ
  specify (register p) ps = ps ++ p ∷ []
  specify (unregister_all g) ps = retain (λ p. not (guid p == g)) ps
  specify (roll_back p) ps = retain (λ q. not (q == p)) ps

  abbrev pub specify_all : List Operation → List ℕ → List ℕ
  specify_all [] ps = ps
  specify_all (o ∷ os) ps = specify_all os (specify o ps)

  apply-IsIndexed :
      (o : Operation) (r : ProviderRegistry) → IsIndexed guid r → IsIndexed guid (apply guid o r)
  unfolding apply
  apply-IsIndexed (register p) r t = add-IsIndexed guid p r t
  apply-IsIndexed (unregister_all g) r t = remove_all-IsIndexed guid g r t
  apply-IsIndexed (roll_back p) r t = remove_one-IsIndexed guid p r t

  retain_all :
      (g : ℕ) (ps : List ℕ)
      → unless_empty (select guid g ps) ≡ none
      → retain (λ p. not (guid p == g)) ps ≡ ps
  retain_all g [] e = refl
  retain_all g (q ∷ qs) e = elim (Bool-cases (guid q == g)) [
    | inl f ↦ cc (rw (f) at e)
    | inr f ↦ rw (f) (ap (λ rest. q ∷ rest) (retain_all g qs (rw (f) at e)))
  ]

  retain_absent :
      (p : ℕ) (ps : List ℕ)
      → contains p (select guid (guid p) ps) ≡ false
      → retain (λ q. not (q == p)) ps ≡ ps
  retain_absent p [] e = refl
  retain_absent p (q ∷ qs) e = elim (Bool-cases (q == p)) [
    | inl f ↦
        let same : q ≡ p = (==_iff q p).0 f in
        cc (rw (equal_tests guid (guid q) (guid p) (ap guid same), f) at e)
    | inr f ↦ elim (Bool-cases (guid q == guid p)) [
      | inl h ↦ rw (f) (ap (λ rest. q ∷ rest) (retain_absent p qs (rw (h, f) at e)))
      | inr h ↦ rw (f) (ap (λ rest. q ∷ rest) (retain_absent p qs (rw (h) at e)))
    ]
  ]

  entries_of :
      (r : ProviderRegistry)
      → IsIndexed guid r
      → (g : ℕ) → select guid g r.providers ≡ or_default (r.by_guid g)
  unfolding IsIndexed
  entries_of r t g = sym (ap or_default (t g) ∙ or_default_unless guid (select guid g r.providers))

  removed_count :
      (r : ProviderRegistry)
      → IsIndexed guid r
      → (g : ℕ) → length (select guid g r.providers) ≡ (remove_all_by_guid guid g r).0
  unfolding remove_all_by_guid
  removed_count r t g = elim (Option-cases (r.by_guid g)) [
    | inl f ↦ rw (f, remove_all_by_guid) (ap length (entries_of r t g ∙ ap or_default f))
    | inr (entries, f) ↦ rw (f, remove_all_by_guid) (ap length (entries_of r t g ∙ ap or_default f))
  ]

  removed_flag :
      (r : ProviderRegistry)
      → IsIndexed guid r
      → (p : ℕ) → contains p (select guid (guid p) r.providers) ≡ (remove_one guid p r).0
  unfolding remove_one
  removed_flag r t p = elim (Option-cases (r.by_guid (guid p))) [
    | inl f ↦ rw (f, remove_one) (ap (contains p) (entries_of r t (guid p) ∙ ap or_default f))
    | inr (entries, f) ↦ elim (Bool-cases (contains p entries)) [
      | inl c ↦
          rw (f, c, remove_one) (ap (contains p) (entries_of r t (guid p) ∙ ap or_default f) ∙ c)
      | inr c ↦
          rw (f, c, remove_one) (ap (contains p) (entries_of r t (guid p) ∙ ap or_default f) ∙ c)
    ]
  ]

  apply-specify :
      (o : Operation) (r : ProviderRegistry)
      → IsIndexed guid r
      → (apply guid o r).providers ≡ specify o r.providers
  unfolding apply add remove_all_by_guid remove_one IsIndexed
  apply-specify (register p) r t = refl
  apply-specify (unregister_all g) r t = elim (Option-cases (r.by_guid g)) [
    | inl f ↦ rw (f, remove_all_by_guid, apply) (sym (retain_all g r.providers (sym (t g) ∙ f)))
    | inr (entries, f) ↦ rw (f, remove_all_by_guid, apply) refl
  ]
  apply-specify (roll_back p) r t = elim (Option-cases (r.by_guid (guid p))) [
    | inl f ↦
        rw (f, remove_one, apply)
          (sym (retain_absent p r.providers (rw (entries_of r t (guid p) ∙ ap or_default f) refl)))
    | inr (entries, f) ↦ elim (Bool-cases (contains p entries)) [
      | inl c ↦ rw (f, c, remove_one, apply) refl
      | inr c ↦
          rw (f, c, remove_one, apply)
            (sym (retain_absent p r.providers (rw (entries_of r t (guid p) ∙ ap or_default f) c)))
    ]
  ]

  apply_all-specify :
      (os : List Operation) (r : ProviderRegistry)
      → IsIndexed guid r
      → IsIndexed guid (apply_all guid os r)
        × ((apply_all guid os r).providers ≡ specify_all os r.providers)
  unfolding apply_all
  apply_all-specify [] r t = (t, refl)
  apply_all-specify (o ∷ os) r t =
      let (t', e) = apply_all-specify os (apply guid o r) (apply-IsIndexed o r t) in
      (t', e ∙ ap (specify_all os) (apply-specify o r t))

  -- After any sequence of registrations, removals of a GUID and roll-backs, the registry lists the
  -- providers that the same sequence leaves in a plain list, and an event is dispatched to exactly
  -- those of them that have its GUID, in registration order.
  pub dispatch-specify :
      (os : List Operation) (g : ℕ)
      → ((apply_all guid os empty).providers ≡ specify_all os [])
        × (dispatch guid g (apply_all guid os empty) ≡ select guid g (specify_all os []))
  unfolding dispatch
  dispatch-specify os g =
      let (t, e) = apply_all-specify os empty (empty-IsIndexed guid) in
      (e, sym (entries_of (apply_all guid os empty) t g) ∙ ap (select guid g) e)

  -- A removal by GUID reports how many providers of that GUID were registered, and a roll-back
  -- whether its provider was among them.
  pub removed-specify :
      (os : List Operation) (g p : ℕ)
      → ((remove_all_by_guid guid g (apply_all guid os empty)).0
          ≡ length (select guid g (specify_all os [])))
        × ((remove_one guid p (apply_all guid os empty)).0
            ≡ contains p (select guid (guid p) (specify_all os [])))
  unfolding remove_all_by_guid remove_one
  removed-specify os g p =
      let (t, e) = apply_all-specify os empty (empty-IsIndexed guid) in
      (
        sym (removed_count (apply_all guid os empty) t g) ∙ ap (λ ps. length (select guid g ps)) e,
        sym (removed_flag (apply_all guid os empty) t p)
            ∙ ap (λ ps. contains p (select guid (guid p) ps)) e,
      )
