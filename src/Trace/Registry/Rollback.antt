-- ===== src/Trace/Registry/Rollback.antt =====
-- src/trace/callback_data.rs: the roll-back of a registration, and what is registered.
use ferrisetw.Base.{
  ℕ, ◌≡◌, refl, sym, ap, ◌∙◌, Bool, true, false, not, List, [], ◌∷◌, ◌++◌, ◌==◌, ==_iff,
  if◌then◌else◌, Option-cases, inl, inr, arith,
}
use ferrisetw.Trace.Registry.{
  ProviderRegistry, retain, contains, or_default, unless_empty, add, remove_all_by_guid, remove_one,
  is_registered,
}
use ferrisetw.Trace.Registry.Index.{IsIndexed, select, add-IsIndexed, remove_one-IsIndexed}
use mathlib.Core.Path.{fun_ext}

retain_pushed :
    (p : ℕ) (ps : List ℕ) → contains p ps ≡ false → retain (λ q. not (q == p)) (ps ++ p ∷ []) ≡ ps
retain_pushed p [] h = ground (arith, ==_iff p p)
retain_pushed p (q ∷ qs) h = ground (arith, retain_pushed p qs)

contains_pushed : (p : ℕ) (ps : List ℕ) → contains p (ps ++ p ∷ []) ≡ true
contains_pushed p [] = ground arith
contains_pushed p (q ∷ qs) = ground (arith, contains_pushed p qs)

module _ (guid : ℕ → ℕ) where
  -- A registry is its list of providers.
  registry_eq :
      (r s : ProviderRegistry)
      → IsIndexed guid r
      → IsIndexed guid s
      → r.providers ≡ s.providers
      → r ≡ s
  unfolding IsIndexed
  registry_eq r s t u e =
      let same : r.by_guid ≡ s.by_guid =
        fun_ext (λ g. t g ∙ ap (λ ps. unless_empty (select guid g ps)) e ∙ sym (u g)) in
      λ i. record { providers = e i; by_guid = same i }

  providers_of_remove :
      (p : ℕ) (r : ProviderRegistry)
      → (remove_one guid p (add guid p r)).1.providers
        ≡ retain (λ q. not (q == p)) (r.providers ++ p ∷ [])
  unfolding remove_one add
  providers_of_remove p r = ground (arith, contains_pushed p (or_default (r.by_guid (guid p))))

  -- The roll-back of a new provider undoes its registration.
  pub remove_one-add :
      (p : ℕ) (r : ProviderRegistry)
      → IsIndexed guid r
      → contains p r.providers ≡ false
      → (remove_one guid p (add guid p r)).1 ≡ r
  remove_one-add p r t h =
      registry_eq (remove_one guid p (add guid p r)).1 r
        (remove_one-IsIndexed guid p (add guid p r) (add-IsIndexed guid p r t)) t
        (providers_of_remove p r ∙ retain_pushed p r.providers h)

  pub is_registered-add :
      (p g : ℕ) (r : ProviderRegistry)
      → is_registered g (add guid p r) ≡ (if guid p == g then true else is_registered g r)
  unfolding add
  is_registered-add p g r = ground arith

  pub is_registered-remove_all :
      (g k : ℕ) (r : ProviderRegistry)
      → is_registered g r ≡ true
      → is_registered k (remove_all_by_guid guid g r).1
        ≡ (if g == k then false else is_registered k r)
  unfolding remove_all_by_guid
  is_registered-remove_all g k r h = ground arith

-- An address that is neither among `used` nor new is not registered.
pub contains-push :
    (p q : ℕ) (ps : List ℕ)
    → contains q ps ≡ false
    → (p == q) ≡ false
    → contains q (ps ++ p ∷ []) ≡ false
contains-push p q [] h e = ground arith
contains-push p q (x ∷ ps) h e = ground (arith, contains-push p q ps)

pub contains-retain :
    (keep : ℕ → Bool) (q : ℕ) (ps : List ℕ)
    → contains q ps ≡ false
    → contains q (retain keep ps) ≡ false
contains-retain keep q [] h = refl
contains-retain keep q (x ∷ ps) h = ground (arith, contains-retain keep q ps)

pub contains-remove_all :
    (guid : ℕ → ℕ) (g q : ℕ) (r : ProviderRegistry)
    → contains q r.providers ≡ false
    → contains q (remove_all_by_guid guid g r).1.providers ≡ false
unfolding remove_all_by_guid
contains-remove_all guid g q r h = elim (Option-cases (r.by_guid g)) [
  | inl e ↦ rw (e, remove_all_by_guid) h
  | inr (entries, e) ↦
      rw (e, remove_all_by_guid) (contains-retain (λ p. not (guid p == g)) q r.providers h)
]
