-- ===== src/Trace/Registry/Index.antt =====
-- src/trace/callback_data.rs: the index by GUID agrees with the list of the providers.
use ferrisetw.Base.{
  ℕ, ◌≡◌, refl, sym, ap, ◌∙◌, inl, inr, Bool, true, false, not, some, List, [], ◌∷◌, ◌++◌, ◌==◌,
  ==_iff, if◌then◌else◌, Bool-cases, Option-cases, arith,
}
use ferrisetw.Trace.Registry.{
  ProviderRegistry, retain, contains, empty, or_default, unless_empty, add, remove_all_by_guid,
  remove_one,
}

module _ (guid : ℕ → ℕ) where
  -- The providers of one GUID, in registration order.
  abbrev pub select : ℕ → List ℕ → List ℕ
  select g ps = retain (λ p. guid p == g) ps

  -- Under each GUID the index has the providers of that GUID, and no entry where there are none.
  unfoldable pub IsIndexed : ProviderRegistry → Type 0
  IsIndexed r = (g : ℕ) → r.by_guid g ≡ unless_empty (select g r.providers)

  pub empty-IsIndexed : IsIndexed empty
  unfolding IsIndexed
  empty-IsIndexed g = refl

  select-append :
      (g p : ℕ) (ps : List ℕ)
      → select g (ps ++ p ∷ []) ≡ (if guid p == g then select g ps ++ p ∷ [] else select g ps)
  select-append g p [] = refl
  select-append g p (q ∷ qs) = let rest = select-append g p qs in ground arith

  other_key : (g k q : ℕ) → (k == g) ≡ false → (guid q == g) ≡ true → (guid q == k) ≡ false
  other_key g k q other e = ground arith

  flip : (a b : ℕ) → (a == b) ≡ false → (b == a) ≡ false
  flip a b e = ground arith

  pub equal_tests : (a b : ℕ) → a ≡ b → (a == b) ≡ true
  equal_tests a b e = ground arith

  select_removed : (g : ℕ) (ps : List ℕ) → select g (retain (λ p. not (guid p == g)) ps) ≡ []
  select_removed g [] = refl
  select_removed g (q ∷ qs) = elim (Bool-cases (guid q == g)) [
    | inl e ↦ rw (e) (select_removed g qs)
    | inr e ↦ rw (e, e) (select_removed g qs)
  ]

  select_other :
      (g k : ℕ) (ps : List ℕ)
      → (k == g) ≡ false
      → select k (retain (λ p. not (guid p == g)) ps) ≡ select k ps
  select_other g k [] other = refl
  select_other g k (q ∷ qs) other = elim (Bool-cases (guid q == g)) [
    | inl e ↦ rw (e, other_key g k q other e) (select_other g k qs other)
    | inr e ↦
        rw (e) (ap (λ rest. if guid q == k then q ∷ rest else rest) (select_other g k qs other))
  ]

  retain_swap : (f h : ℕ → Bool) (ps : List ℕ) → retain f (retain h ps) ≡ retain h (retain f ps)
  retain_swap f h [] = refl
  retain_swap f h (q ∷ qs) = elim (Bool-cases (f q)) [
    | inl e ↦ elim (Bool-cases (h q)) [
      | inl e' ↦ rw (e, e', e) (ap (λ rest. q ∷ rest) (retain_swap f h qs))
      | inr e' ↦ rw (e, e') (retain_swap f h qs)
    ]
    | inr e ↦ elim (Bool-cases (h q)) [
      | inl e' ↦ rw (e, e', e) (retain_swap f h qs)
      | inr e' ↦ rw (e, e') (retain_swap f h qs)
    ]
  ]

  other_address : (k p q : ℕ) → (k == guid p) ≡ false → (q == p) ≡ true → (guid q == k) ≡ false
  other_address k p q other e =
      let same : q ≡ p = (==_iff q p).0 e in rw (same) (flip k (guid p) other)

  select_elsewhere :
      (k p : ℕ) (ps : List ℕ)
      → (k == guid p) ≡ false
      → select k (retain (λ q. not (q == p)) ps) ≡ select k ps
  select_elsewhere k p [] other = refl
  select_elsewhere k p (q ∷ qs) other = elim (Bool-cases (q == p)) [
    | inl e ↦ rw (e, other_address k p q other e) (select_elsewhere k p qs other)
    | inr e ↦
        rw (e) (ap (λ rest. if guid q == k then q ∷ rest else rest) (select_elsewhere k p qs other))
  ]

  pub or_default_unless : (ps : List ℕ) → or_default (unless_empty ps) ≡ ps
  or_default_unless [] = refl
  or_default_unless (p ∷ ps) = refl

  unless_empty_push : (ps : List ℕ) (p : ℕ) → some (ps ++ p ∷ []) ≡ unless_empty (ps ++ p ∷ [])
  unless_empty_push [] p = refl
  unless_empty_push (q ∷ qs) p = refl

  entries_eq : (es ps : List ℕ) → some es ≡ unless_empty ps → ps ≡ es
  entries_eq es [] e = cc
  entries_eq es (p ∷ ps) e = cc

  pub add-IsIndexed : (p : ℕ) (r : ProviderRegistry) → IsIndexed r → IsIndexed (add guid p r)
  unfolding IsIndexed add
  add-IsIndexed p r t k = elim (Bool-cases (k == guid p)) [
    | inl e ↦
        let same : k ≡ guid p = (==_iff k (guid p)).0 e in
        rw
          (
            e,
            select-append k p r.providers,
            equal_tests (guid p) k (sym same),
            sym same,
            t k,
            or_default_unless (select k r.providers),
          )
          (unless_empty_push (select k r.providers) p)
    | inr e ↦ rw (e, select-append k p r.providers, flip k (guid p) e) (t k)
  ]

  pub remove_all-IsIndexed :
      (g : ℕ) (r : ProviderRegistry) → IsIndexed r → IsIndexed (remove_all_by_guid guid g r).1
  unfolding IsIndexed remove_all_by_guid
  remove_all-IsIndexed g r t k = elim (Option-cases (r.by_guid g)) [
    | inl f ↦ rw (f, remove_all_by_guid) (t k)
    | inr (entries, f) ↦ elim (Bool-cases (k == g)) [
      | inl e ↦
          let same : k ≡ g = (==_iff k g).0 e in
          rw (f, e, same, select_removed g r.providers, remove_all_by_guid) refl
      | inr e ↦ rw (f, e, select_other g k r.providers e, remove_all_by_guid) (t k)
    ]
  ]

  pub remove_one-IsIndexed :
      (p : ℕ) (r : ProviderRegistry) → IsIndexed r → IsIndexed (remove_one guid p r).1
  unfolding IsIndexed remove_one
  remove_one-IsIndexed p r t k = elim (Option-cases (r.by_guid (guid p))) [
    | inl f ↦ rw (f, remove_one) (t k)
    | inr (entries, f) ↦ elim (Bool-cases (contains p entries)) [
      | inr c ↦ rw (f, c, remove_one) (t k)
      | inl c ↦ elim (Bool-cases (k == guid p)) [
        | inl e ↦
            let same : k ≡ guid p = (==_iff k (guid p)).0 e in
            let here : some entries ≡ unless_empty (select k r.providers) =
              sym f ∙ ap r.by_guid (sym same) ∙ t k in
            rw
              (
                f,
                c,
                e,
                retain_swap (λ q. guid q == k) (λ q. not (q == p)) r.providers,
                entries_eq entries (select k r.providers) here,
                remove_one,
              )
              refl
        | inr e ↦ rw (f, c, e, select_elsewhere k p r.providers e, remove_one) (t k)
      ]
    ]
  ]
