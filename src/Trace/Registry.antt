-- ===== src/Trace/Registry.antt =====
-- src/trace/callback_data.rs: `ProviderRegistry`. A provider is shared as an `Arc`: it is the
-- address of its allocation, which `Arc::ptr_eq` compares, and `guid` reads the GUID that is
-- stored there, which never changes.
pub mod Index
pub mod Refine
pub mod Rollback
use ferrisetw.Base.{
  ℕ, zero, suc, Bool, true, false, not, ◌||◌, Option, none, some, List, [], ◌∷◌, ◌++◌, ◌==◌,
  if◌then◌else◌, length,
}

-- `Vec::retain`
abbrev pub retain : (ℕ → Bool) → List ℕ → List ℕ
retain keep [] = []
retain keep (p ∷ ps) = let rest = retain keep ps in if keep p then p ∷ rest else rest

abbrev pub contains : ℕ → List ℕ → Bool
contains p [] = false
contains p (q ∷ qs) = (q == p) || contains p qs

abbrev pub Index : Type 0
Index = ℕ → Option (List ℕ)

abbrev pub insert : ℕ → Option (List ℕ) → Index → Index
insert g entries by_guid k = if k == g then entries else by_guid k

pub record ProviderRegistry : Type 0 where
  pub providers : List ℕ
  pub by_guid : Index

abbrev pub empty : ProviderRegistry
empty = record { providers = []; by_guid = λ g. none }

-- `entry(..).or_default()`
abbrev pub or_default : Option (List ℕ) → List ℕ
or_default none = []
or_default (some entries) = entries

-- The key is removed where no entry is left.
abbrev pub unless_empty : List ℕ → Option (List ℕ)
unless_empty [] = none
unless_empty (p ∷ ps) = some (p ∷ ps)

-- `has_provider_with_guid`
abbrev pub is_registered : ℕ → ProviderRegistry → Bool
is_registered guid registry = elim (registry.by_guid guid) [ none ↦ false | some entries ↦ true ]

module _ (guid : ℕ → ℕ) where
  unfoldable pub add : ℕ → ProviderRegistry → ProviderRegistry
  add p r = record {
    providers = r.providers ++ p ∷ [];
    by_guid = insert (guid p) (some (or_default (r.by_guid (guid p)) ++ p ∷ [])) r.by_guid;
  }

  unfoldable pub remove_all_by_guid : ℕ → ProviderRegistry → ℕ × ProviderRegistry
  remove_all_by_guid g r = elim (r.by_guid g) [
    | none ↦ (0, r)
    | some entries ↦ (
      length entries,
      record {
        providers = retain (λ p. not (guid p == g)) r.providers;
        by_guid = insert g none r.by_guid;
      },
    )
  ]

  unfoldable pub remove_one : ℕ → ProviderRegistry → Bool × ProviderRegistry
  remove_one p r = elim (r.by_guid (guid p)) [
    | none ↦ (false, r)
    | some entries ↦
        if contains p entries
        then (
          true,
          record {
            providers = retain (λ q. not (q == p)) r.providers;
            by_guid = insert (guid p) (unless_empty (retain (λ q. not (q == p)) entries)) r.by_guid;
          },
        )
        else (false, r)
  ]

  -- The providers whose callbacks an event of the provider `g` runs, in their order.
  unfoldable pub dispatch : ℕ → ProviderRegistry → List ℕ
  dispatch g r = or_default (r.by_guid g)

pub data Operation : Type 0 where
  register unregister_all roll_back : ℕ → Operation

unfoldable pub apply : (ℕ → ℕ) → Operation → ProviderRegistry → ProviderRegistry
unfolding add remove_all_by_guid remove_one
apply guid (register p) r = add guid p r
apply guid (unregister_all g) r = (remove_all_by_guid guid g r).1
apply guid (roll_back p) r = (remove_one guid p r).1

unfoldable pub apply_all : (ℕ → ℕ) → List Operation → ProviderRegistry → ProviderRegistry
unfolding apply
apply_all guid [] r = r
apply_all guid (o ∷ os) r = apply_all guid os (apply guid o r)
