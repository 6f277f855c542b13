-- ===== src/Base/Assoc.antt =====
-- Association lists, for hash maps whose number of entries matters.
use mathlib.Core.Path.{◌≡◌, refl}
use mathlib.Core.Logic.{◌↔◌, inl, inr}
use mathlib.Core.Bool.{Bool, true, false}
use mathlib.Core.Option.{Option, none, some}
use mathlib.Core.List.{List, [], ◌∷◌}
use ferrisetw.Base.Tests.{Bool-cases, if◌then◌else◌}

-- The test of equal keys, and what it decides.
pub record SameKey {ℓ} (K : Type ℓ) : Type ℓ where
  pub same : K → K → Bool
  pub same_iff : (j k : K) → (same j k ≡ true) ↔ (j ≡ k)

module _ {ℓ κ} {K : Type ℓ} {V : Type κ} (sk : SameKey K) where
  open sk use {same, same_iff}

  unfoldable pub find : K → List (K × V) → Option V
  find k [] = none
  find k ((j, v) ∷ m) = let rest = find k m in if same j k then some v else rest

  -- The entry of a key gets a new value, or the key is added.
  unfoldable pub set : K → V → List (K × V) → List (K × V)
  set k v [] = (k, v) ∷ []
  set k v ((j, w) ∷ m) = let rest = set k v m in if same j k then (j, v) ∷ m else (j, w) ∷ rest

  pub find-set : (k : K) (v : V) (m : List (K × V)) → find k (set k v m) ≡ some v
  unfolding find set
  find-set k v [] = rw ((same_iff k k).1 refl) refl
  find-set k v ((j, w) ∷ m) = elim (Bool-cases (same j k)) [
    | inl e ↦ rw (e, e) refl
    | inr e ↦ rw (e, e) (find-set k v m)
  ]

  pub find-set_other :
      (j k : K) (v : V) (m : List (K × V)) → same k j ≡ false → find j (set k v m) ≡ find j m
  unfolding find set
  find-set_other j k v [] other = rw (other) refl
  find-set_other j k v ((i, w) ∷ m) other = elim (Bool-cases (same i k)) [
    | inl e ↦ let h : same i j ≡ false = rw ((same_iff i k).0 e) other in rw (e, h) refl
    | inr e ↦ elim (Bool-cases (same i j)) [
      | inl f ↦ rw (e, f) refl
      | inr f ↦ rw (e, f) (find-set_other j k v m other)
    ]
  ]
