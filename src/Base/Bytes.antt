-- ===== src/Base/Bytes.antt =====
-- Byte slices: the checked `get` of Rust slices, and integers read from their bytes.
use Prim.Native.Nat.{ℕ, ◌+◌, ◌-◌, ◌*◌, ◌<◌, ◌≤◌}
use mathlib.Core.Path.{◌≡◌}
use mathlib.Core.Logic.{◌⊎◌, inl, inr}
use mathlib.Core.Bool.{◌&&◌}
use mathlib.Core.List.{List, [], ◌∷◌, reverse}
use mathlib.Core.Option.{Option, none, some}
use ferrisetw.Base.Tests.{leb, leb→le, Bool-cases, if◌then◌else◌}
use ferrisetw.Base.Lists.{length, take, drop}

abbrev pub IsByte : ℕ → Type 0
IsByte b = b < 256

-- `slice.get(..n)`, `slice.get(n..)` and `slice.get(lo..hi)`.
module _ {ℓ} {A : Type ℓ} where
  unfoldable pub get_to : ℕ → List A → Option (List A)
  get_to n xs = if leb n (length xs) then some (take n xs) else none

  unfoldable pub get_from : ℕ → List A → Option (List A)
  get_from n xs = if leb n (length xs) then some (drop n xs) else none

  unfoldable pub get_range : ℕ → ℕ → List A → Option (List A)
  get_range lo hi xs =
      if leb lo hi && leb hi (length xs) then some (take (hi - lo) (drop lo xs)) else none

  -- A slice succeeds exactly when it is within bounds.
  pub get_to-cases :
      (n : ℕ) (xs : List A)
      → (get_to n xs ≡ none) ⊎ ((n ≤ length xs) × (get_to n xs ≡ some (take n xs)))
  unfolding get_to
  get_to-cases n xs = elim (Bool-cases (leb n (length xs))) [
    | inl e ↦ inr (leb→le _ _ e, rw e)
    | inr e ↦ inl (rw e)
  ]

  pub get_from-cases :
      (n : ℕ) (xs : List A)
      → (get_from n xs ≡ none) ⊎ ((n ≤ length xs) × (get_from n xs ≡ some (drop n xs)))
  unfolding get_from
  get_from-cases n xs = elim (Bool-cases (leb n (length xs))) [
    | inl e ↦ inr (leb→le _ _ e, rw e)
    | inr e ↦ inl (rw e)
  ]

-- `uN::from_le_bytes`: the first byte is the lowest. The targets are little-endian, so
-- `from_ne_bytes` is the same function.
abbrev pub from_le_bytes : List ℕ → ℕ
from_le_bytes [] = 0
from_le_bytes (b ∷ bs) = b + 256 * from_le_bytes bs

-- `uN::from_be_bytes`: the first byte is the highest.
abbrev pub from_be_bytes : List ℕ → ℕ
from_be_bytes bs = from_le_bytes (reverse bs)
