-- ===== src/Tdh/Lengths.antt =====
-- src/native/tdh_types.rs: `PropertyCount` and `PropertyLength`, a literal or the index of the
-- property that holds the value, and the value that such a carrier holds.
use ferrisetw.Base.{ℕ, List, [], ◌∷◌, Option, none, some, from_le_bytes}

pub data PropertyCount : Type 0 where
  count : ℕ → PropertyCount
  index : ℕ → PropertyCount

pub data PropertyLength : Type 0 where
  length : ℕ → PropertyLength
  index : ℕ → PropertyLength

-- The bytes of a carrier are read by their number: 1, 2, 4 or 8. A `usize` has 64 bits, so that
-- `usize::try_from` accepts each of these values.
unfoldable pub index_value_from_bytes : List ℕ → Option ℕ
index_value_from_bytes (a ∷ []) = some a
index_value_from_bytes (a ∷ b ∷ []) = some (from_le_bytes (a ∷ b ∷ []))
index_value_from_bytes (a ∷ b ∷ c ∷ d ∷ []) = some (from_le_bytes (a ∷ b ∷ c ∷ d ∷ []))
index_value_from_bytes (a ∷ b ∷ c ∷ d ∷ e ∷ f ∷ g ∷ h ∷ []) =
    some (from_le_bytes (a ∷ b ∷ c ∷ d ∷ e ∷ f ∷ g ∷ h ∷ []))
index_value_from_bytes _ = none
