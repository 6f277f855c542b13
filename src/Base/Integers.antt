-- ===== src/Base/Integers.antt =====
-- Signed integers over the native numbers, and the two's complement reading of a machine word.
use Prim.Native.Nat.{ℕ, zero, suc, ◌+◌, ◌-◌, ◌*◌, ◌/◌, ◌^◌, ◌≤◌, min}
use mathlib.Core.Path.{◌≡◌, refl}
use native.Mathlib.Omega.{arith}
use ferrisetw.Base.Tests.{ltb, if◌then◌else◌}

-- `pos n` is n and `negsuc n` is -(n + 1).
pub data ℤ : Type 0 where
  pos negsuc : ℕ → ℤ

-- The word n of w + 1 bits as a signed integer.
abbrev pub to_signed : ℕ → ℕ → ℤ
to_signed w n = if ltb n (2 ^ w) then pos n else negsuc (2 ^ (w + 1) - 1 - n)

abbrev pub ◌-ℕ◌ : ℕ → ℕ → ℤ
a -ℕ b = if ltb a b then negsuc (b - a - 1) else pos (a - b)

-- -n
abbrev pub negate_ℕ : ℕ → ℤ
negate_ℕ zero = pos 0
negate_ℕ (suc n) = negsuc n

infixl 65 ◌+ℤ◌ ◌-ℤ◌ ◌-ℕ◌
infixl 70 ◌*ℤ◌ ◌/ℤ◌
abbrev pub ◌+ℤ◌ : ℤ → ℤ → ℤ
pos a +ℤ pos b = pos (a + b)
pos a +ℤ negsuc b = a -ℕ suc b
negsuc a +ℤ pos b = b -ℕ suc a
negsuc a +ℤ negsuc b = negsuc (suc (a + b))

abbrev pub ◌-ℤ◌ : ℤ → ℤ → ℤ
a -ℤ pos b = a +ℤ negate_ℕ b
a -ℤ negsuc b = a +ℤ pos (suc b)

abbrev pub ◌*ℤ◌ : ℤ → ℤ → ℤ
pos a *ℤ pos b = pos (a * b)
pos a *ℤ negsuc b = negate_ℕ (a * suc b)
negsuc a *ℤ pos b = negate_ℕ (suc a * b)
negsuc a *ℤ negsuc b = pos (suc a * suc b)

-- The quotient by a positive number, rounded towards zero.
abbrev pub ◌/ℤ◌ : ℤ → ℕ → ℤ
pos a /ℤ n = pos (a / n)
negsuc a /ℤ n = negate_ℕ (suc a / n)

-- The nearest number of w + 1 bits.
abbrev pub saturate : ℕ → ℤ → ℤ
saturate w (pos n) = pos (min n (2 ^ w - 1))
saturate w (negsuc n) = negsuc (min n (2 ^ w - 1))

pub -ℕ_ge : (a b : ℕ) → b ≤ a → a -ℕ b ≡ pos (a - b)
-ℕ_ge a b h = ground arith

pub -ℤ-pos : (a b : ℕ) → pos a -ℤ pos b ≡ a -ℕ b
-ℤ-pos a zero = ground arith
-ℤ-pos a (suc b) = refl
