-- ===== src/Native/Time/Quad.antt =====
-- src/native/time.rs: the halves of a file time and the number that they make.
use ferrisetw.Base.{ℕ, ◌^◌, ◌<◌, ◌≡◌, List, [], ◌∷◌, length, from_le_bytes, arith}
use ferrisetw.Native.Time.{as_quad, from_quad, file_time_from_slice}

-- Splitting the 64 bits of a file time into its two halves loses nothing.
pub as_quad-from_quad : (q : ℕ) → q < 2 ^ 64 → as_quad (from_quad q) ≡ q
unfolding as_quad from_quad
as_quad-from_quad q h = omega arith

-- The eight bytes of a file time are read as one little-endian number of 64 bits.
pub as_quad-from_slice :
    (bytes : List ℕ) → length bytes ≡ 8 → as_quad (file_time_from_slice bytes) ≡ from_le_bytes bytes
unfolding as_quad file_time_from_slice
as_quad-from_slice (a ∷ b ∷ c ∷ d ∷ e ∷ f ∷ g ∷ h ∷ []) len = omega arith
as_quad-from_slice _ len = omega arith
