-- ===== src/Native/EtwTypes/Groupmask.antt =====
-- src/native/etw_types.rs: `PerfinfoGroupmask`, eight masks of 32 bits. The top three bits of a
-- group choose the mask.
use ferrisetw.Base.{
  ℕ, zero, suc, ◌-◌, ◌/◌, ◌%◌, ◌^◌, List, [], ◌∷◌, ◌++◌, take, drop, from_le_bytes,
}
use ferrisetw.Native.EtwTypes.Groups.{ExtendedKernelGroup, group_id}
use Prim.Native.Nat.{bit_and, bit_or}

abbrev pub mask_count : ℕ
mask_count = 8

abbrev pub mask_index : ℕ
mask_index = 0xe0000000

-- `masks[index] |= bits`; an index out of range, which panics, changes nothing here.
abbrev pub or_at : ℕ → ℕ → List ℕ → List ℕ
or_at index bits [] = []
or_at zero bits (m ∷ masks) = bit_or m bits ∷ masks
or_at (suc index) bits (m ∷ masks) = m ∷ or_at index bits masks

-- `!MASK_INDEX` is the complement in a `u32`.
unfoldable pub set_group : ℕ → List ℕ → List ℕ
set_group group masks =
    or_at (bit_and group mask_index / 2 ^ 29) (bit_and group (2 ^ 32 - 1 - mask_index)) masks

unfoldable pub set_groups : List ExtendedKernelGroup → List ℕ → List ℕ
unfolding set_group group_id
set_groups [] masks = masks
set_groups (group ∷ groups) masks = set_groups groups (set_group (group_id group) masks)

-- `from_bytes`: the masks that are left to read.
abbrev read_masks : ℕ → List ℕ → List ℕ
read_masks zero bytes = []
read_masks (suc n) bytes = from_le_bytes (take 4 bytes) ∷ read_masks n (drop 4 bytes)

unfoldable pub from_bytes : List ℕ → List ℕ
from_bytes bytes = read_masks mask_count bytes

abbrev pub u32_bytes : ℕ → List ℕ
u32_bytes n = (n % 256) ∷ (n / 256 % 256) ∷ (n / 65536 % 256) ∷ (n / 16777216 % 256) ∷ []

unfoldable pub as_bytes : List ℕ → List ℕ
as_bytes [] = []
as_bytes (m ∷ masks) = u32_bytes m ++ as_bytes masks
