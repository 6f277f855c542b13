-- ===== src/Ser/Guid.antt =====
-- src/ser.rs: `guid_to_ascii_upper` and `GUIDExt`.
-- Children: Text (the text read back).
pub mod Text
use ferrisetw.Base.{
  ℕ, zero, suc, ◌+◌, ◌-◌, ◌*◌, ◌/◌, ◌%◌, Bool, List, [], ◌∷◌, ◌++◌, ltb, if◌then◌else◌, get_or,
  take, drop,
}
use ferrisetw.Parser.Scalars.{Guid, unsigned}
use ferrisetw.Ser.Handlers.{number, text}
use ferrisetw.Ser.Struct.{Json, leaf, sequence, Elements, stop, element}

-- "0123456789ABCDEF"
abbrev pub hex_table : List ℕ
hex_table = 48 ∷ 49 ∷ 50 ∷ 51 ∷ 52 ∷ 53 ∷ 54 ∷ 55 ∷ 56 ∷ 57 ∷ 65 ∷ 66 ∷ 67 ∷ 68 ∷ 69 ∷ 70 ∷ []

abbrev pub hex_digit : ℕ → ℕ
hex_digit n = get_or hex_table n 0

-- `u32::to_be_bytes` and `u16::to_be_bytes`
abbrev pub be_bytes4 : ℕ → List ℕ
be_bytes4 n = (n / 16777216 % 256) ∷ (n / 65536 % 256) ∷ (n / 256 % 256) ∷ (n % 256) ∷ []

abbrev pub be_bytes2 : ℕ → List ℕ
be_bytes2 n = (n / 256 % 256) ∷ (n % 256) ∷ []

abbrev pub write_bytes : List ℕ → List ℕ
write_bytes [] = []
write_bytes (b ∷ bytes) = hex_digit (b / 16) ∷ hex_digit (b % 16) ∷ write_bytes bytes

-- The groups after the first one; a hyphen, 45, stands before each.
abbrev pub write_groups : List ℕ → List ℕ → List ℕ
write_groups [] bytes = []
write_groups (len ∷ lens) bytes =
    45 ∷ (write_bytes (take len bytes) ++ write_groups lens (drop len bytes))

unfoldable pub guid_to_ascii_upper : Guid → List ℕ
guid_to_ascii_upper guid =
    let bytes =
      be_bytes4 guid.data1 ++ be_bytes2 guid.data2 ++ be_bytes2 guid.data3 ++ guid.data4 in
    write_bytes (take 4 bytes) ++ write_groups (2 ∷ 2 ∷ 2 ∷ 6 ∷ []) (drop 4 bytes)

abbrev numbers_of : List ℕ → Elements
numbers_of [] = stop
numbers_of (b ∷ bytes) = element (leaf (number (unsigned b))) (numbers_of bytes)

-- `GUIDExt`, for a format that is read by people or not.
unfoldable pub guid_ext : Bool → Guid → Json
unfolding guid_to_ascii_upper
guid_ext is_human_readable guid =
    if is_human_readable
    then leaf (text (guid_to_ascii_upper guid))
    else sequence (
        element (leaf (number (unsigned guid.data1))) (
          element (leaf (number (unsigned guid.data2))) (
            element (leaf (number (unsigned guid.data3)))
              (element (sequence (numbers_of guid.data4)) stop))))
