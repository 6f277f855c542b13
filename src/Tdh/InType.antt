-- ===== src/Tdh/InType.antt =====
-- src/native/tdh_types.rs: `TdhInType`, its discriminants and the size rules of tdh.h.
-- A `usize` has 64 bits: `checked_mul` fails from 2 ^ 64 on.
use ferrisetw.Base.{
  ℕ, ◌*◌, ◌^◌, ◌<◌, ◌≡◌, refl, Bool, true, false, Option, none, some, List, [], ◌∷◌, ltb, ◌==◌,
  if◌then◌else◌, arith, get_or_none, ◌↔◌,
}

pub data TdhInType : Type 0 where
  null unicode_string ansi_string : TdhInType
  int8 uint8 int16 uint16 int32 uint32 int64 uint64 : TdhInType
  float double boolean binary guid pointer file_time system_time sid : TdhInType
  hex_int32 hex_int64 : TdhInType
  manifest_counted_string manifest_counted_ansi_string manifest_counted_binary : TdhInType
  counted_string counted_ansi_string : TdhInType
  reversed_counted_string reversed_counted_ansi_string : TdhInType
  non_null_terminated_string non_null_terminated_ansi_string : TdhInType
  unicode_char ansi_char size_t hex_dump wbem_sid : TdhInType

-- The `#[repr(u16)]` discriminants.
unfoldable pub to_u16 : TdhInType → ℕ
to_u16 null = 0
to_u16 unicode_string = 1
to_u16 ansi_string = 2
to_u16 int8 = 3
to_u16 uint8 = 4
to_u16 int16 = 5
to_u16 uint16 = 6
to_u16 int32 = 7
to_u16 uint32 = 8
to_u16 int64 = 9
to_u16 uint64 = 10
to_u16 float = 11
to_u16 double = 12
to_u16 boolean = 13
to_u16 binary = 14
to_u16 guid = 15
to_u16 pointer = 16
to_u16 file_time = 17
to_u16 system_time = 18
to_u16 sid = 19
to_u16 hex_int32 = 20
to_u16 hex_int64 = 21
to_u16 manifest_counted_string = 22
to_u16 manifest_counted_ansi_string = 23
to_u16 manifest_counted_binary = 25
to_u16 counted_string = 300
to_u16 counted_ansi_string = 301
to_u16 reversed_counted_string = 302
to_u16 reversed_counted_ansi_string = 303
to_u16 non_null_terminated_string = 304
to_u16 non_null_terminated_ansi_string = 305
to_u16 unicode_char = 306
to_u16 ansi_char = 307
to_u16 size_t = 308
to_u16 hex_dump = 309
to_u16 wbem_sid = 310

abbrev in_types : List TdhInType
in_types =
    null ∷ unicode_string ∷ ansi_string ∷ int8 ∷ uint8 ∷ int16 ∷ uint16 ∷ int32 ∷ uint32 ∷ int64
    ∷ uint64 ∷ float ∷ double ∷ boolean ∷ binary ∷ guid ∷ pointer ∷ file_time ∷ system_time ∷ sid
    ∷ hex_int32 ∷ hex_int64 ∷ manifest_counted_string ∷ manifest_counted_ansi_string
    ∷ manifest_counted_binary ∷ counted_string ∷ counted_ansi_string ∷ reversed_counted_string
    ∷ reversed_counted_ansi_string ∷ non_null_terminated_string ∷ non_null_terminated_ansi_string
    ∷ unicode_char ∷ ansi_char ∷ size_t ∷ hex_dump ∷ wbem_sid ∷ []

-- The derived `FromPrimitive::from_u16`: the type that has this discriminant.
find_u16 : ℕ → List TdhInType → Option TdhInType
find_u16 n [] = none
find_u16 n (t ∷ ts) = if to_u16 t == n then some t else find_u16 n ts

unfoldable pub from_u16 : ℕ → Option TdhInType
unfolding find_u16 to_u16
from_u16 n = find_u16 n in_types

abbrev pub usize_mod : ℕ
usize_mod = 2 ^ 64

-- `usize::checked_mul`.
abbrev pub checked_mul : ℕ → ℕ → Option ℕ
checked_mul a b = if ltb (a * b) usize_mod then some (a * b) else none

-- `matches!(in_type, InTypePointer | InTypeSizeT)`
abbrev pub is_pointer : TdhInType → Bool
is_pointer pointer = true
is_pointer size_t = true
is_pointer _ = false

unfoldable pub schema_length_bytes : TdhInType → ℕ → Option ℕ
schema_length_bytes unicode_string l = checked_mul l 2
schema_length_bytes _ l = some l

-- The source expects a value here and panics without one: the 0 of `get_or_none` stands for that
-- panic, which no `u16` reaches.
unfoldable pub literal_schema_length_bytes : TdhInType → ℕ → ℕ
unfolding schema_length_bytes
literal_schema_length_bytes t l = get_or_none (schema_length_bytes t l) 0

abbrev pub is_content_sized : TdhInType → Bool
is_content_sized manifest_counted_string = true
is_content_sized counted_string = true
is_content_sized manifest_counted_ansi_string = true
is_content_sized counted_ansi_string = true
is_content_sized reversed_counted_string = true
is_content_sized reversed_counted_ansi_string = true
is_content_sized manifest_counted_binary = true
is_content_sized non_null_terminated_string = true
is_content_sized non_null_terminated_ansi_string = true
is_content_sized sid = true
is_content_sized wbem_sid = true
is_content_sized hex_dump = true
is_content_sized _ = false

abbrev pub fixed_size : TdhInType → Option ℕ
fixed_size int8 = some 1
fixed_size uint8 = some 1
fixed_size ansi_char = some 1
fixed_size int16 = some 2
fixed_size uint16 = some 2
fixed_size unicode_char = some 2
fixed_size int32 = some 4
fixed_size uint32 = some 4
fixed_size float = some 4
fixed_size boolean = some 4
fixed_size hex_int32 = some 4
fixed_size int64 = some 8
fixed_size uint64 = some 8
fixed_size double = some 8
fixed_size file_time = some 8
fixed_size hex_int64 = some 8
fixed_size guid = some 16
fixed_size system_time = some 16
fixed_size _ = none

-- A literal length never overflows: `literal_schema_length_bytes` is the value of
-- `schema_length_bytes`, which its `expect` therefore finds.
pub literal_schema_length_bytes-eq :
    (t : TdhInType) (l : ℕ)
    → l < 2 ^ 16
    → schema_length_bytes t l ≡ some (literal_schema_length_bytes t l)
unfolding literal_schema_length_bytes
literal_schema_length_bytes-eq unicode_string l h = ground arith
literal_schema_length_bytes-eq _ l h = refl

find_u16_sound :
    (n : ℕ) (t : TdhInType) (ts : List TdhInType) → find_u16 n ts ≡ some t → to_u16 t ≡ n
unfolding find_u16
find_u16_sound n t [] e = cc
find_u16_sound n t (u ∷ ts) e = ground (arith, find_u16_sound n t ts)

from_u16-to_u16 : (t : TdhInType) → from_u16 (to_u16 t) ≡ some t
unfolding from_u16
from_u16-to_u16 null = refl
from_u16-to_u16 _ = refl

-- `from_u16` inverts the discriminants: a number decodes to a type exactly when it is the
-- discriminant of that type.
from_u16_iff : (n : ℕ) (t : TdhInType) → (from_u16 n ≡ some t) ↔ (to_u16 t ≡ n)
from_u16_iff n t =
    (unfold from_u16 in find_u16_sound n t in_types, λ e. rw (← e) (from_u16-to_u16 t))
