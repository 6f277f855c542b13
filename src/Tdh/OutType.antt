-- ===== src/Tdh/OutType.antt =====
-- src/native/tdh_types.rs: `TdhOutType` and its discriminants.
use ferrisetw.Base.{
  ℕ, ◌≡◌, refl, Option, none, some, List, [], ◌∷◌, ◌==◌, if◌then◌else◌, arith, ◌↔◌,
}

pub data TdhOutType : Type 0 where
  null string date_time int8 uint8 int16 uint16 int32 uint32 : TdhOutType
  int64 uint64 float double boolean guid hex_binary hex_int8 hex_int16 : TdhOutType
  hex_int32 hex_int64 pid tid port ipv4 ipv6 socket_address win32_error : TdhOutType
  nt_status h_result json utf8 pkcs7 code_pointer datetime_utc : TdhOutType

-- The `#[repr(u16)]` discriminants.
unfoldable pub to_u16 : TdhOutType → ℕ
to_u16 null = 0
to_u16 string = 1
to_u16 date_time = 2
to_u16 int8 = 3
to_u16 uint8 = 4
to_u16 int16 = 5
to_u16 uint16 = 6
to_u16 int32 = 7
to_u16 uint32 = 8
to_u16 int64 = 9
to_u16 uint64 = 10
to_u16 float = 11
to_u16 double = 12
to_u16 boolean = 13
to_u16 guid = 14
to_u16 hex_binary = 15
to_u16 hex_int8 = 16
to_u16 hex_int16 = 17
to_u16 hex_int32 = 18
to_u16 hex_int64 = 19
to_u16 pid = 20
to_u16 tid = 21
to_u16 port = 22
to_u16 ipv4 = 23
to_u16 ipv6 = 24
to_u16 socket_address = 25
to_u16 win32_error = 30
to_u16 nt_status = 31
to_u16 h_result = 32
to_u16 json = 34
to_u16 utf8 = 35
to_u16 pkcs7 = 36
to_u16 code_pointer = 37
to_u16 datetime_utc = 38

abbrev out_types : List TdhOutType
out_types =
    null ∷ string ∷ date_time ∷ int8 ∷ uint8 ∷ int16 ∷ uint16 ∷ int32 ∷ uint32 ∷ int64 ∷ uint64
    ∷ float ∷ double ∷ boolean ∷ guid ∷ hex_binary ∷ hex_int8 ∷ hex_int16 ∷ hex_int32 ∷ hex_int64
    ∷ pid ∷ tid ∷ port ∷ ipv4 ∷ ipv6 ∷ socket_address ∷ win32_error ∷ nt_status ∷ h_result ∷ json
    ∷ utf8 ∷ pkcs7 ∷ code_pointer ∷ datetime_utc ∷ []

-- The derived `FromPrimitive::from_u16`: the type that has this discriminant.
find_u16 : ℕ → List TdhOutType → Option TdhOutType
find_u16 n [] = none
find_u16 n (t ∷ ts) = if to_u16 t == n then some t else find_u16 n ts

unfoldable pub from_u16 : ℕ → Option TdhOutType
unfolding find_u16 to_u16
from_u16 n = find_u16 n out_types

find_u16_sound :
    (n : ℕ) (t : TdhOutType) (ts : List TdhOutType) → find_u16 n ts ≡ some t → to_u16 t ≡ n
unfolding find_u16
find_u16_sound n t [] e = cc
find_u16_sound n t (u ∷ ts) e = ground (arith, find_u16_sound n t ts)

from_u16-to_u16 : (t : TdhOutType) → from_u16 (to_u16 t) ≡ some t
unfolding from_u16
from_u16-to_u16 null = refl
from_u16-to_u16 _ = refl

-- A number decodes to an out type exactly when it is the discriminant of that out type.
pub discriminant_iff : (n : ℕ) (t : TdhOutType) → (from_u16 n ≡ some t) ↔ (to_u16 t ≡ n)
discriminant_iff n t =
    (unfold from_u16 in find_u16_sound n t out_types, λ e. rw (← e) (from_u16-to_u16 t))

pub TdhOutType-discrete : Discrete TdhOutType
TdhOutType-discrete = hlevel
