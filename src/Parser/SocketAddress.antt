-- ===== src/Parser/SocketAddress.antt =====
-- src/parser/socket_address.rs: `AddressFamily` and `TdhSocketAddress::from_property_buffer`.
pub mod Laws
use ferrisetw.Base.{
  ℕ, ◌-◌, Option, none, some, List, [], ◌∷◌, leb, ◌==◌, if◌then◌else◌, length, take, drop, get_to,
  from_le_bytes, from_be_bytes,
}
use ferrisetw.Parser.Result.{ParserResult, ok, err, length_mismatch}

pub data AddressFamily : Type 0 where
  unspecified inet inet6 : AddressFamily
  other : ℕ → AddressFamily

abbrev pub as_u16 : AddressFamily → ℕ
as_u16 unspecified = 0
as_u16 inet = 2
as_u16 inet6 = 23
as_u16 (other raw) = raw

unfoldable pub from_u16 : ℕ → AddressFamily
from_u16 raw =
    if raw == 0
    then unspecified
    else if raw == 2
    then inet
    else if raw == 23
    then inet6
    else other raw

-- An IP address is the list of its bytes, most significant first, as `octets` gives them.
pub data TdhSocketAddress : Type 0 where
  ipv4 : (ip : List ℕ) (port : ℕ) → TdhSocketAddress
  ipv6 : (ip : List ℕ) (port flow_info scope_id : ℕ) → TdhSocketAddress
  other : (family : AddressFamily) (raw : List ℕ) → TdhSocketAddress

-- `buffer[lo..hi]`, where the arms have checked that the buffer is long enough.
abbrev slice : ℕ → ℕ → List ℕ → List ℕ
slice lo hi buffer = take (hi - lo) (drop lo buffer)

unfoldable pub from_family : AddressFamily → List ℕ → TdhSocketAddress
from_family inet buffer =
    if leb 16 (length buffer)
    then ipv4 (slice 4 8 buffer) (from_be_bytes (slice 2 4 buffer))
    else other inet buffer
from_family inet6 buffer =
    if leb 28 (length buffer)
    then ipv6 (slice 8 24 buffer) (from_be_bytes (slice 2 4 buffer))
        (from_be_bytes (slice 4 8 buffer)) (from_be_bytes (slice 24 28 buffer))
    else other inet6 buffer
from_family family buffer = other family buffer

unfoldable pub from_property_buffer : List ℕ → ParserResult TdhSocketAddress
unfolding get_to from_u16 from_family
from_property_buffer buffer = elim (get_to 2 buffer) [
  | none ↦ err length_mismatch
  | some family_bytes ↦ ok (from_family (from_u16 (from_le_bytes family_bytes)) buffer)
]
