-- ===== src/Parser/SocketAddress/Laws.antt =====
-- src/parser/socket_address.rs: address families and the leading part of a `sockaddr`.
use ferrisetw.Base.{ℕ, ◌+◌, ◌*◌, ◌≡◌, List, [], ◌∷◌, length, leb, if◌then◌else◌, arith}
use ferrisetw.Parser.Result.{ok}
use ferrisetw.Parser.SocketAddress.{
  TdhSocketAddress, inet, ipv4, as_u16, from_u16, from_property_buffer,
}

-- Every number of a family is kept: it can be read back from the decoded family.
pub as_u16-from_u16 : (raw : ℕ) → as_u16 (from_u16 raw) ≡ raw
unfolding from_u16
as_u16-from_u16 raw = ground arith

-- A complete IPv4 sockaddr gives the port in network order and the address, whatever is appended
-- to it; one that is cut short keeps its family and its raw bytes and is not an error.
from_property_buffer-inet :
    (p q a b c d : ℕ) (rest : List ℕ)
    → from_property_buffer (2 ∷ 0 ∷ p ∷ q ∷ a ∷ b ∷ c ∷ d ∷ rest)
      ≡ ok (
          if leb 8 (length rest)
          then ipv4 (a ∷ b ∷ c ∷ d ∷ []) (256 * p + q)
          else TdhSocketAddress.other inet (2 ∷ 0 ∷ p ∷ q ∷ a ∷ b ∷ c ∷ d ∷ rest))
unfolding from_property_buffer
from_property_buffer-inet p q a b c d rest = ground arith
