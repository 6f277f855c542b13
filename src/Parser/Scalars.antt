-- ===== src/Parser/Scalars.antt =====
-- src/parser.rs: the `TryParse` impls of numbers, arrays of numbers, GUIDs, addresses, booleans,
-- times, pointers and byte vectors.
use ferrisetw.Base.{
  ℕ, zero, suc, ◌+◌, ◌-◌, ◌/◌, ◌%◌, ◌^◌, ℤ, to_signed, Bool, true, false, not, ◌||◌, none, some,
  List, [], ◌∷◌, ltb, ◌==◌, if◌then◌else◌, length, take, drop, get_to, get_range, from_le_bytes,
}
use ferrisetw.Tdh.InType.{TdhInType, checked_mul}
use ferrisetw.Tdh.OutType.{TdhOutType}
use ferrisetw.Tdh.Property.{PropertyInfo, value, array}
use ferrisetw.Native.Time.{FileTime, SystemTime, file_time_from_slice, system_time_from_slice}
use ferrisetw.Parser.Result.{
  ParserResult, ok, err, ok_or, property_error, invalid_type, length_mismatch, slice_error,
}
use ferrisetw.Parser.SocketAddress.{TdhSocketAddress, from_property_buffer}

-- The types that the two macros are called with.
pub data Primitive : Type 0 where
  u8 i8 u16 i16 u32 i32 u64 i64 f32 f64 : Primitive

-- A float is kept as its bits.
pub data Number : Type 0 where
  unsigned : ℕ → Number
  signed : ℤ → Number
  float : ℕ → Number

abbrev pub size_of : Primitive → ℕ
size_of u8 = 1
size_of i8 = 1
size_of u16 = 2
size_of i16 = 2
size_of u32 = 4
size_of i32 = 4
size_of u64 = 8
size_of i64 = 8
size_of f32 = 4
size_of f64 = 8

-- `$T::from_ne_bytes`, of the bytes of one value.
abbrev pub from_ne_bytes : Primitive → List ℕ → Number
from_ne_bytes i8 bytes = signed (to_signed 7 (from_le_bytes bytes))
from_ne_bytes i16 bytes = signed (to_signed 15 (from_le_bytes bytes))
from_ne_bytes i32 bytes = signed (to_signed 31 (from_le_bytes bytes))
from_ne_bytes i64 bytes = signed (to_signed 63 (from_le_bytes bytes))
from_ne_bytes f32 bytes = float (from_le_bytes bytes)
from_ne_bytes f64 bytes = float (from_le_bytes bytes)
from_ne_bytes _ bytes = unsigned (from_le_bytes bytes)

unfoldable pub try_parse_primitive : Primitive → PropertyInfo → List ℕ → ParserResult Number
try_parse_primitive k (value t o l) buffer =
    if size_of k == length buffer then ok (from_ne_bytes k buffer) else err length_mismatch
try_parse_primitive k _ buffer = err invalid_type

-- The `count` values of `size` bytes each.
abbrev pub elements : Primitive → ℕ → List ℕ → List Number
elements k zero bytes = []
elements k (suc n) bytes =
    from_ne_bytes k (take (size_of k) bytes) ∷ elements k n (drop (size_of k) bytes)

-- `address` is where the buffer starts; the alignment of these types is their size. An `isize`
-- ends at 2 ^ 63 - 1.
unfoldable pub cast_array : Primitive → ℕ → List ℕ → ParserResult (List Number)
cast_array k address buffer =
    let count = length buffer / size_of k in
    if not (length buffer % size_of k == 0)
    then err length_mismatch
    else if not (address % size_of k == 0)
    then err (property_error "buffer alignment mismatch")
    else elim (checked_mul (size_of k) count) [
      | none ↦ err (property_error "size overflow")
      | some size ↦
          if ltb (2 ^ 63 - 1) size
          then err (property_error "size overflow")
          else ok (elements k count buffer)
    ]

unfoldable pub try_parse_array : Primitive → PropertyInfo → ℕ → List ℕ → ParserResult (List Number)
unfolding cast_array
try_parse_array k (array t o l c) address buffer = cast_array k address buffer
try_parse_array k _ address buffer = err invalid_type

pub record Guid : Type 0 where
  pub data1 : ℕ
  pub data2 : ℕ
  pub data3 : ℕ
  pub data4 : List ℕ

abbrev pub guid_from_bytes : List ℕ → Guid
guid_from_bytes b = record {
  data1 = from_le_bytes (take 4 b);
  data2 = from_le_bytes (take 2 (drop 4 b));
  data3 = from_le_bytes (take 2 (drop 6 b));
  data4 = drop 8 b;
}

abbrev is_guid : TdhInType → Bool
is_guid TdhInType.guid = true
is_guid _ = false

unfoldable pub try_parse_guid : PropertyInfo → List ℕ → ParserResult Guid
try_parse_guid (value t o l) buffer =
    if not (is_guid t)
    then err invalid_type
    else if not (length buffer == 16)
    then err length_mismatch
    else ok (guid_from_bytes buffer)
try_parse_guid _ buffer = err invalid_type

-- An address is the list of its bytes, as `octets` gives them.
pub data IpAddr : Type 0 where
  v4 v6 : List ℕ → IpAddr

abbrev ip_from_bytes : List ℕ → ParserResult IpAddr
ip_from_bytes buffer =
    if length buffer == 16
    then ok (v6 buffer)
    else if length buffer == 4
    then ok (v4 buffer)
    else err length_mismatch

unfoldable pub try_parse_ip_addr : PropertyInfo → List ℕ → ParserResult IpAddr
try_parse_ip_addr (value t TdhOutType.ipv4 l) buffer = ip_from_bytes buffer
try_parse_ip_addr (value t TdhOutType.ipv6 l) buffer = ip_from_bytes buffer
try_parse_ip_addr _ buffer = err invalid_type

-- One, four or eight bytes, of which one is not 0.
abbrev bool_from_bytes : List ℕ → ParserResult Bool
bool_from_bytes buffer =
    if length buffer == 1 || (length buffer == 4 || length buffer == 8)
    then ok (not (from_le_bytes buffer == 0))
    else err length_mismatch

unfoldable pub try_parse_bool : PropertyInfo → List ℕ → ParserResult Bool
try_parse_bool (value TdhInType.boolean o l) buffer = bool_from_bytes buffer
try_parse_bool _ buffer = err invalid_type

unfoldable pub try_parse_socket_address : PropertyInfo → List ℕ → ParserResult TdhSocketAddress
try_parse_socket_address (value t TdhOutType.socket_address l) buffer = from_property_buffer buffer
try_parse_socket_address _ buffer = err invalid_type

unfoldable pub try_parse_file_time : PropertyInfo → List ℕ → ParserResult FileTime
try_parse_file_time (value TdhInType.file_time o l) buffer =
    if length buffer == 8 then ok (file_time_from_slice buffer) else err slice_error
try_parse_file_time _ buffer = err invalid_type

unfoldable pub try_parse_system_time : PropertyInfo → List ℕ → ParserResult SystemTime
try_parse_system_time (value TdhInType.system_time o l) buffer =
    if length buffer == 16 then ok (system_time_from_slice buffer) else err slice_error
try_parse_system_time _ buffer = err invalid_type

unfoldable pub try_parse_pointer : PropertyInfo → List ℕ → ParserResult Number
unfolding try_parse_primitive
try_parse_pointer i buffer =
    if length buffer == 4
    then try_parse_primitive u32 i buffer
    else try_parse_primitive u64 i buffer

-- The payload that a count of `width` bytes precedes; the source calls it with 2 and 4.
unfoldable pub count_prefixed_binary : List ℕ → ℕ → ParserResult (List ℕ)
unfolding get_to get_range
count_prefixed_binary buffer width = elim (get_to width buffer) [
  | none ↦ err (property_error "counted binary does not have length")
  | some count_bytes ↦
      ok_or (get_range width (width + from_le_bytes count_bytes) buffer)
        (property_error "invalid counted binary length")
]

unfoldable pub try_parse_bytes : PropertyInfo → List ℕ → ParserResult (List ℕ)
unfolding count_prefixed_binary
try_parse_bytes (value TdhInType.manifest_counted_binary o l) buffer =
    count_prefixed_binary buffer 2
try_parse_bytes (value TdhInType.hex_dump o l) buffer = count_prefixed_binary buffer 4
try_parse_bytes _ buffer = ok buffer
