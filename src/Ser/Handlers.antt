-- ===== src/Ser/Handlers.antt =====
-- src/ser.rs: `PropHandler`, `PropSerable::get_parser` and `PropHandler::ser_from_bytes`.
use ferrisetw.Base.{ℕ, Bool, Option, none, some, List, ◌==◌, if◌then◌else◌}
use ferrisetw.Tdh.InType.{TdhInType}
use ferrisetw.Tdh.OutType.{TdhOutType}
use ferrisetw.Tdh.Property.{PropertyInfo, value, array, unsupported}
use ferrisetw.Record.{EventRecord, Externals, pointer_size}
use ferrisetw.Native.Time.{FileTime, SystemTime}
use ferrisetw.Parser.Result.{ParserResult, ok, err, ◌>>=◌, invalid_type}
use ferrisetw.Parser.SocketAddress.{TdhSocketAddress}
use ferrisetw.Parser.Text.{try_parse_string}
use ferrisetw.Parser.Scalars.{
  Primitive, u16, i16, u32, i32, u64, i64, u8, i8, f32, f64, Number, Guid, IpAddr,
  try_parse_primitive, try_parse_array, try_parse_guid, try_parse_ip_addr, try_parse_bool,
  try_parse_socket_address, try_parse_file_time, try_parse_system_time, try_parse_bytes,
}

pub data PropHandler : Type 0 where
  null bool int8 uint8 int16 uint16 int32 uint32 int64 uint64 hex_int32 hex_int64 pointer :
      PropHandler
  float double string file_time system_time guid binary ip_addr socket_address : PropHandler
  struct struct_array array_int16 array_uint16 array_int32 array_uint32 : PropHandler
  array_int64 array_uint64 array_hex_int32 array_hex_int64 array_pointer : PropHandler
  array_hex_pointer hex_pointer : PropHandler

-- A pointer whose out type is not set is displayed as hex.
abbrev pointer_handler : TdhOutType → PropHandler
pointer_handler TdhOutType.null = PropHandler.hex_pointer
pointer_handler _ = PropHandler.pointer

-- The inner `match in_type` of a value.
unfoldable pub in_type_handler : TdhInType → TdhOutType → PropHandler
in_type_handler TdhInType.null o = PropHandler.null
in_type_handler TdhInType.manifest_counted_binary o = PropHandler.binary
in_type_handler TdhInType.hex_dump o = PropHandler.binary
in_type_handler TdhInType.int8 o = PropHandler.int8
in_type_handler TdhInType.uint8 o = PropHandler.uint8
in_type_handler TdhInType.int16 o = PropHandler.int16
in_type_handler TdhInType.uint16 o = PropHandler.uint16
in_type_handler TdhInType.int32 o = PropHandler.int32
in_type_handler TdhInType.uint32 o = PropHandler.uint32
in_type_handler TdhInType.int64 o = PropHandler.int64
in_type_handler TdhInType.uint64 o = PropHandler.uint64
in_type_handler TdhInType.hex_int32 o = PropHandler.hex_int32
in_type_handler TdhInType.hex_int64 o = PropHandler.hex_int64
in_type_handler TdhInType.float o = PropHandler.float
in_type_handler TdhInType.double o = PropHandler.double
in_type_handler TdhInType.boolean o = PropHandler.bool
in_type_handler TdhInType.binary o = PropHandler.binary
in_type_handler TdhInType.guid o = PropHandler.guid
in_type_handler TdhInType.pointer o = pointer_handler o
in_type_handler TdhInType.size_t o = pointer_handler o
in_type_handler TdhInType.file_time o = PropHandler.file_time
in_type_handler TdhInType.system_time o = PropHandler.system_time
in_type_handler TdhInType.unicode_string o = PropHandler.string
in_type_handler TdhInType.ansi_string o = PropHandler.string
in_type_handler TdhInType.sid o = PropHandler.string
in_type_handler TdhInType.wbem_sid o = PropHandler.string
in_type_handler TdhInType.unicode_char o = PropHandler.string
in_type_handler TdhInType.ansi_char o = PropHandler.string
in_type_handler TdhInType.manifest_counted_string o = PropHandler.string
in_type_handler TdhInType.counted_string o = PropHandler.string
in_type_handler TdhInType.manifest_counted_ansi_string o = PropHandler.string
in_type_handler TdhInType.counted_ansi_string o = PropHandler.string
in_type_handler TdhInType.reversed_counted_string o = PropHandler.string
in_type_handler TdhInType.reversed_counted_ansi_string o = PropHandler.string
in_type_handler TdhInType.non_null_terminated_string o = PropHandler.string
in_type_handler TdhInType.non_null_terminated_ansi_string o = PropHandler.string

unfoldable pub value_handler : TdhInType → TdhOutType → PropHandler
unfolding in_type_handler
value_handler t TdhOutType.ipv4 = PropHandler.ip_addr
value_handler t TdhOutType.ipv6 = PropHandler.ip_addr
value_handler t TdhOutType.socket_address = PropHandler.socket_address
value_handler t TdhOutType.utf8 = PropHandler.string
value_handler t TdhOutType.hex_int32 = PropHandler.hex_int32
value_handler t TdhOutType.hex_int64 = PropHandler.hex_int64
value_handler t o = in_type_handler t o

abbrev array_pointer_handler : TdhOutType → PropHandler
array_pointer_handler TdhOutType.null = PropHandler.array_hex_pointer
array_pointer_handler _ = PropHandler.array_pointer

abbrev array_in_type_handler : TdhInType → TdhOutType → Option PropHandler
array_in_type_handler TdhInType.int16 o = some PropHandler.array_int16
array_in_type_handler TdhInType.uint16 o = some PropHandler.array_uint16
array_in_type_handler TdhInType.int32 o = some PropHandler.array_int32
array_in_type_handler TdhInType.uint32 o = some PropHandler.array_uint32
array_in_type_handler TdhInType.int64 o = some PropHandler.array_int64
array_in_type_handler TdhInType.uint64 o = some PropHandler.array_uint64
array_in_type_handler TdhInType.hex_int32 o = some PropHandler.array_hex_int32
array_in_type_handler TdhInType.hex_int64 o = some PropHandler.array_hex_int64
array_in_type_handler TdhInType.pointer o = some (array_pointer_handler o)
array_in_type_handler TdhInType.size_t o = some (array_pointer_handler o)
array_in_type_handler _ o = none

unfoldable pub array_handler : TdhInType → TdhOutType → Option PropHandler
array_handler t TdhOutType.hex_int32 = some PropHandler.array_hex_int32
array_handler t TdhOutType.hex_int64 = some PropHandler.array_hex_int64
array_handler t o = array_in_type_handler t o

abbrev pub get_parser : PropertyInfo → Option PropHandler
get_parser (value t o l) = some (value_handler t o)
get_parser (array t o l c) = array_handler t o
get_parser (PropertyInfo.struct members) = some PropHandler.struct
get_parser (PropertyInfo.struct_array members c) = some PropHandler.struct_array
get_parser (unsupported l) = none

-- What is handed to the serializer for one decoded property. A hex number is a `HexDisplay`.
pub data Leaf : Type 0 where
  nothing : Leaf
  truth : Bool → Leaf
  number hex : Number → Leaf
  numbers hexes : List Number → Leaf
  text bytes : List ℕ → Leaf
  ip : IpAddr → Leaf
  socket : TdhSocketAddress → Leaf
  file_time : FileTime → Leaf
  system_time : SystemTime → Leaf
  guid : Guid → Leaf

-- `prop_ser_type!` and its hex twins: a decoded value is handed on, an error is returned.
abbrev then_write : {A : Type 0} → ParserResult A → (A → Leaf) → ParserResult Leaf
then_write m write = m >>= (λ v. ok (write v))

module _ (x : Externals) (r : EventRecord) where
  abbrev by_width : Primitive → Primitive → Primitive
  by_width narrow wide = if pointer_size r == 4 then narrow else wide

  -- The `unreachable!` arms never run: structures do not come here.
  unfoldable pub ser_from_bytes : PropHandler → PropertyInfo → ℕ → List ℕ → ParserResult Leaf
  unfolding try_parse_primitive try_parse_array try_parse_guid try_parse_ip_addr try_parse_bool
      try_parse_socket_address try_parse_file_time try_parse_system_time try_parse_bytes
      try_parse_string
  ser_from_bytes PropHandler.bool i a b = then_write (try_parse_bool i b) truth
  ser_from_bytes PropHandler.int8 i a b = then_write (try_parse_primitive i8 i b) number
  ser_from_bytes PropHandler.uint8 i a b = then_write (try_parse_primitive u8 i b) number
  ser_from_bytes PropHandler.int16 i a b = then_write (try_parse_primitive i16 i b) number
  ser_from_bytes PropHandler.uint16 i a b = then_write (try_parse_primitive u16 i b) number
  ser_from_bytes PropHandler.int32 i a b = then_write (try_parse_primitive i32 i b) number
  ser_from_bytes PropHandler.uint32 i a b = then_write (try_parse_primitive u32 i b) number
  ser_from_bytes PropHandler.int64 i a b = then_write (try_parse_primitive i64 i b) number
  ser_from_bytes PropHandler.uint64 i a b = then_write (try_parse_primitive u64 i b) number
  ser_from_bytes PropHandler.hex_int32 i a b = then_write (try_parse_primitive u32 i b) hex
  ser_from_bytes PropHandler.hex_int64 i a b = then_write (try_parse_primitive u64 i b) hex
  ser_from_bytes PropHandler.float i a b = then_write (try_parse_primitive f32 i b) number
  ser_from_bytes PropHandler.double i a b = then_write (try_parse_primitive f64 i b) number
  ser_from_bytes PropHandler.string i a b = then_write (try_parse_string x i b) text
  ser_from_bytes PropHandler.binary i a b = then_write (try_parse_bytes i b) bytes
  ser_from_bytes PropHandler.ip_addr i a b = then_write (try_parse_ip_addr i b) ip
  ser_from_bytes PropHandler.socket_address i a b = then_write (try_parse_socket_address i b) socket
  ser_from_bytes PropHandler.file_time i a b = then_write (try_parse_file_time i b) file_time
  ser_from_bytes PropHandler.system_time i a b = then_write (try_parse_system_time i b) system_time
  ser_from_bytes PropHandler.array_int16 i a b = then_write (try_parse_array i16 i a b) numbers
  ser_from_bytes PropHandler.array_uint16 i a b = then_write (try_parse_array u16 i a b) numbers
  ser_from_bytes PropHandler.array_int32 i a b = then_write (try_parse_array i32 i a b) numbers
  ser_from_bytes PropHandler.array_uint32 i a b = then_write (try_parse_array u32 i a b) numbers
  ser_from_bytes PropHandler.array_int64 i a b = then_write (try_parse_array i64 i a b) numbers
  ser_from_bytes PropHandler.array_uint64 i a b = then_write (try_parse_array u64 i a b) numbers
  ser_from_bytes PropHandler.array_hex_int32 i a b = then_write (try_parse_array u32 i a b) hexes
  ser_from_bytes PropHandler.array_hex_int64 i a b = then_write (try_parse_array u64 i a b) hexes
  ser_from_bytes PropHandler.null i a b = ok nothing
  ser_from_bytes PropHandler.pointer i a b =
      then_write (try_parse_primitive (by_width u32 u64) i b) number
  ser_from_bytes PropHandler.hex_pointer i a b =
      then_write (try_parse_primitive (by_width u32 u64) i b) hex
  ser_from_bytes PropHandler.array_pointer i a b =
      then_write (try_parse_array (by_width u32 u64) i a b) numbers
  ser_from_bytes PropHandler.array_hex_pointer i a b =
      then_write (try_parse_array (by_width u32 u64) i a b) hexes
  ser_from_bytes PropHandler.guid i a b = then_write (try_parse_guid i b) guid
  ser_from_bytes PropHandler.struct i a b = err invalid_type
  ser_from_bytes PropHandler.struct_array i a b = err invalid_type
