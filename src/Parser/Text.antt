-- ===== src/Parser/Text.antt =====
-- src/parser.rs: the decoding of strings: counted strings and the `String` impl of `TryParse`.
-- A Rust `String` is the list of its UTF-8 bytes.
pub mod Counted
use ferrisetw.Base.{
  ℕ, zero, suc, ◌+◌, ◌*◌, ◌%◌, Bool, true, false, ◌&&◌, ◌||◌, not, Option, none, some, List, [],
  ◌∷◌, reverse, ltb, leb, ◌==◌, if◌then◌else◌, length, get_elem?, get_range,
}
use ferrisetw.Tdh.InType.{TdhInType}
use ferrisetw.Tdh.InType
use ferrisetw.Tdh.Property.{PropertyInfo, value, array, struct, struct_array, unsupported, info}
use ferrisetw.Record.{PropertySlice, Externals}
use ferrisetw.Parser.Result.{
  ParserResult, ok, err, ◌>>=◌, property_error, invalid_type, utf8_error, slice_error,
  sddl_native_error,
}
use ferrisetw.Parser.Size.{wide_units, read_count_prefix}

-- The bytes that may follow a first byte, as bounds for each, in the table of the Unicode standard
-- (Table 3-7) that `std::str::from_utf8` implements.
abbrev pub utf8_continuation : ℕ × ℕ
utf8_continuation = (0x80, 0xbf)

abbrev between : ℕ → ℕ → ℕ → Bool
between lo hi b = leb lo b && leb b hi

abbrev pub three_bytes : ℕ × ℕ → List (ℕ × ℕ)
three_bytes second = second ∷ utf8_continuation ∷ []

abbrev pub four_bytes : ℕ × ℕ → List (ℕ × ℕ)
four_bytes second = second ∷ utf8_continuation ∷ utf8_continuation ∷ []

unfoldable pub utf8_lead : ℕ → Option (List (ℕ × ℕ))
utf8_lead b =
    if ltb b 0x80
    then some []
    else if between 0xc2 0xdf b
    then some (utf8_continuation ∷ [])
    else if b == 0xe0
    then some (three_bytes (0xa0, 0xbf))
    else if b == 0xed
    then some (three_bytes (0x80, 0x9f))
    else if between 0xe1 0xef b
    then some (three_bytes utf8_continuation)
    else if b == 0xf0
    then some (four_bytes (0x90, 0xbf))
    else if between 0xf1 0xf3 b
    then some (four_bytes utf8_continuation)
    else if b == 0xf4
    then some (four_bytes (0x80, 0x8f))
    else none

-- The bounds still to be met by the sequence that has begun, then the bytes.
unfoldable pub is_utf8_from : List (ℕ × ℕ) → List ℕ → Bool
unfolding utf8_lead
is_utf8_from [] [] = true
is_utf8_from (bound ∷ bounds) [] = false
is_utf8_from ((lo, hi) ∷ bounds) (b ∷ bytes) =
    let rest = is_utf8_from bounds bytes in between lo hi b && rest
is_utf8_from [] (b ∷ bytes) = elim (utf8_lead b) [
  | none ↦ false
  | some bounds ↦ is_utf8_from bounds bytes
]

-- `std::str::from_utf8`
unfoldable pub from_utf8 : List ℕ → ParserResult (List ℕ)
unfolding is_utf8_from
from_utf8 bytes = if is_utf8_from [] bytes then ok bytes else err utf8_error

abbrev pub take_while_nonzero : List ℕ → List ℕ
take_while_nonzero [] = []
take_while_nonzero (u ∷ us) = let rest = take_while_nonzero us in if u == 0 then [] else u ∷ rest

-- `trim_matches` of NUL: a NUL character is one byte, and no other character holds that byte.
abbrev trim_start : List ℕ → List ℕ
trim_start [] = []
trim_start (b ∷ bytes) = let rest = trim_start bytes in if b == 0 then rest else b ∷ bytes

abbrev pub trim_nul : List ℕ → List ℕ
trim_nul bytes = reverse (trim_start (reverse (trim_start bytes)))

module _ (x : Externals) where
  open x use {decode_utf16_lossy, convert_sid_to_string}

  unfoldable pub decode_text : List ℕ → Bool → ParserResult (List ℕ)
  unfolding from_utf8
  decode_text bytes wide =
      if wide then ok (decode_utf16_lossy (wide_units bytes)) else from_utf8 bytes

  unfoldable pub decode_counted_payload : List ℕ → ℕ → Bool → ParserResult (List ℕ)
  unfolding decode_text get_range
  decode_counted_payload buffer byte_count wide = elim (get_range 2 (2 + byte_count) buffer) [
    | none ↦ err (property_error "invalid counted string length")
    | some bytes ↦ decode_text bytes wide
  ]

  -- `parse_counted_string`, and its big-endian twin `parse_reversed_counted_string`.
  unfoldable pub parse_counted_string : Bool → List ℕ → Bool → ParserResult (List ℕ)
  unfolding read_count_prefix decode_counted_payload
  parse_counted_string big_endian buffer wide =
      read_count_prefix buffer big_endian
      >>= (λ byte_count. decode_counted_payload buffer byte_count wide)

  unfoldable pub parse_non_null_terminated_string : List ℕ → Bool → ParserResult (List ℕ)
  unfolding decode_text
  parse_non_null_terminated_string buffer wide = decode_text buffer wide

  abbrev parse_sid : List ℕ → Bool → ParserResult (List ℕ)
  parse_sid buffer truncated =
      if truncated
      then err (property_error "SID property is truncated")
      else elim (convert_sid_to_string buffer) [
        | none ↦ err sddl_native_error
        | some string ↦ ok string
      ]

  -- Without a second byte the expected length is `usize::MAX`, which no buffer has.
  abbrev sid_is_truncated : List ℕ → Bool
  sid_is_truncated buffer = elim (get_elem? buffer 1) [
    | none ↦ true
    | some sub_authority_count ↦ ltb (length buffer) (8 + 4 * sub_authority_count)
  ]

  abbrev parse_unicode_char : List ℕ → ParserResult (List ℕ)
  parse_unicode_char buffer =
      if length buffer == 2 then ok (decode_utf16_lossy (wide_units buffer)) else err slice_error

  unfoldable pub parse_string : TdhInType → List ℕ → ParserResult (List ℕ)
  unfolding from_utf8 parse_counted_string parse_non_null_terminated_string
  parse_string TdhInType.unicode_string buffer =
      if length buffer % 2 == 0
      then ok (decode_utf16_lossy (take_while_nonzero (wide_units buffer)))
      else err (property_error "odd length in bytes for a wide string")
  parse_string TdhInType.ansi_string buffer = from_utf8 buffer >>= (λ s. ok (trim_nul s))
  parse_string TdhInType.sid buffer = parse_sid buffer (sid_is_truncated buffer)
  parse_string TdhInType.wbem_sid buffer = parse_sid buffer (sid_is_truncated buffer)
  parse_string TdhInType.unicode_char buffer = parse_unicode_char buffer
  parse_string TdhInType.ansi_char buffer = from_utf8 buffer
  parse_string TdhInType.manifest_counted_string buffer = parse_counted_string false buffer true
  parse_string TdhInType.counted_string buffer = parse_counted_string false buffer true
  parse_string TdhInType.manifest_counted_ansi_string buffer =
      parse_counted_string false buffer false
  parse_string TdhInType.counted_ansi_string buffer = parse_counted_string false buffer false
  parse_string TdhInType.reversed_counted_string buffer = parse_counted_string true buffer true
  parse_string TdhInType.reversed_counted_ansi_string buffer =
      parse_counted_string true buffer false
  parse_string TdhInType.non_null_terminated_string buffer =
      parse_non_null_terminated_string buffer true
  parse_string TdhInType.non_null_terminated_ansi_string buffer =
      parse_non_null_terminated_string buffer false
  parse_string _ buffer = err invalid_type

  unfoldable pub try_parse_string : PropertyInfo → List ℕ → ParserResult (List ℕ)
  unfolding parse_string
  try_parse_string (value t o l) buffer = parse_string t buffer
  try_parse_string _ buffer = err invalid_type
