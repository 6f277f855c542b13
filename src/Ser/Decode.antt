-- ===== src/Ser/Decode.antt =====
-- src/ser.rs, src/parser.rs and src/native/tdh_types.rs: what a scalar of a fixed size is decoded
-- to.
use ferrisetw.Base.{
  ℕ, ◌+◌, ◌*◌, ◌≡◌, refl, inl, inr, Bool-cases, ==_iff, not, some, List, [], ◌∷◌, ltb, ◌==◌,
  if◌then◌else◌, length, take, drop, to_signed, from_le_bytes, arith,
}
use ferrisetw.Tdh.InType.{TdhInType}
use ferrisetw.Tdh.InType
use ferrisetw.Tdh.OutType.{TdhOutType}
use ferrisetw.Tdh.Lengths.{PropertyLength}
use ferrisetw.Tdh.Property.{value}
use ferrisetw.Native.Time.{file_time_from_slice, system_time_from_slice}
use ferrisetw.Record.{EventRecord, Externals}
use ferrisetw.Parser.Result.{ParserResult, ok, err, ◌>>=◌, invalid_type, utf8_error}
use ferrisetw.Parser.Scalars.{unsigned, signed, float}
use ferrisetw.Parser.Size.{wide_units}
use ferrisetw.Parser.Text.{from_utf8, utf8_lead, is_utf8_from}
use ferrisetw.Ser.Handlers.{
  Leaf, truth, number, hex, text, file_time, system_time, guid, value_handler, ser_from_bytes,
}

-- The little-endian number in the bytes from an offset on.
abbrev pub field : (offset width : ℕ) → List ℕ → ℕ
field offset width bytes = from_le_bytes (take width (drop offset bytes))

-- The value that the bytes of a type stand for.
abbrev pub meaning : Externals → TdhInType → List ℕ → ParserResult Leaf
meaning x TdhInType.int8 bytes = ok (number (signed (to_signed 7 (from_le_bytes bytes))))
meaning x TdhInType.uint8 bytes = ok (number (unsigned (from_le_bytes bytes)))
meaning x TdhInType.int16 bytes = ok (number (signed (to_signed 15 (from_le_bytes bytes))))
meaning x TdhInType.uint16 bytes = ok (number (unsigned (from_le_bytes bytes)))
meaning x TdhInType.int32 bytes = ok (number (signed (to_signed 31 (from_le_bytes bytes))))
meaning x TdhInType.uint32 bytes = ok (number (unsigned (from_le_bytes bytes)))
meaning x TdhInType.int64 bytes = ok (number (signed (to_signed 63 (from_le_bytes bytes))))
meaning x TdhInType.uint64 bytes = ok (number (unsigned (from_le_bytes bytes)))
meaning x TdhInType.hex_int32 bytes = ok (hex (unsigned (from_le_bytes bytes)))
meaning x TdhInType.hex_int64 bytes = ok (hex (unsigned (from_le_bytes bytes)))
meaning x TdhInType.float bytes = ok (number (float (from_le_bytes bytes)))
meaning x TdhInType.double bytes = ok (number (float (from_le_bytes bytes)))
meaning x TdhInType.boolean bytes = ok (truth (not (from_le_bytes bytes == 0)))
meaning x TdhInType.guid bytes = ok (
    guid (record {
      data1 = field 0 4 bytes;
      data2 = field 4 2 bytes;
      data3 = field 6 2 bytes;
      data4 = drop 8 bytes;
    }))
meaning x TdhInType.file_time bytes =
    ok (file_time (record { low_date_time = field 0 4 bytes; high_date_time = field 4 4 bytes }))
meaning x TdhInType.system_time bytes = ok (
    system_time (record {
      year = field 0 2 bytes;
      month = field 2 2 bytes;
      day_of_week = field 4 2 bytes;
      day = field 6 2 bytes;
      hour = field 8 2 bytes;
      minute = field 10 2 bytes;
      second = field 12 2 bytes;
      milliseconds = field 14 2 bytes;
    }))
meaning x TdhInType.unicode_char bytes = ok (text (x.decode_utf16_lossy (from_le_bytes bytes ∷ [])))
meaning x TdhInType.ansi_char bytes =
    if ltb (from_le_bytes bytes) 128 then ok (text bytes) else err utf8_error
meaning x _ bytes = err invalid_type

ascii_text :
    (b : ℕ) → from_utf8 (b ∷ []) ≡ (if ltb (b + 256 * 0) 128 then ok (b ∷ []) else err utf8_error)
unfolding from_utf8 is_utf8_from utf8_lead
ascii_text b = ground arith

ansi_char-meaning :
    (x : Externals) (buffer : List ℕ)
    → length buffer ≡ 1
    → (from_utf8 buffer >>= (λ v. ok (text v))) ≡ meaning x TdhInType.ansi_char buffer
ansi_char-meaning x (b ∷ []) len = elim (Bool-cases (ltb (b + 256 * 0) 128)) [
  | inl e ↦ rw (ascii_text b, e) refl
  | inr e ↦ rw (ascii_text b, e) refl
]
ansi_char-meaning x _ len = absurd (omega arith)

wide_units-pair :
    (buffer : List ℕ) → length buffer ≡ 2 → wide_units buffer ≡ from_le_bytes buffer ∷ []
wide_units-pair (a ∷ b ∷ []) len = refl
wide_units-pair _ len = absurd (omega arith)

-- Any bytes of the size of a scalar of a fixed size, with no out type, are decoded to the value that
-- they stand for in that type: a signed or unsigned number, one in hexadecimal, the bits of a
-- float, a boolean, the fields of a GUID or of a time, or the text of a character. The byte of an
-- ANSI character has to be ASCII, any other is an error.
pub fixed_size-decoded :
    (x : Externals) (r : EventRecord) (t : TdhInType) (l : PropertyLength) (n address : ℕ)
    (buffer : List ℕ)
    → InType.fixed_size t ≡ some n
    → length buffer ≡ n
    → ser_from_bytes x r
        (value_handler t TdhOutType.null)
        (value t TdhOutType.null l)
        address
        buffer
      ≡ meaning x t buffer
unfolding value_handler ser_from_bytes file_time_from_slice system_time_from_slice
fixed_size-decoded x r TdhInType.ansi_char l n address buffer e len =
    ansi_char-meaning x buffer (ground arith)
fixed_size-decoded x r TdhInType.unicode_char l n address buffer e len =
    let two : length buffer ≡ 2 = ground arith in
    rw ((==_iff (length buffer) 2).1 two, wide_units-pair buffer two) refl
fixed_size-decoded x r TdhInType.unicode_string l n address buffer e len = cc
fixed_size-decoded x r TdhInType.int8 l n address buffer e len = ground arith
fixed_size-decoded x r TdhInType.guid l n address buffer e len = ground arith
fixed_size-decoded x r _ l n address buffer e len = ground arith
