-- ===== src/Native/Time.antt =====
-- src/native/time.rs: `FileTime` and `SystemTime`, read from the packed bytes of an event.
pub mod Quad
pub mod Calendar
use ferrisetw.Base.{ℕ, ◌+◌, ◌*◌, ◌/◌, ◌%◌, ◌^◌, List, [], ◌∷◌, take, drop, from_le_bytes}

pub record FileTime : Type 0 where
  pub low_date_time : ℕ
  pub high_date_time : ℕ

pub record SystemTime : Type 0 where
  pub year : ℕ
  pub month : ℕ
  pub day_of_week : ℕ
  pub day : ℕ
  pub hour : ℕ
  pub minute : ℕ
  pub second : ℕ
  pub milliseconds : ℕ

-- `slice[offset..offset + width]` of an array that is long enough.
abbrev read : ℕ → ℕ → List ℕ → ℕ
read width offset slice = from_le_bytes (take width (drop offset slice))

-- `FileTime::from_slice`, of 8 bytes.
unfoldable pub file_time_from_slice : List ℕ → FileTime
file_time_from_slice slice = record {
  low_date_time = read 4 0 slice;
  high_date_time = read 4 4 slice;
}

-- `SystemTime::from_slice`, of 16 bytes.
unfoldable pub system_time_from_slice : List ℕ → SystemTime
system_time_from_slice slice = record {
  year = read 2 0 slice;
  month = read 2 2 slice;
  day_of_week = read 2 4 slice;
  day = read 2 6 slice;
  hour = read 2 8 slice;
  minute = read 2 10 slice;
  second = read 2 12 slice;
  milliseconds = read 2 14 slice;
}

-- `FileTime::as_quad`: the shift of the high half leaves the low bits free. As an `i64` the
-- result is to be read with the sign bit 63.
unfoldable pub as_quad : FileTime → ℕ
as_quad t = t.high_date_time * 2 ^ 32 + t.low_date_time

-- `FileTime::from_quad`, of the 64 bits of an `i64`.
unfoldable pub from_quad : ℕ → FileTime
from_quad quad = record { low_date_time = quad % 2 ^ 32; high_date_time = quad / 2 ^ 32 % 2 ^ 32 }
