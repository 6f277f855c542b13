-- ===== src/Native/Time/Calendar.antt =====
-- src/native/time.rs: the conversions of file times and system times to other scales. The `i64`s are
-- integers; `saturating_mul` and `saturating_add` saturate at 64 bits, and no other step of a system
-- time leaves them, as its fields have 16 bits.
-- Children: Gregorian (the calendar), Days (proofs about days and dates).
pub mod Gregorian
pub mod Days
use ferrisetw.Base.{
  ℕ, ◌+◌, ◌*◌, ◌/◌, ◌%◌, ℤ, pos, negsuc, ◌+ℤ◌, ◌-ℤ◌, ◌*ℤ◌, ◌/ℤ◌, saturate, to_signed, leb,
  if◌then◌else◌,
}
use ferrisetw.Native.Time.{FileTime, SystemTime, as_quad}

abbrev pub seconds_between_1601_and_1970 : ℕ
seconds_between_1601_and_1970 = 11644473600

abbrev pub era_of : ℤ → ℤ
era_of (pos y) = pos y /ℤ 400
era_of (negsuc y) = (negsuc y -ℤ pos 399) /ℤ 400

-- The month and the day are not negative.
unfoldable pub days_from_civil : ℤ → ℕ → ℕ → ℤ
days_from_civil year m d =
    let y = year -ℤ pos (if leb m 2 then 1 else 0) in
    let era = era_of y in
    let yoe = y -ℤ era *ℤ pos 400 in
    let mp = (m + 9) % 12 in
    let doy = pos ((153 * mp + 2) / 5) +ℤ pos d -ℤ pos 1 in
    let doe = yoe *ℤ pos 365 +ℤ yoe /ℤ 4 -ℤ yoe /ℤ 100 +ℤ doy in
    era *ℤ pos 146097 +ℤ doe -ℤ pos 719468

-- The quad of a file time is an `i64`.
unfoldable pub quad_of : FileTime → ℤ
unfolding as_quad
quad_of t = to_signed 63 (as_quad t)

unfoldable pub as_filetime_quad : SystemTime → ℤ
unfolding days_from_civil
as_filetime_quad st =
    let days = days_from_civil (pos st.year) st.month st.day in
    let secs_since_1601 =
      (days +ℤ pos (seconds_between_1601_and_1970 / 86400)) *ℤ pos 86400
      +ℤ pos (st.hour * 3600)
      +ℤ pos (st.minute * 60)
      +ℤ pos st.second in
    saturate 63 (saturate 63 (secs_since_1601 *ℤ pos 10000000) +ℤ pos (st.milliseconds * 10000))

abbrev pub unix_millis : ℤ → ℤ
unix_millis quad = quad /ℤ 10000 -ℤ pos (seconds_between_1601_and_1970 * 1000)

abbrev pub unix_nanos : ℤ → ℤ
unix_nanos quad = quad *ℤ pos 100 -ℤ pos (seconds_between_1601_and_1970 * 1000000000)

unfoldable pub file_time_as_unix_timestamp : FileTime → ℤ
unfolding quad_of
file_time_as_unix_timestamp t = unix_millis (quad_of t)

unfoldable pub file_time_as_unix_timestamp_nanos : FileTime → ℤ
unfolding quad_of
file_time_as_unix_timestamp_nanos t = unix_nanos (quad_of t)

unfoldable pub system_time_as_unix_timestamp : SystemTime → ℤ
unfolding as_filetime_quad
system_time_as_unix_timestamp st = unix_millis (as_filetime_quad st)

unfoldable pub system_time_as_unix_timestamp_nanos : SystemTime → ℤ
unfolding as_filetime_quad
system_time_as_unix_timestamp_nanos st = unix_nanos (as_filetime_quad st)
