-- ===== src/Native/Time/Calendar/Days.antt =====
-- src/native/time.rs: the days and the 100 ns intervals of a system time, against the calendar.
use ferrisetw.Base.{
  ℕ, zero, suc, ◌+◌, ◌-◌, ◌*◌, ◌/◌, ◌%◌, ◌^◌, ◌≤◌, min, ◌≡◌, sym, ap, subst, ◌∙◌, inl, inr, true,
  false, ℤ, pos, ◌-ℕ◌, ◌+ℤ◌, ◌-ℤ◌, ◌*ℤ◌, ◌/ℤ◌, saturate, -ℕ_ge, -ℤ-pos, leb, ltb, ◌==◌, ==_iff,
  if◌then◌else◌, Bool-cases, arith,
}
use ferrisetw.Native.Time.{SystemTime}
use ferrisetw.Native.Time.Calendar.Gregorian.{
  is_leap, days_in_month, Date, next_date, date_after, IsDate, date_after-IsDate,
}
use ferrisetw.Native.Time.Calendar.{era_of, days_from_civil, as_filetime_quad}

-- The days of the formula, counted from the start of its first era, where a year begins in March.
abbrev march_year : ℕ → ℕ → ℕ
march_year y m = y - (if leb m 2 then 1 else 0)

abbrev year_of_era : ℕ → ℕ
year_of_era y = y - y / 400 * 400

abbrev day_of_year : ℕ → ℕ → ℕ
day_of_year m d = (153 * ((m + 9) % 12) + 2) / 5 + d - 1

abbrev total_days : ℕ → ℕ → ℕ → ℕ
total_days era yoe doy = era * 146097 + (yoe * 365 + yoe / 4 - yoe / 100 + doy)

abbrev march_days : ℕ → ℕ → ℕ
march_days y doy = total_days (y / 400) (year_of_era y) doy

pos-minus : (a b : ℕ) → b ≤ a → pos a -ℤ pos b ≡ pos (a - b)
pos-minus a b h = -ℤ-pos a b ∙ -ℕ_ge a b h

abbrev assemble : ℤ → ℤ → ℤ → ℤ
assemble era yoe doy =
    era *ℤ pos 146097 +ℤ (yoe *ℤ pos 365 +ℤ yoe /ℤ 4 -ℤ yoe /ℤ 100 +ℤ doy) -ℤ pos 719468

assemble_pos :
    (era yoe doy : ℕ) → assemble (pos era) (pos yoe) (pos doy) ≡ total_days era yoe doy -ℕ 719468
assemble_pos era yoe doy =
    ap (λ k. pos era *ℤ pos 146097 +ℤ (k +ℤ pos doy) -ℤ pos 719468)
      (pos-minus (yoe * 365 + yoe / 4) (yoe / 100) (omega arith))
    ∙ -ℤ-pos (total_days era yoe doy) 719468

abbrev in_march_year : ℤ → ℤ → ℤ
in_march_year y doy = assemble (era_of y) (y -ℤ era_of y *ℤ pos 400) doy

in_march_year_pos : (y doy : ℕ) → in_march_year (pos y) (pos doy) ≡ march_days y doy -ℕ 719468
in_march_year_pos y doy =
    ap (λ k. assemble (pos (y / 400)) k (pos doy)) (pos-minus y (y / 400 * 400) (omega arith))
    ∙ assemble_pos (y / 400) (year_of_era y) doy

days_from_civil-march :
    (y m d : ℕ)
    → 1 ≤ y
    → 1 ≤ d
    → days_from_civil (pos y) m d ≡ march_days (march_year y m) (day_of_year m d) -ℕ 719468
unfolding days_from_civil
days_from_civil-march y m d h g =
    ap (λ k. in_march_year k (pos ((153 * ((m + 9) % 12) + 2) / 5) +ℤ pos d -ℤ pos 1))
      (pos-minus y (if leb m 2 then 1 else 0) (ground arith))
    ∙ ap (in_march_year (pos (march_year y m)))
        (pos-minus ((153 * ((m + 9) % 12) + 2) / 5 + d) 1 (omega arith))
    ∙ in_march_year_pos (march_year y m) (day_of_year m d)

abbrev days_at : Date → ℕ
days_at t = march_days (march_year t.year t.month) (day_of_year t.month t.day)

-- Within a month, at its end, and at the end of February, which is that of the year here.
next_day :
    (y m d : ℕ)
    → 1 ≤ d
    → march_days (march_year y m) (day_of_year m (suc d))
      ≡ suc (march_days (march_year y m) (day_of_year m d))
next_day y m d h = omega arith

february_end :
    (y : ℕ)
    → 1 ≤ y
    → march_days (march_year y 3) (day_of_year 3 1)
      ≡ suc (march_days (march_year y 2) (day_of_year 2 (if is_leap y then 29 else 28)))
february_end y h = ground arith

-- The other months of 30 or 31 days.
month_length :
    (y m : ℕ)
    → ¬ (m ≡ 2)
    → 1 ≤ m
    → m ≤ 11
    → day_of_year (suc m) 1 ≡ suc (day_of_year m (days_in_month y m))
month_length y m two h g = ground arith

same_march_year : (y m : ℕ) → ¬ (m ≡ 2) → march_year y (suc m) ≡ march_year y m
same_march_year y m two = ground arith

december_end :
    (y : ℕ)
    → march_days (march_year (suc y) 1) (day_of_year 1 1)
      ≡ suc (march_days (march_year y 12) (day_of_year 12 31))
december_end y = omega arith

next_march_days : (y a b : ℕ) → a ≡ suc b → march_days y a ≡ suc (march_days y b)
next_march_days y a b e = omega arith

last_day :
    (t : Date)
    → IsDate t
    → ltb t.day (days_in_month t.year t.month) ≡ false
    → t.day ≡ days_in_month t.year t.month
last_day t is_date e = let bound = is_date.to_day in ground arith

month_end :
    (y m : ℕ)
    → 1 ≤ y
    → 1 ≤ m
    → m ≤ 11
    → march_days (march_year y (suc m)) (day_of_year (suc m) 1)
      ≡ suc (march_days (march_year y m) (day_of_year m (days_in_month y m)))
month_end y m h g k = elim (Bool-cases (m == 2)) [
  | inl e ↦
      subst
        (λ n.
          march_days (march_year y (suc n)) (day_of_year (suc n) 1)
          ≡ suc (march_days (march_year y n) (day_of_year n (days_in_month y n))))
        (sym ((==_iff m 2).0 e)) (february_end y h)
  | inr e ↦
      let two : ¬ (m ≡ 2) = λ q. ground arith in
      ap (λ n. march_days n (day_of_year (suc m) 1)) (same_march_year y m two)
      ∙ next_march_days (march_year y m) (day_of_year (suc m) 1) (day_of_year m (days_in_month y m))
          (month_length y m two g k)
]

before_december : (m : ℕ) → ltb m 12 ≡ true → m ≤ 11
before_december m e = ground arith

december : (t : Date) → IsDate t → ltb t.month 12 ≡ false → t.month ≡ 12
december t is_date e = let bound = is_date.to_month in ground arith

next_date-days_at : (t : Date) → IsDate t → days_at (next_date t) ≡ suc (days_at t)
next_date-days_at t is_date = elim (Bool-cases (ltb t.day (days_in_month t.year t.month))) [
  | inl e ↦ rw e (next_day t.year t.month t.day is_date.from_day)
  | inr e ↦
      let last = last_day t is_date e in
      elim (Bool-cases (ltb t.month 12)) [
        | inl f ↦
            rw (e, f)
              (month_end t.year t.month is_date.from_year is_date.from_month
                  (before_december t.month f)
                ∙ ap (λ d. suc (march_days (march_year t.year t.month) (day_of_year t.month d)))
                    (sym last))
        | inr f ↦
            let twelve = december t is_date f in
            rw (e, f)
              (december_end t.year
                ∙ ap
                    (λ m.
                      suc
                        (march_days (march_year t.year m) (day_of_year m (days_in_month t.year m))))
                    (sym twelve)
                ∙ ap (λ d. suc (march_days (march_year t.year t.month) (day_of_year t.month d)))
                    (sym last))
      ]
]

days_at-date_after : (n : ℕ) → days_at (date_after n) ≡ 584694 + n
days_at-date_after zero = omega arith
days_at-date_after (suc n) =
    next_date-days_at (date_after n) (date_after-IsDate n)
    ∙ ap suc (days_at-date_after n)
    ∙ omega arith

from_epoch : (n : ℕ) → (584694 + n) -ℕ 719468 ≡ n -ℕ 134774
from_epoch n = ground arith

days_from_civil-date_after :
    (n : ℕ)
    → days_from_civil (pos (date_after n).year) (date_after n).month (date_after n).day
      ≡ n -ℕ 134774
days_from_civil-date_after n =
    let t = date_after n in
    let is_date = date_after-IsDate n in
    days_from_civil-march t.year t.month t.day is_date.from_year is_date.from_day
    ∙ ap (λ k. k -ℕ 719468) (days_at-date_after n)
    ∙ from_epoch n

-- A time of day on a date; the day of the week is not used.
abbrev pub system_time : Date → (day_of_week hour minute second milliseconds : ℕ) → SystemTime
system_time t day_of_week hour minute second milliseconds = record {
  year = t.year;
  month = t.month;
  day_of_week = day_of_week;
  day = t.day;
  hour = hour;
  minute = minute;
  second = second;
  milliseconds = milliseconds;
}

since_1601 : (n : ℕ) → (n -ℕ 134774) +ℤ pos 134774 ≡ pos n
since_1601 n = ground arith

saturated : (a b : ℕ) → min (min a (2 ^ 63 - 1) + b) (2 ^ 63 - 1) ≡ min (a + b) (2 ^ 63 - 1)
saturated a b = omega arith

-- The quad of a system time, whose date comes `n` days after 1 January 1601, is the number of
-- intervals of 100 ns that have passed since then, or the largest `i64` where it is larger. The
-- dates are counted by the Gregorian calendar, day by day.
pub as_filetime_quad-date_after :
    (n day_of_week hour minute second milliseconds : ℕ)
    → as_filetime_quad (system_time (date_after n) day_of_week hour minute second milliseconds)
      ≡ pos (
          min
            ((n * 86400 + hour * 3600 + minute * 60 + second) * 10000000 + milliseconds * 10000)
            (2 ^ 63 - 1))
unfolding as_filetime_quad
as_filetime_quad-date_after n day_of_week hour minute second milliseconds =
    ap
      (λ d. saturate 63 (
        saturate 63 (
          ((d +ℤ pos 134774) *ℤ pos 86400 +ℤ pos (hour * 3600) +ℤ pos (minute * 60) +ℤ pos second)
          *ℤ pos 10000000)
        +ℤ pos (milliseconds * 10000)))
      (days_from_civil-date_after n)
    ∙ ap
        (λ d. saturate 63 (
          saturate 63 (
            (d *ℤ pos 86400 +ℤ pos (hour * 3600) +ℤ pos (minute * 60) +ℤ pos second)
            *ℤ pos 10000000)
          +ℤ pos (milliseconds * 10000)))
        (since_1601 n)
    ∙ ap pos (
        saturated ((n * 86400 + hour * 3600 + minute * 60 + second) * 10000000)
          (milliseconds * 10000))
