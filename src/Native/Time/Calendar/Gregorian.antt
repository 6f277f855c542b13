-- ===== src/Native/Time/Calendar/Gregorian.antt =====
-- The Gregorian calendar, for the dates of src/native/time.rs: the lengths of its months and the date
-- that follows another.
use ferrisetw.Base.{
  ℕ, zero, suc, ◌%◌, ◌≤◌, inl, inr, Bool, not, ◌&&◌, ◌||◌, ltb, ◌==◌, ltb→lt, if◌then◌else◌,
  Bool-cases, arith,
}

-- The Gregorian calendar.
abbrev pub is_leap : ℕ → Bool
is_leap y = ((y % 4) == 0) && (not ((y % 100) == 0) || ((y % 400) == 0))

abbrev pub days_in_month : ℕ → ℕ → ℕ
days_in_month y m =
    if m == 2
    then (if is_leap y then 29 else 28)
    else (if (m == 4) || ((m == 6) || ((m == 9) || (m == 11))) then 30 else 31)

pub record Date : Type 0 where
  pub year : ℕ
  pub month : ℕ
  pub day : ℕ

abbrev pub next_date : Date → Date
next_date t =
    if ltb t.day (days_in_month t.year t.month)
    then record t { day = suc t.day }
    else if ltb t.month 12
    then record { year = t.year; month = suc t.month; day = 1 }
    else record { year = suc t.year; month = 1; day = 1 }

-- The date that comes `n` days after 1 January 1601.
abbrev pub date_after : ℕ → Date
date_after zero = record { year = 1601; month = 1; day = 1 }
date_after (suc n) = next_date (date_after n)

pub record IsDate (t : Date) : Type 0 where
  pub from_year : 1 ≤ t.year
  pub from_month : 1 ≤ t.month
  pub to_month : t.month ≤ 12
  pub from_day : 1 ≤ t.day
  pub to_day : t.day ≤ days_in_month t.year t.month

days_in_month_pos : (y m : ℕ) → 1 ≤ days_in_month y m
days_in_month_pos y m = ground arith

next_date-IsDate : (t : Date) → IsDate t → IsDate (next_date t)
next_date-IsDate t is_date = elim (Bool-cases (ltb t.day (days_in_month t.year t.month))) [
  | inl e ↦ rw e (record {
    from_year = is_date.from_year;
    from_month = is_date.from_month;
    to_month = is_date.to_month;
    from_day = omega arith;
    to_day = ltb→lt _ _ e;
  })
  | inr e ↦ elim (Bool-cases (ltb t.month 12)) [
    | inl f ↦
        rw (e, f)
          (record {
            from_year = is_date.from_year;
            from_month = omega arith;
            to_month = ltb→lt _ _ f;
            from_day = omega arith;
            to_day = days_in_month_pos t.year (suc t.month);
          })
    | inr f ↦
        rw (e, f)
          (record {
            from_year = omega arith;
            from_month = omega arith;
            to_month = omega arith;
            from_day = omega arith;
            to_day = days_in_month_pos (suc t.year) 1;
          })
  ]
]

pub date_after-IsDate : (n : ℕ) → IsDate (date_after n)
date_after-IsDate zero = record {
  from_year = omega arith;
  from_month = omega arith;
  to_month = omega arith;
  from_day = omega arith;
  to_day = omega arith;
}
date_after-IsDate (suc n) = next_date-IsDate (date_after n) (date_after-IsDate n)
