-- ===== src/Calendar.antt =====
-- internal/model/date.go: which dates are valid, beside the Gregorian calendar. Years are below
-- 2 ^ 16 and days below 2 ^ 8 in the source; nothing here computes past that.
mod Examples
use hexmagnet.Prelude.{
  ℕ, ◌%◌, ◌≡◌, Bool, true, false, not, ◌&&◌, ◌||◌, ◌==◌, leb, ltb, arith, if◌then◌else◌,
}

pub record Date : Type 0 where
  pub year : ℕ
  pub month : ℕ
  pub day : ℕ

abbrev has_31 : ℕ → Bool
has_31 m = m == 1 || (m == 3 || (m == 5 || (m == 7 || (m == 8 || (m == 10 || m == 12)))))

abbrev has_30 : ℕ → Bool
has_30 m = m == 4 || (m == 6 || (m == 9 || m == 11))

pub num_days_in_month : ℕ → ℕ → ℕ
num_days_in_month year month =
    if has_31 month
    then 31
    else if has_30 month
    then 30
    else if month == 2
    then (if year % 4 == 0 then 29 else 28)
    else 0

pub is_valid : Date → Bool
is_valid d =
    leb 1000 d.year
    && (leb d.year 9999
        && (leb 1 d.month
            && (leb d.month 12 && (leb 1 d.day && leb d.day (num_days_in_month d.year d.month)))))

unfoldable pub is_nil : Date → Bool
is_nil d = d.year == 0 && (d.month == 0 && d.day == 0)

-- The Gregorian calendar.
abbrev pub is_leap : ℕ → Bool
is_leap year = year % 4 == 0 && (not (year % 100 == 0) || year % 400 == 0)

gregorian_days : ℕ → ℕ → ℕ
gregorian_days year month =
    if month == 2 then (if is_leap year then 29 else 28) else if has_30 month then 30 else 31

-- A date of the calendar in the years that the code admits.
pub is_gregorian : Date → Bool
is_gregorian d =
    leb 1000 d.year
    && (leb d.year 9999
        && (leb 1 d.month
            && (leb d.month 12 && (leb 1 d.day && leb d.day (gregorian_days d.year d.month)))))

-- The 29th of February of a year from 1000 to 9999 that ends a century and is no leap year.
pub is_false_leap_day : Date → Bool
is_false_leap_day d =
    leb 1000 d.year
    && (leb d.year 9999
        && (d.month == 2 && (d.day == 29 && (d.year % 100 == 0 && not (d.year % 400 == 0)))))

days-gregorian :
    (year month : ℕ)
    → leb 1 month ≡ true
    → leb month 12 ≡ true
    → num_days_in_month year month ≡ (
        if month == 2 && (year % 100 == 0 && not (year % 400 == 0))
        then 29
        else gregorian_days year month)
unfolding num_days_in_month gregorian_days
days-gregorian year month lo hi = ground arith

-- A date is valid exactly if it is a date of the Gregorian calendar in the years 1000 to 9999, or
-- the 29th of February of a year that ends a century and is not divisible by 400.
pub is_valid-gregorian : (d : Date) → is_valid d ≡ is_gregorian d || is_false_leap_day d
unfolding is_valid is_gregorian is_false_leap_day gregorian_days
is_valid-gregorian d = ground (arith, days-gregorian d.year d.month)
