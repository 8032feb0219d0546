-- ===== src/Calendar.antt =====
-- kernel/calendar.c: dates and times of day from seconds since 1970.
pub mod Years
pub mod Dates
mod Examples
use shadow_box_os.Common.{
  ℕ, zero, suc, ◌+◌, ◌-◌, ◌*◌, ◌/◌, ◌%◌, Bool, true, false, not, ◌&&◌, ◌||◌, Option, none, some,
  List, [], ◌∷◌, leb, ◌==◌, if◌then◌else◌,
}

abbrev pub is_leap_year : ℕ → Bool
is_leap_year year = ((year % 4 == 0) && not (year % 100 == 0)) || (year % 400 == 0)

abbrev pub days_in_month : List ℕ
days_in_month = 31 ∷ 28 ∷ 31 ∷ 30 ∷ 31 ∷ 30 ∷ 31 ∷ 31 ∷ 30 ∷ 31 ∷ 30 ∷ 31 ∷ []

abbrev pub days_in_year : ℕ → ℕ
days_in_year year = if is_leap_year year then 366 else 365

-- The loop over the years, with fuel; the year and the days left.
unfoldable pub year_loop : ℕ → ℕ → ℕ → ℕ × ℕ
year_loop zero days year = (year, days)
year_loop (suc fuel) days year =
    let rest = year_loop fuel (days - days_in_year year) (year + 1) in
    if leb (days_in_year year) days then rest else (year, days)

abbrev pub month_len : Bool → ℕ → ℕ → ℕ
month_len leap i dim = if (i == 1) && leap then 29 else dim

-- The loop over the months from month `i`, counted from 0; the months passed and the days left.
unfoldable pub month_loop : Bool → List ℕ → ℕ → ℕ → ℕ × ℕ
month_loop leap [] i days = (i, days)
month_loop leap (dim ∷ dims) i days =
    let rest = month_loop leap dims (i + 1) (days - month_len leap i dim) in
    if leb (month_len leap i dim) days then rest else (i, days)

pub record Date : Type 0 where
  pub year : ℕ
  pub month : ℕ
  pub day : ℕ

-- The seconds that the code goes by: the real-time clock, or the uptime if that fails.
abbrev pub seconds : Option ℕ → ℕ → ℕ
seconds (some clock) uptime = clock
seconds none uptime = uptime

-- A year takes at least one day, so the days are fuel enough.
unfoldable pub get_date : Option ℕ → ℕ → Date
get_date clock uptime =
    let days = seconds clock uptime / 86400 in
    let (year, days') = year_loop days days 1970 in
    let (months, days'') = month_loop (is_leap_year year) days_in_month 0 days' in
    record { year = year; month = 1 + months; day = days'' + 1 }

pub record Time : Type 0 where
  pub hour : ℕ
  pub minute : ℕ
  pub second : ℕ

unfoldable pub get_time : Option ℕ → ℕ → Time
get_time clock uptime =
    let secs = seconds clock uptime % 86400 in
    record { hour = secs / 3600; minute = (secs % 3600) / 60; second = secs % 60 }
