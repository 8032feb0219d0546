-- ===== src/Calendar/Dates.antt =====
-- kernel/calendar.c: the date and the time of day that a time in seconds has.
use shadow_box_os.Common.{
  ℕ, zero, suc, ◌||◌, [], ◌∷◌, ◌==◌, if◌then◌else◌, ◌+◌, ◌-◌, ◌*◌, ◌/◌, ◌%◌, ◌≤◌, ◌<◌, ◌≡◌, refl,
  sym, ap, ap₂, subst, ◌∙◌, arith, List, length, get_or, Option, Bool-cases, inl, inr,
}
use shadow_box_os.Calendar.{
  is_leap_year, days_in_year, days_in_month, year_loop, month_loop, Date, get_date, get_time,
  seconds,
}
use shadow_box_os.Calendar.Years.{
  day_number, day_number_step, year_loop_lem, lens, total, month_loop_lem,
}

-- The lengths of the months of a year.
abbrev pub months : ℕ → List ℕ
months year = lens (is_leap_year year) days_in_month 0

-- The length of a month by the rule of the calendar: February has what the other months leave of the
-- year, whose length is the distance of two first of January.
abbrev pub month_length : ℕ → ℕ → ℕ
month_length year month =
    if month == 2
    then day_number (year + 1) - day_number year - 337
    else if (month == 4) || (month == 6) || (month == 9) || (month == 11)
    then 30
    else 31

-- The days of the year before month `k + 1`.
abbrev pub days_before : ℕ → ℕ → ℕ
days_before year zero = 0
days_before year (suc k) = days_before year k + month_length year (k + 1)

-- The number of a date's day, from the same day as `day_number`.
abbrev pub date_number : Date → ℕ
date_number d = day_number d.year + days_before d.year (d.month - 1) + (d.day - 1)

february : (year : ℕ) → 0 < year → get_or (months year) 1 0 ≡ month_length year 2
february year h = elim (Bool-cases (is_leap_year year)) [
  | inl e ↦ rw e (ground (arith, e, day_number_step year h))
  | inr e ↦ rw e (ground (arith, e, day_number_step year h))
]

months_lem : (year k : ℕ) → 0 < year → k < 12 → get_or (months year) k 0 ≡ month_length year (k + 1)
months_lem year zero p h = refl
months_lem year (suc zero) p h = february year p
months_lem year (suc (suc zero)) p h = refl
months_lem year (suc (suc (suc zero))) p h = refl
months_lem year (suc (suc (suc (suc zero)))) p h = refl
months_lem year (suc (suc (suc (suc (suc zero))))) p h = refl
months_lem year (suc (suc (suc (suc (suc (suc zero)))))) p h = refl
months_lem year (suc (suc (suc (suc (suc (suc (suc zero))))))) p h = refl
months_lem year (suc (suc (suc (suc (suc (suc (suc (suc zero)))))))) p h = refl
months_lem year (suc (suc (suc (suc (suc (suc (suc (suc (suc zero))))))))) p h = refl
months_lem year (suc (suc (suc (suc (suc (suc (suc (suc (suc (suc zero)))))))))) p h = refl
months_lem year (suc (suc (suc (suc (suc (suc (suc (suc (suc (suc (suc zero))))))))))) p h = refl
months_lem year (suc (suc (suc (suc (suc (suc (suc (suc (suc (suc (suc (suc k)))))))))))) p h =
    absurd (omega arith)

total-zero : (xs : List ℕ) → total xs 0 ≡ 0
total-zero [] = refl
total-zero (x ∷ xs) = refl

total-suc : (xs : List ℕ) (k : ℕ) → total xs (suc k) ≡ total xs k + get_or xs k 0
total-suc [] k = refl
total-suc (x ∷ xs) zero = omega (arith, total-zero xs)
total-suc (x ∷ xs) (suc k) = omega (arith, total-suc xs k)

total-days_before : (year k : ℕ) → 0 < year → k ≤ 12 → total (months year) k ≡ days_before year k
total-days_before year zero p h = total-zero (months year)
total-days_before year (suc k) p h =
    total-suc (months year) k
    ∙ ap₂ (◌+◌) (total-days_before year k p (omega arith)) (months_lem year k p (omega arith))

twelve : (year : ℕ) → (length (months year) ≡ 12) × (total (months year) 12 ≡ days_in_year year)
twelve year = elim (Bool-cases (is_leap_year year)) [
  | inl e ↦ rw e (refl, refl)
  | inr e ↦ rw e (refl, refl)
]

-- A date of the Gregorian calendar, as many days after 1 January 1970 as `days`.
abbrev pub IsDate : ℕ → Date → Type 0
IsDate days d =
    (1970 ≤ d.year)
    × (1 ≤ d.month)
    × (d.month ≤ 12)
    × (1 ≤ d.day)
    × (d.day ≤ month_length d.year d.month)
    × (date_number d ≡ day_number 1970 + days)

built-IsDate :
    (days y k d : ℕ)
    → 1970 ≤ y
    → k < 12
    → d < get_or (months y) k 0
    → day_number y + total (months y) k + d ≡ day_number 1970 + days
    → IsDate days (record { year = y; month = 1 + k; day = d + 1 })
built-IsDate days y k d later small less same =
    let at : 1 + k - 1 ≡ k = omega arith in
    let next : k + 1 ≡ 1 + k = omega arith in
    let end : d + 1 - 1 ≡ d = omega arith in
    (
      later,
      omega arith,
      omega arith,
      omega arith,
      subst (λ j. d + 1 ≤ month_length y j) next
          (subst (λ n. d + 1 ≤ n) (months_lem y k (omega arith) small) (omega arith)),
      ap₂ (λ j e. day_number y + days_before y j + e) at end
          ∙ ap (λ n. day_number y + n + d) (sym (total-days_before y k (omega arith) (omega arith)))
          ∙ same,
    )

-- calendar_get_date gives a date of the Gregorian calendar: a year from 1970, a month from 1 to 12, a
-- day from 1 to the month's length, which is 30 in April, June, September and November, in February
-- what is left of the year, and 31 in the others, as many days after 1 January 1970 as the seconds make. The
-- days are fuel enough for its loop over the years.
pub get_date_lem :
    (clock : Option ℕ) (uptime : ℕ) → IsDate (seconds clock uptime / 86400) (get_date clock uptime)
unfolding get_date
get_date_lem clock uptime =
    let days = seconds clock uptime / 86400 in
    let (later, less, same) = year_loop_lem days days 1970 (omega arith) (omega arith) in
    let y = (year_loop days days 1970).0 in
    let d = (year_loop days days 1970).1 in
    let (size, whole) = twelve y in
    let fits : d < total (months y) (length (months y)) =
      subst (λ n. d < total (months y) n) (sym size) (omega (arith, whole)) in
    let (k, d', got, small, less', same') =
      month_loop_lem (is_leap_year y) days_in_month 0 d fits in
    let plain : 0 + k ≡ k = omega arith in
    let got' : month_loop (is_leap_year y) days_in_month 0 d ≡ (k, d') =
      got ∙ ap (λ (j : ℕ). (j, d')) plain in
    let date : record { year = y; month = 1 + k; day = d' + 1 } ≡ get_date clock uptime =
      ap (λ (p : ℕ × ℕ). record { year = y; month = 1 + p.0; day = p.1 + 1 }) (sym got') in
    subst (IsDate days) date
      (built-IsDate days y k d' later (omega (arith, size)) less' (omega (arith, same, same')))

-- calendar_get_time gives hours below 24, minutes and seconds below 60, which make up the seconds of
-- the day.
pub get_time_lem :
    (clock : Option ℕ) (uptime : ℕ)
    → let t = get_time clock uptime in
      (t.hour < 24)
      × (t.minute < 60)
      × (t.second < 60)
      × (3600 * t.hour + 60 * t.minute + t.second ≡ seconds clock uptime % 86400)
unfolding get_time
get_time_lem clock uptime = (omega arith, omega arith, omega arith, omega arith)
