-- ===== src/Calendar/Years.antt =====
-- The year and the month of a day, by the loops of kernel/calendar.c.
use shadow_box_os.Common.{
  ℕ, zero, suc, ◌+◌, ◌-◌, ◌*◌, ◌/◌, ◌≤◌, ◌<◌, ◌≡◌, refl, ap, arith, inl, inr, Bool, List, [], ◌∷◌,
  Bool-cases, leb, length, get_or,
}
use shadow_box_os.Calendar.{days_in_year, year_loop, month_len, month_loop}

-- The days from a fixed day to 1 January of the year: 365 for each year before, and one for each
-- fourth of them, but not for each hundredth, but for each four hundredth.
abbrev pub day_number : ℕ → ℕ
day_number year = 365 * year + (year - 1) / 4 - (year - 1) / 100 + (year - 1) / 400

-- The leap years of the code are those of this rule.
pub day_number_step : (y : ℕ) → 0 < y → day_number (y + 1) ≡ day_number y + days_in_year y
day_number_step y h = ground arith

year-le : (y : ℕ) → (365 ≤ days_in_year y) × (days_in_year y ≤ 366)
year-le y = ground arith

pub year_loop_lem :
    (fuel days year : ℕ)
    → days ≤ fuel
    → 0 < year
    → let (y, d) = year_loop fuel days year in
      (year ≤ y) × (d < days_in_year y) × (day_number y + d ≡ day_number year + days)
unfolding year_loop
year_loop_lem zero days year h p = (omega arith, omega (arith, year-le year), refl)
year_loop_lem (suc fuel) days year h p = elim (Bool-cases (leb (days_in_year year) days)) [
  | inl e ↦
      let enough : days_in_year year ≤ days = ground arith in
      let (later, less, same) =
        year_loop_lem fuel (days - days_in_year year) (year + 1) (omega (arith, year-le year))
          (omega arith) in
      rw (e, year_loop)
        (omega (arith, later), less, omega (arith, same, day_number_step year p, enough))
  | inr e ↦ rw (e, year_loop) (omega arith, ground arith, refl)
]

-- The lengths of the months from month `i`.
abbrev pub lens : Bool → List ℕ → ℕ → List ℕ
lens leap [] i = []
lens leap (dim ∷ dims) i = month_len leap i dim ∷ lens leap dims (i + 1)

-- The sum of the first `k`.
abbrev pub total : List ℕ → ℕ → ℕ
total [] k = 0
total (x ∷ xs) zero = 0
total (x ∷ xs) (suc k) = x + total xs k

pub month_loop_lem :
    (leap : Bool) (dims : List ℕ) (i days : ℕ)
    → let ls = lens leap dims i in
      days < total ls (length ls)
      → (k : ℕ) × (d : ℕ) × (month_loop leap dims i days ≡ (i + k, d))
        × (k < length ls)
        × (d < get_or ls k 0)
        × (total ls k + d ≡ days)
unfolding month_loop
month_loop_lem leap [] i days h = absurd (omega arith)
month_loop_lem leap (dim ∷ dims) i days h = elim (Bool-cases (leb (month_len leap i dim) days)) [
  | inl e ↦
      let enough : month_len leap i dim ≤ days = ground arith in
      let (k, d, got, small, less, same) =
        month_loop_lem leap dims (i + 1) (days - month_len leap i dim) (omega arith) in
      let next : i + 1 + k ≡ i + suc k = omega arith in
      (suc k, d, rw (e, got, next, month_loop) refl, omega arith, less, omega arith)
  | inr e ↦
      let same : i ≡ i + 0 = omega arith in
      (
        0,
        days,
        rw (e, month_loop) (ap (λ (x : ℕ). (x, days)) same),
        omega arith,
        ground arith,
        omega arith,
      )
]
