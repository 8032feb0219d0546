-- ===== src/Calendar/Examples.antt =====
-- Dates and times of day at concrete seconds.
use shadow_box_os.Common.{◌≡◌, refl, some, none}
use shadow_box_os.Calendar.{get_date, get_time, year_loop, month_loop}
use shadow_box_os.Calendar.Dates.{IsDate, get_date_lem}

-- 2 March 1972 is the 62nd day of its year.
leap_day_passed : get_date (some 68342400) 0 ≡ record { year = 1972; month = 3; day = 2 }
unfolding get_date year_loop month_loop
leap_day_passed = refl

get_date_lem_example : IsDate 791 (get_date (some 68342400) 0)
get_date_lem_example = get_date_lem (some 68342400) 0

past_midnight : get_time none 90061 ≡ record { hour = 1; minute = 1; second = 1 }
unfolding get_time
past_midnight = refl
