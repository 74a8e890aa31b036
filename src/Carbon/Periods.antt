-- ===== src/Carbon/Periods.antt =====
-- app/carbon/periods.py, and `period_window` of app/carbon/reports.py: the windows of daily, monthly
-- and yearly reports, on instants of UTC. A date that Python's `datetime` refuses is `none`.
pub mod Windows
mod Examples
use khalij_intelligent_energ.Base.{
  ℕ, ◌+◌, ◌-◌, ◌/◌, ◌%◌, Bool, true, false, ◌&&◌, ◌||◌, not, ◌==◌, ltb, leb, Option, none, some,
  if◌then◌else◌,
}
use khalij_intelligent_energ.Base.IntFloat.{ℤ, pos, negsuc, int_add, difference}
use khalij_intelligent_energ.Carbon.Model.{PeriodType}

-- An instant, its time of the day in microseconds.
pub record Moment : Type 0 where
  pub year : ℕ
  pub month : ℕ
  pub day : ℕ
  pub clock : ℕ

pub record Period : Type 0 where
  pub period_type : PeriodType
  pub start : Moment
  pub end : Moment

abbrev pub is_leap : ℕ → Bool
is_leap year = year % 4 == 0 && (not (year % 100 == 0) || year % 400 == 0)

abbrev pub days_in_month : ℕ → ℕ → ℕ
days_in_month year month =
    if month == 2
    then (if is_leap year then 29 else 28)
    else if month == 4 || month == 6 || month == 9 || month == 11
    then 30
    else 31

unfoldable pub is_date : ℕ → ℕ → ℕ → Bool
is_date year month day =
    leb 1 year
    && leb year 9999
    && leb 1 month
    && leb month 12
    && leb 1 day
    && leb day (days_in_month year month)

-- `datetime(year, month, day)`, or `dt.replace(...)` at midnight
unfoldable pub datetime : ℕ → ℕ → ℕ → Option Moment
unfolding is_date
datetime year month day =
    if is_date year month day
    then some (record { year = year; month = month; day = day; clock = 0 })
    else none

abbrev pub midnight : Moment → Moment
midnight m = record m { clock = 0 }

-- `dt - timedelta(days=1)`
unfoldable pub day_before : Moment → Option Moment
day_before m =
    if ltb 1 m.day
    then some (record m { day = m.day - 1 })
    else if ltb 1 m.month
    then some (record m { month = m.month - 1; day = days_in_month m.year (m.month - 1) })
    else if ltb 1 m.year
    then some (record m { year = m.year - 1; month = 12; day = 31 })
    else none

-- `dt + timedelta(days=1)`
unfoldable pub day_after : Moment → Option Moment
day_after m =
    if ltb m.day (days_in_month m.year m.month)
    then some (record m { day = m.day + 1 })
    else if ltb m.month 12
    then some (record m { month = m.month + 1; day = 1 })
    else if ltb m.year 9999
    then some (record m { year = m.year + 1; month = 1; day = 1 })
    else none

-- Python's `n // 12` and `n % 12`
abbrev pub floor_div12 : ℤ → ℤ
floor_div12 (pos n) = pos (n / 12)
floor_div12 (negsuc n) = negsuc (n / 12)

abbrev pub floor_mod12 : ℤ → ℕ
floor_mod12 (pos n) = n % 12
floor_mod12 (negsuc n) = 11 - n % 12

abbrev pub replaced : ℤ → ℕ → Option Moment
replaced (pos year) month = datetime year month 1
replaced (negsuc year) month = none

-- `_add_months`, of a first of a month at midnight
unfoldable pub add_months : Moment → ℤ → Option Moment
unfolding datetime
add_months m months =
    let month = int_add (difference m.month 1) months in
    replaced (int_add (pos m.year) (floor_div12 month)) (floor_mod12 month + 1)

abbrev pub between : PeriodType → Option Moment → Moment → Option Period
between period none end = none
between period (some start) end = some (record { period_type = period; start = start; end = end })

abbrev pub ending : PeriodType → (Moment → Option Moment) → Option Moment → Option Period
ending period back none = none
ending period back (some end) = between period (back end) end

abbrev pub year_before : Moment → Option Moment
year_before m = datetime (m.year - 1) m.month m.day

-- app/carbon/reports.py
unfoldable pub period_window : PeriodType → Moment → Bool → Option Period
unfolding day_before day_after add_months datetime
period_window PeriodType.daily m completed =
    ending PeriodType.daily day_before
      (if completed then some (midnight m) else day_after (midnight m))
period_window PeriodType.monthly m completed =
    let first = record m { day = 1; clock = 0 } in
    ending PeriodType.monthly (λ end. add_months end (negsuc 0))
      (if completed then some first else add_months first (pos 1))
period_window PeriodType.yearly m completed =
    let first = record m { month = 1; day = 1; clock = 0 } in
    ending PeriodType.yearly year_before
      (if completed then some first else datetime (m.year + 1) 1 1)

-- app/carbon/periods.py
unfoldable pub previous_daily_window : Moment → Option Period
unfolding datetime day_before
previous_daily_window now = ending PeriodType.daily day_before (datetime now.year now.month now.day)

unfoldable pub previous_monthly_window : Moment → Option Period
unfolding datetime
previous_monthly_window now =
    ending PeriodType.monthly
      (λ end.
        if now.month == 1
        then datetime (now.year - 1) 12 1
        else datetime now.year (now.month - 1) 1)
      (datetime now.year now.month 1)

unfoldable pub previous_yearly_window : Moment → Option Period
unfolding datetime
previous_yearly_window now =
    ending PeriodType.yearly (λ end. datetime (now.year - 1) 1 1) (datetime now.year 1 1)

unfoldable pub window_for : PeriodType → Moment → Bool → Option Period
unfolding previous_daily_window previous_monthly_window previous_yearly_window
window_for PeriodType.daily now true = previous_daily_window now
window_for PeriodType.monthly now true = previous_monthly_window now
window_for PeriodType.yearly now true = previous_yearly_window now
window_for PeriodType.daily now false =
    between PeriodType.daily (datetime now.year now.month now.day) now
window_for PeriodType.monthly now false =
    between PeriodType.monthly (datetime now.year now.month 1) now
window_for PeriodType.yearly now false = between PeriodType.yearly (datetime now.year 1 1) now
