-- ===== src/Carbon/Periods/Windows.antt =====
-- The two modules that compute windows of periods agree on the completed ones.
use khalij_intelligent_energ.Base.{
  ℕ, ◌+◌, ◌-◌, ◌/◌, ◌%◌, ◌≤◌, true, false, ◌≡◌, refl, ◌==◌, ltb, some, Bool-cases, inl, inr, arith,
  if◌then◌else◌,
}
use khalij_intelligent_energ.Base.IntFloat.{negsuc}
use khalij_intelligent_energ.Carbon.Model.{PeriodType}
use khalij_intelligent_energ.Carbon.Periods.{
  Moment, is_date, datetime, add_months, period_window, previous_daily_window,
  previous_monthly_window, previous_yearly_window, window_for,
}

datetime_lem :
    (y m d : ℕ)
    → is_date y m d ≡ true
    → datetime y m d ≡ some (record { year = y; month = m; day = d; clock = 0 })
unfolding datetime
datetime_lem y m d h = rw h refl

first_of_month : (y m d : ℕ) → is_date y m d ≡ true → is_date y m 1 ≡ true
unfolding is_date
first_of_month y m d h = ground arith

first_of_year : (y m d : ℕ) → is_date y m d ≡ true → is_date y 1 1 ≡ true
unfolding is_date
first_of_year y m d h = ground arith

month_bounds : (y m d : ℕ) → is_date y m d ≡ true → (1 ≤ y) × (1 ≤ m) × (m ≤ 12)
unfolding is_date
month_bounds y m d h = (ground arith, ground arith, ground arith)

add_months_back :
    (y m : ℕ)
    → 1 ≤ y
    → 1 ≤ m
    → m ≤ 12
    → add_months (record { year = y; month = m; day = 1; clock = 0 }) (negsuc 0)
      ≡ (if m == 1 then datetime (y - 1) 12 1 else datetime y (m - 1) 1)
unfolding add_months
add_months_back y m hy low high = elim (Bool-cases (m == 1)) [
  | inl first ↦
      let one : m ≡ 1 = ground arith in
      let later : ltb y 1 ≡ false = ground arith in rw (first, one, later) refl
  | inr other ↦
      let a : ltb m 1 ≡ false = ground arith in
      let b : ltb (m - 1) 1 ≡ false = ground arith in
      let year : y + (m - 1 - 1) / 12 ≡ y = ground arith in
      let month : (m - 1 - 1) % 12 + 1 ≡ m - 1 = ground arith in rw (other, a, b, year, month) refl
]

-- For an instant of UTC whose date is one of the calendar, the window of the last completed period that
-- the reports are made for is the one of periods.py.
pub period_window_as_window_for :
    (period : PeriodType) (m : Moment)
    → is_date m.year m.month m.day ≡ true
    → period_window period m true ≡ window_for period m true
unfolding period_window window_for previous_daily_window previous_monthly_window
    previous_yearly_window
period_window_as_window_for PeriodType.daily m h = rw (datetime_lem m.year m.month m.day h) refl
period_window_as_window_for PeriodType.monthly m h =
    let bounds = month_bounds m.year m.month m.day h in
    rw
      (
        datetime_lem m.year m.month 1 (first_of_month m.year m.month m.day h),
        add_months_back m.year m.month bounds.0 bounds.1 bounds.2,
      )
      refl
period_window_as_window_for PeriodType.yearly m h =
    rw (datetime_lem m.year 1 1 (first_of_year m.year m.month m.day h)) refl
