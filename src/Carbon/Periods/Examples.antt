-- ===== src/Carbon/Periods/Examples.antt =====
-- Windows at given dates.
use khalij_intelligent_energ.Base.{true, ◌≡◌, refl, some}
use khalij_intelligent_energ.Carbon.Model.{PeriodType}
use khalij_intelligent_energ.Carbon.Periods.{Moment, is_date, period_window, window_for}
use khalij_intelligent_energ.Carbon.Periods.Windows.{period_window_as_window_for}

-- Noon of 15 January 2026.
abbrev noon : Moment
noon = record { year = 2026; month = 1; day = 15; clock = 43200000000 }

noon_lem : is_date 2026 1 15 ≡ true
unfolding is_date
noon_lem = refl

period_window_as_window_for_example :
    period_window PeriodType.monthly noon true ≡ window_for PeriodType.monthly noon true
period_window_as_window_for_example = period_window_as_window_for PeriodType.monthly noon noon_lem

-- The month before January is the December of the year before.
december :
    period_window PeriodType.monthly noon true
    ≡ some (record {
      period_type = PeriodType.monthly;
      start = record { year = 2025; month = 12; day = 1; clock = 0 };
      end = record { year = 2026; month = 1; day = 1; clock = 0 };
    })
unfolding period_window
december = refl
