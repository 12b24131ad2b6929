-- ===== src/Dates/Tests.antt =====
-- The date helpers on dates of 2026 and 2027.
use leave_ledger.Common.{◌≡◌, refl, [], ◌∷◌}
use leave_ledger.Dates.{
  IsoDate, iso_day, utc_day, epoch_day, calculate_days_requested, calculate_working_days,
}

abbrev monday : IsoDate
monday = record { year = 2026; month = 12; day = 28 }

abbrev friday : IsoDate
friday = record { year = 2027; month = 1; day = 1 }

abbrev next_friday : IsoDate
next_friday = record { year = 2027; month = 1; day = 8 }

epoch : utc_day (record { year = 1970; month = 1; day = 1 }) ≡ epoch_day
unfolding utc_day iso_day
epoch = refl

leap_day :
    calculate_days_requested
      (record { year = 2028; month = 2; day = 28 })
      (record { year = 2028; month = 3; day = 1 })
    ≡ 3
unfolding calculate_days_requested utc_day iso_day
leap_day = refl

-- Two weeks less two weekend days and New Year's Day.
fortnight : calculate_working_days monday next_friday (6 ∷ 0 ∷ []) (utc_day friday ∷ []) ≡ 9
unfolding calculate_working_days utc_day iso_day
fortnight = refl
