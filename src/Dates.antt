-- ===== src/Dates.antt =====
-- src/common/utils/date.util.js. A date string `YYYY-MM-DD` that passed validation is the three
-- numbers that `split('-').map(Number)` reads from it, the month from 1 to 12. `Date.UTC` and
-- `new Date` are given as the days they count; a day is 86,400,000 ms.
pub mod Overlap
mod Tests
use leave_ledger.Common.{
  ℕ, ◌+◌, ◌-◌, ◌*◌, ◌/◌, ◌%◌, Bool, ◌&&◌, ◌||◌, false, not, List, [], ◌∷◌, max, ltb, leb,
  if◌then◌else◌, zero, suc,
}
use leave_ledger.Common.Eq.{◌==◌, ℕ-Eq}

pub record IsoDate : Type 0 where
  pub year : ℕ
  pub month : ℕ
  pub day : ℕ

abbrev pub day_ms : ℕ
day_ms = 86_400_000

-- Days from the first of January of the year 0 to that of the year `y`.
unfoldable days_before_year : ℕ → ℕ
days_before_year y = 365 * y + (y + 3) / 4 + (y + 399) / 400 - (y + 99) / 100

unfoldable is_leap : ℕ → Bool
is_leap y = y % 4 == 0 && (not (y % 100 == 0)) || y % 400 == 0

-- Days of the year before the first of the month.
unfoldable days_before_month : ℕ → ℕ → ℕ
unfolding is_leap
days_before_month y m = (367 * m - 362) / 12 - (if ltb 2 m then (if is_leap y then 1 else 2) else 0)

-- The day that `new Date(date + 'T00:00:00Z')` names.
unfoldable pub iso_day : IsoDate → ℕ
unfolding days_before_year days_before_month
iso_day d = days_before_year d.year + days_before_month d.year d.month + d.day

-- The day that `Date.UTC(year, month - 1, day)` names: it takes the years 0 to 99 for 1900 to 1999.
unfoldable pub utc_day : IsoDate → ℕ
unfolding iso_day
utc_day d = iso_day (record d { year = if ltb d.year 100 then d.year + 1900 else d.year })

-- The day of the epoch's first millisecond, in the same count.
abbrev pub epoch_day : ℕ
epoch_day = 719_529

-- calculateDaysRequested. The difference of the two midnights is a whole number of days; where it is
-- negative, `Math.max` makes the result 1, as the truncated `-` does here.
unfoldable pub calculate_days_requested : IsoDate → IsoDate → ℕ
calculate_days_requested start end = max (utc_day end + 1 - utc_day start) 1

-- isNotInPast, at the clock reading `now`.
unfoldable pub is_not_in_past : ℕ → IsoDate → Bool
is_not_in_past now date = leb (epoch_day + now / day_ms) (utc_day date)

-- datesOverlap
unfoldable pub dates_overlap : IsoDate → IsoDate → IsoDate → IsoDate → Bool
dates_overlap start1 end1 start2 end2 =
    leb (utc_day start1) (utc_day end2) && leb (utc_day start2) (utc_day end1)

-- `getUTCDay`: 0 is Sunday. The first of January of the year 0 is a Saturday.
abbrev week_day : ℕ → ℕ
week_day d = (d + 5) % 7

unfoldable includes : ℕ → List ℕ → Bool
includes d [] = false
includes d (x ∷ xs) = x == d || includes d xs

-- The loop of calculateWorkingDays, on the days that are left.
unfoldable count_working_days : List ℕ → List ℕ → ℕ → ℕ → ℕ
unfolding includes
count_working_days weekend holidays zero current = 0
count_working_days weekend holidays (suc left) current =
    (if not (includes (week_day current) weekend) && not (includes current holidays) then 1 else 0)
    + count_working_days weekend holidays left (current + 1)

-- calculateWorkingDays; the holidays are the days that their ISO strings name.
unfoldable pub calculate_working_days : IsoDate → IsoDate → List ℕ → List ℕ → ℕ
unfolding count_working_days
calculate_working_days start end weekend holidays =
    count_working_days weekend holidays (utc_day end + 1 - utc_day start) (utc_day start)
