-- ===== src/Dates/Overlap.antt =====
-- What datesOverlap and calculateWorkingDays of src/common/utils/date.util.js compute.
use leave_ledger.Common.{max, ◌-◌, ℕ, zero, suc, ◌+◌, ◌≤◌, ◌≡◌, ◌↔◌, true, List, [], arith, refl}
use leave_ledger.Dates.{
  IsoDate, utc_day, dates_overlap, calculate_days_requested, count_working_days,
  calculate_working_days,
}

-- Two ranges that do not end before they start overlap exactly when some day lies in both.
pub dates_overlap_iff :
    (start1 end1 start2 end2 : IsoDate)
    → utc_day start1 ≤ utc_day end1
    → utc_day start2 ≤ utc_day end2
    → (dates_overlap start1 end1 start2 end2 ≡ true) ↔ (
        (day : ℕ) × (utc_day start1 ≤ day)
        × (day ≤ utc_day end1)
        × (utc_day start2 ≤ day)
        × (day ≤ utc_day end2))
unfolding dates_overlap
dates_overlap_iff start1 end1 start2 end2 h1 h2 = (
  λ e. (max (utc_day start1) (utc_day start2), grind arith, grind arith, grind arith, grind arith),
  λ (day, a, b, c, d). ground arith,
)

pub dates_overlap_comm :
    (start1 end1 start2 end2 : IsoDate)
    → dates_overlap start1 end1 start2 end2 ≡ dates_overlap start2 end2 start1 end1
unfolding dates_overlap
dates_overlap_comm start1 end1 start2 end2 = ground arith

count_working_days-le :
    (weekend holidays : List ℕ) (left current : ℕ)
    → count_working_days weekend holidays left current ≤ left
unfolding count_working_days
count_working_days-le weekend holidays zero current = omega arith
count_working_days-le weekend holidays (suc left) current =
    ground (arith, count_working_days-le weekend holidays left (current + 1))

count_working_days_all : (left current : ℕ) → count_working_days [] [] left current ≡ left
unfolding count_working_days
count_working_days_all zero current = refl
count_working_days_all (suc left) current = omega (arith, count_working_days_all left (current + 1))

-- On a range that does not end before it starts calculateWorkingDays never exceeds
-- calculateDaysRequested, and with neither weekend days nor holidays the two agree.
pub calculate_working_days-le-requested :
    (start end : IsoDate) (weekend holidays : List ℕ)
    → utc_day start ≤ utc_day end
    → (calculate_working_days start end weekend holidays ≤ calculate_days_requested start end)
      × (calculate_working_days start end [] [] ≡ calculate_days_requested start end)
unfolding calculate_working_days calculate_days_requested
calculate_working_days-le-requested start end weekend holidays h =
    let left = utc_day end + 1 - utc_day start in
    (
      omega (arith, count_working_days-le weekend holidays left (utc_day start)),
      omega (arith, count_working_days_all left (utc_day start)),
    )
