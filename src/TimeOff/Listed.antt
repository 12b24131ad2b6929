-- ===== src/TimeOff/Listed.antt =====
-- `listRequests` on a table of three requests, two of which are in the employee's first location.
use leave_ledger.Common.{
  ℕ, zero, suc, ◌*◌, ◌≤◌, ◌≡◌, refl, ◌<◌, arith, length, keep, map, min, some, none, List, [], ◌∷◌,
}
use leave_ledger.Common.Int.{pos}
use leave_ledger.Constants.{RequestStatus, status_eq}
use leave_ledger.Database.Paged.{Paged, list_paged, NewestFirst}
use leave_ledger.Entities.{TimeOffRequest, same_request, request_conflict, serialize_request}
use leave_ledger.Store.{list_database}
use leave_ledger.TimeOff.Create.{new_request}
use leave_ledger.TimeOff.Listing.{
  Filters, matches, HasDistinctTimes, list_requests, read_pages, read_pages_complete,
  read_pages-gap,
}
use leave_ledger.TimeOff.Tests.{env, dto}
use mathlib.Core.List.{Perm}

abbrev first_week : TimeOffRequest
first_week = new_request env dto "k1" 5

abbrev second_week : TimeOffRequest
second_week = record (new_request env dto "k2" 4) { id = "r2" }

abbrev elsewhere : TimeOffRequest
elsewhere = record (new_request env dto "k3" 3) { id = "r3"; location_id = "l2" }

abbrev table : List TimeOffRequest
table = first_week ∷ elsewhere ∷ second_week ∷ []

-- A creation time that grows with the number of days.
abbrev created : TimeOffRequest → ℕ
created r = elim r.days_requested [ pos n ↦ n | _ ↦ 0 ]

-- Two requests per page, of the requests in the first location.
abbrev in_pairs : Filters
in_pairs = record {
  employee_id = some "e1";
  location_id = some "l1";
  status = some RequestStatus.pending;
  limit = some 2;
  offset = none;
}

abbrev by_days : Paged list_database.requests created
by_days = list_paged same_request request_conflict created

two_match : length (keep (matches in_pairs) table) ≤ 1 * min 2 100
unfolding matches new_request status_eq
two_match = omega arith

two_times : HasDistinctTimes list_database.requests created by_days in_pairs table
unfolding matches new_request status_eq
two_times = ((λ e. absurd (omega (arith, e)), tt), (tt, tt))

two_pages : list_requests list_database.requests created by_days in_pairs table ≡ record {
  data_page = serialize_request first_week ∷ serialize_request second_week ∷ [];
  total = 2;
  limit = 2;
  offset = 0;
}
unfolding list_requests matches new_request status_eq
two_pages = refl

read_pages_complete_example :
    (rs : List TimeOffRequest) × (read_pages list_database.requests created by_days 1 2 in_pairs 0
        table
      ≡ map serialize_request rs)
    × Perm rs (keep (matches in_pairs) table)
    × NewestFirst created rs
read_pages_complete_example =
    read_pages_complete list_database.requests created by_days 1 2 in_pairs table refl two_times
      two_match

-- A hundred and fifty requests, and a client that asks for two hundred at a time.
abbrev copies : ℕ → List TimeOffRequest
copies zero = []
copies (suc n) = first_week ∷ copies n

abbrev everything : Filters
everything = record {
  employee_id = none;
  location_id = none;
  status = none;
  limit = some 200;
  offset = none;
}

all_match :
    (list_requests list_database.requests created by_days everything (copies 150)).total ≡ 150
unfolding list_requests matches new_request status_eq
all_match = refl

read_pages-gap_example :
    length (
      read_pages list_database.requests created by_days 3
        (list_requests list_database.requests created by_days everything (copies 150)).limit
        everything
        0
        (copies 150))
    < (list_requests list_database.requests created by_days everything (copies 150)).total
read_pages-gap_example =
    read_pages-gap list_database.requests created by_days 3 200 everything (copies 150) refl
      (omega arith) (omega (arith, all_match))
