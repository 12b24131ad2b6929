-- ===== src/Health/Aggregator.antt =====
-- src/common/utils/health-aggregator.util.js. A probe is its outcome: the status that it resolves to
-- (`details` are left out), or the message of what it throws.
use leave_ledger.Common.{
  ◌≡◌, String, Bool, true, false, ◌||◌, Option, none, some, List, [], ◌∷◌, ◌++◌, map, put,
  if◌then◌else◌,
}
use leave_ledger.Common.Eq.{◌==◌, String-Eq}
use leave_ledger.Common.Keyed.{at_key}

pub data Probe : Type 0 where
  resolved : Option String → Probe
  thrown : String → Probe

pub record Indicator : Type 0 where
  pub name : String
  pub probe : Probe

pub record IndicatorReport : Type 0 where
  pub name : String
  pub status : String
  pub error : Option String

pub data Overall : Type 0 where
  healthy degraded unhealthy : Overall

-- registerIndicator: a map keeps the place of a key that is set again.
unfoldable pub register_indicator : String → Probe → List Indicator → List Indicator
register_indicator name probe =
    put (at_key (λ (i : Indicator). i.name) name) (record { name = name; probe = probe })

-- The loop of `check`: the results, `isDegraded` and `isUnhealthy`.
pub record Checked : Type 0 where
  pub results : List IndicatorReport
  pub is_degraded : Bool
  pub is_unhealthy : Bool

unfoldable pub check_one : Indicator → Checked → Checked
check_one i c = elim i.probe [
  | resolved status ↦ record {
    results =
        c.results
        ++ record { name = i.name; status = elim status [ none ↦ "up" | some s ↦ s ]; error = none }
          ∷ [];
    is_degraded = elim status [ none ↦ c.is_degraded | some s ↦ c.is_degraded || s == "degraded" ];
    is_unhealthy = elim status [ none ↦ c.is_unhealthy | some s ↦ c.is_unhealthy || s == "down" ];
  }
  | thrown message ↦ record c {
    results = c.results ++ record { name = i.name; status = "down"; error = some message } ∷ [];
    is_unhealthy = true;
  }
]

unfoldable pub check_all : List Indicator → Checked → Checked
unfolding check_one
check_all [] c = c
check_all (i ∷ is) c = check_all is (check_one i c)

-- check
unfoldable pub check : List Indicator → Overall × List IndicatorReport
unfolding check_all
check is =
    let c = check_all is (record { results = []; is_degraded = false; is_unhealthy = false }) in
    (if c.is_unhealthy then unhealthy else if c.is_degraded then degraded else healthy, c.results)

-- The verdicts of a single probe.
abbrev pub fails : Indicator → Bool
fails i = elim i.probe [
  | resolved none ↦ false
  | resolved (some s) ↦ s == "down"
  | thrown message ↦ true
]

abbrev pub limps : Indicator → Bool
limps i = elim i.probe [
  | resolved none ↦ false
  | resolved (some s) ↦ s == "degraded"
  | thrown message ↦ false
]

-- What a probe adds to the report.
record IsAdded (i : Indicator) (c new : Checked) : Type 0 where
  unwell : new.is_unhealthy ≡ (c.is_unhealthy || fails i)
  limping : new.is_degraded ≡ (c.is_degraded || limps i)
  named : map (λ r. r.name) new.results ≡ map (λ r. r.name) c.results ++ i.name ∷ []
