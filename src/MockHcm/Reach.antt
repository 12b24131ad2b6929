-- ===== src/MockHcm/Reach.antt =====
-- The states that mock-hcm/src/server.js reaches by requests with sensible amounts.
use leave_ledger.Common.{
  ◌≡◌, ◌≢◌, refl, String, Bool, true, ◌||◌, Option, none, some, List, map_where, All-map_where,
  Pairs-map_where, Bool-cases, Option-cases, inl, inr, arith,
}
use leave_ledger.Common.Int.{ℤ, pos, ◌≤ℤ◌, ltb_ℤ, not_ltb_ℤ→le, ltb_ℤ→lt}
use leave_ledger.MockHcm.{
  Passage, Place, Holding, Server, Reply, Draw, balance_key, holding_at, ensure, moved, taken,
  is_missing, simulate_instability,
}
use leave_ledger.MockHcm.Routes.{
  Filing, Action, next_version, filing_place, file_days, time_off, put_balance, serve,
}
use leave_ledger.MockHcm.Admin.{
  Selection, Changes, selected, renewed, inject, anniversary_refresh, year_refresh, change_behavior,
  reset_behavior,
}
use leave_ledger.MockHcm.Sound.{
  IsCovered, IsSound, put-IsSound, ensure-IsSound, holding-IsCovered, taken-IsCovered,
  moved-IsCovered,
}

-- A request that changes the state; amounts of balance updates and injected balances are sensible.
pub data Call : Type 0 where
  filing : Filing → String → Call
  update : (p : Place) (days : ℤ) → pos 0 ≤ℤ days → Action → String → Call
  injection :
      (p : Place) (total available : ℤ) → pos 0 ≤ℤ available → available ≤ℤ total → String → Call
  anniversary : Selection → Option (Option ℤ) → String → Call
  year : Option (Option ℤ) → String → Call
  changes : Changes → Call
  calming : Call

abbrev pub handle : Call → Server → Reply × Server
handle (Call.filing f version) s = time_off f version s
handle (Call.update p days positive action version) s = put_balance p (some days) action version s
handle (Call.injection p total available h k version) s = inject p total available version s
handle (Call.anniversary c g version) s = anniversary_refresh c g version s
handle (Call.year t version) s = year_refresh t version s
handle (Call.changes c) s = change_behavior c s
handle Call.calming s = reset_behavior s

-- Requests pass the middleware, whatever it draws.
pub data Reachable (start : Server) : Server → Type 0 where
  started : Reachable start start
  served :
      {s : Server} (d : Draw) (c : Call)
      → Reachable start s
      → Reachable start (serve d (handle c) s).1
  administered : {s : Server} (c : Call) → Reachable start s → Reachable start (handle c s).1

file_days-IsSound :
    (p : Place) (days : ℤ) (reference_id : Option String) (version : String) (s : Server)
    → ltb_ℤ (pos 0) days ≡ true
    → IsSound s.balances
    → IsSound (file_days p days reference_id version s).1.balances
unfolding file_days
file_days-IsSound p days reference_id version s positive h =
    let kept = ensure-IsSound p s.balances h in
    let r = holding_at p (ensure p s.balances) in
    let (covered, key) = holding-IsCovered p (ensure p s.balances) kept in
    elim (Bool-cases (ltb_ℤ r.available_balance days)) [
      | inl short ↦ rw (file_days, short) kept
      | inr enough ↦
          let lt = ltb_ℤ→lt (pos 0) days positive in
          rw (file_days, enough)
            (put-IsSound p (taken days version r) (ensure p s.balances) key
              (taken-IsCovered days version r covered (omega arith) enough) kept)
    ]

time_off-IsSound :
    (f : Filing) (version : String) (s : Server)
    → IsSound s.balances
    → IsSound (time_off f version s).1.balances
unfolding time_off
time_off-IsSound f version s h =
    elim (Bool-cases
      (is_missing f.employee_id || is_missing f.location_id || is_missing f.leave_type)) [
        | inl missing ↦ rw (time_off, missing) h
        | inr complete ↦ elim (Option-cases f.days_requested) [
          | inl absent ↦ rw (time_off, complete, absent) h
          | inr (n, present) ↦ elim (Option-cases n) [
            | inl unreadable ↦ rw (time_off, complete, present, unreadable) h
            | inr (days, number) ↦ elim (Bool-cases (ltb_ℤ (pos 0) days)) [
              | inl positive ↦
                  rw (time_off, complete, present, number, positive)
                    (file_days-IsSound (filing_place f) days f.reference_id version s positive h)
              | inr zero_or_less ↦ rw (time_off, complete, present, number, zero_or_less) h
            ]
          ]
        ]
      ]

put_balance-IsSound :
    (p : Place) (days : ℤ) (action : Action) (version : String) (s : Server)
    → pos 0 ≤ℤ days
    → IsSound s.balances
    → IsSound (put_balance p (some days) action version s).1.balances
unfolding put_balance
put_balance-IsSound p days Action.approve version s positive h =
    let kept = ensure-IsSound p s.balances h in
    let r = holding_at p (ensure p s.balances) in
    let (covered, key) = holding-IsCovered p (ensure p s.balances) kept in
    let v = next_version s.behavior version r in
    elim (Bool-cases (ltb_ℤ r.available_balance days)) [
      | inl short ↦ rw (put_balance, short) kept
      | inr enough ↦
          rw (put_balance, enough)
            (put-IsSound p (taken days v r) (ensure p s.balances) key
              (taken-IsCovered days v r covered positive enough) kept)
    ]
put_balance-IsSound p days Action.reject version s positive h =
    let kept = ensure-IsSound p s.balances h in
    let r = holding_at p (ensure p s.balances) in
    let (covered, key) = holding-IsCovered p (ensure p s.balances) kept in
    let v = next_version s.behavior version r in
    put-IsSound p (moved days v r) (ensure p s.balances) key
      (moved-IsCovered days v r covered positive) kept
put_balance-IsSound p days Action.other_action version s positive h = ensure-IsSound p s.balances h

map_where-IsSound :
    (p : Holding → Bool) (f : Holding → Holding) (rs : List Holding)
    → ((r : Holding) → IsCovered r → IsCovered (f r))
    → ((r : Holding) → balance_key (f r).place ≡ balance_key r.place)
    → IsSound rs
    → IsSound (map_where p f rs)
map_where-IsSound p f rs covered same h = record {
  covered = All-map_where IsCovered p f rs (λ r c e. covered r c) h.covered;
  keyed =
      Pairs-map_where (λ x y. balance_key x.place ≢ balance_key y.place) p f rs
        (λ x y differs. rw (same x) differs) (λ x y differs. rw (same y) differs) h.keyed;
}

anniversary-IsSound :
    (c : Selection) (g : Option (Option ℤ)) (version : String) (s : Server)
    → IsSound s.balances
    → IsSound (anniversary_refresh c g version s).1.balances
unfolding anniversary_refresh
anniversary-IsSound c none version s h =
    map_where-IsSound (selected c) (moved (pos 1000) version) s.balances
      (λ r covered. moved-IsCovered (pos 1000) version r covered (omega arith)) (λ r. refl) h
anniversary-IsSound c (some none) version s h = h
anniversary-IsSound c (some (some g)) version s h = elim (Bool-cases (ltb_ℤ (pos 0) g)) [
  | inl positive ↦
      let lt = ltb_ℤ→lt (pos 0) g positive in
      rw (anniversary_refresh, positive)
        (map_where-IsSound (selected c) (moved g version) s.balances
          (λ r covered. moved-IsCovered g version r covered (omega arith)) (λ r. refl) h)
  | inr zero_or_less ↦ rw (anniversary_refresh, zero_or_less) h
]

renewed-IsCovered :
    (total : ℤ) (version : String) (r : Holding)
    → pos 0 ≤ℤ total
    → IsCovered (renewed total version r)
renewed-IsCovered total version r h = record { not_negative = h; within = omega arith }

year-IsSound :
    (t : Option (Option ℤ)) (version : String) (s : Server)
    → IsSound s.balances
    → IsSound (year_refresh t version s).1.balances
unfolding year_refresh
year-IsSound none version s h =
    map_where-IsSound (λ r. true) (renewed (pos 15000) version) s.balances
      (λ r covered. renewed-IsCovered (pos 15000) version r (omega arith)) (λ r. refl) h
year-IsSound (some none) version s h = h
year-IsSound (some (some t)) version s h = elim (Bool-cases (ltb_ℤ t (pos 0))) [
  | inl negative ↦ rw (year_refresh, negative) h
  | inr fine ↦
      rw (year_refresh, fine)
        (map_where-IsSound (λ r. true) (renewed t version) s.balances
          (λ r covered. renewed-IsCovered t version r (not_ltb_ℤ→le t (pos 0) fine)) (λ r. refl) h)
]

change_behavior-balances :
    (c : Changes) (s : Server) → (change_behavior c s).1.balances ≡ s.balances
unfolding change_behavior
change_behavior-balances c s = ground arith

handle-IsSound : (c : Call) (s : Server) → IsSound s.balances → IsSound (handle c s).1.balances
unfolding inject reset_behavior
handle-IsSound (Call.filing f version) s h = time_off-IsSound f version s h
handle-IsSound (Call.update p days positive action version) s h =
    put_balance-IsSound p days action version s positive h
handle-IsSound (Call.injection p total available below within version) s h =
    put-IsSound p
      (record {
        place = p;
        total_balance = total;
        available_balance = available;
        version = version;
      })
      s.balances refl (record { not_negative = below; within = within }) h
handle-IsSound (Call.anniversary c g version) s h = anniversary-IsSound c g version s h
handle-IsSound (Call.year t version) s h = year-IsSound t version s h
handle-IsSound (Call.changes c) s h = rw (change_behavior-balances c s) h
handle-IsSound Call.calming s h = h

serve-IsSound :
    (d : Draw) (c : Call) (s : Server)
    → IsSound s.balances
    → IsSound (serve d (handle c) s).1.balances
unfolding serve
serve-IsSound d c s h =
    let b = (simulate_instability d s.behavior).1 in
    let handled = handle-IsSound c (record s { behavior = b }) h in
    go (simulate_instability d s.behavior).0 refl handled
  where
    go :
        (passage : Passage)
        → (simulate_instability d s.behavior).0 ≡ passage
        → IsSound
            (handle c (record s { behavior = (simulate_instability d s.behavior).1 })).1.balances
        → IsSound (serve d (handle c) s).1.balances
    go Passage.prompt e handled = rw (serve, e) handled
    go Passage.late e handled = rw (serve, e) handled
    go Passage.unavailable e handled = rw (serve, e) h

-- From balances in the invariant, no sequence of requests, lost answers and delays included, leaves
-- one that is not: the keys of records stay distinct, and of every record the available days are not
-- negative and at most the total. Updates are by amounts that are not negative, and injected
-- balances are in the invariant.
pub Reachable-IsSound :
    (start s : Server) → IsSound start.balances → Reachable start s → IsSound s.balances
Reachable-IsSound start s h Reachable.started = h
Reachable-IsSound start s h (Reachable.served {s = e} d c r) =
    serve-IsSound d c e (Reachable-IsSound start e h r)
Reachable-IsSound start s h (Reachable.administered {s = e} c r) =
    handle-IsSound c e (Reachable-IsSound start e h r)
