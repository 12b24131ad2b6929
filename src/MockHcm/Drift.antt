-- ===== src/MockHcm/Drift.antt =====
-- PUT /hcm/balance of mock-hcm/src/server.js with the service that sends it: the reconciliation of
-- src/modules/hcm/hcm-sync.service.js after an approval, and an approval sent again after a timeout.
use leave_ledger.Common.{ℕ, ◌≡◌, refl, ◌∙◌, ap, String, true, false, none, some, arith}
use leave_ledger.Common.Int.{
  ℤ, pos, ◌-ℤ◌, ◌+ℤ◌, ltb_ℤ, abs, int_laws, -ℤ_parts, parts_of_eq, ltb_ℤ→lt,
}
use leave_ledger.Common.Eq.{String-Eq, eq_self}
use leave_ledger.Balance.{BalanceKey, EmployeeBalance, finalize, local_total}
use leave_ledger.Hcm.Reconcile.{HcmRecord, reconcile}
use leave_ledger.MockHcm.{
  FailureMode, Behavior, Passage, Place, Holding, Server, Reply, Draw, drawn, balance_key,
  holding_at, ensure, taken, simulate_instability,
}
use leave_ledger.MockHcm.Routes.{Action, next_version, put_balance, serve}
use leave_ledger.MockHcm.Filed.{amounts, holding-put, holding-ensure, holding-key}

-- An approval of available days.
put_balance-approve :
    (p : Place) (days : ℤ) (version : String) (s : Server)
    → ltb_ℤ (holding_at p s.balances).available_balance days ≡ false
    → ((put_balance p (some days) Action.approve version s).0
        ≡ Reply.adjusted
            ((holding_at p s.balances).available_balance -ℤ days)
            (next_version s.behavior version (holding_at p s.balances)))
      × (holding_at p (put_balance p (some days) Action.approve version s).1.balances
          ≡ taken days
              (next_version s.behavior version (holding_at p s.balances))
              (holding_at p s.balances))
      × ((put_balance p (some days) Action.approve version s).1.behavior ≡ s.behavior)
unfolding put_balance
put_balance-approve p days version s enough =
    let old = holding_at p s.balances in
    let same = holding-ensure p s.balances in
    let v = next_version s.behavior version old in
    let put_there =
      holding-put p p (taken days v old) (ensure p s.balances) (holding-key p s.balances) in
    rw (put_balance, same, enough) (refl, put_there ∙ rw (eq_self (balance_key p)) refl, refl)

-- The element of the batch answer for a record, read with its key.
abbrev pub report : BalanceKey → Holding → HcmRecord
report k r = record { key = k; total_balance = r.total_balance; version = some r.version }

reconcile-less :
    (now : ℕ) (hcm : HcmRecord) (b : EmployeeBalance) (days : ℤ)
    → hcm.total_balance +ℤ days ≡ local_total b
    → ltb_ℤ (pos 10) days ≡ true
    → ((reconcile now hcm b).0 ≡ true)
      × ((reconcile now hcm b).1.has_discrepancy ≡ true)
      × ((reconcile now hcm b).1.discrepancy_amount ≡ some days)
      × ((reconcile now hcm b).1.available_balance ≡ b.available_balance)
unfolding reconcile abs
reconcile-less now hcm b days e big =
    let lt = ltb_ℤ→lt (pos 10) days big in
    let drift : hcm.total_balance -ℤ local_total b ≡ pos 0 -ℤ days =
      omega (int_laws, parts_of_eq (hcm.total_balance +ℤ days) (local_total b) e) in
    let negative : ltb_ℤ (pos 0 -ℤ days) (pos 0) ≡ true = ground (arith, -ℤ_parts (pos 0) days) in
    let small : ltb_ℤ (pos 10) (pos 0 -ℤ days) ≡ false = ground (arith, -ℤ_parts (pos 0) days) in
    let back : pos 0 -ℤ (pos 0 -ℤ days) ≡ days = omega int_laws in
    rw (reconcile, drift, abs, negative, back, big, small) (refl, refl, refl, refl)

-- The service finalizes a request of more than the tolerance, when its balance agrees with the HCM's,
-- and the HCM takes the approval: the next reconciliation of that balance reports a discrepancy of
-- just the days of the request, and leaves the available days as they are.
pub approve-discrepancy :
    (p : Place) (days : ℤ) (version : String) (s : Server) (b : EmployeeBalance) (now : ℕ)
    → (holding_at p s.balances).total_balance ≡ local_total b
    → ltb_ℤ (pos 10) days ≡ true
    → ltb_ℤ (holding_at p s.balances).available_balance days ≡ false
    → let after = (put_balance p (some days) Action.approve version s).1 in
      let synced = reconcile now (report b.key (holding_at p after.balances)) (finalize days b) in
      (synced.0 ≡ true)
      × (synced.1.has_discrepancy ≡ true)
      × (synced.1.discrepancy_amount ≡ some days)
      × (synced.1.available_balance ≡ b.available_balance)
unfolding finalize
approve-discrepancy p days version s b now agree big enough =
    let (reply, left, behavior) = put_balance-approve p days version s enough in
    let v = next_version s.behavior version (holding_at p s.balances) in
    rw left (
      reconcile-less now (report b.key (taken days v (holding_at p s.balances))) (finalize days b)
        days
        (omega
          (int_laws, parts_of_eq (holding_at p s.balances).total_balance (local_total b) agree))
        big)

-- The middleware with a timeout that is still forced, and with nothing forced.
simulate_instability-late :
    (d : Draw) (b : Behavior)
    → b.forced_failure_mode ≡ some FailureMode.mode_timeout
    → b.forced_failure_remaining ≡ 1
    → simulate_instability d b ≡ (Passage.late, record b { forced_failure_remaining = 0 })
unfolding simulate_instability
simulate_instability-late d b mode left = ground arith

serve-late :
    (d : Draw) (handler : Server → Reply × Server) (s : Server)
    → s.behavior.forced_failure_mode ≡ some FailureMode.mode_timeout
    → s.behavior.forced_failure_remaining ≡ 1
    → serve d handler s ≡ (
      none,
      (handler (record s { behavior = record (s.behavior) { forced_failure_remaining = 0 } })).1,
    )
unfolding serve
serve-late d handler s mode left =
    let delayed = simulate_instability-late d s.behavior mode left in
    rw (serve, ap (λ x. x.0) delayed, ap (λ x. x.1) delayed) refl

serve-prompt :
    (d : Draw) (handler : Server → Reply × Server) (s : Server)
    → s.behavior.forced_failure_remaining ≡ 0
    → drawn d ≡ Passage.prompt
    → serve d handler s ≡ (some (handler s).0, (handler s).1)
unfolding serve simulate_instability
serve-prompt d handler s left prompt = ground arith

-- The HCM is set to delay one more answer beyond the client's timeout. The service sends an approval,
-- sees no answer, and sends it again, which gets through: then the HCM has taken the days twice off
-- both amounts, if there are that many left.
pub put_balance_twice :
    (p : Place) (days : ℤ) (first_version second_version : String) (s : Server) (d1 d2 : Draw)
    → s.behavior.forced_failure_mode ≡ some FailureMode.mode_timeout
    → s.behavior.forced_failure_remaining ≡ 1
    → drawn d2 ≡ Passage.prompt
    → ltb_ℤ (holding_at p s.balances).available_balance days ≡ false
    → ltb_ℤ ((holding_at p s.balances).available_balance -ℤ days) days ≡ false
    → let once = serve d1 (put_balance p (some days) Action.approve first_version) s in
      let twice = serve d2 (put_balance p (some days) Action.approve second_version) once.1 in
      (once.0 ≡ none)
      × ((version : String) × (twice.0
            ≡ some (
                Reply.adjusted
                  ((holding_at p s.balances).available_balance -ℤ days -ℤ days)
                  version)))
      × (amounts (holding_at p twice.1.balances) ≡ (
        (holding_at p s.balances).total_balance -ℤ days -ℤ days,
        (holding_at p s.balances).available_balance -ℤ days -ℤ days,
      ))
put_balance_twice p days first_version second_version s d1 d2 mode left prompt enough more =
    let waiting : Server = record s {
      behavior = record (s.behavior) { forced_failure_remaining = 0 };
    } in
    let sent = serve-late d1 (put_balance p (some days) Action.approve first_version) s mode left in
    let (reply, held, kept) = put_balance-approve p days first_version waiting enough in
    let once : Server = (put_balance p (some days) Action.approve first_version waiting).1 in
    let v = next_version (waiting.behavior) first_version (holding_at p s.balances) in
    let calm_again : once.behavior.forced_failure_remaining ≡ 0 =
      ap (λ b. b.forced_failure_remaining) kept in
    let again =
      serve-prompt d2 (put_balance p (some days) Action.approve second_version) once calm_again
        prompt in
    let (reply', held', kept') = put_balance-approve p days second_version once (rw held more) in
    rw (sent, again)
      (
        refl,
        (
          next_version once.behavior second_version (holding_at p once.balances),
          ap some (reply' ∙ rw held refl),
        ),
        ap amounts held' ∙ rw held refl,
      )
