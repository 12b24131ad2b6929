-- ===== src/TimeOff/Notify.antt =====
-- src/modules/timeoff/timeoff.service.js: the callbacks that `createRequest` and `approveRequest` hand
-- to `setImmediate` (`_notifyHcmAsync`, `_notifyApprovalToHcmAsync`). Each awaits the HCM, and writes
-- its outcome when the answer is there; the answers are parameters. The client never throws, so that
-- the `catch` clauses handle database errors only, which are left out.
use leave_ledger.Common.{
  ℕ, ◌+◌, ◌≡◌, refl, String, Bool, true, false, Option, none, some, List, [], ◌∷◌, Bool-cases, inl,
  inr, first, map_where, arith, if◌then◌else◌, ◌∙◌,
}
use leave_ledger.Common.Eq.{String-Eq}
use leave_ledger.Constants.{RequestStatus, HcmSyncStatus, sync_eq}
use leave_ledger.Entities.{TimeOffRequest, has_id}
use leave_ledger.Store.{RequestRepository}
use leave_ledger.Hcm.{Answers}
use leave_ledger.Hcm.Pending.{is_valid, is_accepted, sync_pending}

-- What `_notifyHcmAsync` writes for an answer: only `valid === false` fails.
unfoldable pub validation_row : ℕ → Option (Option Bool) → TimeOffRequest → TimeOffRequest
validation_row now none row = record row {
  hcm_sync_status = HcmSyncStatus.pending;
  hcm_sync_attempts = 1;
  hcm_last_sync_at = some now;
}
validation_row now (some (some false)) row = record row {
  hcm_sync_status = HcmSyncStatus.failed;
  hcm_validated = false;
  hcm_sync_attempts = 1;
  hcm_last_sync_at = some now;
}
validation_row now (some _) row = record row {
  hcm_sync_status = HcmSyncStatus.success;
  hcm_validated = true;
  hcm_sync_attempts = 1;
  hcm_last_sync_at = some now;
}

-- The update of the columns that `_notifyApprovalToHcmAsync` writes for the request it was given;
-- `none` leaves `hcmValidated`.
unfoldable pub sync_row :
    ℕ → TimeOffRequest → HcmSyncStatus → Option Bool → TimeOffRequest → TimeOffRequest
sync_row now given status validated row = record row {
  hcm_sync_status = status;
  hcm_validated = elim validated [ some v ↦ v | none ↦ row.hcm_validated ];
  hcm_sync_attempts = given.hcm_sync_attempts + 1;
  hcm_last_sync_at = some now;
}

module _ (hcm : Answers) where
  -- Its call of notifyApproval.
  unfoldable pub announce_row : ℕ → TimeOffRequest → TimeOffRequest → TimeOffRequest
  unfolding sync_row
  announce_row now given row = elim (hcm.approval given) [
    | none ↦ sync_row now given HcmSyncStatus.pending (some true) row
    | some success ↦
        if is_accepted success
        then sync_row now given HcmSyncStatus.success (some true) row
        else sync_row now given HcmSyncStatus.pending (some true) row
  ]

  -- What `_notifyApprovalToHcmAsync` writes.
  unfoldable pub approval_row : ℕ → TimeOffRequest → TimeOffRequest → TimeOffRequest
  unfolding announce_row sync_row
  approval_row now given row =
      if given.hcm_validated then announce_row now given row else elim (hcm.validation given) [
        | none ↦ sync_row now given HcmSyncStatus.pending none row
        | some valid ↦
            if is_valid valid
            then announce_row now given row
            else sync_row now given HcmSyncStatus.failed (some false) row
      ]

module _ (R : RequestRepository) where
  -- _notifyHcmAsync
  unfoldable pub notify_hcm_async : ℕ → Option (Option Bool) → String → R.Table → R.Table
  unfolding validation_row
  notify_hcm_async now answer id = R.update (has_id id) (validation_row now answer)

  -- _notifyApprovalToHcmAsync
  unfoldable pub notify_approval_to_hcm_async :
      ℕ → Answers → TimeOffRequest → String → R.Table → R.Table
  unfolding approval_row
  notify_approval_to_hcm_async now hcm given id = R.update (has_id id) (approval_row hcm now given)

first-map_where :
    (id : String) (f : TimeOffRequest → TimeOffRequest) (rs : List TimeOffRequest)
    (r : TimeOffRequest)
    → ((x : TimeOffRequest) → (f x).id ≡ x.id)
    → first (has_id id) rs ≡ some r
    → first (has_id id) (map_where (has_id id) f rs) ≡ some (f r)
first-map_where id f [] r keeps e = ground arith
first-map_where id f (x ∷ rs) r keeps e = elim (Bool-cases (has_id id x)) [
  | inl here ↦ ground (arith, keeps x)
  | inr later ↦ ground (arith, keeps x, first-map_where id f rs r keeps)
]

validation_row-id :
    (now : ℕ) (answer : Option (Option Bool)) (r : TimeOffRequest)
    → (validation_row now answer r).id ≡ r.id
unfolding validation_row
validation_row-id now none r = refl
validation_row-id now (some none) r = refl
validation_row-id now (some (some true)) r = refl
validation_row-id now (some (some false)) r = refl

approval_row-id :
    (hcm : Answers) (now : ℕ) (given r : TimeOffRequest) → (approval_row hcm now given r).id ≡ r.id
unfolding approval_row announce_row sync_row
approval_row-id hcm now given r = ground arith

validation_row-valid :
    (now : ℕ) (r : TimeOffRequest)
    → let r' = validation_row now (some (some true)) r in
      (r'.hcm_sync_status ≡ HcmSyncStatus.success) × (r'.status ≡ r.status)
unfolding validation_row
validation_row-valid now r = (refl, refl)

approval_row-unanswered :
    (hcm : Answers) (now : ℕ) (given r : TimeOffRequest)
    → hcm.approval given ≡ none
    → hcm.validation given ≡ none
    → ((approval_row hcm now given r).hcm_sync_status ≡ HcmSyncStatus.pending)
      × ((approval_row hcm now given r).status ≡ r.status)
unfolding approval_row announce_row sync_row
approval_row-unanswered hcm now given r no_approval no_validation = (ground arith, ground arith)

module _ (R : RequestRepository) where
  -- A lost notification: neither call about an approved request brings an answer of the HCM, and the
  -- request is marked for the retry job; then the validation that was still on its way since the
  -- creation comes back positive. The stored request is approved and marked as synchronised, and the
  -- retry job no longer selects it.
  pub notify_hcm_async-overwrites :
      (now later : ℕ) (hcm : Answers) (id : String) (given r : TimeOffRequest) (t : R.Table)
      → R.find_one (has_id id) t ≡ some r
      → r.status ≡ RequestStatus.approved
      → hcm.approval given ≡ none
      → hcm.validation given ≡ none
      → let t1 = notify_approval_to_hcm_async R now hcm given id t in
        let t2 = notify_hcm_async R later (some (some true)) id t1 in
        ((r1 : TimeOffRequest) × (R.find_one (has_id id) t1 ≡ some r1) × (sync_pending r1 ≡ true))
        × ((r2 : TimeOffRequest) × (R.find_one (has_id id) t2 ≡ some r2)
            × (r2.status ≡ RequestStatus.approved)
            × (r2.hcm_sync_status ≡ HcmSyncStatus.success)
            × (sync_pending r2 ≡ false))
  unfolding notify_hcm_async notify_approval_to_hcm_async sync_eq
  notify_hcm_async-overwrites now later hcm id given r t found approved silent unanswered =
      let r1 = approval_row hcm now given r in
      let r2 = validation_row later (some (some true)) r1 in
      let (waits, status1) = approval_row-unanswered hcm now given r silent unanswered in
      let (synced, status2) = validation_row-valid later r1 in
      let t1 = notify_approval_to_hcm_async R now hcm given id t in
      let found1 : R.find_one (has_id id) t1 ≡ some r1 =
        rw (R.find_one-rows, R.update-rows)
          (first-map_where id (approval_row hcm now given) (R.rows t) r
            (approval_row-id hcm now given) (rw R.find_one-rows at found)) in
      (
        (r1, found1, ground arith),
        (
          r2,
          rw (R.find_one-rows, R.update-rows)
              (first-map_where id (validation_row later (some (some true))) (R.rows t1) r1
                (validation_row-id later (some (some true))) (rw R.find_one-rows at found1)),
          status2 ∙ status1 ∙ approved,
          synced,
          ground arith,
        ),
      )
