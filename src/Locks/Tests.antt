-- ===== src/Locks/Tests.antt =====
-- Two owners of one lock of src/common/utils/lock.util.js.
use leave_ledger.Common.{◌≡◌, refl, arith, Bool, true, none, some, List, [], ◌∷◌}
use leave_ledger.Common.Eq.{String-Eq}
use leave_ledger.Locks.{Lock, Call, acquire_lock, release_lock, with_lock, run}
use leave_ledger.Locks.Held.{granted, acquire_lock-exclusive}

-- Another's release, and a request for another key.
abbrev in_between : List Call
in_between = Call.releasing "EMP1" "t9" ∷ Call.acquiring "EMP2" 5000 1200 "t2" ∷ []

acquire_lock-exclusive_example :
    (acquire_lock "EMP1" 5000 5999 "t3"
      (run in_between (acquire_lock "EMP1" 5000 1000 "t1" []).1)).0
    ≡ none
unfolding acquire_lock
acquire_lock-exclusive_example =
    acquire_lock-exclusive "EMP1" 5000 1000 "t1" [] (granted "EMP1" 5000 1000 "t1") refl in_between
      (refl, (refl, tt)) 5000 5999 "t3" (omega arith)

-- At its expiry the lock is free.
expired_lock :
    (acquire_lock "EMP1" 5000 6000 "t3" (acquire_lock "EMP1" 5000 1000 "t1" []).1).0
    ≡ some (granted "EMP1" 5000 6000 "t3")
unfolding acquire_lock
expired_lock = refl

-- Work that takes longer than the lock lasts, while another acquires it.
abbrev slow_work : List Lock → Bool × List Lock
slow_work locks = (true, (acquire_lock "EMP1" 5000 7000 "t3" locks).1)

slow_work_keeps :
    (with_lock "EMP1" 5000 1000 "t1" slow_work []).1 ≡ granted "EMP1" 5000 7000 "t3" ∷ []
unfolding with_lock acquire_lock release_lock
slow_work_keeps = refl
