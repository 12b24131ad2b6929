-- ===== src/Limits/Rate.antt =====
-- How many requests src/common/utils/rate-limiter.util.js lets through.
use leave_ledger.Common.{
  ℕ, ◌+◌, ◌≤◌, ◌<◌, ◌≡◌, refl, sym, ◌∙◌, subst, String, Bool, true, false, ◌&&◌, List, [], ◌∷◌,
  ◌++◌, All, All-append, All-imp, put, keep, length, length-append, length-keep, leb, Bool-cases,
  ◌⊎◌, inl, inr, arith, if◌then◌else◌,
}
use leave_ledger.Common.Eq.{◌==◌, String-Eq, eq_of_same}
use leave_ledger.Common.Keyed.{first-put_key}
use leave_ledger.Limits.{Window, Hits, hits_at, timestamps_of, is_recent, check}

abbrev pub count : (ℕ → Bool) → List ℕ → ℕ
count p [] = 0
count p (x ∷ xs) = (if p x then 1 else 0) + count p xs

count-append : (p : ℕ → Bool) (xs ys : List ℕ) → count p (xs ++ ys) ≡ count p xs + count p ys
count-append p [] ys = omega arith
count-append p (x ∷ xs) ys = omega (arith, count-append p xs ys)

count-length : (p : ℕ → Bool) (xs : List ℕ) → count p xs ≤ length xs
count-length p [] = omega arith
count-length p (x ∷ xs) = ground (arith, count-length p xs)

count-imp :
    (p q : ℕ → Bool) (xs : List ℕ) → ((x : ℕ) → p x ≡ true → q x ≡ true) → count p xs ≤ count q xs
count-imp p q [] h = omega arith
count-imp p q (x ∷ xs) h = ground (arith, h x, count-imp p q xs h)

count-keep :
    (p q : ℕ → Bool) (xs : List ℕ)
    → ((x : ℕ) → p x ≡ true → q x ≡ true)
    → count p (keep q xs) ≡ count p xs
count-keep p q [] h = refl
count-keep p q (x ∷ xs) h = ground (arith, h x, count-keep p q xs h)

-- The time lies in the window that ends at `t`.
abbrev pub in_window : Window → ℕ → ℕ → Bool
in_window w t x = is_recent w t x && leb x t

pub record Visit : Type 0 where
  pub key : String
  pub now : ℕ

-- The clock does not go back.
abbrev pub IsOrdered : ℕ → List Visit → Type 0
IsOrdered t [] = Unit
IsOrdered t (c ∷ cs) = (t ≤ c.now) × IsOrdered c.now cs

-- The times of the visits with the key that were let through, after those in `log`.
abbrev pub let_through : Window → String → List Visit → List ℕ → List Hits → List ℕ
let_through w key [] log hits = log
let_through w key (c ∷ cs) log hits =
    let (answer, left) = check w c.key c.now hits in
    let_through w key cs (if answer.allowed && (c.key == key) then log ++ c.now ∷ [] else log) left

and_false : (b : Bool) → (b && false) ≡ false
and_false b = ground arith

module _ (w : Window) where
  -- What is stored for a key tells how many of the times in `log` any later window has.
  record IsTracked (now : ℕ) (log stored : List ℕ) : Type 0 where
    past : All (λ x. x ≤ now) log
    recent : (t : ℕ) → now ≤ t → count (is_recent w t) log ≡ count (is_recent w t) stored
    limited : length stored ≤ w.max_requests
    bounded : (t : ℕ) → count (in_window w t) log ≤ w.max_requests

  abbrev kept : ℕ → List ℕ → List ℕ
  kept now = keep (is_recent w now)

  later-recent : (now t x : ℕ) → now ≤ t → is_recent w t x ≡ true → is_recent w now x ≡ true
  later-recent now t x h k = ground arith

  window-recent : (t x : ℕ) → in_window w t x ≡ true → is_recent w t x ≡ true
  window-recent t x h = ground arith

  wait-IsTracked :
      (now now' : ℕ) (log stored : List ℕ)
      → now ≤ now'
      → IsTracked now log stored
      → IsTracked now' log (keep (is_recent w now') stored)
  wait-IsTracked now now' log stored h v = record {
    past = All-imp (λ x. x ≤ now) (λ x. x ≤ now') log (λ x k. omega arith) v.past;
    recent = λ t k.
        v.recent t (omega arith)
        ∙ sym (count-keep (is_recent w t) (is_recent w now') stored (λ x. later-recent now' t x k));
    limited = let fewer = length-keep (is_recent w now') stored in omega (arith, v.limited);
    bounded = v.bounded;
  }

  later-IsTracked :
      (now now' : ℕ) (log stored : List ℕ)
      → now ≤ now'
      → IsTracked now log stored
      → IsTracked now' log stored
  later-IsTracked now now' log stored h v = record {
    past = All-imp (λ x. x ≤ now) (λ x. x ≤ now') log (λ x k. omega arith) v.past;
    recent = λ t k. v.recent t (omega arith);
    limited = v.limited;
    bounded = v.bounded;
  }

  push-IsTracked :
      (now : ℕ) (log stored : List ℕ)
      → length stored < w.max_requests
      → IsTracked now log stored
      → IsTracked now (log ++ now ∷ []) (stored ++ now ∷ [])
  push-IsTracked now log stored room v =
      let recent : (t : ℕ)
          → now ≤ t
          → count (is_recent w t) (log ++ now ∷ []) ≡ count (is_recent w t) (stored ++ now ∷ []) =
        λ t k. omega (
          arith,
          v.recent t k,
          count-append (is_recent w t) log (now ∷ []),
          count-append (is_recent w t) stored (now ∷ []),
        ) in
      let size = length-append stored (now ∷ []) in
      record {
        past = All-append (λ x. x ≤ now) log (now ∷ []) v.past (omega arith, tt);
        recent = recent;
        limited = omega arith;
        bounded = λ t. elim (Bool-cases (leb now t)) [
          | inl after ↦ omega (
            arith,
            count-imp (in_window w t) (is_recent w t) (log ++ now ∷ []) (window-recent t),
            recent t (ground arith),
            count-length (is_recent w t) (stored ++ now ∷ []),
          )
          | inr before ↦ ground (arith, v.bounded t, count-append (in_window w t) log (now ∷ []))
        ];
      }

  timestamps-put :
      (k j : String) (ts : List ℕ) (hits : List Hits)
      → timestamps_of j (put (hits_at k) (record { key = k; timestamps = ts }) hits)
        ≡ (if k == j then ts else timestamps_of j hits)
  timestamps-put k j ts hits =
      let found = first-put_key (λ h. h.key) k j (record { key = k; timestamps = ts }) hits refl in
      elim (Bool-cases (k == j)) [
        | inl same ↦ rw (timestamps_of, found, same) refl
        | inr other ↦ rw (timestamps_of, found, other) refl
      ]

  -- A visit with the key, refused or let through.
  check-cases :
      (key : String) (now : ℕ) (hits : List Hits)
      → let stored = kept now (timestamps_of key hits) in
        ((check w key now hits).0.allowed ≡ false)
          × ((j : String)
              → timestamps_of j (check w key now hits).1
                ≡ (if key == j then stored else timestamps_of j hits))
        ⊎ ((check w key now hits).0.allowed ≡ true)
          × (length stored < w.max_requests)
          × ((j : String)
              → timestamps_of j (check w key now hits).1
                ≡ (if key == j then stored ++ now ∷ [] else timestamps_of j hits))
  unfolding check
  check-cases key now hits =
      let stored = kept now (timestamps_of key hits) in
      elim (Bool-cases (leb w.max_requests (length stored))) [
        | inl full ↦
            inl (rw (check, full) refl, λ j. rw (check, full) (timestamps-put key j stored hits))
        | inr room ↦ inr (
          rw (check, room) refl,
          ground arith,
          λ j. rw (check, room) (timestamps-put key j (stored ++ now ∷ []) hits),
        )
      ]

  let_through-bounded :
      (key : String) (cs : List Visit) (start : ℕ) (log : List ℕ) (hits : List Hits)
      → IsOrdered start cs
      → IsTracked start log (timestamps_of key hits)
      → (t : ℕ) → count (in_window w t) (let_through w key cs log hits) ≤ w.max_requests
  let_through-bounded key [] start log hits ordered v t = v.bounded t
  let_through-bounded key (c ∷ cs) start log hits ordered v t =
      let left = (check w c.key c.now hits).1 in
      elim (Bool-cases (c.key == key)) [
        | inr other ↦
            let later = later-IsTracked start c.now log (timestamps_of key hits) ordered.0 v in
            let same : timestamps_of key left ≡ timestamps_of key hits =
              elim (check-cases c.key c.now hits) [
                | inl (refused, shown) ↦ shown key ∙ rw other refl
                | inr (done, room, shown) ↦ shown key ∙ rw other refl
              ] in
            rw (let_through, other, and_false (check w c.key c.now hits).0.allowed)
              (let_through-bounded key cs c.now log left ordered.1 (rw same later) t)
        | inl own ↦
            let e = eq_of_same c.key key own in
            let old : IsTracked start log (timestamps_of c.key hits) =
              subst (λ k. IsTracked start log (timestamps_of k hits)) (sym e) v in
            let waited = wait-IsTracked start c.now log (timestamps_of c.key hits) ordered.0 old in
            elim (check-cases c.key c.now hits) [
              | inl (refused, shown) ↦
                  let same = shown key ∙ rw own refl in
                  rw (let_through, refused)
                    (let_through-bounded key cs c.now log left ordered.1 (rw same waited) t)
              | inr (done, room, shown) ↦
                  let same = shown key ∙ rw own refl in
                  let pushed =
                    push-IsTracked c.now log (kept c.now (timestamps_of c.key hits)) room waited in
                  rw (let_through, done, own)
                    (let_through-bounded key cs c.now (log ++ c.now ∷ []) left ordered.1
                      (rw same pushed) t)
            ]
      ]

  -- A limiter that starts without hits, and visits by a clock that does not go back: of every key, in
  -- any interval of the window's length, no more than `maxRequests` visits are let through.
  pub check-bounded :
      (key : String) (cs : List Visit) (t : ℕ)
      → IsOrdered 0 cs
      → count (in_window w t) (let_through w key cs [] []) ≤ w.max_requests
  check-bounded key cs t ordered =
      let_through-bounded key cs 0 [] [] ordered
        (record {
          past = tt;
          recent = λ u k. refl;
          limited = omega arith;
          bounded = λ u. omega arith;
        })
        t
