-- ===== src/Database/Ordered.antt =====
-- Rows in the order of a column on which they differ have that order only.
use mathlib.Core.Logic.Or
use mathlib.Core.List.{Mem, Perm, mem-cons, not-mem-nil, mem-cons_self, mem-cons_of_mem}
use mathlib.Core.List.Perm
use native.Mathlib.Bridge.{le_prop}
use leave_ledger.Common.{
  ℕ, ◌≤◌, ◌≡◌, ◌≢◌, refl, sym, ◌∙◌, subst, List, [], ◌∷◌, length-perm, arith, All, Pairs,
}
use leave_ledger.Database.Paged.{NewestFirst}

module _ {Row Key : Type 0} (Row_set : IsSet Row) (key : Row → Key) where
  not_of_mem : (n : Key) (xs : List Row) (x : Row) → All (λ y. n ≢ key y) xs → Mem x xs → n ≢ key x
  not_of_mem n [] x h m e = absurd (not-mem-nil m)
  not_of_mem n (y ∷ ys) x h m e =
      Or.elim (hlevel) (mem-cons.0 m) (λ same. h.0 (subst (λ z. n ≡ key z) same e))
        (λ later. not_of_mem n ys x h.1 later e)

  -- Rows with different keys: a key belongs to one of them.
  pub one_of_key :
      (xs : List Row) (x y : Row)
      → Pairs (λ a b. key a ≢ key b) xs
      → Mem x xs
      → Mem y xs
      → key x ≡ key y
      → x ≡ y
  one_of_key [] x y h mx my e = absurd (not-mem-nil mx)
  one_of_key (z ∷ zs) x y h mx my e =
      Or.elim (Row_set x y) (mem-cons.0 mx)
        (λ here.
          Or.elim (Row_set x y) (mem-cons.0 my) (λ there. here ∙ sym there)
            (λ there.
              absurd (not_of_mem (key z) zs y h.0 there (subst (λ a. key a ≡ key y) here e))))
        (λ here.
          Or.elim (Row_set x y) (mem-cons.0 my)
            (λ there.
              absurd (not_of_mem (key z) zs x h.0 here (subst (λ a. key a ≡ key x) there (sym e))))
            (λ there. one_of_key zs x y h.1 here there e))

module _ {Row : Type 0} (Row_set : IsSet Row) (stamp : Row → ℕ) where
  le_of_mem : (n : ℕ) (xs : List Row) (x : Row) → All (λ y. stamp y ≤ n) xs → Mem x xs → stamp x ≤ n
  le_of_mem n [] x h m = absurd (not-mem-nil m)
  le_of_mem n (y ∷ ys) x h m =
      Or.elim le_prop (mem-cons.0 m) (λ e. subst (λ z. stamp z ≤ n) (sym e) h.0)
        (le_of_mem n ys x h.1)

  pub newest_first_unique :
      (xs ys : List Row)
      → Perm xs ys
      → NewestFirst stamp xs
      → NewestFirst stamp ys
      → ((x y : Row) → Mem x xs → Mem y xs → stamp x ≡ stamp y → x ≡ y)
      → xs ≡ ys
  newest_first_unique [] [] p h k one = refl
  newest_first_unique [] (y ∷ ys) p h k one = absurd (omega (arith, length-perm [] (y ∷ ys) p))
  newest_first_unique (x ∷ xs) [] p h k one = absurd (omega (arith, length-perm (x ∷ xs) [] p))
  newest_first_unique (x ∷ xs) (y ∷ ys) p h k one =
      let my : Mem y (x ∷ xs) = (Perm.mem_iff p).1 mem-cons_self in
      let mx : Mem x (y ∷ ys) = (Perm.mem_iff p).0 mem-cons_self in
      let x_le : stamp x ≤ stamp y = le_of_mem (stamp y) (y ∷ ys) x (omega arith, k.0) mx in
      let y_le : stamp y ≤ stamp x = le_of_mem (stamp x) (x ∷ xs) y (omega arith, h.0) my in
      let same : x ≡ y = one x y mem-cons_self my (omega arith) in
      let rest : Perm xs ys =
        Perm.cons_inv {a = x} (subst (λ z. Perm (x ∷ xs) (z ∷ ys)) (sym same) p) in
      let tails =
        newest_first_unique xs ys rest h.1 k.1
          (λ a b ma mb. one a b (mem-cons_of_mem x ma) (mem-cons_of_mem x mb)) in
      λ i. same i ∷ tails i
