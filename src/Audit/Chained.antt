-- ===== src/Audit/Chained.antt =====
-- What the chain of src/common/utils/audit-logger.util.js gives evidence of.
use leave_ledger.Common.{
  ℕ, ◌≡◌, refl, sym, ap, ◌∙◌, subst, String, Bool, true, ◌&&◌, Option, [], ◌∷◌, ◌++◌, length,
  Bool-cases, inl, inr, arith,
}
use leave_ledger.Common.Eq.{◌==◌, String-Eq, eq_of_same, eq_self}
use leave_ledger.Json.{Value}
use leave_ledger.Audit.{
  payload, hash_entry, zeros, Content, Entry, Chain, last_hash, new_entry, append, verify_from,
  verify_integrity,
}

and_true : (a b : Bool) → (a && b) ≡ true → (a ≡ true) × (b ≡ true)
and_true a b h = (ground arith, ground arith)

payload-injective : (x y : Content) → payload x ≡ payload y → x ≡ y
unfolding payload
payload-injective x y e = ground arith

module _ (digest : Value → String) where
  -- The chains that appends make.
  pub data Appended : Chain → Type 0 where
    empty : Appended []
    appended :
        {chain : Chain} (employee_id : String) (mutation : Value) (reason : Option String) (now : ℕ)
        → Appended chain
        → Appended (append digest employee_id mutation reason now chain).1

  entry-verified :
      (p : String) (x : Entry) (xs : Chain)
      → verify_from digest p (x ∷ xs) ≡ true
      → (x.content.previous_hash ≡ p)
        × (x.hash ≡ hash_entry digest x.content)
        × (verify_from digest x.hash xs ≡ true)
  entry-verified p x xs h =
      let hashed : Bool = x.hash == hash_entry digest x.content in
      let later : Bool = verify_from digest x.hash xs in
      let (rest, after) = and_true ((x.content.previous_hash == p) && hashed) later h in
      let (linked, own) = and_true (x.content.previous_hash == p) hashed rest in
      (
        eq_of_same x.content.previous_hash p linked,
        eq_of_same x.hash (hash_entry digest x.content) own,
        after,
      )

  verified-entry :
      (p : String) (x : Entry) (xs : Chain)
      → x.content.previous_hash ≡ p
      → x.hash ≡ hash_entry digest x.content
      → verify_from digest x.hash xs ≡ true
      → verify_from digest p (x ∷ xs) ≡ true
  verified-entry p x xs linked hashed later =
      let l : (x.content.previous_hash == p) ≡ true =
        subst (λ h. (x.content.previous_hash == h) ≡ true) linked
          (eq_self x.content.previous_hash) in
      let k : (x.hash == hash_entry digest x.content) ≡ true =
        subst (λ h. (x.hash == h) ≡ true) hashed (eq_self x.hash) in
      rw (verify_from, l, k) later

  verify-snoc :
      (previous : String) (chain : Chain) (e : Entry)
      → verify_from digest previous chain ≡ true
      → e.content.previous_hash ≡ last_hash previous chain
      → e.hash ≡ hash_entry digest e.content
      → verify_from digest previous (chain ++ e ∷ []) ≡ true
  verify-snoc previous [] e h linked hashed = verified-entry previous e [] linked hashed refl
  verify-snoc previous (x ∷ xs) e h linked hashed =
      let (l, k, later) = entry-verified previous x xs h in
      verified-entry previous x (xs ++ e ∷ []) l k (verify-snoc x.hash xs e later linked hashed)

  Appended-verified : (chain : Chain) → Appended chain → verify_integrity digest chain ≡ true
  unfolding append
  Appended-verified chain Appended.empty = refl
  Appended-verified chain (Appended.appended {chain = c} employee_id mutation reason now a) =
      elim (Bool-cases (employee_id == "")) [
        | inl bad ↦ rw (append, bad) (Appended-verified c a)
        | inr good ↦
            rw (append, good)
              (verify-snoc zeros c (new_entry digest employee_id mutation reason now c)
                (Appended-verified c a) refl refl)
      ]

  -- Entries at the same place of two chains that have one hash have one content under it.
  abbrev pub HasNoCollision : Chain → Chain → Type 0
  HasNoCollision (x ∷ xs) (y ∷ ys) =
      (digest (payload x.content) ≡ digest (payload y.content)
        → payload x.content ≡ payload y.content)
      × HasNoCollision xs ys
  HasNoCollision _ _ = Unit

  determined :
      (c d : Chain) (p q : String)
      → length c ≡ length d
      → verify_from digest p c ≡ true
      → verify_from digest q d ≡ true
      → last_hash p c ≡ last_hash q d
      → HasNoCollision c d
      → (c ≡ d) × (p ≡ q)
  unfolding hash_entry
  determined [] [] p q l h k e apart = (refl, e)
  determined [] (y ∷ ys) p q l h k e apart = absurd (omega arith)
  determined (x ∷ xs) [] p q l h k e apart = absurd (omega arith)
  determined (x ∷ xs) (y ∷ ys) p q l h k e apart =
      let (linked, hashed, later) = entry-verified p x xs h in
      let (linked', hashed', later') = entry-verified q y ys k in
      let (tails, hashes) = determined xs ys x.hash y.hash (omega arith) later later' e apart.1 in
      let content : x.content ≡ y.content =
        payload-injective x.content y.content (apart.0 (sym hashed ∙ hashes ∙ hashed')) in
      let same : x ≡ y = λ i. record { content = content i; hash = hashes i } in
      (λ i. same i ∷ tails i, sym linked ∙ ap (λ z. z.previous_hash) content ∙ linked')

  -- A ledger that appends made verifies. Any other chain of its length that verifies and ends with
  -- its last hash is that ledger, in every field of every entry, unless the two have different
  -- contents with one hash at one place.
  pub Appended-determined :
      (chain : Chain)
      → Appended chain
      → (verify_integrity digest chain ≡ true)
        × ((other : Chain)
            → length other ≡ length chain
            → verify_integrity digest other ≡ true
            → last_hash zeros other ≡ last_hash zeros chain
            → HasNoCollision other chain
            → other ≡ chain)
  Appended-determined chain a =
      let verified = Appended-verified chain a in
      (verified, λ other l h e apart. (determined other chain zeros zeros l h verified e apart).0)
