-- ===== src/Identity/Codes.antt =====
-- Recovery codes are used as often as they were issued.
use nexa_panel.Prelude.{
  Bool, false, suc, ◌&&◌, ◌≤◌, ℕ, ◌+◌, ◌≡◌, inl, inr, refl, ap, sym, subst, ◌∙◌, true, Option, none,
  some, some_eq, List, [], ◌∷◌, map, Text, text_eq, text_eq_sound, text_eq_refl, arith, count_where,
  Bool-cases, Option-cases, if◌then◌else◌,
}
use nexa_panel.Identity.Model.{UserModel, Db, Principal}
use nexa_panel.Identity.Factor.{
  find_user, change_user, update_user, changes_one, mark_session, below, at_step, commit_totp,
  spend, same_hashes, holds, left_with, commit_recovery, verify_recovery, hashes_of,
}
use nexa_panel.Identity.Consumption.{
  Consumption, totp, recovery, consume, or_same, code_for, accepted_codes,
}

-- How often the hash stands in the account's row.
abbrev pub codes_left : Text → Text → Db → ℕ
codes_left id w db = count_where (λ h. text_eq h w) (hashes_of (find_user id db.users))

spend-count :
    (v w : Text) (hashes left : List Text)
    → spend v hashes ≡ some left
    → count_where (λ h. text_eq h w) left + (if text_eq v w then 1 else 0)
      ≡ count_where (λ h. text_eq h w) hashes
unfolding spend
spend-count v w [] left e = absurd (cc)
spend-count v w (hash ∷ hashes) left e = elim (Option-cases (spend v hashes)) [
  | inr (rest, more) ↦
      let l : hash ∷ rest ≡ left = some_eq (hash ∷ rest) left (sym (rw more refl) ∙ e) in
      subst
        (λ l.
          count_where (λ h. text_eq h w) l + (if text_eq v w then 1 else 0)
          ≡ count_where (λ h. text_eq h w) (hash ∷ hashes))
        l (omega (arith, spend-count v w hashes rest more))
  | inl last ↦ elim (Bool-cases (text_eq hash v)) [
    | inr differs ↦ absurd (none_some left (sym (rw (last, differs) refl) ∙ e))
    | inl same ↦
        let l : hashes ≡ left = some_eq hashes left (sym (rw (last, same) refl) ∙ e) in
        rw (sym l, text_eq_sound hash v same) (ground arith)
  ]
]
  where
    none_some : (left : List Text) → none ≡ some left → ⊥
    none_some left h = cc

find_user_sound :
    (id : Text) (users : List UserModel) (u : UserModel)
    → find_user id users ≡ some u
    → text_eq u.id id ≡ true
unfolding find_user
find_user_sound id [] u e = absurd (cc)
find_user_sound id (v ∷ users) u e = elim (Bool-cases (text_eq v.id id)) [
  | inl mine ↦
      subst (λ (x : UserModel). text_eq x.id id ≡ true) (some_eq v u (sym (rw mine refl) ∙ e)) mine
  | inr other ↦ find_user_sound id users u (sym (rw other refl) ∙ e)
]

abbrev mapped : (UserModel → UserModel) → Option UserModel → Option UserModel
mapped f none = none
mapped f (some u) = some (f u)

-- A change that keeps ids is made on the row that is found.
find_user-map :
    (id : Text) (f : UserModel → UserModel) (users : List UserModel)
    → ((u : UserModel) → (f u).id ≡ u.id)
    → find_user id (map f users) ≡ mapped f (find_user id users)
unfolding find_user
find_user-map id f [] k = refl
find_user-map id f (u ∷ users) k = elim (Bool-cases (text_eq u.id id)) [
  | inl mine ↦ rw (ap (λ i. text_eq i id) (k u) ∙ mine, mine) refl
  | inr other ↦ rw (ap (λ i. text_eq i id) (k u) ∙ other, other) (find_user-map id f users k)
]

same_hashes_refl : (hashes : List Text) → same_hashes hashes hashes ≡ true
same_hashes_refl [] = refl
same_hashes_refl (h ∷ hashes) = rw (text_eq_refl h, same_hashes_refl hashes) refl

module _ (id w : Text) where
  -- A step that is accepted leaves the codes alone.
  totp-codes_left :
      (person : Principal) (step now : ℕ) (db : Db)
      → codes_left id w (or_same db (commit_totp person step now db)) ≡ codes_left id w db
  unfolding commit_totp
  totp-codes_left person step now db = elim (Bool-cases (changes_one person.id (below step) db)) [
    | inr no_row ↦ rw no_row refl
    | inl one ↦
        rw (one, find_user-map id (change_user person.id (below step) (at_step step)) db.users kept)
          (ap (count_where (λ h. text_eq h w)) (same_codes (find_user id db.users)))
  ]
    where
      kept : (u : UserModel) → (change_user person.id (below step) (at_step step) u).id ≡ u.id
      kept u = ground arith

      same_codes :
          (u : Option UserModel)
          → hashes_of (mapped (change_user person.id (below step) (at_step step)) u) ≡ hashes_of u
      same_codes none = refl
      same_codes (some u) = ground arith

  -- The row of the account after the code was spent.
  spent_row :
      (pid : Text) (u : UserModel) (left : List Text) (db : Db)
      → find_user pid db.users ≡ some u
      → hashes_of (
          find_user id
            (map (change_user pid (holds u.recovery_code_hashes) (left_with left)) db.users))
        ≡ (if text_eq pid id then left else hashes_of (find_user id db.users))
  spent_row pid u left db found = find_ok ∙ elim (Bool-cases (text_eq pid id)) [
    | inl mine ↦ rw mine (own_row (text_eq_sound pid id mine))
    | inr other ↦ rw other (other_row other (find_user id db.users) refl)
  ]
    where
      g : UserModel → UserModel
      g = change_user pid (holds u.recovery_code_hashes) (left_with left)

      kept : (v : UserModel) → (g v).id ≡ v.id
      kept v = ground arith

      find_ok :
          hashes_of (find_user id (map g db.users)) ≡ hashes_of (mapped g (find_user id db.users))
      find_ok = ap hashes_of (find_user-map id g db.users kept)

      own_row : pid ≡ id → hashes_of (mapped g (find_user id db.users)) ≡ left
      own_row same =
          let found' : find_user id db.users ≡ some u =
            subst (λ i. find_user i db.users ≡ some u) same found in
          rw (found', find_user_sound pid db.users u found, same_hashes_refl u.recovery_code_hashes)
            refl

      other_row :
          text_eq pid id ≡ false
          → (v : Option UserModel) → find_user id db.users ≡ v
          → hashes_of (mapped g v) ≡ hashes_of v
      other_row other none e = refl
      other_row other (some v) e =
          let mine = text_eq_sound v.id id (find_user_sound id db.users v e) in
          ground (arith, text_eq_sound v.id pid, text_eq_refl id)

  -- What a transaction that was made takes from the codes of the account.
  made-takes :
      (pid wanted : Text) (db : Db) (u : UserModel) (left : List Text) (n : ℕ)
      → find_user pid db.users ≡ some u
      → spend wanted u.recovery_code_hashes ≡ some left
      → n
        ≤ count_where
            (λ h. text_eq h w)
            (hashes_of (
              find_user id
                (map (change_user pid (holds u.recovery_code_hashes) (left_with left)) db.users)))
      → (if text_eq pid id && text_eq wanted w then suc n else n) ≤ codes_left id w db
  made-takes pid wanted db u left n found sp le = elim (Bool-cases (text_eq pid id)) [
    | inr other ↦ rw other (
        subst (λ hs. n ≤ count_where (λ h. text_eq h w) hs)
          (spent_row pid u left db found ∙ rw other refl) le)
    | inl mine ↦
        let found' : find_user id db.users ≡ some u =
          subst (λ i. find_user i db.users ≡ some u) (text_eq_sound pid id mine) found in
        let le' : n ≤ count_where (λ h. text_eq h w) left =
          subst (λ hs. n ≤ count_where (λ h. text_eq h w) hs)
            (spent_row pid u left db found ∙ rw mine refl) le in
        rw (mine, found')
          (counted n (text_eq wanted w) _ _ le'
            (spend-count wanted w u.recovery_code_hashes left sp))
  ]
    where
      counted :
          (n : ℕ) (hit : Bool) (a b : ℕ)
          → n ≤ a
          → a + (if hit then 1 else 0) ≡ b
          → (if hit then suc n else n) ≤ b
      counted n true a b le e = omega arith
      counted n false a b le e = omega arith

  recovery-takes :
      (person : Principal) (wanted : Text) (now : ℕ) (db : Db) (user : Option UserModel)
      (left : Option (List Text)) (n : ℕ)
      → find_user person.id db.users ≡ user
      → spend wanted (hashes_of user) ≡ left
      → n ≤ codes_left id w (or_same db (commit_recovery person now user left db))
      → code_for id w (recovery person wanted now) (commit_recovery person now user left db) n
        ≤ codes_left id w db
  unfolding commit_recovery
  recovery-takes person wanted now db none left n found sp le = le
  recovery-takes person wanted now db (some u) none n found sp le = le
  recovery-takes person wanted now db (some u) (some left) n found sp le =
      made_or_not (changes_one person.id (holds u.recovery_code_hashes) db) le
    where
      new : Db
      new =
          mark_session person.session_id (some now)
            (update_user person.id (holds u.recovery_code_hashes) (left_with left) db)

      made_or_not :
          (one : Bool)
          → n ≤ codes_left id w (or_same db (if one then some new else none))
          → code_for id w (recovery person wanted now) (if one then some new else none) n
            ≤ codes_left id w db
      made_or_not true le = made-takes person.id wanted db u left n found sp le
      made_or_not false le = le

  -- Whatever codes of whatever accounts are consumed in whatever order, as long as no factor is replaced: a
  -- recovery code is accepted for an account at most as often as its hash stands in the account's row, which
  -- is once where the codes that were issued differ.
  pub accepted_codes-le-codes_left :
      (cs : List Consumption) (db : Db) → accepted_codes id w cs db ≤ codes_left id w db
  unfolding accepted_codes consume verify_recovery
  accepted_codes-le-codes_left [] db = omega arith
  accepted_codes-le-codes_left (totp person step now ∷ cs) db =
      subst (λ n. accepted_codes id w cs (or_same db (commit_totp person step now db)) ≤ n)
        (totp-codes_left person step now db)
        (accepted_codes-le-codes_left cs (or_same db (commit_totp person step now db)))
  accepted_codes-le-codes_left (recovery person wanted now ∷ cs) db =
      recovery-takes person wanted now db (find_user person.id db.users) _ _ refl refl
        (accepted_codes-le-codes_left cs _)
