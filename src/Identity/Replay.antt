-- ===== src/Identity/Replay.antt =====
-- Authenticator codes are used once.
use nexa_panel.Prelude.{
  ℕ, ◌≤◌, ◌<◌, ◌≡◌, ◌⊎◌, inl, inr, refl, sym, ◌∙◌, true, false, Option, none, some, List, [], ◌∷◌,
  map, Text, text_eq, text_eq_sound, text_eq_refl, arith, any, All, Bool-cases,
}
use nexa_panel.Identity.Model.{UserModel, Db, Principal}
use nexa_panel.Identity.Factor.{
  change_user, affected, update_user, changes_one, mark_session, below, at_step, commit_totp, holds,
  left_with, commit_recovery, verify_recovery,
}
use nexa_panel.Identity.Consumption.{Consumption, totp, recovery, consume, or_same, accepted_steps}

abbrev pub StrictlyAbove : ℕ → List ℕ → Type 0
StrictlyAbove low [] = Unit
StrictlyAbove low (step ∷ steps) = (low < step) × StrictlyAbove step steps

-- No row of the account has accepted less.
abbrev Reached : Text → ℕ → UserModel → Type 0
Reached id low user = (text_eq user.id id ≡ false) ⊎ (low ≤ user.totp_last_step)

changed-Reached :
    (id pid : Text) (low step : ℕ) (user : UserModel)
    → Reached id low user
    → Reached id low (change_user pid (below step) (at_step step) user)
changed-Reached id pid low step user (inl other) = ground arith
changed-Reached id pid low step user (inr le) = ground arith

spent-Reached :
    (id pid : Text) (low : ℕ) (old left : List Text) (user : UserModel)
    → Reached id low user
    → Reached id low (change_user pid (holds old) (left_with left) user)
spent-Reached id pid low old left user (inl other) = ground arith
spent-Reached id pid low old left user (inr le) = ground arith

-- A row of the account that the transaction updated is at its step now.
stepped-Reached :
    (id pid : Text) (low step : ℕ) (user : UserModel)
    → text_eq pid id ≡ true
    → Reached id low user
    → Reached id step (change_user pid (below step) (at_step step) user)
stepped-Reached id pid low step user same r = elim (Bool-cases (text_eq user.id id)) [
  | inr other ↦ inl (ground arith)
  | inl mine ↦
      ground (arith, text_eq_sound pid id same, text_eq_sound user.id id mine, text_eq_refl id)
]

module _ (id : Text) where
  AllReached-map :
      (low low' : ℕ) (f : UserModel → UserModel)
      → ((user : UserModel) → Reached id low user → Reached id low' (f user))
      → (users : List UserModel) → All (Reached id low) users
      → All (Reached id low') (map f users)
  AllReached-map low low' f k [] all = tt
  AllReached-map low low' f k (u ∷ users) (r, rs) = (k u r, AllReached-map low low' f k users rs)

  -- A step that is accepted is past every one that was accepted before.
  step_past :
      (pid : Text) (low step : ℕ) (users : List UserModel)
      → text_eq pid id ≡ true
      → All (Reached id low) users
      → any (affected pid (below step)) users ≡ true
      → low < step
  step_past pid low step [] same all e = cc
  step_past pid low step (u ∷ users) same (r, rs) e =
      elim (Bool-cases (affected pid (below step) u)) [
        | inr no_row ↦ step_past pid low step users same rs (sym (rw no_row refl) ∙ e)
        | inl row ↦ past_row r row
      ]
    where
      past_row : Reached id low u → affected pid (below step) u ≡ true → low < step
      past_row (inr le) row = ground arith
      past_row (inl other) row =
          absurd (ground (arith, text_eq_sound u.id pid (ground arith), text_eq_sound pid id same))

  abbrev HasReached : ℕ → Db → Type 0
  HasReached low db = All (Reached id low) db.users

  -- A recovery code leaves the steps alone.
  recovery-HasReached :
      (low : ℕ) (person : Principal) (now : ℕ) (user : Option UserModel) (left : Option (List Text))
      (db : Db)
      → HasReached low db
      → HasReached low (or_same db (commit_recovery person now user left db))
  unfolding commit_recovery
  recovery-HasReached low person now none left db all = all
  recovery-HasReached low person now (some user) none db all = all
  recovery-HasReached low person now (some user) (some left) db all =
      elim (Bool-cases (changes_one person.id (holds user.recovery_code_hashes) db)) [
        | inl one ↦ rw one (
            AllReached-map low low _ (spent-Reached id person.id low user.recovery_code_hashes left)
              db.users all)
        | inr no_row ↦ rw no_row all
      ]

  -- Whatever codes of whatever accounts are consumed in whatever order, by requests that may have checked
  -- them against older rows, as long as no factor is replaced: the steps that are accepted for one account
  -- strictly ascend from what its rows had accepted, so no authenticator code is accepted twice.
  pub accepted_steps-StrictlyAbove :
      (low : ℕ) (cs : List Consumption) (db : Db)
      → HasReached low db
      → StrictlyAbove low (accepted_steps id cs db)
  unfolding accepted_steps consume verify_recovery commit_totp
  accepted_steps-StrictlyAbove low [] db all = tt
  accepted_steps-StrictlyAbove low (recovery person wanted now ∷ cs) db all =
      accepted_steps-StrictlyAbove low cs _ (recovery-HasReached low person now _ _ db all)
  accepted_steps-StrictlyAbove low (totp person step now ∷ cs) db all =
      let taken : Db =
        mark_session person.session_id (some now)
          (update_user person.id (below step) (at_step step) db) in
      elim (Bool-cases (changes_one person.id (below step) db)) [
        | inr no_row ↦ rw no_row (accepted_steps-StrictlyAbove low cs db all)
        | inl one ↦ elim (Bool-cases (text_eq person.id id)) [
          | inl mine ↦
              rw (one, mine)
                (
                  step_past person.id low step db.users mine all one,
                  accepted_steps-StrictlyAbove step cs taken (
                      AllReached-map low step _ (λ u. stepped-Reached id person.id low step u mine)
                        db.users all),
                )
          | inr other ↦
              rw (one, other)
                (accepted_steps-StrictlyAbove low cs taken (
                  AllReached-map low low _ (λ u. changed-Reached id person.id low step u) db.users
                    all))
        ]
      ]
