-- ===== src/Identity/Factor.antt =====
-- The second factor (mfa.go, mfa_http.go): authenticator codes, recovery codes, and the transactions that
-- consume them. A transaction that fails leaves the tables as they were.
use nexa_panel.Prelude.{
  ℕ, ◌+◌, ◌-◌, ◌/◌, Bool, true, false, not, ◌||◌, ◌&&◌, ◌==◌, Option, none, some, List, [], ◌∷◌,
  ◌++◌, Text, codes, is_empty, text_eq, trim_space, byte_len, ltb, leb, any, select, map,
  if◌then◌else◌,
}
use nexa_panel.Identity.Model.{UserModel, SessionModel, Db, Principal, Outside}

abbrev pub totp_period_seconds : ℕ
totp_period_seconds = 30

abbrev pub is_digit : ℕ → Bool
is_digit c = leb 48 c && leb c 57

-- The first of the steps whose code it is, past the last one that was accepted.
unfoldable pub first_step : (ℕ → Text) → Text → ℕ → List ℕ → Option ℕ
first_step expected code last [] = none
first_step expected code last (step ∷ steps) =
    let rest = first_step expected code last steps in
    if leb step last then rest else if text_eq (expected step) code then some step else rest

abbrev decoded_step : (Text → ℕ → Text) → Text → ℕ → ℕ → Option Text → Option ℕ
decoded_step totp_code code current last none = none
decoded_step totp_code code current last (some secret) =
    if is_empty secret
    then none
    else first_step (totp_code secret) code last (current ∷ (current - 1) ∷ (current + 1) ∷ [])

unfoldable pub find_user : Text → List UserModel → Option UserModel
find_user id [] = none
find_user id (user ∷ users) = if text_eq user.id id then some user else find_user id users

-- `UPDATE identity_users SET ... WHERE id = ? AND ...`, with the number of rows affected
abbrev pub change_user : Text → (UserModel → Bool) → (UserModel → UserModel) → UserModel → UserModel
change_user id guard f user = if text_eq user.id id && guard user then f user else user

abbrev pub affected : Text → (UserModel → Bool) → UserModel → Bool
affected id guard user = text_eq user.id id && guard user

abbrev pub update_user : Text → (UserModel → Bool) → (UserModel → UserModel) → Db → Db
update_user id guard f db = record db { users = map (change_user id guard f) db.users }

-- `RowsAffected() == 1`, the id being the key of the table
abbrev pub changes_one : Text → (UserModel → Bool) → Db → Bool
changes_one id guard db = any (affected id guard) db.users

abbrev verified : Text → Option ℕ → SessionModel → SessionModel
verified id at s = if text_eq s.id id then record s { mfa_verified_at = at } else s

abbrev pub mark_session : Text → Option ℕ → Db → Db
mark_session id at db = record db { sessions = map (verified id at) db.sessions }

abbrev pub has_time : Option ℕ → Bool
has_time none = false
has_time (some _) = true

abbrev pub is_confirmed : UserModel → Bool
is_confirmed user = has_time user.totp_confirmed_at

abbrev pub below : ℕ → UserModel → Bool
below step user = ltb user.totp_last_step step

abbrev pub at_step : ℕ → UserModel → UserModel
at_step step user = record user { totp_last_step = step }

-- The transaction of `verifyTOTPChallenge`: none where it returns an error
unfoldable pub commit_totp : Principal → ℕ → ℕ → Db → Option Db
commit_totp person step now db =
    if changes_one person.id (below step) db
    then some (
        mark_session person.session_id (some now)
          (update_user person.id (below step) (at_step step) db))
    else none

abbrev pub same_hashes : List Text → List Text → Bool
same_hashes [] [] = true
same_hashes [] (_ ∷ _) = false
same_hashes (_ ∷ _) [] = false
same_hashes (a ∷ xs) (b ∷ ys) = text_eq a b && same_hashes xs ys

abbrev pub spend_later : Bool → Text → List Text → Option (List Text) → Option (List Text)
spend_later found hash hashes (some left) = some (hash ∷ left)
spend_later true hash hashes none = some hashes
spend_later false hash hashes none = none

-- The hashes without the last one that matches, where one does: `recoveryCodeMatch` and the splice.
unfoldable pub spend : Text → List Text → Option (List Text)
spend wanted [] = none
spend wanted (hash ∷ hashes) = spend_later (text_eq hash wanted) hash hashes (spend wanted hashes)

abbrev pub holds : List Text → UserModel → Bool
holds hashes user = same_hashes user.recovery_code_hashes hashes

abbrev pub left_with : List Text → UserModel → UserModel
left_with hashes user = record user { recovery_code_hashes = hashes }

unfoldable pub commit_recovery :
    Principal → ℕ → Option UserModel → Option (List Text) → Db → Option Db
commit_recovery person now none left db = none
commit_recovery person now (some user) none db = none
commit_recovery person now (some user) (some left) db =
    if changes_one person.id (holds user.recovery_code_hashes) db
    then some (
        mark_session person.session_id (some now)
          (update_user person.id (holds user.recovery_code_hashes) (left_with left) db))
    else none

abbrev pub hashes_of : Option UserModel → List Text
hashes_of none = []
hashes_of (some user) = user.recovery_code_hashes

-- The transaction of `verifyRecoveryChallenge`, for the hash of the code
unfoldable pub verify_recovery : Principal → Text → ℕ → Db → Option Db
unfolding commit_recovery find_user
verify_recovery person wanted now db =
    let user = find_user person.id db.users in
    commit_recovery person now user (spend wanted (hashes_of user)) db

abbrev pub renewed : Text → UserModel → UserModel
renewed secret user = record user {
  totp_secret_encrypted = some secret;
  totp_confirmed_at = none;
  totp_last_step = 0;
  recovery_code_hashes = [];
}

abbrev pub keeps_session : Principal → SessionModel → Bool
keeps_session person s = not (text_eq s.user_id person.id) || text_eq s.id person.session_id

abbrev drop_others : Principal → Db → Db
drop_others person db = record db { sessions = select (keeps_session person) db.sessions }

unfoldable pub commit_replacement :
    Principal → Text → Option UserModel → Option (List Text) → Db → Option Db
commit_replacement person secret none left db = none
commit_replacement person secret (some user) none db = none
commit_replacement person secret (some user) (some left) db =
    if not (is_confirmed user)
    then none
    else if changes_one person.id (λ u. holds user.recovery_code_hashes u && is_confirmed u) db
    then some (
        mark_session person.session_id none (
          drop_others person (
            update_user person.id (λ u. holds user.recovery_code_hashes u && is_confirmed u)
              (renewed secret) db)))
    else none

-- `replaceMFAWithRecovery`
unfoldable pub replace_mfa : Principal → Text → Text → Db → Option Db
unfolding commit_replacement find_user
replace_mfa person wanted secret db =
    let user = find_user person.id db.users in
    commit_replacement person secret user (spend wanted (hashes_of user)) db

abbrev pub enrolled : ℕ → ℕ → List Text → UserModel → UserModel
enrolled now step hashes user = record user {
  totp_confirmed_at = some now;
  totp_last_step = step;
  recovery_code_hashes = hashes;
}

-- The transaction of `mfaConfirmHTTP`
unfoldable pub confirm_mfa : Principal → ℕ → ℕ → List Text → Db → Option Db
confirm_mfa person now step hashes db =
    if changes_one person.id (λ u. not (is_confirmed u)) db
    then some (
        mark_session person.session_id (some now)
          (update_user person.id (λ u. not (is_confirmed u)) (enrolled now step hashes) db))
    else none

module _ (out : Outside) where
  -- `validateTOTP` at a Unix time: the step that is accepted
  unfoldable pub validate_totp : Text → Text → ℕ → ℕ → Option ℕ
  validate_totp secret code now last =
      if not (byte_len code == 6) || any (λ c. not (is_digit c)) code
      then none
      else decoded_step out.totp_code code (now / totp_period_seconds) last
          (out.base32 (out.to_upper (trim_space secret)))

  abbrev opened_step : Text → ℕ → UserModel → Option Text → Option ℕ
  opened_step code now user none = none
  opened_step code now user (some secret) = validate_totp secret code now user.totp_last_step

  abbrev stored_step : Text → ℕ → UserModel → Option Text → Option ℕ
  stored_step code now user none = validate_totp [] code now user.totp_last_step
  stored_step code now user (some encrypted) =
      opened_step code now user (out.decrypt (codes "identity.totp." ++ user.id) encrypted)

  abbrev loaded_step : Text → ℕ → Option UserModel → Option ℕ
  loaded_step code now none = none
  loaded_step code now (some user) =
      if is_confirmed user then stored_step code now user user.totp_secret_encrypted else none

  -- `verifyTOTPChallenge` until its transaction, on the row that `loadMFAUser` reads
  unfoldable pub check_totp : Principal → Text → ℕ → Db → Option ℕ
  unfolding validate_totp
  check_totp person code now db = loaded_step code now (find_user person.id db.users)
