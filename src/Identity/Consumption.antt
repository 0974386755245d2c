-- ===== src/Identity/Consumption.antt =====
-- The transactions that consume a second factor, as a sequence: many requests may have checked their codes
-- before against older rows.
use nexa_panel.Prelude.{
  ℕ, suc, ◌&&◌, Option, none, some, List, [], ◌∷◌, Text, text_eq, if◌then◌else◌,
}
use nexa_panel.Identity.Model.{Db, Principal}
use nexa_panel.Identity.Factor.{commit_totp, verify_recovery}

-- A transaction of one request: an authenticator code whose step was checked, or the hash of a recovery
-- code.
pub data Consumption : Type 0 where
  totp : Principal → ℕ → ℕ → Consumption
  recovery : Principal → Text → ℕ → Consumption

unfoldable pub consume : Consumption → Db → Option Db
consume (totp person step now) db = commit_totp person step now db
consume (recovery person wanted now) db = verify_recovery person wanted now db

abbrev pub or_same : Db → Option Db → Db
or_same db none = db
or_same db (some db') = db'

-- The step that is accepted for the account `id`, if one is.
abbrev pub step_for : Text → Consumption → Option Db → List ℕ → List ℕ
step_for id (totp person step now) (some _) steps =
    if text_eq person.id id then step ∷ steps else steps
step_for id (totp person step now) none steps = steps
step_for id (recovery _ _ _) _ steps = steps

-- The steps that are accepted for an account, in order.
unfoldable pub accepted_steps : Text → List Consumption → Db → List ℕ
accepted_steps id [] db = []
accepted_steps id (c ∷ cs) db =
    step_for id c (consume c db) (accepted_steps id cs (or_same db (consume c db)))

-- How many times a recovery code is accepted for an account.
abbrev pub code_for : Text → Text → Consumption → Option Db → ℕ → ℕ
code_for id w (totp _ _ _) _ n = n
code_for id w (recovery person wanted now) none n = n
code_for id w (recovery person wanted now) (some _) n =
    if text_eq person.id id && text_eq wanted w then suc n else n

unfoldable pub accepted_codes : Text → Text → List Consumption → Db → ℕ
accepted_codes id w [] db = 0
accepted_codes id w (c ∷ cs) db =
    code_for id w c (consume c db) (accepted_codes id w cs (or_same db (consume c db)))
