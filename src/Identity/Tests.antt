-- ===== src/Identity/Tests.antt =====
-- An account with a confirmed factor and a live session, and what its requests and codes come to.
use nexa_panel.Prelude.{
  ℕ, ◌≤◌, ◌≡◌, ◌⊎◌, refl, inr, true, false, none, some, List, [], ◌∷◌, Text, codes, arith,
}
use nexa_panel.Identity.Model.{UserModel, SessionModel, Db, Principal, Request, Outside}
use nexa_panel.Identity.Sessions.{
  refused, find_session, drop_token, touch, background_request, safe_method, is_none,
  valid_request_origin, valid_csrf_token, authenticate_row, authenticate_cookie, authenticate,
  enforce_origin_and_csrf, middleware,
}
use nexa_panel.Identity.Factor.{
  find_user, commit_totp, spend, commit_recovery, verify_recovery, first_step, validate_totp,
}
use nexa_panel.Identity.Consumption.{
  Consumption, totp, recovery, consume, accepted_steps, accepted_codes,
}
use nexa_panel.Identity.Admission.{IsLive, CameFromPanel, middleware-IsLive}
use nexa_panel.Identity.Replay.{StrictlyAbove, accepted_steps-StrictlyAbove}
use nexa_panel.Identity.Codes.{codes_left, accepted_codes-le-codes_left}
use nexa_panel.Prelude.{
  text_eq, trim_space, trim_left, trim_right, keep_unless_trailing, is_space, byte_len,
}
use nexa_panel.Jobs.Redact.{starts_with}

abbrev token : Text
token = codes "0123456789abcdef0123456789abcdef0123456789abcdef0123456789abcdef"

abbrev outside : Outside
outside = record {
  sha256 = λ t. t;
  url_host = λ u. some (codes "panel");
  equal_fold = λ a b. text_eq a b;
  decrypt = λ label c. some c;
  to_upper = λ t. t;
  base32 = λ t. some t;
  totp_code = λ secret step. codes "123456";
  hash_recovery_code = λ c. c;
}

abbrev admin : UserModel
admin = record {
  id = codes "u1";
  username = codes "admin";
  role = codes "admin";
  totp_secret_encrypted = some (codes "s");
  totp_confirmed_at = some 5;
  totp_last_step = 2;
  recovery_code_hashes = codes "aa" ∷ codes "bb" ∷ [];
}

abbrev session : SessionModel
session = record {
  id = codes "s1";
  user_id = codes "u1";
  token_hash = token;
  created_at = 10;
  expires_at = 1000;
  last_seen_at = 50;
  mfa_verified_at = some 20;
  csrf_token_hash = codes "csrf";
}

abbrev db : Db
db = record { users = admin ∷ []; sessions = session ∷ [] }

abbrev post : Request
post = record {
  method = codes "POST";
  path = codes "/api/v1/sites";
  host = codes "panel";
  cookie = some token;
  origin = codes "https://panel";
  sec_fetch_site = [];
  referer = [];
  csrf_token = codes "csrf";
  background = codes "1";
}

abbrev person : Principal
person = record {
  id = codes "u1";
  username = codes "admin";
  role = codes "admin";
  session_id = codes "s1";
  token_hash = token;
  csrf_token_hash = codes "csrf";
  mfa_verified_at = some 20;
  totp_confirmed_at = some 5;
}

middleware-IsLive_example :
    IsLive outside 100 60 post db person
    × ((person.totp_confirmed_at ≡ none) ⊎ (is_none person.mfa_verified_at ≡ false))
    × CameFromPanel outside post person true
unfolding find_session drop_token touch background_request safe_method valid_request_origin
    valid_csrf_token authenticate_row authenticate_cookie authenticate enforce_origin_and_csrf
    middleware text_eq trim_space trim_left trim_right keep_unless_trailing is_space byte_len
    starts_with
middleware-IsLive_example = middleware-IsLive outside 100 60 post db db person refl

-- A session that was not used for too long is ended.
idle_session :
    middleware outside 100 post 200 db
    ≡ (refused (codes "authentication_required"), record db { sessions = [] })
unfolding find_session drop_token touch background_request safe_method valid_request_origin
    valid_csrf_token authenticate_row authenticate_cookie authenticate enforce_origin_and_csrf
    middleware text_eq trim_space trim_left trim_right keep_unless_trailing is_space byte_len
    starts_with
idle_session = refl

-- The same step twice, then a later one; the same recovery code twice.
abbrev consumptions : List Consumption
consumptions =
    totp person 3 100
    ∷ totp person 3 101
    ∷ recovery person (codes "aa") 102
    ∷ recovery person (codes "aa") 103
    ∷ totp person 4 104
    ∷ []

accepted : accepted_steps (codes "u1") consumptions db ≡ 3 ∷ 4 ∷ []
unfolding accepted_steps consume commit_totp verify_recovery commit_recovery spend find_user text_eq
accepted = refl

accepted_steps-StrictlyAbove_example : StrictlyAbove 2 (accepted_steps (codes "u1") consumptions db)
accepted_steps-StrictlyAbove_example =
    accepted_steps-StrictlyAbove (codes "u1") 2 consumptions db (inr (le_refl 2), tt)
  where
    le_refl : (n : ℕ) → n ≤ n
    le_refl n = omega arith

accepted_codes-le-codes_left_example :
    accepted_codes (codes "u1") (codes "aa") consumptions db
    ≤ codes_left (codes "u1") (codes "aa") db
accepted_codes-le-codes_left_example =
    accepted_codes-le-codes_left (codes "u1") (codes "aa") consumptions db

-- A code of the current period is accepted past the last step.
code_accepted : validate_totp outside (codes "s") (codes "123456") 90 2 ≡ some 3
unfolding validate_totp first_step text_eq byte_len trim_space trim_left trim_right
    keep_unless_trailing is_space
code_accepted = refl
