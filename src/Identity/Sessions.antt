-- ===== src/Identity/Sessions.antt =====
-- Who a request comes from, and whether it came from this panel (sessions.go, and `Middleware` and the two
-- context readers of identity.go). A refusal is the code of its response.
use nexa_panel.Prelude.{
  ℕ, ◌-◌, Bool, true, false, not, ◌||◌, ◌&&◌, ◌==◌, Option, none, some, List, [], ◌∷◌, Text, codes,
  is_empty, text_eq, trim_space, byte_len, ltb, leb, select, map, if◌then◌else◌,
}
use nexa_panel.Jobs.Redact.{starts_with}
use nexa_panel.Identity.Model.{UserModel, SessionModel, Db, Principal, Request, Outside}

pub data Answer (A : Type 0) : Type 0 where
  granted : A → Answer A
  refused : Text → Answer A

abbrev pub user_with : Text → List UserModel → Option UserModel
user_with id [] = none
user_with id (user ∷ users) = if text_eq user.id id then some user else user_with id users

-- A row of the join of a session and its user.
abbrev pub Joined : Type 0
Joined = SessionModel × UserModel

abbrev pub join_user : SessionModel → Option UserModel → Option Joined → Option Joined
join_user session none rest = rest
join_user session (some user) rest = some (session, user)

-- The session of a token hash, with its user.
unfoldable pub find_session : Text → List UserModel → List SessionModel → Option Joined
find_session hash users [] = none
find_session hash users (session ∷ sessions) =
    let rest = find_session hash users sessions in
    if text_eq session.token_hash hash
    then join_user session (user_with session.user_id users) rest
    else rest

unfoldable pub drop_token : Text → Db → Db
drop_token hash db = record db {
  sessions = select (λ (s : SessionModel). not (text_eq s.token_hash hash)) db.sessions;
}

abbrev seen_at : Text → ℕ → SessionModel → SessionModel
seen_at id now s = if text_eq s.id id then record s { last_seen_at = now } else s

unfoldable pub touch : Text → ℕ → Db → Db
touch id now db = record db { sessions = map (seen_at id now) db.sessions }

abbrev pub principal_of : Text → SessionModel → UserModel → Principal
principal_of hash session user = record {
  id = user.id;
  username = user.username;
  role = user.role;
  session_id = session.id;
  token_hash = hash;
  csrf_token_hash = session.csrf_token_hash;
  mfa_verified_at = session.mfa_verified_at;
  totp_confirmed_at = user.totp_confirmed_at;
}

-- `backgroundRequest`
unfoldable pub background_request : Request → Bool
background_request r = text_eq (trim_space r.background) (codes "1")

unfoldable pub safe_method : Text → Bool
safe_method method =
    text_eq method (codes "GET")
    || text_eq method (codes "HEAD")
    || text_eq method (codes "OPTIONS")

abbrev pub is_none : Option ℕ → Bool
is_none none = true
is_none (some _) = false

module _ (out : Outside) where
  abbrev host_is : Text → Option Text → Bool
  host_is host none = false
  host_is host (some other) = out.equal_fold other host

  unfoldable pub valid_request_origin : Request → Bool
  unfolding safe_method
  valid_request_origin r =
      if safe_method r.method
      then true
      else if not (is_empty r.origin) && not (text_eq r.origin (codes "null"))
      then host_is r.host (out.url_host r.origin)
      else if text_eq r.sec_fetch_site (codes "same-origin")
          || text_eq r.sec_fetch_site (codes "none")
      then true
      else if text_eq r.sec_fetch_site (codes "same-site")
          || text_eq r.sec_fetch_site (codes "cross-site")
      then false
      else if not (is_empty r.referer)
      then host_is r.host (out.url_host r.referer)
      else false

  unfoldable pub valid_csrf_token : Request → Principal → Bool
  unfolding safe_method
  valid_csrf_token r person =
      if safe_method r.method
      then true
      else if is_empty (trim_space r.csrf_token)
      then false
      else text_eq (out.sha256 (trim_space r.csrf_token)) person.csrf_token_hash

  -- `enforceOriginAndCSRF`: the refusal, if there is one
  unfoldable pub enforce_origin_and_csrf : Request → Principal → Bool → Option Text
  enforce_origin_and_csrf r person allow_tool_proxy =
      if not (valid_request_origin r)
      then some (codes "invalid_origin")
      else if allow_tool_proxy && starts_with (codes "/tools/") r.path
      then none
      else if not (valid_csrf_token r person)
      then some (codes "invalid_csrf_token")
      else none

  abbrev pub answered : Principal → Option Text → Answer Principal
  answered person none = granted person
  answered person (some e) = refused e

  -- What `Middleware` does with a principal.
  abbrev pub admit : Request → Principal → Answer Principal
  admit r person =
      if not (is_none person.totp_confirmed_at) && is_none person.mfa_verified_at
      then refused (codes "mfa_required")
      else answered person (enforce_origin_and_csrf r person true)

  abbrev pub pass_on : Request → Answer Principal × Db → Answer Principal × Db
  pass_on r (granted person, db) = (admit r person, db)
  pass_on r (refused _, db) = (refused (codes "authentication_required"), db)

  abbrev check_session : Request → Answer Principal × Db → Answer Principal × Db
  check_session r (refused e, db) = (refused e, db)
  check_session r (granted person, db) =
      if not (valid_request_origin r)
      then (refused (codes "invalid request origin"), db)
      else if not (valid_csrf_token r person)
      then (refused (codes "csrf verification failed"), db)
      else (granted person, db)

  abbrev pass_challenge : Request → Answer Principal × Db → Answer Principal × Db
  pass_challenge r (refused _, db) = (refused (codes "authentication_required"), db)
  pass_challenge r (granted person, db) =
      (answered person (enforce_origin_and_csrf r person false), db)

  module _ (idle_timeout : ℕ) where
    unfoldable pub authenticate_row :
        Request → ℕ → Text → Option Joined → Db → Answer Principal × Db
    authenticate_row r now hash none db = (refused (codes "session not found"), db)
    authenticate_row r now hash (some (session, user)) db =
        if not (ltb now session.expires_at)
        then (refused (codes "session expired"), drop_token hash db)
        else if ltb idle_timeout (now - session.last_seen_at)
        then (refused (codes "session idle timeout"), drop_token hash db)
        else if is_empty session.csrf_token_hash
        then (refused (codes "session predates csrf binding"), drop_token hash db)
        else (
          granted (principal_of hash session user),
          if background_request r then db else touch session.id now db,
        )

    unfoldable pub authenticate_cookie : Request → ℕ → Option Text → Db → Answer Principal × Db
    unfolding authenticate_row
    authenticate_cookie r now none db = (refused (codes "session cookie is missing"), db)
    authenticate_cookie r now (some value) db =
        if not (byte_len value == 64)
        then (refused (codes "session cookie is missing"), db)
        else authenticate_row r now (out.sha256 value)
            (find_session (out.sha256 value) db.users db.sessions) db

    unfoldable pub authenticate : Request → ℕ → Db → Answer Principal × Db
    unfolding authenticate_cookie
    authenticate r now db = authenticate_cookie r now r.cookie db

    unfoldable pub middleware : Request → ℕ → Db → Answer Principal × Db
    unfolding enforce_origin_and_csrf authenticate
    middleware r now db = pass_on r (authenticate r now db)

    unfoldable pub require_session : Request → ℕ → Db → Answer Principal × Db
    unfolding authenticate
    require_session r now db = check_session r (authenticate r now db)

    -- `preAuthentication`, which every call of the second factor opens with
    unfoldable pub pre_authentication : Request → ℕ → Db → Answer Principal × Db
    unfolding enforce_origin_and_csrf authenticate
    pre_authentication r now db = pass_challenge r (authenticate r now db)

-- `RecentMFA`
unfoldable pub recent_mfa : Option ℕ → ℕ → ℕ → Bool
recent_mfa none now max_age = false
recent_mfa (some verified_at) now max_age =
    ltb 0 max_age && leb verified_at now && leb (now - verified_at) max_age
