-- ===== src/Identity/Admission.antt =====
-- What the middleware has established of a request that it passes on.
use nexa_panel.Prelude.{
  ℕ, ◌-◌, ◌≤◌, ◌<◌, ◌≡◌, ◌⊎◌, inl, inr, refl, ap, sym, subst, ◌∙◌, Bool, true, false, not, ◌&&◌,
  Option, none, some, some_eq, List, [], ◌∷◌, Text, codes, is_empty, text_eq, text_eq_sound,
  trim_space, ltb, ltb→lt, arith, Bool-cases, Option-cases, if◌then◌else◌, IsIn,
}
use nexa_panel.Jobs.Redact.{starts_with}
use nexa_panel.Identity.Model.{UserModel, SessionModel, Db, Principal, Request, Outside}
use nexa_panel.Identity.Sessions.{
  Answer, granted, refused, Joined, user_with, find_session, principal_of, is_none, safe_method,
  valid_request_origin, valid_csrf_token, authenticate_row, authenticate_cookie, authenticate,
  enforce_origin_and_csrf, answered, admit, pass_on, middleware,
}

user_with_sound :
    (id : Text) (users : List UserModel) (user : UserModel)
    → user_with id users ≡ some user
    → IsIn user users × (user.id ≡ id)
user_with_sound id [] user e = cc
user_with_sound id (u ∷ users) user e = elim (Bool-cases (text_eq u.id id)) [
  | inl same ↦
      let here : user ≡ u = some_eq user u (sym e ∙ rw same refl) in
      (inl here, ap (λ (v : UserModel). v.id) here ∙ text_eq_sound u.id id same)
  | inr other ↦
      let rest = user_with_sound id users user (sym (rw other refl) ∙ e) in (inr rest.0, rest.1)
]

-- What a row of the join is: a session of the table under the hash, and its user.
abbrev IsRow : Text → List UserModel → List SessionModel → SessionModel → UserModel → Type 0
IsRow hash users sessions s u =
    IsIn s sessions × IsIn u users × (s.token_hash ≡ hash) × (u.id ≡ s.user_id)

first_row :
    (hash : Text) (users : List UserModel) (session : SessionModel) (sessions : List SessionModel)
    (user : UserModel) (s : SessionModel) (u : UserModel)
    → text_eq session.token_hash hash ≡ true
    → user_with session.user_id users ≡ some user
    → ◌≡◌ {A = Joined} (session, user) (s, u)
    → IsRow hash users (session ∷ sessions) s u
first_row hash users session sessions user s u same found both =
    let s_is : session ≡ s = ap (λ (j : Joined). j.0) both in
    let u_is : user ≡ u = ap (λ (j : Joined). j.1) both in
    let known = user_with_sound session.user_id users user found in
    (
      inl (sym s_is),
      subst (λ v. IsIn v users) u_is known.0,
      ap (λ (v : SessionModel). v.token_hash) (sym s_is)
          ∙ text_eq_sound session.token_hash hash same,
      ap (λ (v : UserModel). v.id) (sym u_is)
          ∙ (known.1 ∙ ap (λ (v : SessionModel). v.user_id) s_is),
    )

find_session_sound :
    (hash : Text) (users : List UserModel) (sessions : List SessionModel) (s : SessionModel)
    (u : UserModel)
    → find_session hash users sessions ≡ some (s, u)
    → IsRow hash users sessions s u
unfolding find_session
find_session_sound hash users [] s u e = absurd (cc)
find_session_sound hash users (session ∷ sessions) s u e =
    let later : find_session hash users sessions ≡ some (s, u)
        → IsRow hash users (session ∷ sessions) s u =
      λ h.
        let rest = find_session_sound hash users sessions s u h in
        (inr rest.0, rest.1, rest.2, rest.3) in
    elim (Bool-cases (text_eq session.token_hash hash)) [
      | inl same ↦ elim (Option-cases (user_with session.user_id users)) [
        | inl gone ↦ later (sym (rw (same, gone) refl) ∙ e)
        | inr (user, found) ↦
            first_row hash users session sessions user s u same found
              (some_eq (session, user) (s, u) (sym (rw (same, found) refl) ∙ e))
      ]
      | inr other ↦ later (sym (rw other refl) ∙ e)
    ]

-- A check that was passed, where only its other branch grants.
past :
    (b : Bool) (e : Text) (d d' : Db) (rest : Answer Principal × Db) (p : Principal)
    → ◌≡◌ {A = Answer Principal × Db} (if b then (refused e, d) else rest) (granted p, d')
    → (b ≡ false) × (rest ≡ (granted p, d'))
past true e d d' rest p h = absurd (cc)
past false e d d' rest p h = (refl, h)

granted_eq :
    (p q : Principal) (d d' : Db)
    → ◌≡◌ {A = Answer Principal × Db} (granted p, d) (granted q, d')
    → p ≡ q
granted_eq p q d d' e = cc

-- What a live session is: a row under the hash of the cookie's token, of a user that exists, before its end,
-- used within the idle time, and bound to a token against cross-site requests.
pub record IsLive (out : Outside) (idle_timeout now : ℕ) (r : Request) (db : Db) (p : Principal)
    : Type 0 where
  pub token : Text
  pub session : SessionModel
  pub user : UserModel
  pub presented : r.cookie ≡ some token
  pub stored : IsIn session db.sessions
  pub known : IsIn user db.users
  pub hashed : session.token_hash ≡ out.sha256 token
  pub owned : user.id ≡ session.user_id
  pub unexpired : now < session.expires_at
  pub used : now - session.last_seen_at ≤ idle_timeout
  pub bound : is_empty session.csrf_token_hash ≡ false
  pub is_principal : principal_of (out.sha256 token) session user ≡ p

at_most : (a b : ℕ) → ltb a b ≡ false → b ≤ a
at_most a b e = ground arith

not-false : (b : Bool) → not b ≡ false → b ≡ true
not-false true e = refl
not-false false e = cc

module _ (out : Outside) (idle_timeout now : ℕ) (r : Request) (db db' : Db) (p : Principal) where
  row-IsLive :
      (token : Text)
      → r.cookie ≡ some token
      → (j : Option Joined) → find_session (out.sha256 token) db.users db.sessions ≡ j
      → authenticate_row out idle_timeout r now (out.sha256 token) j db ≡ (granted p, db')
      → IsLive out idle_timeout now r db p
  unfolding authenticate_row
  row-IsLive token c none found e = absurd (cc)
  row-IsLive token c (some (session, user)) found e =
      let p1 = past _ _ _ _ _ p e in
      let p2 = past _ _ _ _ _ p p1.1 in
      let p3 = past _ _ _ _ _ p p2.1 in
      let row = find_session_sound (out.sha256 token) db.users db.sessions session user found in
      record {
        token = token;
        session = session;
        user = user;
        presented = c;
        stored = row.0;
        known = row.1;
        hashed = row.2;
        owned = row.3;
        unexpired = ltb→lt now session.expires_at (not-false _ p1.0);
        used = at_most idle_timeout (now - session.last_seen_at) p2.0;
        bound = p3.0;
        is_principal = granted_eq _ p _ db' p3.1;
      }

  cookie-IsLive :
      (c : Option Text)
      → r.cookie ≡ c
      → authenticate_cookie out idle_timeout r now c db ≡ (granted p, db')
      → IsLive out idle_timeout now r db p
  unfolding authenticate_cookie
  cookie-IsLive none c e = absurd (cc)
  cookie-IsLive (some token) c e = row-IsLive token c _ refl (past _ _ _ _ _ p e).1

  pub authenticate-IsLive :
      authenticate out idle_timeout r now db ≡ (granted p, db') → IsLive out idle_timeout now r db p
  unfolding authenticate
  authenticate-IsLive e = cookie-IsLive r.cookie refl e

-- Which requests came from this panel: those with a safe method, and those whose origin checks out and that
-- carry the token of the session, where it is not the tools' own.
abbrev pub CameFromPanel : Outside → Request → Principal → Bool → Type 0
CameFromPanel out r p allow_tools =
    (safe_method r.method ≡ true)
    ⊎ ((valid_request_origin out r ≡ true)
        × (((allow_tools && starts_with (codes "/tools/") r.path) ≡ true)
            ⊎ (out.sha256 (trim_space r.csrf_token) ≡ p.csrf_token_hash)))

module _ (out : Outside) (r : Request) (p : Principal) where
  csrf_sound :
      valid_csrf_token out r p ≡ true
      → (safe_method r.method ≡ true) ⊎ (out.sha256 (trim_space r.csrf_token) ≡ p.csrf_token_hash)
  unfolding valid_csrf_token
  csrf_sound e = elim (Bool-cases (safe_method r.method)) [
    | inl safe ↦ inl safe
    | inr unsafe ↦ elim (Bool-cases (is_empty (trim_space r.csrf_token))) [
      | inl empty ↦ absurd (cc)
      | inr given ↦ inr (text_eq_sound _ _ (sym (rw (unsafe, given) refl) ∙ e))
    ]
  ]

  enforce_sound :
      (allow_tools : Bool)
      → enforce_origin_and_csrf out r p allow_tools ≡ none
      → CameFromPanel out r p allow_tools
  unfolding enforce_origin_and_csrf
  enforce_sound allow_tools e = elim (Bool-cases (valid_request_origin out r)) [
    | inr foreign ↦ absurd (cc)
    | inl own ↦ elim (Bool-cases (allow_tools && starts_with (codes "/tools/") r.path)) [
      | inl tools ↦ inr (own, inl tools)
      | inr other ↦ elim (Bool-cases (valid_csrf_token out r p)) [
        | inr forged ↦ absurd (cc)
        | inl bound ↦ elim (csrf_sound bound) [
          | inl safe ↦ inl safe
          | inr token ↦ inr (own, inr token)
        ]
      ]
    ]
  ]

  answered_sound :
      (e : Option Text) (q : Principal) → answered out p e ≡ granted q → (e ≡ none) × (p ≡ q)
  answered_sound none q h = (refl, cc)
  answered_sound (some e) q h = absurd (cc)

  admit_sound :
      (q : Principal)
      → admit out r p ≡ granted q
      → (p ≡ q)
        × ((p.totp_confirmed_at ≡ none) ⊎ (is_none p.mfa_verified_at ≡ false))
        × CameFromPanel out r p true
  admit_sound q e =
      elim (Bool-cases (not (is_none p.totp_confirmed_at) && is_none p.mfa_verified_at)) [
        | inl challenged ↦ absurd (cc)
        | inr free ↦
            let told =
              answered_sound (enforce_origin_and_csrf out r p true) q (sym (rw free refl) ∙ e) in
            (told.1, factor p.totp_confirmed_at p.mfa_verified_at free, enforce_sound true told.0)
      ]
    where
      factor :
          (confirmed verified : Option ℕ)
          → (not (is_none confirmed) && is_none verified) ≡ false
          → (confirmed ≡ none) ⊎ (is_none verified ≡ false)
      factor none v h = inl refl
      factor (some _) none h = absurd (cc)
      factor (some _) (some _) h = inr refl

module _ (out : Outside) (idle_timeout now : ℕ) (r : Request) (db db' : Db) (q : Principal) where
  passed_on :
      (a : Answer Principal × Db)
      → pass_on out r a ≡ (granted q, db')
      → (p : Principal) × ((a ≡ (granted p, db')) × (admit out r p ≡ granted q))
  passed_on (refused e, d) h = absurd (cc)
  passed_on (granted p, d) h = (p, (cc, ap (λ (x : Answer Principal × Db). x.0) h))

  -- A request that the middleware passes on as `q`: `q` is the principal of a live session, which is a row
  -- of the table under the hash of the cookie, of an account that exists, unexpired, used within the idle
  -- time and bound to a token; an account with a confirmed second factor has answered the challenge in that
  -- session; and the request has a safe method, or its origin checks out and it carries the token of that
  -- session or is one of the proxied tools'.
  pub middleware-IsLive :
      middleware out idle_timeout r now db ≡ (granted q, db')
      → IsLive out idle_timeout now r db q
        × ((q.totp_confirmed_at ≡ none) ⊎ (is_none q.mfa_verified_at ≡ false))
        × CameFromPanel out r q true
  unfolding middleware
  middleware-IsLive e =
      let (p, (auth, adm)) = passed_on (authenticate out idle_timeout r now db) e in
      let told = admit_sound out r p q adm in
      subst
        (λ v.
          IsLive out idle_timeout now r db v
          × ((v.totp_confirmed_at ≡ none) ⊎ (is_none v.mfa_verified_at ≡ false))
          × CameFromPanel out r v true)
        told.0 (authenticate-IsLive out idle_timeout now r db db' p auth, told.1, told.2)
