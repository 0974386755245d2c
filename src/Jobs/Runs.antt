-- ===== src/Jobs/Runs.antt =====
-- Runs of the parts of the queue beside its transactions: site scopes, the execution of a handler, what
-- a developer sees, and redaction.
use nexa_panel.Prelude.{
  ℕ, ◌≡◌, ◌↔◌, ◌≤◌, refl, Bool, Bool-cases, some_eq, text_eq_sound, false, Option, none, some, List,
  [], ◌∷◌, Text, arith, codes, pos, ℤ, map, All, IsIn, trim_space, text_eq, text_lt, byte_len,
  is_space, is_control, has_control, if◌then◌else◌, inl, inr, ◌&&◌,
}
use nexa_panel.Jobs.Model.{JobRow, ok, recovery_retry}
use nexa_panel.Jobs.Store.{find_job}
use nexa_panel.Jobs.Scope.{
  normalize_site_ids, collect_site_ids, sort_strings, insert_sorted, add_unique, bad_site_id,
}
use nexa_panel.Jobs.Sample.{
  config, second_db, second_db-Inv, token, claimed_row, claimed_db, claimed_db-Inv, claimed_found,
  claimed_under,
}
use nexa_panel.Jobs.Worker.{lease_to}
use nexa_panel.Jobs.Submit.{new_row}
use nexa_panel.Jobs.Execute.{Run, Queue, finish, report, returned, execute, run_handler}
use nexa_panel.Jobs.Execution.{Held, IsEnded, execute-ends, run_handler-Held}
use nexa_panel.Jobs.Sorting.{IsSorted}
use nexa_panel.Jobs.Normal.{normalize_site_ids_laws, normalize_site_ids_canonical}
use nexa_panel.Jobs.Access.{User, Access, get_for_user, list_for_user}
use nexa_panel.Jobs.Visible.{IsVisible, developer_sees}
use nexa_panel.Jobs.Redact.{
  Value, str, obj, field, end, redacted_secret, redact_value, is_credential_key, lower, contains,
  to_lower, starts_with, withheld, redact_raw_json,
}
use nexa_panel.Jobs.Clean.{IsClean, redact_raw_json-IsClean}

abbrev given : List Text
given = codes "shop" ∷ codes " blog " ∷ codes "shop" ∷ []

abbrev reordered : List Text
reordered = codes "blog" ∷ codes "shop" ∷ []

normal_given : normalize_site_ids given ≡ ok (codes "blog" ∷ codes "shop" ∷ [])
unfolding normalize_site_ids collect_site_ids sort_strings insert_sorted add_unique bad_site_id
    text_eq text_lt byte_len is_space is_control has_control trim_space
normal_given = refl

normal_reordered : normalize_site_ids reordered ≡ ok (codes "blog" ∷ codes "shop" ∷ [])
unfolding normalize_site_ids collect_site_ids sort_strings insert_sorted add_unique bad_site_id
    text_eq text_lt byte_len is_space is_control has_control trim_space
normal_reordered = refl

normalize_site_ids_laws_example :
    IsSorted reordered × ((t : Text) → IsIn t reordered ↔ IsIn t (map trim_space given))
normalize_site_ids_laws_example = normalize_site_ids_laws given reordered normal_given

same_sites : (t : Text) → IsIn t (map trim_space given) ↔ IsIn t (map trim_space reordered)
unfolding trim_space is_space
same_sites t = (
  (λ m. elim m [
    | inl a ↦ inr (inl a)
    | inr n ↦ elim n [ inl b ↦ inl b | inr k ↦ elim k [ inl a ↦ inr (inl a) | inr e ↦ absurd e ] ]
  ]),
  (λ m. elim m [ inl b ↦ inr (inl b) | inr n ↦ elim n [ inl a ↦ inl a | inr e ↦ absurd e ] ]),
)

normalize_site_ids_canonical_example : ◌≡◌ {A = List Text} reordered reordered
normalize_site_ids_canonical_example =
    normalize_site_ids_canonical given reordered reordered reordered normal_given normal_reordered
      same_sites

abbrev developer : User
developer = record { id = codes "ada"; role = codes "developer" }

abbrev grants_shop : User → Option Access
grants_shop u = some (record { every_site = false; site_ids = codes "shop" ∷ [] })

developer_sees_example :
    ((id : ℕ) (j : JobRow)
      → (get_for_user (some grants_shop) developer id second_db ≡ ok j)
        ↔ (find_job id second_db ≡ some j) × IsVisible (codes "ada") (codes "shop" ∷ []) j)
    × ((limit : ℤ) (jobs : List JobRow)
        → list_for_user (some grants_shop) developer limit second_db ≡ ok jobs
        → All (IsVisible (codes "ada") (codes "shop" ∷ [])) jobs)
developer_sees_example =
    developer_sees grants_shop developer (codes "shop" ∷ []) second_db second_db-Inv refl refl

-- {"DbPassword": "x"}
abbrev payload : Value
payload = obj (field (codes "DbPassword") (str (codes "x")) end)

abbrev hidden : Value
hidden = obj (field (codes "DbPassword") (str redacted_secret) end)

hides : redact_value payload ≡ hidden
unfolding redact_value is_credential_key lower contains to_lower starts_with
hides = refl

-- A library that knows three payloads.
abbrev toy_decode : Text → Option Value
toy_decode t =
    if text_eq t withheld
    then some (str redacted_secret)
    else if text_eq t (1 ∷ [])
    then some payload
    else if text_eq t (2 ∷ [])
    then some hidden
    else none

abbrev is_hidden : Text → Text → Bool
is_hidden k s = text_eq k (codes "DbPassword") && text_eq s redacted_secret

abbrev toy_encode : Value → Option Text
toy_encode (obj (field k (str s) end)) = if is_hidden k s then some (2 ∷ []) else none
toy_encode _ = none

toy_round_trip : (v : Value) (t : Text) → toy_encode v ≡ some t → toy_decode t ≡ some v
unfolding text_eq
toy_round_trip (obj (field k (str s) end)) t h = elim (Bool-cases (is_hidden k s)) [
  | inl e ↦
      let named : k ≡ codes "DbPassword" = text_eq_sound k (codes "DbPassword") (ground arith) in
      let shown : s ≡ redacted_secret = text_eq_sound s redacted_secret (ground arith) in
      let written : 2 ∷ [] ≡ t = some_eq (2 ∷ []) t (rw e at h) in rw (← written, named, shown)
  | inr e ↦ cc (rw e at h)
]
toy_round_trip _ t h = cc

toy_placeholder : toy_decode withheld ≡ some (str redacted_secret)
unfolding text_eq
toy_placeholder = refl

toy_shows : toy_decode (redact_raw_json toy_decode toy_encode (1 ∷ [])) ≡ some hidden
unfolding redact_raw_json redact_value is_credential_key lower contains to_lower starts_with text_eq
toy_shows = refl

redact_raw_json-IsClean_example : IsClean hidden
redact_raw_json-IsClean_example =
    redact_raw_json-IsClean toy_decode toy_encode toy_round_trip toy_placeholder (1 ∷ []) hidden
      (λ e. cc) toy_shows

-- A handler that reports half, then too little, and returns.
abbrev half_way : Run
half_way =
    report 11 (pos 50) (codes "half")
      λ e. report 12 (pos 20) (codes "back") λ e. finish (returned (codes "{}"))

claimed-Held : Held 1 token 0 claimed_db
unfolding lease_to new_row
claimed-Held = record {
  inv = claimed_db-Inv;
  row = claimed_row;
  found = claimed_found;
  lease = claimed_under;
  tracked = refl;
}

run_handler-Held_example :
    let r = run_handler config 1 token half_way 0 claimed_db in Held 1 token r.1 r.2 × (0 ≤ r.1)
run_handler-Held_example = run_handler-Held config 1 token half_way 0 claimed_db claimed-Held

abbrev queue : Queue
queue = record {
  db = claimed_db;
  config = config;
  worker_id = codes "w1";
  handlers =
      record {
        kind = codes "diag";
        handler = some (λ request. half_way);
        recovery_policy = recovery_retry;
      }
      ∷ [];
  notify = false;
  audit = [];
  panics = 0;
}

execute-ends_example : IsEnded 1 (execute false false 20 claimed_row queue)
unfolding lease_to new_row
execute-ends_example = execute-ends 20 claimed_row token queue refl claimed-Held
