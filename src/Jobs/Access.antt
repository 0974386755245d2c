-- ===== src/Jobs/Access.antt =====
-- What a user sees of the queue (internal/platform/jobs/access.go, and `List`, `Get` and
-- `EventsAfter` of repository.go). The policy that grants sites is the sites module's: it is an
-- argument, and may fail or be missing.
use nexa_panel.Prelude.{
  ℕ, Bool, true, false, not, ◌&&◌, ◌||◌, Option, none, some, List, [], ◌∷◌, Text, any, all, select,
  take, first, ltb, ◌==◌, if◌then◌else◌, text_eq, codes, ℤ, pos, negsuc,
}
use nexa_panel.Jobs.Model.{
  JobRow, EventRow, Result, ok, err, ◌>>=◌, policy_unavailable, access_failed, no_rows,
}
use nexa_panel.Jobs.Store.{Db, has_id}
use mathlib.Core.List.{reverse}

pub record User : Type 0 where
  pub id : Text
  pub role : Text

-- What `AccessibleSiteIDs` answers, if it does not fail.
pub record Access : Type 0 where
  pub every_site : Bool
  pub site_ids : List Text

abbrev pub Policy : Type 0
Policy = Option (User → Option Access)

-- Which rows the query of a user is limited to.
pub data Scope : Type 0 where
  unscoped : Scope
  own_or_granted : Text → List Text → Scope

unfoldable pub scope_of_access : User → Option Access → Result Scope
scope_of_access user none = err access_failed
scope_of_access user (some a) =
    if a.every_site then ok unscoped else ok (own_or_granted user.id a.site_ids)

unfoldable pub scope_of_policy : User → Policy → Result Scope
unfolding scope_of_access
scope_of_policy user none = err policy_unavailable
scope_of_policy user (some accessible) = scope_of_access user (accessible user)

-- `scopeJobsForUser`
unfoldable pub scope_jobs_for_user : Policy → User → Result Scope
unfolding scope_of_policy
scope_jobs_for_user policy user =
    if not (text_eq user.role (codes "developer")) then ok unscoped else scope_of_policy user policy

-- `actor_user_id = ?`, which is false of a row without a submitter.
unfoldable pub submitted_by : Text → Option Text → Bool
submitted_by user none = false
submitted_by user (some a) = text_eq a user

abbrev pub is_nonempty : List Text → Bool
is_nonempty [] = false
is_nonempty (x ∷ xs) = true

unfoldable pub granted : List Text → Text → Bool
granted site_ids site = any (text_eq site) site_ids

-- The condition of the query; the second half is added only if a site is granted.
unfoldable pub in_scope : Scope → JobRow → Bool
unfolding submitted_by granted
in_scope unscoped j = true
in_scope (own_or_granted user site_ids) j =
    submitted_by user j.actor_user_id
    || (is_nonempty site_ids
        && (is_nonempty j.scope_site_ids && all (granted site_ids) j.scope_site_ids))

-- A limit outside 1 to 200 is 50.
unfoldable pub clamp_limit : ℤ → ℕ
clamp_limit (negsuc n) = 50
clamp_limit (pos n) = if ltb n 1 || ltb 200 n then 50 else n

-- `ORDER BY id DESC LIMIT ?`
abbrev newest_first : ℕ → List JobRow → List JobRow
newest_first limit jobs = take limit (reverse jobs)

-- `List`
unfoldable pub list : ℤ → Db → List JobRow
list limit db = newest_first (clamp_limit limit) db.jobs

-- `ListForUser`
unfoldable pub list_for_user : Policy → User → ℤ → Db → Result (List JobRow)
list_for_user policy user limit db = do
  scope ← scope_jobs_for_user policy user
  ok (newest_first (clamp_limit limit) (select (in_scope scope) db.jobs))

abbrev pub row_or_missing : Option JobRow → Result JobRow
row_or_missing none = err no_rows
row_or_missing (some j) = ok j

-- `GetForUser`
unfoldable pub get_for_user : Policy → User → ℕ → Db → Result JobRow
get_for_user policy user id db = do
  scope ← scope_jobs_for_user policy user
  row_or_missing (first (λ j. has_id id j && in_scope scope j) db.jobs)

-- `EventsAfter`
unfoldable pub events_after : ℕ → ℕ → Db → List EventRow
events_after job_id sequence db =
    select (λ (e : EventRow). (e.job_id == job_id) && ltb sequence e.sequence) db.events

-- `EventsAfterForUser`
unfoldable pub events_after_for_user : Policy → User → ℕ → ℕ → Db → Result (List EventRow)
events_after_for_user policy user job_id sequence db = do
  job ← get_for_user policy user job_id db
  ok (events_after job_id sequence db)
