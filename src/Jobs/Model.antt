-- ===== src/Jobs/Model.antt =====
-- The rows and the configuration of the job queue (internal/platform/jobs/jobs.go). A time is a
-- number of nanoseconds after the epoch.
use nexa_panel.Prelude.{
  ℕ, suc, ◌+◌, ◌-◌, Bool, true, false, Option, none, some, List, Text, Bytes, ℤ, pos, negsuc,
  is_nonpositive, is_zero, if◌then◌else◌, text_eq,
}

pub data State : Type 0 where
  queued running succeeded failed : State

-- A policy is a string in the source: any other than the two is refused by `valid`.
pub data RecoveryPolicy : Type 0 where
  recovery_fail recovery_retry : RecoveryPolicy
  unknown : Text → RecoveryPolicy

unfoldable pub valid : RecoveryPolicy → Bool
valid recovery_fail = true
valid recovery_retry = true
valid (unknown s) = false

unfoldable pub terminal : State → Bool
terminal succeeded = true
terminal failed = true
terminal _ = false

abbrev pub is_queued : State → Bool
is_queued queued = true
is_queued _ = false

abbrev pub is_running : State → Bool
is_running running = true
is_running _ = false

-- `jobModel`. The columns `RequestJSON` and `ResultJSON` hold encoded text; the column of site ids
-- holds the JSON of a list of strings, and stands here as that list.
pub record JobRow : Type 0 where
  pub id : ℕ
  pub kind : Text
  pub title : Text
  pub state : State
  pub progress : ℕ
  pub actor_user_id : Option Text
  pub request_json : Text
  pub result_json : Option Text
  pub failure : Option Bytes
  pub created_at : ℕ
  pub updated_at : ℕ
  pub started_at : Option ℕ
  pub completed_at : Option ℕ
  pub recovery_policy : RecoveryPolicy
  pub idempotency_key : Option Text
  pub scope_site_ids : List Text
  pub attempt : ℕ
  pub lease_owner : Option Text
  pub lease_token : Option Text
  pub lease_expires_at : Option ℕ

-- What an event says; the source writes these as fixed sentences, but for a handler's own.
pub data Message : Type 0 where
  job_queued job_started job_completed job_failed : Message
  lease_expired_retrying lease_expired_failed : Message
  reported : Text → Message

-- `eventModel`
pub record EventRow : Type 0 where
  pub sequence : ℕ
  pub job_id : ℕ
  pub state : State
  pub progress : ℕ
  pub message : Message
  pub occurred_at : ℕ

-- Why an operation of the queue is refused.
pub data JobError : Type 0 where
  database_required poll_interval_not_positive lease_duration_not_positive : JobError
  kind_and_handler_required handler_exists unsupported_kind : JobError
  kind_required policy_invalid encode_failed scope_too_large scope_invalid key_invalid : JobError
  idempotency_conflict storage_failed lease_lost : JobError
  progress_not_forward message_required policy_unavailable access_failed no_rows : JobError

pub data Result {ℓ} (A : Type ℓ) : Type ℓ where
  ok : A → Result A
  err : JobError → Result A

-- An early return of an error where a check fails.
abbrev pub guard : Bool → JobError → Result (Unit {0})
guard false reason = err reason
guard true reason = ok tt

infixl 5 ◌>>=◌ ◌>>◌
-- An error skips what follows it.
abbrev pub ◌>>=◌ {ℓ κ} : {A : Type ℓ} {B : Type κ} → Result A → (A → Result B) → Result B
err reason >>= next = err reason
ok value >>= next = next value

abbrev pub ◌>>◌ {κ} : {B : Type κ} → Result (Unit {0}) → Result B → Result B
check >> rest = check >>= λ _. rest

-- Durations, signed as Go's are.
pub record Config : Type 0 where
  pub poll_interval : ℤ
  pub lease_duration : ℤ
  pub retention_period : ℤ
  pub prune_interval : ℤ

abbrev pub default_lease : ℤ
default_lease = pos 30000000000

abbrev pub default_retention_period : ℤ
default_retention_period = pos 604800000000000

abbrev pub default_prune_interval : ℤ
default_prune_interval = pos 3600000000000

-- The defaults and the checks of `NewWithConfig`.
unfoldable pub normalize_config : Config → Result Config
normalize_config c =
    let lease = if is_zero c.lease_duration then default_lease else c.lease_duration in
    let retention =
      if is_zero c.retention_period then default_retention_period else c.retention_period in
    let interval =
      if is_nonpositive c.prune_interval then default_prune_interval else c.prune_interval in
    if is_nonpositive c.poll_interval
    then err poll_interval_not_positive
    else if is_nonpositive lease
    then err lease_duration_not_positive
    else ok (record c {
      lease_duration = lease;
      retention_period = retention;
      prune_interval = interval;
    })

-- `t.Add(d)`, cut off at the epoch.
unfoldable pub add_duration : ℕ → ℤ → ℕ
add_duration t (pos n) = t + n
add_duration t (negsuc n) = t - suc n

-- `sameActor`, and the equality of two nullable columns.
unfoldable pub same_actor : Option Text → Option Text → Bool
same_actor none none = true
same_actor none (some b) = false
same_actor (some a) none = false
same_actor (some a) (some b) = text_eq a b
