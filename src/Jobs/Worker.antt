-- ===== src/Jobs/Worker.antt =====
-- What the worker writes (internal/platform/jobs/worker.go): claiming, progress, the heartbeat, the
-- two ends of a job, the recovery of expired leases and the pruning of finished jobs.
use nexa_panel.Prelude.{
  ℕ, suc, ◌+◌, ◌-◌, Bool, true, false, not, ◌&&◌, Option, none, some, List, [], ◌∷◌, Text, Bytes,
  ltb, leb, ◌==◌, first, any, select, take, ℤ, is_nonpositive, pos, negsuc, if◌then◌else◌,
}
use nexa_panel.Jobs.Model.{
  JobRow, EventRow, RecoveryPolicy, Config, Result, ok, err, queued, running, succeeded, failed,
  terminal, is_queued, is_running, add_duration, recovery_retry, job_started, job_completed,
  job_failed, lease_expired_retrying, lease_expired_failed, reported, lease_lost,
}
use nexa_panel.Jobs.Store.{Db, add_event, update_jobs, has_id, holds_lease}

-- The row that `claim` writes, with a fresh token.
unfoldable pub lease_to : Config → Text → ℕ → Text → JobRow → JobRow
lease_to c worker_id now token j = record j {
  state = running;
  started_at = some now;
  updated_at = now;
  attempt = suc j.attempt;
  lease_owner = some worker_id;
  lease_token = some token;
  lease_expires_at = some (add_duration now c.lease_duration);
}

abbrev pub claimable : ℕ → JobRow → Bool
claimable id j = has_id id j && is_queued j.state

unfoldable pub claim_row : Option JobRow → Config → Text → ℕ → Text → Db → Option (JobRow × Db)
claim_row none c worker_id now token db = none
claim_row (some j) c worker_id now token db =
    let model = lease_to c worker_id now token j in
    let (changed, db') = update_jobs (claimable j.id) (lease_to c worker_id now token) db in
    if changed == 1
    then some (model, add_event j.id running j.progress job_started now db')
    else none

-- `claim`: the oldest queued job. `none` is `sql.ErrNoRows`.
unfoldable pub claim : Config → Text → ℕ → Text → Db → Option (JobRow × Db)
unfolding claim_row
claim c worker_id now token db =
    claim_row (first (λ j. is_queued j.state) db.jobs) c worker_id now token db

-- A write under a lease: refused, and rolled back, unless it changes the one row that it names.
unfoldable pub with_lease : ℕ → Text → (JobRow → JobRow) → (Db → Db) → Db → Result (Unit {0}) × Db
with_lease id token f after db =
    let (changed, db') = update_jobs (holds_lease id token) f db in
    if changed == 1 then (ok tt, after db') else (err lease_lost, db)

unfoldable pub update_progress : Config → ℕ → ℕ → Text → ℕ → Text → Db → Result (Unit {0}) × Db
update_progress c now id token progress message =
    with_lease id token
      (λ j. record j {
        progress = progress;
        updated_at = now;
        lease_expires_at = some (add_duration now c.lease_duration);
      })
      (add_event id running progress (reported message) now)

-- One tick of `heartbeatLease`.
unfoldable pub heartbeat : Config → ℕ → ℕ → Text → Db → Result (Unit {0}) × Db
heartbeat c now id token =
    with_lease id token
      (λ j. record j {
        updated_at = now;
        lease_expires_at = some (add_duration now c.lease_duration);
      })
      (λ db. db)

-- The three columns that every end of a lease clears.
unfoldable pub release : JobRow → JobRow
release j = record j { lease_owner = none; lease_token = none; lease_expires_at = none }

unfoldable pub succeed_row : ℕ → Text → JobRow → JobRow
unfolding release
succeed_row now result_json j = release (record j {
  state = succeeded;
  progress = 100;
  result_json = some result_json;
  updated_at = now;
  completed_at = some now;
})

unfoldable pub fail_row : ℕ → Bytes → JobRow → JobRow
unfolding release
fail_row now failure j =
    release (record j {
      state = failed;
      failure = some failure;
      updated_at = now;
      completed_at = some now;
    })

unfoldable pub requeue_row : ℕ → JobRow → JobRow
unfolding release
requeue_row now j =
    release (record j { state = queued; progress = 0; updated_at = now; started_at = none })

-- The transaction of `finishSucceeded`.
unfoldable pub finish_succeeded : ℕ → ℕ → Text → Text → Db → Result (Unit {0}) × Db
finish_succeeded now id token result_json =
    with_lease id token (succeed_row now result_json) (add_event id succeeded 100 job_completed now)

-- `message[:500]` cuts the bytes of the message, so a failure message is a list of bytes.
unfoldable pub cut_message : Bytes → Bytes
cut_message = take 500

-- The transaction of `finishFailed`; `progress` is the progress of the worker's own copy of the row.
unfoldable pub finish_failed : ℕ → ℕ → Text → ℕ → Bytes → Db → Result (Unit {0}) × Db
finish_failed now id token progress failure =
    with_lease id token (fail_row now (cut_message failure))
      (add_event id failed progress job_failed now)

unfoldable pub lease_expired : ℕ → Option ℕ → Bool
lease_expired now none = true
lease_expired now (some t) = leb t now

-- `state = 'running' AND (lease_expires_at IS NULL OR lease_expires_at <= now)`
unfoldable pub interrupted : ℕ → JobRow → Bool
unfolding lease_expired
interrupted now j = is_running j.state && lease_expired now j.lease_expires_at

abbrev pub is_retry : RecoveryPolicy → Bool
is_retry recovery_retry = true
is_retry _ = false

-- The transaction for one interrupted job. Nothing is written where the row has moved on.
unfoldable pub recover_one : ℕ → Bytes → JobRow → Db → Db
recover_one now failure job db =
    let p = λ (j : JobRow). has_id job.id j && interrupted now j in
    if is_retry job.recovery_policy
    then (let (changed, db') = update_jobs p (requeue_row now) db in
        if changed == 1 then add_event job.id queued 0 lease_expired_retrying now db' else db')
    else (let (changed, db') = update_jobs p (fail_row now failure) db in
        if changed == 1
        then add_event job.id failed job.progress lease_expired_failed now db'
        else db')

unfoldable pub recover_all : ℕ → Bytes → List JobRow → Db → Db
recover_all now failure [] db = db
recover_all now failure (j ∷ js) db = recover_all now failure js (recover_one now failure j db)

-- `recoverExpired`; `failure` is the fixed sentence that an interrupted job is failed with.
unfoldable pub recover_expired : ℕ → Bytes → Db → Db
recover_expired now failure db = recover_all now failure (select (interrupted now) db.jobs) db

unfoldable pub completed_before : ℕ → Option ℕ → Bool
completed_before cutoff none = false
completed_before cutoff (some t) = ltb t cutoff

-- `state IN ('succeeded', 'failed') AND completed_at IS NOT NULL AND completed_at < cutoff`
unfoldable pub retired : ℕ → JobRow → Bool
unfolding completed_before
retired cutoff j = terminal j.state && completed_before cutoff j.completed_at

-- `job_id IN (SELECT id FROM jobs WHERE …)`
unfoldable pub event_retired : ℕ → List JobRow → EventRow → Bool
event_retired cutoff jobs e = any (λ j. has_id e.job_id j && retired cutoff j) jobs

unfoldable pub retention_cutoff : ℕ → ℤ → ℕ
retention_cutoff now (pos n) = now - n
retention_cutoff now (negsuc n) = now + suc n

-- `pruneRetired`
unfoldable pub prune_retired : Config → ℕ → Db → Db
prune_retired c now db =
    let cutoff = retention_cutoff now c.retention_period in
    if is_nonpositive c.retention_period then db else record db {
      events = select (λ e. not (event_retired cutoff db.jobs e)) db.events;
      jobs = select (λ j. not (retired cutoff j)) db.jobs;
    }
