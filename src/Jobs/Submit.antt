-- ===== src/Jobs/Submit.antt =====
-- Queueing a job (internal/platform/jobs/repository.go). The JSON encoding of a request is done by
-- the caller of these definitions: `none` says that it failed.
use nexa_panel.Prelude.{
  ℕ, suc, Bool, true, false, not, ◌&&◌, Option, none, some, List, [], ◌∷◌, ◌++◌, Text, text_eq,
  trim_space, is_empty, first, if◌then◌else◌,
}
use nexa_panel.Jobs.Model.{
  JobRow, RecoveryPolicy, Result, ok, err, ◌>>=◌, ◌>>◌, guard, JobError, valid, same_actor, queued,
  job_queued, kind_required, policy_invalid, encode_failed, idempotency_conflict, storage_failed,
}
use nexa_panel.Jobs.Store.{Db, has_key, add_event}
use nexa_panel.Jobs.Scope.{normalize_site_ids, normalize_idempotency_key}

pub record SubmitOptions : Type 0 where
  pub actor_user_id : Option Text
  pub site_ids : List Text
  pub idempotency_key : Text

-- The equality of two lists of site ids, which the source tests on their encodings.
unfoldable pub same_ids : List Text → List Text → Bool
same_ids [] [] = true
same_ids (x ∷ xs) (y ∷ ys) = text_eq x y && same_ids xs ys
same_ids _ _ = false

-- The row that a submission is about to insert; its key is handed out by the table.
unfoldable pub new_row :
    ℕ → Text → Text → Text → List Text → Option Text → Option Text → RecoveryPolicy → ℕ → JobRow
new_row now kind title encoded site_ids key actor policy id = record {
  id = id;
  kind = kind;
  title = trim_space title;
  state = queued;
  progress = 0;
  actor_user_id = actor;
  request_json = encoded;
  result_json = none;
  failure = none;
  created_at = now;
  updated_at = now;
  started_at = none;
  completed_at = none;
  recovery_policy = policy;
  idempotency_key = key;
  scope_site_ids = site_ids;
  attempt = 0;
  lease_owner = none;
  lease_token = none;
  lease_expires_at = none;
}

-- Whether a row under the same key stands for the same submission.
unfoldable pub same_submission : JobRow → JobRow → Bool
unfolding same_ids
same_submission existing model =
    text_eq existing.request_json model.request_json
    && (same_ids existing.scope_site_ids model.scope_site_ids
        && same_actor existing.actor_user_id model.actor_user_id)

unfoldable pub reuse : JobRow → JobRow → Result (JobRow × Bool)
unfolding same_submission
reuse existing model =
    if same_submission existing model then ok (existing, false) else err idempotency_conflict

-- `tx.NewInsert().Model(model)` and the event of the new row.
unfoldable pub insert_job : JobRow → Db → Db
insert_job model db =
    add_event model.id queued 0 job_queued model.created_at
      (record db { jobs = db.jobs ++ model ∷ []; next_job = suc db.next_job })

unfoldable pub existing_row : Text → Option Text → Db → Option JobRow
existing_row kind none db = none
existing_row kind (some key) db = first (has_key kind key) db.jobs

unfoldable pub insert_unless : Option JobRow → JobRow → Db → Result (JobRow × Bool) × Db
insert_unless (some existing) model db = (reuse existing model, db)
insert_unless none model db = (ok (model, true), insert_job model db)

-- The transaction. `committed` is false where the storage refuses it, as when another submitter took
-- the key first; then nothing is written.
unfoldable pub submission_tx : Bool → JobRow → Db → Result (JobRow × Bool) × Db
unfolding insert_unless
submission_tx false model db = (err storage_failed, db)
submission_tx true model db =
    insert_unless (existing_row model.kind model.idempotency_key db) model db

unfoldable pub reuse_found : Option JobRow → JobRow → JobError → Result (JobRow × Bool)
reuse_found (some existing) model e = reuse existing model
reuse_found none model e = err e

-- After a failed transaction the key is looked up once more, in the database as it is then.
unfoldable pub resolve : JobRow → Db → Result (JobRow × Bool) × Db → Result (JobRow × Bool) × Db
unfolding reuse_found
resolve model later (ok done, db) = (ok done, db)
resolve model later (err e, db) =
    (reuse_found (existing_row model.kind model.idempotency_key later) model e, later)

-- The checks of `persistSubmission`, up to the row that it would insert.
unfoldable pub prepare_submission :
    ℕ → Text → Text → Option Text → SubmitOptions → RecoveryPolicy → ℕ → Result JobRow
prepare_submission now raw title encoded options policy id = do
  let kind = trim_space raw
  guard (not (is_empty kind)) kind_required
  guard (valid policy) policy_invalid
  request ← elim encoded [ none ↦ err encode_failed | some e ↦ ok e ]
  site_ids ← normalize_site_ids options.site_ids
  key ← normalize_idempotency_key options.idempotency_key
  ok (new_row now kind title request site_ids key options.actor_user_id policy id)

unfoldable pub persist_prepared : Bool → Db → Db → Result JobRow → Result (JobRow × Bool) × Db
persist_prepared committed db later (err e) = (err e, db)
persist_prepared committed db later (ok model) =
    resolve model later (submission_tx committed model db)

-- `persistSubmission`: `db` is read and written by the transaction, `later` is the database after it
-- where it failed.
unfoldable pub persist_submission :
    Bool
    → Db
    → Db
    → ℕ
    → Text
    → Text
    → Option Text
    → SubmitOptions
    → RecoveryPolicy
    → Result (JobRow × Bool) × Db
unfolding persist_prepared
persist_submission committed db later now kind title encoded options policy =
    persist_prepared committed db later
      (prepare_submission now kind title encoded options policy db.next_job)

abbrev pub job_of : Result (JobRow × Bool) → Result JobRow
job_of (ok (job, created)) = ok job
job_of (err e) = err e

-- `EnqueueTitled`: for a process that has no handlers.
unfoldable pub enqueue_titled :
    Bool
    → Db
    → Db
    → ℕ
    → Text
    → Text
    → Option Text
    → SubmitOptions
    → RecoveryPolicy
    → Result JobRow × Db
enqueue_titled committed db later now kind title encoded options policy =
    if valid policy
    then (let (result, db') =
          persist_submission committed db later now kind title encoded options policy in
        (job_of result, db'))
    else (err policy_invalid, db)
