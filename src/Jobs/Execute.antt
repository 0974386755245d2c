-- ===== src/Jobs/Execute.antt =====
-- The queue as a whole (internal/platform/jobs/jobs.go, repository.go and worker.go): its handlers,
-- its wake-up signal, its audit trail, and the execution of one claimed job.
use nexa_panel.Prelude.{
  ℕ, suc, ◌+◌, Bool, true, false, not, ◌||◌, Option, none, some, List, [], ◌∷◌, ◌++◌, Text, Bytes,
  codes, ltb, first, ℤ, pos, negsuc, if◌then◌else◌, text_eq, trim_space, is_empty,
}
use nexa_panel.Jobs.Model.{
  JobRow, RecoveryPolicy, Config, Result, ok, err, JobError, valid, kind_and_handler_required,
  policy_invalid, handler_exists, unsupported_kind, progress_not_forward, message_required,
}
use nexa_panel.Jobs.Store.{Db}
use nexa_panel.Jobs.Submit.{SubmitOptions, persist_submission}
use nexa_panel.Jobs.Worker.{update_progress, finish_succeeded, finish_failed, cut_message}

-- How a handler ends. `returned` carries the JSON of its result, `unencodable` the encoder's error.
pub data Outcome : Type 0 where
  returned : Text → Outcome
  unencodable failed_with panicked canceled : Bytes → Outcome

-- A handler is seen through its reports: each is made at a time, and is told whether it was refused.
pub data Run : Type 0 where
  finish : Outcome → Run
  report : ℕ → ℤ → Text → (Option JobError → Run) → Run

pub record Registration : Type 0 where
  pub kind : Text
  pub handler : Option (Text → Run)
  pub recovery_policy : RecoveryPolicy

pub data AuditAction : Type 0 where
  job_submitted job_succeeded job_failed : AuditAction

pub record AuditEntry : Type 0 where
  pub action : AuditAction
  pub job_id : ℕ
  pub actor_user_id : Option Text
  pub kind : Text
  pub failure : Option Bytes

-- `Module`. The channel `notify` holds one signal at most.
pub record Queue : Type 0 where
  pub db : Db
  pub config : Config
  pub worker_id : Text
  pub handlers : List Registration
  pub notify : Bool
  pub audit : List AuditEntry
  pub panics : ℕ

unfoldable pub lookup_handler : Text → List Registration → Option Registration
lookup_handler kind handlers = first (λ (r : Registration). text_eq r.kind kind) handlers

abbrev has_handler : Option (Text → Run) → Bool
has_handler none = false
has_handler (some h) = true

abbrev is_registered : Option Registration → Bool
is_registered none = false
is_registered (some r) = true

-- `RegisterHandlerWithOptions`
unfoldable pub register_handler :
    Text → Option (Text → Run) → RecoveryPolicy → Queue → Result (Unit {0}) × Queue
register_handler kind handler policy m =
    if is_empty (trim_space kind) || not (has_handler handler)
    then (err kind_and_handler_required, m)
    else if not (valid policy)
    then (err policy_invalid, m)
    else if is_registered (lookup_handler kind m.handlers)
    then (err handler_exists, m)
    else (
      ok tt,
      record m {
        handlers =
            m.handlers ++ record { kind = kind; handler = handler; recovery_policy = policy } ∷ [];
      },
    )

-- `wake`
unfoldable pub wake : Queue → Queue
wake m = record m { notify = true }

-- `recordAudit`
unfoldable pub record_audit : AuditAction → ℕ → Option Text → Text → Option Text → Queue → Queue
record_audit action job_id actor kind failure m = record m {
  audit =
      m.audit
      ++ record {
        action = action;
        job_id = job_id;
        actor_user_id = actor;
        kind = kind;
        failure = failure;
      }
        ∷ [];
}

-- What follows a submission: a row that was there already is no news.
unfoldable pub announce :
    Text → Option Text → Queue → Result (JobRow × Bool) × Db → Result JobRow × Queue
unfolding wake record_audit
announce kind actor m (err e, db) = (err e, record m { db = db })
announce kind actor m (ok (job, false), db) = (ok job, record m { db = db })
announce kind actor m (ok (job, true), db) =
    (ok job, record_audit job_submitted job.id actor kind none (wake (record m { db = db })))

unfoldable pub submit_registered :
    Option Registration
    → Bool
    → Db
    → ℕ
    → Text
    → Text
    → Option Text
    → SubmitOptions
    → Queue
    → Result JobRow × Queue
unfolding announce
submit_registered none committed later now kind title encoded options m = (err unsupported_kind, m)
submit_registered (some registration) committed later now kind title encoded options m =
    announce kind options.actor_user_id m (
      persist_submission committed m.db later now kind title encoded options
        registration.recovery_policy)

-- `SubmitTitledWithOptions`
unfoldable pub submit_titled_with_options :
    Bool → Db → ℕ → Text → Text → Option Text → SubmitOptions → Queue → Result JobRow × Queue
unfolding submit_registered
submit_titled_with_options committed later now kind title encoded options m =
    submit_registered (lookup_handler kind m.handlers) committed later now kind title encoded
      options m

-- The guard of `report` on the new progress.
unfoldable pub moves_forward : ℕ → ℤ → Bool
moves_forward progress (pos next) = not (ltb next progress || ltb 99 next)
moves_forward progress (negsuc n) = false

abbrev pub to_progress : ℤ → ℕ
to_progress (pos n) = n
to_progress (negsuc n) = 0

abbrev pub after_report : ℕ → ℕ → Result (Unit {0}) × Db → Option JobError × ℕ × Db
after_report old new (ok u, db) = (none, new, db)
after_report old new (err e, db) = (some e, old, db)

-- One call of `report`: whether it was refused, the progress after it, and the database.
unfoldable pub report_progress :
    Config → ℕ → Text → ℕ → ℕ → ℤ → Text → Db → Option JobError × ℕ × Db
report_progress c id token progress now next message db =
    if not (moves_forward progress next)
    then (some progress_not_forward, progress, db)
    else if is_empty message
    then (some message_required, progress, db)
    else after_report progress (to_progress next)
        (update_progress c now id token (to_progress next) message db)

-- The handler runs to its end; the last progress that was accepted is kept.
unfoldable pub run_handler : Config → ℕ → Text → Run → ℕ → Db → Outcome × ℕ × Db
run_handler c id token (finish outcome) progress db = (outcome, progress, db)
run_handler c id token (report now next message continue) progress db =
    let (refused, progress', db') = report_progress c id token progress now next message db in
    run_handler c id token (continue refused) progress' db'

-- What became of an execution. `crashed` is the dereference of a token that is not there.
pub data Execution : Type 0 where
  recorded refused lease_was_lost left_running token_missing crashed : Execution

-- The audit entry of a finished job is written if the transaction went through.
unfoldable pub record_finish :
    AuditAction → JobRow → Option Text → Queue → Result (Unit {0}) × Db → Queue × Execution
unfolding record_audit
record_finish action model failure m (err e, db) = (record m { db = db }, refused)
record_finish action model failure m (ok u, db) = (
  record_audit action model.id model.actor_user_id model.kind failure (record m { db = db }),
  recorded,
)

-- `finishFailed`
unfoldable pub fail_job : ℕ → JobRow → Text → ℕ → Text → Queue → Queue × Execution
unfolding record_finish
fail_job now model token progress failure m =
    record_finish job_failed model (some (cut_message failure)) m
      (finish_failed now model.id token progress failure m.db)

-- `finishSucceeded`
unfoldable pub succeed_job : ℕ → JobRow → Text → Text → Queue → Queue × Execution
unfolding record_finish
succeed_job now model token result_json m =
    record_finish job_succeeded model none m (finish_succeeded now model.id token result_json m.db)

-- The end of `execute`, by the outcome of the handler. `stopping` says that the worker shuts down.
unfoldable pub conclude : Bool → ℕ → JobRow → Text → Outcome → ℕ → Queue → Queue × Execution
unfolding fail_job succeed_job
conclude stopping now model token (returned result_json) progress m =
    succeed_job now model token result_json m
conclude stopping now model token (unencodable e) progress m =
    fail_job now model token progress (codes "encode job result: " ++ e) m
conclude stopping now model token (failed_with e) progress m = fail_job now model token progress e m
conclude stopping now model token (panicked e) progress m =
    fail_job now model token progress (codes "job handler panicked: " ++ e)
      (record m { panics = suc m.panics })
conclude true now model token (canceled e) progress m = (m, left_running)
conclude false now model token (canceled e) progress m = fail_job now model token progress e m

abbrev panic_count : Outcome → ℕ
panic_count (panicked e) = 1
panic_count _ = 0

-- `execute` once the handler is known. A lease that the heartbeat lost ends the execution with
-- nothing written, whatever the handler returned.
unfoldable pub execute_with :
    Bool → Bool → ℕ → JobRow → (Text → Run) → Text → Queue → Queue × Execution
execute_with lost stopping now model handler token m =
    let (outcome, progress, db') =
      run_handler m.config model.id token (handler model.request_json) model.progress m.db in
    if lost
    then (record m { db = db'; panics = m.panics + panic_count outcome }, lease_was_lost)
    else conclude stopping now model token outcome progress (record m { db = db' })

-- No handler: the job is failed under its token.
unfoldable pub execute_unregistered : ℕ → JobRow → Option Text → Queue → Queue × Execution
unfolding fail_job
execute_unregistered now model none m = (m, crashed)
execute_unregistered now model (some token) m =
    fail_job now model token model.progress (codes "registered job handler is unavailable") m

unfoldable pub execute_leased :
    Bool → Bool → ℕ → JobRow → (Text → Run) → Option Text → Queue → Queue × Execution
unfolding execute_with
execute_leased lost stopping now model handler none m = (m, token_missing)
execute_leased lost stopping now model handler (some token) m =
    execute_with lost stopping now model handler token m

abbrev pub handler_of : Option Registration → Option (Text → Run)
handler_of none = none
handler_of (some r) = r.handler

unfoldable pub execute_found :
    Bool → Bool → ℕ → JobRow → Option (Text → Run) → Queue → Queue × Execution
unfolding execute_unregistered execute_leased
execute_found lost stopping now model none m = execute_unregistered now model model.lease_token m
execute_found lost stopping now model (some handler) m =
    execute_leased lost stopping now model handler model.lease_token m

unfoldable pub execute : Bool → Bool → ℕ → JobRow → Queue → Queue × Execution
unfolding execute_found
execute lost stopping now model m =
    execute_found lost stopping now model (handler_of (lookup_handler model.kind m.handlers)) m
