-- ===== src/Jobs/Execution.antt =====
-- The execution of a claimed job: what its handler reports, and how it ends.
use nexa_panel.Prelude.{
  ℕ, suc, ◌≤◌, ◌≡◌, refl, ap, ◌∙◌, true, false, not, ◌&&◌, Option, none, some, Text, arith,
  Bool-cases, inl, inr, ℤ, pos, negsuc, is_empty,
}
use nexa_panel.Jobs.Model.{
  JobRow, Config, Result, ok, err, terminal, add_duration, running, reported as said,
}
use nexa_panel.Jobs.Store.{Db, add_event, find_job, under_token}
use nexa_panel.Jobs.Worker.{
  update_progress, finish_succeeded, finish_failed, succeed_row, fail_row, cut_message,
}
use nexa_panel.Jobs.Execute
use nexa_panel.Jobs.Execute.{
  Queue, Run, Outcome, Execution, AuditAction, report_progress, moves_forward, to_progress,
  after_report, run_handler, recorded, fail_job, succeed_job, record_finish, conclude, execute_with,
  execute, execute_found, execute_leased, execute_unregistered, returned, unencodable, failed_with,
  panicked, canceled,
}
use nexa_panel.Jobs.Invariant.{Inv}
use nexa_panel.Jobs.Leases.{with_lease-held, lease_holder-finishes}
use nexa_panel.Jobs.History.{report_progress-Inv}

-- The job runs under the token, and the worker knows its progress.
pub record Held (id : ℕ) (token : Text) (progress : ℕ) (db : Db) : Type 0 where
  pub inv : Inv db
  pub row : JobRow
  pub found : find_job id db ≡ some row
  pub lease : under_token token row ≡ true
  pub tracked : row.progress ≡ progress

abbrev progressed : Config → ℕ → ℕ → JobRow → JobRow
progressed c now progress j = record j {
  progress = progress;
  updated_at = now;
  lease_expires_at = some (add_duration now c.lease_duration);
}

module _ (c : Config) (id : ℕ) (token : Text) where
  update_progress-Held :
      (now progress next : ℕ) (message : Text) (db : Db)
      → (h : Held id token progress db)
      → ((update_progress c now id token next message db).0 ≡ ok tt)
        × (find_job id (update_progress c now id token next message db).1
            ≡ some (progressed c now next h.row))
  unfolding update_progress
  update_progress-Held now progress next message db h =
      let (e, f) =
        with_lease-held db h.inv id h.row h.found token (progressed c now next)
          (add_event id running next (said message) now)
          (record { same_id = λ j. refl; same_kind = λ j. refl; same_key = λ j. refl }) h.lease in
      (
        ap (λ (r : Result (Unit {0}) × Db). r.0) e,
        ap (λ (r : Result (Unit {0}) × Db). find_job id r.1) e ∙ (unfold find_job add_event in f),
      )

  after_report_ok :
      (old new : ℕ) (r : Result (Unit {0}) × Db)
      → r.0 ≡ ok tt
      → after_report old new r ≡ (none, new, r.1)
  after_report_ok old new (ok u, db) h = refl
  after_report_ok old new (err e, db) h = cc

  report_refused :
      (progress now : ℕ) (next : ℤ) (message : Text) (db : Db)
      → (moves_forward progress next && not (is_empty message)) ≡ false
      → let r = report_progress c id token progress now next message db in
        (r.1 ≡ progress) × (r.2 ≡ db)
  unfolding report_progress
  report_refused progress now next message db h = elim (Bool-cases (moves_forward progress next)) [
    | inl e ↦ let blank : is_empty message ≡ true = ground arith in rw (e, blank) (refl, refl)
    | inr e ↦ rw e (refl, refl)
  ]

  report_accepted :
      (progress now : ℕ) (next : ℤ) (message : Text) (db : Db)
      → moves_forward progress next ≡ true
      → is_empty message ≡ false
      → (update_progress c now id token (to_progress next) message db).0 ≡ ok tt
      → report_progress c id token progress now next message db
        ≡ (none, to_progress next, (update_progress c now id token (to_progress next) message db).1)
  unfolding report_progress
  report_accepted progress now next message db e m u =
      rw (e, m) (after_report_ok progress (to_progress next) _ u)

  forward-le :
      (progress : ℕ) (next : ℤ) → moves_forward progress next ≡ true → progress ≤ to_progress next
  unfolding moves_forward
  forward-le progress (pos n) h = ground arith
  forward-le progress (negsuc n) h = cc

  report_progress-Held :
      (progress now : ℕ) (next : ℤ) (message : Text) (db : Db)
      → Held id token progress db
      → let r = report_progress c id token progress now next message db in
        Held id token r.1 r.2 × (progress ≤ r.1)
  report_progress-Held progress now next message db h =
      elim (Bool-cases (moves_forward progress next && not (is_empty message))) [
        | inr no_write ↦
            let (same, unchanged) = report_refused progress now next message db no_write in
            rw (same, unchanged) (h, omega arith)
        | inl write ↦
            let forward : moves_forward progress next ≡ true = ground arith in
            let (u, f) = update_progress-Held now progress (to_progress next) message db h in
            let e = report_accepted progress now next message db forward (ground arith) u in
            (
              record {
                inv = report_progress-Inv c id token progress now next message db h.inv;
                row = progressed c now (to_progress next) h.row;
                found = rw e f;
                lease = h.lease;
                tracked = rw e refl;
              },
              rw e (forward-le progress next forward),
            )
      ]

  -- While a handler runs, its worker keeps the job: every report leaves the row running under the same
  -- token, the row holds exactly the progress that was last accepted, and this never falls.
  pub run_handler-Held :
      (run : Run) (progress : ℕ) (db : Db)
      → Held id token progress db
      → let r = run_handler c id token run progress db in Held id token r.1 r.2 × (progress ≤ r.1)
  unfolding run_handler
  run_handler-Held (Execute.finish outcome) progress db h = (h, omega arith)
  run_handler-Held (Execute.report now next message continue) progress db h =
      let r = report_progress c id token progress now next message db in
      let (h', le) = report_progress-Held progress now next message db h in
      let (h'', le') = run_handler-Held (continue r.0) r.1 r.2 h' in (h'', omega arith)

-- The job of this id has ended, and the queue has said so.
pub record IsEnded (id : ℕ) (r : Queue × Execution) : Type 0 where
  pub told : r.1 ≡ recorded
  pub row : JobRow
  pub stored : find_job id r.0.db ≡ some row
  pub ended : terminal row.state ≡ true

record_finish_ok :
    (action : AuditAction) (model : JobRow) (failure : Option Text) (m : Queue)
    (r : Result (Unit {0}) × Db)
    → r.0 ≡ ok tt
    → ((record_finish action model failure m r).1 ≡ recorded)
      × ((record_finish action model failure m r).0.db ≡ r.1)
unfolding record_finish
record_finish_ok action model failure m (ok u, db) h = (refl, refl)
record_finish_ok action model failure m (err e, db) h = cc

module _ (now : ℕ) (model : JobRow) (token : Text) (m : Queue) (progress : ℕ)
    (h : Held model.id token progress m.db) where
  fail_job-ends : (sent : ℕ) (e : Text) → IsEnded model.id (fail_job now model token sent e m)
  unfolding fail_job
  fail_job-ends sent e =
      let (s, s', f, f') =
        lease_holder-finishes m.db now model.id token h.row h.inv h.found h.lease sent e in
      let (told, db_same) =
        record_finish_ok Execute.job_failed model (some (cut_message e)) m
          (finish_failed now model.id token sent e m.db) f in
      record {
        told = told;
        row = fail_row now (cut_message e) h.row;
        stored = rw db_same f';
        ended = unfold fail_row terminal in refl;
      }

  succeed_job-ends :
      (result_json : Text) → IsEnded model.id (succeed_job now model token result_json m)
  unfolding succeed_job
  succeed_job-ends result_json =
      let (s, s', f, f') =
        lease_holder-finishes m.db now model.id token h.row h.inv h.found h.lease 0 result_json in
      let (told, db_same) =
        record_finish_ok Execute.job_succeeded model none m
          (finish_succeeded now model.id token result_json m.db) s in
      record {
        told = told;
        row = succeed_row now result_json h.row;
        stored = rw db_same s';
        ended = unfold succeed_row terminal in refl;
      }

conclude-ends :
    (now : ℕ) (model : JobRow) (token : Text) (m : Queue) (progress : ℕ) (outcome : Outcome)
    → Held model.id token progress m.db
    → IsEnded model.id (conclude false now model token outcome progress m)
unfolding conclude
conclude-ends now model token m progress (returned r) h =
    succeed_job-ends now model token m progress h r
conclude-ends now model token m progress (unencodable e) h =
    fail_job-ends now model token m progress h progress _
conclude-ends now model token m progress (failed_with e) h =
    fail_job-ends now model token m progress h progress e
conclude-ends now model token m progress (panicked e) h =
    fail_job-ends now model token (record m { panics = suc m.panics }) progress h progress _
conclude-ends now model token m progress (canceled e) h =
    fail_job-ends now model token m progress h progress e

execute_found-ends :
    (handler : Option (Text → Run)) (now : ℕ) (model : JobRow) (token : Text) (m : Queue)
    → model.lease_token ≡ some token
    → Held model.id token model.progress m.db
    → IsEnded model.id (execute_found false false now model handler m)
unfolding execute_found execute_leased execute_unregistered execute_with conclude
execute_found-ends none now model token m e h =
    rw e (fail_job-ends now model token m model.progress h model.progress _)
execute_found-ends (some handler) now model token m e h =
    let (held, le) =
      run_handler-Held m.config model.id token (handler model.request_json) model.progress m.db h in
    rw e (conclude-ends now model token _ _ _ held)

-- A worker that holds the lease of the job it claimed, keeps it, and is not shutting down, always
-- ends the job: whatever the handler reports and however it ends, by a result, an error, a panic, a
-- result that cannot be encoded, or because there is no handler, the row is then succeeded or failed.
pub execute-ends :
    (now : ℕ) (model : JobRow) (token : Text) (m : Queue)
    → model.lease_token ≡ some token
    → Held model.id token model.progress m.db
    → IsEnded model.id (execute false false now model m)
unfolding execute
execute-ends now model token m e h = execute_found-ends _ now model token m e h
