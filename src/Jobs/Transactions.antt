-- ===== src/Jobs/Transactions.antt =====
-- What the worker writes keeps the invariant of the tables.
use nexa_panel.Prelude.{
  ℕ, ◌≤◌, ◌≡◌, refl, Bool, true, not, Option, none, some, List, [], ◌∷◌, Text, arith, All-select,
  any, Bool-cases, inl, inr, ◌==◌, Ascending-select, any-select-not, All-select_imp, subst, if_some,
  count_where-select_le, if◌then◌else◌, is_nonpositive,
}
use nexa_panel.Jobs.Model.{
  State, queued, running, succeeded, failed, JobRow, EventRow, Message, terminal, is_running,
  Config, add_duration,
}
use nexa_panel.Jobs.Store.{Db, add_event, update_jobs, has_id, has_key, holds_lease}
use nexa_panel.Jobs.Worker.{
  lease_to, claimable, claim_row, claim, update_progress, heartbeat, succeed_row, fail_row,
  requeue_row, finish_succeeded, finish_failed, recover_one, recover_all, recover_expired,
  interrupted, prune_retired, retired, event_retired, retention_cutoff, is_retry, cut_message,
}
use nexa_panel.Jobs.Invariant.{
  Inv, IsWell, KeepsKeys, update_jobs-Inv, add_event-Inv, any_id-update, with_lease-Inv,
}

module _ (c : Config) (now : ℕ) where
  claimed-IsWell :
      (worker_id token : Text) (id : ℕ) (j : JobRow)
      → claimable id j ≡ true
      → IsWell j
      → IsWell (lease_to c worker_id now token j)
  unfolding lease_to terminal
  claimed-IsWell worker_id token id j h w = ground arith

  progress-IsWell :
      (id : ℕ) (token : Text) (progress : ℕ) (j : JobRow)
      → progress ≤ 99
      → holds_lease id token j ≡ true
      → IsWell j
      → IsWell (record j {
        progress = progress;
        updated_at = now;
        lease_expires_at = some (add_duration now c.lease_duration);
      })
  unfolding holds_lease
  progress-IsWell id token progress j le h w = ground arith

  heartbeat-IsWell :
      (id : ℕ) (token : Text) (j : JobRow)
      → holds_lease id token j ≡ true
      → IsWell j
      → IsWell (record j {
        updated_at = now;
        lease_expires_at = some (add_duration now c.lease_duration);
      })
  unfolding holds_lease
  heartbeat-IsWell id token j h w = ground arith

succeeded-IsWell :
    (now : ℕ) (result_json : Text) (j : JobRow)
    → is_running j.state ≡ true
    → IsWell j
    → IsWell (succeed_row now result_json j)
unfolding succeed_row terminal
succeeded-IsWell now result_json j h w = ground arith

failed-IsWell :
    (now : ℕ) (failure : Text) (j : JobRow)
    → is_running j.state ≡ true
    → IsWell j
    → IsWell (fail_row now failure j)
unfolding fail_row terminal
failed-IsWell now failure j h w = ground arith

requeued-IsWell :
    (now : ℕ) (j : JobRow) → is_running j.state ≡ true → IsWell j → IsWell (requeue_row now j)
unfolding requeue_row terminal
requeued-IsWell now j h w = ground arith

holds_lease_running :
    (id : ℕ) (token : Text) (j : JobRow) → holds_lease id token j ≡ true → is_running j.state ≡ true
unfolding holds_lease
holds_lease_running id token j h = ground arith

interrupted_running : (now : ℕ) (j : JobRow) → interrupted now j ≡ true → is_running j.state ≡ true
unfolding interrupted
interrupted_running now j h = ground arith

pub lease_to-KeepsKeys :
    (c : Config) (w : Text) (now : ℕ) (t : Text) → KeepsKeys (lease_to c w now t)
unfolding lease_to
lease_to-KeepsKeys c w now t = record {
  same_id = λ j. refl;
  same_kind = λ j. refl;
  same_key = λ j. refl;
}

pub succeed_row-KeepsKeys : (now : ℕ) (r : Text) → KeepsKeys (succeed_row now r)
unfolding succeed_row
succeed_row-KeepsKeys now r = record {
  same_id = λ j. refl;
  same_kind = λ j. refl;
  same_key = λ j. refl;
}

pub fail_row-KeepsKeys : (now : ℕ) (e : Text) → KeepsKeys (fail_row now e)
unfolding fail_row
fail_row-KeepsKeys now e = record {
  same_id = λ j. refl;
  same_kind = λ j. refl;
  same_key = λ j. refl;
}

pub requeue_row-KeepsKeys : (now : ℕ) → KeepsKeys (requeue_row now)
unfolding requeue_row
requeue_row-KeepsKeys now = record {
  same_id = λ j. refl;
  same_kind = λ j. refl;
  same_key = λ j. refl;
}

claim_row-Inv :
    (o : Option JobRow) (c : Config) (w : Text) (now : ℕ) (t : Text) (db : Db) {r : JobRow × Db}
    → claim_row o c w now t db ≡ some r
    → Inv db
    → Inv r.1
unfolding claim_row
claim_row-Inv none c w now t db h v = cc
claim_row-Inv (some j) c w now t db {r} h v =
    let (one, same) = if_some _ _ r h in
    subst (λ (x : JobRow × Db). Inv x.1) same
      (add_event-Inv j.id running j.progress _ now _
        (any_id-update j.id (claimable j.id) (lease_to c w now t) db (lease_to-KeepsKeys c w now t)
          (λ i g. ground arith) (ground arith))
        (update_jobs-Inv (claimable j.id) (lease_to c w now t) (lease_to-KeepsKeys c w now t)
          (claimed-IsWell c now w t j.id) db v))

-- Claiming keeps the invariant.
pub claim-Inv :
    (c : Config) (w : Text) (now : ℕ) (t : Text) (db : Db) {r : JobRow × Db}
    → claim c w now t db ≡ some r
    → Inv db
    → Inv r.1
unfolding claim
claim-Inv c w now t db h v = claim_row-Inv _ c w now t db h v

module _ (c : Config) (now id : ℕ) (token : Text) (db : Db) (v : Inv db) where
  pub update_progress-Inv :
      (progress : ℕ) (message : Text)
      → progress ≤ 99
      → Inv (update_progress c now id token progress message db).1
  unfolding update_progress
  update_progress-Inv progress message le =
      with_lease-Inv id token _ _ db
        (record { same_id = λ j. refl; same_kind = λ j. refl; same_key = λ j. refl })
        (λ j. progress-IsWell c now id token progress j le)
        (λ d. add_event-Inv id running progress _ now d) v

  pub heartbeat-Inv : Inv (heartbeat c now id token db).1
  unfolding heartbeat
  heartbeat-Inv =
      with_lease-Inv id token _ _ db
        (record { same_id = λ j. refl; same_kind = λ j. refl; same_key = λ j. refl })
        (λ j. heartbeat-IsWell c now id token j) (λ d h w. w) v

module _ (now id : ℕ) (token : Text) (db : Db) (v : Inv db) where
  pub finish_succeeded-Inv :
      (result_json : Text) → Inv (finish_succeeded now id token result_json db).1
  unfolding finish_succeeded
  finish_succeeded-Inv result_json =
      with_lease-Inv id token _ _ db (succeed_row-KeepsKeys now result_json)
        (λ j h. succeeded-IsWell now result_json j (holds_lease_running id token j h))
        (λ d. add_event-Inv id succeeded 100 _ now d) v

  pub finish_failed-Inv :
      (progress : ℕ) (failure : Text) → Inv (finish_failed now id token progress failure db).1
  unfolding finish_failed
  finish_failed-Inv progress failure =
      with_lease-Inv id token _ _ db (fail_row-KeepsKeys now (cut_message failure))
        (λ j h. failed-IsWell now (cut_message failure) j (holds_lease_running id token j h))
        (λ d. add_event-Inv id failed progress _ now d) v

-- A recovery that changed a row writes an event; one that changed none writes nothing.
recovered-Inv :
    (p : JobRow → Bool) (f : JobRow → JobRow) (id : ℕ) (s : State) (n : ℕ) (m : Message) (now : ℕ)
    (db : Db)
    → KeepsKeys f
    → ((j : JobRow) → p j ≡ true → IsWell j → IsWell (f j))
    → ((j : JobRow) → p j ≡ true → has_id id j ≡ true)
    → Inv db
    → Inv (
        if (update_jobs p f db).0 == 1
        then add_event id s n m now (update_jobs p f db).1
        else (update_jobs p f db).1)
recovered-Inv p f id s n m now db k keep named v = elim (Bool-cases ((update_jobs p f db).0 == 1)) [
  | inl e ↦ rw e (
      add_event-Inv id s n m now _ (any_id-update id p f db k named (ground arith))
        (update_jobs-Inv p f k keep db v))
  | inr e ↦ rw e (update_jobs-Inv p f k keep db v)
]

recover_one-Inv :
    (now : ℕ) (failure : Text) (job : JobRow) (db : Db)
    → Inv db
    → Inv (recover_one now failure job db)
unfolding recover_one
recover_one-Inv now failure job db v = elim (Bool-cases (is_retry job.recovery_policy)) [
  | inl e ↦ rw e (
      recovered-Inv _ (requeue_row now) job.id queued 0 _ now db (requeue_row-KeepsKeys now)
        (λ j h. requeued-IsWell now j (interrupted_running now j (ground arith)))
        (λ j h. ground arith) v)
  | inr e ↦ rw e (
      recovered-Inv _ (fail_row now failure) job.id failed job.progress _ now db
        (fail_row-KeepsKeys now failure)
        (λ j h. failed-IsWell now failure j (interrupted_running now j (ground arith)))
        (λ j h. ground arith) v)
]

recover_all-Inv :
    (now : ℕ) (failure : Text) (jobs : List JobRow) (db : Db)
    → Inv db
    → Inv (recover_all now failure jobs db)
unfolding recover_all
recover_all-Inv now failure [] db v = v
recover_all-Inv now failure (j ∷ jobs) db v =
    recover_all-Inv now failure jobs (recover_one now failure j db)
      (recover_one-Inv now failure j db v)

pub recover_expired-Inv :
    (now : ℕ) (failure : Text) (db : Db) → Inv db → Inv (recover_expired now failure db)
unfolding recover_expired
recover_expired-Inv now failure db v = recover_all-Inv now failure _ db v

-- Pruning keeps the invariant: no event outlives its job.
pub prune_retired-Inv : (c : Config) (now : ℕ) (db : Db) → Inv db → Inv (prune_retired c now db)
unfolding prune_retired
prune_retired-Inv c now db v = elim (Bool-cases (is_nonpositive c.retention_period)) [
  | inl e ↦ rw e v
  | inr e ↦
      let cutoff = retention_cutoff now c.retention_period in
      rw e record {
        rows = All-select IsWell _ db.jobs v.rows;
        ids = Ascending-select JobRow.id _ 0 db.next_job db.jobs v.ids;
        sequences = Ascending-select EventRow.sequence _ 0 db.next_event db.events v.sequences;
        keys = λ kind key. omega (
          arith,
          v.keys kind key,
          count_where-select_le (has_key kind key) (λ j. not (retired cutoff j)) db.jobs,
        );
        attached =
            All-select_imp (λ (x : EventRow). any (has_id x.job_id) db.jobs ≡ true) _
              (λ x. not (event_retired cutoff db.jobs x)) db.events
              (λ x kept h.
                any-select-not (has_id x.job_id) (retired cutoff) db.jobs h
                  (unfold event_retired in ground arith))
              v.attached;
      }
]
