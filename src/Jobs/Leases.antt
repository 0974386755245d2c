-- ===== src/Jobs/Leases.antt =====
-- The lease of a running job: a write under a token is made if the row holds that token, and is
-- refused with nothing written if it does not.
use nexa_panel.Prelude.{
  ℕ, ◌≡◌, refl, Bool, true, false, ◌&&◌, some, Text, arith, ap, ◌∙◌, first_sound, count_where-key,
  first-update_where, if◌then◌else◌,
}
use nexa_panel.Jobs.Model.{
  JobRow, Config, Result, ok, err, lease_lost, State, succeeded, failed, job_completed, job_failed,
  Message,
}
use nexa_panel.Jobs.Store.{Db, add_event, update_jobs, has_id, under_token, holds_lease, find_job}
use nexa_panel.Jobs.Worker.{
  with_lease, update_progress, heartbeat, finish_succeeded, finish_failed, succeed_row, fail_row,
  cut_message,
}
use nexa_panel.Jobs.Invariant.{Inv, KeepsKeys}
use nexa_panel.Jobs.Transactions.{succeed_row-KeepsKeys, fail_row-KeepsKeys}

module _ (db : Db) (v : Inv db) (id : ℕ) (j : JobRow) (found : find_job id db ≡ some j) where
  -- How many rows a write that names one id changes.
  pub changed_by_id :
      (p : JobRow → Bool) (f : JobRow → JobRow)
      → (update_jobs (λ x. has_id id x && p x) f db).0 ≡ (if p j then 1 else 0)
  unfolding update_jobs find_job
  changed_by_id p f = count_where-key JobRow.id p id 0 db.next_job db.jobs j v.ids found

  pub find_job-update :
      (p : JobRow → Bool) (f : JobRow → JobRow)
      → KeepsKeys f
      → find_job id (update_jobs p f db).1 ≡ some (if p j then f j else j)
  unfolding update_jobs find_job
  find_job-update p f k = first-update_where (has_id id) p f db.jobs j (λ y. rw (k.same_id y)) found

  pub found_id : has_id id j ≡ true
  unfolding find_job
  found_id = first_sound (has_id id) db.jobs found

  -- A write under the token that the row holds goes through, and changes that row.
  pub with_lease-held :
      (token : Text) (f : JobRow → JobRow) (after : Db → Db)
      → KeepsKeys f
      → under_token token j ≡ true
      → (with_lease id token f after db
          ≡ (ok tt, after (update_jobs (holds_lease id token) f db).1))
        × (find_job id (update_jobs (holds_lease id token) f db).1 ≡ some (f j))
  unfolding with_lease holds_lease
  with_lease-held token f after k h =
      let both : (has_id id j && under_token token j) ≡ true = ground (arith, found_id) in
      (
        rw (changed_by_id (under_token token) f) (rw h),
        find_job-update (holds_lease id token) f k
            ∙ ap (λ (b : Bool). some (if b then f j else j)) both,
      )

  -- A write under any other token is refused.
  pub with_lease-stale :
      (token : Text) (f : JobRow → JobRow) (after : Db → Db)
      → under_token token j ≡ false
      → with_lease id token f after db ≡ (err lease_lost, db)
  unfolding with_lease holds_lease
  with_lease-stale token f after h = rw (changed_by_id (under_token token) f) (rw h)

-- Every write of a worker is refused, and leaves both tables as they were, where the job does not run
-- under that worker's token: a worker that has lost its lease cannot write to the job.
pub stale_worker-refused :
    (c : Config) (db : Db) (now id : ℕ) (token : Text) (j : JobRow)
    → Inv db
    → find_job id db ≡ some j
    → under_token token j ≡ false
    → (progress : ℕ) (message : Text)
    → (update_progress c now id token progress message db ≡ (err lease_lost, db))
      × (heartbeat c now id token db ≡ (err lease_lost, db))
      × (finish_succeeded now id token message db ≡ (err lease_lost, db))
      × (finish_failed now id token progress message db ≡ (err lease_lost, db))
unfolding update_progress heartbeat finish_succeeded finish_failed
stale_worker-refused c db now id token j v found h progress message = (
  with_lease-stale db v id j found token _ _ h,
  with_lease-stale db v id j found token _ _ h,
  with_lease-stale db v id j found token _ _ h,
  with_lease-stale db v id j found token _ _ h,
)

pub find_job-add_event :
    (id : ℕ) (i : ℕ) (s : State) (n : ℕ) (m : Message) (now : ℕ) (db : Db)
    → find_job id (add_event i s n m now db) ≡ find_job id db
unfolding find_job add_event
find_job-add_event id i s n m now db = refl

-- The worker that holds the lease ends its job: the row is succeeded with the result, at full
-- progress, or failed with the message cut to 500 bytes, and the lease is given up.
pub lease_holder-finishes :
    (db : Db) (now id : ℕ) (token : Text) (j : JobRow)
    → Inv db
    → find_job id db ≡ some j
    → under_token token j ≡ true
    → (progress : ℕ) (text : Text)
    → ((finish_succeeded now id token text db).0 ≡ ok tt)
      × (find_job id (finish_succeeded now id token text db).1 ≡ some (succeed_row now text j))
      × ((finish_failed now id token progress text db).0 ≡ ok tt)
      × (find_job id (finish_failed now id token progress text db).1
          ≡ some (fail_row now (cut_message text) j))
unfolding finish_succeeded finish_failed
lease_holder-finishes db now id token j v found h progress text =
    let (s, s') =
      with_lease-held db v id j found token (succeed_row now text)
        (add_event id succeeded 100 job_completed now) (succeed_row-KeepsKeys now text) h in
    let (f, f') =
      with_lease-held db v id j found token (fail_row now (cut_message text))
        (add_event id failed progress job_failed now) (fail_row-KeepsKeys now (cut_message text))
        h in
    (
      ap (λ (r : Result (Unit {0}) × Db). r.0) s,
      ap (λ (r : Result (Unit {0}) × Db). find_job id r.1) s
          ∙ (find_job-add_event id id succeeded 100 job_completed now _ ∙ s'),
      ap (λ (r : Result (Unit {0}) × Db). r.0) f,
      ap (λ (r : Result (Unit {0}) × Db). find_job id r.1) f
          ∙ (find_job-add_event id id failed progress job_failed now _ ∙ f'),
    )
