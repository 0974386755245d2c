-- ===== src/Jobs/Claim.antt =====
-- Claiming a job: which job is claimed, and when none is.
use nexa_panel.Prelude.{
  ℕ, suc, ◌≤◌, ◌≡◌, refl, sym, ap, ◌∙◌, subst, Bool, true, false, Option, none, some, Text, arith,
  All, first, first_sound, first_least, first-key, All-of_first-none, if_some, if◌then◌else◌,
  text_eq_refl,
}
use nexa_panel.Jobs.Model.{JobRow, Config, is_queued, running, job_started, add_duration}
use nexa_panel.Jobs.Store.{Db, add_event, update_jobs, find_job, under_token, token_is}
use nexa_panel.Jobs.Worker.{claim, claim_row, claimable, lease_to}
use nexa_panel.Jobs.Invariant.{Inv}
use nexa_panel.Jobs.Transactions.{claim-Inv, lease_to-KeepsKeys}
use nexa_panel.Jobs.Leases.{changed_by_id, find_job-update, find_job-add_event}
use nexa_panel.Jobs.Execution.{Held}

-- What a claim did.
pub record Claimed (c : Config) (worker_id : Text) (now : ℕ) (token : Text) (db : Db)
    (model : JobRow) (db' : Db) : Type 0 where
  pub job : JobRow
  pub was_stored : find_job job.id db ≡ some job
  pub was_queued : is_queued job.state ≡ true
  pub oldest : All (λ (k : JobRow). is_queued k.state ≡ true → job.id ≤ k.id) db.jobs
  pub leased : model ≡ lease_to c worker_id now token job
  pub counted : model.attempt ≡ suc job.attempt
  pub owned : (model.lease_owner ≡ some worker_id) × (model.lease_token ≡ some token)
  pub until : model.lease_expires_at ≡ some (add_duration now c.lease_duration)
  pub kept : (model.kind ≡ job.kind) × (model.request_json ≡ job.request_json)
  pub now_stored : find_job job.id db' ≡ some model
  pub held : Held job.id token job.progress db'

module _ (c : Config) (worker_id : Text) (now : ℕ) (token : Text) (db : Db) where
  written : JobRow → Db
  written j =
      add_event j.id running j.progress job_started now
        (update_jobs (claimable j.id) (lease_to c worker_id now token) db).1

  claim_row_parts :
      (j model : JobRow) (db' : Db)
      → claim_row (some j) c worker_id now token db ≡ some (model, db')
      → (lease_to c worker_id now token j ≡ model) × (written j ≡ db')
  unfolding claim_row written
  claim_row_parts j model db' h =
      let (one, same) = if_some _ _ (model, db') h in
      (ap (λ (r : JobRow × Db). r.0) same, ap (λ (r : JobRow × Db). r.1) same)

  module _ (v : Inv db) (j : JobRow)
      (oldest : first (λ (x : JobRow). is_queued x.state) db.jobs ≡ some j) where
    found : find_job j.id db ≡ some j
    unfolding find_job
    found = first-key JobRow.id _ 0 db.next_job db.jobs j v.ids oldest

    free : is_queued j.state ≡ true
    free = first_sound (λ (x : JobRow). is_queued x.state) db.jobs oldest

    claim_row-some :
        claim_row (some j) c worker_id now token db
        ≡ some (lease_to c worker_id now token j, written j)
    unfolding claim_row written
    claim_row-some =
        rw
          (changed_by_id db v j.id j found (λ (x : JobRow). is_queued x.state)
            (lease_to c worker_id now token))
          (rw free)

    stored : find_job j.id (written j) ≡ some (lease_to c worker_id now token j)
    unfolding written
    stored =
        find_job-add_event j.id j.id running j.progress job_started now _
        ∙ (find_job-update db v j.id j found (claimable j.id) (lease_to c worker_id now token)
              (lease_to-KeepsKeys c worker_id now token)
            ∙ ap (λ (b : Bool). some (if b then lease_to c worker_id now token j else j)) both)
      where
        both : claimable j.id j ≡ true
        both = ground (arith, free)

    under : under_token token (lease_to c worker_id now token j) ≡ true
    unfolding lease_to token_is
    under = text_eq_refl token

  claim_row-Claimed :
      (o : Option JobRow) (model : JobRow) (db' : Db)
      → Inv db
      → first (λ (x : JobRow). is_queued x.state) db.jobs ≡ o
      → claim_row o c worker_id now token db ≡ some (model, db')
      → Inv db'
      → Claimed c worker_id now token db model db'
  claim_row-Claimed none model db' v e h v' = unfold claim_row in cc
  claim_row-Claimed (some j) model db' v e h v' =
      let (model_same, db_same) = claim_row_parts j model db' h in
      record {
        job = j;
        was_stored = found v j e;
        was_queued = free v j e;
        oldest = first_least JobRow.id _ 0 db.next_job db.jobs j v.ids e;
        leased = sym model_same;
        counted = ap (λ (r : JobRow). r.attempt) (sym model_same) ∙ unfold lease_to in refl;
        owned = (
          ap (λ (r : JobRow). r.lease_owner) (sym model_same) ∙ unfold lease_to in refl,
          ap (λ (r : JobRow). r.lease_token) (sym model_same) ∙ unfold lease_to in refl,
        );
        until = ap (λ (r : JobRow). r.lease_expires_at) (sym model_same) ∙ unfold lease_to in refl;
        kept = (
          ap (λ (r : JobRow). r.kind) (sym model_same) ∙ unfold lease_to in refl,
          ap (λ (r : JobRow). r.request_json) (sym model_same) ∙ unfold lease_to in refl,
        );
        now_stored =
            subst (λ d. find_job j.id d ≡ some model) db_same (stored v j e ∙ ap some model_same);
        held = record {
          inv = v';
          row = lease_to c worker_id now token j;
          found =
              subst (λ d. find_job j.id d ≡ some (lease_to c worker_id now token j)) db_same
                (stored v j e);
          lease = under v j e;
          tracked = unfold lease_to in refl;
        };
      }

  -- A claim takes the queued job with the least id, gives it to the worker under the worker's token
  -- until the lease runs out, counts one more attempt and keeps its kind and request; the row that the
  -- worker is handed is the one in the table, and the worker holds the job at the progress of its row.
  pub claim-Claimed :
      (model : JobRow) (db' : Db)
      → Inv db
      → claim c worker_id now token db ≡ some (model, db')
      → Claimed c worker_id now token db model db'
  claim-Claimed model db' v h =
      claim_row-Claimed _ model db' v refl (unfold claim in h)
        (claim-Inv c worker_id now token db h v)

  claim_row-none :
      (o : Option JobRow)
      → Inv db
      → first (λ (x : JobRow). is_queued x.state) db.jobs ≡ o
      → claim_row o c worker_id now token db ≡ none
      → o ≡ none
  claim_row-none none v e h = refl
  claim_row-none (some j) v e h = cc (claim_row-some v j e)

  -- A claim finds nothing only if no job is queued.
  pub claim-none :
      Inv db
      → claim c worker_id now token db ≡ none
      → All (λ (k : JobRow). is_queued k.state ≡ false) db.jobs
  claim-none v h =
      All-of_first-none (λ (x : JobRow). is_queued x.state) db.jobs
        (claim_row-none _ v refl (unfold claim in h))
