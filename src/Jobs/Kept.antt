-- ===== src/Jobs/Kept.antt =====
-- A job keeps what it was submitted with through every transaction, as long as it is not pruned.
use nexa_panel.Prelude.{
  ℕ, ◌≡◌, refl, ap, ◌∙◌, subst, Bool, true, false, not, Option, none, some, List, [], ◌∷◌, Text,
  first, ◌⊎◌, inl, inr, ◌==◌, if◌then◌else◌, if_some, first-update_where, first-append, first-map,
  Bool-cases, ℤ, is_nonpositive, is_empty,
}
use nexa_panel.Jobs.Model.{JobRow, Config, Result, ok, err}
use nexa_panel.Jobs.Store.{Db, add_event, update_jobs, has_id, find_job, holds_lease}
use nexa_panel.Jobs.Submit.{
  persist_submission, persist_prepared, resolve, submission_tx, insert_unless, insert_job,
  existing_row,
}
use nexa_panel.Jobs.Worker.{
  lease_to, claimable, claim, claim_row, update_progress, heartbeat, finish_succeeded,
  finish_failed, with_lease, interrupted, is_retry, recover_expired, prune_retired, requeue_row,
  succeed_row, fail_row, retired, retention_cutoff,
}
use nexa_panel.Jobs.Execute.{report_progress, moves_forward, to_progress, after_report}
use nexa_panel.Jobs.Invariant.{Inv}
use nexa_panel.Jobs.Recovery.{recover_row, recover_row-id, recover_expired-rows}
use nexa_panel.Jobs.Retention.{prune_retired-keeps}
use nexa_panel.Jobs.History.{
  Step, Step-Inv, submit, claimed, reported, beat, succeeded, failed, recovered, pruned,
}

-- What a job was submitted with, and the id that it got.
pub record Submission : Type 0 where
  pub id : ℕ
  pub kind : Text
  pub title : Text
  pub key : Option Text
  pub request : Text
  pub scope : List Text
  pub submitter : Option Text

abbrev pub submission_of : JobRow → Submission
submission_of j = record {
  id = j.id;
  kind = j.kind;
  title = j.title;
  key = j.idempotency_key;
  request = j.request_json;
  scope = j.scope_site_ids;
  submitter = j.actor_user_id;
}

-- Two rows of one job.
abbrev pub SameJob : JobRow → JobRow → Type 0
SameJob j x = submission_of x ≡ submission_of j

-- The job is in the table.
abbrev pub Stored : ℕ → JobRow → Db → Type 0
Stored id j db = (x : JobRow) × (find_job id db ≡ some x) × SameJob j x

abbrev pub StoredOrGone : ℕ → JobRow → Db → Type 0
StoredOrGone id j db = Stored id j db ⊎ (find_job id db ≡ none)

-- A rewrite of rows that leaves alone what they were submitted with.
abbrev Rewrites : (JobRow → JobRow) → Type 0
Rewrites f = (x : JobRow) → SameJob x (f x)

rewritten :
    (f : JobRow → JobRow) (b : Bool) (x : JobRow) → Rewrites f → SameJob x (if b then f x else x)
rewritten f true x r = r x
rewritten f false x r = refl

module _ (id : ℕ) (j : JobRow) where
  update-Stored :
      (p : JobRow → Bool) (f : JobRow → JobRow) (db : Db)
      → Rewrites f
      → Stored id j db
      → Stored id j (update_jobs p f db).1
  unfolding find_job update_jobs
  update-Stored p f db r (x, found, same) = (
    if p x then f x else x,
    first-update_where (has_id id) p f db.jobs x (λ y. rw (ap Submission.id (r y)) refl) found,
    rewritten f (p x) x r ∙ same,
  )

  with_lease-Stored :
      (n : ℕ) (token : Text) (f : JobRow → JobRow) (after : Db → Db) (db : Db)
      → Rewrites f
      → ((d : Db) → find_job id (after d) ≡ find_job id d)
      → Stored id j db
      → Stored id j (with_lease n token f after db).1
  unfolding with_lease
  with_lease-Stored n token f after db r quiet s =
      elim (Bool-cases ((update_jobs (holds_lease n token) f db).0 == 1)) [
        | inl e ↦
            let (x, found, same) = update-Stored (holds_lease n token) f db r s in
            rw e (x, quiet _ ∙ found, same)
        | inr e ↦ rw e s
      ]

  insert_unless-Stored :
      (o : Option JobRow) (model : JobRow) (db : Db)
      → Stored id j db
      → Stored id j (insert_unless o model db).1
  unfolding insert_unless insert_job add_event find_job
  insert_unless-Stored (some x) model db s = s
  insert_unless-Stored none model db (x, found, same) =
      (x, first-append (has_id id) db.jobs (model ∷ []) found, same)

  persist_prepared-Stored :
      (db : Db) (r : Result JobRow) → Stored id j db → Stored id j (persist_prepared true db db r).1
  unfolding persist_prepared submission_tx
  persist_prepared-Stored db (err e) s = s
  persist_prepared-Stored db (ok model) s =
      resolved _
        (insert_unless-Stored (existing_row model.kind model.idempotency_key db) model db s)
    where
      resolved :
          (r : Result (JobRow × Bool) × Db) → Stored id j r.1 → Stored id j (resolve model db r).1
      resolved (ok done, d) h = unfold resolve in h
      resolved (err e, d) h = unfold resolve in s

  claim_row-Stored :
      (c : Config) (o : Option JobRow) (w : Text) (now : ℕ) (t : Text) (db : Db) (r : JobRow × Db)
      → claim_row o c w now t db ≡ some r
      → Stored id j db
      → Stored id j r.1
  unfolding claim_row
  claim_row-Stored c none w now t db r h s = cc
  claim_row-Stored c (some x) w now t db r h s =
      subst (λ (y : JobRow × Db). Stored id j y.1) (if_some _ _ r h).1
        (unfold find_job add_event in
          update-Stored (claimable x.id) (lease_to c w now t) db (λ y. unfold lease_to in refl) s)

  report_progress-Stored :
      (c : Config) (n : ℕ) (token : Text) (progress now : ℕ) (next : ℤ) (message : Text) (db : Db)
      → Stored id j db
      → Stored id j (report_progress c n token progress now next message db).2
  unfolding report_progress
  report_progress-Stored c n token progress now next message db s =
      elim (Bool-cases (not (moves_forward progress next))) [
        | inl e ↦ rw e s
        | inr e ↦ elim (Bool-cases (is_empty message)) [
          | inl m ↦ rw (e, m) s
          | inr m ↦
              rw (e, m)
                (after_same (update_progress c now n token (to_progress next) message db) (
                  unfold update_progress in
                  with_lease-Stored n token _ _ db (λ x. refl)
                    (λ d. unfold find_job add_event in refl) s))
        ]
      ]
    where
      after_same :
          (r : Result (Unit {0}) × Db)
          → Stored id j r.1
          → Stored id j (after_report progress (to_progress next) r).2
      after_same (ok u, d) h = h
      after_same (err e, d) h = h

  recovered_same : (now : ℕ) (failure : Text) (x : JobRow) → SameJob x (recover_row now failure x)
  unfolding recover_row requeue_row fail_row
  recovered_same now failure x = elim (Bool-cases (interrupted now x)) [
    | inl e ↦ elim (Bool-cases (is_retry x.recovery_policy)) [
      | inl r ↦ rw (e, r) refl
      | inr r ↦ rw (e, r) refl
    ]
    | inr e ↦ rw e refl
  ]

  recover_expired-Stored :
      (now : ℕ) (failure : Text) (db : Db)
      → Inv db
      → Stored id j db
      → Stored id j (recover_expired now failure db)
  unfolding find_job
  recover_expired-Stored now failure db v (x, found, same) = (
    recover_row now failure x,
    ap (first (has_id id)) (recover_expired-rows now failure db v).0
        ∙ first-map (has_id id) (recover_row now failure) db.jobs x
            (λ x. rw (recover_row-id now failure x)) found,
    recovered_same now failure x ∙ same,
  )

  prune_retired-StoredOrGone :
      (c : Config) (now : ℕ) (db : Db)
      → Inv db
      → Stored id j db
      → StoredOrGone id j (prune_retired c now db)
  prune_retired-StoredOrGone c now db v (x, found, same) =
      elim (Bool-cases (is_nonpositive c.retention_period)) [
        | inl e ↦ inl (x, (unfold prune_retired in rw e found), same)
        | inr e ↦ elim (Bool-cases (retired (retention_cutoff now c.retention_period) x)) [
          | inl old ↦ inr ((prune_retired-keeps c now db v e).0 id x found ∙ rw old)
          | inr new ↦ inl (x, (prune_retired-keeps c now db v e).0 id x found ∙ rw new, same)
        ]
      ]

-- Each transaction leaves the job as it was submitted, or prunes it.
pub Step-StoredOrGone :
    {c : Config} {db db' : Db} (id : ℕ) (j : JobRow)
    → Inv db
    → Stored id j db
    → Step c db db'
    → StoredOrGone id j db'
Step-StoredOrGone id j v s (submit db now kind title encoded options policy) =
    inl (unfold persist_submission in persist_prepared-Stored id j db _ s)
Step-StoredOrGone {c = c} id j v s (claimed db worker_id now token model db' e) =
    inl (unfold claim in claim_row-Stored id j c _ worker_id now token db (model, db') e s)
Step-StoredOrGone {c = c} id j v s (reported db n token progress now next message) =
    inl (report_progress-Stored id j c n token progress now next message db s)
Step-StoredOrGone id j v s (beat db now n token) =
    inl (unfold heartbeat in with_lease-Stored id j n token _ _ db (λ x. refl) (λ d. refl) s)
Step-StoredOrGone id j v s (succeeded db now n token result_json) = inl (
    unfold finish_succeeded in
    with_lease-Stored id j n token _ _ db (λ x. unfold succeed_row in refl)
      (λ d. unfold find_job add_event in refl) s)
Step-StoredOrGone id j v s (failed db now n token progress failure) = inl (
    unfold finish_failed in
    with_lease-Stored id j n token _ _ db (λ x. unfold fail_row in refl)
      (λ d. unfold find_job add_event in refl) s)
Step-StoredOrGone id j v s (recovered db now failure) =
    inl (recover_expired-Stored id j now failure db v s)
Step-StoredOrGone {c = c} id j v s (pruned db now) = prune_retired-StoredOrGone id j c now db v s

-- Any transactions, in any order, after each of which the job is still in the table.
pub data Stays (c : Config) (id : ℕ) (db : Db) : Db → Type 0 where
  here : Stays c id db db
  next :
      {d d' : Db}
      → Stays c id db d
      → Step c d d'
      → (x : JobRow) → find_job id d' ≡ some x
      → Stays c id db d'

pub Stays-Inv : {c : Config} {id : ℕ} {db d : Db} → Inv db → Stays c id db d → Inv d
Stays-Inv v here = v
Stays-Inv v (next r s x found) = Step-Inv s (Stays-Inv v r)

pub Stays-Stored :
    {c : Config} {id : ℕ} {db d : Db} (j : JobRow)
    → Inv db
    → find_job id db ≡ some j
    → Stays c id db d
    → Stored id j d
Stays-Stored j v at here = (j, at, refl)
Stays-Stored {id = id} j v at (next r s x found) =
    elim (Step-StoredOrGone id j (Stays-Inv v r) (Stays-Stored j v at r) s) [
      | inl stored ↦ stored
      | inr gone ↦ absurd (cc)
    ]
