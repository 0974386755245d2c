-- ===== src/Jobs/History.antt =====
-- The queue over time: any number of submitters and workers, whose transactions come in any order.
-- Each constructor is one transaction; a report is made under the guard of `report`.
use nexa_panel.Prelude.{
  ℕ, ◌≡◌, refl, ap, ◌∙◌, subst, Bool, true, false, not, ◌||◌, Option, none, some, [], ◌∷◌, Text,
  arith, first, ◌⊎◌, inl, inr, ◌==◌, if◌then◌else◌, ltb, if_some, first-update_where, first-append,
  first-map, Bool-cases, ℤ, pos, negsuc, is_nonpositive, is_empty,
}
use nexa_panel.Jobs.Model.{
  JobRow, Config, RecoveryPolicy, Result, ok, err, is_running, is_queued, terminal,
}
use nexa_panel.Jobs.Store.{Db, empty, add_event, update_jobs, has_id, find_job, holds_lease}
use nexa_panel.Jobs.Submit.{
  SubmitOptions, persist_submission, persist_prepared, resolve, submission_tx, insert_unless,
  insert_job, existing_row,
}
use nexa_panel.Jobs.Worker.{
  lease_to, claimable, claim, claim_row, update_progress, heartbeat, finish_succeeded,
  finish_failed, with_lease, recover_expired, prune_retired, interrupted, succeed_row, fail_row,
  retired, retention_cutoff,
}
use nexa_panel.Jobs.Execute.{report_progress, moves_forward, to_progress, after_report}
use nexa_panel.Jobs.Invariant.{Inv, empty-Inv}
use nexa_panel.Jobs.Preservation.{persist_submission-Inv}
use nexa_panel.Jobs.Transactions.{
  claim-Inv, update_progress-Inv, heartbeat-Inv, finish_succeeded-Inv, finish_failed-Inv,
  recover_expired-Inv, prune_retired-Inv,
}
use nexa_panel.Jobs.Recovery.{recover_row, recover_row-id, recover_expired-rows}
use nexa_panel.Jobs.Retention.{prune_retired-keeps}

pub report_progress-Inv :
    (c : Config) (id : ℕ) (token : Text) (progress now : ℕ) (next : ℤ) (message : Text) (db : Db)
    → Inv db
    → Inv (report_progress c id token progress now next message db).2
unfolding report_progress moves_forward
report_progress-Inv c id token progress now (negsuc n) message db v = v
report_progress-Inv c id token progress now (pos next) message db v =
    elim (Bool-cases (ltb next progress || ltb 99 next)) [
      | inl e ↦ rw e v
      | inr e ↦ elim (Bool-cases (is_empty message)) [
        | inl m ↦ rw (e, m) v
        | inr m ↦
            rw (e, m)
              (after_same progress next (update_progress c now id token next message db)
                (update_progress-Inv c now id token db v next message (ground arith)))
      ]
    ]
  where
    after_same :
        (old new : ℕ) (r : Result (Unit {0}) × Db) → Inv r.1 → Inv (after_report old new r).2
    after_same old new (ok u, db) h = h
    after_same old new (err e, db) h = h

pub data Step (c : Config) : Db → Db → Type 0 where
  submit :
      (db : Db) (now : ℕ) (kind title : Text) (encoded : Option Text) (options : SubmitOptions)
      (policy : RecoveryPolicy)
      → Step c db (persist_submission true db db now kind title encoded options policy).1
  claimed :
      (db : Db) (worker_id : Text) (now : ℕ) (token : Text) (model : JobRow) (db' : Db)
      → claim c worker_id now token db ≡ some (model, db')
      → Step c db db'
  reported :
      (db : Db) (id : ℕ) (token : Text) (progress now : ℕ) (next : ℤ) (message : Text)
      → Step c db (report_progress c id token progress now next message db).2
  beat : (db : Db) (now id : ℕ) (token : Text) → Step c db (heartbeat c now id token db).1
  succeeded :
      (db : Db) (now id : ℕ) (token result_json : Text)
      → Step c db (finish_succeeded now id token result_json db).1
  failed :
      (db : Db) (now id : ℕ) (token : Text) (progress : ℕ) (failure : Text)
      → Step c db (finish_failed now id token progress failure db).1
  recovered : (db : Db) (now : ℕ) (failure : Text) → Step c db (recover_expired now failure db)
  pruned : (db : Db) (now : ℕ) → Step c db (prune_retired c now db)

pub data Reach (c : Config) : Db → Type 0 where
  start : Reach c empty
  step : {db db' : Db} → Reach c db → Step c db db' → Reach c db'

pub Step-Inv : {c : Config} {db db' : Db} → Step c db db' → Inv db → Inv db'
Step-Inv (submit db now kind title encoded options policy) v =
    persist_submission-Inv true db db now kind title encoded options policy v v
Step-Inv {c = c} (claimed db worker_id now token model db' e) v =
    claim-Inv c worker_id now token db e v
Step-Inv {c = c} (reported db id token progress now next message) v =
    report_progress-Inv c id token progress now next message db v
Step-Inv {c = c} (beat db now id token) v = heartbeat-Inv c now id token db v
Step-Inv (succeeded db now id token result_json) v =
    finish_succeeded-Inv now id token db v result_json
Step-Inv (failed db now id token progress failure) v =
    finish_failed-Inv now id token db v progress failure
Step-Inv (recovered db now failure) v = recover_expired-Inv now failure db v
Step-Inv {c = c} (pruned db now) v = prune_retired-Inv c now db v

-- Whatever transactions are made, in whatever order, from the empty tables on: each row holds a lease
-- exactly while it runs and is dated exactly when it has ended, its result, failure and progress fit
-- its state, ids and event numbers ascend, no two rows share an idempotency key under one kind, and
-- every event has its job.
pub Reach-Inv : {c : Config} {db : Db} → Reach c db → Inv db
Reach-Inv start = empty-Inv
Reach-Inv (step r s) = Step-Inv s (Reach-Inv r)

-- What becomes of a row that has ended.
abbrev pub KeptOrGone : ℕ → JobRow → Db → Type 0
KeptOrGone id j db = (find_job id db ≡ some j) ⊎ (find_job id db ≡ none)

module _ (id : ℕ) (j : JobRow) (ended : terminal j.state ≡ true) where
  ended_running : is_running j.state ≡ false
  unfolding terminal
  ended_running = ground arith

  ended_queued : is_queued j.state ≡ false
  unfolding terminal
  ended_queued = ground arith

  update-ended :
      (p : JobRow → Bool) (f : JobRow → JobRow) (db : Db)
      → ((x : JobRow) → (f x).id ≡ x.id)
      → p j ≡ false
      → find_job id db ≡ some j
      → find_job id (update_jobs p f db).1 ≡ some j
  unfolding find_job update_jobs
  update-ended p f db same skip found =
      first-update_where (has_id id) p f db.jobs j (λ x. rw (same x)) found
      ∙ ap (λ (b : Bool). some (if b then f j else j)) skip

  with_lease-ended :
      (n : ℕ) (token : Text) (f : JobRow → JobRow) (after : Db → Db) (db : Db)
      → ((x : JobRow) → (f x).id ≡ x.id)
      → ((d : Db) → find_job id (after d) ≡ find_job id d)
      → find_job id db ≡ some j
      → find_job id (with_lease n token f after db).1 ≡ some j
  unfolding with_lease
  with_lease-ended n token f after db same quiet found =
      elim (Bool-cases ((update_jobs (holds_lease n token) f db).0 == 1)) [
        | inl e ↦ rw e (
            quiet _
            ∙ update-ended (holds_lease n token) f db same
                (unfold holds_lease in ground (arith, ended_running)) found)
        | inr e ↦ rw e found
      ]

  insert_unless-ended :
      (o : Option JobRow) (model : JobRow) (db : Db)
      → find_job id db ≡ some j
      → find_job id (insert_unless o model db).1 ≡ some j
  unfolding insert_unless insert_job add_event find_job
  insert_unless-ended (some x) model db found = found
  insert_unless-ended none model db found = first-append (has_id id) db.jobs (model ∷ []) found

  persist_prepared-ended :
      (db : Db) (r : Result JobRow)
      → find_job id db ≡ some j
      → find_job id (persist_prepared true db db r).1 ≡ some j
  unfolding persist_prepared submission_tx
  persist_prepared-ended db (err e) found = found
  persist_prepared-ended db (ok model) found =
      resolved _
        (insert_unless-ended (existing_row model.kind model.idempotency_key db) model db found)
    where
      resolved :
          (r : Result (JobRow × Bool) × Db)
          → find_job id r.1 ≡ some j
          → find_job id (resolve model db r).1 ≡ some j
      resolved (ok done, d) h = unfold resolve in h
      resolved (err e, d) h = unfold resolve in found

  claim_row-ended :
      (c : Config) (o : Option JobRow) (w : Text) (now : ℕ) (t : Text) (db : Db) (r : JobRow × Db)
      → claim_row o c w now t db ≡ some r
      → find_job id db ≡ some j
      → find_job id r.1 ≡ some j
  unfolding claim_row
  claim_row-ended c none w now t db r h found = cc
  claim_row-ended c (some x) w now t db r h found =
      subst (λ (y : JobRow × Db). find_job id y.1 ≡ some j) (if_some _ _ r h).1
        (unfold find_job add_event in
          update-ended (claimable x.id) (lease_to c w now t) db (λ y. unfold lease_to in refl)
            (ground (arith, ended_queued)) found)

  report_progress-ended :
      (c : Config) (n : ℕ) (token : Text) (progress now : ℕ) (next : ℤ) (message : Text) (db : Db)
      → find_job id db ≡ some j
      → find_job id (report_progress c n token progress now next message db).2 ≡ some j
  unfolding report_progress
  report_progress-ended c n token progress now next message db found =
      elim (Bool-cases (not (moves_forward progress next))) [
        | inl e ↦ rw e found
        | inr e ↦ elim (Bool-cases (is_empty message)) [
          | inl m ↦ rw (e, m) found
          | inr m ↦
              rw (e, m)
                (after_same (update_progress c now n token (to_progress next) message db) (
                  unfold update_progress in
                  with_lease-ended n token _ _ db (λ x. refl)
                    (λ d. unfold find_job add_event in refl) found))
        ]
      ]
    where
      after_same :
          (r : Result (Unit {0}) × Db)
          → find_job id r.1 ≡ some j
          → find_job id (after_report progress (to_progress next) r).2 ≡ some j
      after_same (ok u, d) h = h
      after_same (err e, d) h = h

  recover_row_ended : (now : ℕ) (failure : Text) → recover_row now failure j ≡ j
  unfolding recover_row interrupted
  recover_row_ended now failure = ground (arith, ended_running)

  recover_expired-ended :
      (now : ℕ) (failure : Text) (db : Db)
      → Inv db
      → find_job id db ≡ some j
      → find_job id (recover_expired now failure db) ≡ some j
  unfolding find_job
  recover_expired-ended now failure db v found =
      ap (first (has_id id)) (recover_expired-rows now failure db v).0
      ∙ (first-map (has_id id) (recover_row now failure) db.jobs j
            (λ x. rw (recover_row-id now failure x)) found
          ∙ ap (λ (x : JobRow). some x) (recover_row_ended now failure))

  prune_retired-ended :
      (c : Config) (now : ℕ) (db : Db)
      → Inv db
      → find_job id db ≡ some j
      → KeptOrGone id j (prune_retired c now db)
  prune_retired-ended c now db v found = elim (Bool-cases (is_nonpositive c.retention_period)) [
    | inl e ↦ inl (unfold prune_retired in rw e found)
    | inr e ↦ elim (Bool-cases (retired (retention_cutoff now c.retention_period) j)) [
      | inl old ↦ inr ((prune_retired-keeps c now db v e).0 id j found ∙ rw old)
      | inr new ↦ inl ((prune_retired-keeps c now db v e).0 id j found ∙ rw new)
    ]
  ]

-- No transaction changes a job that has ended: afterwards its row is the same, or it has been pruned.
pub Step-ended :
    {c : Config} {db db' : Db} (id : ℕ) (j : JobRow)
    → terminal j.state ≡ true
    → Inv db
    → find_job id db ≡ some j
    → Step c db db'
    → KeptOrGone id j db'
Step-ended id j ended v found (submit db now kind title encoded options policy) =
    inl (unfold persist_submission in persist_prepared-ended id j ended db _ found)
Step-ended {c = c} id j ended v found (claimed db worker_id now token model db' e) =
    inl (unfold claim in claim_row-ended id j ended c _ worker_id now token db (model, db') e found)
Step-ended {c = c} id j ended v found (reported db n token progress now next message) =
    inl (report_progress-ended id j ended c n token progress now next message db found)
Step-ended id j ended v found (beat db now n token) =
    inl
      (unfold heartbeat in with_lease-ended id j ended n token _ _ db (λ x. refl) (λ d. refl) found)
Step-ended id j ended v found (succeeded db now n token result_json) = inl (
    unfold finish_succeeded in
    with_lease-ended id j ended n token _ _ db (λ x. unfold succeed_row in refl)
      (λ d. unfold find_job add_event in refl) found)
Step-ended id j ended v found (failed db now n token progress failure) = inl (
    unfold finish_failed in
    with_lease-ended id j ended n token _ _ db (λ x. unfold fail_row in refl)
      (λ d. unfold find_job add_event in refl) found)
Step-ended id j ended v found (recovered db now failure) =
    inl (recover_expired-ended id j ended now failure db v found)
Step-ended {c = c} id j ended v found (pruned db now) =
    prune_retired-ended id j ended c now db v found
