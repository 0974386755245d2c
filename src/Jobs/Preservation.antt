-- ===== src/Jobs/Preservation.antt =====
-- Queueing a job keeps the invariant of the tables.
use nexa_panel.Prelude.{
  ℕ, ◌≤◌, ◌≡◌, refl, sym, Bool, true, false, Option, none, some, [], ◌∷◌, ◌++◌, Text, arith,
  All-append, first, count_where, Bool-cases, inl, inr, Ascending-append, any-append,
  count_where-append, count_of_first-none, text_eq, text_eq_sound, ◌∙◌,
}
use nexa_panel.Jobs.Model.{queued, JobRow, terminal, Result, ok, err, RecoveryPolicy}
use nexa_panel.Jobs.Store.{Db, has_id, has_key, has_key_parts, key_is}
use nexa_panel.Jobs.Submit.{
  SubmitOptions, new_row, insert_job, existing_row, prepare_submission, insert_unless,
  submission_tx, persist_prepared, persist_submission, resolve,
}
use nexa_panel.Jobs.Invariant.{Inv, IsWell, All-rewrite, add_event-Inv}

pub prepare_submission-IsWell :
    (now : ℕ) (raw title : Text) (encoded : Option Text) (options : SubmitOptions)
    (policy : RecoveryPolicy) (id : ℕ) {model : JobRow}
    → prepare_submission now raw title encoded options policy id ≡ ok model
    → IsWell model × (model.id ≡ id)
unfolding prepare_submission new_row terminal
prepare_submission-IsWell now raw title encoded options policy id {model} h =
    (ground arith, ground arith)

-- The row under the key of another row is looked up by that key.
existing_row_of_key :
    (kind key k : Text) (o : Option Text) (db : Db)
    → text_eq k kind ≡ true
    → key_is key o ≡ true
    → existing_row k o db ≡ first (has_key kind key) db.jobs
unfolding existing_row key_is
existing_row_of_key kind key k none db h g = cc
existing_row_of_key kind key k (some o) db h g = cc (text_eq_sound k kind h, text_eq_sound o key g)

module _ (model : JobRow) (db : Db) (well : IsWell model) (named : model.id ≡ db.next_job)
    (unused : existing_row model.kind model.idempotency_key db ≡ none) where
  insert_key :
      (kind key : Text) → has_key kind key model ≡ true → count_where (has_key kind key) db.jobs ≡ 0
  insert_key kind key h =
      let (h₁, h₂) = has_key_parts kind key model h in
      count_of_first-none (has_key kind key) db.jobs
        (sym (existing_row_of_key kind key model.kind model.idempotency_key db h₁ h₂) ∙ unused)

  insert_keys :
      (kind key : Text)
      → count_where (has_key kind key) db.jobs ≤ 1
      → count_where (has_key kind key) (db.jobs ++ model ∷ []) ≤ 1
  insert_keys kind key h = elim (Bool-cases (has_key kind key model)) [
    | inl e ↦ rw count_where-append (rw e (omega (arith, insert_key kind key e)))
    | inr e ↦ rw count_where-append (rw e (omega arith))
  ]

  pub insert_job-Inv : Inv db → Inv (insert_job model db)
  unfolding insert_job
  insert_job-Inv v =
      add_event-Inv model.id queued 0 _ model.created_at _
        (ground (arith, any-append (has_id model.id) db.jobs (model ∷ [])))
        record {
          rows = All-append IsWell db.jobs _ v.rows (well, tt);
          ids = Ascending-append JobRow.id 0 db.next_job db.jobs model v.ids named;
          sequences = v.sequences;
          keys = λ kind key. insert_keys kind key (v.keys kind key);
          attached =
              All-rewrite db.jobs _ db.events
                (λ id h. ground (arith, any-append (has_id id) db.jobs (model ∷ []))) v.attached;
        }

insert_unless-Inv :
    (o : Option JobRow) (model : JobRow) (db : Db)
    → existing_row model.kind model.idempotency_key db ≡ o
    → IsWell model
    → model.id ≡ db.next_job
    → Inv db
    → Inv (insert_unless o model db).1
unfolding insert_unless
insert_unless-Inv (some j) model db e w n v = v
insert_unless-Inv none model db e w n v = insert_job-Inv model db w n e v

submission_tx-Inv :
    (committed : Bool) (model : JobRow) (db : Db)
    → IsWell model
    → model.id ≡ db.next_job
    → Inv db
    → Inv (submission_tx committed model db).1
unfolding submission_tx
submission_tx-Inv false model db w n v = v
submission_tx-Inv true model db w n v = insert_unless-Inv _ model db refl w n v

resolve-Inv :
    (model : JobRow) (later : Db) (r : Result (JobRow × Bool) × Db)
    → Inv later
    → Inv r.1
    → Inv (resolve model later r).1
unfolding resolve
resolve-Inv model later (ok done, db) l v = v
resolve-Inv model later (err e, db) l v = l

persist_prepared-Inv :
    (committed : Bool) (db later : Db) (r : Result JobRow)
    → ((model : JobRow) → r ≡ ok model → IsWell model × (model.id ≡ db.next_job))
    → Inv db
    → Inv later
    → Inv (persist_prepared committed db later r).1
unfolding persist_prepared
persist_prepared-Inv committed db later (err e) good v l = v
persist_prepared-Inv committed db later (ok model) good v l =
    let (w, n) = good model refl in
    resolve-Inv model later (submission_tx committed model db) l
      (submission_tx-Inv committed model db w n v)

-- Queueing keeps the invariant, whether or not the transaction went through.
pub persist_submission-Inv :
    (committed : Bool) (db later : Db) (now : ℕ) (kind title : Text) (encoded : Option Text)
    (options : SubmitOptions) (policy : RecoveryPolicy)
    → Inv db
    → Inv later
    → Inv (persist_submission committed db later now kind title encoded options policy).1
unfolding persist_submission
persist_submission-Inv committed db later now kind title encoded options policy v l =
    persist_prepared-Inv committed db later _
      (λ model.
        prepare_submission-IsWell now kind title encoded options policy db.next_job {model = model})
      v l
