-- ===== src/Jobs/Idempotency.antt =====
-- A submission under an idempotency key that is taken: the job is reused, or the submission refused.
use nexa_panel.Prelude.{
  ℕ, ◌≡◌, refl, sym, ap, subst, ◌∙◌, Bool, true, false, Option, none, some, List, [], ◌∷◌, Text,
  arith, first-append_new, Bool-cases, inl, inr, if◌then◌else◌, text_eq_refl, text_eq_sound,
}
use nexa_panel.Jobs.Model.{
  JobRow, RecoveryPolicy, Result, ok, err, same_actor, idempotency_conflict,
}
use nexa_panel.Jobs.Store.{Db, add_event, has_key, key_is}
use nexa_panel.Jobs.Submit.{
  SubmitOptions, persist_submission, persist_prepared, resolve, submission_tx, insert_unless,
  insert_job, existing_row, prepare_submission, reuse, reuse_found, same_submission, same_ids,
  new_row,
}

abbrev pub is_given : Option Text → Bool
is_given none = false
is_given (some key) = true

same_ids_refl : (xs : List Text) → same_ids xs xs ≡ true
unfolding same_ids
same_ids_refl [] = refl
same_ids_refl (x ∷ xs) = ground (arith, text_eq_refl x, same_ids_refl xs)

same_actor_refl : (o : Option Text) → same_actor o o ≡ true
unfolding same_actor
same_actor_refl none = refl
same_actor_refl (some a) = text_eq_refl a

-- Two rows that were prepared from the same submission differ in their times and ids at most.
pub record SameIntent (j model : JobRow) : Type 0 where
  pub same_request : j.request_json ≡ model.request_json
  pub same_scope : j.scope_site_ids ≡ model.scope_site_ids
  pub same_submitter : j.actor_user_id ≡ model.actor_user_id

pub reuse_of_same : (j model : JobRow) → SameIntent j model → reuse j model ≡ ok (j, false)
unfolding reuse same_submission
reuse_of_same j model s =
    rw (s.same_request, s.same_scope, s.same_submitter)
      (ground (
        arith,
        text_eq_refl model.request_json,
        same_ids_refl model.scope_site_ids,
        same_actor_refl model.actor_user_id,
      ))

-- Preparing the same submission at another time, for another id, gives a row of the same intent.
pub prepare_again :
    (now now' : ℕ) (raw title : Text) (encoded : Option Text) (options : SubmitOptions)
    (policy : RecoveryPolicy) (id id' : ℕ) (model : JobRow)
    → prepare_submission now raw title encoded options policy id ≡ ok model
    → (model' : JobRow) × (prepare_submission now' raw title encoded options policy id' ≡ ok model')
      × SameIntent model model'
      × (model'.kind ≡ model.kind)
      × (model'.idempotency_key ≡ model.idempotency_key)
unfolding prepare_submission new_row
prepare_again now now' raw title encoded options policy id id' model h = (
  record model { id = id'; created_at = now'; updated_at = now' },
  ground arith,
  ground arith,
  refl,
  refl,
)

-- Where the key is taken, the row under it decides, whether the transaction saw it or was refused.
pub with_existing :
    (model x : JobRow) (db seen : Db)
    → existing_row model.kind model.idempotency_key db ≡ some x
    → (persist_prepared true db db (ok model) ≡ (reuse x model, db))
      × (persist_prepared false seen db (ok model) ≡ (reuse x model, db))
unfolding persist_prepared submission_tx insert_unless
with_existing model x db seen e =
    (rw e (settle (reuse x model) refl), unfold resolve reuse_found in rw e)
  where
    settle : (r : Result (JobRow × Bool)) → reuse x model ≡ r → resolve model db (r, db) ≡ (r, db)
    settle (ok done) h = unfold resolve in refl
    settle (err c) h = unfold resolve reuse_found in rw e (rw h)

-- A row that has just been queued is found under its key.
existing_row-insert_job :
    (o : Option Text) (model : JobRow) (db : Db)
    → model.idempotency_key ≡ o
    → is_given o ≡ true
    → existing_row model.kind o db ≡ none
    → existing_row model.kind o (insert_job model db) ≡ some model
unfolding existing_row insert_job add_event
existing_row-insert_job none model db e g n = cc
existing_row-insert_job (some key) model db e g n =
    first-append_new (has_key model.kind key) db.jobs (model ∷ []) n ∙ rw (found key model e)
  where
    found : (key : Text) (m : JobRow) → m.idempotency_key ≡ some key → has_key m.kind key m ≡ true
    found key m h =
        unfold has_key key_is in rw h (ground (arith, text_eq_refl m.kind, text_eq_refl key))

reuse_is_old : (x model j : JobRow) → reuse x model ≡ ok (j, true) → ⊥
unfolding reuse
reuse_is_old x model j h = ground arith

insert_parts :
    (model j : JobRow) (db db' : Db)
    → existing_row model.kind model.idempotency_key db ≡ none
    → resolve model db (ok (model, true), insert_job model db) ≡ (ok (j, true), db')
    → (ok model ≡ ok j)
      × (existing_row j.kind j.idempotency_key db ≡ none)
      × (db' ≡ insert_job j db)
unfolding resolve
insert_parts model j db db' e g =
    let same : model ≡ j = cc (ap (λ (r : Result (JobRow × Bool) × Db). r.0) g) in
    (
      ap ok same,
      subst (λ (m : JobRow). existing_row m.kind m.idempotency_key db ≡ none) same e,
      sym (ap (λ (r : Result (JobRow × Bool) × Db). r.1) g)
          ∙ ap (λ (m : JobRow). insert_job m db) same,
    )

-- What a submission that created its row did.
inserted_row :
    (o : Option JobRow) (model j : JobRow) (db db' : Db)
    → existing_row model.kind model.idempotency_key db ≡ o
    → persist_prepared true db db (ok model) ≡ (ok (j, true), db')
    → (ok model ≡ ok j)
      × (existing_row j.kind j.idempotency_key db ≡ none)
      × (db' ≡ insert_job j db)
inserted_row (some x) model j db db' e h = absurd (
    reuse_is_old x model j
      (ap (λ (r : Result (JobRow × Bool) × Db). r.0) (sym (with_existing model x db db e).0 ∙ h)))
inserted_row none model j db db' e h =
    insert_parts model j db db' e (unfold persist_prepared submission_tx in rw e at h)

pub inserted :
    (r : Result JobRow) (db db' : Db) (j : JobRow)
    → persist_prepared true db db r ≡ (ok (j, true), db')
    → (r ≡ ok j) × (existing_row j.kind j.idempotency_key db ≡ none) × (db' ≡ insert_job j db)
inserted (err e) db db' j h = unfold persist_prepared in cc
inserted (ok model) db db' j h = inserted_row _ model j db db' refl h

same_ids_sound : (xs ys : List Text) → same_ids xs ys ≡ true → xs ≡ ys
unfolding same_ids
same_ids_sound [] [] h = refl
same_ids_sound [] (y ∷ ys) h = cc
same_ids_sound (x ∷ xs) [] h = cc
same_ids_sound (x ∷ xs) (y ∷ ys) h = ground (arith, text_eq_sound x y, same_ids_sound xs ys)

same_actor_sound : (a b : Option Text) → same_actor a b ≡ true → a ≡ b
unfolding same_actor
same_actor_sound none none h = refl
same_actor_sound none (some b) h = cc
same_actor_sound (some a) none h = cc
same_actor_sound (some a) (some b) h = ap some (text_eq_sound a b h)

same_submission_sound : (x model : JobRow) → same_submission x model ≡ true → SameIntent x model
unfolding same_submission
same_submission_sound x model h = record {
  same_request = text_eq_sound x.request_json model.request_json (ground arith);
  same_scope = same_ids_sound x.scope_site_ids model.scope_site_ids (ground arith);
  same_submitter = same_actor_sound x.actor_user_id model.actor_user_id (ground arith);
}

-- A key that is taken by a job of another request, another site scope or another submitter is
-- refused, and nothing is written.
pub submit_conflict :
    (db : Db) (now : ℕ) (kind title : Text) (encoded : Option Text) (options : SubmitOptions)
    (policy : RecoveryPolicy) (model x : JobRow)
    → prepare_submission now kind title encoded options policy db.next_job ≡ ok model
    → existing_row model.kind model.idempotency_key db ≡ some x
    → ¬ SameIntent x model
    → persist_submission true db db now kind title encoded options policy
      ≡ (err idempotency_conflict, db)
unfolding persist_submission reuse
submit_conflict db now kind title encoded options policy model x ready taken other =
    elim (Bool-cases (same_submission x model)) [
      | inl e ↦ absurd (other (same_submission_sound x model e))
      | inr e ↦ rw ready (
          (with_existing model x db db taken).0
          ∙ ap (λ (b : Bool). ((if b then ok (x, false) else err idempotency_conflict), db)) e)
    ]
