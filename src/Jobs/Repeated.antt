-- ===== src/Jobs/Repeated.antt =====
-- A submission under an idempotency key, made again while its job is in the table.
use nexa_panel.Prelude.{
  ℕ, suc, ◌≤◌, ◌≡◌, refl, sym, ap, subst, ◌∙◌, Bool, true, false, Option, none, some, List, [], ◌∷◌,
  Text, arith, Bool-cases, inl, inr, some_eq, first, first-append_new, count_where, Ascending,
  Ascending-bound, text_eq_refl,
}
use nexa_panel.Jobs.Model.{JobRow, Config, RecoveryPolicy, Result, ok}
use nexa_panel.Jobs.Store.{Db, add_event, has_id, has_key, key_is, find_job}
use nexa_panel.Jobs.Submit.{
  SubmitOptions, persist_submission, persist_prepared, insert_job, existing_row, prepare_submission,
  new_row,
}
use nexa_panel.Jobs.Invariant.{Inv}
use nexa_panel.Jobs.Preservation.{persist_submission-Inv}
use nexa_panel.Jobs.Kept.{Submission, SameJob, Stays, Stays-Inv, Stays-Stored}
use nexa_panel.Jobs.Idempotency.{
  SameIntent, is_given, reuse_of_same, prepare_again, with_existing, inserted,
}

-- No row of the table has the id that comes next.
first-next_key :
    (lo hi : ℕ) (xs : List JobRow) → Ascending JobRow.id lo hi xs → first (has_id hi) xs ≡ none
first-next_key lo hi [] h = refl
first-next_key lo hi (x ∷ xs) (h, hs) =
    ground
      (arith, Ascending-bound JobRow.id (suc x.id) hi xs hs, first-next_key (suc x.id) hi xs hs)

count_found :
    (p q : JobRow → Bool) (xs : List JobRow) (x : JobRow)
    → first p xs ≡ some x
    → q x ≡ true
    → 1 ≤ count_where q xs
count_found p q [] x found h = cc
count_found p q (y ∷ xs) x found h = elim (Bool-cases (p y)) [
  | inl e ↦ rw (some_eq y x (rw e at found), h) (omega arith)
  | inr e ↦ let le = count_found p q xs x (rw e at found) h in ground (arith, le)
]

-- Where a condition holds of one row at most, a row of which it holds is the first.
first_unique :
    (p q : JobRow → Bool) (xs : List JobRow) (x : JobRow)
    → first p xs ≡ some x
    → q x ≡ true
    → count_where q xs ≤ 1
    → first q xs ≡ some x
first_unique p q [] x found h le = cc
first_unique p q (y ∷ xs) x found h le = elim (Bool-cases (p y)) [
  | inl e ↦ rw (some_eq y x (rw e at found), h) refl
  | inr e ↦ elim (Bool-cases (q y)) [
    | inl e' ↦ absurd (omega (arith, count_found p q xs x (rw e at found) h, (rw e' at le)))
    | inr e' ↦ rw e' (first_unique p q xs x (rw e at found) h (ground arith))
  ]
]

-- The row that holds a key is found under it.
existing_row-keyed :
    (id : ℕ) (db : Db) (x : JobRow)
    → Inv db
    → find_job id db ≡ some x
    → is_given x.idempotency_key ≡ true
    → existing_row x.kind x.idempotency_key db ≡ some x
existing_row-keyed id db x v found given = keyed x.idempotency_key refl given
  where
    keyed :
        (key : Option Text)
        → x.idempotency_key ≡ key
        → is_given key ≡ true
        → existing_row x.kind key db ≡ some x
    keyed none e g = cc
    keyed (some key) e g =
        unfold existing_row find_job in
        first_unique (has_id id) (has_key x.kind key) db.jobs x found
          (unfold has_key key_is in rw e (ground (arith, text_eq_refl x.kind, text_eq_refl key)))
          (v.keys x.kind key)

prepared_id :
    (now : ℕ) (raw title : Text) (encoded : Option Text) (options : SubmitOptions)
    (policy : RecoveryPolicy) (id : ℕ) (model : JobRow)
    → prepare_submission now raw title encoded options policy id ≡ ok model
    → model.id ≡ id
unfolding prepare_submission new_row
prepared_id now raw title encoded options policy id model h = ground arith

find_job-insert_job :
    (db : Db) (j : JobRow) → Inv db → j.id ≡ db.next_job → find_job j.id (insert_job j db) ≡ some j
unfolding find_job insert_job add_event
find_job-insert_job db j v e =
    first-append_new (has_id j.id) db.jobs (j ∷ [])
      (rw e (first-next_key 0 db.next_job db.jobs v.ids))
    ∙ ground arith

-- A row of the job meets a submission of the same intent.
answered :
    (j x model : JobRow) (d seen : Db)
    → Inv d
    → find_job j.id d ≡ some x
    → SameJob j x
    → is_given j.idempotency_key ≡ true
    → SameIntent j model
    → model.kind ≡ j.kind
    → model.idempotency_key ≡ j.idempotency_key
    → (persist_prepared true d d (ok model) ≡ (ok (x, false), d))
      × (persist_prepared false seen d (ok model) ≡ (ok (x, false), d))
answered j x model d seen v found same keyed intent kind_same key_same =
    let same_key : x.idempotency_key ≡ j.idempotency_key = ap Submission.key same in
    let same_kind : x.kind ≡ j.kind = ap Submission.kind same in
    let at : existing_row model.kind model.idempotency_key d ≡ some x =
      rw (kind_same ∙ sym same_kind, key_same ∙ sym same_key)
        (existing_row-keyed j.id d x v found (rw same_key keyed)) in
    let meant : SameIntent x model = record {
      same_request = ap Submission.request same ∙ intent.same_request;
      same_scope = ap Submission.scope same ∙ intent.same_scope;
      same_submitter = ap Submission.submitter same ∙ intent.same_submitter;
    } in
    let (a, b) = with_existing model x d seen at in rw (← reuse_of_same x model meant) (a, b)

module _ (c : Config) (db db' d : Db) (now : ℕ) (kind title : Text) (encoded : Option Text)
    (options : SubmitOptions) (policy : RecoveryPolicy) (j : JobRow) (v : Inv db)
    (first_time : persist_submission true db db now kind title encoded options policy
      ≡ (ok (j, true), db'))
    (keyed : is_given j.idempotency_key ≡ true) (stays : Stays c j.id db' d) where
  after_first : Inv db'
  after_first =
      subst (λ (r : Result (JobRow × Bool) × Db). Inv r.1) first_time
        (persist_submission-Inv true db db now kind title encoded options policy v v)

  queued_first : find_job j.id db' ≡ some j
  unfolding persist_submission
  queued_first =
      let (prepared, unused, written) = inserted _ db db' j first_time in
      rw written (
        find_job-insert_job db j v
          (prepared_id now kind title encoded options policy db.next_job j prepared))

  -- On tables that are well formed, a submission under an idempotency key queued a job; after it come any
  -- transactions of submitters and workers, in any order, after each of which the job is still in the
  -- table. Then the same submission, made again at any time, gives the row that the job has come to, be it
  -- claimed, requeued or ended, and writes nothing: both if the key is seen in the transaction, and if the
  -- transaction, on whatever it saw, lost the race for the key.
  pub submit_later :
      (now' : ℕ) (seen : Db)
      → (x : JobRow) × (find_job j.id d ≡ some x)
        × SameJob j x
        × (persist_submission true d d now' kind title encoded options policy ≡ (ok (x, false), d))
        × (persist_submission false seen d now' kind title encoded options policy
            ≡ (ok (x, false), d))
  unfolding persist_submission
  submit_later now' seen =
      let (prepared, unused, written) = inserted _ db db' j first_time in
      let (x, found, same) = Stays-Stored j after_first queued_first stays in
      let inv = Stays-Inv after_first stays in
      let (model, ready, intent, kind_same, key_same) =
        prepare_again now now' kind title encoded options policy db.next_job d.next_job j
          prepared in
      let (model', ready', intent', kind_same', key_same') =
        prepare_again now now' kind title encoded options policy db.next_job seen.next_job j
          prepared in
      (
        x,
        found,
        same,
        rw ready (answered j x model d seen inv found same keyed intent kind_same key_same).0,
        rw ready' (answered j x model' d seen inv found same keyed intent' kind_same' key_same').1,
      )
