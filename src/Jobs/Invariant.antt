-- ===== src/Jobs/Invariant.antt =====
-- What holds of the two tables between transactions, and that the writes which every operation is
-- made of keep it.
use nexa_panel.Prelude.{
  ℕ, ◌≤◌, ◌<◌, ◌≡◌, refl, Bool, true, false, Option, none, some, List, [], ◌∷◌, Text, arith, All,
  All-append, All-update_where, any, count_where, update_where, Bool-cases, inl, inr, ◌==◌,
  Ascending, Ascending-append, Ascending-update_where, any-update_where, any_of_count,
  count_where-update_where,
}
use nexa_panel.Jobs.Model.{
  State, queued, running, succeeded, failed, JobRow, EventRow, Message, valid, terminal, is_running,
}
use nexa_panel.Jobs.Store.{Db, empty, add_event, update_jobs, has_id, has_key, holds_lease}
use nexa_panel.Jobs.Worker.{with_lease}

abbrev pub is_some {ℓ} : {A : Type ℓ} → Option A → Bool
is_some none = false
is_some (some a) = true

abbrev pub is_failed : State → Bool
is_failed failed = true
is_failed _ = false

abbrev pub is_succeeded : State → Bool
is_succeeded succeeded = true
is_succeeded _ = false

-- One row: it holds a lease exactly while it runs, it is dated exactly when it has ended, and its
-- result, its failure and its progress fit its state.
pub record IsWell (j : JobRow) : Type 0 where
  pub leased : is_some j.lease_token ≡ is_running j.state
  pub owned : is_some j.lease_owner ≡ is_running j.state
  pub expiring : is_some j.lease_expires_at ≡ is_running j.state
  pub dated : is_some j.completed_at ≡ terminal j.state
  pub answered : is_some j.result_json ≡ is_succeeded j.state
  pub blamed : is_some j.failure ≡ is_failed j.state
  pub complete : j.state ≡ succeeded → j.progress ≡ 100
  pub incomplete : is_succeeded j.state ≡ false → j.progress ≤ 99
  pub waiting : j.state ≡ queued → j.started_at ≡ none
  pub begun : j.state ≡ running → is_some j.started_at ≡ true
  pub recoverable : valid j.recovery_policy ≡ true

-- The tables: both keys ascend, no two rows share an idempotency key, and no event is left without
-- its job.
pub record Inv (db : Db) : Type 0 where
  pub rows : All IsWell db.jobs
  pub ids : Ascending JobRow.id 0 db.next_job db.jobs
  pub sequences : Ascending EventRow.sequence 0 db.next_event db.events
  pub keys : (kind key : Text) → count_where (has_key kind key) db.jobs ≤ 1
  pub attached : All (λ (e : EventRow). any (has_id e.job_id) db.jobs ≡ true) db.events

pub empty-Inv : Inv empty
unfolding empty
empty-Inv = record {
  rows = tt;
  ids = omega arith;
  sequences = omega arith;
  keys = λ kind key. omega arith;
  attached = tt;
}

-- A rewrite of rows that leaves the keys of each row alone.
pub record KeepsKeys (f : JobRow → JobRow) : Type 0 where
  pub same_id : (j : JobRow) → (f j).id ≡ j.id
  pub same_kind : (j : JobRow) → (f j).kind ≡ j.kind
  pub same_key : (j : JobRow) → (f j).idempotency_key ≡ j.idempotency_key

pub All-rewrite :
    (jobs jobs' : List JobRow) (events : List EventRow)
    → ((id : ℕ) → any (has_id id) jobs ≡ true → any (has_id id) jobs' ≡ true)
    → All (λ (e : EventRow). any (has_id e.job_id) jobs ≡ true) events
    → All (λ (e : EventRow). any (has_id e.job_id) jobs' ≡ true) events
All-rewrite jobs jobs' [] h a = tt
All-rewrite jobs jobs' (e ∷ events) h (a, as') = (h e.job_id a, All-rewrite jobs jobs' events h as')

module _ (p : JobRow → Bool) (f : JobRow → JobRow) (k : KeepsKeys f)
    (keep : (j : JobRow) → p j ≡ true → IsWell j → IsWell (f j)) where
  pub update_jobs-Inv : (db : Db) → Inv db → Inv (update_jobs p f db).1
  unfolding update_jobs has_key
  update_jobs-Inv db v = record {
    rows = All-update_where IsWell p f db.jobs keep v.rows;
    ids = Ascending-update_where JobRow.id p f 0 db.next_job db.jobs k.same_id v.ids;
    sequences = v.sequences;
    keys = λ kind key.
        rw
          (count_where-update_where (has_key kind key) p f db.jobs
            (λ j. rw (k.same_kind j, k.same_key j)))
          (v.keys kind key);
    attached =
        All-rewrite db.jobs (update_where p f db.jobs) db.events
          (λ id h. rw (any-update_where (has_id id) p f db.jobs (λ j. rw (k.same_id j))) h)
          v.attached;
  }

pub add_event-Inv :
    (id : ℕ) (s : State) (n : ℕ) (m : Message) (now : ℕ) (db : Db)
    → any (has_id id) db.jobs ≡ true
    → Inv db
    → Inv (add_event id s n m now db)
unfolding add_event
add_event-Inv id s n m now db h v = record {
  rows = v.rows;
  ids = v.ids;
  sequences = Ascending-append EventRow.sequence 0 db.next_event db.events _ v.sequences refl;
  keys = v.keys;
  attached =
      All-append (λ (e : EventRow). any (has_id e.job_id) db.jobs ≡ true) db.events _ v.attached
        (h, tt);
}

-- After a write that changed a row of this id, a row of this id is there.
pub any_id-update :
    (id : ℕ) (p : JobRow → Bool) (f : JobRow → JobRow) (db : Db)
    → KeepsKeys f
    → ((j : JobRow) → p j ≡ true → has_id id j ≡ true)
    → 0 < (update_jobs p f db).0
    → any (has_id id) (update_jobs p f db).1.jobs ≡ true
unfolding update_jobs
any_id-update id p f db k named h =
    rw (any-update_where (has_id id) p f db.jobs (λ j. rw (k.same_id j)))
      (any_of_count p (has_id id) db.jobs named h)

-- A write under a lease keeps the invariant if its rewrite of the row does.
pub with_lease-Inv :
    (id : ℕ) (token : Text) (f : JobRow → JobRow) (after : Db → Db) (db : Db)
    → KeepsKeys f
    → ((j : JobRow) → holds_lease id token j ≡ true → IsWell j → IsWell (f j))
    → ((d : Db) → any (has_id id) d.jobs ≡ true → Inv d → Inv (after d))
    → Inv db
    → Inv (with_lease id token f after db).1
unfolding with_lease
with_lease-Inv id token f after db k keep rest v =
    elim (Bool-cases ((update_jobs (holds_lease id token) f db).0 == 1)) [
      | inl e ↦ rw e (
          rest _
            (any_id-update id (holds_lease id token) f db k
              (λ j h. unfold holds_lease in ground arith) (ground arith))
            (update_jobs-Inv (holds_lease id token) f k keep db v))
      | inr e ↦ rw e v
    ]
