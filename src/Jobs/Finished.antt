-- ===== src/Jobs/Finished.antt =====
-- What the worker that holds the lease of a job leaves when it ends it (worker.go: finishSucceeded and
-- finishFailed).
use nexa_panel.Prelude.{
  ℕ, zero, suc, true, ◌≤◌, ◌≡◌, refl, ap, ◌∙◌, arith, ◌⊎◌, inl, inr, Option, none, some, [], ◌∷◌,
  ◌++◌, Text, Bytes, length, take,
}
use nexa_panel.Jobs.Model.{
  State, JobRow, EventRow, Message, Result, ok, succeeded, failed, job_completed, job_failed,
}
use nexa_panel.Jobs.Store.{Db, add_event, update_jobs, find_job, under_token}
use nexa_panel.Jobs.Worker.{
  with_lease, finish_succeeded, finish_failed, succeed_row, fail_row, cut_message,
}
use nexa_panel.Jobs.Invariant.{Inv, KeepsKeys}
use nexa_panel.Jobs.Transactions.{succeed_row-KeepsKeys, fail_row-KeepsKeys}
use nexa_panel.Jobs.Leases.{with_lease-held, find_job-add_event}

-- The row `j'` is `j` ended in a state at a time, with a progress, a result and a failure, and without a
-- lease; nothing else of it has changed.
pub record Finished (now : ℕ) (state : State) (progress : ℕ) (result : Option Text)
    (failure : Option Bytes) (j j' : JobRow) : Type 0 where
  pub in_state : j'.state ≡ state
  pub at_progress : j'.progress ≡ progress
  pub with_result : j'.result_json ≡ result
  pub with_failure : j'.failure ≡ failure
  pub updated : j'.updated_at ≡ now
  pub completed : j'.completed_at ≡ some now
  pub without_owner : j'.lease_owner ≡ none
  pub without_token : j'.lease_token ≡ none
  pub without_expiry : j'.lease_expires_at ≡ none
  pub otherwise_same :
      record j' {
        state = j.state;
        progress = j.progress;
        result_json = j.result_json;
        failure = j.failure;
        updated_at = j.updated_at;
        completed_at = j.completed_at;
        lease_owner = j.lease_owner;
        lease_token = j.lease_token;
        lease_expires_at = j.lease_expires_at;
      }
      ≡ j

-- All of a message, if it has at most 500 bytes, and else its first 500.
pub record IsCut (message cut : Bytes) : Type 0 where
  pub rest : Bytes
  pub made_of : message ≡ cut ++ rest
  pub bounded : length cut ≤ 500
  pub full : (rest ≡ []) ⊎ (length cut ≡ 500)

take_parts :
    (n : ℕ) (xs : Bytes)
    → (rest : Bytes) × (xs ≡ take n xs ++ rest)
      × (length (take n xs) ≤ n)
      × ((rest ≡ []) ⊎ (length (take n xs) ≡ n))
take_parts zero xs = (xs, refl, omega arith, inr refl)
take_parts (suc n) [] = ([], refl, omega arith, inl refl)
take_parts (suc n) (x ∷ xs) =
    let (rest, made, le, full) = take_parts n xs in
    (
      rest,
      ap (λ ys. x ∷ ys) made,
      omega (arith, le),
      elim full [ inl e ↦ inl e | inr e ↦ inr (ap suc e) ],
    )

cut_message-IsCut : (message : Bytes) → IsCut message (cut_message message)
unfolding cut_message
cut_message-IsCut message =
    let (rest, made, le, full) = take_parts 500 message in
    record { rest = rest; made_of = made; bounded = le; full = full }

-- What a transaction answers and leaves: the row of the job, and one more event.
pub record Ends (id : ℕ) (db : Db) (r : Result (Unit {0}) × Db) (row : JobRow) (event : EventRow)
    : Type 0 where
  pub accepted : r.0 ≡ ok tt
  pub stored : find_job id r.1 ≡ some row
  pub recorded : r.1.events ≡ db.events ++ event ∷ []

abbrev pub event_of : ℕ → Db → State → ℕ → Message → ℕ → EventRow
event_of id db state progress message now = record {
  sequence = db.next_event;
  job_id = id;
  state = state;
  progress = progress;
  message = message;
  occurred_at = now;
}

succeed_row-Finished :
    (now : ℕ) (text : Text) (j : JobRow)
    → Finished now succeeded 100 (some text) j.failure j (succeed_row now text j)
unfolding succeed_row
succeed_row-Finished now text j = record {
  in_state = refl;
  at_progress = refl;
  with_result = refl;
  with_failure = refl;
  updated = refl;
  completed = refl;
  without_owner = refl;
  without_token = refl;
  without_expiry = refl;
  otherwise_same = refl;
}

fail_row-Finished :
    (now : ℕ) (message : Bytes) (j : JobRow)
    → Finished now failed j.progress j.result_json (some message) j (fail_row now message j)
unfolding fail_row
fail_row-Finished now message j = record {
  in_state = refl;
  at_progress = refl;
  with_result = refl;
  with_failure = refl;
  updated = refl;
  completed = refl;
  without_owner = refl;
  without_token = refl;
  without_expiry = refl;
  otherwise_same = refl;
}

module _ (db : Db) (now id : ℕ) (token : Text) (j : JobRow) (v : Inv db)
    (found : find_job id db ≡ some j) (held : under_token token j ≡ true) where
  with_lease-Ends :
      (f : JobRow → JobRow) (state : State) (progress : ℕ) (message : Message)
      → KeepsKeys f
      → Ends id db
          (with_lease id token f (add_event id state progress message now) db)
          (f j)
          (event_of id db state progress message now)
  unfolding add_event update_jobs
  with_lease-Ends f state progress message keeps =
      let (e, stored) =
        with_lease-held db v id j found token f (add_event id state progress message now) keeps
          held in
      record {
        accepted = ap (λ (r : Result (Unit {0}) × Db). r.0) e;
        stored =
            ap (λ (r : Result (Unit {0}) × Db). find_job id r.1) e
            ∙ (find_job-add_event id id state progress message now _ ∙ stored);
        recorded = ap (λ (r : Result (Unit {0}) × Db). r.1.events) e;
      }

  -- On tables that are well formed, the worker that holds the lease ends its job: its write is accepted,
  -- and the stored row is that of the job, succeeded at progress 100 with the result, or failed at the
  -- progress it had with the first 500 bytes of the failure, all of it where there are no more; the row is
  -- dated by the time of the write, its lease is given up, everything else of it is as before, and one
  -- event of the new state is added to the events that were there.
  pub lease_holder-Finished :
      (progress : ℕ) (text : Text) (failure : Bytes)
      → ((row : JobRow) × Ends id db
            (finish_succeeded now id token text db)
            row
            (event_of id db succeeded 100 job_completed now)
          × Finished now succeeded 100 (some text) j.failure j row)
        × ((cut : Bytes) × IsCut failure cut
            × (row : JobRow) × Ends id db
                (finish_failed now id token progress failure db)
                row
                (event_of id db failed progress job_failed now)
            × Finished now failed j.progress j.result_json (some cut) j row)
  unfolding finish_succeeded finish_failed
  lease_holder-Finished progress text failure = (
    (
      succeed_row now text j,
      with_lease-Ends (succeed_row now text) succeeded 100 job_completed
          (succeed_row-KeepsKeys now text),
      succeed_row-Finished now text j,
    ),
    (
      cut_message failure,
      cut_message-IsCut failure,
      fail_row now (cut_message failure) j,
      with_lease-Ends (fail_row now (cut_message failure)) failed progress job_failed
          (fail_row-KeepsKeys now (cut_message failure)),
      fail_row-Finished now (cut_message failure) j,
    ),
  )
