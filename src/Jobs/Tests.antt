-- ===== src/Jobs/Tests.antt =====
-- Transactions of the queue on the sample. Two queued jobs, one of them claimed, and runs of the queue on them.
use nexa_panel.Prelude.{
  ℕ, ◌≡◌, refl, ap, true, false, none, some, [], ◌∷◌, Text, Bytes, arith, codes, trim_space,
  text_eq, text_lt, byte_len, is_space, is_control, has_control,
}
use nexa_panel.Jobs.Model.{
  JobRow, succeeded, failed, job_completed, job_failed, ok, err, recovery_retry, recovery_fail,
  lease_lost, idempotency_conflict, terminal, valid,
}
use nexa_panel.Jobs.Store.{Db, empty, add_event, find_job, has_key}
use nexa_panel.Jobs.Scope.{
  normalize_site_ids, normalize_idempotency_key, collect_site_ids, sort_strings, insert_sorted,
  add_unique, bad_site_id,
}
use nexa_panel.Jobs.Submit.{
  persist_submission, prepare_submission, new_row, insert_job, existing_row, submission_tx, resolve,
}
use nexa_panel.Jobs.Worker.{
  prune_retired, finish_succeeded, finish_failed, update_progress, heartbeat, retired,
  retention_cutoff, succeed_row,
}
use nexa_panel.Jobs.Invariant.{Inv, empty-Inv}
use nexa_panel.Jobs.Transactions.{finish_succeeded-Inv}
use nexa_panel.Jobs.Leases.{stale_worker-refused, lease_holder-finishes}
use nexa_panel.Jobs.Retention.{prune_retired-keeps}
use nexa_panel.Jobs.Idempotency.{SameIntent, submit_conflict}
use nexa_panel.Jobs.Finished.{Ends, event_of, Finished, IsCut, lease_holder-Finished}
use nexa_panel.Jobs.Kept.{SameJob, Stays, here, next}
use nexa_panel.Jobs.Repeated.{submit_later}
use nexa_panel.Jobs.Claim.{Claimed, claim-Claimed}
use nexa_panel.Jobs.History.{Reach, Step, Reach-Inv, KeptOrGone, Step-ended}
use nexa_panel.Jobs.Sample.{
  config, options, plain, first_db, second_db, second_db-Inv, first_db_first, first_row, token,
  claimed_row, claimed_db, claim_runs, claimed_db-Inv, claimed_found, claimed_under, other_token,
}

two_submissions : Reach config second_db
two_submissions =
    Reach.step
      (Reach.step Reach.start (
        Step.submit empty 5 (codes "diag") (codes "Check") (some (codes "{}")) options
          recovery_retry))
      (Step.submit first_db 6 (codes "diag") [] (some (codes "[]")) plain recovery_fail)

Reach-Inv_example : Inv second_db
Reach-Inv_example = Reach-Inv two_submissions

claim-Claimed_example : Claimed config (codes "w1") 10 token second_db claimed_row claimed_db
claim-Claimed_example =
    claim-Claimed config (codes "w1") 10 token second_db claimed_row claimed_db second_db-Inv
      claim_runs

stale_worker-refused_example :
    (update_progress config 12 1 (codes "t0") 40 (codes "half") claimed_db
      ≡ (err lease_lost, claimed_db))
    × (heartbeat config 12 1 (codes "t0") claimed_db ≡ (err lease_lost, claimed_db))
    × (finish_succeeded 12 1 (codes "t0") (codes "half") claimed_db ≡ (err lease_lost, claimed_db))
    × (finish_failed 12 1 (codes "t0") 40 (codes "half") claimed_db ≡ (err lease_lost, claimed_db))
stale_worker-refused_example =
    stale_worker-refused config claimed_db 12 1 (codes "t0") claimed_row claimed_db-Inv
      claimed_found other_token 40 (codes "half")

lease_holder-Finished_example :
    ((row : JobRow) × Ends 1 claimed_db
        (finish_succeeded 12 1 token (codes "{}") claimed_db)
        row
        (event_of 1 claimed_db succeeded 100 job_completed 12)
      × Finished 12 succeeded 100 (some (codes "{}")) claimed_row.failure claimed_row row)
    × ((cut : Bytes) × IsCut (codes "disk full") cut
        × (row : JobRow) × Ends 1 claimed_db
            (finish_failed 12 1 token 0 (codes "disk full") claimed_db)
            row
            (event_of 1 claimed_db failed 0 job_failed 12)
        × Finished 12 failed claimed_row.progress claimed_row.result_json
            (some cut)
            claimed_row
            row)
lease_holder-Finished_example =
    lease_holder-Finished claimed_db 12 1 token claimed_row claimed_db-Inv claimed_found
      claimed_under 0 (codes "{}") (codes "disk full")

-- The first job ends at time 12.
abbrev done_db : Db
done_db = (finish_succeeded 12 1 token (codes "{}") claimed_db).1

abbrev done_row : JobRow
done_row = succeed_row 12 (codes "{}") claimed_row

done_db-Inv : Inv done_db
done_db-Inv = finish_succeeded-Inv 12 1 token claimed_db claimed_db-Inv (codes "{}")

done_found : find_job 1 done_db ≡ some done_row
done_found =
    (lease_holder-finishes claimed_db 12 1 token claimed_row claimed_db-Inv claimed_found
      claimed_under 0 (codes "{}")).1

done_ended : terminal done_row.state ≡ true
unfolding succeed_row terminal
done_ended = refl

Step-ended_example : KeptOrGone 1 done_row (prune_retired config 200 done_db)
Step-ended_example =
    Step-ended {c = config} 1 done_row done_ended done_db-Inv done_found (Step.pruned done_db 200)

first_pruned : find_job 1 (prune_retired config 200 done_db) ≡ none
unfolding retired retention_cutoff succeed_row terminal
first_pruned = (prune_retired-keeps config 200 done_db done_db-Inv refl).0 1 done_row done_found

first_time :
    persist_submission true empty empty 5
      (codes "diag")
      (codes "Check")
      (some (codes "{}"))
      options
      recovery_retry
    ≡ (ok (first_row, true), first_db)
unfolding persist_submission prepare_submission normalize_site_ids collect_site_ids sort_strings
    insert_sorted add_unique bad_site_id normalize_idempotency_key new_row insert_job existing_row
    find_job trim_space text_eq text_lt byte_len is_space is_control has_control valid add_event
    empty has_key submission_tx resolve
first_time = refl

-- After the first submission come a second one, the claim of the first job, and its end.
Stays-done_db : Stays config 1 first_db done_db
Stays-done_db =
    next
      (next
        (next here
          (Step.submit first_db 6 (codes "diag") [] (some (codes "[]")) plain recovery_fail)
          first_row first_db_first)
        (Step.claimed second_db (codes "w1") 10 token claimed_row claimed_db claim_runs) claimed_row
        claimed_found)
      (Step.succeeded claimed_db 12 1 token (codes "{}")) done_row done_found

submit_later_example :
    (x : JobRow) × (find_job 1 done_db ≡ some x)
    × SameJob first_row x
    × (persist_submission true done_db done_db 90
          (codes "diag")
          (codes "Check")
          (some (codes "{}"))
          options
          recovery_retry
        ≡ (ok (x, false), done_db))
    × (persist_submission false empty done_db 90
          (codes "diag")
          (codes "Check")
          (some (codes "{}"))
          options
          recovery_retry
        ≡ (ok (x, false), done_db))
unfolding new_row
submit_later_example =
    submit_later config empty first_db done_db 5 (codes "diag") (codes "Check") (some (codes "{}"))
      options recovery_retry first_row empty-Inv first_time refl Stays-done_db 90 empty

-- The same key with another request.
abbrev other_row : JobRow
other_row =
    new_row 9 (codes "diag") (codes "Check") (codes "[]") (codes "blog" ∷ codes "shop" ∷ [])
      (some (codes "k1")) (some (codes "ada")) recovery_retry 2

other_prepared :
    prepare_submission 9
      (codes "diag")
      (codes "Check")
      (some (codes "[]"))
      options
      recovery_retry
      first_db.next_job
    ≡ ok other_row
unfolding persist_submission prepare_submission normalize_site_ids collect_site_ids sort_strings
    insert_sorted add_unique bad_site_id normalize_idempotency_key new_row insert_job existing_row
    find_job trim_space text_eq text_lt byte_len is_space is_control has_control valid add_event
    empty has_key submission_tx resolve
other_prepared = refl

key_taken : existing_row other_row.kind other_row.idempotency_key first_db ≡ some first_row
unfolding persist_submission prepare_submission normalize_site_ids collect_site_ids sort_strings
    insert_sorted add_unique bad_site_id normalize_idempotency_key new_row insert_job existing_row
    find_job trim_space text_eq text_lt byte_len is_space is_control has_control valid add_event
    empty has_key submission_tx resolve
key_taken = refl

abbrev head_code : Text → ℕ
head_code [] = 0
head_code (c ∷ s) = c

other_request : ¬ SameIntent first_row other_row
unfolding new_row
other_request s = absurd (omega (arith, ap head_code s.same_request))

submit_conflict_example :
    persist_submission true first_db first_db 9
      (codes "diag")
      (codes "Check")
      (some (codes "[]"))
      options
      recovery_retry
    ≡ (err idempotency_conflict, first_db)
submit_conflict_example =
    submit_conflict first_db 9 (codes "diag") (codes "Check") (some (codes "[]")) options
      recovery_retry other_row first_row other_prepared key_taken other_request
