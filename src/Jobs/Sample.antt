-- ===== src/Jobs/Sample.antt =====
-- Sample data: two queued jobs, one of them claimed.
use nexa_panel.Prelude.{
  ◌≡◌, refl, true, false, Option, none, some, [], ◌∷◌, Text, codes, pos, trim_space, text_eq,
  text_lt, byte_len, is_space, is_control, has_control,
}
use nexa_panel.Jobs.Model.{JobRow, Config, recovery_retry, recovery_fail, valid, add_duration}
use nexa_panel.Jobs.Store.{
  Db, empty, add_event, update_jobs, find_job, has_key, under_token, token_is,
}
use nexa_panel.Jobs.Scope.{
  normalize_site_ids, normalize_idempotency_key, collect_site_ids, sort_strings, insert_sorted,
  add_unique, bad_site_id,
}
use nexa_panel.Jobs.Submit.{
  SubmitOptions, persist_submission, prepare_submission, new_row, insert_job, existing_row,
  submission_tx, resolve,
}
use nexa_panel.Jobs.Worker.{claim, lease_to}
use nexa_panel.Jobs.Invariant.{Inv, empty-Inv}
use nexa_panel.Jobs.Preservation.{persist_submission-Inv}
use nexa_panel.Jobs.Transactions.{claim-Inv}

abbrev pub config : Config
config = record {
  poll_interval = pos 1;
  lease_duration = pos 30;
  retention_period = pos 100;
  prune_interval = pos 10;
}

abbrev pub options : SubmitOptions
options = record {
  actor_user_id = some (codes "ada");
  site_ids = codes "shop" ∷ codes " blog " ∷ codes "shop" ∷ [];
  idempotency_key = codes "k1";
}

abbrev pub plain : SubmitOptions
plain = record { actor_user_id = none; site_ids = []; idempotency_key = [] }

-- The first job is queued at time 5, the second at time 6.
abbrev pub first_db : Db
first_db =
    (persist_submission true empty empty 5 (codes "diag") (codes "Check") (some (codes "{}"))
      options recovery_retry).1

abbrev pub second_db : Db
second_db =
    (persist_submission true first_db first_db 6 (codes "diag") [] (some (codes "[]")) plain
      recovery_fail).1

pub first_db-Inv : Inv first_db
first_db-Inv =
    persist_submission-Inv true empty empty 5 _ _ _ options recovery_retry empty-Inv empty-Inv

pub second_db-Inv : Inv second_db
second_db-Inv =
    persist_submission-Inv true first_db first_db 6 _ _ _ plain recovery_fail first_db-Inv
      first_db-Inv

-- The row of the first job.
abbrev pub first_row : JobRow
first_row =
    new_row 5 (codes "diag") (codes "Check") (codes "{}") (codes "blog" ∷ codes "shop" ∷ [])
      (some (codes "k1")) (some (codes "ada")) recovery_retry 1

pub first_db_first : find_job 1 second_db ≡ some first_row
unfolding persist_submission prepare_submission normalize_site_ids collect_site_ids sort_strings
    insert_sorted add_unique bad_site_id normalize_idempotency_key new_row insert_job existing_row
    find_job trim_space text_eq text_lt byte_len is_space is_control has_control valid add_event
    empty has_key submission_tx resolve
first_db_first = refl

abbrev pub token : Text
token = codes "t1"

abbrev pub db_after : Option (JobRow × Db) → Db
db_after none = empty
db_after (some (model, db)) = db

-- The first job is claimed at time 10.
abbrev pub claimed_row : JobRow
claimed_row = lease_to config (codes "w1") 10 token first_row

abbrev pub claimed_db : Db
claimed_db = db_after (claim config (codes "w1") 10 token second_db)

pub claim_runs : claim config (codes "w1") 10 token second_db ≡ some (claimed_row, claimed_db)
unfolding persist_submission prepare_submission normalize_site_ids collect_site_ids sort_strings
    insert_sorted add_unique bad_site_id normalize_idempotency_key new_row insert_job existing_row
    find_job trim_space text_eq text_lt byte_len is_space is_control has_control valid add_event
    empty has_key submission_tx resolve claim lease_to update_jobs add_duration
claim_runs = refl

pub claimed_db-Inv : Inv claimed_db
claimed_db-Inv = claim-Inv config (codes "w1") 10 token second_db claim_runs second_db-Inv

pub claimed_found : find_job 1 claimed_db ≡ some claimed_row
unfolding persist_submission prepare_submission normalize_site_ids collect_site_ids sort_strings
    insert_sorted add_unique bad_site_id normalize_idempotency_key new_row insert_job existing_row
    find_job trim_space text_eq text_lt byte_len is_space is_control has_control valid add_event
    empty has_key submission_tx resolve claim lease_to update_jobs add_duration
claimed_found = refl

pub claimed_under : under_token token claimed_row ≡ true
unfolding lease_to token_is text_eq
claimed_under = refl

pub other_token : under_token (codes "t0") claimed_row ≡ false
unfolding lease_to token_is text_eq
other_token = refl
