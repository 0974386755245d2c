-- ===== src/Audit/Tests.antt =====
-- Runs of the audit log, on one row from before the chain and two recorded ones. The digest of these
-- runs only marks its input.
use nexa_panel.Prelude.{
  ℕ, ◌≡◌, ◌≢◌, refl, ap, none, some, [], ◌∷◌, ◌++◌, codes, arith, inr, text_eq, byte_len,
}
use nexa_panel.Audit.Encoding.{encode_fields, encode_fields_injective, itoa, digits, rest_codes}
use nexa_panel.Audit.Chain.{
  Outside, EventRow, Entry, Db, recorded, record_event, record_checked, record_encoded,
  record_after, insert_row, new_row, to_micros, chain_hash, chain_fields, chain_genesis, tail_hash,
  last_row, actor_field,
}
use nexa_panel.Audit.Verify.{
  verify, verify_loop, check_rows, start_walk, broken, contents_changed, link_broken, max_id,
}
use nexa_panel.Audit.Walk.{verdict_of, loop_walk, past-all}
use nexa_panel.Audit.Intact.{Chained, Sound, added_row, appended-Chained, added_row-Linked}
use nexa_panel.Audit.Verified.{clean_result}
use nexa_panel.Audit.Log.{Log, verify-Log}
use nexa_panel.Audit.Tamper.{SameContents, NoCollision, edited-found, deleted-found}

abbrev marked : Outside
marked = record { digest = λ t. 104 ∷ t; format_time = itoa; number = itoa; stored = to_micros }

micros_kept : (t : ℕ) → to_micros (to_micros t) ≡ to_micros t
unfolding to_micros
micros_kept t = omega arith

marked-Sound : Sound marked
marked-Sound = record { digest_nonempty = λ t. refl; stored_micros = micros_kept }

abbrev old_row : EventRow
old_row = record {
  id = 1;
  occurred_at = 0;
  actor_user_id = none;
  action = codes "identity.bootstrap";
  subject = codes "user:1";
  remote_address = [];
  metadata = codes "{}";
  prev_hash = [];
  hash = [];
}

abbrev start : Db
start = record { rows = old_row ∷ []; watermark = some 1; next_id = 2 }

start-Chained : Chained marked 1 start.rows [] start
unfolding max_id last_row
start-Chained = record {
  marked = refl;
  split = refl;
  old_rows = ((refl, omega arith), tt);
  linked = tt;
  ids = (omega arith, omega arith);
  above = omega arith;
  top = omega arith;
}

abbrev login : Entry
login = record {
  actor_user_id = some (codes "1");
  action = codes "identity.login";
  subject = codes "user:1";
  remote_address = codes "10.0.0.1";
  encoded = some (codes "{}");
}

abbrev first_row : EventRow
first_row = added_row marked 1500 login (codes "{}") 2 (chain_genesis marked 1)

abbrev second_row : EventRow
second_row = added_row marked 2500 login (codes "{}") 3 first_row.hash

abbrev first_db : Db
first_db = record start { rows = start.rows ++ first_row ∷ []; next_id = 3 }

abbrev second_db : Db
second_db = record start { rows = first_db.rows ++ second_row ∷ []; next_id = 4 }

first_db-Chained : Chained marked 1 start.rows (first_row ∷ []) first_db
unfolding new_row
first_db-Chained =
    appended-Chained marked-Sound start.rows [] start first_row start-Chained refl
      (added_row-Linked marked-Sound 1500 login (codes "{}") 2 (chain_genesis marked 1))

second_db-Chained : Chained marked 1 start.rows (first_row ∷ second_row ∷ []) second_db
unfolding new_row
second_db-Chained =
    appended-Chained marked-Sound start.rows (first_row ∷ []) first_db second_row first_db-Chained
      refl (added_row-Linked marked-Sound 2500 login (codes "{}") 3 first_row.hash)

first_recorded : record_event marked 1500 login start ≡ recorded first_db
unfolding record_event record_checked record_encoded record_after insert_row new_row tail_hash
    last_row
first_recorded = refl

second_recorded : record_event marked 2500 login first_db ≡ recorded second_db
unfolding record_event record_checked record_encoded record_after insert_row new_row tail_hash
    last_row chain_hash
second_recorded = refl

verify-Log_example : verify marked second_db ≡ some (clean_result 2 1)
verify-Log_example =
    verify-Log marked-Sound start start-Chained
      (Log.added 2500 login (Log.added 1500 login Log.opened first_recorded) second_recorded)
      (inr (omega arith))

-- Two batches of one row, and a last one that is empty.
loop_walk_example :
    verify_loop marked 4 1 1 second_db.rows (start_walk marked 1)
    ≡ verdict_of (check_rows marked 1 second_db.rows (start_walk marked 1))
unfolding new_row start_walk
loop_walk_example =
    loop_walk marked 1 4 0 1 4 second_db.rows second_db.rows (start_walk marked 1)
      (past-all 0 1 4 second_db.rows (omega arith) second_db-Chained.ids) (omega arith)
      second_db-Chained.ids (omega arith)

encode_fields_injective_example : codes "a:" ∷ [] ≡ codes "a:" ∷ []
encode_fields_injective_example =
    encode_fields_injective (codes "a:" ∷ []) (codes "a:" ∷ []) refl refl

-- An edited action.
abbrev edited_row : EventRow
edited_row = record first_row { action = codes "identity.logout" }

abbrev edited_db : Db
edited_db = record second_db { rows = old_row ∷ edited_row ∷ second_row ∷ [] }

first_not_edited : ¬ SameContents marked first_row edited_row
unfolding new_row text_eq
first_not_edited same = cc

edit_seen : NoCollision marked first_row.prev_hash first_row edited_row
unfolding chain_hash
edit_seen = ap rest_codes

edited-found_example : verify marked edited_db ≡ some (broken (clean_result 0 1) 2 contents_changed)
unfolding new_row
edited-found_example =
    edited-found marked 1 start.rows [] first_row second_db (second_row ∷ []) edited_row
      second_db-Chained refl refl refl first_not_edited edit_seen

first_moves : first_row.hash ≢ first_row.prev_hash
unfolding new_row chain_hash chain_fields chain_genesis encode_fields actor_field itoa digits
    to_micros byte_len
first_moves e = omega (arith, ap byte_len e)

deleted-found_example :
    verify marked (record second_db { rows = old_row ∷ second_row ∷ [] })
    ≡ some (broken (clean_result 0 1) 3 link_broken)
unfolding new_row
deleted-found_example =
    deleted-found marked 1 start.rows [] first_row second_db second_row [] second_db-Chained
      first_moves
