-- ===== src/Audit/Chain.antt =====
-- The audit table and the recording of an event (internal/platform/audit/audit.go and chain.go). Rows
-- stand in the order of their ids, which the table hands out in ascending order. Times are
-- nanoseconds.
use nexa_panel.Prelude.{
  ℕ, suc, ◌*◌, ◌/◌, ◌||◌, Option, none, some, List, [], ◌∷◌, ◌++◌, Text, codes, is_empty,
  if◌then◌else◌, ltb,
}
use nexa_panel.Audit.Encoding.{encode_fields}

pub record EventRow : Type 0 where
  pub id : ℕ
  pub occurred_at : ℕ
  pub actor_user_id : Option Text
  pub action : Text
  pub subject : Text
  pub remote_address : Text
  pub metadata : Text
  pub prev_hash : Text
  pub hash : Text

-- What a caller hands over; the encoding of its metadata is `none` where that fails, and that of an
-- empty object where there is none.
pub record Entry : Type 0 where
  pub actor_user_id : Option Text
  pub action : Text
  pub subject : Text
  pub remote_address : Text
  pub encoded : Option Text

-- `watermark` is the one row of `audit_chain_state`, if it is there.
pub record Db : Type 0 where
  pub rows : List EventRow
  pub watermark : Option ℕ
  pub next_id : ℕ

pub data RecordError : Type 0 where
  action_required encode_failed chain_start_missing chain_blanked : RecordError

pub data Recorded : Type 0 where
  recorded : Db → Recorded
  refused : RecordError → Recorded

-- `actorField`
unfoldable pub actor_field : Option Text → Text
actor_field none = codes "-"
actor_field (some actor) = codes "u:" ++ actor

-- `Truncate(time.Microsecond)`
unfoldable pub to_micros : ℕ → ℕ
to_micros t = t / 1000 * 1000

unfoldable pub last_row : List EventRow → Option EventRow
last_row [] = none
last_row (row ∷ []) = some row
last_row (row ∷ row' ∷ rows) = last_row (row' ∷ rows)

-- The digest, SHA-256 in hexadecimal; the text of a time and of a number; and the time that the
-- column gives back for one that is written to it.
pub record Outside : Type 0 where
  pub digest : Text → Text
  pub format_time : ℕ → Text
  pub number : ℕ → Text
  pub stored : ℕ → ℕ

module _ (o : Outside) where
  unfoldable pub chain_fields : Text → EventRow → List Text
  unfolding actor_field
  chain_fields previous row =
      previous
      ∷ o.format_time row.occurred_at
      ∷ actor_field row.actor_user_id
      ∷ row.action
      ∷ row.subject
      ∷ row.remote_address
      ∷ row.metadata
      ∷ []

  -- `chainHash`
  unfoldable pub chain_hash : Text → EventRow → Text
  unfolding chain_fields
  chain_hash previous row = o.digest (encode_fields (chain_fields previous row))

  -- `chainGenesis`
  unfoldable pub chain_genesis : ℕ → Text
  chain_genesis watermark = o.digest (codes "nexa-audit-chain-v1:" ++ o.number watermark)

  -- `tailHash`
  unfoldable pub tail_hash : Option EventRow → ℕ → Option Text
  unfolding chain_genesis
  tail_hash none watermark = some (chain_genesis watermark)
  tail_hash (some tail) watermark =
      if is_empty tail.hash
      then (if ltb watermark tail.id then none else some (chain_genesis watermark))
      else some tail.hash

  -- The row under a hash that is known; its id is handed out by the table.
  unfoldable pub new_row : ℕ → Entry → Text → ℕ → Text → EventRow
  unfolding to_micros
  new_row now entry encoded id previous = record {
    id = id;
    occurred_at = to_micros now;
    actor_user_id = entry.actor_user_id;
    action = entry.action;
    subject = entry.subject;
    remote_address = entry.remote_address;
    metadata = encoded;
    prev_hash = previous;
    hash = [];
  }

  -- The insertion of a row, with its hash taken before its time goes through the column.
  unfoldable pub insert_row : EventRow → Text → Db → Db
  unfolding chain_hash
  insert_row row previous db = record db {
    rows =
        db.rows
        ++ (record row { occurred_at = o.stored row.occurred_at; hash = chain_hash previous row }
            ∷ []);
    next_id = suc db.next_id;
  }

  unfoldable pub record_after : ℕ → Entry → Text → Option Text → Db → Recorded
  unfolding new_row insert_row
  record_after now entry encoded none db = refused chain_blanked
  record_after now entry encoded (some previous) db =
      recorded (insert_row (new_row now entry encoded db.next_id previous) previous db)

  unfoldable pub record_encoded : ℕ → Entry → Text → Option ℕ → Db → Recorded
  unfolding record_after tail_hash last_row
  record_encoded now entry encoded none db = refused chain_start_missing
  record_encoded now entry encoded (some watermark) db =
      record_after now entry encoded (tail_hash (last_row db.rows) watermark) db

  unfoldable pub record_checked : ℕ → Entry → Option Text → Db → Recorded
  unfolding record_encoded
  record_checked now entry none db = refused encode_failed
  record_checked now entry (some encoded) db = record_encoded now entry encoded db.watermark db

  -- `Record`
  unfoldable pub record_event : ℕ → Entry → Db → Recorded
  unfolding record_checked
  record_event now entry db =
      if is_empty entry.action || is_empty entry.subject
      then refused action_required
      else record_checked now entry entry.encoded db
