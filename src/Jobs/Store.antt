-- ===== src/Jobs/Store.antt =====
-- The tables `jobs` and `job_events`, with the writes that every operation of the queue is made of.
-- Rows stand in the order of their keys, as both keys are handed out in ascending order.
use nexa_panel.Prelude.{
  ℕ, suc, Bool, true, false, ◌&&◌, Option, none, some, List, [], ◌∷◌, ◌++◌, Text, ◌==◌, text_eq,
  update_where, count_where, first, ◌≡◌, arith,
}
use nexa_panel.Jobs.Model.{State, JobRow, EventRow, Message, is_running}

pub record Db : Type 0 where
  pub jobs : List JobRow
  pub events : List EventRow
  pub next_job : ℕ
  pub next_event : ℕ

unfoldable pub empty : Db
empty = record { jobs = []; events = []; next_job = 1; next_event = 1 }

-- `tx.NewInsert().Model(event)`
unfoldable pub add_event : ℕ → State → ℕ → Message → ℕ → Db → Db
add_event job_id state progress message now db = record db {
  events =
      db.events
      ++ record {
        sequence = db.next_event;
        job_id = job_id;
        state = state;
        progress = progress;
        message = message;
        occurred_at = now;
      }
        ∷ [];
  next_event = suc db.next_event;
}

-- An update of the rows that meet a condition, with the number of rows it changed.
unfoldable pub update_jobs : (JobRow → Bool) → (JobRow → JobRow) → Db → ℕ × Db
update_jobs p f db = (count_where p db.jobs, record db { jobs = update_where p f db.jobs })

abbrev pub has_id : ℕ → JobRow → Bool
has_id id j = j.id == id

-- `lease_token = ?` is false of a row without a token.
unfoldable pub token_is : Text → Option Text → Bool
token_is token none = false
token_is token (some t) = text_eq t token

-- `id = ? AND state = 'running' AND lease_token = ?`
abbrev pub under_token : Text → JobRow → Bool
under_token token j = is_running j.state && token_is token j.lease_token

unfoldable pub holds_lease : ℕ → Text → JobRow → Bool
unfolding token_is
holds_lease id token j = has_id id j && under_token token j

unfoldable pub key_is : Text → Option Text → Bool
key_is key none = false
key_is key (some k) = text_eq k key

-- `kind = ? AND idempotency_key = ?`
unfoldable pub has_key : Text → Text → JobRow → Bool
unfolding key_is
has_key kind key j = text_eq j.kind kind && key_is key j.idempotency_key

-- The row of `Get`: `id = ?`.
unfoldable pub find_job : ℕ → Db → Option JobRow
find_job id db = first (has_id id) db.jobs

pub has_key_parts :
    (kind key : Text) (j : JobRow)
    → has_key kind key j ≡ true
    → (text_eq j.kind kind ≡ true) × (key_is key j.idempotency_key ≡ true)
unfolding has_key
has_key_parts kind key j h = ground arith
