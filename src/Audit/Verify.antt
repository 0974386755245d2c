-- ===== src/Audit/Verify.antt =====
-- The verification of the chain (`verify` and its helpers, internal/platform/audit/chain.go).
use nexa_panel.Prelude.{
  ℕ, zero, suc, ◌-◌, Bool, true, false, not, ◌&&◌, ◌==◌, Option, none, some, List, [], ◌∷◌, Text,
  is_empty, if◌then◌else◌, ltb, text_eq, length, take, select, count_where,
}
use nexa_panel.Audit.Chain.{Outside, EventRow, Db, last_row, chain_hash, chain_genesis}

pub data Reason : Type 0 where
  start_missing start_moved hashes_blanked no_hash link_broken contents_changed : Reason

pub record VerifyResult : Type 0 where
  pub intact : Bool
  pub checked : ℕ
  pub unhashed : ℕ
  pub first_broken_id : Option ℕ
  pub reason : Option Reason

abbrev pub verify_batch : ℕ
verify_batch = 500

-- `VerifyResult.broken`
unfoldable pub broken : VerifyResult → ℕ → Reason → VerifyResult
broken result id reason = record result {
  intact = false;
  first_broken_id = some id;
  reason = some reason;
}

unfoldable pub verdict : ℕ → Reason → VerifyResult
verdict unhashed reason = record {
  intact = false;
  checked = 0;
  unhashed = unhashed;
  first_broken_id = none;
  reason = some reason;
}

unfoldable pub begin : VerifyResult
begin = record { intact = true; checked = 0; unhashed = 0; first_broken_id = none; reason = none }

-- The state of the walk: the result so far, the hash that the next link must name, and the last id.
pub record Walk : Type 0 where
  pub result : VerifyResult
  pub previous : Text
  pub cursor : ℕ

pub data Walked : Type 0 where
  stop : VerifyResult → Walked
  go_on : Walk → Walked

abbrev pub is_hashed : EventRow → Bool
is_hashed row = not (is_empty row.hash)

abbrev pub max_id_of : Option EventRow → ℕ
max_id_of none = 0
max_id_of (some row) = row.id

-- `coalesce(max(id), 0)`, of rows in the order of their ids
unfoldable pub max_id : List EventRow → ℕ
unfolding last_row
max_id rows = max_id_of (last_row rows)

unfoldable pub continue : Walked → (Walk → Walked) → Walked
continue (stop result) k = stop result
continue (go_on w) k = k w

unfoldable pub finish : Walked → (Walk → Option VerifyResult) → Option VerifyResult
finish (stop result) k = some result
finish (go_on w) k = k w

-- `id > ?`
unfoldable pub past : ℕ → List EventRow → List EventRow
past cursor rows = select (λ (r : EventRow). ltb cursor r.id) rows

-- One round of the loop, on the rows of one batch: no row ends the walk.
unfoldable pub verify_page :
    (List EventRow → Walk → Walked)
    → (Walk → Option VerifyResult)
    → List EventRow
    → Walk
    → Option VerifyResult
unfolding finish
verify_page check next [] w = some w.result
verify_page check next (row ∷ page) w = finish (check (row ∷ page) w) next

module _ (o : Outside) where
  -- One row of the walk.
  unfoldable pub check_row : ℕ → EventRow → Walk → Walked
  unfolding broken
  check_row watermark row w =
      if is_empty row.hash
      then (if ltb watermark row.id
          then stop (broken w.result row.id no_hash)
          else go_on (record {
            result = record (w.result) { unhashed = suc w.result.unhashed };
            previous = w.previous;
            cursor = row.id;
          }))
      else if not (text_eq row.prev_hash w.previous)
      then stop (broken w.result row.id link_broken)
      else if not (text_eq (chain_hash o w.previous row) row.hash)
      then stop (broken w.result row.id contents_changed)
      else go_on (record {
        result = record (w.result) { checked = suc w.result.checked };
        previous = row.hash;
        cursor = row.id;
      })

  -- The rows of one batch.
  unfoldable pub check_rows : ℕ → List EventRow → Walk → Walked
  unfolding check_row continue
  check_rows watermark [] w = go_on w
  check_rows watermark (row ∷ rows) w =
      continue (check_row watermark row w) (check_rows watermark rows)

  -- The loop over batches of at most `batch` rows past the cursor; `fuel` bounds their number.
  unfoldable pub verify_loop : ℕ → ℕ → ℕ → List EventRow → Walk → Option VerifyResult
  unfolding check_rows finish verify_page past
  verify_loop zero batch watermark rows w = none
  verify_loop (suc fuel) batch watermark rows w =
      verify_page (check_rows watermark) (verify_loop fuel batch watermark rows)
        (take batch (past w.cursor rows)) w

  unfoldable pub start_walk : ℕ → Walk
  unfolding begin chain_genesis
  start_walk watermark = record { result = begin; previous = chain_genesis o watermark; cursor = 0 }

  unfoldable pub verify_from : Option ℕ → List EventRow → Option VerifyResult
  unfolding verdict verify_loop start_walk max_id
  verify_from none rows = some (verdict 0 start_missing)
  verify_from (some watermark) rows =
      let hashed = count_where is_hashed rows in
      if ltb (max_id rows) watermark
      then some (verdict (length rows - hashed) start_moved)
      else if ltb 0 watermark && ltb 0 (length rows) && (hashed == 0)
      then some (verdict (length rows) hashes_blanked)
      else verify_loop (suc (length rows)) verify_batch watermark rows (start_walk watermark)

  -- `Verify`; there is fuel for every batch to hold one row.
  unfoldable pub verify : Db → Option VerifyResult
  unfolding verify_from
  verify db = verify_from db.watermark db.rows
