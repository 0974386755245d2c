-- ===== src/Audit/Intact.antt =====
-- What the audit log looks like while it is only recorded to, and that it verifies (chain.go).
use mathlib.Core.List.{append-nil, append_assoc}
use nexa_panel.Prelude.{
  ℕ, suc, ◌≤◌, ◌<◌, ◌≡◌, refl, ap, ◌∙◌, false, some, List, [], ◌∷◌, ◌++◌, Text, arith, is_empty,
  Ascending-append, All,
}
use nexa_panel.Audit.Chain.{
  Outside, EventRow, Entry, Db, recorded, record_event, record_checked, record_encoded,
  record_after, insert_row, new_row, to_micros, chain_hash, chain_fields, chain_genesis, tail_hash,
  last_row,
}
use nexa_panel.Audit.Walk.{IdsBetween}
use nexa_panel.Audit.Verify.{max_id}

abbrev pub Linked : Outside → Text → List EventRow → Type 0
Linked o previous [] = Unit
Linked o previous (row ∷ rows) =
    (row.prev_hash ≡ previous)
    × (row.hash ≡ chain_hash o previous row)
    × (is_empty row.hash ≡ false)
    × Linked o row.hash rows

-- A row from before the chain.
abbrev pub IsOld : ℕ → EventRow → Type 0
IsOld watermark row = (row.hash ≡ []) × (row.id ≤ watermark)

-- Old rows without a hash, then linked rows from the genesis on.
pub record Chained (o : Outside) (watermark : ℕ) (old new : List EventRow) (db : Db) : Type 0 where
  pub marked : db.watermark ≡ some watermark
  pub split : db.rows ≡ old ++ new
  pub old_rows : All (IsOld watermark) old
  pub linked : Linked o (chain_genesis o watermark) new
  pub ids : IdsBetween 1 db.next_id db.rows
  pub above : watermark < db.next_id
  pub top : watermark ≤ max_id db.rows

-- What the recording relies on: no digest is empty, and the column keeps whole microseconds.
pub record Sound (o : Outside) : Type 0 where
  pub digest_nonempty : (t : Text) → is_empty (o.digest t) ≡ false
  pub stored_micros : (t : ℕ) → o.stored (to_micros t) ≡ to_micros t

abbrev pub end_hash : Text → List EventRow → Text
end_hash previous [] = previous
end_hash previous (row ∷ rows) = end_hash row.hash rows

last_row-append : (rows : List EventRow) (row : EventRow) → last_row (rows ++ row ∷ []) ≡ some row
unfolding last_row
last_row-append [] row = refl
last_row-append (r ∷ []) row = refl
last_row-append (r ∷ r' ∷ rows) row = last_row-append (r' ∷ rows) row

pub last_row-skip :
    (old : List EventRow) (row : EventRow) (rows : List EventRow)
    → last_row (old ++ (row ∷ rows)) ≡ last_row (row ∷ rows)
unfolding last_row
last_row-skip [] row rows = refl
last_row-skip (r ∷ []) row rows = refl
last_row-skip (r ∷ r' ∷ old) row rows = last_row-skip (r' ∷ old) row rows

module _ (o : Outside) (watermark : ℕ) where
  -- The last of the rows from before the chain gives the genesis.
  tail_hash-old :
      (old : List EventRow)
      → All (IsOld watermark) old
      → tail_hash o (last_row old) watermark ≡ some (chain_genesis o watermark)
  unfolding tail_hash last_row
  tail_hash-old [] a = refl
  tail_hash-old (row ∷ []) ((e, le), a) = rw e (ground arith)
  tail_hash-old (row ∷ row' ∷ rows) (e, a) = tail_hash-old (row' ∷ rows) a

  tail_hash-Linked :
      (row : EventRow) (rows : List EventRow) (previous : Text)
      → Linked o previous (row ∷ rows)
      → tail_hash o (last_row (row ∷ rows)) watermark ≡ some (end_hash row.hash rows)
  unfolding tail_hash last_row
  tail_hash-Linked row [] previous (p, h, n, l) = rw n refl
  tail_hash-Linked row (row' ∷ rows) previous (p, h, n, l) = tail_hash-Linked row' rows row.hash l

  tail_hash-chained :
      (old new : List EventRow)
      → All (IsOld watermark) old
      → Linked o (chain_genesis o watermark) new
      → tail_hash o (last_row (old ++ new)) watermark
        ≡ some (end_hash (chain_genesis o watermark) new)
  tail_hash-chained old [] a l = rw (append-nil old) (tail_hash-old old a)
  tail_hash-chained old (row ∷ rows) a l =
      rw (last_row-skip old row rows) (tail_hash-Linked row rows _ l)

  Linked-append :
      (previous : Text) (rows : List EventRow) (row : EventRow)
      → Linked o previous rows
      → Linked o (end_hash previous rows) (row ∷ [])
      → Linked o previous (rows ++ row ∷ [])
  Linked-append previous [] row l k = k
  Linked-append previous (r ∷ rows) row (p, h, n, l) k =
      (p, h, n, Linked-append r.hash rows row l k)

-- The row that a recording adds.
abbrev pub added_row : Outside → ℕ → Entry → Text → ℕ → Text → EventRow
added_row o now entry encoded id previous =
    let row = new_row o now entry encoded id previous in
    record row { occurred_at = o.stored row.occurred_at; hash = chain_hash o previous row }

module _ {o : Outside} (sound : Sound o) where
  pub added_row-Linked :
      (now : ℕ) (entry : Entry) (encoded : Text) (id : ℕ) (previous : Text)
      → Linked o previous (added_row o now entry encoded id previous ∷ [])
  unfolding new_row chain_hash chain_fields
  added_row-Linked now entry encoded id previous =
      (refl, rw (sound.stored_micros now) refl, sound.digest_nonempty _, tt)

module _ {o : Outside} {watermark : ℕ} (sound : Sound o) where
  pub appended-Chained :
      (old new : List EventRow) (db : Db) (row : EventRow)
      → Chained o watermark old new db
      → row.id ≡ db.next_id
      → Linked o (end_hash (chain_genesis o watermark) new) (row ∷ [])
      → Chained o watermark old
          (new ++ row ∷ [])
          (record db { rows = db.rows ++ row ∷ []; next_id = suc db.next_id })
  unfolding max_id
  appended-Chained old new db row c at l = record {
    marked = c.marked;
    split = ap (λ t. t ++ row ∷ []) c.split ∙ append_assoc old new (row ∷ []);
    old_rows = c.old_rows;
    linked = Linked-append o watermark (chain_genesis o watermark) new row c.linked l;
    ids = Ascending-append (λ (r : EventRow). r.id) 1 db.next_id db.rows row c.ids at;
    above = omega (arith, c.above);
    top = rw (last_row-append db.rows row) (omega (arith, at, c.above));
  }

  -- An entry with an action, a subject and metadata that can be encoded is recorded, behind the rows
  -- that are there; what they are, no recording changes.
  pub record_event-Chained :
      (old new : List EventRow) (db : Db) (now : ℕ) (entry : Entry) (encoded : Text)
      → Chained o watermark old new db
      → is_empty entry.action ≡ false
      → is_empty entry.subject ≡ false
      → entry.encoded ≡ some encoded
      → (db' : Db) × (row : EventRow) × (record_event o now entry db ≡ recorded db')
        × Chained o watermark old (new ++ row ∷ []) db'
  unfolding record_event record_checked record_encoded record_after insert_row new_row
  record_event-Chained old new db now entry encoded c a b e =
      let previous = end_hash (chain_genesis o watermark) new in
      let row = added_row o now entry encoded db.next_id previous in
      let tail : tail_hash o (last_row db.rows) watermark ≡ some previous =
        ap (λ t. tail_hash o (last_row t) watermark) c.split
        ∙ tail_hash-chained o watermark old new c.old_rows c.linked in
      (
        insert_row o (new_row o now entry encoded db.next_id previous) previous db,
        row,
        rw (a, b, e, c.marked, tail) refl,
        appended-Chained old new db row c refl
            (added_row-Linked sound now entry encoded db.next_id previous),
      )
