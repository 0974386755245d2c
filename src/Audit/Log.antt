-- ===== src/Audit/Log.antt =====
-- The log as the panel writes it: any run of recordings on a database as the upgrade leaves it.
use nexa_panel.Prelude.{
  ℕ, suc, ◌<◌, ◌≡◌, refl, subst, ap, sym, ◌∙◌, some, List, [], ◌∷◌, ◌++◌, arith, Bool-cases,
  Option-cases, inl, inr, ◌⊎◌, is_empty, length, length-append,
}
use nexa_panel.Audit.Chain.{
  Outside, EventRow, Entry, Db, Recorded, recorded, refused, record_event, record_checked,
}
use nexa_panel.Audit.Verify.{verify}
use nexa_panel.Audit.Intact.{Chained, Sound, record_event-Chained}
use nexa_panel.Audit.Verified.{clean_result, verify-Chained}

-- `Log o start n db`: `n` events were recorded since `start`; refused entries leave no trace.
pub data Log (o : Outside) (start : Db) : ℕ → Db → Type 0 where
  opened : Log o start 0 start
  added :
      {n : ℕ} {db db' : Db} (now : ℕ) (entry : Entry)
      → Log o start n db
      → record_event o now entry db ≡ recorded db'
      → Log o start (suc n) db'

abbrev db_of : Db → Recorded → Db
db_of d (recorded db) = db
db_of d (refused e) = d

module _ {o : Outside} {watermark : ℕ} (sound : Sound o) where
  recorded_once :
      (old new : List EventRow) (db db' : Db) (now : ℕ) (entry : Entry)
      → Chained o watermark old new db
      → record_event o now entry db ≡ recorded db'
      → (row : EventRow) × Chained o watermark old (new ++ row ∷ []) db'
  unfolding record_event record_checked
  recorded_once old new db db' now entry c e = elim (Bool-cases (is_empty entry.action)) [
    | inl a ↦ absurd (ground arith)
    | inr a ↦ elim (Bool-cases (is_empty entry.subject)) [
      | inl b ↦ absurd (ground arith)
      | inr b ↦ elim (Option-cases entry.encoded) [
        | inl n ↦ absurd (ground arith)
        | inr (text, f) ↦
            let (db'', row, told, c') =
              record_event-Chained sound old new db now entry text c a b f in
            (
              row,
              subst (λ d. Chained o watermark old (new ++ row ∷ []) d)
                  (ap (db_of db) (sym told ∙ e)) c',
            )
      ]
    ]
  ]

  logged :
      (start : Db) {n : ℕ} {db : Db}
      → Chained o watermark start.rows [] start
      → Log o start n db
      → (new : List EventRow) × (length new ≡ n) × Chained o watermark start.rows new db
  logged start c Log.opened = ([], refl, c)
  logged start c (Log.added {db = db} {db' = db'} now entry log e) =
      let (new, counted, c') = logged start c log in
      let (row, c'') = recorded_once start.rows new db db' now entry c' e in
      (new ++ row ∷ [], omega (arith, counted, length-append new (row ∷ [])), c'')

  -- However many events are recorded on a database as the upgrade leaves it, verification finds the
  -- log intact, and counts the recorded events as checked and the rows from before the chain as
  -- unhashed. Where there were such rows, at least one event must have been recorded. No digest is
  -- empty, and the time column keeps whole microseconds.
  pub verify-Log :
      (start : Db) {n : ℕ} {db : Db}
      → Chained o watermark start.rows [] start
      → Log o start n db
      → (watermark ≡ 0) ⊎ (0 < n)
      → verify o db ≡ some (clean_result n (length start.rows))
  verify-Log start {db = db} c log started =
      let (new, counted, c') = logged start c log in
      verify-Chained o watermark start.rows new db c'
        (subst (λ k. (watermark ≡ 0) ⊎ (0 < k)) (sym counted) started)
      ∙ ap (λ k. some (clean_result k (length start.rows))) counted
