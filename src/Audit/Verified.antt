-- ===== src/Audit/Verified.antt =====
-- The verification of a log that was only recorded to (chain.go).
use nexa_panel.Prelude.{
  ℕ, suc, ◌+◌, ◌≤◌, ◌<◌, ◌≡◌, refl, subst, ap, sym, ◌∙◌, true, none, some, List, [], ◌∷◌, ◌++◌,
  Text, arith, inl, inr, ◌⊎◌, text_eq_refl, length, All, count_where, count_where-append,
}
use nexa_panel.Audit.Chain.{Outside, EventRow, Db, chain_genesis}
use nexa_panel.Audit.Verify.{
  VerifyResult, Walk, go_on, check_row, check_rows, continue, verify, verify_from, start_walk,
  begin, is_hashed, max_id,
}
use nexa_panel.Audit.Walk.{IdsBetween, verdict_of, loop_walk, past-all, check_rows-append}
use nexa_panel.Audit.Intact.{Linked, IsOld, Chained, end_hash}

abbrev with_unhashed : ℕ → VerifyResult → VerifyResult
with_unhashed n result = record result { unhashed = n }

abbrev with_checked : ℕ → VerifyResult → VerifyResult
with_checked n result = record result { checked = n }

-- The result of a walk that has found nothing.
abbrev pub clean_result : ℕ → ℕ → VerifyResult
clean_result checked unhashed = record {
  intact = true;
  checked = checked;
  unhashed = unhashed;
  first_broken_id = none;
  reason = none;
}

clean_result_congr : {a b c d : ℕ} → a ≡ b → c ≡ d → clean_result a c ≡ clean_result b d
clean_result_congr e f = rw (e, f) refl

module _ (o : Outside) (watermark : ℕ) where
  -- Where the walk goes over all rows: the boundary is not past the newest row, and some row has a
  -- hash if the chain has started.
  pub verify_walk :
      (hi : ℕ) (db : Db)
      → db.watermark ≡ some watermark
      → IdsBetween 1 hi db.rows
      → watermark ≤ max_id db.rows
      → (watermark ≡ 0) ⊎ (0 < count_where is_hashed db.rows)
      → verify o db ≡ verdict_of (check_rows o watermark db.rows (start_walk o watermark))
  unfolding verify verify_from start_walk
  verify_walk hi db marked ids top started =
      let loop =
        loop_walk o watermark (suc (length db.rows)) 499 1 hi db.rows db.rows
          (start_walk o watermark) (past-all 0 1 hi db.rows (omega arith) ids) (omega arith) ids
          (omega arith) in
      rw marked
        (elim started [ inl z ↦ ground (arith, loop) | inr some_hash ↦ ground (arith, loop) ])

  -- A walk over old rows counts them, and one over linked rows counts these.
  old_walked :
      (old : List EventRow) (w : Walk)
      → All (IsOld watermark) old
      → (w' : Walk) × (check_rows o watermark old w ≡ go_on w')
        × (w'.previous ≡ w.previous)
        × (w'.result ≡ with_unhashed (length old + w.result.unhashed) w.result)
  unfolding check_rows check_row continue
  old_walked [] w a = (w, refl, refl, ap (λ n. with_unhashed n w.result) (omega arith))
  old_walked (row ∷ rows) w ((e, le), a) =
      let next : Walk = record {
        result = record (w.result) { unhashed = suc w.result.unhashed };
        previous = w.previous;
        cursor = row.id;
      } in
      let (w', went, p, r) = old_walked rows next a in
      (w', rw e (ground (arith, went)), p, r ∙ ap (λ n. with_unhashed n w.result) (omega arith))

  Linked-walked :
      (rows : List EventRow) (w : Walk)
      → Linked o w.previous rows
      → (w' : Walk) × (check_rows o watermark rows w ≡ go_on w')
        × (w'.previous ≡ end_hash w.previous rows)
        × (w'.result ≡ with_checked (length rows + w.result.checked) w.result)
  unfolding check_rows check_row continue
  Linked-walked [] w l = (w, refl, refl, ap (λ n. with_checked n w.result) (omega arith))
  Linked-walked (row ∷ rows) w (p, h, n, l) =
      let next : Walk = record {
        result = record (w.result) { checked = suc w.result.checked };
        previous = row.hash;
        cursor = row.id;
      } in
      let (w', went, q, r) = Linked-walked rows next l in
      (
        w',
        rw (n, sym h, text_eq_refl row.hash, p, text_eq_refl w.previous) went,
        q,
        r ∙ ap (λ n. with_checked n w.result) (omega arith),
      )

  -- The rows from before the chain, then linked rows: the walk comes to the end of them.
  pub prefix_walked :
      (old new : List EventRow)
      → All (IsOld watermark) old
      → Linked o (chain_genesis o watermark) new
      → (w' : Walk) × (check_rows o watermark (old ++ new) (start_walk o watermark) ≡ go_on w')
        × (w'.previous ≡ end_hash (chain_genesis o watermark) new)
        × (w'.result ≡ clean_result (length new) (length old))
  unfolding start_walk begin continue
  prefix_walked old new a l =
      let (w1, went1, p1, r1) = old_walked old (start_walk o watermark) a in
      let (w2, went2, p2, r2) = Linked-walked new w1 (subst (λ t. Linked o t new) (sym p1) l) in
      (
        w2,
        check_rows-append o watermark old new (start_walk o watermark) ∙ rw went1 went2,
        p2 ∙ ap (λ t. end_hash t new) p1,
        r2
            ∙ ap (λ (t : VerifyResult). with_checked (length new + t.checked) t) r1
            ∙ clean_result_congr (omega arith) (omega arith),
      )

  count_where-old :
      (old : List EventRow) → All (IsOld watermark) old → count_where is_hashed old ≡ 0
  count_where-old [] a = refl
  count_where-old (row ∷ rows) ((e, le), a) = rw e (omega (arith, count_where-old rows a))

  count_where-Linked :
      (previous : Text) (rows : List EventRow)
      → Linked o previous rows
      → count_where is_hashed rows ≡ length rows
  count_where-Linked previous [] l = refl
  count_where-Linked previous (row ∷ rows) (p, h, n, l) =
      rw n (omega (arith, count_where-Linked row.hash rows l))

  -- A log that was only recorded to since the upgrade is intact, and the verdict counts its rows. An
  -- upgraded database needs one recorded event for this.
  pub verify-Chained :
      (old new : List EventRow) (db : Db)
      → Chained o watermark old new db
      → (watermark ≡ 0) ⊎ (0 < length new)
      → verify o db ≡ some (clean_result (length new) (length old))
  unfolding verdict_of
  verify-Chained old new db c started =
      let (w, went, p, r) = prefix_walked old new c.old_rows c.linked in
      let counted : count_where is_hashed db.rows ≡ length new =
        ap (count_where is_hashed) c.split
        ∙ count_where-append is_hashed old new
        ∙ omega (
          arith,
          count_where-old old c.old_rows,
          count_where-Linked (chain_genesis o watermark) new c.linked,
        ) in
      let walked =
        verify_walk db.next_id db c.marked c.ids c.top (elim started [
          | inl z ↦ inl z
          | inr some_new ↦ inr (omega (arith, counted, some_new))
        ]) in
      walked
      ∙ ap (λ t. verdict_of (check_rows o watermark t (start_walk o watermark))) c.split
      ∙ ap verdict_of went
      ∙ ap some r
