-- ===== src/Jobs/Recovery.antt =====
-- The recovery of expired leases, row by row: what the loop over the interrupted jobs comes to.
use nexa_panel.Prelude.{
  ℕ, suc, ◌<◌, ◌≡◌, refl, sym, ap, ◌∙◌, true, false, ◌&&◌, List, [], ◌∷◌, Text, arith, All, select,
  map, count_where, count_where_mono, count_where-below, update_where, update_where-none,
  Bool-cases, inl, inr, ◌==◌, if◌then◌else◌, Ascending, Ascending-weaken,
}
use nexa_panel.Jobs.Model.{JobRow}
use nexa_panel.Jobs.Store.{Db, add_event, update_jobs, has_id}
use nexa_panel.Jobs.Worker.{
  interrupted, is_retry, requeue_row, fail_row, recover_one, recover_all, recover_expired,
}
use nexa_panel.Jobs.Invariant.{Inv}

module _ (now : ℕ) (failure : Text) where
  -- What recovery makes of a row, by the row alone.
  unfoldable pub recover_row : JobRow → JobRow
  recover_row j =
      if interrupted now j
      then (if is_retry j.recovery_policy then requeue_row now j else fail_row now failure j)
      else j

  abbrev rewritten : JobRow → JobRow → JobRow
  rewritten job = if is_retry job.recovery_policy then requeue_row now else fail_row now failure

  recover_rows_one : JobRow → List JobRow → List JobRow
  recover_rows_one job = update_where (λ j. has_id job.id j && interrupted now j) (rewritten job)

  recover_rows : List JobRow → List JobRow → List JobRow
  recover_rows [] jobs = jobs
  recover_rows (j ∷ js) jobs = recover_rows js (recover_rows_one j jobs)

  recover_one-jobs :
      (job : JobRow) (db : Db)
      → (recover_one now failure job db).jobs ≡ recover_rows_one job db.jobs
  unfolding recover_one update_jobs add_event recover_rows_one
  recover_one-jobs job db = ground arith

  recover_all-jobs :
      (js : List JobRow) (db : Db) → (recover_all now failure js db).jobs ≡ recover_rows js db.jobs
  unfolding recover_all recover_rows
  recover_all-jobs [] db = refl
  recover_all-jobs (j ∷ js) db =
      recover_all-jobs js (recover_one now failure j db)
      ∙ ap (recover_rows js) (recover_one-jobs j db)

  -- A row with a smaller key than every job of the loop is left alone.
  recover_rows_head :
      (js : List JobRow) (x : JobRow) (xs : List JobRow)
      → All (λ (j : JobRow). x.id < j.id) js
      → recover_rows js (x ∷ xs) ≡ x ∷ recover_rows js xs
  unfolding recover_rows recover_rows_one
  recover_rows_head [] x xs h = refl
  recover_rows_head (j ∷ js) x xs (h, hs) = elim (Bool-cases (x.id == j.id)) [
    | inl e ↦ absurd (ground arith)
    | inr e ↦ rw e (recover_rows_head js x _ hs)
  ]

  -- The row of an interrupted job is rewritten, and the rows behind it are left alone.
  recover_rows_one_head :
      (x : JobRow) (hi : ℕ) (xs : List JobRow)
      → Ascending JobRow.id (suc x.id) hi xs
      → interrupted now x ≡ true
      → recover_rows_one x (x ∷ xs) ≡ recover_row x ∷ xs
  unfolding recover_rows_one recover_row
  recover_rows_one_head x hi xs h e =
      let p = λ (j : JobRow). has_id x.id j && interrupted now j in
      let none_here : count_where p xs ≡ 0 = omega (
        arith,
        count_where-below JobRow.id x.id (suc x.id) hi xs (omega arith) h,
        count_where_mono p (has_id x.id) xs (λ j g. ground arith),
      ) in
      ground (arith, update_where-none p (rewritten x) xs none_here)

  ids_above :
      (k hi : ℕ) (xs : List JobRow)
      → Ascending JobRow.id (suc k) hi xs
      → All (λ (j : JobRow). k < j.id) (select (interrupted now) xs)
  ids_above k hi [] h = tt
  ids_above k hi (x ∷ xs) (h, hs) =
      let rest =
        ids_above k hi xs (Ascending-weaken JobRow.id (suc x.id) (suc k) hi xs (omega arith) hs) in
      elim (Bool-cases (interrupted now x)) [ inl e ↦ rw e (h, rest) | inr e ↦ rw e rest ]

  recover_rows_cons :
      (j : JobRow) (js xs : List JobRow)
      → recover_rows (j ∷ js) xs ≡ recover_rows js (recover_rows_one j xs)
  unfolding recover_rows
  recover_rows_cons j js xs = refl

  pub recover_row-id : (x : JobRow) → (recover_row x).id ≡ x.id
  unfolding recover_row requeue_row fail_row
  recover_row-id x = ground arith

  above_row :
      (x : JobRow) (js : List JobRow)
      → All (λ (j : JobRow). x.id < j.id) js
      → All (λ (j : JobRow). (recover_row x).id < j.id) js
  above_row x js h = rw (recover_row-id x) h

  recover_row_same : (x : JobRow) → interrupted now x ≡ false → recover_row x ≡ x
  unfolding recover_row
  recover_row_same x e = rw e

  recover_rows-map :
      (lo hi : ℕ) (xs : List JobRow)
      → Ascending JobRow.id lo hi xs
      → recover_rows (select (interrupted now) xs) xs ≡ map recover_row xs
  recover_rows-map lo hi [] h = unfold recover_rows in refl
  recover_rows-map lo hi (x ∷ xs) (h, hs) =
      let above = ids_above x.id hi xs hs in
      let rest = recover_rows-map (suc x.id) hi xs hs in
      elim (Bool-cases (interrupted now x)) [
        | inl e ↦ rw e (
            recover_rows_cons x (select (interrupted now) xs) (x ∷ xs)
            ∙ (ap (recover_rows (select (interrupted now) xs)) (recover_rows_one_head x hi xs hs e)
                ∙ (recover_rows_head _ (recover_row x) xs (above_row x _ above)
                    ∙ ap (λ (r : List JobRow). recover_row x ∷ r) rest)))
        | inr e ↦ rw e (
            recover_rows_head _ x xs above
            ∙ (ap (λ (r : List JobRow). x ∷ r) rest
                ∙ ap (λ (y : JobRow). y ∷ map recover_row xs) (sym (recover_row_same x e))))
      ]

-- Nothing is left to recover, whatever is recovered again at that time.
recover_row-settled :
    (now : ℕ) (failure : Text) (j : JobRow) → interrupted now (recover_row now failure j) ≡ false
unfolding recover_row requeue_row fail_row interrupted
recover_row-settled now failure j = ground arith

All-settled :
    (now : ℕ) (failure : Text) (xs : List JobRow)
    → All (λ (j : JobRow). interrupted now j ≡ false) (map (recover_row now failure) xs)
All-settled now failure [] = tt
All-settled now failure (x ∷ xs) = (recover_row-settled now failure x, All-settled now failure xs)

pub recover_expired-rows :
    (now : ℕ) (failure : Text) (db : Db)
    → Inv db
    → ((recover_expired now failure db).jobs ≡ map (recover_row now failure) db.jobs)
      × All (λ (j : JobRow). interrupted now j ≡ false) (recover_expired now failure db).jobs
unfolding recover_expired
recover_expired-rows now failure db v =
    let e =
      recover_all-jobs now failure (select (interrupted now) db.jobs) db
      ∙ recover_rows-map now failure 0 db.next_job db.jobs v.ids in
    (e, rw e (All-settled now failure db.jobs))
