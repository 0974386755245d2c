-- ===== src/Jobs/Retention.antt =====
-- Pruning: what remains of the two tables.
use nexa_panel.Prelude.{
  ℕ, suc, ◌<◌, ◌≡◌, refl, ◌∙◌, Bool, true, false, not, ◌&&◌, none, some, List, [], ◌∷◌, arith, All,
  any, select, first, Bool-cases, inl, inr, ◌==◌, if◌then◌else◌, is_nonpositive, Ascending,
  Ascending-select,
}
use nexa_panel.Jobs.Model.{JobRow, EventRow, Config, terminal}
use nexa_panel.Jobs.Store.{Db, has_id, find_job}
use nexa_panel.Jobs.Worker.{prune_retired, retired, event_retired, retention_cutoff}
use nexa_panel.Jobs.Invariant.{Inv}

first_below :
    (k lo hi : ℕ) (xs : List JobRow)
    → k < lo
    → Ascending JobRow.id lo hi xs
    → first (has_id k) xs ≡ none
first_below k lo hi [] lt h = refl
first_below k lo hi (x ∷ xs) lt (h, hs) =
    ground (arith, first_below k (suc x.id) hi xs (omega arith) hs)

any_below :
    (q : JobRow → Bool) (k lo hi : ℕ) (xs : List JobRow)
    → k < lo
    → Ascending JobRow.id lo hi xs
    → any (λ j. has_id k j && q j) xs ≡ false
any_below q k lo hi [] lt h = refl
any_below q k lo hi (x ∷ xs) lt (h, hs) =
    ground (arith, any_below q k (suc x.id) hi xs (omega arith) hs)

any_id_below :
    (k lo hi : ℕ) (xs : List JobRow)
    → k < lo
    → Ascending JobRow.id lo hi xs
    → any (has_id k) xs ≡ false
any_id_below k lo hi [] lt h = refl
any_id_below k lo hi (x ∷ xs) lt (h, hs) =
    ground (arith, any_id_below k (suc x.id) hi xs (omega arith) hs)

-- Where keys are unique, a dropped row is found no more and a kept one is found as before.
first-select_id :
    (p : JobRow → Bool) (id lo hi : ℕ) (xs : List JobRow) (j : JobRow)
    → Ascending JobRow.id lo hi xs
    → first (has_id id) xs ≡ some j
    → first (has_id id) (select p xs) ≡ (if p j then some j else none)
first-select_id p id lo hi [] j h e = cc
first-select_id p id lo hi (x ∷ xs) j (h, hs) e = elim (Bool-cases (x.id == id)) [
  | inl b ↦ ground (
    arith,
    first_below id (suc x.id) hi (select p xs) (ground arith)
        (Ascending-select JobRow.id p (suc x.id) hi xs hs),
  )
  | inr b ↦ ground (arith, first-select_id p id (suc x.id) hi xs j hs)
]

-- An event is kept exactly if no job of its id is retired.
any-retired :
    (cutoff id lo hi : ℕ) (xs : List JobRow)
    → Ascending JobRow.id lo hi xs
    → any (has_id id) xs ≡ true
    → not (any (λ j. has_id id j && retired cutoff j) xs)
      ≡ any (has_id id) (select (λ j. not (retired cutoff j)) xs)
any-retired cutoff id lo hi [] h e = cc
any-retired cutoff id lo hi (x ∷ xs) (h, hs) e = elim (Bool-cases (x.id == id)) [
  | inl b ↦ ground (
    arith,
    any_below (retired cutoff) id (suc x.id) hi xs (ground arith) hs,
    any_id_below id (suc x.id) hi (select (λ j. not (retired cutoff j)) xs) (ground arith)
        (Ascending-select JobRow.id _ (suc x.id) hi xs hs),
  )
  | inr b ↦ ground (arith, any-retired cutoff id (suc x.id) hi xs hs)
]

select-same :
    (p q : EventRow → Bool) (P : EventRow → Type 0) (xs : List EventRow)
    → ((x : EventRow) → P x → p x ≡ q x)
    → All P xs
    → select p xs ≡ select q xs
select-same p q P [] same h = refl
select-same p q P (x ∷ xs) same (px, h) = ground (arith, same x px, select-same p q P xs same h)

pub prune_retired-keeps :
    (c : Config) (now : ℕ) (db : Db)
    → Inv db
    → is_nonpositive c.retention_period ≡ false
    → ((id : ℕ) (j : JobRow)
        → find_job id db ≡ some j
        → find_job id (prune_retired c now db)
          ≡ (if retired (retention_cutoff now c.retention_period) j then none else some j))
      × ((prune_retired c now db).events
          ≡ select (λ e. any (has_id e.job_id) (prune_retired c now db).jobs) db.events)
unfolding prune_retired find_job
prune_retired-keeps c now db v e =
    let cutoff = retention_cutoff now c.retention_period in
    rw e (
      (λ id j found.
          first-select_id (λ x. not (retired cutoff x)) id 0 db.next_job db.jobs j v.ids found
          ∙ negated (retired cutoff j) j),
      select-same _ _ (λ (x : EventRow). any (has_id x.job_id) db.jobs ≡ true) db.events
          (λ x h. unfold event_retired in any-retired cutoff x.job_id 0 db.next_job db.jobs v.ids h)
          v.attached,
    )
  where
    negated :
        (b : Bool) (j : JobRow) → (if not b then some j else none) ≡ (if b then none else some j)
    negated true j = refl
    negated false j = refl

-- A job that has not ended is never pruned, whatever the configuration and the time.
pub unfinished-kept :
    (c : Config) (now id : ℕ) (db : Db) (j : JobRow)
    → Inv db
    → find_job id db ≡ some j
    → terminal j.state ≡ false
    → find_job id (prune_retired c now db) ≡ some j
unfolding retired
unfinished-kept c now id db j v found t = elim (Bool-cases (is_nonpositive c.retention_period)) [
  | inl e ↦ unfold prune_retired in rw e found
  | inr e ↦ (prune_retired-keeps c now db v e).0 id j found ∙ rw t
]
