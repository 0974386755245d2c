-- ===== src/Prelude/Keyed.antt =====
-- Lists in strictly ascending order of a numeric key, with all keys below a bound: what a table with
-- an automatic primary key looks like.
use Prim.Native.Nat.{ℕ, suc, ◌≤◌, ◌<◌}
use mathlib.Core.Path.{◌≡◌, refl, subst}
use mathlib.Core.Logic.{inl, inr}
use mathlib.Core.Bool.{Bool, true, ◌&&◌}
use mathlib.Core.List.{List, [], ◌∷◌, ◌++◌}
use mathlib.Core.Option.{none, some}
use native.Mathlib.Omega.{arith}
use nexa_panel.Prelude.Tests.{some_eq, if◌then◌else◌, Bool-cases, ◌==◌}
use nexa_panel.Prelude.Lists.{All, select, first, count_where, update_where}
use nexa_panel.Prelude.Searching.{count_where_mono}

module _ {A : Type 0} where
  abbrev pub Ascending : (A → ℕ) → ℕ → ℕ → List A → Type 0
  Ascending key lo hi [] = lo ≤ hi
  Ascending key lo hi (x ∷ xs) = (lo ≤ key x) × Ascending key (suc (key x)) hi xs

module _ {A : Type 0} (key : A → ℕ) where
  pub Ascending-bound : (lo hi : ℕ) (xs : List A) → Ascending key lo hi xs → lo ≤ hi
  Ascending-bound lo hi [] h = h
  Ascending-bound lo hi (x ∷ xs) (h, hs) = omega (arith, Ascending-bound (suc (key x)) hi xs hs)

  pub Ascending-weaken :
      (lo lo' hi : ℕ) (xs : List A) → lo' ≤ lo → Ascending key lo hi xs → Ascending key lo' hi xs
  Ascending-weaken lo lo' hi [] le h = omega arith
  Ascending-weaken lo lo' hi (x ∷ xs) le (h, hs) = (omega arith, hs)

  pub Ascending-append :
      (lo hi : ℕ) (xs : List A) (y : A)
      → Ascending key lo hi xs
      → key y ≡ hi
      → Ascending key lo (suc hi) (xs ++ y ∷ [])
  Ascending-append lo hi [] y h e = (omega arith, omega arith)
  Ascending-append lo hi (x ∷ xs) y (h, hs) e = (h, Ascending-append (suc (key x)) hi xs y hs e)

  pub Ascending-select :
      (p : A → Bool) (lo hi : ℕ) (xs : List A)
      → Ascending key lo hi xs
      → Ascending key lo hi (select p xs)
  Ascending-select p lo hi [] h = h
  Ascending-select p lo hi (x ∷ xs) (h, hs) = elim (Bool-cases (p x)) [
    | inl e ↦ rw e (h, Ascending-select p (suc (key x)) hi xs hs)
    | inr e ↦ rw e (
        Ascending-weaken (suc (key x)) lo hi (select p xs) (omega arith)
          (Ascending-select p (suc (key x)) hi xs hs))
  ]

  pub Ascending-update_where :
      (p : A → Bool) (f : A → A) (lo hi : ℕ) (xs : List A)
      → ((x : A) → key (f x) ≡ key x)
      → Ascending key lo hi xs
      → Ascending key lo hi (update_where p f xs)
  Ascending-update_where p f lo hi [] keep h = h
  Ascending-update_where p f lo hi (x ∷ xs) keep (h, hs) = elim (Bool-cases (p x)) [
    | inl e ↦ rw (e, keep x) (h, Ascending-update_where p f (suc (key x)) hi xs keep hs)
    | inr e ↦ rw e (h, Ascending-update_where p f (suc (key x)) hi xs keep hs)
  ]

  -- No row below the first key.
  pub count_where-below :
      (k lo hi : ℕ) (xs : List A)
      → k < lo
      → Ascending key lo hi xs
      → count_where (λ x. key x == k) xs ≡ 0
  count_where-below k lo hi [] lt h = refl
  count_where-below k lo hi (x ∷ xs) lt (h, hs) =
      ground (arith, count_where-below k (suc (key x)) hi xs (omega arith) hs)

  -- A key names one row at most.
  pub count_where-key_le :
      (k lo hi : ℕ) (xs : List A) → Ascending key lo hi xs → count_where (λ x. key x == k) xs ≤ 1
  count_where-key_le k lo hi [] h = omega arith
  count_where-key_le k lo hi (x ∷ xs) (h, hs) = elim (Bool-cases (key x == k)) [
    | inl e ↦ ground (arith, count_where-below k (suc (key x)) hi xs (ground arith) hs)
    | inr e ↦ rw e (ground (arith, count_where-key_le k (suc (key x)) hi xs hs))
  ]

module _ {A : Type 0} (key : A → ℕ) where
  -- How many rows of one key meet a condition: the row found, if it does.
  pub count_where-key :
      (p : A → Bool) (k lo hi : ℕ) (xs : List A) (x : A)
      → Ascending key lo hi xs
      → first (λ y. key y == k) xs ≡ some x
      → count_where (λ y. (key y == k) && p y) xs ≡ (if p x then 1 else 0)
  count_where-key p k lo hi [] x h e = cc
  count_where-key p k lo hi (y ∷ xs) x (h, hs) e = elim (Bool-cases (key y == k)) [
    | inl b ↦ ground (
      arith,
      count_where-below key k (suc (key y)) hi xs (ground arith) hs,
      count_where_mono (λ z. (key z == k) && p z) (λ z. key z == k) xs (λ z g. ground arith),
    )
    | inr b ↦ ground (arith, count_where-key p k (suc (key y)) hi xs x hs)
  ]

  first-key_at :
      (k lo hi : ℕ) (xs : List A) (x : A)
      → Ascending key lo hi xs
      → first (λ y. key y == k) xs ≡ some x
      → lo ≤ k
  first-key_at k lo hi [] x h e = cc
  first-key_at k lo hi (y ∷ xs) x (h, hs) e = elim (Bool-cases (key y == k)) [
    | inl b ↦ ground arith
    | inr b ↦ ground (arith, first-key_at k (suc (key y)) hi xs x hs)
  ]

  All-ge : (lo hi k : ℕ) (xs : List A) → k ≤ lo → Ascending key lo hi xs → All (λ y. k ≤ key y) xs
  All-ge lo hi k [] le h = tt
  All-ge lo hi k (x ∷ xs) le (h, hs) = (omega arith, All-ge (suc (key x)) hi k xs (omega arith) hs)

  first-ge :
      (p : A → Bool) (lo hi : ℕ) (xs : List A) (x : A)
      → Ascending key lo hi xs
      → first p xs ≡ some x
      → lo ≤ key x
  first-ge p lo hi [] x h e = cc
  first-ge p lo hi (y ∷ xs) x (h, hs) e = elim (Bool-cases (p y)) [
    | inl b ↦ subst (λ z. lo ≤ key z) (some_eq y x (rw b at e)) h
    | inr b ↦ omega (arith, first-ge p (suc (key y)) hi xs x hs (rw b at e))
  ]

  -- The first row that meets a condition has the least key of those that do.
  pub first_least :
      (p : A → Bool) (lo hi : ℕ) (xs : List A) (x : A)
      → Ascending key lo hi xs
      → first p xs ≡ some x
      → All (λ y. p y ≡ true → key x ≤ key y) xs
  first_least p lo hi [] x h e = cc
  first_least p lo hi (y ∷ xs) x (h, hs) e = elim (Bool-cases (p y)) [
    | inl b ↦
        subst (λ z. (p y ≡ true → key z ≤ key y) × All (λ w. p w ≡ true → key z ≤ key w) xs)
          (some_eq y x (rw b at e))
          ((λ g. omega arith), weaken xs (All-ge (suc (key y)) hi (key y) xs (omega arith) hs))
    | inr b ↦ ((λ g. cc), first_least p (suc (key y)) hi xs x hs (rw b at e))
  ]
    where
      weaken :
          (ys : List A) → All (λ w. key y ≤ key w) ys → All (λ w. p w ≡ true → key y ≤ key w) ys
      weaken [] a = tt
      weaken (z ∷ ys) (le, a) = ((λ g. le), weaken ys a)

  -- A row that is found by any condition is found by its key.
  pub first-key :
      (p : A → Bool) (lo hi : ℕ) (xs : List A) (x : A)
      → Ascending key lo hi xs
      → first p xs ≡ some x
      → first (λ y. key y == key x) xs ≡ some x
  first-key p lo hi [] x h e = cc
  first-key p lo hi (y ∷ xs) x (h, hs) e = elim (Bool-cases (p y)) [
    | inl b ↦
        subst (λ z. first (λ w. key w == key z) (y ∷ xs) ≡ some z) (some_eq y x (rw b at e))
          (ground arith)
    | inr b ↦
        let rest = first-key p (suc (key y)) hi xs x hs (rw b at e) in
        ground (arith, first-ge p (suc (key y)) hi xs x hs (rw b at e))
  ]

  -- A search by key and condition finds the row of the key, if it meets the condition.
  pub first-key_and :
      (p : A → Bool) (k lo hi : ℕ) (xs : List A) (x : A)
      → Ascending key lo hi xs
      → first (λ y. key y == k) xs ≡ some x
      → first (λ y. (key y == k) && p y) xs ≡ (if p x then some x else none)
  first-key_and p k lo hi [] x h e = cc
  first-key_and p k lo hi (y ∷ xs) x (h, hs) e = elim (Bool-cases (key y == k)) [
    | inl b ↦
        subst (λ z. first (λ w. (key w == k) && p w) (y ∷ xs) ≡ (if p z then some z else none))
          (some_eq y x (rw b at e))
          (rw b (ground (arith, none_below p k (suc (key y)) hi xs (ground arith) hs)))
    | inr b ↦ rw b (first-key_and p k (suc (key y)) hi xs x hs (rw b at e))
  ]
    where
      none_below :
          (p : A → Bool) (k lo hi : ℕ) (xs : List A)
          → k < lo
          → Ascending key lo hi xs
          → first (λ y. (key y == k) && p y) xs ≡ none
      none_below p k lo hi [] lt h = refl
      none_below p k lo hi (y ∷ xs) lt (h, hs) =
          ground (arith, none_below p k (suc (key y)) hi xs (omega arith) hs)

  pub first-none_and :
      (p : A → Bool) (k : ℕ) (xs : List A)
      → first (λ y. key y == k) xs ≡ none
      → first (λ y. (key y == k) && p y) xs ≡ none
  first-none_and p k [] h = refl
  first-none_and p k (y ∷ xs) h = ground (arith, first-none_and p k xs)
