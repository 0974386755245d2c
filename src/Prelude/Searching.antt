-- ===== src/Prelude/Searching.antt =====
-- The laws of counting and searching a table that is filtered, extended and updated by conditions.
use Prim.Native.Nat.{◌+◌, ◌≤◌, ◌<◌}
use mathlib.Core.Path.{◌≡◌, refl, subst}
use mathlib.Core.Logic.{inl, inr}
use mathlib.Core.Bool.{Bool, true, false, not, ◌||◌, ◌&&◌}
use mathlib.Core.List.{List, [], ◌∷◌, ◌++◌, map}
use mathlib.Core.Option.{none, some}
use native.Mathlib.Omega.{arith}
use nexa_panel.Prelude.Tests.{some_eq, if◌then◌else◌, Bool-cases}
use nexa_panel.Prelude.Lists.{All, any, select, first, count_where, update_where}

module _ {ℓ} {A : Type ℓ} where
  pub count_where_mono :
      (p q : A → Bool) (xs : List A)
      → ((x : A) → p x ≡ true → q x ≡ true)
      → count_where p xs ≤ count_where q xs
  count_where_mono p q [] h = omega arith
  count_where_mono p q (x ∷ xs) h = ground (arith, h x, count_where_mono p q xs h)

  -- A row that meets one condition is found under a weaker one.
  pub any_of_count :
      (p q : A → Bool) (xs : List A)
      → ((x : A) → p x ≡ true → q x ≡ true)
      → 0 < count_where p xs
      → any q xs ≡ true
  any_of_count p q [] h c = absurd (omega arith)
  any_of_count p q (x ∷ xs) h c = ground (arith, h x, any_of_count p q xs h)

  pub any-update_where :
      (q p : A → Bool) (f : A → A) (xs : List A)
      → ((x : A) → q (f x) ≡ q x)
      → any q (update_where p f xs) ≡ any q xs
  any-update_where q p f [] h = refl
  any-update_where q p f (x ∷ xs) h = ground (arith, h x, any-update_where q p f xs h)

  pub count_where-update_where :
      (q p : A → Bool) (f : A → A) (xs : List A)
      → ((x : A) → q (f x) ≡ q x)
      → count_where q (update_where p f xs) ≡ count_where q xs
  count_where-update_where q p f [] h = refl
  count_where-update_where q p f (x ∷ xs) h =
      ground (arith, h x, count_where-update_where q p f xs h)

  pub any-append : (q : A → Bool) (xs ys : List A) → any q (xs ++ ys) ≡ (any q xs || any q ys)
  any-append q [] ys = refl
  any-append q (x ∷ xs) ys = ground (arith, any-append q xs ys)

  pub count_where-append :
      (q : A → Bool) (xs ys : List A)
      → count_where q (xs ++ ys) ≡ count_where q xs + count_where q ys
  count_where-append q [] ys = omega arith
  count_where-append q (x ∷ xs) ys = omega (arith, count_where-append q xs ys)

  pub count_where-select_le :
      (q p : A → Bool) (xs : List A) → count_where q (select p xs) ≤ count_where q xs
  count_where-select_le q p [] = omega arith
  count_where-select_le q p (x ∷ xs) = ground (arith, count_where-select_le q p xs)

  -- Where a search finds nothing no row counts.
  pub count_of_first-none : (p : A → Bool) (xs : List A) → first p xs ≡ none → count_where p xs ≡ 0
  count_of_first-none p [] h = refl
  count_of_first-none p (x ∷ xs) h = ground (arith, count_of_first-none p xs)

  -- A row found meets the condition.
  pub first_sound : (p : A → Bool) (xs : List A) {x : A} → first p xs ≡ some x → p x ≡ true
  first_sound p [] h = cc
  first_sound p (y ∷ xs) {x} h = ground (arith, first_sound p xs {x = x})

  pub first-append :
      (p : A → Bool) (xs ys : List A) {x : A} → first p xs ≡ some x → first p (xs ++ ys) ≡ some x
  first-append p [] ys h = cc
  first-append p (y ∷ xs) ys {x} h = ground (arith, first-append p xs ys {x = x})

  -- A new row is found behind rows that do not match.
  pub first-append_new :
      (p : A → Bool) (xs ys : List A) → first p xs ≡ none → first p (xs ++ ys) ≡ first p ys
  first-append_new p [] ys h = refl
  first-append_new p (y ∷ xs) ys h = ground (arith, first-append_new p xs ys)

  -- What is found among the rows, and not among those that are dropped, is found among the rest.
  pub any-select-not :
      (q p : A → Bool) (xs : List A)
      → any q xs ≡ true
      → any (λ x. q x && p x) xs ≡ false
      → any q (select (λ x. not (p x)) xs) ≡ true
  any-select-not q p [] h g = h
  any-select-not q p (x ∷ xs) h g = ground (arith, any-select-not q p xs)

  -- The row that a search finds after a rewrite is the rewritten row.
  pub first-update_where :
      (q p : A → Bool) (f : A → A) (xs : List A) (x : A)
      → ((y : A) → q (f y) ≡ q y)
      → first q xs ≡ some x
      → first q (update_where p f xs) ≡ some (if p x then f x else x)
  first-update_where q p f [] x keep h = cc
  first-update_where q p f (y ∷ xs) x keep h =
      ground (arith, keep y, first-update_where q p f xs x keep)

  pub first-update_where-none :
      (q p : A → Bool) (f : A → A) (xs : List A)
      → ((y : A) → q (f y) ≡ q y)
      → first q xs ≡ none
      → first q (update_where p f xs) ≡ none
  first-update_where-none q p f [] keep h = refl
  first-update_where-none q p f (y ∷ xs) keep h =
      ground (arith, keep y, first-update_where-none q p f xs keep)

  pub first-map :
      (q : A → Bool) (f : A → A) (xs : List A) (x : A)
      → ((y : A) → q (f y) ≡ q y)
      → first q xs ≡ some x
      → first q (map f xs) ≡ some (f x)
  first-map q f [] x keep h = cc
  first-map q f (y ∷ xs) x keep h = elim (Bool-cases (q y)) [
    | inl e ↦ ground (arith, keep y)
    | inr e ↦ ground (arith, keep y, first-map q f xs x keep)
  ]

  -- A property of all rows holds of the row found.
  pub All-first {κ} :
      (P : A → Type κ) (p : A → Bool) (xs : List A) (x : A) → All P xs → first p xs ≡ some x → P x
  All-first P p [] x h e = cc
  All-first P p (y ∷ xs) x (py, h) e = elim (Bool-cases (p y)) [
    | inl b ↦ subst P (some_eq y x (rw b at e)) py
    | inr b ↦ All-first P p xs x h (rw b at e)
  ]

  pub All-of_first-none :
      (p : A → Bool) (xs : List A) → first p xs ≡ none → All (λ y. p y ≡ false) xs
  All-of_first-none p [] h = tt
  All-of_first-none p (y ∷ xs) h = elim (Bool-cases (p y)) [
    | inl b ↦ cc (rw b at h)
    | inr b ↦ (b, All-of_first-none p xs (rw b at h))
  ]
