-- ===== src/Modules/Possible.antt =====
-- `ValidateAndSort` finds an order wherever there is one.
use nexa_panel.Prelude.{
  ℕ, zero, suc, ◌+◌, ◌<◌, ◌≡◌, refl, ap, sym, subst, ◌∙◌, Bool, true, false, not, ◌||◌, Option,
  List, [], ◌∷◌, ◌++◌, Text, arith, Bool-cases, inl, inr, ◌⊎◌, length, all, select, All, All-select,
  IsIn, text_eq, text_eq_refl, text_eq_sound, text_lt, any-append,
}
use nexa_panel.Modules.Registry.{
  Descriptor, Sorted, sorted, ids_of, known, dependencies_in, insert_module, sort_modules,
  after_ready, take_ready, resolve, validate_and_sort, sort_collected, collect,
}
use nexa_panel.Modules.Order.{DependenciesFirst, Within, All-imp, dependencies_in_mono}

IsIn-select :
    (p : Descriptor → Bool) (d : Descriptor) (xs : List Descriptor)
    → p d ≡ true
    → IsIn d xs
    → IsIn d (select p xs)
IsIn-select p d [] h i = i
IsIn-select p d (x ∷ xs) h (inl e) = rw (sym (ap p e) ∙ h) (inl e)
IsIn-select p d (x ∷ xs) h (inr i) = elim (Bool-cases (p x)) [
  | inl e ↦ rw e (inr (IsIn-select p d xs h i))
  | inr e ↦ rw e (IsIn-select p d xs h i)
]

IsIn-of_select :
    (p : Descriptor → Bool) (d : Descriptor) (xs : List Descriptor)
    → IsIn d (select p xs)
    → IsIn d xs
IsIn-of_select p d [] = λ i. i
IsIn-of_select p d (x ∷ xs) = elim (Bool-cases (p x)) [
  | inl e ↦
      rw e (λ i. elim i [ inl same ↦ inl same | inr there ↦ inr (IsIn-of_select p d xs there) ])
  | inr e ↦ rw e (λ i. inr (IsIn-of_select p d xs i))
]

IsIn-insert_module :
    (d e : Descriptor) (xs : List Descriptor) → IsIn d (e ∷ xs) → IsIn d (insert_module e xs)
unfolding insert_module
IsIn-insert_module d e [] i = i
IsIn-insert_module d e (x ∷ xs) i = elim (Bool-cases (text_lt x.id e.id)) [
  | inr k ↦ rw k i
  | inl k ↦ rw k (elim i [
    | inl same ↦ inr (IsIn-insert_module d e xs (inl same))
    | inr (inl same) ↦ inl same
    | inr (inr there) ↦ inr (IsIn-insert_module d e xs (inr there))
  ])
]

IsIn-sort_modules : (d : Descriptor) (xs : List Descriptor) → IsIn d xs → IsIn d (sort_modules xs)
unfolding sort_modules
IsIn-sort_modules d [] i = i
IsIn-sort_modules d (x ∷ xs) (inl e) = IsIn-insert_module d x (sort_modules xs) (inl e)
IsIn-sort_modules d (x ∷ xs) (inr i) =
    IsIn-insert_module d x (sort_modules xs) (inr (IsIn-sort_modules d xs i))

IsIn-known : (d : Descriptor) (xs : List Descriptor) → IsIn d xs → known (ids_of xs) d.id ≡ true
unfolding known
IsIn-known d [] i = absurd i
IsIn-known d (x ∷ xs) (inl e) =
    rw (ap (λ (y : Descriptor). text_eq y.id d.id) (sym e) ∙ text_eq_refl d.id) refl
IsIn-known d (x ∷ xs) (inr i) = ground (arith, IsIn-known d xs i)

length-parts :
    (p : Descriptor → Bool) (xs : List Descriptor)
    → length (select p xs) + length (select (λ x. not (p x)) xs) ≡ length xs
length-parts p [] = omega arith
length-parts p (x ∷ xs) = ground (arith, length-parts p xs)

known-append : (xs ys : List Text) (t : Text) → known (xs ++ ys) t ≡ (known xs t || known ys t)
unfolding known
known-append xs ys t = any-append (λ i. text_eq i t) xs ys

Within-add : (t : Text) (xs ys : List Text) → known ys t ≡ true → Within xs ys → Within (t ∷ xs) ys
unfolding known
Within-add t xs ys k h u e = elim (Bool-cases (text_eq t u)) [
  | inl same ↦ subst (λ v. known ys v ≡ true) (text_eq_sound t u same) k
  | inr other ↦ h u (sym (rw other refl) ∙ e)
]

or_true : (b : Bool) → (b || true) ≡ true
or_true true = refl
or_true false = refl

module _ (resolved : List Text) where
  -- Where all modules of an order are resolved, so are the dependencies of each.
  order_resolved :
      (seen : List Text) (order : List Descriptor) (d : Descriptor)
      → DependenciesFirst seen order
      → IsIn d order
      → Within seen resolved
      → All (λ (e : Descriptor). known resolved e.id ≡ true) order
      → dependencies_in resolved d ≡ true
  order_resolved seen [] d f i h a = absurd i
  order_resolved seen (e ∷ order) d (k, f) (inl same) h (known_e, a) =
      dependencies_in_mono seen resolved d h (ap (dependencies_in seen) same ∙ k)
  order_resolved seen (e ∷ order) d (k, f) (inr i) h (known_e, a) =
      order_resolved (e.id ∷ seen) order d f i (Within-add e.id seen resolved known_e h) a

  -- The first module of an order that is not resolved is ready.
  first_ready :
      (remaining : List Descriptor) (seen : List Text) (order : List Descriptor)
      → DependenciesFirst seen order
      → Within seen resolved
      → All (λ (d : Descriptor). (known resolved d.id ≡ true) ⊎ IsIn d remaining) order
      → ((m : Descriptor) × IsIn m remaining × (dependencies_in resolved m ≡ true))
        ⊎ All (λ (d : Descriptor). known resolved d.id ≡ true) order
  first_ready remaining seen [] f h a = inr tt
  first_ready remaining seen (d ∷ order) (k, f) h (inr there, a) =
      inl (d, there, dependencies_in_mono seen resolved d h k)
  first_ready remaining seen (d ∷ order) (k, f) h (inl known_d, a) =
      elim (first_ready remaining (d.id ∷ seen) order f (Within-add d.id seen resolved known_d h)
        a) [ inl found ↦ inl found | inr rest ↦ inr (known_d, rest) ]

  some_ready :
      (order remaining : List Descriptor) (d : Descriptor)
      → DependenciesFirst [] order
      → All (λ (e : Descriptor). (known resolved e.id ≡ true) ⊎ IsIn e remaining) order
      → IsIn d order
      → IsIn d remaining
      → (m : Descriptor) × IsIn m remaining × (dependencies_in resolved m ≡ true)
  unfolding known
  some_ready order remaining d f a in_order there =
      elim (first_ready remaining [] order f (λ t e. absurd (ground arith)) a) [
        | inl found ↦ found
        | inr all_known ↦ (
          d,
          there,
          order_resolved [] order d f in_order (λ t e. absurd (ground arith)) all_known,
        )
      ]

length-IsIn : (m : Descriptor) (xs : List Descriptor) → IsIn m xs → 0 < length xs
length-IsIn m [] i = absurd i
length-IsIn m (x ∷ xs) i = omega arith

take_ready-next :
    (m : Descriptor) (ready : List Descriptor) (next : List Descriptor → Sorted)
    → IsIn m ready
    → ((out : List Descriptor) × (next (sort_modules ready) ≡ sorted out))
    → (out : List Descriptor) × (take_ready ready next ≡ sorted out)
unfolding take_ready after_ready
take_ready-next m [] next i (out, e) = absurd i
take_ready-next m (d ∷ ready) next i (out, e) = (sort_modules (d ∷ ready) ++ out, rw e refl)

-- What a round leaves of a module: its id is resolved, or it remains.
after_round :
    (resolved : List Text) (remaining : List Descriptor) (d : Descriptor)
    → (known resolved d.id ≡ true) ⊎ IsIn d remaining
    → (known (ids_of (sort_modules (select (dependencies_in resolved) remaining)) ++ resolved) d.id
        ≡ true)
      ⊎ IsIn d (select (λ e. not (dependencies_in resolved e)) remaining)
after_round resolved remaining d (inl k) =
    let new = ids_of (sort_modules (select (dependencies_in resolved) remaining)) in
    inl (rw (known-append new resolved d.id, k) (or_true (known new d.id)))
after_round resolved remaining d (inr i) = elim (Bool-cases (dependencies_in resolved d)) [
  | inl ready ↦
      let taken =
        IsIn-known d _
          (IsIn-sort_modules d _ (IsIn-select (dependencies_in resolved) d remaining ready i)) in
      inl (
        rw
          (
            known-append (ids_of (sort_modules (select (dependencies_in resolved) remaining)))
                resolved d.id,
            taken,
          )
          refl)
  | inr blocked ↦
      inr (IsIn-select (λ e. not (dependencies_in resolved e)) d remaining (ap not blocked) i)
]

pub resolve-possible :
    (order : List Descriptor)
    → DependenciesFirst [] order
    → (fuel : ℕ) (resolved : List Text) (remaining : List Descriptor) → length remaining < fuel
    → All (λ (e : Descriptor). (known resolved e.id ≡ true) ⊎ IsIn e remaining) order
    → All (λ (e : Descriptor). IsIn e order) remaining
    → (out : List Descriptor) × (resolve fuel resolved remaining ≡ sorted out)
unfolding resolve
resolve-possible order f zero resolved remaining room a b = absurd (omega (arith, room))
resolve-possible order f (suc fuel) resolved [] room a b = ([], refl)
resolve-possible order f (suc fuel) resolved (d ∷ remaining) room a (in_order, b) =
    let all_left = d ∷ remaining in
    let ready = select (dependencies_in resolved) all_left in
    let left = select (λ e. not (dependencies_in resolved e)) all_left in
    let (m, there, is_ready) = some_ready resolved order all_left d f a in_order (inl refl) in
    let taken = IsIn-select (dependencies_in resolved) m all_left is_ready there in
    take_ready-next m ready _ taken (
      resolve-possible order f fuel (ids_of (sort_modules ready) ++ resolved) left
        (omega (
          arith,
          room,
          length-IsIn m ready taken,
          length-parts (dependencies_in resolved) all_left,
        ))
        (All-imp order (after_round resolved all_left) a)
        (All-select _ (λ e. not (dependencies_in resolved e)) all_left (in_order, b)))

All-known :
    (modules : List Descriptor) (xs : List Descriptor)
    → All (λ (e : Descriptor). IsIn e modules) xs
    → All (λ (e : Descriptor). known (ids_of modules) e.id ≡ true) xs
All-known modules [] a = tt
All-known modules (x ∷ xs) (i, a) = (IsIn-known x modules i, All-known modules xs a)

none_missing :
    (modules order : List Descriptor) (xs : List Descriptor)
    → DependenciesFirst [] order
    → All (λ (e : Descriptor). IsIn e modules) order
    → All (λ (e : Descriptor). IsIn e order) xs
    → all (dependencies_in (ids_of modules)) xs ≡ true
unfolding known
none_missing modules order [] f a b = refl
none_missing modules order (x ∷ xs) f a (i, b) = ground (
  arith,
  order_resolved (ids_of modules) [] order x f i (λ t e. absurd (ground arith))
      (All-known modules order a),
  none_missing modules order xs f a b,
)

-- Modules with their descriptors complete and no id twice are sorted wherever it is possible: if some
-- order of the same modules has each behind those that it depends on, the sorting succeeds.
pub validate_and_sort_possible :
    (candidates : List (Option Descriptor)) (modules order : List Descriptor)
    → collect candidates [] ≡ sorted modules
    → DependenciesFirst [] order
    → All (λ (e : Descriptor). IsIn e modules) order
    → All (λ (e : Descriptor). IsIn e order) modules
    → (out : List Descriptor) × (validate_and_sort candidates ≡ sorted out)
unfolding validate_and_sort sort_collected
validate_and_sort_possible candidates modules order collected f a b =
    rw (collected, none_missing modules order modules f a b)
      (resolve-possible order f (suc (length modules)) [] modules (omega arith)
        (All-imp order (λ e i. inr i) a) b)
