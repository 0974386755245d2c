-- ===== src/Modules/Order.antt =====
-- The order that `ValidateAndSort` gives.
use nexa_panel.Prelude.{
  ℕ, zero, suc, ◌+◌, ◌≡◌, refl, ap, sym, subst, ◌∙◌, Bool, true, not, List, [], ◌∷◌, ◌++◌, Text,
  arith, Bool-cases, inl, inr, all, select, All, count_where, count_where-append, any-append,
  text_eq, text_lt,
}
use nexa_panel.Modules.Registry.{
  Descriptor, Sorted, sorted, failed, ids_of, known, dependencies_in, insert_module, sort_modules,
  after_ready, take_ready, resolve,
}

-- Every module comes after the modules that it depends on.
abbrev pub DependenciesFirst : List Text → List Descriptor → Type 0
DependenciesFirst seen [] = Unit
DependenciesFirst seen (d ∷ modules) =
    (dependencies_in seen d ≡ true) × DependenciesFirst (d.id ∷ seen) modules

abbrev pub Within : List Text → List Text → Type 0
Within xs ys = (t : Text) → known xs t ≡ true → known ys t ≡ true

pub Within-behind : (t : Text) (xs : List Text) → Within xs (t ∷ xs)
unfolding known
Within-behind t xs u k = ground arith

Within-cons : (t : Text) (xs ys : List Text) → Within xs ys → Within (t ∷ xs) (t ∷ ys)
unfolding known
Within-cons t xs ys h u k = elim (Bool-cases (text_eq t u)) [
  | inl e ↦ rw e refl
  | inr e ↦ ground (arith, h u)
]

pub All-imp :
    {P Q : Descriptor → Type 0} (modules : List Descriptor)
    → ((d : Descriptor) → P d → Q d)
    → All P modules
    → All Q modules
All-imp [] imp a = tt
All-imp (d ∷ modules) imp (h, a) = (imp d h, All-imp modules imp a)

All-selected :
    (p : Descriptor → Bool) (modules : List Descriptor) → All (λ d. p d ≡ true) (select p modules)
All-selected p [] = tt
All-selected p (d ∷ modules) = elim (Bool-cases (p d)) [
  | inl e ↦ rw e (e, All-selected p modules)
  | inr e ↦ rw e (All-selected p modules)
]

all-known_mono :
    (xs ys ts : List Text) → Within xs ys → all (known xs) ts ≡ true → all (known ys) ts ≡ true
all-known_mono xs ys [] h k = refl
all-known_mono xs ys (t ∷ ts) h k = ground (arith, h t, all-known_mono xs ys ts h)

pub dependencies_in_mono :
    (xs ys : List Text) (d : Descriptor)
    → Within xs ys
    → dependencies_in xs d ≡ true
    → dependencies_in ys d ≡ true
unfolding dependencies_in
dependencies_in_mono xs ys d h = all-known_mono xs ys d.dependencies h

DependenciesFirst-mono :
    (xs ys : List Text) (modules : List Descriptor)
    → Within xs ys
    → DependenciesFirst xs modules
    → DependenciesFirst ys modules
DependenciesFirst-mono xs ys [] h f = tt
DependenciesFirst-mono xs ys (d ∷ modules) h (k, f) = (
  dependencies_in_mono xs ys d h k,
  DependenciesFirst-mono (d.id ∷ xs) (d.id ∷ ys) modules (Within-cons d.id xs ys h) f,
)

module _ (p : Descriptor → Bool) where
  count_insert :
      (d : Descriptor) (modules : List Descriptor)
      → count_where p (insert_module d modules) ≡ count_where p (d ∷ modules)
  unfolding insert_module
  count_insert d [] = refl
  count_insert d (e ∷ modules) = ground (arith, count_insert d modules)

  count_sort :
      (modules : List Descriptor) → count_where p (sort_modules modules) ≡ count_where p modules
  unfolding sort_modules
  count_sort [] = refl
  count_sort (d ∷ modules) =
      omega (arith, count_insert d (sort_modules modules), count_sort modules)

  count_parts :
      (q : Descriptor → Bool) (modules : List Descriptor)
      → count_where p (select q modules) + count_where p (select (λ e. not (q e)) modules)
        ≡ count_where p modules
  count_parts q [] = omega arith
  count_parts q (d ∷ modules) = ground (arith, count_parts q modules)

abbrev pub modules_of : Sorted → List Descriptor
modules_of (sorted modules) = modules
modules_of (failed e) = []

after_ready-sorted :
    (ready : List Descriptor) (s : Sorted) (out : List Descriptor)
    → after_ready ready s ≡ sorted out
    → (rest : List Descriptor) × (s ≡ sorted rest) × (out ≡ ready ++ rest)
unfolding after_ready
after_ready-sorted ready (sorted rest) out e = (rest, refl, sym (ap modules_of e))
after_ready-sorted ready (failed x) out e = absurd (ground arith)

take_ready-sorted :
    (ready : List Descriptor) (next : List Descriptor → Sorted) (out : List Descriptor)
    → take_ready ready next ≡ sorted out
    → (rest : List Descriptor) × (next (sort_modules ready) ≡ sorted rest)
      × (out ≡ sort_modules ready ++ rest)
unfolding take_ready
take_ready-sorted [] next out e = absurd (ground arith)
take_ready-sorted (d ∷ ready) next out e = after_ready-sorted _ _ out e

All-insert_module :
    (P : Descriptor → Type 0) (d : Descriptor) (modules : List Descriptor)
    → P d
    → All P modules
    → All P (insert_module d modules)
unfolding insert_module
All-insert_module P d [] h a = (h, tt)
All-insert_module P d (e ∷ modules) h (k, a) = elim (Bool-cases (text_lt e.id d.id)) [
  | inl x ↦ rw x (k, All-insert_module P d modules h a)
  | inr x ↦ rw x (h, (k, a))
]

All-sort_modules :
    (P : Descriptor → Type 0) (modules : List Descriptor)
    → All P modules
    → All P (sort_modules modules)
unfolding sort_modules
All-sort_modules P [] a = tt
All-sort_modules P (d ∷ modules) (h, a) =
    All-insert_module P d (sort_modules modules) h (All-sort_modules P modules a)

pub Within-shift : (t : Text) (xs ys : List Text) → Within (t ∷ (xs ++ ys)) (xs ++ (t ∷ ys))
unfolding known
Within-shift t xs ys u k =
    ground (arith, any-append (λ i. text_eq i u) xs ys, any-append (λ i. text_eq i u) xs (t ∷ ys))

DependenciesFirst-append :
    (seen : List Text) (ready rest : List Descriptor)
    → All (λ d. dependencies_in seen d ≡ true) ready
    → DependenciesFirst (ids_of ready ++ seen) rest
    → DependenciesFirst seen (ready ++ rest)
DependenciesFirst-append seen [] rest a f = f
DependenciesFirst-append seen (d ∷ ready) rest (h, a) f = (
  h,
  DependenciesFirst-append (d.id ∷ seen) ready rest
      (All-imp ready (λ e k. dependencies_in_mono seen (d.id ∷ seen) e (Within-behind d.id seen) k)
        a)
      (DependenciesFirst-mono _ _ rest (Within-shift d.id (ids_of ready) seen) f),
)

pub resolve-sorted :
    (fuel : ℕ) (resolved : List Text) (remaining out : List Descriptor)
    → resolve fuel resolved remaining ≡ sorted out
    → DependenciesFirst resolved out
      × ((p : Descriptor → Bool) → count_where p out ≡ count_where p remaining)
unfolding resolve
resolve-sorted zero resolved remaining out e = absurd (ground arith)
resolve-sorted (suc fuel) resolved [] out e =
    let none_left : [] ≡ out = ap modules_of e in
    (subst (DependenciesFirst resolved) none_left tt, λ p. ap (count_where p) (sym none_left))
resolve-sorted (suc fuel) resolved (d ∷ remaining) out e =
    let all_left = d ∷ remaining in
    let ready = select (dependencies_in resolved) all_left in
    let left = select (λ x. not (dependencies_in resolved x)) all_left in
    let (rest, e', joined) = take_ready-sorted ready _ out e in
    let (first, counts) =
      resolve-sorted fuel (ids_of (sort_modules ready) ++ resolved) left rest e' in
    (
      subst (DependenciesFirst resolved) (sym joined) (
          DependenciesFirst-append resolved (sort_modules ready) rest
            (All-sort_modules _ ready (All-selected (dependencies_in resolved) all_left)) first),
      λ p.
          ap (count_where p) joined
          ∙ count_where-append p (sort_modules ready) rest
          ∙ omega (
            arith,
            counts p,
            count_sort p ready,
            count_parts p (dependencies_in resolved) all_left,
          ),
    )
