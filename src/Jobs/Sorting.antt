-- ===== src/Jobs/Sorting.antt =====
-- The sorting of site ids (`sort.Strings` in internal/platform/jobs/repository.go): what it keeps, and
-- that a sorted list without repetition is determined by its members.
use nexa_panel.Prelude.{
  ◌≡◌, ◌↔◌, refl, sym, ◌∙◌, subst, true, false, List, [], ◌∷◌, Text, arith, All, IsIn, Bool-cases,
  ◌⊎◌, inl, inr, text_lt,
}
use nexa_panel.Jobs.Scope.{insert_sorted, sort_strings}

text_lt_irrefl : (s : Text) → text_lt s s ≡ false
unfolding text_lt
text_lt_irrefl [] = refl
text_lt_irrefl (a ∷ s) = ground (arith, text_lt_irrefl s)

text_lt_trans : (s t u : Text) → text_lt s t ≡ true → text_lt t u ≡ true → text_lt s u ≡ true
unfolding text_lt
text_lt_trans [] [] u h g = cc
text_lt_trans [] (b ∷ t) [] h g = cc
text_lt_trans [] (b ∷ t) (c ∷ u) h g = refl
text_lt_trans (a ∷ s) [] u h g = cc
text_lt_trans (a ∷ s) (b ∷ t) [] h g = cc
text_lt_trans (a ∷ s) (b ∷ t) (c ∷ u) h g = ground (arith, text_lt_trans s t u)

text_lt_total : (s t : Text) → text_lt s t ≡ false → text_lt t s ≡ false → s ≡ t
unfolding text_lt
text_lt_total [] [] h g = refl
text_lt_total [] (b ∷ t) h g = cc
text_lt_total (a ∷ s) [] h g = cc
text_lt_total (a ∷ s) (b ∷ t) h g = ground (arith, text_lt_total s t)

-- Strictly ascending, and so without repetition.
abbrev pub IsSorted : List Text → Type 0
IsSorted [] = Unit
IsSorted (x ∷ xs) = All (λ y. text_lt x y ≡ true) xs × IsSorted xs

All-lt_trans :
    (x y : Text) (xs : List Text)
    → text_lt x y ≡ true
    → All (λ z. text_lt y z ≡ true) xs
    → All (λ z. text_lt x z ≡ true) xs
All-lt_trans x y [] h a = tt
All-lt_trans x y (z ∷ xs) h (e, a) = (text_lt_trans x y z h e, All-lt_trans x y xs h a)

All_of_IsIn : (P : Text → Type 0) (xs : List Text) (x : Text) → All P xs → IsIn x xs → P x
All_of_IsIn P [] x h m = absurd m
All_of_IsIn P (y ∷ xs) x (p, h) (inl e) = subst P (sym e) p
All_of_IsIn P (y ∷ xs) x (p, h) (inr m) = All_of_IsIn P xs x h m

not_in_above : (x : Text) (xs : List Text) → All (λ y. text_lt x y ≡ true) xs → IsIn x xs → ⊥
not_in_above x xs h m =
    let e : text_lt x x ≡ true = All_of_IsIn (λ y. text_lt x y ≡ true) xs x h m in
    cc (text_lt_irrefl x)

IsIn-insert :
    (v : Text) (xs : List Text) (t : Text) → IsIn t (insert_sorted v xs) ↔ (t ≡ v) ⊎ IsIn t xs
unfolding insert_sorted
IsIn-insert v [] t = (λ m. m, λ m. m)
IsIn-insert v (x ∷ xs) t = elim (Bool-cases (text_lt x v)) [
  | inl e ↦
      let (to, from) = IsIn-insert v xs t in
      rw e (
        (λ m. elim m [
          | inl a ↦ inr (inl a)
          | inr b ↦ elim (to b) [ inl c ↦ inl c | inr d ↦ inr (inr d) ]
        ]),
        (λ m. elim m [
          | inl c ↦ inr (from (inl c))
          | inr b ↦ elim b [ inl a ↦ inl a | inr d ↦ inr (from (inr d)) ]
        ]),
      )
  | inr e ↦ rw e (λ m. m, λ m. m)
]

All-insert :
    (P : Text → Type 0) (v : Text) (xs : List Text) → P v → All P xs → All P (insert_sorted v xs)
unfolding insert_sorted
All-insert P v [] p h = (p, h)
All-insert P v (x ∷ xs) p (q, h) = elim (Bool-cases (text_lt x v)) [
  | inl e ↦ rw e (q, All-insert P v xs p h)
  | inr e ↦ rw e (p, (q, h))
]

insert_sorted-IsSorted :
    (v : Text) (xs : List Text) → (IsIn v xs → ⊥) → IsSorted xs → IsSorted (insert_sorted v xs)
unfolding insert_sorted
insert_sorted-IsSorted v [] new s = (tt, tt)
insert_sorted-IsSorted v (x ∷ xs) new (above, s) = elim (Bool-cases (text_lt x v)) [
  | inl e ↦ rw e (
    All-insert (λ y. text_lt x y ≡ true) v xs e above,
    insert_sorted-IsSorted v xs (λ m. new (inr m)) s,
  )
  | inr e ↦
      let below : text_lt v x ≡ true = elim (Bool-cases (text_lt v x)) [
        | inl b ↦ b
        | inr b ↦ absurd (new (inl (text_lt_total v x b e)))
      ] in
      rw e ((below, All-lt_trans v x xs below above), (above, s))
]

pub IsIn-sort : (xs : List Text) (t : Text) → IsIn t (sort_strings xs) ↔ IsIn t xs
unfolding sort_strings
IsIn-sort [] t = (λ m. m, λ m. m)
IsIn-sort (x ∷ xs) t =
    let (to, from) = IsIn-insert x (sort_strings xs) t in
    let (down, up) = IsIn-sort xs t in
    (
      (λ m. elim (to m) [ inl e ↦ inl e | inr n ↦ inr (down n) ]),
      (λ m. elim m [ inl e ↦ from (inl e) | inr n ↦ from (inr (up n)) ]),
    )

abbrev pub NoRepeat : List Text → Type 0
NoRepeat [] = Unit
NoRepeat (x ∷ xs) = (IsIn x xs → ⊥) × NoRepeat xs

pub sort-IsSorted : (xs : List Text) → NoRepeat xs → IsSorted (sort_strings xs)
unfolding sort_strings
sort-IsSorted [] h = tt
sort-IsSorted (x ∷ xs) (new, h) =
    insert_sorted-IsSorted x (sort_strings xs) (λ m. new ((IsIn-sort xs x).0 m))
      (sort-IsSorted xs h)

heads_agree :
    (x y : Text) (xs ys : List Text)
    → All (λ z. text_lt x z ≡ true) xs
    → All (λ z. text_lt y z ≡ true) ys
    → IsIn x (y ∷ ys)
    → IsIn y (x ∷ xs)
    → x ≡ y
heads_agree x y xs ys above above' (inl e) m = e
heads_agree x y xs ys above above' (inr n) (inl e) = sym e
heads_agree x y xs ys above above' (inr n) (inr m) =
    let below : text_lt x y ≡ true = All_of_IsIn (λ z. text_lt x z ≡ true) xs y above m in
    let over : text_lt y x ≡ true = All_of_IsIn (λ z. text_lt y z ≡ true) ys x above' n in
    cc (text_lt_irrefl x, text_lt_trans x y x below over)

tail_member :
    (x y t : Text) (xs ys : List Text)
    → x ≡ y
    → All (λ z. text_lt x z ≡ true) xs
    → (IsIn t (x ∷ xs) → IsIn t (y ∷ ys))
    → IsIn t xs
    → IsIn t ys
tail_member x y t xs ys same above h m = elim (h (inr m)) [
  | inl e ↦ absurd (not_in_above x xs above (subst (λ u. IsIn u xs) (e ∙ sym same) m))
  | inr n ↦ n
]

-- A strictly ascending list is determined by its members.
pub IsSorted-unique :
    (xs ys : List Text) → IsSorted xs → IsSorted ys → ((t : Text) → IsIn t xs ↔ IsIn t ys) → xs ≡ ys
IsSorted-unique [] [] s r h = refl
IsSorted-unique [] (y ∷ ys) s r h = absurd ((h y).1 (inl refl))
IsSorted-unique (x ∷ xs) [] s r h = absurd ((h x).0 (inl refl))
IsSorted-unique (x ∷ xs) (y ∷ ys) (above, s) (above', r) h =
    let same = heads_agree x y xs ys above above' ((h x).0 (inl refl)) ((h y).1 (inl refl)) in
    let rest = IsSorted-unique xs ys s r (λ t. (
      tail_member x y t xs ys same above (h t).0,
      tail_member y x t ys xs (sym same) above' (h t).1,
    )) in
    cc
