-- ===== src/Jobs/Normal.antt =====
-- The normal form of a site scope: sorted, without repetition, and the same for any two submissions
-- that name the same sites, so that the encodings of two scopes can be compared as texts.
use nexa_panel.Prelude.{
  ◌≡◌, ◌↔◌, refl, sym, subst, true, List, [], ◌∷◌, Text, arith, IsIn, any, map, ltb, length,
  Bool-cases, ◌⊎◌, inl, inr, text_eq, text_eq_refl, text_eq_sound, trim_space,
}
use nexa_panel.Jobs.Model.{Result, ok, err, ◌>>=◌}
use nexa_panel.Jobs.Scope.{
  bad_site_id, add_unique, collect_site_ids, sort_strings, normalize_site_ids,
}
use nexa_panel.Jobs.Sorting.{IsSorted, IsIn-sort, NoRepeat, sort-IsSorted, IsSorted-unique}

IsIn-of_any : (v : Text) (xs : List Text) → any (text_eq v) xs ≡ true → IsIn v xs
IsIn-of_any v [] h = cc
IsIn-of_any v (x ∷ xs) h = elim (Bool-cases (text_eq v x)) [
  | inl e ↦ inl (text_eq_sound v x e)
  | inr e ↦ inr (IsIn-of_any v xs (rw e at h))
]

any_of_IsIn : (v : Text) (xs : List Text) → IsIn v xs → any (text_eq v) xs ≡ true
any_of_IsIn v [] m = absurd m
any_of_IsIn v (x ∷ xs) (inl e) = ground (arith, text_eq_refl v)
any_of_IsIn v (x ∷ xs) (inr m) = ground (arith, any_of_IsIn v xs m)

add_unique-NoRepeat : (v : Text) (xs : List Text) → NoRepeat xs → NoRepeat (add_unique v xs)
unfolding add_unique
add_unique-NoRepeat v xs h = elim (Bool-cases (any (text_eq v) xs)) [
  | inl e ↦ rw e h
  | inr e ↦ rw e ((λ m. cc (any_of_IsIn v xs m)), h)
]

IsIn-add_unique :
    (v : Text) (xs : List Text) (t : Text) → IsIn t (add_unique v xs) ↔ (t ≡ v) ⊎ IsIn t xs
unfolding add_unique
IsIn-add_unique v xs t = elim (Bool-cases (any (text_eq v) xs)) [
  | inl e ↦ rw e (
    (λ m. inr m),
    (λ m. elim m [ inl c ↦ subst (λ u. IsIn u xs) (sym c) (IsIn-of_any v xs e) | inr n ↦ n ]),
  )
  | inr e ↦ rw e (λ m. m, λ m. m)
]

-- How one trimmed value joins the members.
via : {A B C D E : Type 0} → (D ↔ B ⊎ A) → (E ↔ D ⊎ C) → (E ↔ A ⊎ B ⊎ C)
via add rest = (
  (λ e. elim (rest.0 e) [
    | inl d ↦ elim (add.0 d) [ inl b ↦ inr (inl b) | inr a ↦ inl a ]
    | inr c ↦ inr (inr c)
  ]),
  (λ m. elim m [
    | inl a ↦ rest.1 (inl (add.1 (inr a)))
    | inr n ↦ elim n [ inl b ↦ rest.1 (inl (add.1 (inl b))) | inr c ↦ rest.1 (inr c) ]
  ]),
)

collect_laws :
    (values unique out : List Text)
    → collect_site_ids values unique ≡ ok out
    → NoRepeat unique
    → NoRepeat out × ((t : Text) → IsIn t out ↔ IsIn t unique ⊎ IsIn t (map trim_space values))
unfolding collect_site_ids
collect_laws [] unique out h n =
    let e : unique ≡ out = cc in
    subst (λ (o : List Text). NoRepeat o × ((t : Text) → IsIn t o ↔ IsIn t unique ⊎ IsIn t [])) e
      (n, λ t. ((λ m. inl m), (λ m. elim m [ inl a ↦ a | inr b ↦ absurd b ])))
collect_laws (raw ∷ values) unique out h n = elim (Bool-cases (bad_site_id (trim_space raw))) [
  | inl e ↦ cc (rw e at h)
  | inr e ↦
      let (once, members) =
        collect_laws values (add_unique (trim_space raw) unique) out (rw e at h)
          (add_unique-NoRepeat (trim_space raw) unique n) in
      (once, λ t. via (IsIn-add_unique (trim_space raw) unique t) (members t))
]

-- A site scope that is accepted is stored in strictly ascending order, so without repetition, and
-- holds exactly the submitted ids with their surrounding blanks removed.
pub normalize_site_ids_laws :
    (values ids : List Text)
    → normalize_site_ids values ≡ ok ids
    → IsSorted ids × ((t : Text) → IsIn t ids ↔ IsIn t (map trim_space values))
unfolding normalize_site_ids
normalize_site_ids_laws values ids h = elim (Bool-cases (ltb 200 (length values))) [
  | inl e ↦ cc (rw e at h)
  | inr e ↦ sorted (collect_site_ids values []) refl (rw e at h)
]
  where
    sorted :
        (r : Result (List Text))
        → collect_site_ids values [] ≡ r
        → (r >>= λ unique. ok (sort_strings unique)) ≡ ok ids
        → IsSorted ids × ((t : Text) → IsIn t ids ↔ IsIn t (map trim_space values))
    sorted (err c) e g = cc
    sorted (ok unique) e g =
        let (once, members) = collect_laws values [] unique e tt in
        let stored : sort_strings unique ≡ ids = cc in
        subst
          (λ (o : List Text). IsSorted o × ((t : Text) → IsIn t o ↔ IsIn t (map trim_space values)))
          stored
          (
            sort-IsSorted unique once,
            (λ t. (
              (λ m. elim ((members t).0 ((IsIn-sort unique t).0 m)) [
                | inl a ↦ absurd a
                | inr b ↦ b
              ]),
              (λ m. (IsIn-sort unique t).1 ((members t).1 (inr m))),
            )),
          )

-- Two submissions that name the same sites, in any order, with any repetition and any surrounding
-- blanks, are stored under the same scope.
pub normalize_site_ids_canonical :
    (values values' ids ids' : List Text)
    → normalize_site_ids values ≡ ok ids
    → normalize_site_ids values' ≡ ok ids'
    → ((t : Text) → IsIn t (map trim_space values) ↔ IsIn t (map trim_space values'))
    → ids ≡ ids'
normalize_site_ids_canonical values values' ids ids' h h' same =
    let (s, m) = normalize_site_ids_laws values ids h in
    let (s', m') = normalize_site_ids_laws values' ids' h' in
    IsSorted-unique ids ids' s s'
      (λ t. ((λ a. (m' t).1 ((same t).0 ((m t).0 a))), (λ b. (m t).1 ((same t).1 ((m' t).0 b)))))
