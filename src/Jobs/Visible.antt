-- ===== src/Jobs/Visible.antt =====
-- Which jobs a site-scoped user can see.
use nexa_panel.Prelude.{
  ℕ, suc, zero, ◌≡◌, ◌≢◌, ◌↔◌, refl, sym, ap, ◌∙◌, subst, Bool, true, false, ◌&&◌, Option, none,
  some, List, [], ◌∷◌, Text, arith, All, All-append, All-map, All-select_imp, IsIn, all, select,
  take, first, ◌⊎◌, inl, inr, if◌then◌else◌, text_eq, text_eq_refl, text_eq_sound, codes, ℤ,
  Bool-cases, first-key_and, Option-cases, first-none_and,
}
use mathlib.Core.List.{reverse, reverse-append}
use nexa_panel.Jobs.Model.{JobRow, ok}
use nexa_panel.Jobs.Store.{Db, has_id, find_job}
use nexa_panel.Jobs.Invariant.{Inv}
use nexa_panel.Jobs.Access.{
  User, Access, own_or_granted, in_scope, submitted_by, granted, is_nonempty, scope_jobs_for_user,
  scope_of_policy, get_for_user, list_for_user, row_or_missing, clamp_limit,
}

-- The user submitted the job, or the job names at least one site and every site that it names is
-- granted to the user.
abbrev pub IsVisible : Text → List Text → JobRow → Type 0
IsVisible user site_ids j =
    (j.actor_user_id ≡ some user)
    ⊎ ((j.scope_site_ids ≢ []) × All (λ (s : Text). IsIn s site_ids) j.scope_site_ids)

granted_sound : (ids : List Text) (s : Text) → granted ids s ≡ true → IsIn s ids
unfolding granted
granted_sound [] s h = cc
granted_sound (x ∷ ids) s h = elim (Bool-cases (text_eq s x)) [
  | inl e ↦ inl (text_eq_sound s x e)
  | inr e ↦ inr (granted_sound ids s (rw e at h))
]

granted_complete : (ids : List Text) (s : Text) → IsIn s ids → granted ids s ≡ true
unfolding granted
granted_complete [] s h = absurd h
granted_complete (x ∷ ids) s (inl e) = ground (arith, text_eq_refl s)
granted_complete (x ∷ ids) s (inr m) = ground (arith, granted_complete ids s m)

all-granted_sound :
    (ids ss : List Text) → all (granted ids) ss ≡ true → All (λ (s : Text). IsIn s ids) ss
all-granted_sound ids [] h = tt
all-granted_sound ids (s ∷ ss) h =
    (granted_sound ids s (ground arith), all-granted_sound ids ss (ground arith))

all-granted_complete :
    (ids ss : List Text) → All (λ (s : Text). IsIn s ids) ss → all (granted ids) ss ≡ true
all-granted_complete ids [] h = refl
all-granted_complete ids (s ∷ ss) (m, h) =
    ground (arith, granted_complete ids s m, all-granted_complete ids ss h)

submitted_sound : (u : Text) (o : Option Text) → submitted_by u o ≡ true → o ≡ some u
unfolding submitted_by
submitted_sound u none h = cc
submitted_sound u (some a) h = ap some (text_eq_sound a u h)

nonempty_sound : (xs : List Text) → is_nonempty xs ≡ true → xs ≢ []
nonempty_sound [] h e = cc
nonempty_sound (x ∷ xs) h e = cc

nonempty_complete : (xs : List Text) → xs ≢ [] → is_nonempty xs ≡ true
nonempty_complete [] h = absurd (h refl)
nonempty_complete (x ∷ xs) h = refl

-- Where a site is required, one is granted.
nonempty_of_all :
    (ids ss : List Text) → ss ≢ [] → all (granted ids) ss ≡ true → is_nonempty ids ≡ true
unfolding granted
nonempty_of_all [] [] n h = absurd (n refl)
nonempty_of_all [] (s ∷ ss) n h = cc
nonempty_of_all (x ∷ ids) ss n h = refl

in_scope_iff :
    (u : Text) (ids : List Text) (j : JobRow)
    → (in_scope (own_or_granted u ids) j ≡ true) ↔ IsVisible u ids j
in_scope_iff u ids j = (to, from)
  where
    to : in_scope (own_or_granted u ids) j ≡ true → IsVisible u ids j
    to h = elim (Bool-cases (submitted_by u j.actor_user_id)) [
      | inl e ↦ inl (submitted_sound u j.actor_user_id e)
      | inr e ↦ inr (
        nonempty_sound j.scope_site_ids (unfold in_scope in ground arith),
        all-granted_sound ids j.scope_site_ids (unfold in_scope in ground arith),
      )
    ]

    from : IsVisible u ids j → in_scope (own_or_granted u ids) j ≡ true
    from (inl e) = unfold in_scope submitted_by in rw e (ground (arith, text_eq_refl u))
    from (inr (n, h)) =
        let every = all-granted_complete ids j.scope_site_ids h in
        let some_site = nonempty_of_all ids j.scope_site_ids n every in
        let named = nonempty_complete j.scope_site_ids n in unfold in_scope in ground arith

All-take {ℓ} : {A : Type ℓ} (P : A → Type 0) (n : ℕ) (xs : List A) → All P xs → All P (take n xs)
All-take P zero xs h = tt
All-take P (suc n) [] h = tt
All-take P (suc n) (x ∷ xs) (p, h) = (p, All-take P n xs h)

All-reverse {ℓ} : {A : Type ℓ} (P : A → Type 0) (xs : List A) → All P xs → All P (reverse xs)
All-reverse P [] h = tt
All-reverse P (x ∷ xs) (p, h) =
    rw (reverse-append (x ∷ []) xs)
      (All-append P (reverse xs) (x ∷ []) (All-reverse P xs h) (p, tt))

module _ (accessible : User → Option Access) (user : User) (ids : List Text) (db : Db) (v : Inv db)
    (developer : user.role ≡ codes "developer")
    (grants : accessible user ≡ some (record { every_site = false; site_ids = ids })) where
  developer_scope : scope_jobs_for_user (some accessible) user ≡ ok (own_or_granted user.id ids)
  unfolding scope_jobs_for_user scope_of_policy
  developer_scope = rw grants (rw (developer, text_eq_refl (codes "developer")))

  get_for_user_row :
      (id : ℕ)
      → get_for_user (some accessible) user id db
        ≡ row_or_missing
            (first (λ j. has_id id j && in_scope (own_or_granted user.id ids) j) db.jobs)
  unfolding get_for_user
  get_for_user_row id = rw developer_scope

  row_found :
      (id : ℕ) (x : JobRow)
      → find_job id db ≡ some x
      → get_for_user (some accessible) user id db
        ≡ row_or_missing (if in_scope (own_or_granted user.id ids) x then some x else none)
  unfolding find_job
  row_found id x found =
      get_for_user_row id
      ∙ ap row_or_missing (
          first-key_and JobRow.id (in_scope (own_or_granted user.id ids)) id 0 db.next_job db.jobs x
            v.ids found)

  row_missing :
      (id : ℕ)
      → find_job id db ≡ none
      → get_for_user (some accessible) user id db ≡ row_or_missing none
  unfolding find_job
  row_missing id absent =
      get_for_user_row id
      ∙ ap row_or_missing
          (first-none_and JobRow.id (in_scope (own_or_granted user.id ids)) id db.jobs absent)

  -- A developer who is not granted every site gets exactly the jobs that are visible to them, and
  -- every job of their list is one of these.
  pub developer_sees :
      ((id : ℕ) (j : JobRow)
        → (get_for_user (some accessible) user id db ≡ ok j)
          ↔ (find_job id db ≡ some j) × IsVisible user.id ids j)
      × ((limit : ℤ) (jobs : List JobRow)
          → list_for_user (some accessible) user limit db ≡ ok jobs
          → All (IsVisible user.id ids) jobs)
  developer_sees = ((λ id j. (to id j, from id j)), listed)
    where
      shown_row :
          (x j : JobRow) (b : Bool)
          → in_scope (own_or_granted user.id ids) x ≡ b
          → row_or_missing (if b then some x else none) ≡ ok j
          → (x ≡ j) × IsVisible user.id ids x
      shown_row x j true e h = ((cc), (in_scope_iff user.id ids x).0 e)
      shown_row x j false e h = cc

      to :
          (id : ℕ) (j : JobRow)
          → get_for_user (some accessible) user id db ≡ ok j
          → (find_job id db ≡ some j) × IsVisible user.id ids j
      to id j h = elim (Option-cases (find_job id db)) [
        | inl absent ↦ cc (row_missing id absent)
        | inr (x, found) ↦
            let (same, seen) = shown_row x j _ refl (sym (row_found id x found) ∙ h) in
            subst (λ y. (find_job id db ≡ some y) × IsVisible user.id ids y) same (found, seen)
      ]

      from :
          (id : ℕ) (j : JobRow)
          → (find_job id db ≡ some j) × IsVisible user.id ids j
          → get_for_user (some accessible) user id db ≡ ok j
      from id j (found, seen) = row_found id j found ∙ (rw ((in_scope_iff user.id ids j).1 seen))

      listed :
          (limit : ℤ) (jobs : List JobRow)
          → list_for_user (some accessible) user limit db ≡ ok jobs
          → All (IsVisible user.id ids) jobs
      listed limit jobs h =
          let scoped = select (in_scope (own_or_granted user.id ids)) db.jobs in
          let e : ok (take (clamp_limit limit) (reverse scoped)) ≡ ok jobs =
            (unfold list_for_user in rw developer_scope at h) in
          let q : take (clamp_limit limit) (reverse scoped) ≡ jobs = cc in
          subst (All (IsVisible user.id ids)) q (
            All-take (IsVisible user.id ids) (clamp_limit limit) (reverse scoped) (
              All-reverse (IsVisible user.id ids) scoped (
                All-select_imp (λ (j : JobRow). Unit {0}) (IsVisible user.id ids) _ db.jobs
                  (λ x e u. (in_scope_iff user.id ids x).0 e)
                  (All-map (λ (j : JobRow). Unit {0}) db.jobs (λ j. tt)))))
