-- ===== src/Authorization/Rules.antt =====
-- What the policy promises.
use nexa_panel.Prelude.{
  ℕ, zero, suc, ◌+◌, ◌≤◌, ◌≡◌, ◌↔◌, refl, subst, Bool, true, Option, none, some, List, [], ◌∷◌,
  Text, codes, arith, Bool-cases, inl, inr, any, all, pos, text_eq, text_eq_sound, lookup,
}
use nexa_panel.Authorization.Policy.{
  allowed, all_permissions, viewer_grants, developer_grants, operator_grants, admin_grants,
  sensitive_permission, Principal, mfa_enrolled, verified_recently, recent_mfa, served, decide,
}

-- A list of permissions that lies within another, by computation.
within : List Text → List Text → Bool
within xs ys = all (λ x. any (λ y. text_eq y x) ys) xs

within-any :
    (xs ys : List Text) (t : Text)
    → within xs ys ≡ true
    → any (λ x. text_eq x t) xs ≡ true
    → any (λ y. text_eq y t) ys ≡ true
unfolding within
within-any [] ys t w h = absurd (ground arith)
within-any (x ∷ xs) ys t w h = elim (Bool-cases (text_eq x t)) [
  | inl e ↦ subst (λ u. any (λ y. text_eq y u) ys ≡ true) (text_eq_sound x t e) (ground arith)
  | inr e ↦ within-any xs ys t (ground arith) (ground arith)
]

-- The roles are nested: what a viewer or a developer may do, an operator may; what an operator may do,
-- an administrator may; and no role has a permission that the list of all permissions does not name.
pub roles_nested :
    (permission : Text)
    → (allowed (codes "viewer") permission ≡ true → allowed (codes "operator") permission ≡ true)
      × (allowed (codes "developer") permission ≡ true
          → allowed (codes "operator") permission ≡ true)
      × (allowed (codes "operator") permission ≡ true → allowed (codes "admin") permission ≡ true)
      × (allowed (codes "admin") permission ≡ true
          ↔ any (λ p. text_eq p permission) all_permissions ≡ true)
unfolding allowed lookup text_eq within
roles_nested permission = (
  within-any viewer_grants operator_grants permission refl,
  within-any developer_grants operator_grants permission refl,
  within-any operator_grants admin_grants permission refl,
  (
    within-any admin_grants all_permissions permission refl,
    within-any all_permissions admin_grants permission refl,
  ),
)

-- What a request must bring to be served.
pub record Cleared (now ttl : ℕ) (permission : Text) (user : Principal) : Type 0 where
  pub granted : allowed user.role permission ≡ true
  pub stepped_up :
      sensitive_permission permission ≡ true
      → mfa_enrolled user ≡ true
      → (at : ℕ) × (user.mfa_verified_at ≡ some at) × (at ≤ now) × (now ≤ at + ttl)

verified_recently_sound :
    (o : Option ℕ) (now max_age : ℕ)
    → verified_recently o now max_age ≡ true
    → (at : ℕ) × (o ≡ some at) × (at ≤ now) × (now ≤ at + max_age)
unfolding verified_recently
verified_recently_sound none now max_age h = absurd (ground arith)
verified_recently_sound (some at) now max_age h = (at, refl, ground arith, ground arith)

recent_mfa-verified :
    (user : Principal) (now ttl : ℕ)
    → recent_mfa user now (pos ttl) ≡ true
    → verified_recently user.mfa_verified_at now ttl ≡ true
unfolding recent_mfa
recent_mfa-verified user now zero h = absurd (ground arith)
recent_mfa-verified user now (suc ttl) h = h

-- A request is served only for a signed-in user whose role has the permission; and for a sensitive
-- permission, if the user has enrolled a second factor, only if that was confirmed at a moment that
-- is not later than now and at most the step-up period ago.
pub served-Cleared :
    (now ttl : ℕ) (permission : Text) (session : Option Principal)
    → decide now (pos ttl) permission session ≡ served
    → (user : Principal) × (session ≡ some user) × Cleared now ttl permission user
unfolding decide
served-Cleared now ttl permission none h = absurd (ground arith)
served-Cleared now ttl permission (some user) h = (
  user,
  refl,
  record {
    granted = ground arith;
    stepped_up = λ sensitive enrolled.
        verified_recently_sound user.mfa_verified_at now ttl
          (recent_mfa-verified user now ttl (ground arith));
  },
)
