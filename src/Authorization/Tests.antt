-- ===== src/Authorization/Tests.antt =====
-- Runs of the policy: an operator who changes the firewall.
use nexa_panel.Prelude.{◌≡◌, ◌↔◌, refl, true, some, codes, any, pos, text_eq, lookup}
use nexa_panel.Authorization.Policy.{
  Principal, served, mfa_step_up_required, decide, allowed, sensitive_permission, mfa_enrolled,
  recent_mfa, verified_recently, all_permissions,
}
use nexa_panel.Authorization.Rules.{Cleared, roles_nested, served-Cleared}

roles_nested_example :
    (allowed (codes "viewer") (codes "sites.read") ≡ true
      → allowed (codes "operator") (codes "sites.read") ≡ true)
    × (allowed (codes "developer") (codes "sites.read") ≡ true
        → allowed (codes "operator") (codes "sites.read") ≡ true)
    × (allowed (codes "operator") (codes "sites.read") ≡ true
        → allowed (codes "admin") (codes "sites.read") ≡ true)
    × (allowed (codes "admin") (codes "sites.read") ≡ true
        ↔ any (λ p. text_eq p (codes "sites.read")) all_permissions ≡ true)
roles_nested_example = roles_nested (codes "sites.read")

abbrev operator : Principal
operator = record {
  role = codes "operator";
  mfa_verified_at = some 100;
  totp_confirmed_at = some 5;
}

operator_served : decide 130 (pos 60) (codes "firewall.write") (some operator) ≡ served
unfolding decide allowed sensitive_permission mfa_enrolled recent_mfa verified_recently lookup
    text_eq
operator_served = refl

operator_stale : decide 161 (pos 60) (codes "firewall.write") (some operator) ≡ mfa_step_up_required
unfolding decide allowed sensitive_permission mfa_enrolled recent_mfa verified_recently lookup
    text_eq
operator_stale = refl

served-Cleared_example :
    (user : Principal) × (some operator ≡ some user) × Cleared 130 60 (codes "firewall.write") user
served-Cleared_example =
    served-Cleared 130 60 (codes "firewall.write") (some operator) operator_served
