-- ===== src/Authorization/Policy.antt =====
-- Who may do what, and when a second factor is asked for again
-- (internal/platform/authorization/authorization.go, with RecentMFA and MFAEnrolled of
-- internal/platform/identity/identity.go).
use nexa_panel.Prelude.{
  ℕ, ◌-◌, Bool, true, false, not, ◌||◌, ◌&&◌, Option, none, some, List, [], ◌∷◌, Text, codes, ℤ,
  is_nonpositive, any, if◌then◌else◌, ltb, leb, text_eq, lookup, pos_part,
}

abbrev pub system_read : Text
system_read = codes "system.read"

abbrev pub system_update : Text
system_update = codes "system.update"

abbrev pub jobs_read : Text
jobs_read = codes "jobs.read"

abbrev pub audit_read : Text
audit_read = codes "audit.read"

abbrev pub runtimes_read : Text
runtimes_read = codes "runtimes.read"

abbrev pub sites_read : Text
sites_read = codes "sites.read"

abbrev pub sites_write : Text
sites_write = codes "sites.write"

abbrev pub domains_read : Text
domains_read = codes "domains.read"

abbrev pub domains_write : Text
domains_write = codes "domains.write"

abbrev pub certificates_read : Text
certificates_read = codes "certificates.read"

abbrev pub certificates_write : Text
certificates_write = codes "certificates.write"

abbrev pub databases_read : Text
databases_read = codes "databases.read"

abbrev pub databases_write : Text
databases_write = codes "databases.write"

abbrev pub operations_apply : Text
operations_apply = codes "operations.apply"

abbrev pub files_read : Text
files_read = codes "files.read"

abbrev pub files_write : Text
files_write = codes "files.write"

abbrev pub logs_read : Text
logs_read = codes "logs.read"

abbrev pub schedules_read : Text
schedules_read = codes "schedules.read"

abbrev pub schedules_write : Text
schedules_write = codes "schedules.write"

abbrev pub applications_read : Text
applications_read = codes "applications.read"

abbrev pub applications_write : Text
applications_write = codes "applications.write"

abbrev pub backups_read : Text
backups_read = codes "backups.read"

abbrev pub backups_write : Text
backups_write = codes "backups.write"

abbrev pub services_read : Text
services_read = codes "services.read"

abbrev pub services_write : Text
services_write = codes "services.write"

abbrev pub firewall_read : Text
firewall_read = codes "firewall.read"

abbrev pub firewall_write : Text
firewall_write = codes "firewall.write"

abbrev pub deploy_read : Text
deploy_read = codes "deploy.read"

abbrev pub deploy_write : Text
deploy_write = codes "deploy.write"

abbrev pub users_manage : Text
users_manage = codes "users.manage"

abbrev pub all_permissions : List Text
all_permissions =
    system_read ∷ system_update ∷ jobs_read ∷ audit_read ∷ runtimes_read ∷ sites_read ∷ sites_write
    ∷ domains_read ∷ domains_write ∷ certificates_read ∷ certificates_write ∷ databases_read
    ∷ databases_write ∷ operations_apply ∷ files_read ∷ files_write ∷ logs_read ∷ schedules_read
    ∷ schedules_write ∷ applications_read ∷ applications_write ∷ backups_read ∷ backups_write
    ∷ services_read ∷ services_write ∷ firewall_read ∷ firewall_write ∷ deploy_read ∷ deploy_write
    ∷ users_manage ∷ []

-- The grants of `New`, role by role.
abbrev pub viewer_grants : List Text
viewer_grants =
    system_read ∷ jobs_read ∷ runtimes_read ∷ sites_read ∷ domains_read ∷ certificates_read
    ∷ databases_read ∷ files_read ∷ logs_read ∷ schedules_read ∷ applications_read ∷ backups_read
    ∷ services_read ∷ firewall_read ∷ deploy_read ∷ []

abbrev pub developer_grants : List Text
developer_grants =
    system_read ∷ jobs_read ∷ runtimes_read ∷ sites_read ∷ files_read ∷ files_write ∷ logs_read
    ∷ schedules_read ∷ schedules_write ∷ applications_read ∷ backups_read ∷ deploy_read
    ∷ deploy_write ∷ []

abbrev pub operator_grants : List Text
operator_grants =
    system_read ∷ jobs_read ∷ runtimes_read ∷ sites_read ∷ sites_write ∷ domains_read
    ∷ domains_write ∷ certificates_read ∷ certificates_write ∷ databases_read ∷ databases_write
    ∷ files_read ∷ files_write ∷ logs_read ∷ schedules_read ∷ schedules_write ∷ applications_read
    ∷ applications_write ∷ backups_read ∷ backups_write ∷ services_read ∷ services_write
    ∷ firewall_read ∷ firewall_write ∷ deploy_read ∷ deploy_write ∷ []

abbrev pub admin_grants : List Text
admin_grants =
    system_read ∷ system_update ∷ jobs_read ∷ audit_read ∷ runtimes_read ∷ sites_read ∷ sites_write
    ∷ domains_read ∷ domains_write ∷ certificates_read ∷ certificates_write ∷ databases_read
    ∷ databases_write ∷ operations_apply ∷ files_read ∷ files_write ∷ logs_read ∷ schedules_read
    ∷ schedules_write ∷ applications_read ∷ applications_write ∷ backups_read ∷ backups_write
    ∷ services_read ∷ services_write ∷ firewall_read ∷ firewall_write ∷ deploy_read ∷ deploy_write
    ∷ users_manage ∷ []

abbrev pub grants : List (Text × List Text)
grants =
    (codes "viewer", viewer_grants)
    ∷ (codes "developer", developer_grants)
    ∷ (codes "operator", operator_grants)
    ∷ (codes "admin", admin_grants)
    ∷ []

abbrev pub granted_to : Option (List Text) → Text → Bool
granted_to none permission = false
granted_to (some permissions) permission = any (λ p. text_eq p permission) permissions

-- `Allowed`
unfoldable pub allowed : Text → Text → Bool
allowed role permission = granted_to (lookup role grants) permission

-- `sensitivePermission`
unfoldable pub sensitive_permission : Text → Bool
sensitive_permission permission =
    text_eq permission operations_apply
    || (text_eq permission users_manage
        || (text_eq permission system_update
            || (text_eq permission firewall_write || text_eq permission deploy_write)))

-- What the session of a request carries; times are nanoseconds.
pub record Principal : Type 0 where
  pub role : Text
  pub mfa_verified_at : Option ℕ
  pub totp_confirmed_at : Option ℕ

abbrev is_some : Option ℕ → Bool
is_some none = false
is_some (some t) = true

-- `MFAEnrolled`
unfoldable pub mfa_enrolled : Principal → Bool
mfa_enrolled value = is_some value.totp_confirmed_at

unfoldable pub verified_recently : Option ℕ → ℕ → ℕ → Bool
verified_recently none now max_age = false
verified_recently (some verified_at) now max_age =
    not (ltb now verified_at) && leb (now - verified_at) max_age

-- `RecentMFA`
unfoldable pub recent_mfa : Principal → ℕ → ℤ → Bool
unfolding verified_recently
recent_mfa value now max_age =
    if is_nonpositive max_age
    then false
    else verified_recently value.mfa_verified_at now (pos_part max_age)

pub data Decision : Type 0 where
  authentication_required permission_denied mfa_step_up_required served : Decision

-- `Middleware`, by what it answers; `served` is the call of the handler.
unfoldable pub decide : ℕ → ℤ → Text → Option Principal → Decision
unfolding allowed sensitive_permission mfa_enrolled recent_mfa
decide now step_up_ttl permission none = authentication_required
decide now step_up_ttl permission (some user) =
    if not (allowed user.role permission)
    then permission_denied
    else if sensitive_permission permission
        && (mfa_enrolled user && not (recent_mfa user now step_up_ttl))
    then mfa_step_up_required
    else served
