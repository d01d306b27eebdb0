-- ===== src/Access.antt =====
-- Who may do what: backend/core/kernel/security/permission_service.py and
-- backend/core/modules/auth/domain/authorization_policy.py. A set of texts is a list, read by
-- membership only; a role is a text, an absent one `none`.
pub mod Roles
pub mod Checks
mod Tests
use nyzrating.Prelude.{
  ℕ, Bool, true, false, not, ◌&&◌, Option, none, some, List, [], ◌∷◌, ◌++◌, map, any, all, keep,
  or_else, if◌then◌else◌,
}
use nyzrating.Prelude.Text.{Text, codes, strip, lower, mem_text, truthy, text_or, or_empty}
use nyzrating.Prelude.Dict.{Dict, get}
use nyzrating.Users.{User}

unfoldable pub build_default_role_permissions : Dict (List Text)
build_default_role_permissions =
    (codes "owner", codes "*" ∷ [])
    ∷ (
      codes "admin",
      codes "auth.login"
          ∷ codes "auth.refresh"
          ∷ codes "auth.logout"
          ∷ codes "users.read"
          ∷ codes "users.write"
          ∷ codes "users.invite"
          ∷ codes "settings.read"
          ∷ codes "settings.write"
          ∷ codes "domain.read"
          ∷ codes "domain.write"
          ∷ codes "traffic.read"
          ∷ codes "traffic.write"
          ∷ [],
    )
    ∷ (codes "user", codes "auth.login" ∷ codes "auth.refresh" ∷ codes "auth.logout" ∷ [])
    ∷ []

pub record PermissionService : Type 0 where
  pub known_permissions : List Text
  pub role_permissions : Dict (List Text)

-- The stripped items that are not empty.
unfoldable pub normalize_values : List Text → List Text
normalize_values values = keep truthy (map strip values)

unfoldable pub register_permissions : List Text → PermissionService → PermissionService
unfolding normalize_values
register_permissions permissions service = record service {
  known_permissions = service.known_permissions ++ normalize_values permissions;
}

unfoldable pub normalized_role : Option Text → Text
normalized_role none = codes "user"
normalized_role (some role) = text_or (lower (strip (text_or role (codes "user")))) (codes "user")

unfoldable pub list_permissions_for_role : PermissionService → Option Text → List Text
list_permissions_for_role service role =
    let granted = or_else (get (normalized_role role) service.role_permissions) [] in
    if mem_text (codes "*") granted
    then service.known_permissions
    else keep (λ permission. mem_text permission service.known_permissions) granted

unfoldable pub has_role_permission : PermissionService → Option Text → Text → Bool
has_role_permission service role permission =
    let normalized_permission = strip permission in
    truthy normalized_permission
    && mem_text normalized_permission service.known_permissions
    && mem_text normalized_permission (list_permissions_for_role service role)

unfoldable pub has_permission : PermissionService → Option User → Text → Bool
has_permission service none permission = false
has_permission service (some user) permission =
    user.is_active && has_role_permission service (some user.role) permission

unfoldable pub has_any_permission : PermissionService → Option User → List Text → Bool
has_any_permission service user permissions = any (has_permission service user) permissions

pub record AuthorizationDecision : Type 0 where
  pub allowed : Bool
  pub reason : Option Text

abbrev denied : Text → AuthorizationDecision
denied reason = record { allowed = false; reason = some reason }

abbrev granted : AuthorizationDecision
granted = record { allowed = true; reason = none }

-- `", ".join(items)`
unfoldable pub join : List Text → Text
join [] = []
join (t ∷ []) = t
join (t ∷ u ∷ us) = t ++ codes ", " ++ join (u ∷ us)

unfoldable pub ensure_active_user : Option User → AuthorizationDecision
ensure_active_user none = denied (codes "missing_user")
ensure_active_user (some user) = if user.is_active then granted else denied (codes "inactive_user")

abbrev pub is_nonempty : List Text → Bool
is_nonempty [] = false
is_nonempty (t ∷ ts) = true

-- A check that is made for an active user only.
abbrev if_active : Option User → AuthorizationDecision → AuthorizationDecision
if_active user decision =
    let active = ensure_active_user user in if active.allowed then decision else active

unfoldable pub ensure_permission : PermissionService → Option User → Text → AuthorizationDecision
unfolding ensure_active_user
ensure_permission service user permission = if_active user (
    if has_permission service user permission
    then granted
    else denied (codes "missing_permission:" ++ permission))

unfoldable pub ensure_any_permission :
    PermissionService → Option User → List Text → AuthorizationDecision
unfolding ensure_active_user
ensure_any_permission service user permissions =
    let normalized = normalize_values permissions in
    if_active user (
      if is_nonempty normalized && has_any_permission service user normalized
      then granted
      else denied (codes "missing_any_permission:" ++ join normalized))

abbrev all_of : PermissionService → Option User → List Text → AuthorizationDecision
all_of service user [] = denied (codes "missing_all_permissions:")
all_of service user (p ∷ ps) =
    if all (has_permission service user) (p ∷ ps)
    then granted
    else denied (codes "missing_all_permissions:" ++ join (p ∷ ps))

unfoldable pub ensure_all_permissions :
    PermissionService → Option User → List Text → AuthorizationDecision
unfolding ensure_active_user
ensure_all_permissions service user permissions =
    if_active user (all_of service user (normalize_values permissions))

abbrev user_role : Option User → Text
user_role none = []
user_role (some user) = lower (strip user.role)

unfoldable pub ensure_role : Option User → List Text → AuthorizationDecision
unfolding ensure_active_user
ensure_role user roles =
    let normalized_roles = map lower (normalize_values roles) in
    if_active user (
      if is_nonempty normalized_roles && mem_text (user_role user) normalized_roles
      then granted
      else denied (codes "missing_role:" ++ join normalized_roles))
