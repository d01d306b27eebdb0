-- ===== src/Access/Tests.antt =====
-- Runs of the access checks, and their theorems at examples.
use nyzrating.Prelude.{◌≡◌, ◌↔◌, refl, true, ◌&&◌, some, List, [], ◌∷◌, All}
use nyzrating.Prelude.Text.{Text, codes, strip, truthy, mem_text, text_eq, lower}
use nyzrating.Prelude.Dict.{get}
use nyzrating.Users.{User}
use nyzrating.Access.{
  PermissionService, build_default_role_permissions, normalized_role, list_permissions_for_role,
  has_role_permission, has_permission, ensure_permission, ensure_all_permissions, normalize_values,
  is_nonempty, ensure_active_user,
}
use nyzrating.Access.Roles.{grants, default_service, has_role_permission_iff}
use nyzrating.Access.Checks.{ensure_all_permissions_iff}

abbrev known : List Text
known = codes "users.read" ∷ codes "auth.login" ∷ codes "billing.read" ∷ []

abbrev service : PermissionService
service = default_service known

abbrev anna : User
anna = record {
  id = 1;
  email = codes "a@b.hu";
  is_active = true;
  role = codes "Admin";
  failed_login_attempts = 0;
  security_version = 0;
  password_hash = [];
}

abbrev wanted : List Text
wanted = codes " users.read" ∷ codes "" ∷ codes "auth.login" ∷ []

both : (ensure_all_permissions service (some anna) wanted).allowed ≡ true
unfolding ensure_all_permissions normalize_values strip ensure_active_user has_permission
    has_role_permission list_permissions_for_role normalized_role lower mem_text text_eq get
    build_default_role_permissions
both = refl

has_role_permission_iff_example :
    has_role_permission service (some (codes "admin")) (codes "users.read") ≡ (
      truthy (strip (codes "users.read"))
      && mem_text (strip (codes "users.read")) known
      && grants service (some (codes "admin")) (strip (codes "users.read")))
has_role_permission_iff_example =
    has_role_permission_iff service (some (codes "admin")) (codes "users.read")

ensure_all_permissions_iff_example :
    ((ensure_all_permissions service (some anna) wanted).allowed ≡ true) ↔ (
      (is_nonempty (normalize_values wanted) ≡ true)
      × All
          (λ p. (ensure_permission service (some anna) p).allowed ≡ true)
          (normalize_values wanted))
ensure_all_permissions_iff_example = ensure_all_permissions_iff service (some anna) wanted
