-- ===== src/Access/Roles.antt =====
-- What the roles grant.
use nyzrating.Prelude.{
  ◌≡◌, refl, inl, inr, Bool, true, ◌&&◌, ◌||◌, arith, Option, some, List, [], ◌∷◌, keep, or_else,
  Bool-cases, ap,
}
use nyzrating.Prelude.Text.{Text, codes, strip, lower, mem_text, text_eq, text_eq_iff, truthy}
use nyzrating.Prelude.Dict.{get}
use nyzrating.Access.{
  PermissionService, build_default_role_permissions, normalized_role, list_permissions_for_role,
  has_role_permission,
}

-- What a role's set of grants comes to, for a permission that is known.
unfoldable pub grants : PermissionService → Option Text → Text → Bool
grants service role permission =
    let set = or_else (get (normalized_role role) service.role_permissions) [] in
    mem_text (codes "*") set || mem_text permission set

if_mem :
    (known : List Text) (p q : Text) (rest : List Text)
    → mem_text p (keep (λ r. mem_text r known) rest) ≡ (mem_text p rest && mem_text p known)
    → mem_text p (keep (λ r. mem_text r known) (q ∷ rest))
      ≡ (mem_text p (q ∷ rest) && mem_text p known)
unfolding mem_text
if_mem known p q rest h = elim (Bool-cases (text_eq p q)) [
  | inr other ↦ ground (arith, h)
  | inl same ↦ ground (arith, h, ap (λ t. mem_text t known) ((text_eq_iff p q).0 same))
]

mem-keep :
    (known : List Text) (p : Text) (set : List Text)
    → mem_text p (keep (λ r. mem_text r known) set) ≡ (mem_text p set && mem_text p known)
unfolding mem_text
mem-keep known p [] = refl
mem-keep known p (q ∷ set) = if_mem known p q set (mem-keep known p set)

-- A role has a permission exactly when its stripped name is not empty, is known, and is granted
-- to the role by name or by the wildcard.
pub has_role_permission_iff :
    (service : PermissionService) (role : Option Text) (permission : Text)
    → let p = strip permission in
      has_role_permission service role permission
      ≡ (truthy p && mem_text p service.known_permissions && grants service role p)
unfolding has_role_permission list_permissions_for_role grants
has_role_permission_iff service role permission = ground (
  arith,
  mem-keep service.known_permissions (strip permission)
      (or_else (get (normalized_role role) service.role_permissions) []),
)

abbrev pub default_service : List Text → PermissionService
default_service known = record {
  known_permissions = known;
  role_permissions = build_default_role_permissions;
}

user_grants :
    (known : List Text) (p : Text)
    → grants (default_service known) (some (codes "user")) p ≡ true
    → grants (default_service known) (some (codes "admin")) p ≡ true
unfolding grants normalized_role build_default_role_permissions get text_eq strip lower mem_text
user_grants known p h = ground arith

owner_grants :
    (known : List Text) (p : Text) → grants (default_service known) (some (codes "owner")) p ≡ true
unfolding grants normalized_role build_default_role_permissions get text_eq strip lower mem_text
owner_grants known p = refl

-- Under the default table an admin has every permission that a user has, and an owner has all
-- that are known.
default_roles_ordered :
    (known : List Text) (permission : Text)
    → let service = default_service known in
      ((has_role_permission service (some (codes "user")) permission
          && has_role_permission service (some (codes "admin")) permission)
        ≡ has_role_permission service (some (codes "user")) permission)
      × (has_role_permission service (some (codes "owner")) permission
          ≡ (truthy (strip permission) && mem_text (strip permission) known))
default_roles_ordered known permission =
    let service = default_service known in
    let p = strip permission in
    let user = has_role_permission_iff service (some (codes "user")) permission in
    let admin = has_role_permission_iff service (some (codes "admin")) permission in
    let owner = has_role_permission_iff service (some (codes "owner")) permission in
    (ground (arith, user, admin, user_grants known p), ground (arith, owner, owner_grants known p))
