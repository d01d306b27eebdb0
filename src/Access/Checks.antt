-- ===== src/Access/Checks.antt =====
-- How the checks of the policy relate.
use nyzrating.Prelude.{◌≡◌, refl, ◌↔◌, true, ◌&&◌, arith, Option, List, [], ◌∷◌, All, any, all}
use nyzrating.Prelude.Text.{Text}
use nyzrating.Users.{User}
use nyzrating.Access.{
  PermissionService, has_permission, has_any_permission, ensure_active_user, ensure_permission,
  ensure_any_permission, ensure_all_permissions, normalize_values, all_of, is_nonempty,
}

module _ (service : PermissionService) (user : Option User) where
  active_of_permission :
      (p : Text) → has_permission service user p ≡ true → (ensure_active_user user).allowed ≡ true
  unfolding has_permission ensure_active_user
  active_of_permission p h = ground arith

  -- One permission is allowed exactly when the user has it; a user who has one is active.
  ensure_permission_iff :
      (p : Text) → (ensure_permission service user p).allowed ≡ has_permission service user p
  unfolding ensure_permission
  ensure_permission_iff p = ground (arith, active_of_permission p)

  all_iff :
      (ps : List Text)
      → (all (has_permission service user) ps ≡ true)
        ↔ All (λ p. (ensure_permission service user p).allowed ≡ true) ps
  all_iff [] = (λ h. tt, λ h. refl)
  all_iff (p ∷ ps) = (
    λ h. ground (arith, all_iff ps, ensure_permission_iff p),
    λ h. ground (arith, all_iff ps, ensure_permission_iff p),
  )

  all_of_iff :
      (ps : List Text)
      → (all_of service user ps).allowed ≡ (is_nonempty ps && all (has_permission service user) ps)
  all_of_iff [] = refl
  all_of_iff (p ∷ ps) = ground arith

  active_of_all :
      (ps : List Text)
      → (is_nonempty ps && all (has_permission service user) ps) ≡ true
      → (ensure_active_user user).allowed ≡ true
  active_of_all [] h = cc
  active_of_all (p ∷ ps) h = active_of_permission p (ground arith)

  -- All permissions of a list are allowed exactly when it has an item that is not blank and each
  -- item that is not blank is allowed by itself.
  pub ensure_all_permissions_iff :
      (permissions : List Text)
      → let ps = normalize_values permissions in
        ((ensure_all_permissions service user permissions).allowed ≡ true) ↔ (
          (is_nonempty ps ≡ true) × All (λ p. (ensure_permission service user p).allowed ≡ true) ps)
  unfolding ensure_all_permissions
  ensure_all_permissions_iff permissions =
      let ps = normalize_values permissions in
      ground (arith, all_of_iff ps, active_of_all ps, all_iff ps)

  any_of_all :
      (ps : List Text)
      → (is_nonempty ps && all (has_permission service user) ps) ≡ true
      → (is_nonempty ps && any (has_permission service user) ps) ≡ true
  any_of_all [] h = h
  any_of_all (p ∷ ps) h = ground arith

  -- A list of permissions of which all are allowed is allowed where any of them would do.
  ensure_all-any :
      (permissions : List Text)
      → (ensure_all_permissions service user permissions).allowed ≡ true
      → (ensure_any_permission service user permissions).allowed ≡ true
  unfolding ensure_all_permissions ensure_any_permission has_any_permission
  ensure_all-any permissions h =
      let ps = normalize_values permissions in
      ground (arith, all_of_iff ps, active_of_all ps, any_of_all ps)
