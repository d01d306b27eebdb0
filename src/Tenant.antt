-- ===== src/Tenant.antt =====
-- backend/core/modules/tenant/domain/tenant_policy.py: the life of a tenant, and the hosts that
-- lead to it. `none` in a result is a `ValueError`.
pub mod Hosts
pub mod Signup
pub mod Slugs
mod Tests
use nyzrating.Prelude.{
  ℕ, zero, suc, ◌+◌, ◌-◌, ◌≡◌, refl, ◌↔◌, ◌⊎◌, inl, inr, arith, Bool, true, false, not, ◌&&◌, ◌||◌,
  Option, none, some, List, [], ◌∷◌, ◌++◌, length, take, if◌then◌else◌, is_some, Bool-cases,
}
use nyzrating.Prelude.Text.{
  Text, codes, text_eq, strip, lower, truthy, or_empty, text_or_none, ends_with,
}

-- `suspended_reason` counts when it is not empty.
pub record TenantStatus : Type 0 where
  pub is_active : Bool
  pub suspended_reason : Option Text

pub data State : Type 0 where
  provisioning active suspended : State

-- The name of a state, as the code spells it.
abbrev pub state_name : State → Text
state_name provisioning = codes "provisioning"
state_name active = codes "active"
state_name suspended = codes "suspended"

pub record TenantLifecycleState : Type 0 where
  pub status : State
  pub is_routable : Bool
  pub can_activate : Bool
  pub can_suspend : Bool

abbrev lifecycle : State → Bool → Bool → Bool → TenantLifecycleState
lifecycle status routable activate suspend = record {
  status = status;
  is_routable = routable;
  can_activate = activate;
  can_suspend = suspend;
}

unfoldable pub resolve_state : Option TenantStatus → TenantLifecycleState
resolve_state none = lifecycle provisioning false false false
resolve_state (some status) =
    if status.is_active
    then lifecycle active true false true
    else if truthy (or_empty status.suspended_reason)
    then lifecycle suspended false true false
    else lifecycle provisioning false true false

-- `true` where the transition is accepted, `false` where it is the `ValueError`.
unfoldable pub assert_transition : Option TenantStatus → Text → Bool
assert_transition current_status target_state =
    let current = resolve_state current_status in
    let target = lower (strip target_state) in
    text_eq target (state_name active) && current.can_activate
    || text_eq target (state_name suspended) && current.can_suspend

unfoldable pub assert_routable : Option TenantStatus → Bool
assert_routable status = (resolve_state status).is_routable

-- `(text or "").strip().lower()`
unfoldable pub normalized : Text → Text
normalized host = lower (strip host)

pub record DomainRoutingPolicy : Type 0 where
  pub tenant_base_domain : Text
  pub localhost_tenant : Option Text

unfoldable pub domain_routing_policy : Option Text → Option Text → DomainRoutingPolicy
unfolding normalized
domain_routing_policy base localhost = record {
  tenant_base_domain = normalized (or_empty base);
  localhost_tenant = text_or_none (normalized (or_empty localhost));
}

pub data HostKind : Type 0 where
  missing platform_root platform_subdomain localhost custom_domain : HostKind

module _ (policy : DomainRoutingPolicy) where
  unfoldable pub primary_host_for_slug : Text → Text
  primary_host_for_slug slug = slug ++ (codes "." ++ policy.tenant_base_domain)

  -- A host of the platform: the base domain, or one below it.
  abbrev pub is_reserved : Text → Bool
  is_reserved host =
      text_eq host policy.tenant_base_domain
      || ends_with host (codes "." ++ policy.tenant_base_domain)

  unfoldable pub normalize_custom_domain : Text → Option Text
  normalize_custom_domain domain =
      let host = normalized domain in
      if not (truthy host) || is_reserved host then none else some host

  unfoldable pub host_kind : Text → HostKind
  host_kind host =
      let name = normalized host in
      if not (truthy name)
      then missing
      else if text_eq name policy.tenant_base_domain
      then platform_root
      else if ends_with name (codes "." ++ policy.tenant_base_domain)
      then platform_subdomain
      else if is_some policy.localhost_tenant
          && (text_eq name (codes "localhost") || text_eq name (codes "127.0.0.1"))
      then localhost
      else custom_domain

  abbrev slug_of_kind : HostKind → Text → Option Text
  slug_of_kind platform_subdomain name =
      text_or_none (normalized (take (length name - length policy.tenant_base_domain - 1) name))
  slug_of_kind localhost name = policy.localhost_tenant
  slug_of_kind missing name = none
  slug_of_kind platform_root name = none
  slug_of_kind custom_domain name = none

  unfoldable pub resolve_platform_slug : Text → Option Text
  resolve_platform_slug host = slug_of_kind (host_kind host) (normalized host)

-- A domain of a tenant: its name, and when it was verified.
pub record TenantDomain : Type 0 where
  pub tenant_id : ℕ
  pub domain : Text
  pub verified_at : Option ℕ

pub data DomainClass : Type 0 where
  platform_primary custom_verified custom_pending : DomainClass

unfoldable pub classify_domain_record : DomainRoutingPolicy → TenantDomain → Text → DomainClass
classify_domain_record policy domain tenant_slug =
    if text_eq (normalized domain.domain) (primary_host_for_slug policy tenant_slug)
    then platform_primary
    else if is_some domain.verified_at
    then custom_verified
    else custom_pending

-- `str(tenant_id)` is kept as the id.
pub record CustomRoute : Type 0 where
  pub tenant_id : Option ℕ
  pub is_routable : Bool
  pub lifecycle_state : Text
  pub reason : Text

unfoldable pub route_for_custom_domain : Option TenantDomain → CustomRoute
route_for_custom_domain none = record {
  tenant_id = none;
  is_routable = false;
  lifecycle_state = codes "missing";
  reason = codes "custom_domain_not_found";
}
route_for_custom_domain (some domain) = record {
  tenant_id = some domain.tenant_id;
  is_routable = is_some domain.verified_at;
  lifecycle_state =
      if is_some domain.verified_at then codes "verified" else codes "pending_verification";
  reason =
      if is_some domain.verified_at
      then codes "custom_domain_verified"
      else codes "custom_domain_unverified";
}

-- At any time a tenant can be activated or suspended, never both, and it is routed to exactly when
-- it can be suspended; only a tenant with no status can do neither.
lifecycle_exclusive :
    (status : Option TenantStatus)
    → let s = resolve_state status in
      (s.can_activate && s.can_suspend ≡ false)
      × (assert_routable status ≡ s.can_suspend)
      × (s.can_activate || s.can_suspend ≡ is_some status)
unfolding resolve_state assert_routable
lifecycle_exclusive status = ground arith
