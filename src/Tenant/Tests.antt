-- ===== src/Tenant/Tests.antt =====
-- Hosts of tenants, and the theorems at examples.
use nyzrating.Prelude.{◌≡◌, refl, ◌⊎◌, false, Option, some}
use nyzrating.Prelude.Text.{codes, text_eq, strip, lower, ends_with, starts_with}
use nyzrating.Tenant.{
  TenantStatus, DomainRoutingPolicy, custom_domain, localhost, normalized, primary_host_for_slug,
  normalize_custom_domain, host_kind, is_reserved, resolve_platform_slug,
}
use nyzrating.Tenant.Hosts.{normalize_custom_domain-kind, resolve_platform_slug-primary_host}

abbrev policy : DomainRoutingPolicy
policy = record { tenant_base_domain = codes "app.hu"; localhost_tenant = some (codes "demo") }

abbrev paused : Option TenantStatus
paused = some (record { is_active = false; suspended_reason = some (codes "unpaid") })

own_domain : normalize_custom_domain policy (codes " Shop.example ") ≡ some (codes "shop.example")
unfolding normalize_custom_domain normalized strip lower text_eq ends_with starts_with
own_domain = refl

normalize_custom_domain-kind_example :
    (normalized (codes "shop.example") ≡ codes "shop.example")
    × (is_reserved policy (codes "shop.example") ≡ false)
    × ((host_kind policy (codes "shop.example") ≡ custom_domain)
        ⊎ (host_kind policy (codes "shop.example") ≡ localhost))
normalize_custom_domain-kind_example =
    normalize_custom_domain-kind policy (codes " Shop.example ") (codes "shop.example") own_domain

normal_slug : normalized (codes "acme") ≡ codes "acme"
unfolding normalized strip lower
normal_slug = refl

normal_host :
    normalized (primary_host_for_slug policy (codes "acme"))
    ≡ primary_host_for_slug policy (codes "acme")
unfolding primary_host_for_slug normalized strip lower
normal_host = refl

resolve_platform_slug-primary_host_example :
    resolve_platform_slug policy (primary_host_for_slug policy (codes "acme")) ≡ some (codes "acme")
resolve_platform_slug-primary_host_example =
    resolve_platform_slug-primary_host policy 97 (codes "cme") normal_slug normal_host
