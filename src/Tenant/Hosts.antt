-- ===== src/Tenant/Hosts.antt =====
-- Hosts and slugs.
use nyzrating.Prelude.{
  ℕ, ◌-◌, ◌≡◌, refl, ◌⊎◌, inl, inr, arith, true, false, some, [], ◌∷◌, ◌++◌, length, length-append,
  take, Bool-cases, ap, sym, ◌∙◌, subst,
}
use mathlib.Core.List.{reverse, reverse-append, reverse-cons, map-append}
use nyzrating.Prelude.Text.{
  Text, codes, text_eq, text_eq_iff, strip, lstrip, lower, lower_char, is_space, starts_with,
  ends_with, strip_idem,
}
use nyzrating.Tenant.{
  DomainRoutingPolicy, custom_domain, localhost, platform_subdomain, normalized,
  primary_host_for_slug, normalize_custom_domain, host_kind, is_reserved, resolve_platform_slug,
}

is_space-lower_char : (c : ℕ) → is_space (lower_char c) ≡ is_space c
unfolding is_space lower_char
is_space-lower_char c = ground arith

lower_char_idem : (c : ℕ) → lower_char (lower_char c) ≡ lower_char c
unfolding lower_char
lower_char_idem c = ground arith

lower_idem : (s : Text) → lower (lower s) ≡ lower s
unfolding lower
lower_idem [] = refl
lower_idem (c ∷ s) = ground (arith, lower_char_idem c, lower_idem s)

lstrip-lower : (s : Text) → lstrip (lower s) ≡ lower (lstrip s)
unfolding lstrip lower
lstrip-lower [] = refl
lstrip-lower (c ∷ s) = ground (arith, is_space-lower_char c, lstrip-lower s)

reverse-lower : (s : Text) → reverse (lower s) ≡ lower (reverse s)
unfolding lower
reverse-lower [] = refl
reverse-lower (c ∷ s) =
    reverse-cons (lower_char c) (lower s)
    ∙ ap (λ r. r ++ lower_char c ∷ []) (reverse-lower s)
    ∙ rw (reverse-cons, map-append) refl

strip-lower : (s : Text) → strip (lower s) ≡ lower (strip s)
unfolding strip
strip-lower s =
    ap (λ t. reverse (lstrip (reverse t))) (lstrip-lower s)
    ∙ ap (λ t. reverse (lstrip t)) (reverse-lower (lstrip s))
    ∙ ap reverse (lstrip-lower (reverse (lstrip s)))
    ∙ reverse-lower (lstrip (reverse (lstrip s)))

-- Normal forms are normal.
normalized_idem : (host : Text) → normalized (normalized host) ≡ normalized host
unfolding normalized
normalized_idem host =
    ap lower (strip-lower (strip host))
    ∙ lower_idem (strip (strip host))
    ∙ ap lower (strip_idem host)

starts_with-append : (s t : Text) → starts_with (s ++ t) s ≡ true
unfolding starts_with
starts_with-append [] [] = refl
starts_with-append [] (c ∷ t) = refl
starts_with-append (c ∷ s) t = ground (arith, starts_with-append s t)

ends_with-append : (s t : Text) → ends_with (s ++ t) t ≡ true
unfolding ends_with
ends_with-append s t =
    subst (λ r. starts_with r (reverse t) ≡ true) (sym (reverse-append s t))
      (starts_with-append (reverse t) (reverse s))

take-append : (s t : Text) → take (length s) (s ++ t) ≡ s
take-append [] [] = refl
take-append [] (c ∷ t) = refl
take-append (c ∷ s) t = ap (λ u. c ∷ u) (take-append s t)

take_of_length : (s t : Text) (n : ℕ) → n ≡ length s → take n (s ++ t) ≡ s
take_of_length s t n e = subst (λ m. take m (s ++ t) ≡ s) (sym e) (take-append s t)

module _ (policy : DomainRoutingPolicy) where
  -- A custom domain that is accepted is in normal form, is not reserved for the platform, and is
  -- routed as a custom domain or as localhost.
  pub normalize_custom_domain-kind :
      (domain host : Text)
      → normalize_custom_domain policy domain ≡ some host
      → (normalized host ≡ host)
        × (is_reserved policy host ≡ false)
        × ((host_kind policy host ≡ custom_domain) ⊎ (host_kind policy host ≡ localhost))
  unfolding normalize_custom_domain host_kind
  normalize_custom_domain-kind domain host h = ground (arith, normalized_idem domain)

  not_base :
      (slug : Text) → text_eq (primary_host_for_slug policy slug) policy.tenant_base_domain ≡ false
  unfolding primary_host_for_slug
  not_base slug =
      elim (Bool-cases (text_eq (primary_host_for_slug policy slug) policy.tenant_base_domain)) [
        | inr other ↦ other
        | inl same ↦
            let e : length (slug ++ (codes "." ++ policy.tenant_base_domain))
                ≡ length policy.tenant_base_domain =
              ap length (
                (text_eq_iff (primary_host_for_slug policy slug) policy.tenant_base_domain).0
                  same) in
            absurd (
              omega (
                arith,
                e,
                length-append slug (codes "." ++ policy.tenant_base_domain),
                length-append (codes ".") policy.tenant_base_domain,
              ))
      ]

  subdomain :
      (c : ℕ) (rest : Text)
      → normalized (primary_host_for_slug policy (c ∷ rest))
        ≡ primary_host_for_slug policy (c ∷ rest)
      → host_kind policy (primary_host_for_slug policy (c ∷ rest)) ≡ platform_subdomain
  unfolding host_kind primary_host_for_slug
  subdomain c rest p =
      let ends = ends_with-append (c ∷ rest) (codes "." ++ policy.tenant_base_domain) in
      rw (p, not_base (c ∷ rest), ends) refl

  cut :
      (slug : Text)
      → take
          (length (primary_host_for_slug policy slug) - length policy.tenant_base_domain - 1)
          (primary_host_for_slug policy slug)
        ≡ slug
  unfolding primary_host_for_slug
  cut slug =
      let base = policy.tenant_base_domain in
      take_of_length slug (codes "." ++ base) _
        (omega (arith, length-append slug (codes "." ++ base), length-append (codes ".") base))

  -- The primary host of a slug that is not empty resolves to the slug, when the slug and the
  -- host are in normal form.
  pub resolve_platform_slug-primary_host :
      (c : ℕ) (rest : Text)
      → let slug = c ∷ rest in
        normalized slug ≡ slug
        → normalized (primary_host_for_slug policy slug) ≡ primary_host_for_slug policy slug
        → resolve_platform_slug policy (primary_host_for_slug policy slug) ≡ some slug
  unfolding resolve_platform_slug
  resolve_platform_slug-primary_host c rest h p =
      let slug = c ∷ rest in rw (subdomain c rest p, p, cut slug, h) refl
