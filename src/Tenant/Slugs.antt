-- ===== src/Tenant/Slugs.antt =====
-- backend/core/modules/tenant/slug/policy.py: the slugs, locales and names of demo tenants. What
-- Unicode says is a parameter: the decomposition NFKD, and which characters `str.isdigit` takes.
pub mod Candidates
mod Tests
use nyzrating.Prelude.{
  ℕ, suc, ◌+◌, ◌-◌, Bool, true, false, not, ◌&&◌, ◌||◌, List, [], ◌∷◌, ◌++◌, ◌==◌, ltb, leb, length,
  take, drop, all, keep, Option, none, some, if◌then◌else◌,
}
use mathlib.Core.List.{reverse}
use nyzrating.Prelude.Text.{
  Text, codes, text_eq, text_or, strip, lower, truthy, or_empty, starts_with, mem_text,
}
use nyzrating.Auth.TwoFactor.Attempts.{str}

abbrev pub hyphen : ℕ
hyphen = 45

abbrev pub is_ascii : ℕ → Bool
is_ascii c = ltb c 128

abbrev pub in_slug : ℕ → Bool
in_slug c = leb 97 c && leb c 122 || leb 48 c && leb c 57

-- `re.sub(r"[^a-z0-9]+", "-", s)`: the flag says whether the character before was replaced.
unfoldable pub hyphenate : Bool → Text → Text
hyphenate replaced [] = []
hyphenate replaced (c ∷ s) =
    let kept = hyphenate false s in
    let rest = hyphenate true s in
    if in_slug c then c ∷ kept else if replaced then rest else hyphen ∷ rest

-- `re.sub(r"-{2,}", "-", s)`: the flag says whether the character before was a hyphen.
unfoldable pub single_hyphens : Bool → Text → Text
single_hyphens after [] = []
single_hyphens after (c ∷ s) =
    let rest = single_hyphens (c == hyphen) s in if c == hyphen && after then rest else c ∷ rest

unfoldable pub lstrip_hyphens : Text → Text
lstrip_hyphens [] = []
lstrip_hyphens (c ∷ s) = let rest = lstrip_hyphens s in if c == hyphen then rest else c ∷ s

abbrev pub strip_hyphens : Text → Text
strip_hyphens s = reverse (lstrip_hyphens (reverse (lstrip_hyphens s)))

unfoldable pub demo_slug_base : (Text → Text) → Text → Text
demo_slug_base nfkd raw_name =
    let ascii_name = lower (keep is_ascii (nfkd raw_name)) in
    let hyphenated = single_hyphens false (strip_hyphens (hyphenate false ascii_name)) in
    take 48 (text_or hyphenated (codes "demo"))

unfoldable pub slug_matches_demo_base : (ℕ → Bool) → Text → Text → Bool
slug_matches_demo_base isdigit slug base =
    let normalized_slug = lower (strip slug) in
    let normalized_base = lower (strip base) in
    let suffix = drop (length normalized_base) normalized_slug in
    if not (truthy normalized_slug) || not (truthy normalized_base)
    then false
    else if text_eq normalized_slug normalized_base
    then true
    else if not (starts_with normalized_slug normalized_base)
    then false
    else truthy suffix && all isdigit suffix

-- `base[:64 - n]`, where a negative bound counts from the end.
abbrev pub cut : ℕ → Text → Text
cut n base = if leb n 64 then take (64 - n) base else take (length base - (n - 64)) base

unfoldable pub candidate_demo_slug : Text → ℕ → Text
candidate_demo_slug base suffix =
    if leb suffix 1 then take 64 base else cut (length (str suffix)) base ++ str suffix

unfoldable pub normalize_demo_locale : Option Text → Text
normalize_demo_locale locale =
    let normalized = lower (strip (or_empty locale)) in
    if mem_text normalized (codes "hu" ∷ codes "en" ∷ codes "es" ∷ [])
    then normalized
    else codes "hu"

unfoldable pub initial_demo_knowledge_base_name : Text → Text
initial_demo_knowledge_base_name locale =
    if text_eq locale (codes "en")
    then codes "Test knowledge base"
    else if text_eq locale (codes "es")
    then codes "Base de conocimiento de prueba"
    else codes "Teszt NYZRating"

unfoldable pub demo_host_hint : Text → Text → Text
demo_host_hint slug tenant_base_domain = slug ++ (codes "." ++ tenant_base_domain)
