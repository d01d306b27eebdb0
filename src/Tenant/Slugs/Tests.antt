-- ===== src/Tenant/Slugs/Tests.antt =====
-- Runs of the slug policy.
use nyzrating.Prelude.{◌≡◌, refl, true, false}
use nyzrating.Prelude.Text.{
  Text, codes, text_eq, is_digit, strip, lstrip, lower, lower_char, is_space, starts_with,
}
use nyzrating.Tenant.Slugs.{
  hyphenate, single_hyphens, lstrip_hyphens, demo_slug_base, slug_matches_demo_base,
}

abbrev company : Text
company = codes "  Nagy & Fia Kft. "

base_of_company : demo_slug_base (λ s. s) company ≡ codes "nagy-fia-kft"
unfolding demo_slug_base hyphenate single_hyphens lstrip_hyphens lower lower_char
base_of_company = refl

number_matches :
    slug_matches_demo_base is_digit (codes "nagy-fia-kft12") (codes "nagy-fia-kft") ≡ true
unfolding slug_matches_demo_base text_eq strip lstrip lower lower_char is_space starts_with is_digit
number_matches = refl

word_differs :
    slug_matches_demo_base is_digit (codes "nagy-fia-kft-x") (codes "nagy-fia-kft") ≡ false
unfolding slug_matches_demo_base text_eq strip lstrip lower lower_char is_space starts_with is_digit
word_differs = refl

abbrev long_name : Text
long_name = codes "aaaaaaaaaaaaaaaaaaaaaaaaaaaaaaaaaaaaaaaaaaaaaaa bbb"

-- The hyphen at the cut is kept.
cut_at_hyphen :
    demo_slug_base (λ s. s) long_name ≡ codes "aaaaaaaaaaaaaaaaaaaaaaaaaaaaaaaaaaaaaaaaaaaaaaa-"
unfolding demo_slug_base hyphenate single_hyphens lstrip_hyphens lower lower_char
cut_at_hyphen = refl
