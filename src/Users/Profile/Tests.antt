-- ===== src/Users/Profile/Tests.antt =====
-- Runs of the profile policy.
use nyzrating.Prelude.{◌≡◌, refl, none, some}
use nyzrating.Prelude.Text.{codes, text_eq, strip, lstrip, lower, lower_char, is_space, mem_text}
use nyzrating.Users.Profile.{
  normalize_locale, normalize_theme, build_profile_updates, effective_locale_theme,
}

updates_of_form :
    build_profile_updates (some (codes "  ")) none (some (codes " DARK"))
    ≡ record { name = some none; new_locale = none; new_theme = some (some (codes "dark")) }
unfolding build_profile_updates normalize_theme text_eq strip lstrip lower lower_char is_space
    mem_text
updates_of_form = refl

unknown_locale : normalize_locale (some (codes "de")) ≡ none
unfolding normalize_locale text_eq strip lstrip lower lower_char is_space mem_text
unknown_locale = refl

locale_of_owner :
    effective_locale_theme
      (record { preferred_locale = none; preferred_theme = some (codes "pink") })
      (some (record { preferred_locale = some (codes "es"); preferred_theme = none }))
    ≡ (codes "es", codes "light")
unfolding effective_locale_theme text_eq mem_text
locale_of_owner = refl
