-- ===== src/Users/Profile.antt =====
-- backend/core/modules/users/domain/policies/profile_policy.py: the locale and the theme of a
-- user, with those of the owner of the tenant where the user has none. Of a user only these two
-- are read here.
mod Tests
use nyzrating.Prelude.{
  ℕ, ◌≡◌, refl, ◌⊎◌, inl, inr, arith, Bool, true, false, Option, none, some, List, [], ◌∷◌,
  if◌then◌else◌, Bool-cases,
}
use nyzrating.Prelude.Text.{
  Text, codes, text_eq, truthy, or_empty, text_or, text_or_none, strip, lower, mem_text,
}

pub record Preferences : Type 0 where
  pub preferred_locale : Option Text
  pub preferred_theme : Option Text

abbrev pub supported_locales : List Text
supported_locales = codes "hu" ∷ codes "en" ∷ codes "es" ∷ []

abbrev pub supported_themes : List Text
supported_themes = codes "light" ∷ codes "dark" ∷ []

-- `value if value in supported else None`; the empty text is in neither list.
abbrev pub if_supported : List Text → Text → Option Text
if_supported supported value = if mem_text value supported then some value else none

unfoldable pub normalize_locale : Option Text → Option Text
normalize_locale none = none
normalize_locale (some locale) = if_supported supported_locales (lower (strip locale))

unfoldable pub normalize_theme : Option Text → Option Text
normalize_theme none = none
normalize_theme (some theme) = if_supported supported_themes (lower (strip theme))

abbrev pub owner_locale : Option Preferences → Text
owner_locale none = []
owner_locale (some owner) = or_empty owner.preferred_locale

abbrev pub owner_theme : Option Preferences → Text
owner_theme none = []
owner_theme (some owner) = or_empty owner.preferred_theme

abbrev pub or_supported : List Text → Text → Text → Text
or_supported supported value default = if mem_text value supported then value else default

unfoldable pub effective_locale_theme : Preferences → Option Preferences → Text × Text
effective_locale_theme user owner =
    let locale =
      text_or (or_empty user.preferred_locale) (text_or (owner_locale owner) (codes "hu")) in
    let theme =
      text_or (or_empty user.preferred_theme) (text_or (owner_theme owner) (codes "light")) in
    (
      or_supported supported_locales locale (codes "hu"),
      or_supported supported_themes theme (codes "light"),
    )

-- The locale and the theme of the answer.
unfoldable pub default_owner_settings : Option Preferences → Text × Text
default_owner_settings owner = (
  or_supported supported_locales (text_or (owner_locale owner) (codes "hu")) (codes "hu"),
  or_supported supported_themes (text_or (owner_theme owner) (codes "light")) (codes "light"),
)

-- A field that is absent from the updates is none.
pub record Updates : Type 0 where
  pub name : Option (Option Text)
  pub new_locale : Option (Option Text)
  pub new_theme : Option (Option Text)

abbrev pub when_given : (Text → Option Text) → Option Text → Option (Option Text)
when_given f none = none
when_given f (some value) = some (f value)

unfoldable pub build_profile_updates : Option Text → Option Text → Option Text → Updates
build_profile_updates name preferred_locale preferred_theme = record {
  name = when_given (λ n. text_or_none (strip n)) name;
  new_locale = when_given (λ l. normalize_locale (some l)) preferred_locale;
  new_theme = when_given (λ t. normalize_theme (some t)) preferred_theme;
}

or_supported_mem :
    (supported : List Text) (value default : Text)
    → mem_text default supported ≡ true
    → mem_text (or_supported supported value default) supported ≡ true
or_supported_mem supported value default h = elim (Bool-cases (mem_text value supported)) [
  | inl known ↦ rw known known
  | inr unknown ↦ rw unknown h
]

-- The locale and the theme in effect are supported, whatever is stored.
effective_locale_theme_supported :
    (user : Preferences) (owner : Option Preferences)
    → (mem_text (effective_locale_theme user owner).0 supported_locales ≡ true)
      × (mem_text (effective_locale_theme user owner).1 supported_themes ≡ true)
unfolding effective_locale_theme mem_text text_eq
effective_locale_theme_supported user owner = (
  or_supported_mem supported_locales
      (text_or (or_empty user.preferred_locale) (text_or (owner_locale owner) (codes "hu")))
      (codes "hu") refl,
  or_supported_mem supported_themes
      (text_or (or_empty user.preferred_theme) (text_or (owner_theme owner) (codes "light")))
      (codes "light") refl,
)

-- Without preferences of the user those of the owner are in effect.
effective_of_owner :
    (owner : Option Preferences)
    → effective_locale_theme (record { preferred_locale = none; preferred_theme = none }) owner
      ≡ default_owner_settings owner
unfolding effective_locale_theme default_owner_settings
effective_of_owner owner = refl
