-- ===== src/Auth/TwoFactor/Authenticators.antt =====
-- backend/core/modules/auth/repository/persistence/user_authenticator_repository.py: the secrets of
-- the authenticator apps, one row for a user.
use nyzrating.Prelude.{
  ℕ, Bool, true, false, Option, none, some, List, [], ◌∷◌, ltb, ◌==◌, if◌then◌else◌,
}
use nyzrating.Prelude.Text.{Text, strip, or_empty, text_or_none}

pub record Authenticator : Type 0 where
  pub user_id : ℕ
  pub secret_base32 : Option Text
  pub is_enabled : Bool
  pub pending_secret_base32 : Option Text
  pub pending_expires_at : Option ℕ

unfoldable pub get_by_user_id : ℕ → List Authenticator → Option Authenticator
get_by_user_id user_id [] = none
get_by_user_id user_id (row ∷ rows) =
    if row.user_id == user_id then some row else get_by_user_id user_id rows

-- The row of a user as a write leaves it, or a new one.
unfoldable pub upsert :
    ℕ → (Authenticator → Authenticator) → Authenticator → List Authenticator → List Authenticator
upsert user_id f new [] = new ∷ []
upsert user_id f new (row ∷ rows) =
    if row.user_id == user_id then f row ∷ rows else row ∷ upsert user_id f new rows

unfoldable pub upsert_pending_secret : ℕ → Text → ℕ → List Authenticator → List Authenticator
upsert_pending_secret user_id secret expires_at =
    upsert user_id
      (λ row. record row {
        pending_secret_base32 = some secret;
        pending_expires_at = some expires_at;
      })
      (record {
        user_id = user_id;
        secret_base32 = none;
        is_enabled = false;
        pending_secret_base32 = some secret;
        pending_expires_at = some expires_at;
      })

unfoldable pub enabled_row : ℕ → Text → Authenticator
enabled_row user_id secret = record {
  user_id = user_id;
  secret_base32 = some secret;
  is_enabled = true;
  pending_secret_base32 = none;
  pending_expires_at = none;
}

unfoldable pub enable_secret : ℕ → Text → List Authenticator → List Authenticator
enable_secret user_id secret =
    upsert user_id (λ row. enabled_row row.user_id secret) (enabled_row user_id secret)

unfoldable pub disable : ℕ → List Authenticator → List Authenticator
disable user_id [] = []
disable user_id (row ∷ rows) =
    if row.user_id == user_id
    then record row {
      secret_base32 = none;
      is_enabled = false;
      pending_secret_base32 = none;
      pending_expires_at = none;
    }
      ∷ rows
    else row ∷ disable user_id rows

unfoldable pub enabled_secret : Option Authenticator → Option Text
enabled_secret none = none
enabled_secret (some row) =
    if row.is_enabled then text_or_none (strip (or_empty row.secret_base32)) else none

unfoldable pub get_enabled_secret : ℕ → List Authenticator → Option Text
get_enabled_secret user_id rows = enabled_secret (get_by_user_id user_id rows)

-- An expiry is later than now.
abbrev pub later : ℕ → Option ℕ → Bool
later now none = false
later now (some expires_at) = ltb now expires_at

unfoldable pub pending_secret : ℕ → Option Authenticator → Option Text
pending_secret now none = none
pending_secret now (some row) =
    if later now row.pending_expires_at
    then text_or_none (or_empty row.pending_secret_base32)
    else none

unfoldable pub get_pending_secret : ℕ → ℕ → List Authenticator → Option Text
get_pending_secret now user_id rows = pending_secret now (get_by_user_id user_id rows)
