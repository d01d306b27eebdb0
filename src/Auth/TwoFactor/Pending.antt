-- ===== src/Auth/TwoFactor/Pending.antt =====
-- backend/core/modules/auth/repository/persistence/pending_2fa_repository.py: the logins that
-- wait for a second factor.
use nyzrating.Prelude.{
  ℕ, not, ◌&&◌, Option, none, some, List, [], ◌∷◌, ◌++◌, ltb, keep, any, if◌then◌else◌,
}
use nyzrating.Prelude.Text.{Text, text_eq}

pub record PendingLogin : Type 0 where
  pub token : Text
  pub user_id : ℕ
  pub expires_at : ℕ

-- `none` is the error of the unique index on the token.
unfoldable pub create_pending : Text → ℕ → ℕ → List PendingLogin → Option (List PendingLogin)
create_pending token user_id expires_at rows =
    if any (λ row. text_eq row.token token) rows
    then none
    else some (rows ++ record { token = token; user_id = user_id; expires_at = expires_at } ∷ [])

unfoldable pub get_user_id : ℕ → Text → List PendingLogin → Option ℕ
get_user_id now token [] = none
get_user_id now token (row ∷ rows) =
    if text_eq row.token token && ltb now row.expires_at
    then some row.user_id
    else get_user_id now token rows

unfoldable pub consume : Text → List PendingLogin → List PendingLogin
consume token = keep (λ row. not (text_eq row.token token))
