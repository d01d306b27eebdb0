-- ===== src/Auth/TwoFactor/Service.antt =====
-- backend/core/modules/auth/use_cases/two_factor_service.py: e-mailed codes under a limit of
-- attempts for the pending token, the user and the address. Spans and metrics are left out.
use nyzrating.Prelude.{
  ℕ, ◌+◌, ◌*◌, Bool, true, false, ◌&&◌, ◌||◌, Option, none, some, is_some, List, [], ◌∷◌,
  if◌then◌else◌,
}
use nyzrating.Prelude.Text.{Text, codes, truthy, or_empty}
use nyzrating.Auth.Tokens.{minute}
use nyzrating.Auth.TwoFactor.Attempts.{Attempt, is_blocked, record_failed, reset_for_success, str}
use nyzrating.Auth.TwoFactor.Codes.{
  TwoFactorCode, CodeTable, create_code, get_valid_code, invalidate_user_codes, mark_as_used,
}

pub record TwoFactorService : Type 0 where
  pub has_attempt_repo : Bool
  pub max_attempts : ℕ
  pub attempt_window_minutes : ℕ
  pub code_expiry_minutes : ℕ

-- The two tables that the service writes.
pub record Factors : Type 0 where
  pub code_table : CodeTable
  pub attempt_rows : List Attempt

-- A number below 900000 is drawn.
unfoldable pub generate_code : ℕ → Text
generate_code drawn = str (drawn + 100000)

unfoldable pub scopes : ℕ → Option Text → Option Text → List (Text × Text)
scopes user_id pending_token ip =
    (codes "token", or_empty pending_token)
    ∷ (codes "user", str user_id)
    ∷ (codes "ip", or_empty ip)
    ∷ []

-- Some scope with a key is blocked.
unfoldable pub any_blocked : ℕ → ℕ → ℕ → List (Text × Text) → List Attempt → Bool
any_blocked now max_attempts window_minutes [] rows = false
any_blocked now max_attempts window_minutes ((scope, key) ∷ rest) rows =
    (truthy key && is_blocked now scope key max_attempts window_minutes rows)
    || any_blocked now max_attempts window_minutes rest rows

-- A failure in every scope with a key.
unfoldable pub record_scopes : ℕ → ℕ → List (Text × Text) → List Attempt → List Attempt
record_scopes now window_minutes [] rows = rows
record_scopes now window_minutes ((scope, key) ∷ rest) rows =
    record_scopes now window_minutes rest
      (if truthy key then record_failed now scope key window_minutes rows else rows)

module _ (sha256_hex : Text → Text) (svc : TwoFactorService) where
  -- The code is queued or sent by e-mail, which is a function; `none` is the error when it fails.
  unfoldable pub create_and_send_code :
      ℕ → ℕ → (Text → Text → Bool) → ℕ → Text → Factors → Option Factors
  create_and_send_code now drawn sends user_id email f =
      let code = generate_code drawn in
      let expires_at = now + svc.code_expiry_minutes * minute in
      let saved =
        create_code sha256_hex user_id code email expires_at
          (invalidate_user_codes user_id f.code_table) in
      if sends email code then some (record f { code_table = saved }) else none

  abbrev pub after_lookup :
      ℕ → ℕ → Option Text → Option Text → Factors → Option TwoFactorCode → Bool × Factors
  after_lookup now user_id pending_token ip f none =
      if svc.has_attempt_repo && (truthy (or_empty pending_token) || is_some ip)
      then (
        false,
        record f {
          attempt_rows =
              record_scopes now svc.attempt_window_minutes (scopes user_id pending_token ip)
                f.attempt_rows;
        },
      )
      else (false, f)
  after_lookup now user_id pending_token ip f (some code) = (
    true,
    record f {
      code_table = mark_as_used code.id f.code_table;
      attempt_rows =
          if svc.has_attempt_repo
          then reset_for_success (or_empty pending_token) user_id ip f.attempt_rows
          else f.attempt_rows;
    },
  )

  unfoldable pub is_limited : ℕ → ℕ → Option Text → Option Text → Factors → Bool
  is_limited now user_id pending_token ip f =
      svc.has_attempt_repo
      && any_blocked now svc.max_attempts svc.attempt_window_minutes
          (scopes user_id pending_token ip) f.attempt_rows

  -- `none` is TwoFactorTooManyAttemptsError.
  unfoldable pub verify_code :
      ℕ → ℕ → Text → Option Text → Option Text → Factors → Option (Bool × Factors)
  verify_code now user_id code pending_token ip f =
      if is_limited now user_id pending_token ip f
      then none
      else some (
          after_lookup now user_id pending_token ip f
            (get_valid_code sha256_hex now user_id code f.code_table))
