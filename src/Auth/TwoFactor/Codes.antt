-- ===== src/Auth/TwoFactor/Codes.antt =====
-- backend/core/modules/auth/domain/dto/two_factor_code.py and
-- repository/persistence/two_factor_repository.py: the table of e-mailed codes, by ascending id.
-- A code is kept as its SHA-256, which is a parameter.
use nyzrating.Prelude.{
  ℕ, ◌+◌, Bool, true, false, not, ◌&&◌, Option, none, some, List, [], ◌∷◌, ◌++◌, map, ltb, ◌==◌,
  if◌then◌else◌,
}
use nyzrating.Prelude.Text.{Text, text_eq}

pub record TwoFactorCode : Type 0 where
  pub id : ℕ
  pub user_id : ℕ
  pub code_hash : Text
  pub email : Text
  pub expires_at : ℕ
  pub used : Bool

pub record CodeTable : Type 0 where
  pub rows : List TwoFactorCode
  pub next_id : ℕ

module _ (sha256_hex : Text → Text) where
  -- `TwoFactorCode.new`, under the id that the table gives.
  unfoldable pub new_code : ℕ → ℕ → Text → Text → ℕ → TwoFactorCode
  new_code id user_id code email expires_at = record {
    id = id;
    user_id = user_id;
    code_hash = sha256_hex code;
    email = email;
    expires_at = expires_at;
    used = false;
  }

  unfoldable pub create_code : ℕ → Text → Text → ℕ → CodeTable → CodeTable
  create_code user_id code email expires_at t = record {
    rows = t.rows ++ new_code t.next_id user_id code email expires_at ∷ [];
    next_id = t.next_id + 1;
  }

  unfoldable pub is_valid_code : ℕ → ℕ → Text → TwoFactorCode → Bool
  is_valid_code now user_id code row =
      row.user_id == user_id
      && text_eq row.code_hash (sha256_hex code)
      && not row.used
      && ltb now row.expires_at

  unfoldable pub find_valid : ℕ → ℕ → Text → List TwoFactorCode → Option TwoFactorCode
  find_valid now user_id code [] = none
  find_valid now user_id code (row ∷ rows) =
      if is_valid_code now user_id code row then some row else find_valid now user_id code rows

  -- The query takes the first row, here that of the least id.
  unfoldable pub get_valid_code : ℕ → ℕ → Text → CodeTable → Option TwoFactorCode
  get_valid_code now user_id code t = find_valid now user_id code t.rows

unfoldable pub used_code : TwoFactorCode → TwoFactorCode
used_code row = record row { used = true }

unfoldable pub invalidate_user_codes : ℕ → CodeTable → CodeTable
invalidate_user_codes user_id t = record t {
  rows = map (λ row. if row.user_id == user_id && not row.used then used_code row else row) t.rows;
}

unfoldable pub mark_as_used : ℕ → CodeTable → CodeTable
mark_as_used code_id t = record t {
  rows = map (λ row. if row.id == code_id then used_code row else row) t.rows;
}
