-- ===== src/Auth/TwoFactor/Attempts.antt =====
-- backend/core/modules/auth/repository/persistence/two_factor_attempt_repository.py and
-- models/two_factor_attempt_orm.py: the failed attempts of a scope and a key, in a window of time.
use nyzrating.Prelude.{
  ℕ, zero, suc, ◌+◌, ◌*◌, ◌/◌, ◌%◌, Bool, false, not, ◌&&◌, Option, none, some, List, [], ◌∷◌, ◌++◌,
  leb, ltb, keep, if◌then◌else◌,
}
use nyzrating.Prelude.Text.{Text, codes, text_eq, truthy}
use nyzrating.Auth.Tokens.{minute}

-- Less the id and the columns that say who wrote a row.
pub record Attempt : Type 0 where
  pub scope : Text
  pub scope_key : Text
  pub attempts : ℕ
  pub window_start_at : ℕ

unfoldable pub has_key : Text → Text → Attempt → Bool
has_key scope key row = text_eq row.scope scope && text_eq row.scope_key key

unfoldable pub find_attempt : Text → Text → List Attempt → Option Attempt
find_attempt scope key [] = none
find_attempt scope key (row ∷ rows) =
    if has_key scope key row then some row else find_attempt scope key rows

-- now - window_start_at > window, which a start in the future is not
unfoldable pub window_over : ℕ → ℕ → Attempt → Bool
window_over now window_minutes row = ltb (row.window_start_at + window_minutes * minute) now

unfoldable pub blocked_row : ℕ → ℕ → ℕ → Option Attempt → Bool
blocked_row now max_attempts window_minutes none = false
blocked_row now max_attempts window_minutes (some row) =
    if window_over now window_minutes row then false else leb max_attempts row.attempts

unfoldable pub is_blocked : ℕ → Text → Text → ℕ → ℕ → List Attempt → Bool
is_blocked now scope key max_attempts window_minutes rows =
    blocked_row now max_attempts window_minutes (find_attempt scope key rows)

unfoldable pub new_attempt : ℕ → Text → Text → Attempt
new_attempt now scope key = record {
  scope = scope;
  scope_key = key;
  attempts = 0;
  window_start_at = now;
}

-- A window that is over begins again.
unfoldable pub current_attempt : ℕ → ℕ → Attempt → Attempt
current_attempt now window_minutes row =
    if window_over now window_minutes row
    then record row { attempts = 0; window_start_at = now }
    else row

unfoldable pub counted : Attempt → Attempt
counted row = record row { attempts = row.attempts + 1 }

-- The row of `_get_or_create`, counted; the unique index allows one row for a scope and a key.
unfoldable pub record_failed : ℕ → Text → Text → ℕ → List Attempt → List Attempt
record_failed now scope key window_minutes [] = counted (new_attempt now scope key) ∷ []
record_failed now scope key window_minutes (row ∷ rows) =
    if has_key scope key row
    then counted (current_attempt now window_minutes row) ∷ rows
    else row ∷ record_failed now scope key window_minutes rows

-- A query with `delete`.
unfoldable pub delete_attempt : Text → Text → List Attempt → List Attempt
delete_attempt scope key = keep (λ row. not (has_key scope key row))

abbrev decimal_digits : ℕ → ℕ → Text
decimal_digits zero n = []
decimal_digits (suc fuel) n =
    let rest = decimal_digits fuel (n / 10) in
    if ltb n 10 then (48 + n) ∷ [] else rest ++ (48 + n % 10) ∷ []

-- `str(n)`; a number has no more digits than one above itself.
unfoldable pub str : ℕ → Text
str n = decimal_digits (suc n) n

unfoldable pub reset_for_success : Text → ℕ → Option Text → List Attempt → List Attempt
reset_for_success pending_token_key user_id none rows =
    delete_attempt (codes "user") (str user_id)
      (delete_attempt (codes "token") pending_token_key rows)
reset_for_success pending_token_key user_id (some ip) rows =
    let left =
      delete_attempt (codes "user") (str user_id)
        (delete_attempt (codes "token") pending_token_key rows) in
    if truthy ip then delete_attempt (codes "ip") ip left else left
