-- ===== src/Auth/TwoFactor/Counters.antt =====
-- The table of attempts as a map: to a scope and a key belong a count and the start of its window.
use nyzrating.Prelude.{
  ℕ, ◌+◌, ◌*◌, ◌≡◌, refl, Bool, false, not, ◌&&◌, ◌||◌, Option, none, some, List, [], ◌∷◌, ltb, leb,
  arith, if◌then◌else◌, ap, ◌∙◌,
}
use mathlib.Core.Path.{fun_ext}
use nyzrating.Prelude.Text.{Text, codes, text_eq, text_eq_iff, truthy, or_empty}
use nyzrating.Auth.Tokens.{minute}
use nyzrating.Auth.TwoFactor.Attempts.{
  Attempt, has_key, find_attempt, window_over, blocked_row, is_blocked, new_attempt,
  current_attempt, counted, record_failed, delete_attempt, reset_for_success, str,
}

-- A count and the start of its window, for a scope and a key.
abbrev pub Counters : Type 0
Counters = Text → Text → Option (ℕ × ℕ)

abbrev pub same : Text → Text → Text → Text → Bool
same scope key scope' key' = text_eq scope scope' && text_eq key key'

-- A failure counts on within the window, and begins a new one after it.
unfoldable pub count_failure : ℕ → ℕ → Option (ℕ × ℕ) → ℕ × ℕ
count_failure now window_minutes none = (1, now)
count_failure now window_minutes (some (n, start)) =
    if ltb (start + window_minutes * minute) now then (1, now) else (n + 1, start)

abbrev pub data_of : Option Attempt → Option (ℕ × ℕ)
data_of none = none
data_of (some row) = some (row.attempts, row.window_start_at)

unfoldable pub counters : List Attempt → Counters
counters rows scope key = data_of (find_attempt scope key rows)

-- The operations that write the table.
pub data Write : Type 0 where
  failure : ℕ → Text → Text → ℕ → Write
  success : Text → ℕ → Option Text → Write

unfoldable pub write : Write → List Attempt → List Attempt
write (failure now scope key window_minutes) = record_failed now scope key window_minutes
write (success token user_id ip) = reset_for_success token user_id ip

unfoldable pub writes : List Write → List Attempt → List Attempt
writes [] rows = rows
writes (w ∷ ws) rows = writes ws (write w rows)

-- A success clears the token, the user and the address.
unfoldable pub is_cleared : Text → ℕ → Option Text → Text → Text → Bool
is_cleared token user_id ip scope key =
    same (codes "token") token scope key
    || same (codes "user") (str user_id) scope key
    || (truthy (or_empty ip) && same (codes "ip") (or_empty ip) scope key)

-- The same writes on a map.
unfoldable pub write_counters : Write → Counters → Counters
write_counters (failure now s k window_minutes) c scope key =
    if same s k scope key then some (count_failure now window_minutes (c s k)) else c scope key
write_counters (success token user_id ip) c scope key =
    if is_cleared token user_id ip scope key then none else c scope key

unfoldable pub writes_counters : List Write → Counters → Counters
writes_counters [] c = c
writes_counters (w ∷ ws) c = writes_counters ws (write_counters w c)

pub find-counted :
    (now : ℕ) (s k : Text) (minutes : ℕ) (rows : List Attempt) (scope key : Text)
    → counters (record_failed now s k minutes rows) scope key ≡ (
        if same s k scope key
        then some (count_failure now minutes (counters rows s k))
        else counters rows scope key)
unfolding counters record_failed find_attempt has_key counted new_attempt count_failure
    current_attempt window_over
find-counted now s k minutes [] scope key = ground arith
find-counted now s k minutes (row ∷ rows) scope key = ground (
  arith,
  find-counted now s k minutes rows scope key,
  text_eq_iff row.scope s,
  text_eq_iff row.scope scope,
  text_eq_iff s scope,
  text_eq_iff row.scope_key k,
  text_eq_iff row.scope_key key,
  text_eq_iff k key,
)

find-deleted :
    (s k : Text) (rows : List Attempt) (scope key : Text)
    → counters (delete_attempt s k rows) scope key
      ≡ (if same s k scope key then none else counters rows scope key)
unfolding counters delete_attempt find_attempt has_key
find-deleted s k [] scope key = ground arith
find-deleted s k (row ∷ rows) scope key = ground (
  arith,
  find-deleted s k rows scope key,
  text_eq_iff row.scope s,
  text_eq_iff row.scope scope,
  text_eq_iff s scope,
  text_eq_iff row.scope_key k,
  text_eq_iff row.scope_key key,
  text_eq_iff k key,
)

-- A count blocks while its window lasts.
unfoldable pub count_blocks : ℕ → ℕ → ℕ → Option (ℕ × ℕ) → Bool
count_blocks now max_attempts window_minutes none = false
count_blocks now max_attempts window_minutes (some (n, start)) =
    leb max_attempts n && not (ltb (start + window_minutes * minute) now)

pub blocked-counters :
    (now : ℕ) (s k : Text) (m minutes : ℕ) (rows : List Attempt)
    → is_blocked now s k m minutes rows ≡ count_blocks now m minutes (counters rows s k)
unfolding is_blocked blocked_row window_over counters count_blocks
blocked-counters now s k m minutes rows = ground arith

reset-counters :
    (token : Text) (user_id : ℕ) (ip : Option Text) (rows : List Attempt) (scope key : Text)
    → counters (reset_for_success token user_id ip rows) scope key
      ≡ (if is_cleared token user_id ip scope key then none else counters rows scope key)
unfolding reset_for_success is_cleared
reset-counters token user_id none rows scope key =
    let once = delete_attempt (codes "token") token rows in
    ground (
      arith,
      find-deleted (codes "token") token rows scope key,
      find-deleted (codes "user") (str user_id) once scope key,
    )
reset-counters token user_id (some ip) rows scope key =
    let once = delete_attempt (codes "token") token rows in
    let twice = delete_attempt (codes "user") (str user_id) once in
    ground (
      arith,
      find-deleted (codes "token") token rows scope key,
      find-deleted (codes "user") (str user_id) once scope key,
      find-deleted (codes "ip") ip twice scope key,
    )

write_refines :
    (w : Write) (rows : List Attempt) → counters (write w rows) ≡ write_counters w (counters rows)
unfolding write write_counters
write_refines (failure now s k minutes) rows =
    fun_ext λ scope. fun_ext λ key. find-counted now s k minutes rows scope key
write_refines (success token user_id ip) rows =
    fun_ext λ scope. fun_ext λ key. reset-counters token user_id ip rows scope key

writes_refine_counters :
    (ws : List Write) (rows : List Attempt)
    → counters (writes ws rows) ≡ writes_counters ws (counters rows)
unfolding writes writes_counters
writes_refine_counters [] rows = refl
writes_refine_counters (w ∷ ws) rows =
    writes_refine_counters ws (write w rows) ∙ ap (writes_counters ws) (write_refines w rows)

-- After any failures and successes, from any table of attempts, a scope and a key are blocked
-- exactly when the map from scopes and keys to counts blocks them that the same failures and
-- successes lead to: a failure adds one within the window and begins a new window after it, and
-- a success clears the token, the user and the address.
pub is_blocked-refines :
    (ws : List Write) (rows : List Attempt) (now : ℕ) (scope key : Text) (m minutes : ℕ)
    → is_blocked now scope key m minutes (writes ws rows)
      ≡ count_blocks now m minutes (writes_counters ws (counters rows) scope key)
is_blocked-refines ws rows now scope key m minutes =
    blocked-counters now scope key m minutes (writes ws rows)
    ∙ ap (λ c. count_blocks now m minutes (c scope key)) (writes_refine_counters ws rows)
