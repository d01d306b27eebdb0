-- ===== src/Auth/Login/Below.antt =====
-- The counts of attempts that no limit has met.
use nyzrating.Prelude.{
  ℕ, ◌<◌, ◌≡◌, refl, Bool, true, false, ◌&&◌, Option, none, some, List, [], ◌∷◌, All, if◌then◌else◌,
  arith, inl, inr, Bool-cases, sym, ap, ◌∙◌, subst,
}
use nyzrating.Prelude.Text.{Text, text_eq_refl, truthy}
use nyzrating.Auth.TwoFactor.Attempts.{Attempt, has_key, find_attempt, is_blocked, record_failed}
use nyzrating.Auth.TwoFactor.Counters.{
  same, count_failure, counters, find-counted, count_blocks, blocked-counters,
}
use nyzrating.Auth.TwoFactor.Service.{any_blocked}
use nyzrating.Auth.Login.Second.{record_authenticator_failed}

abbrev pub IsBelow : ℕ → Option (ℕ × ℕ) → Type 0
IsBelow m none = Unit
IsBelow m (some (n, start)) = n < m

-- Every count in the table is below a limit.
abbrev pub AllBelow : ℕ → List Attempt → Type 0
AllBelow m rows = (scope key : Text) → IsBelow m (counters rows scope key)

pub rows-AllBelow :
    (m : ℕ) (rows : List Attempt) → All (λ row. row.attempts < m) rows → AllBelow m rows
unfolding counters find_attempt
rows-AllBelow m [] h scope key = tt
rows-AllBelow m (row ∷ rows) h scope key = elim (Bool-cases (has_key scope key row)) [
  | inl own ↦ rw own h.0
  | inr other ↦ rw other (rows-AllBelow m rows h.1 scope key)
]

below_free :
    (now m minutes : ℕ) (c : Option (ℕ × ℕ)) → IsBelow m c → count_blocks now m minutes c ≡ false
unfolding count_blocks
below_free now m minutes none h = refl
below_free now m minutes (some (n, start)) h = ground arith

-- A count that has just grown and does not block is below the limit.
grown-IsBelow :
    (now m minutes : ℕ) (c : Option (ℕ × ℕ))
    → count_blocks now m minutes (some (count_failure now minutes c)) ≡ false
    → IsBelow m (some (count_failure now minutes c))
unfolding count_blocks count_failure
grown-IsBelow now m minutes none h = ground arith
grown-IsBelow now m minutes (some (n, start)) h = ground arith

pub any_blocked-below :
    (now m minutes : ℕ) (scopes : List (Text × Text)) (rows : List Attempt)
    → AllBelow m rows
    → any_blocked now m minutes scopes rows ≡ false
unfolding any_blocked
any_blocked-below now m minutes [] rows h = refl
any_blocked-below now m minutes ((s, k) ∷ rest) rows h = ground (
  arith,
  blocked-counters now s k m minutes rows,
  below_free now m minutes (counters rows s k) (h s k),
  any_blocked-below now m minutes rest rows h,
)

IsBelow-if :
    (m : ℕ) (b : Bool) (x y : Option (ℕ × ℕ))
    → (b ≡ true → IsBelow m x)
    → IsBelow m y
    → IsBelow m (if b then x else y)
IsBelow-if m true x y p q = p refl
IsBelow-if m false x y p q = q

-- A failure that blocks nothing keeps every count below the limit.
failed-AllBelow :
    (now m minutes : ℕ) (s k : Text) (rows : List Attempt)
    → AllBelow m rows
    → is_blocked now s k m minutes (record_failed now s k minutes rows) ≡ false
    → AllBelow m (record_failed now s k minutes rows)
failed-AllBelow now m minutes s k rows h free scope key =
    let grown = some (count_failure now minutes (counters rows s k)) in
    let own : counters (record_failed now s k minutes rows) s k ≡ grown =
      ground (arith, find-counted now s k minutes rows s k, text_eq_refl s, text_eq_refl k) in
    let quiet : count_blocks now m minutes grown ≡ false =
      ap (count_blocks now m minutes) (sym own)
      ∙ sym (blocked-counters now s k m minutes (record_failed now s k minutes rows))
      ∙ free in
    subst (IsBelow m) (sym (find-counted now s k minutes rows scope key)) (
      IsBelow-if m (same s k scope key) grown (counters rows scope key)
        (λ _. grown-IsBelow now m minutes (counters rows s k) quiet) (h scope key))

scope-AllBelow :
    (now m minutes : ℕ) (s k : Text) (rows : List Attempt) (b : Bool)
    → AllBelow m rows
    → (b && is_blocked now s k m minutes (if b then record_failed now s k minutes rows else rows))
      ≡ false
    → AllBelow m (if b then record_failed now s k minutes rows else rows)
scope-AllBelow now m minutes s k rows true h free = failed-AllBelow now m minutes s k rows h free
scope-AllBelow now m minutes s k rows false h free = h

pub recorded-AllBelow :
    (now m minutes : ℕ) (scopes : List (Text × Text)) (rows : List Attempt)
    → AllBelow m rows
    → (record_authenticator_failed now m minutes scopes rows).0 ≡ false
    → AllBelow m (record_authenticator_failed now m minutes scopes rows).1
unfolding record_authenticator_failed
recorded-AllBelow now m minutes [] rows h free = h
recorded-AllBelow now m minutes ((s, k) ∷ rest) rows h free =
    let written = if truthy k then record_failed now s k minutes rows else rows in
    recorded-AllBelow now m minutes rest written
      (scope-AllBelow now m minutes s k rows (truthy k) h (ground arith)) (ground arith)
