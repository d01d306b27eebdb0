-- ===== src/Events/Outbox/Attempts.antt =====
-- Failures: the attempts, the delay, and the end of the attempts.
use nyzrating.Prelude.{
  ℕ, ◌+◌, ◌*◌, ◌≤◌, ◌<◌, ◌≡◌, ◌↔◌, true, false, arith, List, [], ◌∷◌, length, max, Option,
}
use nyzrating.Prelude.Text.{Text}
use nyzrating.Events.Outbox.{
  Row, dead_letter, processed, retry, mark_claimed, outbox_eligible, failed_row, second, is_open,
}

-- A round that fails: when and by whom the row was claimed, and what went wrong when.
pub record Round : Type 0 where
  pub claimed_at : ℕ
  pub owner : Option Text
  pub lease_until : ℕ
  pub error : Text
  pub failed_at : ℕ
  pub read_at : ℕ

module _ {P : Type 0} (max_attempts delay : ℕ) where
  -- The row after one round, and after many.
  abbrev fail_once : Row P → Round → Row P
  fail_once row r =
      failed_row r.error max_attempts delay r.failed_at r.read_at
        (mark_claimed r.claimed_at r.owner r.lease_until row)

  pub fail_rounds : Row P → List Round → Row P
  fail_rounds row [] = row
  fail_rounds row (r ∷ rs) = fail_rounds (fail_once row r) rs

  attempts-fail_rounds :
      (rs : List Round) (row : Row P) → (fail_rounds row rs).attempts ≡ row.attempts + length rs
  unfolding fail_rounds failed_row mark_claimed
  attempts-fail_rounds [] row = omega arith
  attempts-fail_rounds (r ∷ rs) row = ground (arith, attempts-fail_rounds rs (fail_once row r))

  abbrev IsSettled : Row P → Type 0
  IsSettled row = (row.status ≡ dead_letter) ↔ (max_attempts ≤ row.attempts)

  fail_once-IsSettled : (r : Round) (row : Row P) → IsSettled (fail_once row r)
  unfolding failed_row mark_claimed
  fail_once-IsSettled r row = ground arith

  rounds-IsSettled :
      (rs : List Round) (row : Row P) → IsSettled row → IsSettled (fail_rounds row rs)
  unfolding fail_rounds
  rounds-IsSettled [] row h = h
  rounds-IsSettled (r ∷ rs) row h =
      rounds-IsSettled rs (fail_once row r) (fail_once-IsSettled r row)

  -- After one or more rounds that are claimed and fail, the attempts have grown by the number of
  -- rounds, and the event is a dead letter exactly when they have reached the maximum.
  pub fail_rounds_settle :
      (r : Round) (rs : List Round) (row : Row P)
      → let end = fail_rounds row (r ∷ rs) in
        (end.attempts ≡ row.attempts + 1 + length rs)
        × ((end.status ≡ dead_letter) ↔ (max_attempts ≤ row.attempts + 1 + length rs))
  unfolding fail_rounds
  fail_rounds_settle r rs row =
      let n : (fail_rounds row (r ∷ rs)).attempts ≡ row.attempts + 1 + length rs =
        omega (arith, attempts-fail_rounds (r ∷ rs) row) in
      let s = rounds-IsSettled rs (fail_once row r) (fail_once-IsSettled r row) in
      (n, (λ h. omega (arith, s.0 h), λ h. s.1 (omega arith)))

  -- An event that is eligible after a failure is in the state retry, has attempts left, and the
  -- time of the failure plus the delay for each attempt has passed.
  failed_row_waits :
      (error : Text) (now later when : ℕ) (stale_before : ℕ) (row : Row P)
      → let after = failed_row error max_attempts delay now later row in
        outbox_eligible when stale_before after ≡ true
        → (after.status ≡ retry)
          × (row.attempts + 1 < max_attempts)
          × (later + max 1 delay * (row.attempts + 1) * second ≤ when)
  unfolding failed_row outbox_eligible
  failed_row_waits error now later when stale_before row h = ground arith

  -- A failure that is reported for an event that is already processed, with attempts left, makes
  -- the event eligible again after the delay.
  pub failed_row-processed :
      (error : Text) (now later when stale_before : ℕ) (row : Row P)
      → row.status ≡ processed
      → row.attempts + 1 < max_attempts
      → later + max 1 delay * (row.attempts + 1) * second ≤ when
      → outbox_eligible when stale_before (failed_row error max_attempts delay now later row) ≡ true
  unfolding failed_row outbox_eligible
  failed_row-processed error now later when stale_before row s h p = ground arith

  -- A processed event, and a dead letter, are not claimed.
  settled_not_eligible :
      (when stale_before : ℕ) (row : Row P)
      → is_open row.status ≡ false
      → outbox_eligible when stale_before row ≡ false
  unfolding outbox_eligible is_open
  settled_not_eligible when stale_before row h = ground arith
