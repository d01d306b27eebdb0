-- ===== src/Events/Outbox/Settle.antt =====
-- backend/core/kernel/events/outbox.py: the end of an event, and what an operator does to it.
use nyzrating.Prelude.{ℕ, ◌+◌, ◌*◌, max, Bool, none, some, leb, if◌then◌else◌, is_some, count, take}
use nyzrating.Prelude.Text.{Text}
use nyzrating.Events.Outbox.Rows.{
  is_open, Row, Table, second, find_id, update_row, on_row, pending, retry, processed, dead_letter,
}

module _ {P : Type 0} where
  -- The columns that `ack`, `fail`, `dead_letter` and `requeue_job` clear.
  abbrev pub unlocked : Row P → Row P
  unlocked row = record row {
    locked_at = none;
    lock_owner = none;
    leased_by = none;
    lease_until = none;
  }

  unfoldable pub processed_row : ℕ → Row P → Row P
  processed_row now row = record (unlocked row) {
    status = processed;
    processed_at = some now;
    finished_at = some now;
    updated_at = now;
    last_error = none;
  }

  unfoldable pub mark_processed : ℕ → ℕ → Table P → Table P
  unfolding processed_row update_row
  mark_processed event_id now = on_row event_id (processed_row now)

  unfoldable pub ack : ℕ → ℕ → Table P → Table P
  unfolding mark_processed
  ack = mark_processed

  -- `now` is read for `updated_at`, and `later` for the retry or the end.
  unfoldable pub failed_row : Text → ℕ → ℕ → ℕ → ℕ → Row P → Row P
  failed_row error max_attempts retry_delay_seconds now later row =
      let attempts = row.attempts + 1 in
      let noted : Row P = record (unlocked row) {
        attempts = attempts;
        last_error = some (take 4000 error);
        updated_at = now;
      } in
      if leb max_attempts attempts
      then record noted { status = dead_letter; finished_at = some later }
      else record noted {
        status = retry;
        next_retry_at = later + max 1 retry_delay_seconds * attempts * second;
      }

  unfoldable pub mark_failed : ℕ → Text → ℕ → ℕ → ℕ → ℕ → Table P → Table P
  unfolding failed_row update_row
  mark_failed event_id error max_attempts retry_delay_seconds now later =
      on_row event_id (failed_row error max_attempts retry_delay_seconds now later)

  unfoldable pub fail : ℕ → Text → ℕ → ℕ → ℕ → ℕ → Table P → Table P
  unfolding mark_failed
  fail = mark_failed

  unfoldable pub retry_event : ℕ → Text → ℕ → ℕ → ℕ → Table P → Table P
  unfolding mark_failed
  retry_event event_id error retry_delay_seconds =
      mark_failed event_id error 1000000000 retry_delay_seconds

  unfoldable pub dead_row : Text → ℕ → Row P → Row P
  dead_row error now row = record (unlocked row) {
    attempts = row.attempts + 1;
    last_error = some (take 4000 error);
    status = dead_letter;
    updated_at = now;
    finished_at = some now;
  }

  unfoldable pub dead_letter_event : ℕ → Text → ℕ → Table P → Table P
  unfolding dead_row update_row
  dead_letter_event event_id error now = on_row event_id (dead_row error now)

  unfoldable pub requeued_row : ℕ → Row P → Row P
  requeued_row now row = record (unlocked row) {
    status = pending;
    next_retry_at = now;
    updated_at = now;
    last_error = none;
    finished_at = none;
  }

  unfoldable pub requeue_job : ℕ → ℕ → Table P → Table P × Bool
  unfolding requeued_row update_row
  requeue_job event_id now t =
      (on_row event_id (requeued_row now) t, is_some (find_id event_id t.rows))

  unfoldable pub backlog_size : Table P → ℕ
  unfolding is_open
  backlog_size t = count (λ row. is_open row.status) t.rows
