-- ===== src/Events/Outbox/Queue.antt =====
-- backend/core/kernel/events/outbox.py and outbox_queries.py: a batch of events is claimed, and a
-- heartbeat keeps a claim alive.
use nyzrating.Prelude.{
  ℕ, zero, suc, ◌+◌, ◌-◌, ◌*◌, max, Bool, false, not, ◌&&◌, ◌||◌, Option, none, some, List, [], ◌∷◌,
  ltb, leb, if◌then◌else◌, or_else,
}
use nyzrating.Prelude.Text.{Text, text_eq, truthy}
use nyzrating.Events.Outbox.Rows.{
  is_waiting, is_processing, Row, Table, WorkItem, second, clean_text, update_row, on_row,
  processing,
}

-- `column IS NOT NULL AND column < bound`
abbrev pub is_before : Option ℕ → ℕ → Bool
is_before none bound = false
is_before (some t) bound = ltb t bound

-- `owner and row.leased_by and row.leased_by != owner`
abbrev pub other_owner : Option Text → Option Text → Bool
other_owner none leased_by = false
other_owner (some owner) none = false
other_owner (some owner) (some leased_by) = truthy leased_by && not (text_eq leased_by owner)

module _ {P : Type 0} where
  unfoldable pub outbox_eligible : ℕ → ℕ → Row P → Bool
  unfolding is_waiting is_processing
  outbox_eligible now stale_before row =
      is_waiting row.status && leb row.next_retry_at now
      || is_processing row.status
        && (is_before row.lease_until now || is_before row.locked_at stale_before)

  unfoldable pub to_work_item : Row P → WorkItem P
  to_work_item row = record {
    id = row.id;
    event_type = row.event_type;
    payload = row.payload;
    attempts = row.attempts;
    lease_until = row.lease_until;
  }

  unfoldable pub mark_claimed : ℕ → Option Text → ℕ → Row P → Row P
  mark_claimed now owner lease_until row = record row {
    status = processing;
    locked_at = some now;
    lock_owner = owner;
    leased_by = owner;
    lease_until = some lease_until;
    last_heartbeat_at = some now;
    started_at = some (or_else row.started_at now);
    updated_at = now;
  }

  -- The first `limit` rows that are eligible and not locked by another transaction are marked.
  unfoldable pub claim_rows :
      (Row P → Bool) → (Row P → Row P) → ℕ → List (Row P) → List (Row P) × List (WorkItem P)
  unfolding to_work_item
  claim_rows free mark zero rows = (rows, [])
  claim_rows free mark (suc limit) [] = ([], [])
  claim_rows free mark (suc limit) (row ∷ rows) =
      let taken = claim_rows free mark limit rows in
      let left = claim_rows free mark (suc limit) rows in
      if free row then (mark row ∷ taken.0, to_work_item row ∷ taken.1) else (row ∷ left.0, left.1)

  -- `locked` holds the ids that `SKIP LOCKED` passes over.
  unfoldable pub claim_next_batch :
      ℕ → ℕ → ℕ → Option Text → (ℕ → Bool) → ℕ → Table P → Table P × List (WorkItem P)
  claim_next_batch limit stale_lock_after_sec lease_seconds lock_owner locked now t =
      let stale_before = now - max 1 stale_lock_after_sec * second in
      let lease_until = now + max 1 lease_seconds * second in
      let (rows, items) =
        claim_rows (λ row. outbox_eligible now stale_before row && not (locked row.id))
          (mark_claimed now (clean_text lock_owner) lease_until) limit t.rows in
      (record t { rows = rows }, items)

  unfoldable pub claim :
      ℕ → ℕ → ℕ → Option Text → (ℕ → Bool) → ℕ → Table P → Table P × List (WorkItem P)
  unfolding claim_next_batch
  claim = claim_next_batch

  unfoldable pub beat : Option Text → ℕ → ℕ → Row P → Row P
  unfolding is_processing
  beat lock_owner lease_seconds now row =
      if not (is_processing row.status) || other_owner (clean_text lock_owner) row.leased_by
      then row
      else record row {
        last_heartbeat_at = some now;
        lease_until = some (now + max 1 lease_seconds * second);
        updated_at = now;
      }

  unfoldable pub heartbeat : ℕ → Option Text → ℕ → ℕ → Table P → Table P
  unfolding beat update_row
  heartbeat event_id lock_owner lease_seconds now =
      on_row event_id (beat lock_owner lease_seconds now)
