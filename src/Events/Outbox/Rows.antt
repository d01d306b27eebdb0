-- ===== src/Events/Outbox/Rows.antt =====
-- backend/core/kernel/events/outbox_models.py: the table `platform_event_outbox`, by ascending id,
-- and the reads and writes of a row. Instants are microseconds.
use nyzrating.Prelude.{ℕ, Bool, true, false, Option, none, some, List, [], ◌∷◌, ◌==◌, if◌then◌else◌}
use nyzrating.Prelude.Text.{Text, text_eq, strip, or_empty, text_or_none}

-- `failed` is counted by `queue_snapshot`; the other values are those that the repository writes.
pub data Status : Type 0 where
  pending processing retry processed dead_letter failed : Status

-- `status in (pending, retry)`
unfoldable pub is_waiting : Status → Bool
is_waiting pending = true
is_waiting retry = true
is_waiting _ = false

unfoldable pub is_processing : Status → Bool
is_processing processing = true
is_processing _ = false

-- `status in (pending, retry, processing)`
unfoldable pub is_open : Status → Bool
is_open pending = true
is_open retry = true
is_open processing = true
is_open _ = false

pub record Row (P : Type 0) : Type 0 where
  pub id : ℕ
  pub event_type : Text
  pub payload : P
  pub status : Status
  pub attempts : ℕ
  pub last_error : Option Text
  pub next_retry_at : ℕ
  pub updated_at : ℕ
  pub processed_at : Option ℕ
  pub idempotency_key : Option Text
  pub locked_at : Option ℕ
  pub lock_owner : Option Text
  pub leased_by : Option Text
  pub lease_until : Option ℕ
  pub last_heartbeat_at : Option ℕ
  pub started_at : Option ℕ
  pub finished_at : Option ℕ

pub record Table (P : Type 0) : Type 0 where
  pub rows : List (Row P)
  pub next_id : ℕ

pub record WorkItem (P : Type 0) : Type 0 where
  pub id : ℕ
  pub event_type : Text
  pub payload : P
  pub attempts : ℕ
  pub lease_until : Option ℕ

abbrev pub second : ℕ
second = 1000000

-- `(text or "").strip() or None`
unfoldable pub clean_text : Option Text → Option Text
clean_text t = text_or_none (strip (or_empty t))

abbrev pub has_key : {P : Type 0} → Text → Row P → Bool
has_key key row = elim row.idempotency_key [ none ↦ false | some k ↦ text_eq k key ]

module _ {P : Type 0} where
  -- The first row with the key, in the order of the table.
  unfoldable pub find_key : Text → List (Row P) → Option (Row P)
  find_key key [] = none
  find_key key (row ∷ rows) = if has_key key row then some row else find_key key rows

  -- `db.get(PlatformEventOutboxORM, event_id)`
  unfoldable pub find_id : ℕ → List (Row P) → Option (Row P)
  find_id id [] = none
  find_id id (row ∷ rows) = if row.id == id then some row else find_id id rows

  -- A write to the row of an id; a missing row is left missing.
  unfoldable pub update_row : ℕ → (Row P → Row P) → List (Row P) → List (Row P)
  update_row id f [] = []
  update_row id f (row ∷ rows) = if row.id == id then f row ∷ rows else row ∷ update_row id f rows

  abbrev pub on_row : ℕ → (Row P → Row P) → Table P → Table P
  on_row id f t = record t { rows = update_row id f t.rows }

  unfoldable pub new_row : ℕ → Text → P → Option Text → ℕ → Row P
  new_row id event_type payload key now = record {
    id = id;
    event_type = event_type;
    payload = payload;
    status = pending;
    attempts = 0;
    last_error = none;
    next_retry_at = now;
    updated_at = now;
    processed_at = none;
    idempotency_key = key;
    locked_at = none;
    lock_owner = none;
    leased_by = none;
    lease_until = none;
    last_heartbeat_at = none;
    started_at = none;
    finished_at = none;
  }
