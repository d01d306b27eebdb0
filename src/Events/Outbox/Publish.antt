-- ===== src/Events/Outbox/Publish.antt =====
-- backend/core/kernel/events/outbox.py: a new event, at most one for an idempotency key. The JSON
-- copy of a payload is a parameter.
use nyzrating.Prelude.{ℕ, ◌+◌, Option, none, some, [], ◌∷◌, ◌++◌}
use nyzrating.Prelude.Text.{Text}
use nyzrating.Events.Outbox.Rows.{Row, Table, clean_text, find_key, new_row}

module _ {P : Type 0} where
  abbrev pub insert_row : Row P → Table P → Table P × Row P
  insert_row row t = (record { rows = t.rows ++ row ∷ []; next_id = t.next_id + 1 }, row)

  -- A row that was found is returned, and nothing is written.
  abbrev pub or_insert : Option (Row P) → Row P → Table P → Table P × Row P
  or_insert none row t = insert_row row t
  or_insert (some existing) row t = (t, existing)

  -- The first query, on the table `seen`; then the insert against the unique index of `t`.
  abbrev pub or_insert_unique : Option (Row P) → Text → Row P → Table P → Table P × Row P
  or_insert_unique none key row t = or_insert (find_key key t.rows) row t
  or_insert_unique (some existing) key row t = (t, existing)

  abbrev pub append_cleaned :
      Option Text → (Option Text → Row P) → Table P → Table P → Table P × Row P
  append_cleaned none row seen t = insert_row (row none) t
  append_cleaned (some key) row seen t =
      or_insert_unique (find_key key seen.rows) key (row (some key)) t

  -- `seen` is the table that the query reads, `t` the one that the insert meets: other processes
  -- may have written in between.
  unfoldable pub append : (P → P) → Text → P → Option Text → ℕ → Table P → Table P → Table P × Row P
  append clean event_type payload idempotency_key now seen t =
      append_cleaned (clean_text idempotency_key)
        (λ key. new_row t.next_id event_type (clean payload) key now) seen t

  abbrev pub publish_cleaned : Option Text → (Text → Table P × Row P) → Option (Table P × Row P)
  publish_cleaned none publish = none
  publish_cleaned (some key) publish = some (publish key)

  -- `none` is the `ValueError` for an empty key.
  unfoldable pub publish_once :
      (P → P) → Text → P → Option Text → ℕ → Table P → Table P → Option (Table P × Row P)
  publish_once clean event_type payload idempotency_key now seen t =
      publish_cleaned (clean_text idempotency_key)
        (λ key. append clean event_type payload (some key) now seen t)
