-- ===== src/Events/Worker.antt =====
-- backend/core/kernel/events/dispatcher.py and worker_loop.py: the handlers of an event, and what
-- a worker does with each claimed event. A handler is a parameter: from the state of the world it
-- makes a new state and an error or none. The logs and metrics of the worker are not modelled.
pub mod Rounds
use nyzrating.Prelude.{
  ℕ, zero, suc, ◌+◌, ◌≤◌, ◌<◌, Bool, true, false, Option, none, some, List, [], ◌∷◌, ◌++◌, ◌≡◌,
  length, or_else, if◌then◌else◌, is_some,
}
use nyzrating.Prelude.Text.{Text}
use nyzrating.Prelude.Dict.{Dict, get, put}
use nyzrating.Events.Outbox.{
  Row, Table, WorkItem, claim_next_batch, heartbeat, mark_processed, mark_failed,
}
use nyzrating.Events.Policy.{worker_policy_for_event}

-- `handler(payload)`, which may raise an error with a message.
abbrev pub Handler : Type 0 → Type 0 → Type 0
Handler P W = P → W → Option Text × W

abbrev pub Registry : Type 0 → Type 0 → Type 0
Registry P W = Dict (List (Handler P W))

abbrev pub first : List Text → Option Text
first [] = none
first (e ∷ errors) = some e

abbrev note_error : Option Text → List Text → List Text
note_error none errors = errors
note_error (some e) errors = e ∷ errors

module _ {P W : Type 0} where
  -- `HandlerRegistry.register`
  unfoldable pub register : Text → Handler P W → Registry P W → Registry P W
  register event_type handler handlers =
      put event_type (or_else (get event_type handlers) [] ++ handler ∷ []) handlers

  -- Every handler runs; the errors are gathered in order.
  unfoldable pub run_handlers : List (Handler P W) → P → W → List Text × W
  run_handlers [] payload w = ([], w)
  run_handlers (handler ∷ handlers) payload w =
      let done = handler payload w in
      let rest = run_handlers handlers payload done.1 in (note_error done.0 rest.0, rest.1)

  -- `HandlerRegistry.dispatch`: the error that it raises, if any.
  unfoldable pub dispatch : Registry P W → Text → P → W → Option Text × W
  dispatch handlers event_type payload w =
      let done = run_handlers (or_else (get event_type handlers) []) payload w in
      (first done.0, done.1)

pub record Worker : Type 0 where
  pub max_retries : ℕ
  pub retry_delay_seconds : ℕ
  pub batch_size : ℕ
  pub stale_lock_after_sec : ℕ
  pub handler_timeout_seconds : ℕ
  pub lease_seconds : ℕ
  pub lock_owner : Option Text

-- What time does to one event: when heartbeats came, the message of the `TimeoutError` if the
-- handler was too late, with the state that it then leaves, and the clock at the end.
pub record Timing (W : Type 0) : Type 0 where
  pub beats : List ℕ
  pub timeout : Option (Text × W)
  pub ended_at : ℕ
  pub read_at : ℕ

abbrev beat_all : {P : Type 0} → ℕ → Option Text → ℕ → List ℕ → Table P → Table P
beat_all id owner lease [] t = t
beat_all id owner lease (now ∷ beats) t =
    beat_all id owner lease beats (heartbeat id owner lease now t)

module _ {P W : Type 0} where
  -- `dispatch_with_timeout`, less its heartbeats.
  unfoldable pub dispatch_with_timeout :
      Option (Text × W) → Registry P W → Text → P → W → Option Text × W
  dispatch_with_timeout none handlers event_type payload w = dispatch handlers event_type payload w
  dispatch_with_timeout (some (message, w')) handlers event_type payload w = (some message, w')

  abbrev settle : Worker → ℕ → Timing W → Option Text → Table P → Table P
  settle worker id timing none t = mark_processed id timing.ended_at t
  settle worker id timing (some error) t =
      mark_failed id error worker.max_retries worker.retry_delay_seconds timing.ended_at
        timing.read_at t

  unfoldable pub process_one :
      Worker → Registry P W → WorkItem P → Timing W → Table P × W → Table P × W
  process_one worker handlers item timing (t, w) =
      let policy = worker_policy_for_event item.event_type worker.handler_timeout_seconds in
      let alive = beat_all item.id worker.lock_owner policy.lease_seconds timing.beats t in
      let done = dispatch_with_timeout timing.timeout handlers item.event_type item.payload w in
      (settle worker item.id timing done.0 alive, done.1)

  abbrev process_items :
      Worker
      → Registry P W
      → List (WorkItem P)
      → (WorkItem P → Timing W)
      → Table P × W
      → Table P × W
  process_items worker handlers [] timing s = s
  process_items worker handlers (item ∷ items) timing s =
      process_items worker handlers items timing (process_one worker handlers item (timing item) s)

  -- `process_batch`, with the number of claimed events.
  unfoldable pub process_batch :
      Worker
      → Registry P W
      → (ℕ → Bool)
      → ℕ
      → (WorkItem P → Timing W)
      → Table P × W
      → ℕ × Table P × W
  process_batch worker handlers locked now timing (t, w) =
      let claimed =
        claim_next_batch worker.batch_size worker.stale_lock_after_sec worker.lease_seconds
          worker.lock_owner locked now t in
      let (t', w') = process_items worker handlers claimed.1 timing (claimed.0, w) in
      (length claimed.1, t', w')
