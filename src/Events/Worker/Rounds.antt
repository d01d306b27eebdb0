-- ===== src/Events/Worker/Rounds.antt =====
-- What a worker makes of an event.
use nyzrating.Prelude.{
  ℕ, ◌+◌, ◌≤◌, ◌≡◌, refl, ◌↔◌, ◌⊎◌, arith, Option, none, some, List, [], ◌∷◌, or_else, ◌∙◌,
}
use nyzrating.Prelude.Text.{Text}
use nyzrating.Prelude.Dict.{get}
use nyzrating.Events.Outbox.{
  Row, Table, WorkItem, processed, retry, dead_letter, find_id, update_row, heartbeat, beat,
  mark_processed, mark_failed, processed_row, failed_row,
}
use nyzrating.Events.Policy.{worker_policy_for_event}
use nyzrating.Events.Worker.{
  Handler, Registry, Worker, Timing, run_handlers, dispatch, dispatch_with_timeout, process_one,
  beat_all, settle, first,
}

module _ {P W : Type 0} where
  abbrev pub run_all : List (Handler P W) → P → W → W
  run_all [] payload w = w
  run_all (h ∷ hs) payload w = run_all hs payload (h payload w).1

  -- None of the handlers raises, each run after those before it.
  abbrev pub NoneRaises : List (Handler P W) → P → W → Type 0
  NoneRaises [] payload w = Unit
  NoneRaises (h ∷ hs) payload w = ((h payload w).0 ≡ none) × NoneRaises hs payload (h payload w).1

  run_handlers-run_all :
      (hs : List (Handler P W)) (payload : P) (w : W)
      → (run_handlers hs payload w).1 ≡ run_all hs payload w
  unfolding run_handlers
  run_handlers-run_all [] payload w = refl
  run_handlers-run_all (h ∷ hs) payload w = run_handlers-run_all hs payload (h payload w).1

  run_handlers-none :
      (hs : List (Handler P W)) (payload : P) (w : W)
      → (first (run_handlers hs payload w).0 ≡ none) ↔ NoneRaises hs payload w
  unfolding run_handlers
  run_handlers-none [] payload w = (λ h. tt, λ h. refl)
  run_handlers-none (h ∷ hs) payload w =
      ground (arith, run_handlers-none hs payload (h payload w).1)

  -- A dispatch runs every handler of the event in order, also after one has raised, and raises
  -- nothing exactly when none of them raises.
  dispatch_runs_all :
      (handlers : Registry P W) (event_type : Text) (payload : P) (w : W)
      → let hs = or_else (get event_type handlers) [] in
        ((dispatch handlers event_type payload w).1 ≡ run_all hs payload w)
        × (((dispatch handlers event_type payload w).0 ≡ none) ↔ NoneRaises hs payload w)
  unfolding dispatch
  dispatch_runs_all handlers event_type payload w =
      let hs = or_else (get event_type handlers) [] in
      (run_handlers-run_all hs payload w, run_handlers-none hs payload w)

module _ {P : Type 0} where
  find_id-update_row :
      (id : ℕ) (f : Row P → Row P)
      → ((r : Row P) → (f r).id ≡ r.id)
      → (rows : List (Row P)) (row : Row P) → find_id id rows ≡ some row
      → find_id id (update_row id f rows) ≡ some (f row)
  unfolding find_id update_row
  find_id-update_row id f same [] row h = cc
  find_id-update_row id f same (r ∷ rows) row h =
      ground (arith, same r, find_id-update_row id f same rows row)

  beat-id : (owner : Option Text) (lease now : ℕ) (r : Row P) → (beat owner lease now r).id ≡ r.id
  unfolding beat
  beat-id owner lease now r = ground arith

  beat-attempts :
      (owner : Option Text) (lease now : ℕ) (r : Row P)
      → (beat owner lease now r).attempts ≡ r.attempts
  unfolding beat
  beat-attempts owner lease now r = ground arith

  failed_row-id :
      (e : Text) (m d now later : ℕ) (r : Row P) → (failed_row e m d now later r).id ≡ r.id
  unfolding failed_row
  failed_row-id e m d now later r = ground arith

  -- Heartbeats leave the row where it is, with as many attempts.
  beat_all-find :
      (id : ℕ) (owner : Option Text) (lease : ℕ) (beats : List ℕ) (t : Table P) (row : Row P)
      → find_id id t.rows ≡ some row
      → (alive : Row P) × (find_id id (beat_all id owner lease beats t).rows ≡ some alive)
        × (alive.attempts ≡ row.attempts)
  unfolding heartbeat
  beat_all-find id owner lease [] t row h = (row, h, refl)
  beat_all-find id owner lease (now ∷ beats) t row h =
      let (alive, found, same) =
        beat_all-find id owner lease beats (heartbeat id owner lease now t)
          (beat owner lease now row)
          (find_id-update_row id (beat owner lease now) (beat-id owner lease now) t.rows row h) in
      (alive, found, same ∙ beat-attempts owner lease now row)

  -- How an event ends: without an error it is processed; with one it has one more attempt, and is a
  -- dead letter exactly when the attempts are used up.
  abbrev pub EndsWell : ℕ → ℕ → Option Text → Row P → Type 0
  EndsWell max_retries attempts none row = row.status ≡ processed
  EndsWell max_retries attempts (some e) row =
      (row.attempts ≡ attempts + 1)
      × ((row.status ≡ dead_letter) ↔ (max_retries ≤ attempts + 1))
      × ((row.status ≡ retry) ⊎ (row.status ≡ dead_letter))

  failed_row-EndsWell :
      (e : Text) (m d now later attempts : ℕ) (r : Row P)
      → r.attempts ≡ attempts
      → EndsWell m attempts (some e) (failed_row e m d now later r)
  unfolding failed_row
  failed_row-EndsWell e m d now later attempts r h = ground arith

module _ {P W : Type 0} where
  settle-EndsWell :
      (worker : Worker) (id : ℕ) (timing : Timing W) (error : Option Text) (t : Table P)
      (row : Row P) (attempts : ℕ)
      → row.attempts ≡ attempts
      → find_id id t.rows ≡ some row
      → (end : Row P) × (find_id id (settle worker id timing error t).rows ≡ some end)
        × EndsWell worker.max_retries attempts error end
  unfolding mark_processed mark_failed
  settle-EndsWell worker id timing none t row attempts a h = (
    processed_row timing.ended_at row,
    find_id-update_row id (processed_row timing.ended_at) (λ r. refl) t.rows row h,
    refl,
  )
  settle-EndsWell worker id timing (some e) t row attempts a h = (
    failed_row e worker.max_retries worker.retry_delay_seconds timing.ended_at timing.read_at row,
    find_id-update_row id _
        (failed_row-id e worker.max_retries worker.retry_delay_seconds timing.ended_at
          timing.read_at)
        t.rows row h,
    failed_row-EndsWell e worker.max_retries worker.retry_delay_seconds timing.ended_at
        timing.read_at attempts row a,
  )

  -- Processing an event that is in the table ends with it processed when the dispatch raised
  -- nothing, and else with one more attempt, as a dead letter exactly when the maximum is
  -- reached and as a retry or a dead letter in any case.
  pub process_one-EndsWell :
      (worker : Worker) (handlers : Registry P W) (item : WorkItem P) (timing : Timing W)
      (t : Table P) (w : W) (row : Row P)
      → find_id item.id t.rows ≡ some row
      → let error =
          (dispatch_with_timeout timing.timeout handlers item.event_type item.payload w).0 in
        (end : Row P) × (find_id item.id (process_one worker handlers item timing (t, w)).0.rows
          ≡ some end)
        × EndsWell worker.max_retries row.attempts error end
  unfolding process_one
  process_one-EndsWell worker handlers item timing t w row h =
      let policy = worker_policy_for_event item.event_type worker.handler_timeout_seconds in
      let (alive, found, same) =
        beat_all-find item.id worker.lock_owner policy.lease_seconds timing.beats t row h in
      settle-EndsWell worker item.id timing
        (dispatch_with_timeout timing.timeout handlers item.event_type item.payload w).0
        (beat_all item.id worker.lock_owner policy.lease_seconds timing.beats t) alive row.attempts
        same found
