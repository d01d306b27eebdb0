-- ===== src/Events/Outbox/Steps.antt =====
-- The repository over time: every interleaving of its transactions, and a publication that is
-- repeated.
use nyzrating.Prelude.{
  ℕ, ◌≡◌, refl, inl, inr, Bool, true, arith, List, [], ◌∷◌, ◌++◌, Option-cases, subst, Option, none,
  some,
}
use mathlib.Core.Option.{some-injective}
use nyzrating.Prelude.Text.{Text, text_eq_refl, text_or_none-strip, or_empty}
use nyzrating.Events.Outbox.{
  Row, Table, find_key, new_row, append, publish_once, claim_next_batch, heartbeat, beat,
  mark_processed, mark_failed, failed_row, dead_letter_event, dead_row, requeue_job, requeued_row,
  clean_text, has_key, or_insert_unique,
}
use nyzrating.Events.Outbox.Keys.{
  IsValid, on_row-IsValid, mark_processed-IsValid, failed_row-tag, beat-tag, dead_row-tag,
  requeued_row-tag, append-IsValid, claim_next_batch-IsValid,
}

clean_text_idem :
    (t : Option Text) (k : Text) → clean_text t ≡ some k → clean_text (some k) ≡ some k
unfolding clean_text
clean_text_idem t k h = text_or_none-strip (or_empty t) k h

-- One transaction of the repository, by a web process, a worker or an operator. The clocks, the
-- table that `append` has seen and the rows that other transactions lock are arbitrary.
pub data Step {P : Type 0} : Table P → Table P → Type 0 where
  appended :
      (clean : P → P) (event_type : Text) (payload : P) (key : Option Text) (now : ℕ)
      (seen t : Table P)
      → Step t (append clean event_type payload key now seen t).0
  claimed :
      (limit stale lease : ℕ) (owner : Option Text) (locked : ℕ → Bool) (now : ℕ) (t : Table P)
      → Step t (claim_next_batch limit stale lease owner locked now t).0
  kept_alive :
      (id : ℕ) (owner : Option Text) (lease now : ℕ) (t : Table P)
      → Step t (heartbeat id owner lease now t)
  acked : (id now : ℕ) (t : Table P) → Step t (mark_processed id now t)
  nacked :
      (id : ℕ) (error : Text) (m d now later : ℕ) (t : Table P)
      → Step t (mark_failed id error m d now later t)
  buried :
      (id : ℕ) (error : Text) (now : ℕ) (t : Table P) → Step t (dead_letter_event id error now t)
  requeued : (id now : ℕ) (t : Table P) → Step t (requeue_job id now t).0

pub data Reach {P : Type 0} (t : Table P) : Table P → Type 0 where
  here : Reach t t
  next : {u v : Table P} → Reach t u → Step u v → Reach t v

module _ {P : Type 0} where
  Step-IsValid : {t u : Table P} → Step t u → IsValid t → IsValid u
  unfolding mark_processed mark_failed heartbeat dead_letter_event requeue_job
  Step-IsValid (appended clean e p key now seen t) v = append-IsValid clean e p key now seen t v
  Step-IsValid (claimed limit stale lease owner locked now t) v =
      claim_next_batch-IsValid limit stale lease owner locked now t v
  Step-IsValid (kept_alive id owner lease now t) v =
      on_row-IsValid id (beat owner lease now) (beat-tag owner lease now) t v
  Step-IsValid (acked id now t) v = mark_processed-IsValid id now t v
  Step-IsValid (nacked id error m d now later t) v =
      on_row-IsValid id (failed_row error m d now later) (failed_row-tag error m d now later) t v
  Step-IsValid (buried id error now t) v =
      on_row-IsValid id (dead_row error now) (dead_row-tag error now) t v
  Step-IsValid (requeued id now t) v =
      on_row-IsValid id (requeued_row now) (requeued_row-tag now) t v

  -- From a valid table, every sequence of appends, claims, heartbeats, acknowledgements,
  -- failures, dead letters and requeues, appends that raced with others included, leads to a
  -- valid table: ids ascend below the next one, and no two rows share an idempotency key.
  pub Reach-IsValid : {t u : Table P} → Reach t u → IsValid t → IsValid u
  Reach-IsValid here v = v
  Reach-IsValid (next r s) v = Step-IsValid s (Reach-IsValid r v)

  has_key-new :
      (key : Text) (id now : ℕ) (e : Text) (p : P)
      → has_key key (new_row id e p (some key) now) ≡ true
  unfolding new_row
  has_key-new key id now e p = text_eq_refl key

  find_key-snoc :
      (key : Text) (rows : List (Row P)) (row : Row P)
      → has_key key row ≡ true
      → find_key key rows ≡ none
      → find_key key (rows ++ row ∷ []) ≡ some row
  unfolding find_key
  find_key-snoc key [] row h e = rw h
  find_key-snoc key (r ∷ rows) row h e = ground (arith, find_key-snoc key rows row h)

  -- After an append under a key, the table finds the returned row under that key.
  find_key-append :
      (row : Text → Row P) (key : Text) (t : Table P)
      → has_key key (row key) ≡ true
      → let r = or_insert_unique (find_key key t.rows) key (row key) t in
        find_key key r.0.rows ≡ some r.1
  find_key-append row key t h = elim (Option-cases (find_key key t.rows)) [
    | inl fresh ↦ rw fresh (rw fresh (find_key-snoc key t.rows (row key) h fresh))
    | inr (old, found) ↦ rw found found
  ]

  -- After a publication under a key that met no other writer, a second one under the same key,
  -- whatever it carries, returns the same row and writes nothing.
  pub publish_once-idempotent :
      (clean : P → P) (e e' : Text) (p p' : P) (key : Option Text) (now now' : ℕ) (t u : Table P)
      (row : Row P)
      → publish_once clean e p key now t t ≡ some (u, row)
      → publish_once clean e' p' key now' u u ≡ some (u, row)
  unfolding publish_once append
  publish_once-idempotent clean e e' p p' key now now' t u row h =
      elim (Option-cases (clean_text key)) [
        | inl no_key ↦ absurd (none_ne_some (u, row) (rw no_key at h))
        | inr (k, cleaned) ↦
            let again = clean_text_idem key k cleaned in
            let first = rw (cleaned, again) at h in
            let make = λ (j : Text). new_row t.next_id e (clean p) (some j) now in
            let found = find_key-append make k t (has_key-new k t.next_id now e (clean p)) in
            rw
              (
                cleaned,
                again,
                subst (λ (r : Table P × Row P). find_key k r.0.rows ≡ some r.1)
                    (some-injective _ _ first) found,
              )
              refl
      ]
    where
      none_ne_some : (x : Table P × Row P) → none ≡ some x → ⊥
      none_ne_some x q = cc
