-- ===== src/Events/Tests.antt =====
-- Runs of the outbox and its worker, and their theorems at examples.
use nyzrating.Prelude.{
  ℕ, ◌+◌, ◌-◌, ◌*◌, ◌≤◌, ◌≡◌, ◌↔◌, refl, arith, max, Bool, true, false, none, some, [], ◌∷◌, All,
  length,
}
use nyzrating.Prelude.Text.{codes, strip}
use nyzrating.Events.Outbox.{
  Row, Table, dead_letter, processed, clean_text, second, new_row, append, publish_once, find_key,
  find_id, claim_next_batch, outbox_eligible, beat, mark_claimed, failed_row, to_work_item,
  claim_rows, is_waiting,
}
use nyzrating.Events.Outbox.Keys.{IsValid}
use nyzrating.Events.Outbox.Steps.{
  Reach, here, next, appended, claimed, Reach-IsValid, publish_once-idempotent,
}
use nyzrating.Events.Outbox.Claim.{holds, claim_next_batch-disjoint, stale_lock_despite_heartbeat}
use nyzrating.Events.Outbox.Attempts.{Round, fail_rounds, fail_rounds_settle, failed_row-processed}
use nyzrating.Events.Worker.{Handler, Registry, Worker, Timing, dispatch_with_timeout, process_one}
use nyzrating.Events.Worker.Rounds.{EndsWell, process_one-EndsWell}

abbrev empty : Table ℕ
empty = record { rows = []; next_id = 1 }

abbrev clean : ℕ → ℕ
clean payload = payload

abbrev mail : Row ℕ
mail = new_row 1 (codes "email_2fa") 6 (some (codes "k")) 50

abbrev one_mail : Table ℕ
one_mail = record { rows = mail ∷ []; next_id = 2 }

published :
    publish_once clean (codes "email_2fa") 6 (some (codes " k ")) 50 empty empty
    ≡ some (one_mail, mail)
unfolding publish_once append clean_text strip find_key
published = refl

publish_once-idempotent_example :
    publish_once clean (codes "email") 7 (some (codes " k ")) 60 one_mail one_mail
    ≡ some (one_mail, mail)
publish_once-idempotent_example =
    publish_once-idempotent clean (codes "email_2fa") (codes "email") 6 7 (some (codes " k ")) 50 60
      empty one_mail mail published

one_mail-IsValid : IsValid one_mail
unfolding new_row
one_mail-IsValid = record { distinct = (tt, tt); below = (omega arith, tt) }

abbrev no_lock : ℕ → Bool
no_lock id = false

abbrev after_claim : Table ℕ
after_claim = (claim_next_batch 10 300 120 (some (codes "w1")) no_lock 100 one_mail).0

abbrev after_two : Table ℕ
after_two = (append clean (codes "email") 8 none 90 one_mail after_claim).0

two_steps : Reach one_mail after_two
two_steps =
    next (next here (claimed 10 300 120 (some (codes "w1")) no_lock 100 one_mail))
      (appended clean (codes "email") 8 none 90 one_mail after_claim)

Reach-IsValid_example : IsValid after_two
Reach-IsValid_example = Reach-IsValid two_steps one_mail-IsValid

claimed_one : length (claim_next_batch 10 300 120 (some (codes "w1")) no_lock 100 one_mail).1 ≡ 1
unfolding claim_next_batch claim_rows outbox_eligible new_row is_waiting
claimed_one = refl

claim_next_batch-disjoint_example :
    All
      (λ i.
        holds i.id (claim_next_batch 10 300 120 (some (codes "w1")) no_lock 100 one_mail).1 ≡ false)
      (claim_next_batch 5 300 120 (some (codes "w2")) no_lock 2000000 after_claim).1
claim_next_batch-disjoint_example =
    claim_next_batch-disjoint 10 5 300 300 120 120 100 2000000 (some (codes "w1"))
      (some (codes "w2")) no_lock no_lock one_mail one_mail-IsValid (omega arith) (omega arith)

-- An hour's lease, and a heartbeat ten seconds ago, do not protect an event claimed 301 s ago.
stale_lock_despite_heartbeat_example :
    outbox_eligible 301000001 (301000001 - max 1 300 * second) (
      beat
        (some (codes "w1"))
        3900
        291000000
        (mark_claimed 1 (clean_text (some (codes "w1"))) (1 + max 1 3900 * second) mail))
    ≡ true
stale_lock_despite_heartbeat_example =
    stale_lock_despite_heartbeat 1 291000000 301000001 300 3900 3900 (some (codes "w1")) mail
      (omega arith)

abbrev bad_round : Round
bad_round = record {
  claimed_at = 100;
  owner = none;
  lease_until = 300;
  error = codes "boom";
  failed_at = 200;
  read_at = 201;
}

fail_rounds_settle_example :
    let end = fail_rounds 3 60 mail (bad_round ∷ bad_round ∷ bad_round ∷ []) in
    (end.attempts ≡ mail.attempts + 1 + 2)
    × ((end.status ≡ dead_letter) ↔ (3 ≤ mail.attempts + 1 + 2))
fail_rounds_settle_example = fail_rounds_settle 3 60 bad_round (bad_round ∷ bad_round ∷ []) mail

abbrev failed_mail : Row ℕ
failed_mail = failed_row (codes "boom") 3 60 200 201 mail

eligible_later : outbox_eligible 60000201 0 failed_mail ≡ true
unfolding outbox_eligible failed_row new_row is_waiting
eligible_later = refl

abbrev done_mail : Row ℕ
done_mail = record mail { status = processed; processed_at = some 150; finished_at = some 150 }

failed_row-processed_example :
    outbox_eligible 60000201 0 (failed_row (codes "late") 3 60 200 201 done_mail) ≡ true
unfolding new_row
failed_row-processed_example =
    failed_row-processed 3 60 (codes "late") 200 201 60000201 0 done_mail refl (omega arith)
      (omega arith)

-- The world of these handlers is the sum of the payloads they have seen.
abbrev adds : Handler ℕ ℕ
adds payload w = (none, w + payload)

abbrev raises : Handler ℕ ℕ
raises payload w = (some (codes "boom"), w)

abbrev handlers : Registry ℕ ℕ
handlers = (codes "email_2fa", raises ∷ adds ∷ []) ∷ []

abbrev worker : Worker
worker = record {
  max_retries = 3;
  retry_delay_seconds = 60;
  batch_size = 10;
  stale_lock_after_sec = 300;
  handler_timeout_seconds = 15;
  lease_seconds = 120;
  lock_owner = some (codes "w1");
}

abbrev timing : Timing ℕ
timing = record { beats = 110 ∷ 120 ∷ []; timeout = none; ended_at = 130; read_at = 131 }

found_mail : find_id 1 (mail ∷ []) ≡ some mail
unfolding find_id new_row
found_mail = refl

process_one-EndsWell_example :
    let error = (dispatch_with_timeout none handlers (codes "email_2fa") 6 4).0 in
    (end : Row ℕ) × (find_id 1
        (process_one worker handlers (to_work_item mail) timing (one_mail, 4)).0.rows
      ≡ some end)
    × EndsWell 3 mail.attempts error end
unfolding to_work_item new_row
process_one-EndsWell_example =
    process_one-EndsWell worker handlers (to_work_item mail) timing one_mail 4 mail found_mail
