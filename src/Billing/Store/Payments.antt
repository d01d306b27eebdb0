-- ===== src/Billing/Store/Payments.antt =====
-- The payment events in backend/apps/billing/repositories.py and models.py, by ascending id, over
-- a type of payloads.
use nyzrating.Prelude.{
  ℕ, ◌+◌, Bool, true, false, ◌&&◌, Option, none, some, List, [], ◌∷◌, ◌++◌, if◌then◌else◌,
}
use nyzrating.Prelude.Text.{Text, codes, text_eq}

pub record PaymentEvent (P : Type 0) : Type 0 where
  pub id : ℕ
  pub provider : Text
  pub event_id : Text
  pub event_type : Text
  pub tenant_id : Option ℕ
  pub status : Text
  pub payload : P

pub record PaymentEvents (P : Type 0) : Type 0 where
  pub rows : List (PaymentEvent P)
  pub next_id : ℕ

module _ {P : Type 0} where
  unfoldable pub find_event : Text → Text → List (PaymentEvent P) → Option (PaymentEvent P)
  find_event provider event_id [] = none
  find_event provider event_id (row ∷ rows) =
      if text_eq row.provider provider && text_eq row.event_id event_id
      then some row
      else find_event provider event_id rows

  abbrev pub or_insert :
      Option (PaymentEvent P)
      → PaymentEvent P
      → PaymentEvents P
      → (PaymentEvent P × Bool) × PaymentEvents P
  or_insert (some row) new t = ((row, false), t)
  or_insert none new t =
      ((new, true), record { rows = t.rows ++ new ∷ []; next_id = t.next_id + 1 })

  unfoldable pub record_payment_event_once :
      Text
      → Text
      → Text
      → Option ℕ
      → P
      → PaymentEvents P
      → (PaymentEvent P × Bool) × PaymentEvents P
  record_payment_event_once provider event_id event_type tenant_id payload t =
      or_insert (find_event provider event_id t.rows)
        (record {
          id = t.next_id;
          provider = provider;
          event_id = event_id;
          event_type = event_type;
          tenant_id = tenant_id;
          status = codes "processed";
          payload = payload;
        })
        t
