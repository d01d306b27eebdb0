-- ===== src/Billing/Store/Cancellations.antt =====
-- The cancellation requests in backend/apps/billing/repositories.py and models.py, by ascending
-- id.
use nyzrating.Prelude.{
  ℕ, ◌+◌, Bool, true, false, not, ◌&&◌, Option, none, some, is_some, List, [], ◌∷◌, ◌++◌, ◌==◌,
  if◌then◌else◌,
}
use nyzrating.Prelude.Text.{Text, codes, text_eq}
use nyzrating.Calendar.{DateTime, datetime_lt}

pub record Cancellation : Type 0 where
  pub id : ℕ
  pub tenant_id : ℕ
  pub tenant_slug : Text
  pub requested_by_user_id : Option ℕ
  pub reason_code : Text
  pub reason_text : Text
  pub active_kb_count : ℕ
  pub status : Text
  pub requested_at : DateTime
  pub effective_at : Option DateTime
  pub notice_two_days_sent_at : Option DateTime
  pub notice_one_day_sent_at : Option DateTime
  pub notice_expired_sent_at : Option DateTime
  pub deactivated_at : Option DateTime
  pub cleanup_completed_at : Option DateTime

pub record Cancellations : Type 0 where
  pub rows : List Cancellation
  pub next_id : ℕ

unfoldable pub create_cancellation_request :
    DateTime
    → ℕ
    → Text
    → Option ℕ
    → Text
    → Text
    → ℕ
    → Text
    → Option DateTime
    → Option DateTime
    → Cancellations
    → Cancellation × Cancellations
create_cancellation_request wall tenant_id tenant_slug requested_by reason_code reason_text
      active_kb_count status effective_at deactivated_at t =
    let row : Cancellation = record {
      id = t.next_id;
      tenant_id = tenant_id;
      tenant_slug = tenant_slug;
      requested_by_user_id = requested_by;
      reason_code = reason_code;
      reason_text = reason_text;
      active_kb_count = active_kb_count;
      status = status;
      requested_at = wall;
      effective_at = effective_at;
      notice_two_days_sent_at = none;
      notice_one_day_sent_at = none;
      notice_expired_sent_at = none;
      deactivated_at = deactivated_at;
      cleanup_completed_at = none;
    } in
    (row, record { rows = t.rows ++ row ∷ []; next_id = t.next_id + 1 })

-- The first row by `requested_at desc, id desc`.
abbrev pub later_request : Cancellation → Option Cancellation → Option Cancellation
later_request row none = some row
later_request row (some other) =
    if datetime_lt other.requested_at row.requested_at then some row else some other

unfoldable pub latest_request : (Cancellation → Bool) → List Cancellation → Option Cancellation
latest_request test [] = none
latest_request test (row ∷ rows) =
    let rest = latest_request test rows in if test row then later_request row rest else rest

unfoldable pub get_latest_cancellation_request : ℕ → Cancellations → Option Cancellation
get_latest_cancellation_request tenant_id t =
    latest_request (λ row. row.tenant_id == tenant_id) t.rows

-- An update of one row on a condition: whether it was written, and the rows.
unfoldable pub update_where :
    ℕ
    → (Cancellation → Bool)
    → (Cancellation → Cancellation)
    → List Cancellation
    → Bool × List Cancellation
update_where id test f [] = (false, [])
update_where id test f (row ∷ rows) =
    let (done, rest) = update_where id test f rows in
    if row.id == id && test row then (true, f row ∷ rest) else (done, row ∷ rest)

abbrev pub in_rows : Cancellations → Bool × List Cancellation → Bool × Cancellations
in_rows t (done, rows) = (done, record t { rows = rows })

unfoldable pub mark_cancellation_notice_two_days_sent :
    ℕ → DateTime → Cancellations → Bool × Cancellations
mark_cancellation_notice_two_days_sent id sent_at t = in_rows t (
    update_where id (λ row. not (is_some row.notice_two_days_sent_at))
      (λ row. record row { notice_two_days_sent_at = some sent_at }) t.rows)

unfoldable pub mark_cancellation_notice_one_day_sent :
    ℕ → DateTime → Cancellations → Bool × Cancellations
mark_cancellation_notice_one_day_sent id sent_at t = in_rows t (
    update_where id (λ row. not (is_some row.notice_one_day_sent_at))
      (λ row. record row { notice_one_day_sent_at = some sent_at }) t.rows)

unfoldable pub mark_cancellation_notice_expired_sent :
    ℕ → DateTime → Cancellations → Bool × Cancellations
mark_cancellation_notice_expired_sent id sent_at t = in_rows t (
    update_where id (λ row. not (is_some row.notice_expired_sent_at))
      (λ row. record row { notice_expired_sent_at = some sent_at }) t.rows)

unfoldable pub mark_cancellation_deactivated : ℕ → DateTime → Cancellations → Bool × Cancellations
mark_cancellation_deactivated id deactivated_at t = in_rows t (
    update_where id (λ row. not (is_some row.deactivated_at))
      (λ row. record row { deactivated_at = some deactivated_at }) t.rows)

unfoldable pub mark_cancellation_cleanup_completed :
    ℕ → DateTime → Cancellations → Bool × Cancellations
mark_cancellation_cleanup_completed id completed_at t = in_rows t (
    update_where id (λ row. not (is_some row.cleanup_completed_at))
      (λ row. record row { cleanup_completed_at = some completed_at }) t.rows)

unfoldable pub restored_row : DateTime → Cancellation → Cancellation
restored_row restored_at row = record row {
  status = codes "renewal_restored";
  cleanup_completed_at = some restored_at;
}

abbrev pub restore_row : DateTime → Option Cancellation → Cancellations → Bool × Cancellations
restore_row restored_at none t = (false, t)
restore_row restored_at (some found) t = in_rows t (
    update_where found.id (λ row. not (is_some row.deactivated_at)) (restored_row restored_at)
      t.rows)

unfoldable pub restore_latest_cancellation_request :
    ℕ → DateTime → Cancellations → Bool × Cancellations
restore_latest_cancellation_request tenant_id restored_at t =
    restore_row restored_at
      (latest_request
        (λ row. row.tenant_id == tenant_id && text_eq row.status (codes "deactivation_requested"))
        t.rows)
      t
