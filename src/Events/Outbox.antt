-- ===== src/Events/Outbox.antt =====
-- The outbox of events, backend/core/kernel/events/outbox.py with outbox_queries.py and
-- outbox_models.py: the operations of its repository. Every reading of the clock is an argument.
pub mod Rows
pub mod Publish
pub mod Queue
pub mod Settle
pub mod Keys
pub mod Steps
pub mod Claim
pub mod Attempts
pub use Rows.{
  Status, Row, Table, WorkItem, second, has_key, on_row, pending, processing, retry, processed,
  dead_letter, failed,
}
unfoldable pub use Rows.{
  is_waiting, is_processing, is_open, clean_text, find_key, find_id, update_row, new_row,
}
pub use Publish.{insert_row, or_insert, or_insert_unique, append_cleaned, publish_cleaned}
unfoldable pub use Publish.{append, publish_once}
pub use Queue.{is_before, other_owner}
unfoldable pub use Queue.{
  outbox_eligible, to_work_item, mark_claimed, claim_rows, claim_next_batch, claim, beat, heartbeat,
}
pub use Settle.{unlocked}
unfoldable pub use Settle.{
  processed_row, mark_processed, ack, failed_row, mark_failed, fail, retry_event, dead_row,
  dead_letter_event, requeued_row, requeue_job, backlog_size,
}
