-- ===== src/Events/Policy.antt =====
-- backend/core/kernel/events/worker_policy.py: the time limits of an event type.
use nyzrating.Prelude.{ℕ, ◌+◌, ◌*◌, ◌≤◌, max, Option, none, some, [], ◌∷◌, arith}
use nyzrating.Prelude.Text.{Text, codes, strip}
use nyzrating.Prelude.Dict.{Dict, get}

-- Every policy has the execution mode `thread`.
pub record EventWorkerPolicy : Type 0 where
  pub handler_timeout_seconds : ℕ
  pub lease_seconds : ℕ
  pub heartbeat_interval_seconds : ℕ

abbrev policy : ℕ → ℕ → ℕ → EventWorkerPolicy
policy timeout lease heartbeat = record {
  handler_timeout_seconds = timeout;
  lease_seconds = lease;
  heartbeat_interval_seconds = heartbeat;
}

abbrev default_policy : EventWorkerPolicy
default_policy = policy 15 300 30

unfoldable pub event_policies : Dict EventWorkerPolicy
event_policies =
    (codes "security.audit_event", policy 15 60 10)
    ∷ (codes "email.notification", policy 30 120 15)
    ∷ (codes "email_2fa", policy 30 120 15)
    ∷ (codes "email_invite", policy 30 120 15)
    ∷ (codes "knowledge.ingest_pipeline", policy (30 * 60) (35 * 60) 30)
    ∷ (codes "knowledge.index_build", policy (60 * 60) (65 * 60) 60)
    ∷ (codes "knowledge.ingest_item_reprocess", policy (30 * 60) (35 * 60) 30)
    ∷ (codes "knowledge.recovery_sweep", policy (10 * 60) (12 * 60) 30)
    ∷ (codes "kb.discovery_requested", policy (30 * 60) (35 * 60) 30)
    ∷ (codes "kb.embedding_requested", policy (30 * 60) (35 * 60) 30)
    ∷ (codes "kb.indexing_requested", policy (60 * 60) (65 * 60) 60)
    ∷ (codes "url.fetch", policy 120 180 15)
    ∷ (codes "file.parse", policy (10 * 60) (12 * 60) 30)
    ∷ []

abbrev clamp_policy : Option EventWorkerPolicy → ℕ → EventWorkerPolicy
clamp_policy none timeout =
    policy timeout (max default_policy.lease_seconds (timeout + 60))
      default_policy.heartbeat_interval_seconds
clamp_policy (some p) timeout =
    policy (max 1 p.handler_timeout_seconds) (max p.lease_seconds (p.handler_timeout_seconds + 30))
      (max 5 p.heartbeat_interval_seconds)

unfoldable pub worker_policy_for_event : Text → ℕ → EventWorkerPolicy
worker_policy_for_event event_type default_timeout_seconds =
    clamp_policy (get (strip event_type) event_policies) (max 1 default_timeout_seconds)

-- For every event type the time limit is positive and at least 29 seconds shorter than the
-- lease, and the heartbeat interval is at least 5 seconds.
worker_policy_for_event_bounds :
    (event_type : Text) (default_timeout_seconds : ℕ)
    → let p = worker_policy_for_event event_type default_timeout_seconds in
      (1 ≤ p.handler_timeout_seconds)
      × (p.handler_timeout_seconds + 29 ≤ p.lease_seconds)
      × (5 ≤ p.heartbeat_interval_seconds)
unfolding worker_policy_for_event
worker_policy_for_event_bounds event_type default_timeout_seconds = ground arith
