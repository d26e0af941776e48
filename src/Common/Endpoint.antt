-- ===== src/Common/Endpoint.antt =====
-- The coordinator's record of a worker pod (crates/common/src/types.rs).
use browser_hive_rs.Base.{ℕ, Bool}
use browser_hive_rs.Base.Text.{Text}

-- The success rate, a float that only dashboards read, is left out.
pub record WorkerStats : Type 0 where
  pub scope_name : Text
  pub pod_name : Text
  pub pod_ip : Text
  pub total_contexts : ℕ
  pub available_slots : ℕ
  pub active_requests : ℕ
  pub total_requests : ℕ
  pub total_contexts_created : ℕ
  pub total_contexts_recycled : ℕ

pub record WorkerEndpoint : Type 0 where
  pub pod_name : Text
  pub pod_ip : Text
  pub port : ℕ
  pub scope_name : Text
  pub stats : WorkerStats
  pub in_flight_at_snapshot : ℕ
  pub is_terminating : Bool
