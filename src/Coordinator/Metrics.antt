-- ===== src/Coordinator/Metrics.antt =====
-- The counters and gauges of crates/coordinator/src/metrics.rs. A family of series is a map from the
-- values of its labels; the histogram and the HTTP server are left out.
pub mod Labels
use browser_hive_rs.Base.{
  ℕ, ◌+◌, Bool, true, false, List, [], ◌∷◌, map, Option, none, some, unwrap_or, if◌then◌else◌, any,
  count_if, length, fetch_add,
}
use browser_hive_rs.Base.Text.{Text, codes, text_eq}
use browser_hive_rs.Base.Map.{Map, lookup, insert}
use browser_hive_rs.Common.Endpoint.{WorkerEndpoint}
use browser_hive_rs.Coordinator.InFlight.{InFlightTracker, free_slots}
use browser_hive_rs.Coordinator.Retry.{RetryReason}
use browser_hive_rs.Coordinator.Route.{RejectReason}

abbrev pub unknown_scope : Text
unknown_scope = codes "unknown"

abbrev pub reject_label : RejectReason → Text
reject_label RejectReason.scope_not_found = codes "scope_not_found"
reject_label RejectReason.no_workers = codes "no_workers"
reject_label RejectReason.scope_unavailable = codes "scope_unavailable"
reject_label RejectReason.no_slots = codes "no_slots"
reject_label RejectReason.session_not_found = codes "session_not_found"
reject_label RejectReason.terminating = codes "terminating"
reject_label RejectReason.worker_unreachable = codes "worker_unreachable"

abbrev pub scope_is_untrusted : RejectReason → Bool
scope_is_untrusted RejectReason.scope_not_found = true
scope_is_untrusted _ = false

abbrev pub all_reject_reasons : List RejectReason
all_reject_reasons =
    RejectReason.scope_not_found ∷ RejectReason.no_workers ∷ RejectReason.scope_unavailable
    ∷ RejectReason.no_slots ∷ RejectReason.session_not_found ∷ RejectReason.terminating
    ∷ RejectReason.worker_unreachable ∷ []

abbrev pub retry_label : RetryReason → Text
retry_label RetryReason.terminating = codes "terminating"
retry_label RetryReason.no_slots = codes "no_slots"
retry_label RetryReason.worker_unreachable = codes "worker_unreachable"

abbrev pub all_retry_reasons : List RetryReason
all_retry_reasons =
    RetryReason.terminating ∷ RetryReason.no_slots ∷ RetryReason.worker_unreachable ∷ []

-- The gauges of a scope.
pub record Gauges : Type 0 where
  pub workers_total : ℕ
  pub workers_healthy : ℕ
  pub available_slots : ℕ

pub record CoordinatorMetrics : Type 0 where
  pub requests_total : Map ℕ
  pub requests_rejected_total : Map (Map ℕ)
  pub requests_retried_total : Map (Map ℕ)
  pub gauges : Map Gauges

-- `with_label_values`, which makes the series, and `inc`.
abbrev pub series : Text → Map ℕ → Map ℕ
series label m = insert label (unwrap_or (lookup label m) 0) m

abbrev pub inc : Text → Map ℕ → Map ℕ
inc label m = insert label (fetch_add (unwrap_or (lookup label m) 0) 1) m

abbrev pub at_scope : Text → (Map ℕ → Map ℕ) → Map (Map ℕ) → Map (Map ℕ)
at_scope scope change m = insert scope (change (unwrap_or (lookup scope m) [])) m

abbrev pub series_all : List Text → Map ℕ → Map ℕ
series_all [] m = m
series_all (label ∷ labels) m = series_all labels (series label m)

unfoldable pub register_scope : Text → CoordinatorMetrics → CoordinatorMetrics
unfolding lookup insert
register_scope scope m = record m {
  requests_total = series scope m.requests_total;
  requests_rejected_total =
      at_scope scope (series_all (map reject_label all_reject_reasons)) m.requests_rejected_total;
  requests_retried_total =
      at_scope scope (series_all (map retry_label all_retry_reasons)) m.requests_retried_total;
}

abbrev pub sum_slots : InFlightTracker → List WorkerEndpoint → ℕ
sum_slots in_flight [] = 0
sum_slots in_flight (w ∷ ws) = free_slots in_flight w + sum_slots in_flight ws

abbrev pub gauges_of : List Text → InFlightTracker → List WorkerEndpoint → Gauges
gauges_of healthy in_flight endpoints = record {
  workers_total = length endpoints;
  workers_healthy = count_if (λ w. any (text_eq w.pod_name) healthy) endpoints;
  available_slots = sum_slots in_flight endpoints;
}

unfoldable pub refresh_cluster_gauges :
    Map (List WorkerEndpoint)
    → List Text
    → InFlightTracker
    → CoordinatorMetrics
    → CoordinatorMetrics
unfolding register_scope free_slots insert
refresh_cluster_gauges [] healthy in_flight m = m
refresh_cluster_gauges ((scope, endpoints) ∷ workers) healthy in_flight m =
    let registered = register_scope scope m in
    refresh_cluster_gauges workers healthy in_flight (record registered {
      gauges = insert scope (gauges_of healthy in_flight endpoints) registered.gauges;
    })

-- `RequestMetrics`, where metrics are on.
pub record RequestMetrics : Type 0 where
  pub scope : Text
  pub reject_reason : Option RejectReason

abbrev pub new : Text → RequestMetrics
new scope = record { scope = scope; reject_reason = none }

abbrev pub set_scope : Text → RequestMetrics → RequestMetrics
set_scope scope r = record r { scope = scope }

abbrev pub reject : RejectReason → RequestMetrics → RequestMetrics
reject reason r = record r { reject_reason = some reason }

unfoldable pub record_retry : RetryReason → RequestMetrics → CoordinatorMetrics → CoordinatorMetrics
unfolding lookup insert
record_retry reason r m = record m {
  requests_retried_total = at_scope r.scope (inc (retry_label reason)) m.requests_retried_total;
}

abbrev pub label_of : RequestMetrics → Text
label_of r = elim r.reject_reason [
  | none ↦ r.scope
  | some reason ↦ if scope_is_untrusted reason then unknown_scope else r.scope
]

abbrev pub count_rejection : Text → Option RejectReason → Map (Map ℕ) → Map (Map ℕ)
count_rejection scope none m = m
count_rejection scope (some reason) m = at_scope scope (inc (reject_label reason)) m

-- `Drop for RequestMetrics`
unfoldable pub drop : RequestMetrics → CoordinatorMetrics → CoordinatorMetrics
unfolding lookup insert
drop r m = record m {
  requests_total = inc (label_of r) m.requests_total;
  requests_rejected_total = count_rejection (label_of r) r.reject_reason m.requests_rejected_total;
}
