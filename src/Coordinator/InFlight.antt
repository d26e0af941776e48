-- ===== src/Coordinator/InFlight.antt =====
-- Requests in flight to each pod (crates/coordinator/src/in_flight.rs). The tracker is its map
-- under the lock; a guard is the pod name that it will give back.
pub mod Exact
use browser_hive_rs.Base.{
  ℕ, ◌+◌, ◌-◌, ◌%◌, List, [], ◌∷◌, Option, none, some, if◌then◌else◌, ◌==◌, unwrap_or, u64_mod,
}
use browser_hive_rs.Base.Text.{Text}
use browser_hive_rs.Base.Map.{Map, lookup, insert, remove}
use browser_hive_rs.Common.Endpoint.{WorkerEndpoint}

pub record InFlightTracker : Type 0 where
  pub by_pod : Map ℕ

abbrev pub no_requests : InFlightTracker
no_requests = record { by_pod = [] }

unfoldable pub current : Text → InFlightTracker → ℕ
current pod_name t = unwrap_or (lookup pod_name t.by_pod) 0

-- `*entry(pod).or_insert(0) += 1`, with the count in 64 bits.
unfoldable pub start : Text → InFlightTracker → InFlightTracker
unfolding current
start pod_name t = record { by_pod = insert pod_name ((current pod_name t + 1) % u64_mod) t.by_pod }

-- `finish` once the entry is looked up: an entry that falls to 0 goes.
unfoldable pub finish_entry : Text → Option ℕ → InFlightTracker → InFlightTracker
finish_entry pod_name none t = t
finish_entry pod_name (some count) t =
    if (count - 1) == 0
    then record { by_pod = remove pod_name t.by_pod }
    else record { by_pod = insert pod_name (count - 1) t.by_pod }

-- `Drop for InFlightGuard` calls this.
unfoldable pub finish : Text → InFlightTracker → InFlightTracker
unfolding finish_entry
finish pod_name t = finish_entry pod_name (lookup pod_name t.by_pod) t

-- The sum is a `usize`; the difference saturates at 0.
unfoldable pub effective_free_slots : WorkerEndpoint → ℕ → ℕ
effective_free_slots w in_flight_now =
    (w.stats.available_slots + w.in_flight_at_snapshot) % u64_mod - in_flight_now

unfoldable pub free_slots : InFlightTracker → WorkerEndpoint → ℕ
unfolding current effective_free_slots
free_slots t w = effective_free_slots w (current w.pod_name t)
