-- ===== src/Coordinator/Route.antt =====
-- `scrape_page` of the coordinator up to its first attempt (crates/coordinator/src/service.rs): the
-- worker that a request goes to, or the reason and the code of its rejection. Messages are left out.
pub mod Served
use browser_hive_rs.Base.{
  ℕ, Bool, true, false, List, [], ◌∷◌, ◌++◌, Option, none, some, ◌==◌, if◌then◌else◌, any, is_empty,
  fetch_add,
}
use browser_hive_rs.Base.Text.{Text, codes, text_eq}
use browser_hive_rs.Base.Map.{Map, lookup}
use browser_hive_rs.Base.Result.{Result, ok, err}
use browser_hive_rs.Common.Endpoint.{WorkerEndpoint}
use browser_hive_rs.Coordinator.InFlight.{InFlightTracker, free_slots}
use browser_hive_rs.Coordinator.Routing.{SelectedWorker, select_best_worker}
use browser_hive_rs.Coordinator.Session.{
  SessionInfo, SessionManager, colon, get_session, remove_session,
}

pub data RejectReason : Type 0 where
  scope_not_found no_workers scope_unavailable no_slots : RejectReason
  session_not_found terminating worker_unreachable : RejectReason

-- Codes of the coordinator's protocol.
abbrev pub code_no_workers_available : ℕ
code_no_workers_available = 5001

abbrev pub code_scope_not_found : ℕ
code_scope_not_found = 4003

abbrev pub code_session_not_found : ℕ
code_session_not_found = 4002

abbrev pub code_coordinator_terminating : ℕ
code_coordinator_terminating = 5006

pub record Rejection : Type 0 where
  pub reason : RejectReason
  pub error_code : ℕ

-- The pods of a scope as discovery lists them.
pub record ScopePresence : Type 0 where
  pub pods_total : ℕ
  pub pods_reachable : ℕ
  pub pods_not_running : ℕ
  pub pods_terminating : ℕ
  pub pods_unreachable : ℕ

unfoldable pub classify_missing_scope : Option ScopePresence → Rejection
classify_missing_scope (some presence) = record {
  reason = RejectReason.scope_unavailable;
  error_code = code_no_workers_available;
}
classify_missing_scope none = record {
  reason = RejectReason.scope_not_found;
  error_code = code_scope_not_found;
}

-- What the handler reads and changes.
pub record Coordinator : Type 0 where
  pub is_cancelled : Bool
  pub session_manager : SessionManager
  pub workers : Map (List WorkerEndpoint)
  pub known_scopes : Map ScopePresence
  pub healthy_workers : List Text
  pub in_flight : InFlightTracker
  pub routing_rotation : ℕ

-- The endpoint and the name of a worker.
abbrev pub Target : Type 0
Target = Text × Text

abbrev pub Routed : Type 0
Routed = Result Rejection Target × Coordinator

abbrev reject : RejectReason → ℕ → Coordinator → Routed
reject reason code c = (err (record { reason = reason; error_code = code }), c)

-- `ws.iter().any(…)` over the scope's workers, if it has any.
unfoldable pub worker_exists : Text → Option (List WorkerEndpoint) → Bool
worker_exists worker_id none = false
worker_exists worker_id (some ws) = any (λ w. text_eq w.pod_name worker_id) ws

-- A session goes to the worker that holds it, and is dropped once that worker is gone.
unfoldable pub route_session : Text → Option SessionInfo → Coordinator → Routed
route_session session_id none c = reject RejectReason.session_not_found code_session_not_found c
route_session session_id (some s) c =
    if worker_exists s.session_id.worker_id (lookup s.scope_name c.workers)
    then (ok (s.worker_endpoint, s.session_id.worker_id), c)
    else reject RejectReason.session_not_found code_session_not_found
        (record c { session_manager = remove_session session_id c.session_manager })

-- The answer of `fetch_fresh_worker_stats`: none where the call fails.
abbrev pub has_fresh_slot : Option ℕ → Bool
has_fresh_slot none = false
has_fresh_slot (some slots) = if slots == 0 then false else true

-- `print` is how a port prints, and `fresh` asks the worker at an endpoint for its free slots.
module _ (print : ℕ → Text) (fresh : Text → Option ℕ) where
  abbrev pub endpoint : WorkerEndpoint → Text
  endpoint w = codes "http://" ++ (w.pod_ip ++ (colon ∷ print w.port))

  unfoldable pub route_selected : Option SelectedWorker → Coordinator → Routed
  route_selected none c = reject RejectReason.no_workers code_no_workers_available c
  route_selected (some s) c =
      if s.free_slots == 0
      then (if has_fresh_slot (fresh (endpoint s.worker))
          then (ok (endpoint s.worker, s.worker.pod_name), c)
          else reject RejectReason.no_slots code_no_workers_available c)
      else (ok (endpoint s.worker, s.worker.pod_name), c)

  unfoldable pub route_scope : Text → Option (List WorkerEndpoint) → Coordinator → Routed
  route_scope scope none c = (err (classify_missing_scope (lookup scope c.known_scopes)), c)
  route_scope scope (some ws) c =
      if is_empty ws
      then reject RejectReason.no_workers code_no_workers_available c
      else route_selected
          (select_best_worker ws c.healthy_workers (free_slots c.in_flight) c.routing_rotation)
          (record c { routing_rotation = fetch_add c.routing_rotation 1 })

  abbrev pub with_session : Text → Option SessionInfo × SessionManager → Coordinator → Routed
  with_session session_id (found, m) c =
      route_session session_id found (record c { session_manager = m })

  unfoldable pub route : ℕ → Text → Text → Coordinator → Routed
  route now session_id scope c =
      if c.is_cancelled
      then reject RejectReason.terminating code_coordinator_terminating c
      else if is_empty session_id
      then route_scope scope (lookup scope c.workers) c
      else with_session session_id (get_session session_id now c.session_manager) c
