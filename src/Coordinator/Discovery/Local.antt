-- ===== src/Coordinator/Discovery/Local.antt =====
-- Discovery without Kubernetes: crates/coordinator/src/local_worker_discovery.rs. The environment
-- variables are arguments, none where one is not set.
use browser_hive_rs.Base.{
  ℕ, ◌≡◌, refl, arith, false, List, [], ◌∷◌, ◌++◌, map, Option, none, some, ◌==◌, unwrap_or, length,
  get_elem?,
}
use browser_hive_rs.Base.Text.{Text, codes}
use browser_hive_rs.Base.Map.{Map, lookup, insert}
use browser_hive_rs.Base.Strings.{split, trim}
use browser_hive_rs.Base.Strings.Decimal.{parse}
use browser_hive_rs.Common.Endpoint.{WorkerStats, WorkerEndpoint}
use browser_hive_rs.Coordinator.Route.{ScopePresence}
use browser_hive_rs.Coordinator.Discovery.{Maps, no_pods}

-- The text of a port as a `u16`, or the default.
abbrev port_of : Option Text → ℕ
port_of none = 50052
port_of (some t) = unwrap_or (parse 65536 t) 50052

abbrev pub static_stats : Text → Text → Text → WorkerStats
static_stats scope name ip = record {
  scope_name = scope;
  pod_name = name;
  pod_ip = ip;
  total_contexts = 3;
  available_slots = 3;
  active_requests = 0;
  total_requests = 0;
  total_contexts_created = 0;
  total_contexts_recycled = 0;
}

abbrev pub static_endpoint : Text → Text → Text → ℕ → WorkerEndpoint
static_endpoint scope name ip port = record {
  pod_name = name;
  pod_ip = ip;
  port = port;
  scope_name = scope;
  stats = static_stats scope name ip;
  in_flight_at_snapshot = 0;
  is_terminating = false;
}

abbrev parts_of : Text → List Text
parts_of spec = split (λ c. c == b':') spec

-- An entry `scope:host:port`; what has fewer parts is left out.
abbrev register : List Text → Map (List WorkerEndpoint) → Map (List WorkerEndpoint)
register (scope ∷ ip ∷ port ∷ more) workers =
    insert scope
      (unwrap_or (lookup scope workers) []
        ++ (static_endpoint scope (codes "worker-" ++ scope) ip (port_of (some port)) ∷ []))
      workers
register parts workers = workers

unfoldable pub register_all : List Text → Map (List WorkerEndpoint) → Map (List WorkerEndpoint)
unfolding split trim parse lookup insert
register_all [] workers = workers
register_all (spec ∷ specs) workers = register_all specs (register (parts_of (trim spec)) workers)

abbrev pub presence_of : List WorkerEndpoint → ScopePresence
presence_of endpoints = record no_pods {
  pods_total = length endpoints;
  pods_reachable = length endpoints;
}

abbrev pub known_from : Map (List WorkerEndpoint) → Map ScopePresence
known_from workers = map (λ e. (e.0, presence_of e.1)) workers

-- `LocalWorkerDiscovery::new`, with WORKER_ENDPOINTS, WORKER_ENDPOINT and WORKER_SCOPE_NAME.
abbrev single : Text → List Text → Map (List WorkerEndpoint)
single scope parts =
    insert scope
      (static_endpoint scope (codes "worker-local") (unwrap_or (get_elem? parts 0) [])
          (port_of (get_elem? parts 1))
        ∷ [])
      []

abbrev workers_from : Option Text → Option Text → Option Text → Map (List WorkerEndpoint)
workers_from (some endpoints) endpoint scope = register_all (split (λ c. c == b',') endpoints) []
workers_from none endpoint scope =
    single (unwrap_or scope (codes "local_dev"))
      (parts_of (unwrap_or endpoint (codes "worker:50052")))

unfoldable pub new : Option Text → Option Text → Option Text → Maps
unfolding register_all split parse insert
new endpoints endpoint scope =
    let workers = workers_from endpoints endpoint scope in
    record { workers = workers; known_scopes = known_from workers }

-- Both maps have the same scopes, with as many pods as workers.
pub lookup-known_from :
    (scope : Text) (workers : Map (List WorkerEndpoint))
    → lookup scope (known_from workers)
      ≡ elim (lookup scope workers) [ none ↦ none | some ws ↦ some (presence_of ws) ]
unfolding lookup
lookup-known_from scope [] = refl
lookup-known_from scope ((s, ws) ∷ workers) = ground (arith, lookup-known_from scope workers)
