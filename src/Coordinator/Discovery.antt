-- ===== src/Coordinator/Discovery.antt =====
-- Discovery of the worker pods: crates/coordinator/src/worker_discovery.rs. A pod comes with what
-- its `fetch_worker_stats` answers; the log lines and the ten seconds between two rounds are left out.
pub mod Counts
pub mod Workers
pub mod Known
pub mod Local
use browser_hive_rs.Base.{
  ℕ, Bool, true, false, not, List, [], ◌∷◌, ◌++◌, Option, none, some, ltb, if◌then◌else◌, is_empty,
  unwrap_or, fetch_add,
}
use browser_hive_rs.Base.Text.{Text, codes, text_eq}
use browser_hive_rs.Base.Map.{Map, lookup, insert}
use browser_hive_rs.Base.Strings.{join}
use browser_hive_rs.Base.Strings.Decimal.{show}
use browser_hive_rs.Common.Challenge.{on_some}
use browser_hive_rs.Common.Endpoint.{WorkerStats, WorkerEndpoint}
use browser_hive_rs.Coordinator.InFlight.{InFlightTracker, current}
use browser_hive_rs.Coordinator.Route.{ScopePresence}

abbrev pub no_pods : ScopePresence
no_pods = record {
  pods_total = 0;
  pods_reachable = 0;
  pods_not_running = 0;
  pods_terminating = 0;
  pods_unreachable = 0;
}

abbrev part : ℕ → Text → List Text
part n state = if ltb 0 n then (show n ++ state) ∷ [] else []

abbrev detail : List Text → Text
detail [] = []
detail (p ∷ parts) = codes " (" ++ (join (codes ", ") (p ∷ parts) ++ codes ")")

unfoldable pub describe : ScopePresence → Text
unfolding show join
describe presence =
    show presence.pods_total
    ++ (codes " pod(s), "
        ++ (show presence.pods_reachable
            ++ (codes " reachable"
                ++ detail (
                    part presence.pods_not_running (codes " not running")
                    ++ (part presence.pods_unreachable (codes " starting up or unreachable")
                        ++ part presence.pods_terminating (codes " terminating"))))))

-- What the code reads of a pod of Kubernetes.
pub record PodStatus : Type 0 where
  pub phase : Option Text
  pub pod_ip : Option Text

-- `scope` is the label; `fetched` has the tracker at the moment the statistics arrive.
pub record Pod : Type 0 where
  pub scope : Option Text
  pub name : Option Text
  pub has_deletion_timestamp : Bool
  pub status : Option PodStatus
  pub fetched : Option (WorkerStats × InFlightTracker)

unfoldable pub is_pod_running : Option PodStatus → Bool
is_pod_running none = false
is_pod_running (some s) = on_some (λ phase. text_eq phase (codes "Running")) s.phase

abbrev pub pod_ip_of : Option PodStatus → Option Text
pod_ip_of none = none
pod_ip_of (some s) = s.pod_ip

abbrev pub not_running : ScopePresence → ScopePresence
not_running p = record p { pods_not_running = fetch_add p.pods_not_running 1 }

abbrev pub endpoint : Text → Pod → Text → Text → WorkerStats → InFlightTracker → WorkerEndpoint
endpoint scope pod name ip stats in_flight = record {
  pod_name = name;
  pod_ip = ip;
  port = 50052;
  scope_name = scope;
  stats = stats;
  in_flight_at_snapshot = current name in_flight;
  is_terminating = pod.has_deletion_timestamp;
}

-- A pod that has a name and an address, once it is asked for its statistics.
abbrev pub ask : Text → Pod → Text → Text → ScopePresence → ScopePresence × Option WorkerEndpoint
ask scope pod name ip p = elim pod.fetched [
  | some (stats, in_flight) ↦ (
    record p { pods_reachable = fetch_add p.pods_reachable 1 },
    some (endpoint scope pod name ip stats in_flight),
  )
  | none ↦ (
    (if pod.has_deletion_timestamp
        then record p { pods_terminating = fetch_add p.pods_terminating 1 }
        else record p { pods_unreachable = fetch_add p.pods_unreachable 1 }),
    none,
  )
]

-- The body of the loop for a pod of the scope: its counts, and the endpoint that it serves at.
unfoldable pub visit : Text → Pod → ScopePresence → ScopePresence × Option WorkerEndpoint
unfolding is_pod_running
visit scope pod entry =
    let p = record entry { pods_total = fetch_add entry.pods_total 1 } in
    if not (is_pod_running pod.status) then (not_running p, none) else elim pod.name [
      | none ↦ (not_running p, none)
      | some name ↦ elim (pod_ip_of pod.status) [
        | none ↦ (not_running p, none)
        | some ip ↦ ask scope pod name ip p
      ]
    ]

-- The two maps of a round.
pub record Maps : Type 0 where
  pub workers : Map (List WorkerEndpoint)
  pub known_scopes : Map ScopePresence

abbrev pub empty_maps : Maps
empty_maps = record { workers = []; known_scopes = [] }

abbrev pub push_worker :
    Text → Option WorkerEndpoint → Map (List WorkerEndpoint) → Map (List WorkerEndpoint)
push_worker scope none workers = workers
push_worker scope (some w) workers =
    insert scope (unwrap_or (lookup scope workers) [] ++ (w ∷ [])) workers

abbrev pub store : Text → ScopePresence × Option WorkerEndpoint → Maps → Maps
store scope (p, w) m = record {
  workers = push_worker scope w m.workers;
  known_scopes = insert scope p m.known_scopes;
}

unfoldable pub discover_pod : Pod → Maps → Maps
unfolding lookup insert visit
discover_pod pod m = elim pod.scope [
  | none ↦ m
  | some scope ↦ store scope (visit scope pod (unwrap_or (lookup scope m.known_scopes) no_pods)) m
]

abbrev pub discover_all : List Pod → Maps → Maps
discover_all [] m = m
discover_all (pod ∷ pods) m = discover_all pods (discover_pod pod m)

unfoldable pub discover_workers : List Pod → Maps
unfolding discover_pod
discover_workers pods = discover_all pods empty_maps

-- A round of `start_discovery`: where the list cannot be read, both maps stay.
unfoldable pub discovery_round : Option (List Pod) → Maps → Maps
unfolding discover_workers
discovery_round none m = m
discovery_round (some pods) m = discover_workers pods
