-- ===== src/Coordinator/DiscoveryTests.antt =====
-- A round of discovery at three pods, and a request that follows it.
use browser_hive_rs.Base.{ℕ, ◌≡◌, refl, Bool, true, false, Option, none, some, List, [], ◌∷◌, arith}
use browser_hive_rs.Base.Text.{Text, codes, text_eq}
use browser_hive_rs.Base.Map.{lookup}
use browser_hive_rs.Coordinator.InFlight.{no_requests}
use browser_hive_rs.Coordinator.Route.{Coordinator, route}
use browser_hive_rs.Coordinator.Discovery.{Pod, is_pod_running, discover_workers}
use browser_hive_rs.Coordinator.Discovery.Counts.{discover_workers-counts}
use browser_hive_rs.Coordinator.Discovery.Known.{is_not_found, missing_scope_iff}

abbrev pod : Text → Bool → Text → Pod
pod name leaving phase = record {
  scope = some (codes "s");
  name = some name;
  has_deletion_timestamp = leaving;
  status = some (record { phase = some phase; pod_ip = some (codes "ip") });
  fetched = none;
}

abbrev pods : List Pod
pods =
    pod (codes "a") false (codes "Running")
    ∷ pod (codes "b") true (codes "Running")
    ∷ pod (codes "c") false (codes "Pending")
    ∷ []

discover_workers-counts_example :
    lookup (codes "s") (discover_workers pods).known_scopes
    ≡ some (record {
      pods_total = 3;
      pods_reachable = 0;
      pods_not_running = 1;
      pods_terminating = 1;
      pods_unreachable = 1;
    })
unfolding text_eq is_pod_running
discover_workers-counts_example = discover_workers-counts (codes "s") pods (omega arith)

abbrev restarting : Coordinator
restarting = record {
  is_cancelled = false;
  session_manager = record { sessions = []; session_ttl = 60 };
  workers = (discover_workers pods).workers;
  known_scopes = (discover_workers pods).known_scopes;
  healthy_workers = [];
  in_flight = no_requests;
  routing_rotation = 0;
}

abbrev print_port : ℕ → Text
print_port port = port ∷ []

abbrev no_answer : Text → Option ℕ
no_answer url = none

missing_scope_iff_example :
    is_not_found (route print_port no_answer 5 [] (codes "s") restarting).0 ≡ false
unfolding text_eq
missing_scope_iff_example =
    missing_scope_iff print_port no_answer 5 (codes "s") pods restarting (omega arith) refl refl
      refl
