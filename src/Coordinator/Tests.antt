-- ===== src/Coordinator/Tests.antt =====
-- Concrete workers, requests and runs of the theorems on them.
use browser_hive_rs.Base.{
  ℕ, Option, suc, ◌+◌, ◌-◌, ◌<◌, ◌≡◌, refl, false, none, some, List, [], ◌∷◌, arith, u64_mod,
}
use mathlib.Core.List.{Memᴰ}
use browser_hive_rs.Base.Text.{Text, codes, text_eq}
use browser_hive_rs.Base.Map.{lookup, insert}
use browser_hive_rs.Common.Endpoint.{WorkerStats, WorkerEndpoint}
use browser_hive_rs.Coordinator.InFlight.{
  InFlightTracker, no_requests, current, start, finish, finish_entry, free_slots,
  effective_free_slots,
}
use browser_hive_rs.Coordinator.InFlight.Exact.{
  Event, starts, ends, run, step, IsExact, open_to, nothing_in_flight, run-IsExact,
  free_slots_since,
}
use browser_hive_rs.Coordinator.Routing.{select_best_worker}
use browser_hive_rs.Coordinator.Routing.MostFree.{IsBest, select_best_worker-IsBest}
use browser_hive_rs.Coordinator.Retry.Loop as Loop
use browser_hive_rs.Coordinator.Retry.Loop.{
  WorkerResponse, answered, AttemptOutcome, answered, unreachable, produced, Surroundings, Request,
  LoopState, Ended, no_session, attempt_loop, first_attempt,
}
use browser_hive_rs.Coordinator.Retry.Attempts.{EndsWell, attempts_end, session_stays}
use browser_hive_rs.Coordinator.Retry.Release.{Releases, loop-Releases}
use browser_hive_rs.Coordinator.Route.{Coordinator, route}
use browser_hive_rs.Coordinator.Route.Served.{GoesTo, free_worker_is_routed}
use browser_hive_rs.Coordinator.Session.{SessionManager}

abbrev no_stats : WorkerStats
no_stats = record {
  scope_name = codes "s";
  pod_name = codes "a";
  pod_ip = codes "i";
  total_contexts = 0;
  available_slots = 2;
  active_requests = 0;
  total_requests = 0;
  total_contexts_created = 0;
  total_contexts_recycled = 0;
}

abbrev pod_a : WorkerEndpoint
pod_a = record {
  pod_name = codes "a";
  pod_ip = codes "i";
  port = 50052;
  scope_name = codes "s";
  stats = no_stats;
  in_flight_at_snapshot = 1;
  is_terminating = false;
}

abbrev pod_b : WorkerEndpoint
pod_b = record pod_a { pod_name = codes "b"; in_flight_at_snapshot = 0 }

abbrev two_pods : List WorkerEndpoint
two_pods = pod_b ∷ pod_a ∷ []

abbrev two_free : WorkerEndpoint → ℕ
two_free w = 2

select_best_worker-IsBest_example :
    IsBest two_pods
      (codes "a" ∷ [])
      two_free
      (select_best_worker two_pods (codes "a" ∷ []) two_free 5)
select_best_worker-IsBest_example = select_best_worker-IsBest two_pods (codes "a" ∷ []) two_free 5

-- Two requests to a, of which the older ends, then one to b.
abbrev before : List Event
before = starts (codes "a") ∷ starts (codes "a") ∷ ends 1 ∷ []

abbrev after : List Event
after = starts (codes "b") ∷ starts (codes "a") ∷ []

run-IsExact_example :
    IsExact (run nothing_in_flight before).tracker (run nothing_in_flight before).guards
run-IsExact_example = run-IsExact before (omega arith)

free_slots_since_example :
    free_slots (run (run nothing_in_flight before) after).tracker pod_a
    ≡ (pod_a.stats.available_slots + open_to pod_a.pod_name (run nothing_in_flight before).guards)
      - open_to pod_a.pod_name (run (run nothing_in_flight before) after).guards
unfolding run step start finish finish_entry current insert lookup text_eq
free_slots_since_example = free_slots_since before after pod_a refl (omega arith) (omega arith)

-- The first worker breaks the connection, with time left and both pods healthy; then it answers.
abbrev broken : ℕ → Text → Surroundings
broken n w = record {
  answer = produced (unreachable (codes "gone"));
  now = 0;
  scope_workers = some two_pods;
  healthy_workers = codes "a" ∷ codes "b" ∷ [];
  rotation = 0;
  others = λ t. t;
}

abbrev fresh_request : Request
fresh_request = record { session_id = []; deadline = 320000000000 }

abbrev session_request : Request
session_request = record { session_id = codes "a:c"; deadline = 320000000000 }

attempts_end_example :
    EndsWell (attempt_loop 3 broken fresh_request (first_attempt (codes "a") no_requests))
attempts_end_example = attempts_end broken fresh_request (codes "a") no_requests

abbrev first : LoopState
first = first_attempt (codes "a") no_requests

-- The next attempt goes to b.
abbrev second : LoopState
second = record {
  attempt = 1;
  last_worker_id = codes "b";
  excluded_workers = codes "a" ∷ [];
  tracker = no_requests;
  tried = codes "a" ∷ [];
}

session_stays_example :
    (r : Ended) × (Loop.step broken session_request (first_attempt (codes "a") no_requests)
      ≡ Loop.ended r)
    × (r.last_worker_id ≡ codes "a")
session_stays_example =
    session_stays broken session_request (first_attempt (codes "a") no_requests) refl refl

quiet : (n : ℕ) (w : Text) (t : InFlightTracker) → (broken n w).others t ≡ t
quiet n w t = refl

few : (pod : Text) → suc (current pod no_requests) < u64_mod
unfolding current lookup
few pod = omega arith

loop-Releases_example :
    Releases no_requests
      (attempt_loop 3 broken fresh_request (first_attempt (codes "a") no_requests))
loop-Releases_example = loop-Releases broken fresh_request quiet (codes "a") no_requests few

abbrev pub no_sessions : SessionManager
no_sessions = record { sessions = []; session_ttl = 1800 }

abbrev pub running : Coordinator
running = record {
  is_cancelled = false;
  session_manager = no_sessions;
  workers = (codes "s", two_pods) ∷ [];
  known_scopes = [];
  healthy_workers = codes "a" ∷ [];
  in_flight = no_requests;
  routing_rotation = 4;
}

abbrev pub print : ℕ → Text
print port = port ∷ []

abbrev pub silent : Text → Option ℕ
silent url = none

free_worker_is_routed_example :
    GoesTo print silent two_pods pod_a running (route print silent 10 [] (codes "s") running)
unfolding free_slots effective_free_slots current lookup text_eq
free_worker_is_routed_example =
    free_worker_is_routed print silent 10 (codes "s") running two_pods pod_a refl refl
      (Memᴰ.tail (Memᴰ.head refl)) refl (omega arith)
