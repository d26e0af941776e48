-- ===== src/Coordinator/Retry/Loop.antt =====
-- The attempts of `scrape_page`: one iteration is `step`, with what lies outside the coordinator
-- (the worker's answer, the clock, discovery, the other requests) as its parameter.
use browser_hive_rs.Base.{
  ℕ, zero, suc, ◌+◌, ◌-◌, Bool, not, ◌&&◌, List, [], ◌∷◌, Option, none, some, ◌==◌, ltb, leb,
  if◌then◌else◌, any, filter, is_empty,
}
use browser_hive_rs.Base.Text.{Text, text_eq}
use browser_hive_rs.Common.Endpoint.{WorkerEndpoint}
use browser_hive_rs.Coordinator.InFlight.{InFlightTracker, start, finish, free_slots}
use browser_hive_rs.Coordinator.Routing.{Ranked, is_healthy, pick_most_free}
use browser_hive_rs.Coordinator.Retry.{
  RetryPlan, seconds, classify_retry, classify_unreachable_retry,
}

pub record WorkerResponse : Type 0 where
  pub success : Bool
  pub status_code : ℕ
  pub content : Text
  pub error_message : Text
  pub error_code : ℕ
  pub context_id : Text

pub data AttemptOutcome : Type 0 where
  answered : WorkerResponse → AttemptOutcome
  unreachable : Text → AttemptOutcome

-- An RPC that fails with `InvalidArgument` leaves the handler at once.
pub data Answer : Type 0 where
  produced : AttemptOutcome → Answer
  invalid_argument : Text → Answer

-- What one iteration reads from outside: the answer, the instant after it, the scope's workers
-- and the healthy set at that moment, the counter, and what other requests did to the tracker.
pub record Surroundings : Type 0 where
  pub answer : Answer
  pub now : ℕ
  pub scope_workers : Option (List WorkerEndpoint)
  pub healthy_workers : List Text
  pub rotation : ℕ
  pub others : InFlightTracker → InFlightTracker

pub record Request : Type 0 where
  pub session_id : Text
  pub deadline : ℕ

-- `tried` holds the workers of the attempts made, the newest first.
pub record LoopState : Type 0 where
  pub attempt : ℕ
  pub last_worker_id : Text
  pub excluded_workers : List Text
  pub tracker : InFlightTracker
  pub tried : List Text

abbrev pub no_session : Request → Bool
no_session req = is_empty req.session_id

unfoldable pub retry_plan : AttemptOutcome → Bool → Option RetryPlan
retry_plan (answered resp) none_held = classify_retry resp.error_code none_held
retry_plan (unreachable message) none_held = classify_unreachable_retry none_held

abbrev pub is_candidate : List Text → List Text → WorkerEndpoint → Bool
is_candidate healthy excluded w = is_healthy healthy w && not (any (text_eq w.pod_name) excluded)

abbrev pub with_room : Option Ranked → Option WorkerEndpoint
with_room none = none
with_room (some (w, n)) = if n == 0 then none else some w

unfoldable pub pick_retry :
    Option (List WorkerEndpoint)
    → List Text
    → List Text
    → InFlightTracker
    → ℕ
    → Option WorkerEndpoint
pick_retry none healthy excluded t rotation = none
pick_retry (some ws) healthy excluded t rotation =
    with_room (pick_most_free (filter (is_candidate healthy excluded) ws) (free_slots t) rotation)

-- The worker of the next attempt: time must be left, then attempts, then a worker with room.
unfoldable pub retry_target :
    Request → Surroundings → ℕ → List Text → InFlightTracker → RetryPlan → Option WorkerEndpoint
retry_target req a attempt excluded t plan =
    if ltb (req.deadline - a.now) (seconds 10)
    then none
    else if leb plan.max_attempts attempt
    then none
    else pick_retry a.scope_workers a.healthy_workers excluded t a.rotation

-- The guard `_in_flight` lives from the start of the iteration to its end.
abbrev pub occupy : Bool → Text → InFlightTracker → InFlightTracker
occupy counted pod t = if counted then start pod t else t

abbrev pub vacate : Bool → Text → InFlightTracker → InFlightTracker
vacate counted pod t = if counted then finish pod t else t

pub record Ended : Type 0 where
  pub outcome : Answer
  pub last_worker_id : Text
  pub tracker : InFlightTracker
  pub tried : List Text

pub data Step : Type 0 where
  ended : Ended → Step
  again : LoopState → Step

-- `state` is the one that the iteration leaves when it goes on with another worker.
unfoldable pub go_on : AttemptOutcome → LoopState → Option WorkerEndpoint → Step
go_on outcome s none = ended (record {
  outcome = produced outcome;
  last_worker_id = s.last_worker_id;
  tracker = s.tracker;
  tried = s.tried;
})
go_on outcome s (some w) = again (record s { last_worker_id = w.pod_name })

unfoldable pub after_outcome :
    Request → Surroundings → AttemptOutcome → LoopState → InFlightTracker → Option RetryPlan → Step
after_outcome req a outcome s t none = go_on outcome s none
after_outcome req a outcome s t (some plan) =
    let excluded = s.last_worker_id ∷ s.excluded_workers in
    go_on outcome (record s { excluded_workers = excluded })
      (retry_target req a s.attempt excluded t plan)

unfoldable pub after_answer : Request → Surroundings → LoopState → InFlightTracker → Answer → Step
after_answer req a s t (invalid_argument message) = ended (record {
  outcome = invalid_argument message;
  last_worker_id = s.last_worker_id;
  tracker = s.tracker;
  tried = s.tried;
})
after_answer req a s t (produced outcome) =
    after_outcome req a outcome s t (retry_plan outcome (no_session req))

unfoldable pub step : (ℕ → Text → Surroundings) → Request → LoopState → Step
step outside req s =
    let a = outside (s.attempt + 1) s.last_worker_id in
    let t = a.others (occupy (no_session req) s.last_worker_id s.tracker) in
    let s' : LoopState = record s {
      attempt = s.attempt + 1;
      tracker = vacate (no_session req) s.last_worker_id t;
      tried = s.last_worker_id ∷ s.tried;
    } in
    after_answer req a s' t a.answer

unfoldable pub resume : (LoopState → Option Ended) → Step → Option Ended
resume rest (ended r) = some r
resume rest (again s) = rest s

unfoldable pub attempt_loop : ℕ → (ℕ → Text → Surroundings) → Request → LoopState → Option Ended
attempt_loop zero outside req s = none
attempt_loop (suc fuel) outside req s = resume (attempt_loop fuel outside req) (step outside req s)

abbrev pub first_attempt : Text → InFlightTracker → LoopState
first_attempt worker t = record {
  attempt = 0;
  last_worker_id = worker;
  excluded_workers = [];
  tracker = t;
  tried = [];
}
