-- ===== src/Coordinator/Retry/Attempts.antt =====
-- The attempts of the retry loop (crates/coordinator/src/service.rs).
use browser_hive_rs.Base.{
  ℕ, zero, suc, ◌+◌, ◌-◌, ◌≤◌, ◌<◌, ◌≡◌, refl, sym, ap, ◌∙◌, Bool, true, false, List, [], ◌∷◌,
  Option, none, some, arith, ◌==◌, any, filter, length, All-Mem, filter-All,
}
use browser_hive_rs.Base.Text.{Text, text_eq}
use browser_hive_rs.Common.Endpoint.{WorkerEndpoint}
use browser_hive_rs.Coordinator.InFlight.{InFlightTracker, free_slots}
use browser_hive_rs.Coordinator.Routing.{Ranked, is_healthy, pick_most_free}
use browser_hive_rs.Coordinator.Routing.MostFree.{pick_most_free-IsMostFree}
use browser_hive_rs.Coordinator.Retry.{
  RetryPlan, seconds, classify_retry, classify_unreachable_retry, code_terminating,
}
use browser_hive_rs.Coordinator.Retry.Loop.{
  AttemptOutcome, answered, unreachable, Answer, produced, invalid_argument, Surroundings, Request,
  LoopState, no_session, retry_plan, is_candidate, with_room, pick_retry, retry_target, occupy,
  vacate, Ended, Step, ended, again, go_on, after_outcome, after_answer, step, resume, attempt_loop,
  first_attempt,
}

abbrev pub Unrepeated : List Text → Type 0
Unrepeated [] = Unit
Unrepeated (x ∷ xs) = (any (text_eq x) xs ≡ false) × Unrepeated xs

-- A healthy worker of the scope that is not excluded and has a free slot.
abbrev pub CanRetryOn : Surroundings → List Text → InFlightTracker → WorkerEndpoint → Type 0
CanRetryOn a excluded t w =
    (is_healthy a.healthy_workers w ≡ true)
    × (any (text_eq w.pod_name) excluded ≡ false)
    × (0 < free_slots t w)

picked-CanRetryOn :
    (a : Surroundings) (excluded : List Text) (t : InFlightTracker) (ws : List WorkerEndpoint)
    (r : Option Ranked) (w : WorkerEndpoint)
    → pick_most_free (filter (is_candidate a.healthy_workers excluded) ws) (free_slots t) a.rotation
      ≡ r
    → with_room r ≡ some w
    → CanRetryOn a excluded t w
picked-CanRetryOn a excluded t ws none w e h = cc
picked-CanRetryOn a excluded t ws (some (v, n)) w e h =
    let best = rw e at (
      pick_most_free-IsMostFree (free_slots t) (filter (is_candidate a.healthy_workers excluded) ws)
        a.rotation) in
    let c = All-Mem _ _ (filter-All (is_candidate a.healthy_workers excluded) ws) best.0 in
    ground (arith, best.1)

pick_retry-CanRetryOn :
    (a : Surroundings) (excluded : List Text) (t : InFlightTracker)
    (ws : Option (List WorkerEndpoint)) (w : WorkerEndpoint)
    → pick_retry ws a.healthy_workers excluded t a.rotation ≡ some w
    → CanRetryOn a excluded t w
unfolding pick_retry
pick_retry-CanRetryOn a excluded t none w h = cc
pick_retry-CanRetryOn a excluded t (some ws) w h = picked-CanRetryOn a excluded t ws _ w refl h

retry_plan-max :
    (o : AttemptOutcome) (b : Bool) (plan : RetryPlan)
    → retry_plan o b ≡ some plan
    → plan.max_attempts ≤ 3
unfolding retry_plan classify_retry classify_unreachable_retry
retry_plan-max (answered resp) b plan h = ground arith
retry_plan-max (unreachable m) b plan h = ground arith

-- The worker of a next attempt: in time, under three attempts, healthy, not tried, with room.
abbrev pub GoesOn : Request → Surroundings → LoopState → InFlightTracker → LoopState → Type 0
GoesOn req a s t s' =
    (s'.attempt ≡ s.attempt)
    × (s.attempt < 3)
    × (s'.excluded_workers ≡ s.last_worker_id ∷ s.excluded_workers)
    × (s'.tried ≡ s.tried)
    × (s'.tracker ≡ s.tracker)
    × (seconds 10 ≤ req.deadline - a.now)
    × (w : WorkerEndpoint) × (s'.last_worker_id ≡ w.pod_name)
    × CanRetryOn a s'.excluded_workers t w

abbrev pub IsNext : Request → Surroundings → LoopState → InFlightTracker → Step → Type 0
IsNext req a s t (ended r) = (r.tried ≡ s.tried) × (r.tracker ≡ s.tracker)
IsNext req a s t (again s') = GoesOn req a s t s'

module _ (req : Request) (a : Surroundings) (s : LoopState) (t : InFlightTracker) where
  retry_target-IsNext :
      (o : AttemptOutcome) (plan : RetryPlan) (r : Option WorkerEndpoint)
      → plan.max_attempts ≤ 3
      → retry_target req a s.attempt (s.last_worker_id ∷ s.excluded_workers) t plan ≡ r
      → IsNext req a s t
          (go_on o (record s { excluded_workers = s.last_worker_id ∷ s.excluded_workers }) r)
  unfolding go_on retry_target
  retry_target-IsNext o plan none m e = (refl, refl)
  retry_target-IsNext o plan (some w) m e =
      let picked =
        pick_retry-CanRetryOn a (s.last_worker_id ∷ s.excluded_workers) t a.scope_workers w
          (ground arith) in
      (refl, ground arith, refl, refl, refl, ground arith, w, refl, picked)

  after_outcome-IsNext :
      (o : AttemptOutcome) (plan : Option RetryPlan)
      → retry_plan o (no_session req) ≡ plan
      → IsNext req a s t (after_outcome req a o s t plan)
  unfolding after_outcome go_on
  after_outcome-IsNext o none e = (refl, refl)
  after_outcome-IsNext o (some plan) e =
      retry_target-IsNext o plan _ (retry_plan-max o (no_session req) plan e) refl

  pub after_answer-IsNext : (b : Answer) → IsNext req a s t (after_answer req a s t b)
  unfolding after_answer
  after_answer-IsNext (invalid_argument m) = (refl, refl)
  after_answer-IsNext (produced o) = after_outcome-IsNext o _ refl

-- Each worker is tried once, and the excluded ones are those tried.
abbrev pub Inv : LoopState → Type 0
Inv s =
    (s.excluded_workers ≡ s.tried)
    × (length s.tried ≡ s.attempt)
    × (s.attempt < 3)
    × Unrepeated (s.last_worker_id ∷ s.tried)

abbrev pub EndsWell : Option Ended → Type 0
EndsWell none = ⊥
EndsWell (some r) = Unrepeated r.tried × (1 ≤ length r.tried) × (length r.tried ≤ 3)

module _ (outside : ℕ → Text → Surroundings) (req : Request) where
  resume-EndsWell :
      (fuel : ℕ) (s : LoopState) (t : InFlightTracker) (x : Step)
      → Inv s
      → 3 ≤ suc fuel + s.attempt
      → ((s' : LoopState)
          → Inv s'
          → 3 ≤ fuel + s'.attempt
          → EndsWell (attempt_loop fuel outside req s'))
      → IsNext req
          (outside (s.attempt + 1) s.last_worker_id)
          (record s {
            attempt = s.attempt + 1;
            tracker = vacate (no_session req) s.last_worker_id t;
            tried = s.last_worker_id ∷ s.tried;
          })
          t
          x
      → EndsWell (resume (attempt_loop fuel outside req) x)
  unfolding resume
  resume-EndsWell fuel s t (ended r) i f k n =
      let (p, q, l, u) = i in rw n.0 (u, omega arith, omega arith)
  resume-EndsWell fuel s t (again s') i f k n =
      let (p, q, l, u) = i in
      let (a, m, x, y, z, d, w, e, (h, c, v)) = n in
      let same : s'.excluded_workers ≡ s'.tried = x ∙ ap (λ ws. s.last_worker_id ∷ ws) p ∙ sym y in
      let fresh : any (text_eq s'.last_worker_id) s'.tried ≡ false = rw (← same, e) c in
      k s' (same, rw (y, a) (omega (arith, q)), rw a m, (fresh, rw y u)) (omega arith)

  loop-EndsWell :
      (fuel : ℕ) (s : LoopState)
      → Inv s
      → 3 ≤ fuel + s.attempt
      → EndsWell (attempt_loop fuel outside req s)
  unfolding attempt_loop step
  loop-EndsWell zero s i f = absurd (ground arith)
  loop-EndsWell (suc fuel) s i f =
      resume-EndsWell fuel s _ _ i f (loop-EndsWell fuel) (after_answer-IsNext req _ _ _ _)

-- Whatever the workers answer, three iterations are enough fuel for the retry loop: it ends after
-- one to three attempts, no two of them on the same worker.
pub attempts_end :
    (outside : ℕ → Text → Surroundings) (req : Request) (worker : Text) (t : InFlightTracker)
    → EndsWell (attempt_loop 3 outside req (first_attempt worker t))
attempts_end outside req worker t =
    loop-EndsWell outside req 3 (first_attempt worker t) (refl, refl, omega arith, (refl, tt))
      (omega arith)

-- The answer of a worker that is shutting down.
abbrev pub is_terminating : Answer → Bool
is_terminating (produced (answered resp)) = resp.error_code == code_terminating
is_terminating _ = false

no_plan :
    (o : AttemptOutcome) (b : Bool)
    → b ≡ false
    → is_terminating (produced o) ≡ false
    → retry_plan o b ≡ none
unfolding retry_plan classify_retry classify_unreachable_retry
no_plan (answered resp) b e h = ground arith
no_plan (unreachable m) b e h = ground arith

module _ (outside : ℕ → Text → Surroundings) (req : Request) (s : LoopState) where
  abbrev pub surroundings : Surroundings
  surroundings = outside (s.attempt + 1) s.last_worker_id

  -- The tracker that the iteration ranks by, while its own request still counts.
  abbrev pub at_ranking : InFlightTracker
  at_ranking = surroundings.others (occupy (no_session req) s.last_worker_id s.tracker)

  abbrev pub attempted : LoopState
  attempted = record s {
    attempt = s.attempt + 1;
    tracker = vacate (no_session req) s.last_worker_id at_ranking;
    tried = s.last_worker_id ∷ s.tried;
  }

  -- An iteration of a request that continues a session ends the loop on its worker, unless the
  -- worker answers that it is shutting down.
  pub session_stays :
      no_session req ≡ false
      → is_terminating surroundings.answer ≡ false
      → (r : Ended) × (step outside req s ≡ ended r) × (r.last_worker_id ≡ s.last_worker_id)
  unfolding step after_answer after_outcome go_on
  session_stays b c = stays surroundings.answer c
    where
      stays :
          (x : Answer)
          → is_terminating x ≡ false
          → (r : Ended) × (after_answer req surroundings attempted at_ranking x ≡ ended r)
            × (r.last_worker_id ≡ s.last_worker_id)
      stays (invalid_argument m) c = (_, refl, refl)
      stays (produced o) c = rw (no_plan o (no_session req) b c) (_, refl, refl)
