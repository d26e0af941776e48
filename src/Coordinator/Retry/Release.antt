-- ===== src/Coordinator/Retry/Release.antt =====
-- The in-flight guard over the retry loop (crates/coordinator/src/service.rs).
use browser_hive_rs.Base.{
  ℕ, zero, suc, ◌+◌, ◌%◌, ◌<◌, ◌≡◌, refl, ap, ◌∙◌, Bool, true, false, Option, none, some, arith,
  u64_mod,
}
use browser_hive_rs.Base.Text.{Text, text_eq_iff, text_eq_refl}
use browser_hive_rs.Base.Map.{lookup-insert, lookup-remove}
use browser_hive_rs.Coordinator.InFlight.{InFlightTracker, current, start, finish, finish_entry}
use browser_hive_rs.Coordinator.Retry.Loop.{
  Surroundings, Request, LoopState, no_session, occupy, vacate, Ended, Step, ended, again, step,
  resume, attempt_loop, first_attempt,
}
use browser_hive_rs.Coordinator.Retry.Attempts.{
  IsNext, EndsWell, attempts_end, after_answer-IsNext, attempted, at_ranking, surroundings,
}

current-finish-start :
    (j pod : Text) (t : InFlightTracker)
    → suc (current pod t) < u64_mod
    → current j (finish pod (start pod t)) ≡ current j t
unfolding current start finish finish_entry
current-finish-start j pod t b = ground (
  arith,
  text_eq_refl pod,
  text_eq_iff pod j,
  lookup-insert pod pod ((current pod t + 1) % u64_mod) t.by_pod,
  lookup-insert pod j ((current pod t + 1) % u64_mod) t.by_pod,
  lookup-remove pod j (start pod t).by_pod,
  lookup-insert pod j (current pod t) (start pod t).by_pod,
)

current-vacate :
    (counted : Bool) (j pod : Text) (t : InFlightTracker)
    → suc (current pod t) < u64_mod
    → current j (vacate counted pod (occupy counted pod t)) ≡ current j t
current-vacate true j pod t b = current-finish-start j pod t b
current-vacate false j pod t b = refl

abbrev pub SameCounts : InFlightTracker → InFlightTracker → Type 0
SameCounts t t' = (j : Text) → current j t' ≡ current j t

abbrev KeepsCounts : InFlightTracker → Option Ended → Type 0
KeepsCounts t none = Unit
KeepsCounts t (some r) = SameCounts t r.tracker

-- The loop returns, and the tracker counts what it counted before.
abbrev pub Releases : InFlightTracker → Option Ended → Type 0
Releases t none = ⊥
Releases t (some r) = SameCounts t r.tracker

module _ (outside : ℕ → Text → Surroundings) (req : Request)
    (quiet : (n : ℕ) (w : Text) (t : InFlightTracker) → (outside n w).others t ≡ t) where
  attempted-SameCounts :
      (s : LoopState)
      → ((pod : Text) → suc (current pod s.tracker) < u64_mod)
      → SameCounts s.tracker (attempted outside req s).tracker
  attempted-SameCounts s b j =
      ap (λ t. current j (vacate (no_session req) s.last_worker_id t)) (quiet _ _ _)
      ∙ current-vacate (no_session req) j s.last_worker_id s.tracker (b s.last_worker_id)

  resume-KeepsCounts :
      (fuel : ℕ) (s : LoopState) (x : Step)
      → ((pod : Text) → suc (current pod s.tracker) < u64_mod)
      → ((s' : LoopState)
          → ((pod : Text) → suc (current pod s'.tracker) < u64_mod)
          → KeepsCounts s'.tracker (attempt_loop fuel outside req s'))
      → IsNext req
          (surroundings outside req s)
          (attempted outside req s)
          (at_ranking outside req s)
          x
      → KeepsCounts s.tracker (resume (attempt_loop fuel outside req) x)
  unfolding resume
  resume-KeepsCounts fuel s (ended r) b k n = λ j. ap (current j) n.1 ∙ attempted-SameCounts s b j
  resume-KeepsCounts fuel s (again s') b k n =
      let (a, l, x, y, tr, d, w, e, c) = n in
      let same : SameCounts s.tracker s'.tracker =
        λ j. ap (current j) tr ∙ attempted-SameCounts s b j in
      through (attempt_loop fuel outside req s') same (k s' (λ pod. rw (same pod) (b pod)))
    where
      through :
          (r : Option Ended)
          → SameCounts s.tracker s'.tracker
          → KeepsCounts s'.tracker r
          → KeepsCounts s.tracker r
      through none same h = tt
      through (some r) same h = λ j. h j ∙ same j

  loop-KeepsCounts :
      (fuel : ℕ) (s : LoopState)
      → ((pod : Text) → suc (current pod s.tracker) < u64_mod)
      → KeepsCounts s.tracker (attempt_loop fuel outside req s)
  unfolding attempt_loop step
  loop-KeepsCounts zero s b = tt
  loop-KeepsCounts (suc fuel) s b = resume-KeepsCounts fuel s _ b (loop-KeepsCounts fuel) (
      after_answer-IsNext req (surroundings outside req s) (attempted outside req s)
        (at_ranking outside req s) (surroundings outside req s).answer)

  -- While no other request starts or ends and every count is below 2^64 - 1, the retry loop returns
  -- and leaves the in-flight count of every pod as it was.
  pub loop-Releases :
      (worker : Text) (t : InFlightTracker)
      → ((pod : Text) → suc (current pod t) < u64_mod)
      → Releases t (attempt_loop 3 outside req (first_attempt worker t))
  loop-Releases worker t b =
      both (attempt_loop 3 outside req (first_attempt worker t)) (attempts_end outside req worker t)
        (loop-KeepsCounts 3 (first_attempt worker t) b)
    where
      both : (r : Option Ended) → EndsWell r → KeepsCounts t r → Releases t r
      both none e k = e
      both (some r) e k = k
