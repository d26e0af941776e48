-- ===== src/Worker/WaitPhase/Ends.antt =====
-- How long the blocking task of crates/worker/src/service.rs can wait.
use browser_hive_rs.Base.{
  ℕ, ◌-◌, ◌+◌, ◌*◌, ◌≤◌, ◌≡◌, inl, inr, Bool, true, false, ◌&&◌, List, [], ◌∷◌, map, Option, none,
  some, leb, ◌==◌, any, is_some, if◌then◌else◌, arith, Option-cases,
}
use browser_hive_rs.Common.Challenge.{ChallengeDetector, Round, wait_loop, wait_for_json_body}
use browser_hive_rs.Worker.WaitBudget.{effective_timeout}
use browser_hive_rs.Worker.WaitStrategy.{millisecond}
use browser_hive_rs.Worker.WaitStrategy.Timeout as Timeout
use browser_hive_rs.Worker.WaitStrategy.NetworkIdle as NetworkIdle
use browser_hive_rs.Worker.WaitStrategy.NetworkIdle.Ends.{run_ends}
use browser_hive_rs.Worker.WaitPhase.{
  Strategy, Readings, started_ago, poll_since, round_since, search_since, page_since, wait_after,
  after_challenge, wait_task,
}

is_some-wait_loop :
    (detectors : List ChallengeDetector) (window : ℕ) (first : Option ℕ) (rounds : List Round)
    → any (λ r. leb window r.elapsed) rounds ≡ true
    → is_some (wait_loop detectors window first rounds) ≡ true
unfolding wait_loop
is_some-wait_loop detectors window first [] late = ground arith
is_some-wait_loop detectors window first (r ∷ rounds) late = elim (Option-cases r.latest) [
  | inl e ↦ ground (arith, e, is_some-wait_loop detectors window first rounds)
  | inr (s, e) ↦ ground (
    arith,
    e,
    is_some-wait_loop detectors window first rounds,
    is_some-wait_loop detectors window (some s.seq) rounds,
  )
]

is_some-wait_for_json_body :
    (budget : ℕ) (rounds : List Round)
    → any (λ r. leb budget r.elapsed) rounds ≡ true
    → is_some (wait_for_json_body budget rounds) ≡ true
unfolding wait_for_json_body
is_some-wait_for_json_body budget [] late = ground arith
is_some-wait_for_json_body budget (r ∷ rounds) late =
    ground (arith, is_some-wait_for_json_body budget rounds)

is_some-poll_loop :
    (timeout : ℕ) (has_skip has_wait seen : Bool) (polls : List Timeout.Poll)
    → any (λ p. leb timeout p.elapsed) polls ≡ true
    → is_some (Timeout.poll_loop timeout has_skip has_wait seen polls) ≡ true
unfolding Timeout.poll_loop
is_some-poll_loop timeout has_skip has_wait seen [] late = ground arith
is_some-poll_loop timeout has_skip has_wait seen (p ∷ polls) late = ground (
  arith,
  is_some-poll_loop timeout has_skip has_wait true polls,
  is_some-poll_loop timeout has_skip has_wait false polls,
)

any-map {ℓ} :
    {A : Type ℓ} (p q : A → Bool) (f : A → A) (xs : List A)
    → ((x : A) → p x ≡ true → q (f x) ≡ true)
    → any p xs ≡ true
    → any q (map f xs) ≡ true
any-map p q f [] imp e = e
any-map p q f (x ∷ xs) imp e = ground (arith, imp x, any-map p q f xs imp)

module _ (has_skip has_wait : Bool) (wait_timeout spent : ℕ) (r : Readings) where
  abbrev start : ℕ
  start = started_ago r.now spent

  -- The time of a strategy, with what was spent before it.
  abbrev pub budget : Strategy → ℕ
  budget Strategy.network_idle = NetworkIdle.total_timeout has_wait wait_timeout
  budget Strategy.timeout = effective_timeout wait_timeout * millisecond

  -- Whether what was spent and the time since the strategy started come to that much.
  abbrev pub is_over : ℕ → ℕ → Bool
  is_over time at = leb (r.now + time) (at + spent)

  -- Whether the rounds that a strategy can make come to such an instant.
  abbrev pub is_enough : Strategy → Bool
  is_enough Strategy.network_idle =
      any (λ x. is_over (budget Strategy.network_idle) x.elapsed) r.page.rounds
      && any (λ p. is_over (budget Strategy.network_idle) p.elapsed) r.page.searches
  is_enough Strategy.timeout = any (λ p. is_over (budget Strategy.timeout) p.elapsed) r.polls

  module _ (back : spent ≤ r.now) where
    is_over_since :
        (time at : ℕ) → is_over time at ≡ true → leb time (at - started_ago r.now spent) ≡ true
    is_over_since time at over = ground arith

    is_some-network_idle :
        any (λ x. is_over (budget Strategy.network_idle) x.elapsed) r.page.rounds ≡ true
        → any (λ p. is_over (budget Strategy.network_idle) p.elapsed) r.page.searches ≡ true
        → is_some (NetworkIdle.run has_skip has_wait wait_timeout (page_since start r.page)) ≡ true
    is_some-network_idle late searched =
        run_ends has_skip has_wait wait_timeout (page_since start r.page)
          (any-map _ _ (round_since start) r.page.rounds
            (λ x. is_over_since (budget Strategy.network_idle) x.elapsed) late)
          (any-map _ _ (search_since start) r.page.searches
            (λ p over. ground (arith, is_over_since (budget Strategy.network_idle) p.elapsed over))
            searched)

    is_some-timeout :
        any (λ p. is_over (budget Strategy.timeout) p.elapsed) r.polls ≡ true
        → is_some (
            Timeout.run r.navigated wait_timeout has_skip has_wait (map (poll_since start) r.polls))
          ≡ true
    unfolding Timeout.run
    is_some-timeout late = ground (
      arith,
      is_some-poll_loop (budget Strategy.timeout) has_skip has_wait false
          (map (poll_since start) r.polls)
          (any-map _ _ (poll_since start) r.polls
            (λ p. is_over_since (budget Strategy.timeout) p.elapsed) late),
    )

    is_some-wait_after :
        (strategy : Strategy)
        → is_enough strategy ≡ true
        → is_some (wait_after strategy has_skip has_wait wait_timeout spent r) ≡ true
    unfolding wait_after
    is_some-wait_after Strategy.network_idle enough =
        is_some-network_idle (ground arith) (ground arith)
    is_some-wait_after Strategy.timeout enough = is_some-timeout enough

    is_some-after_challenge :
        (strategy : Strategy)
        → any (λ x. leb (wait_timeout * millisecond - spent) x.elapsed) r.json_rounds ≡ true
        → is_enough strategy ≡ true
        → is_some (after_challenge strategy has_skip has_wait wait_timeout spent r) ≡ true
    is_some-after_challenge strategy json enough = ground (
      arith,
      is_some-wait_for_json_body (wait_timeout * millisecond - spent) r.json_rounds json,
      is_some-wait_after strategy enough,
    )

-- What the challenge phase can have taken of the time.
abbrev pub spent_by : ℕ → Readings → ℕ
spent_by window r = if window == 0 then 0 else r.challenge_elapsed

-- The blocking task of a wait returns, as soon as its challenge rounds come to the end of the
-- window, its JSON rounds to the end of the wait timeout less what the challenge took, and the
-- rounds of its strategy to an instant at which the time since the strategy started and the time
-- that the challenge took make up the time of the strategy, where the clock can go back by what was
-- spent.
pub wait_task_ends :
    (strategy : Strategy) (has_skip has_wait : Bool) (wait_timeout : ℕ)
    (detectors : List ChallengeDetector) (window : ℕ) (r : Readings)
    → spent_by window r ≤ r.now
    → any (λ x. leb window x.elapsed) r.challenge_rounds ≡ true
    → any (λ x. leb (wait_timeout * millisecond - spent_by window r) x.elapsed) r.json_rounds ≡ true
    → is_enough has_skip has_wait wait_timeout (spent_by window r) r strategy ≡ true
    → is_some (wait_task strategy has_skip has_wait wait_timeout detectors window r) ≡ true
unfolding wait_task
wait_task_ends strategy has_skip has_wait wait_timeout detectors window r back challenge json
      enough =
    let rest =
      is_some-after_challenge has_skip has_wait wait_timeout (spent_by window r) r back strategy
        json enough in
    let waited = is_some-wait_loop detectors window none r.challenge_rounds challenge in
    ground (arith, rest, waited)
