-- ===== src/Worker/WaitPhase.antt =====
-- The wait of one attempt: `scrape_page_internal` of crates/worker/src/service.rs from the checked
-- wait options to the end of its blocking task. Instants and times are in nanoseconds; a timeout of
-- the request is in milliseconds. The race of the task with the token and with the hard timeout
-- stands in `Worker.Attempt`.
pub mod Registry
pub mod Ends
use browser_hive_rs.Base.{
  ℕ, ◌-◌, ◌*◌, Bool, true, false, List, [], ◌∷◌, map, Option, none, some, ltb, leb, ◌==◌,
  if◌then◌else◌,
}
use browser_hive_rs.Base.Text.{Text}
use browser_hive_rs.Base.Result.{Result, ok, err}
use browser_hive_rs.Common.Challenge.{
  MainDocument, ChallengeDetector, ChallengeOutcome, Cancelled, Round, is_challenge,
  wait_out_challenge, wait_for_json_body,
}
use browser_hive_rs.Worker.Outcome.{WaitResult}
use browser_hive_rs.Worker.WaitBudget.{effective_timeout}
use browser_hive_rs.Worker.WaitStrategy.{millisecond, cancellation_error}
use browser_hive_rs.Worker.WaitStrategy.Timeout as Timeout
use browser_hive_rs.Worker.WaitStrategy.NetworkIdle as NetworkIdle

-- The strategies that the registry of `main` holds.
pub data Strategy : Type 0 where
  network_idle timeout : Strategy

-- What the task reads: the rounds of the two loops in challenge.rs, each with the time since the
-- start of its loop, the time that the first one took, the instant at which the strategy starts,
-- and what its rounds see, with instants for the clock that starts with the strategy.
pub record Readings : Type 0 where
  pub challenge_rounds : List Round
  pub challenge_elapsed : ℕ
  pub json_rounds : List Round
  pub now : ℕ
  pub navigated : Result Text (Unit {0})
  pub polls : List Timeout.Poll
  pub page : NetworkIdle.Page

-- An instant `spent` in the past, where the clock can go back that far.
abbrev pub started_ago : ℕ → ℕ → ℕ
started_ago now spent = if leb spent now then now - spent else now

-- The time since `start` in place of the instant.
abbrev pub poll_since : ℕ → Timeout.Poll → Timeout.Poll
poll_since start p = record p { elapsed = p.elapsed - start }

abbrev pub round_since : ℕ → NetworkIdle.Round → NetworkIdle.Round
round_since start r = record r { elapsed = r.elapsed - start }

abbrev pub ready_since : ℕ → NetworkIdle.Ready → NetworkIdle.Ready
ready_since start d = record d {
  ready_at = d.ready_at - start;
  elapsed = d.elapsed - start;
  searched_at = d.searched_at - start;
}

abbrev pub search_since : ℕ → NetworkIdle.Search → NetworkIdle.Search
search_since start p = record p { elapsed = p.elapsed - start }

abbrev pub page_since : ℕ → NetworkIdle.Page → NetworkIdle.Page
page_since start page = record {
  rounds = map (round_since start) page.rounds;
  ready = ready_since start page.ready;
  searches = map (search_since start) page.searches;
}

module _ (strategy : Strategy) (has_skip has_wait : Bool) (wait_timeout : ℕ) where
  -- `wait_after` of the two strategies.
  unfoldable pub wait_after : ℕ → Readings → Option (Result Text WaitResult)
  unfolding Timeout.run NetworkIdle.run
  wait_after spent r = elim strategy [
    | Strategy.network_idle ↦
        NetworkIdle.run has_skip has_wait wait_timeout (page_since (started_ago r.now spent) r.page)
    | Strategy.timeout ↦
        Timeout.run r.navigated wait_timeout has_skip has_wait
          (map (poll_since (started_ago r.now spent)) r.polls)
  ]

  -- The JSON document, then the strategy.
  abbrev pub after_challenge : ℕ → Readings → Option (Result Text WaitResult)
  after_challenge spent r =
      elim (wait_for_json_body (wait_timeout * millisecond - spent) r.json_rounds) [
        | none ↦ none
        | some (err c) ↦ some (err cancellation_error)
        | some (ok true) ↦ some (ok WaitResult.success)
        | some (ok false) ↦ wait_after spent r
      ]

  module _ (detectors : List ChallengeDetector) (window : ℕ) where
    -- The challenge phase, with what it leaves in the cell.
    abbrev pub challenge_phase : Readings → Option (Result Text (Option (ChallengeOutcome × ℕ)))
    challenge_phase r =
        if window == 0
        then some (ok none)
        else elim (wait_out_challenge detectors window r.challenge_rounds) [
          | none ↦ none
          | some (err c) ↦ some (err cancellation_error)
          | some (ok outcome) ↦ some (ok (some (outcome, r.challenge_elapsed)))
        ]

    abbrev pub spent_of : Option (ChallengeOutcome × ℕ) → ℕ
    spent_of none = 0
    spent_of (some waited) = waited.1

    -- The whole task.
    unfoldable pub wait_task : Readings → Option (Result Text WaitResult)
    unfolding wait_after wait_for_json_body wait_out_challenge
    wait_task r = elim (challenge_phase r) [
      | none ↦ none
      | some (err e) ↦ some (err e)
      | some (ok waited) ↦ after_challenge (spent_of waited) r
    ]

-- `challenge_window`, in nanoseconds.
unfoldable pub challenge_window : List ChallengeDetector → ℕ → ℕ → ℕ
challenge_window [] challenge_timeout_ms wait_timeout = 0
challenge_window (d ∷ detectors) challenge_timeout_ms wait_timeout =
    (if ltb challenge_timeout_ms wait_timeout then challenge_timeout_ms else wait_timeout)
    * millisecond

-- The outcome that `record_challenge` puts on the span and into the metrics.
unfoldable pub record_challenge :
    List ChallengeDetector
    → MainDocument
    → Bool
    → Option (ChallengeOutcome × ℕ)
    → Option ChallengeOutcome
unfolding is_challenge
record_challenge [] final_document navigated waited = none
record_challenge (d ∷ detectors) final_document navigated waited =
    if navigated
    then elim waited [
      | some (outcome, spent) ↦ some outcome
      | none ↦ some (
          if is_challenge (d ∷ detectors) final_document
          then ChallengeOutcome.skipped
          else ChallengeOutcome.no_challenge)
    ]
    else none
