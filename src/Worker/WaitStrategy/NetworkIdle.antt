-- ===== src/Worker/WaitStrategy/NetworkIdle.antt =====
-- `NetworkIdleStrategy` of crates/common/src/wait_strategy.rs. What the script of its second phase
-- answers is read by the log only.
pub mod Earned
pub mod Ends
use browser_hive_rs.Base.{
  ℕ, ◌-◌, ◌*◌, ◌/◌, Bool, true, false, List, [], ◌∷◌, Option, none, some, ltb, leb, ◌==◌,
  if◌then◌else◌,
}
use browser_hive_rs.Base.Text.{Text, codes}
use browser_hive_rs.Base.Result.{Result, ok, err}
use browser_hive_rs.Worker.Outcome.{WaitResult, should_exit_early}
use browser_hive_rs.Worker.WaitBudget.{effective_timeout, default_wait_timeout_ms}
use browser_hive_rs.Worker.WaitStrategy.{millisecond, cancellation_error, look_for, final_look}

-- A round of the first phase. `idle` is what the thread that waits for the network has left.
pub record Round : Type 0 where
  pub is_cancelled : Bool
  pub skip_seen : Result Text Bool
  pub idle : Option (Result Text (Unit {0}))
  pub status : Option ℕ
  pub elapsed : ℕ
  pub final_seen : Result Text Bool

-- What follows the script: `ready_at` is the clock before it, `elapsed` the one after it, and
-- `searched_at` the one at which the search for the selector begins.
pub record Ready : Type 0 where
  pub ready_at : ℕ
  pub skip_seen : Result Text Bool
  pub elapsed : ℕ
  pub final_seen : Result Text Bool
  pub status : Option ℕ
  pub searched_at : ℕ

-- A round of the search, with both clocks.
pub record Search : Type 0 where
  pub is_cancelled : Bool
  pub skip_seen : Result Text Bool
  pub wait_seen : Result Text Bool
  pub searched : ℕ
  pub elapsed : ℕ
  pub final_seen : Result Text Bool

pub record Page : Type 0 where
  pub rounds : List Round
  pub ready : Ready
  pub searches : List Search

-- Where a phase, or a round of it, leaves the wait.
pub data Phase : Type 0 where
  ended : Result Text WaitResult → Phase
  go_on : Phase

abbrev pub exits_early : Option ℕ → Bool
exits_early none = false
exits_early (some status) = should_exit_early status

-- The check of the skip selector, which every phase makes.
abbrev pub unless_skipped : Bool → Result Text Bool → Phase → Phase
unless_skipped has_skip answer rest = elim (look_for has_skip answer) [
  | err e ↦ Phase.ended (err e)
  | ok true ↦ Phase.ended (ok WaitResult.skip_found)
  | ok false ↦ rest
]

-- `final_selector_verdict`.
abbrev pub final_selector_verdict : Bool → Result Text Bool → Result Text WaitResult
final_selector_verdict true answer = final_look answer
final_selector_verdict false answer = ok WaitResult.success

-- The time that the script may take, where it runs.
abbrev pub max_ready_wait : ℕ → ℕ → Option ℕ
max_ready_wait total elapsed =
    let rest = total - elapsed in
    let capped = if ltb (30000 * millisecond) rest then 30000 * millisecond else rest in
    if ltb (capped / millisecond) 100 then none else some capped

module _ (has_skip has_wait : Bool) (total : ℕ) where
  abbrev pub at_timeout : Round → Result Text WaitResult
  at_timeout r =
      if has_wait then final_look r.final_seen else err (codes "Timeout waiting for network idle")

  -- The rest of a round while the network is not idle.
  abbrev pub still_busy : Round → Phase
  still_busy r =
      if exits_early r.status
      then Phase.ended (ok WaitResult.success)
      else (if leb total r.elapsed then Phase.ended (at_timeout r) else Phase.go_on)

  -- The first phase, up to an idle network; none where its rounds run out.
  unfoldable pub idle_loop : List Round → Option Phase
  unfolding should_exit_early
  idle_loop [] = none
  idle_loop (r ∷ rounds) =
      elim (if r.is_cancelled
        then Phase.ended (err cancellation_error)
        else unless_skipped has_skip r.skip_seen Phase.go_on) [
          | Phase.ended a ↦ some (Phase.ended a)
          | Phase.go_on ↦ elim r.idle [
            | some (ok u) ↦ some Phase.go_on
            | some (err e) ↦ some (Phase.ended (err e))
            | none ↦ elim (still_busy r) [
              | Phase.ended a ↦ some (Phase.ended a)
              | Phase.go_on ↦ idle_loop rounds
            ]
          ]
        ]

  unfoldable pub after_ready : Ready → Phase
  unfolding should_exit_early
  after_ready d = unless_skipped has_skip d.skip_seen (
      if leb total d.elapsed
      then Phase.ended (final_selector_verdict has_wait d.final_seen)
      else (if exits_early d.status then Phase.ended (ok WaitResult.success) else Phase.go_on))

  abbrev pub after_search : ℕ → Search → Result Text Bool → Phase
  after_search limit p (err e) = Phase.ended (err e)
  after_search limit p (ok true) = Phase.ended (ok WaitResult.success)
  after_search limit p (ok false) =
      if leb limit p.searched
      then Phase.ended (final_look p.final_seen)
      else (if leb total p.elapsed then Phase.ended (final_look p.final_seen) else Phase.go_on)

  unfoldable pub search_loop : ℕ → List Search → Option (Result Text WaitResult)
  search_loop limit [] = none
  search_loop limit (p ∷ searches) =
      elim (if p.is_cancelled
        then Phase.ended (err cancellation_error)
        else unless_skipped has_skip p.skip_seen (after_search limit p p.wait_seen)) [
          | Phase.ended a ↦ some a
          | Phase.go_on ↦ search_loop limit searches
        ]

-- The time for the search: what is left, and no more than was asked for.
abbrev pub selector_timeout : ℕ → ℕ → ℕ → ℕ
selector_timeout timeout_ms total searched_at =
    let rest = total - searched_at in
    if timeout_ms == 0
    then rest
    else (if ltb (timeout_ms * millisecond) rest then timeout_ms * millisecond else rest)

-- With a wait selector the whole time is always the default.
abbrev pub total_timeout : Bool → ℕ → ℕ
total_timeout has_wait timeout_ms =
    (if has_wait then default_wait_timeout_ms else effective_timeout timeout_ms) * millisecond

module _ (has_skip has_wait : Bool) (timeout_ms : ℕ) (page : Page) where
  abbrev pub total : ℕ
  total = total_timeout has_wait timeout_ms

  abbrev pub search_limit : ℕ
  search_limit = selector_timeout timeout_ms total page.ready.searched_at

  abbrev pub then_search : Phase → Option (Result Text WaitResult)
  then_search (Phase.ended a) = some a
  then_search Phase.go_on =
      if has_wait
      then search_loop has_skip has_wait total search_limit page.searches
      else some (ok WaitResult.success)

  abbrev pub then_ready : Option Phase → Option (Result Text WaitResult)
  then_ready none = none
  then_ready (some (Phase.ended a)) = some a
  then_ready (some Phase.go_on) = then_search (after_ready has_skip has_wait total page.ready)

  unfoldable pub run : Option (Result Text WaitResult)
  unfolding effective_timeout idle_loop after_ready search_loop
  run = then_ready (idle_loop has_skip has_wait total page.rounds)
