-- ===== src/Worker/WaitStrategy/Timeout.antt =====
-- `TimeoutStrategy` of crates/common/src/wait_strategy.rs.
pub mod Priority
use browser_hive_rs.Base.{
  ℕ, ◌*◌, Bool, true, false, not, ◌&&◌, List, [], ◌∷◌, Option, none, some, leb, if◌then◌else◌,
}
use browser_hive_rs.Base.Text.{Text}
use browser_hive_rs.Base.Result.{Result, ok, err}
use browser_hive_rs.Worker.Outcome.{WaitResult}
use browser_hive_rs.Worker.WaitBudget.{effective_timeout}
use browser_hive_rs.Worker.WaitStrategy.{millisecond, cancellation_error, look_for, final_look}

-- The answers of one round: the looks for the two selectors, the clock, the final look.
pub record Poll : Type 0 where
  pub is_cancelled : Bool
  pub skip_seen : Result Text Bool
  pub wait_seen : Result Text Bool
  pub elapsed : ℕ
  pub final_seen : Result Text Bool

-- A round ends the wait or remembers whether the wait selector was seen.
pub data Next : Type 0 where
  ended : Result Text WaitResult → Next
  go_on : Bool → Next

module _ (timeout : ℕ) (has_skip has_wait : Bool) where
  abbrev pub at_timeout : Bool → Poll → Result Text WaitResult
  at_timeout seen p =
      if has_wait
      then (if seen then ok WaitResult.success else final_look p.final_seen)
      else ok WaitResult.success

  abbrev pub after_wait : Bool → Poll → Result Text Bool → Next
  after_wait seen p (err e) = Next.ended (err e)
  after_wait seen p (ok now) =
      if (now && not seen) && not has_skip
      then Next.ended (ok WaitResult.success)
      else (if leb timeout p.elapsed then Next.ended (at_timeout now p) else Next.go_on now)

  abbrev pub after_skip : Bool → Poll → Result Text Bool → Next
  after_skip seen p (err e) = Next.ended (err e)
  after_skip seen p (ok true) = Next.ended (ok WaitResult.skip_found)
  after_skip seen p (ok false) =
      after_wait seen p (if seen then ok true else look_for has_wait p.wait_seen)

  abbrev pub poll : Bool → Poll → Next
  poll seen p =
      if p.is_cancelled
      then Next.ended (err cancellation_error)
      else after_skip seen p (look_for has_skip p.skip_seen)

  unfoldable pub poll_loop : Bool → List Poll → Option (Result Text WaitResult)
  poll_loop seen [] = none
  poll_loop seen (p ∷ polls) = elim (poll seen p) [
    | Next.ended r ↦ some r
    | Next.go_on now ↦ poll_loop now polls
  ]

-- `run`; `navigated` is `wait_until_navigated`.
unfoldable pub run :
    Result Text (Unit {0}) → ℕ → Bool → Bool → List Poll → Option (Result Text WaitResult)
unfolding effective_timeout poll_loop
run (err e) timeout_ms has_skip has_wait polls = some (err e)
run (ok u) timeout_ms has_skip has_wait polls =
    poll_loop (effective_timeout timeout_ms * millisecond) has_skip has_wait false polls
