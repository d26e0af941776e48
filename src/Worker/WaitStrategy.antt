-- ===== src/Worker/WaitStrategy.antt =====
-- The wait strategies of crates/common/src/wait_strategy.rs. A loop is a recursion on the polls that
-- it can make, each with what the page, the token and the clock answer in it; where they run out it
-- has no answer. Times are in nanoseconds since `start`, which lies back by what was spent before.
pub mod Timeout
pub mod NetworkIdle
use browser_hive_rs.Base.{ℕ, ◌-◌, ◌*◌, Bool, true, false, Option, none, some, ltb, if◌then◌else◌}
use browser_hive_rs.Base.Text.{Text, codes}
use browser_hive_rs.Base.Result.{Result, ok, err}
use browser_hive_rs.Worker.Outcome.{WaitResult}

abbrev pub millisecond : ℕ
millisecond = 1000000

abbrev pub poll_interval : ℕ
poll_interval = 500 * millisecond

-- The text of `CancellationError`.
abbrev pub cancellation_error : Text
cancellation_error = codes "Operation was cancelled"

-- `check_selector_exists`, where there is a selector.
abbrev pub look_for : Bool → Result Text Bool → Result Text Bool
look_for true answer = answer
look_for false answer = ok false

-- The last look for the wait selector.
abbrev pub final_look : Result Text Bool → Result Text WaitResult
final_look (err e) = err e
final_look (ok true) = ok WaitResult.success
final_look (ok false) = ok WaitResult.wait_not_found

-- How long a round of `network_idle` sleeps.
abbrev pub pause : ℕ → ℕ → ℕ
pause total elapsed = if ltb (total - elapsed) poll_interval then 0 else poll_interval
