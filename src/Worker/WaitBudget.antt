-- ===== src/Worker/WaitBudget.antt =====
-- The timeouts and the last verdict of crates/common/src/wait_strategy.rs. `check` is the look for
-- the selector in the live page.
use browser_hive_rs.Base.{
  ℕ, ◌≡◌, Bool, true, false, Option, none, some, arith, ltb, ◌==◌, if◌then◌else◌,
}
use browser_hive_rs.Base.Text.{Text}
use browser_hive_rs.Base.Result.{Result, ok, err}
use browser_hive_rs.Worker.Outcome.{WaitResult}

abbrev pub max_wait_timeout_ms : ℕ
max_wait_timeout_ms = 40000

abbrev pub default_wait_timeout_ms : ℕ
default_wait_timeout_ms = 40000

-- The error stands for its message.
unfoldable pub validate_timeout : ℕ → Result (Unit {0}) ℕ
validate_timeout timeout_ms = if ltb max_wait_timeout_ms timeout_ms then err tt else ok timeout_ms

unfoldable pub effective_timeout : ℕ → ℕ
effective_timeout timeout_ms =
    if timeout_ms == 0
    then default_wait_timeout_ms
    else (if ltb max_wait_timeout_ms timeout_ms then max_wait_timeout_ms else timeout_ms)

unfoldable pub final_selector_verdict :
    Option Text → (Text → Result Text Bool) → Result Text WaitResult
final_selector_verdict none check = ok WaitResult.success
final_selector_verdict (some selector) check = elim (check selector) [
  | ok true ↦ ok WaitResult.success
  | ok false ↦ ok WaitResult.wait_not_found
  | err e ↦ err e
]

-- The timeout that is used passes the check, and one that passes it is used, unless it is 0.
pub effective_timeout-validate :
    (t : ℕ) → validate_timeout (effective_timeout t) ≡ ok (effective_timeout t)
unfolding validate_timeout effective_timeout
effective_timeout-validate t = ground arith
