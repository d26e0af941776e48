-- ===== src/Coordinator/Retry.antt =====
-- The retry loop of a request (crates/coordinator/src/service.rs). Instants are nanoseconds.
pub mod Loop
pub mod Attempts
pub mod Release
use browser_hive_rs.Base.{
  ℕ, ◌*◌, Bool, true, false, ◌&&◌, List, [], ◌∷◌, Option, none, some, ◌==◌, if◌then◌else◌,
}
use browser_hive_rs.Base.Text.{Text, codes}

abbrev pub seconds : ℕ → ℕ
seconds n = n * 1000000000

abbrev pub grpc_request_timeout : ℕ
grpc_request_timeout = seconds 320

unfoldable pub client_budget : ℕ → ℕ
client_budget timeout_seconds =
    if timeout_seconds == 0 then grpc_request_timeout else seconds timeout_seconds

-- The two codes of the protocol that the coordinator looks for.
abbrev pub code_terminating : ℕ
code_terminating = 5006

abbrev pub code_capacity_exhausted : ℕ
code_capacity_exhausted = 5008

pub data RetryReason : Type 0 where
  terminating no_slots worker_unreachable : RetryReason

pub record RetryPlan : Type 0 where
  pub reason : RetryReason
  pub max_attempts : ℕ
  pub code_name : Text

abbrev pub max_terminating_attempts : ℕ
max_terminating_attempts = 3

abbrev pub max_capacity_attempts : ℕ
max_capacity_attempts = 2

abbrev pub max_unreachable_attempts : ℕ
max_unreachable_attempts = 2

unfoldable pub classify_retry : ℕ → Bool → Option RetryPlan
classify_retry error_code no_session =
    if error_code == code_terminating
    then some (record {
      reason = RetryReason.terminating;
      max_attempts = max_terminating_attempts;
      code_name = codes "TERMINATING";
    })
    else if (error_code == code_capacity_exhausted) && no_session
    then some (record {
      reason = RetryReason.no_slots;
      max_attempts = max_capacity_attempts;
      code_name = codes "CAPACITY_EXHAUSTED";
    })
    else none

unfoldable pub classify_unreachable_retry : Bool → Option RetryPlan
classify_unreachable_retry no_session =
    if no_session
    then some (record {
      reason = RetryReason.worker_unreachable;
      max_attempts = max_unreachable_attempts;
      code_name = codes "WORKER_UNREACHABLE";
    })
    else none
