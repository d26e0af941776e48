-- ===== src/Worker/Shutdown.antt =====
-- The drain of crates/worker/src/shutdown.rs. The loop is a recursion on the rounds that it can
-- make; where they run out it has no answer. Times are in nanoseconds; the signals of the process
-- and the token belong to `main`.
pub mod Honest
use browser_hive_rs.Base.{
  ℕ, ◌+◌, ◌*◌, Bool, true, false, not, ◌&&◌, List, [], ◌∷◌, Option, none, some, ltb, leb, ◌==◌,
  if◌then◌else◌, u64_mod,
}
use browser_hive_rs.Base.Text.{Text}
use browser_hive_rs.Base.Strings.{trim}
use browser_hive_rs.Base.Strings.Decimal.{parse}

abbrev pub second : ℕ
second = 1000000000

abbrev pub default_drain_timeout : ℕ
default_drain_timeout = 25 * second

abbrev pub min_unroutable_pause : ℕ
min_unroutable_pause = 3 * second

abbrev pub poll_interval : ℕ
poll_interval = 500000000

abbrev seconds : Option ℕ → ℕ
seconds none = default_drain_timeout
seconds (some secs) = secs * second

unfoldable pub parse_drain_timeout : Option Text → ℕ
unfolding trim parse
parse_drain_timeout none = default_drain_timeout
parse_drain_timeout (some value) = seconds (parse u64_mod (trim value))

pub data DrainOutcome : Type 0 where
  drained : DrainOutcome
  timed_out interrupted : ℕ → DrainOutcome

-- A round: the clock, the requests in flight, and what is in flight where the interrupt resolves
-- before the round has slept.
pub record Round : Type 0 where
  pub now : ℕ
  pub remaining : ℕ
  pub interrupt : Option ℕ

-- `Duration::min`
abbrev pub shorter : ℕ → ℕ → ℕ
shorter a b = if ltb b a then b else a

-- The instant until which a round sleeps.
abbrev pub wake_at : ℕ → ℕ → ℕ
wake_at deadline now = shorter (now + poll_interval) deadline

module _ (start min_pause timeout : ℕ) where
  abbrev pub deadline : ℕ
  deadline = start + timeout

  abbrev pub pause_end : ℕ
  pause_end = start + shorter min_pause timeout

  unfoldable pub drain : List Round → Option DrainOutcome
  drain [] = none
  drain (r ∷ rounds) = elim (r.remaining == 0 && leb pause_end r.now) [
    | true ↦ some DrainOutcome.drained
    | false ↦ elim (leb deadline r.now) [
      | true ↦ some (DrainOutcome.timed_out r.remaining)
      | false ↦ elim r.interrupt [
        | some remaining ↦ some (DrainOutcome.interrupted remaining)
        | none ↦ drain rounds
      ]
    ]
  ]
