-- ===== src/Worker/Diagnostics/Limiter.antt =====
-- `DiagnosticsLimiter` of crates/worker/src/diagnostics.rs: how many requests a minute may log.
pub mod Window
pub mod Suppressed
use browser_hive_rs.Base.{
  ℕ, ◌+◌, ◌-◌, ◌*◌, ◌%◌, ◌^◌, Bool, List, [], ◌∷◌, Option, none, some, leb, ◌==◌, if◌then◌else◌,
}

abbrev pub minute : ℕ
minute = 60 * 1000000000

-- The counters are `u32`.
abbrev pub u32_mod : ℕ
u32_mod = 2 ^ 32

pub record LimiterState : Type 0 where
  pub window_start : ℕ
  pub used : ℕ
  pub suppressed : ℕ

abbrev pub new : ℕ → LimiterState
new now = record { window_start = now; used = 0; suppressed = 0 }

-- The state once a window that is over has been replaced. `now` and `later` are the two readings of
-- the clock, for `elapsed` and for the new window's start.
abbrev pub refresh : ℕ → ℕ → LimiterState → LimiterState
refresh now later st =
    if leb minute (now - st.window_start)
    then record { window_start = later; used = 0; suppressed = st.suppressed }
    else st

abbrev pub take_slot : ℕ → LimiterState → Option ℕ × LimiterState
take_slot max st =
    if leb max st.used
    then (none, record st { suppressed = (st.suppressed + 1) % u32_mod })
    else (some st.suppressed, record st { used = st.used + 1; suppressed = 0 })

unfoldable pub try_acquire : ℕ → ℕ → ℕ → LimiterState → Option ℕ × LimiterState
try_acquire max now later st =
    if max == 0 then (some 0, st) else take_slot max (refresh now later st)

-- Calls one after the other, each at one reading of the clock, with their answers.
unfoldable pub calls : ℕ → List ℕ → LimiterState → List (Option ℕ) × LimiterState
unfolding try_acquire
calls max [] st = ([], st)
calls max (now ∷ times) st =
    let (answer, st') = try_acquire max now now st in
    let (answers, end) = calls max times st' in (answer ∷ answers, end)
