-- ===== src/Worker/Diagnostics/Session.antt =====
-- `DiagnosticsSession` of crates/worker/src/diagnostics.rs: what its end writes to the log.
use browser_hive_rs.Base.{
  ℕ, Bool, true, false, not, ◌&&◌, ◌||◌, List, [], ◌∷◌, ◌++◌, Option, none, some, ltb, ◌==◌,
  if◌then◌else◌, is_empty, length, ℤ,
}
use browser_hive_rs.Base.Text.{Text, codes}
use browser_hive_rs.Base.Strings.Decimal.{show}
use browser_hive_rs.Common.Url.{UrlLibrary}
use browser_hive_rs.Common.Config.Diagnostics.{
  DiagnosticsConfig, DiagnosticsMode, logs_error_code, is_active_for, is_always,
}
use browser_hive_rs.Worker.Diagnostics.{DiagnosticsBuffer, total_entries, empty}
use browser_hive_rs.Worker.Diagnostics.Limiter.{LimiterState, try_acquire}

pub record DiagnosticsSession : Type 0 where
  pub buffer : DiagnosticsBuffer
  pub config : DiagnosticsConfig
  pub succeeded : Bool
  pub error_code : Option ℤ

unfoldable pub mark_success : DiagnosticsSession → DiagnosticsSession
mark_success s = record s { succeeded = true }

unfoldable pub set_error_code : ℤ → DiagnosticsSession → DiagnosticsSession
set_error_code code s = record s { error_code = some code }

unfoldable pub wants_snapshots : DiagnosticsSession → Option ℤ → Bool
unfolding logs_error_code
wants_snapshots s (some code) = logs_error_code s.config code
wants_snapshots s none = is_always s.config.mode || is_empty s.config.error_codes

unfoldable pub set_snapshots : Option Text → Option Text → DiagnosticsSession → DiagnosticsSession
set_snapshots state markers s = record s {
  buffer = record s.buffer { page_state = state; headless_markers = markers };
}

abbrev logs_code : DiagnosticsConfig → Option ℤ → Bool
logs_code config none = is_empty config.error_codes
logs_code config (some code) = logs_error_code config code

abbrev emits_in : DiagnosticsMode → DiagnosticsSession → Bool
emits_in DiagnosticsMode.off s = false
emits_in DiagnosticsMode.always s = true
emits_in DiagnosticsMode.on_error s = not s.succeeded && logs_code s.config s.error_code

unfoldable pub should_emit : DiagnosticsSession → Bool
unfolding logs_error_code
should_emit s = emits_in s.config.mode s

counts : DiagnosticsBuffer → Text
unfolding total_entries
counts b =
    if total_entries b == 0
    then codes "no browser-side signals captured"
    else show (length b.js_errors)
      ++ (codes " JS error(s), "
          ++ (show (length b.failed_requests)
              ++ (codes " failed request(s), "
                  ++ (show (length b.console_errors)
                      ++ (codes " console error(s), "
                          ++ (show (length b.console_messages) ++ codes " console message(s)"))))))

unfoldable pub summary : DiagnosticsBuffer → ℕ → Text
unfolding counts
summary b suppressed =
    codes "Browser diagnostics: "
    ++ (counts b
        ++ ((if ltb 0 b.dropped
              then codes ", " ++ (show b.dropped ++ codes " entr(ies) dropped over cap")
              else [])
            ++ (if ltb 0 suppressed
                then codes ", "
                  ++ (show suppressed ++ codes " earlier report(s) suppressed by rate limit")
                else [])))

-- The lines of the log; `summary_line` says whether it is a warning. The three reports of the page's
-- activity that follow are left out.
pub data Line : Type 0 where
  summary_line : Bool → Text → Line
  js_errors_line failed_requests_line console_errors_line console_line : List Text → Line
  page_state_line headless_markers_line : Text → Line

abbrev line_of : (List Text → Line) → List Text → List Line
line_of f [] = []
line_of f (x ∷ xs) = f (x ∷ xs) ∷ []

abbrev line_of_some : (Text → Line) → Option Text → List Line
line_of_some f none = []
line_of_some f (some t) = f t ∷ []

unfoldable pub lines : DiagnosticsSession → ℕ → List Line
unfolding summary
lines s suppressed =
    Line.summary_line (not s.succeeded) (summary s.buffer suppressed)
    ∷ (line_of Line.js_errors_line s.buffer.js_errors
        ++ (line_of Line.failed_requests_line s.buffer.failed_requests
            ++ (line_of Line.console_errors_line s.buffer.console_errors
                ++ (line_of Line.console_line s.buffer.console_messages
                    ++ (line_of_some Line.page_state_line s.buffer.page_state
                        ++ line_of_some Line.headless_markers_line s.buffer.headless_markers)))))

abbrev write : DiagnosticsSession → Option ℕ × LimiterState → List Line × LimiterState
write s (none, limiter) = ([], limiter)
write s (some suppressed, limiter) = (lines s suppressed, limiter)

-- `Drop::drop`: what is written, and the limiter, whose clock reads `now` and then `later`.
unfoldable pub drop_session : ℕ → ℕ → DiagnosticsSession → LimiterState → List Line × LimiterState
unfolding should_emit lines try_acquire
drop_session now later s limiter =
    if should_emit s
    then write s (try_acquire s.config.max_per_minute now later limiter)
    else ([], limiter)

-- `start_capture` up to its calls of Chrome: no session where the configuration excludes the URL.
unfoldable pub start_capture : UrlLibrary → DiagnosticsConfig → Text → Option DiagnosticsSession
unfolding is_active_for
start_capture lib config url =
    if is_active_for lib config url
    then some (record { buffer = empty; config = config; succeeded = false; error_code = none })
    else none
