-- ===== src/Worker/WaitTests.antt =====
-- Waits, documents and drains at concrete readings.
use browser_hive_rs.Base.{
  ◌≤◌, ◌≡◌, refl, true, false, ◌*◌, none, some, List, [], ◌∷◌, ◌++◌, arith, map, is_some,
}
use browser_hive_rs.Base.Text.{Text, codes, text_eq}
use browser_hive_rs.Base.Result.{ok}
use browser_hive_rs.Common.ProtocolTests.{forbidden, replaced, round}
use browser_hive_rs.Common.Challenge.{MainDocument, default}
use browser_hive_rs.Worker.Outcome.{WaitResult}
use browser_hive_rs.Worker.WaitBudget.{effective_timeout}
use browser_hive_rs.Worker.WaitStrategy.{millisecond}
use browser_hive_rs.Worker.WaitStrategy.Timeout as Timeout
use browser_hive_rs.Worker.WaitStrategy.Timeout.Priority as Priority
use browser_hive_rs.Worker.WaitStrategy.Timeout.Priority.{timeout-verdict}
use browser_hive_rs.Worker.WaitStrategy.NetworkIdle as NetworkIdle
use browser_hive_rs.Worker.WaitStrategy.NetworkIdle.Earned.{
  earned, shows_wait, shows_skip, is_blocked, run-earned,
}
use browser_hive_rs.Worker.WaitPhase.{Strategy, Readings, wait_task}
use browser_hive_rs.Worker.WaitPhase.Ends.{wait_task_ends}
use browser_hive_rs.Worker.Documents.{Event, no_documents, latest_snapshot, listen_all}
use browser_hive_rs.Worker.Documents.Latest.{latest_snapshot-listen_all}
use browser_hive_rs.Common.Challenge.{ChallengeOutcome, wait_out_challenge, is_challenge}
use browser_hive_rs.Worker.Documents.{listen, mark_document_loaded}
use browser_hive_rs.Worker.Documents.Passed.{Step, rounds_from, documents_in, passed_on_second}
use browser_hive_rs.Worker.Shutdown.{DrainOutcome, drain, min_unroutable_pause}
use browser_hive_rs.Worker.Shutdown as Shutdown
use browser_hive_rs.Worker.Shutdown.Honest.{is_borne_out, drain-IsBorneOut}

-- The wait selector shows up at once, the skip selector a second later.
abbrev looks : List Priority.Look
looks =
    record { skip = false; wait = true; elapsed = 0; final = true }
    ∷ record { skip = true; wait = true; elapsed = 1000 * millisecond; final = true }
    ∷ record { skip = true; wait = true; elapsed = 2000 * millisecond; final = true }
    ∷ []

timeout-verdict_example :
    Timeout.run (ok tt) 2000 true true (map Priority.quiet looks)
    ≡ some (
        ok (
          Priority.verdict true true
            (Priority.within (effective_timeout 2000 * millisecond) looks)))
unfolding effective_timeout
timeout-verdict_example = timeout-verdict 2000 true true looks refl

-- A page that is idle at once and shows the selector in the first search.
abbrev quiet_page : NetworkIdle.Page
quiet_page = record {
  rounds =
      record {
        is_cancelled = false;
        skip_seen = ok false;
        idle = some (ok tt);
        status = some 200;
        elapsed = 60000 * millisecond;
        final_seen = ok false;
      }
      ∷ [];
  ready = record {
    ready_at = 0;
    skip_seen = ok false;
    elapsed = 10;
    final_seen = ok false;
    status = some 200;
    searched_at = 20;
  };
  searches =
      record {
        is_cancelled = false;
        skip_seen = ok false;
        wait_seen = ok true;
        searched = 0;
        elapsed = 60000 * millisecond;
        final_seen = ok true;
      }
      ∷ [];
}

quiet_run : NetworkIdle.run false true 0 quiet_page ≡ some (ok WaitResult.success)
unfolding NetworkIdle.run
quiet_run = refl

run-earned_example :
    earned false true
      (shows_wait quiet_page)
      (shows_skip quiet_page)
      (is_blocked quiet_page)
      (ok WaitResult.success)
    ≡ true
run-earned_example = run-earned false true 0 quiet_page (ok WaitResult.success) quiet_run

-- A challenge of nine nanoseconds, then that page.
abbrev readings : Readings
readings = record {
  challenge_rounds = replaced;
  challenge_elapsed = 9;
  json_rounds = round 2 200 (60000 * millisecond) ∷ [];
  now = 100;
  navigated = ok tt;
  polls = [];
  page = quiet_page;
}

wait_task_ends_example :
    is_some (wait_task Strategy.network_idle false true 30000 (forbidden ∷ []) 10 readings) ≡ true
wait_task_ends_example =
    wait_task_ends Strategy.network_idle false true 30000 (forbidden ∷ []) 10 readings (omega arith)
      refl refl refl

abbrev frame : Text
frame = codes "main"

abbrev page_document : MainDocument
page_document = record { status = 200; headers = []; url = codes "u" }

latest_snapshot-listen_all_example :
    latest_snapshot (
      listen_all frame
        ((Event.response_received true (some frame) (codes "1") default ∷ [])
          ++ Event.response_received true (some frame) (codes "2") page_document
            ∷ Event.loading_finished (codes "2")
            ∷ [])
        no_documents)
    ≡ some (record { seq = 2; is_loaded = true; doc = page_document })
unfolding text_eq
latest_snapshot-listen_all_example =
    latest_snapshot-listen_all frame
      (Event.response_received true (some frame) (codes "1") default ∷ [])
      (Event.loading_finished (codes "2") ∷ []) (codes "2") page_document refl

-- A request that ends within the drain.
abbrev drain_rounds : List Shutdown.Round
drain_rounds =
    record { now = 0; remaining = 1; interrupt = none }
    ∷ record { now = 20; remaining = 0; interrupt = none }
    ∷ record { now = 30; remaining = 0; interrupt = none }
    ∷ []

drain-IsBorneOut_example :
    (o : DrainOutcome) × (drain 0 10 25 drain_rounds ≡ some o)
    × (is_borne_out 0 10 25 drain_rounds o ≡ true)
drain-IsBorneOut_example = drain-IsBorneOut 0 10 25 drain_rounds refl

-- The challenge, then the page that replaces it.
abbrev steps : List Step
steps =
    record {
      events =
          Event.response_received true (some frame) (codes "1")
            (record page_document { status = 403 })
          ∷ [];
      elapsed = 0;
    }
    ∷ record {
      events =
          Event.loading_finished (codes "1")
          ∷ Event.response_received true (some frame) (codes "2") page_document
          ∷ Event.loading_finished (codes "2")
          ∷ [];
      elapsed = 5;
    }
    ∷ []

steps_pass :
    wait_out_challenge (forbidden ∷ []) 10 (rounds_from frame no_documents steps)
    ≡ some (ok ChallengeOutcome.passed)
unfolding wait_out_challenge is_challenge latest_snapshot listen mark_document_loaded text_eq
steps_pass = refl

passed_on_second_example : 2 ≤ documents_in frame steps
unfolding text_eq
passed_on_second_example = passed_on_second frame (forbidden ∷ []) 10 steps (omega arith) steps_pass

-- The pause is cut to a timeout of 0: an idle worker does not wait for its three seconds.
zero_timeout_ends_at_once :
    drain 0 min_unroutable_pause 0 (record { now = 0; remaining = 0; interrupt = none } ∷ [])
    ≡ some DrainOutcome.drained
unfolding drain
zero_timeout_ends_at_once = refl
