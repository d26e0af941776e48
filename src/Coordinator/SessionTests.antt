-- ===== src/Coordinator/SessionTests.antt =====
-- Sessions at concrete maps: kept, found again, lost with their worker.
use browser_hive_rs.Base.{◌≡◌, refl, true, false, none, some, List, [], ◌∷◌, arith, inl}
use browser_hive_rs.Base.Text.{codes, text_eq, Text}
use browser_hive_rs.Base.Map.{lookup, remove, insert}
use browser_hive_rs.Base.Result.{ok, err}
use browser_hive_rs.Coordinator.Retry.Loop.{WorkerResponse, answered, produced}
use browser_hive_rs.Coordinator.Respond.{IsContinued, respond, respond-IsContinued}
use browser_hive_rs.Coordinator.Route.{
  Coordinator, RejectReason, code_session_not_found, route, route_session, worker_exists,
}
use browser_hive_rs.Coordinator.Route.Served.{SessionRouted, session_is_routed}
use browser_hive_rs.Coordinator.Session.{
  SessionInfo, to_string, create_session, get_found, get_session, remove_session, cleanup,
}
use browser_hive_rs.Coordinator.Session.Ids.{create-cleanup-get}
use browser_hive_rs.Coordinator.Session.Kept.{Operation, perform_all}
use browser_hive_rs.Coordinator.Tests.{no_sessions, print, running, silent}

create-cleanup-get_example :
    (get_session
      (to_string (create_session (codes "s") (codes "w") (codes "c") (codes "e") 3 4 no_sessions).0)
      900
      (cleanup 60
        (create_session (codes "s") (codes "w") (codes "c") (codes "e") 3 4 no_sessions).1)).0
    ≡ some (record {
      session_id = record { worker_id = codes "w"; context_id = codes "c" };
      scope_name = codes "s";
      worker_endpoint = codes "e";
      created_at = 3;
      last_used_at = 900;
      request_count = 2;
    })
create-cleanup-get_example =
    create-cleanup-get no_sessions (codes "s") (codes "w") (codes "c") (codes "e") 3 4 60 900
      (omega arith)

-- A coordinator that holds two sessions: the worker of the first is there, that of the second left.
abbrev session_on : Text → SessionInfo
session_on worker = record {
  session_id = record { worker_id = worker; context_id = codes "c" };
  scope_name = codes "s";
  worker_endpoint = codes "e";
  created_at = 3;
  last_used_at = 4;
  request_count = 1;
}

abbrev with_sessions : Coordinator
with_sessions = record running {
  session_manager = record no_sessions {
    sessions = (codes "a:c", session_on (codes "a")) ∷ (codes "w:c", session_on (codes "w")) ∷ [];
  };
}

session_is_routed_example :
    SessionRouted print silent
      (codes "a:c")
      (get_session (codes "a:c") 10 with_sessions.session_manager).0
      (route print silent 10 (codes "a:c") (codes "s") with_sessions)
session_is_routed_example =
    session_is_routed print silent 10 b'a' (b':' ∷ b'c' ∷ []) (codes "s") with_sessions refl

held_session_goes_on :
    (route print silent 10 (codes "a:c") (codes "s") with_sessions).0 ≡ ok (codes "e", codes "a")
unfolding route route_session get_session get_found worker_exists lookup text_eq
held_session_goes_on = refl

lost_session_is_rejected :
    (route print silent 10 (codes "w:c") (codes "s") with_sessions).0
    ≡ err (record { reason = RejectReason.session_not_found; error_code = code_session_not_found })
unfolding route route_session get_session get_found worker_exists lookup text_eq
lost_session_is_rejected = refl

lost_session_is_removed :
    lookup
      (codes "w:c")
      (route print silent 10 (codes "w:c") (codes "s") with_sessions).1.session_manager.sessions
    ≡ none
unfolding route route_session get_session get_found worker_exists remove_session lookup text_eq
    remove insert
lost_session_is_removed = refl

-- A full worker's answer, and one that opens a session.
abbrev full : WorkerResponse
full = record {
  success = false;
  status_code = 0;
  content = [];
  error_message = codes "busy";
  error_code = 5008;
  context_id = [];
}

abbrev opened : WorkerResponse
opened = record full { success = true; error_code = 0; context_id = codes "c" }

-- Another session is created, the client's own is used, and the map is cleaned up in time.
abbrev meanwhile : List Operation
meanwhile =
    Operation.create_op (codes "s") (codes "a") (codes "d") (codes "e") 5 5
    ∷ Operation.get_op (codes "a:c") 600
    ∷ Operation.remove_op (codes "a:d")
    ∷ Operation.cleanup_op 1700
    ∷ []

respond-IsContinued_example : IsContinued 9000 (codes "s") (codes "e") (
    let (reply, n) =
      respond (codes "s") (codes "e") 3 4 (produced (answered opened)) (codes "a") no_sessions in
    (reply, perform_all meanwhile n))
unfolding to_string text_eq
respond-IsContinued_example =
    respond-IsContinued (codes "s") (codes "e") 3 4 9000 opened (codes "a") no_sessions meanwhile
      refl (inl refl, (omega arith, (refl, (omega arith, tt))))
