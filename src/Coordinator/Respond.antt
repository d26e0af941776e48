-- ===== src/Coordinator/Respond.antt =====
-- `scrape_page` of the coordinator after its last attempt (crates/coordinator/src/service.rs): the
-- client's response and the session. Headers, times and the ray id are left out.
use browser_hive_rs.Base.{
  ℕ, Bool, false, List, All, ap, [], ◌++◌, ◌≡◌, ◌≢◌, refl, some, arith, ◌==◌, if◌then◌else◌,
  is_empty,
}
use browser_hive_rs.Base.Text.{Text, codes}
use browser_hive_rs.Coordinator.Retry.{code_capacity_exhausted}
use browser_hive_rs.Coordinator.Retry.Loop.{
  WorkerResponse, answered, unreachable, Answer, produced, invalid_argument,
}
use browser_hive_rs.Coordinator.Route.{code_no_workers_available}
use browser_hive_rs.Coordinator.Session.{
  SessionId, SessionInfo, SessionManager, create_session, get_session, to_string,
}
use browser_hive_rs.Coordinator.Session.Kept.{
  Operation, IsQuiet, perform_all, perform_all-IsKept, create_session-IsKept, get_session-IsKept,
}

abbrev pub code_worker_unreachable : ℕ
code_worker_unreachable = 5002

pub record ScrapePageResponse : Type 0 where
  pub success : Bool
  pub status_code : ℕ
  pub content : Text
  pub error_message : Text
  pub error_code : ℕ
  pub session_id : Text
  pub worker_id : Text
  pub context_id : Text

-- A response, or the status of an RPC that the worker refused as invalid.
pub data Reply : Type 0 where
  response : ScrapePageResponse → Reply
  status : Text → Reply

-- `CAPACITY_EXHAUSTED` is the worker's word for the coordinator's `NO_WORKERS_AVAILABLE`.
unfoldable pub relabel : Text → WorkerResponse → WorkerResponse
relabel scope r =
    if r.error_code == code_capacity_exhausted
    then record r {
      error_message =
          codes "No available slots in scope " ++ (scope ++ (codes ": " ++ r.error_message));
      error_code = code_no_workers_available;
    }
    else r

-- The session of a response that names a context, its text first.
unfoldable pub open_session :
    Text → Text → Text → ℕ → ℕ → WorkerResponse → SessionManager → Text × SessionManager
open_session scope worker endpoint created used r m =
    if is_empty r.context_id
    then ([], m)
    else (let (id, n) = create_session scope worker r.context_id endpoint created used m in
        (to_string id, n))

abbrev to_client : Text → WorkerResponse → Text × SessionManager → Reply × SessionManager
to_client worker r (session_id, m) = (
  response (record {
    success = r.success;
    status_code = r.status_code;
    content = r.content;
    error_message = r.error_message;
    error_code = r.error_code;
    session_id = session_id;
    worker_id = worker;
    context_id = r.context_id;
  }),
  m,
)

unfoldable pub answer_client :
    Text → Text → Text → ℕ → ℕ → WorkerResponse → SessionManager → Reply × SessionManager
answer_client scope worker endpoint created used r m =
    to_client worker r (open_session scope worker endpoint created used r m)

-- `endpoint` is that of the last worker, `created` and `used` the clock's two readings.
unfoldable pub respond :
    Text → Text → ℕ → ℕ → Answer → Text → SessionManager → Reply × SessionManager
respond scope endpoint created used (invalid_argument message) worker m = (status message, m)
respond scope endpoint created used (produced (unreachable message)) worker m = (
  response (record {
    success = false;
    status_code = 0;
    content = [];
    error_message = message;
    error_code = code_worker_unreachable;
    session_id = [];
    worker_id = worker;
    context_id = [];
  }),
  m,
)
respond scope endpoint created used (produced (answered r)) worker m =
    answer_client scope worker endpoint created used (relabel scope r) m

abbrev pub IsClientReply : Reply → Type 0
IsClientReply (response r) = r.error_code ≢ code_capacity_exhausted
IsClientReply (status message) = Unit

relabel-code :
    (scope : Text) (r : WorkerResponse) → (relabel scope r).error_code ≢ code_capacity_exhausted
unfolding relabel
relabel-code scope r = ground arith

-- Whatever the last attempt produced, a response to the client never carries CAPACITY_EXHAUSTED, a
-- code of the worker only.
pub respond-IsClientReply :
    (scope endpoint : Text) (created used : ℕ) (a : Answer) (worker : Text) (m : SessionManager)
    → IsClientReply (respond scope endpoint created used a worker m).0
unfolding respond answer_client
respond-IsClientReply scope endpoint created used (invalid_argument message) worker m = tt
respond-IsClientReply scope endpoint created used (produced (unreachable message)) worker m =
    ground arith
respond-IsClientReply scope endpoint created used (produced (answered r)) worker m =
    relabel-code scope r

-- The session that the response names is found, on the worker and the context that served.
abbrev pub IsContinued : ℕ → Text → Text → Reply × SessionManager → Type 0
IsContinued now scope endpoint (status message, m) = ⊥
IsContinued now scope endpoint (response r, m) =
    (s : SessionInfo) × ((get_session r.session_id now m).0 ≡ some s)
    × (s.scope_name ≡ scope)
    × (s.worker_endpoint ≡ endpoint)
    × (s.session_id.worker_id ≡ r.worker_id)
    × (s.session_id.context_id ≡ r.context_id)

relabel-context : (scope : Text) (r : WorkerResponse) → (relabel scope r).context_id ≡ r.context_id
unfolding relabel
relabel-context scope r = ground arith

-- What a get finds after the session's creation and operations that do not end it.
found_again :
    (scope worker context endpoint : Text) (created used now : ℕ) (m : SessionManager)
    (os : List Operation)
    → All (IsQuiet scope worker context endpoint used m.session_ttl) os
    → let (id, n) = create_session scope worker context endpoint created used m in
      (s : SessionInfo) × ((get_session (to_string id) now (perform_all os n)).0 ≡ some s)
      × (s.scope_name ≡ scope)
      × (s.worker_endpoint ≡ endpoint)
      × (s.session_id.worker_id ≡ worker)
      × (s.session_id.context_id ≡ context)
unfolding create_session
found_again scope worker context endpoint created used now m os q =
    let n = (create_session scope worker context endpoint created used m).1 in
    let (s, e, of_id, of_scope, of_endpoint) =
      get_session-IsKept scope worker context endpoint used m.session_ttl now (perform_all os n) (
        perform_all-IsKept scope worker context endpoint used m.session_ttl os n q (
          create_session-IsKept scope worker context endpoint used m.session_ttl created m refl)) in
    (
      s,
      e,
      of_scope,
      of_endpoint,
      ap (λ (j : SessionId). j.worker_id) of_id,
      ap (λ (j : SessionId). j.context_id) of_id,
    )

-- The session id of a response whose worker named a context is found by a get, with the scope and
-- endpoint of the request and the worker and context of the response, directly and after any
-- operations on the session map each of which creates a session of another id, or the same session
-- for the same scope and endpoint at no earlier time, gets a session at no earlier time, removes
-- another id, or cleans up less than the lifetime after the creation.
pub respond-IsContinued :
    (scope endpoint : Text) (created used now : ℕ) (r : WorkerResponse) (worker : Text)
    (m : SessionManager) (os : List Operation)
    → is_empty r.context_id ≡ false
    → All (IsQuiet scope worker r.context_id endpoint used m.session_ttl) os
    → IsContinued now scope endpoint (
        let (reply, n) = respond scope endpoint created used (produced (answered r)) worker m in
        (reply, perform_all os n))
unfolding respond answer_client open_session
respond-IsContinued scope endpoint created used now r worker m os h q =
    rw (relabel-context scope r, h)
      (found_again scope worker r.context_id endpoint created used now m os q)
