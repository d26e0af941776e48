-- ===== src/Coordinator/Session.antt =====
-- Sessions: their ids and the coordinator's map from a session to its worker
-- (crates/common/src/session.rs).
pub mod Ids
pub mod Kept
use browser_hive_rs.Base.{
  ℕ, suc, ◌+◌, ◌-◌, ◌%◌, List, [], ◌∷◌, ◌++◌, Option, none, some, ◌==◌, if◌then◌else◌, ltb, filter,
  u64_mod,
}
use browser_hive_rs.Base.Text.{Text}
use browser_hive_rs.Base.Map.{Map, lookup, insert, remove}

pub record SessionId : Type 0 where
  pub worker_id : Text
  pub context_id : Text

abbrev pub colon : ℕ
colon = 58

-- `str::split(':')`: one part more than there are colons.
abbrev pub prepend : ℕ → List Text → List Text
prepend c [] = (c ∷ []) ∷ []
prepend c (part ∷ parts) = (c ∷ part) ∷ parts

unfoldable pub split_colon : Text → List Text
split_colon [] = [] ∷ []
split_colon (c ∷ cs) =
    let parts = split_colon cs in if c == colon then [] ∷ parts else prepend c parts

abbrev pub two_parts : List Text → Option SessionId
two_parts (a ∷ b ∷ []) = some (record { worker_id = a; context_id = b })
two_parts _ = none

unfoldable pub from_string : Text → Option SessionId
from_string s = two_parts (split_colon s)

-- `Display`
unfoldable pub to_string : SessionId → Text
to_string i = i.worker_id ++ (colon ∷ i.context_id)

pub record SessionInfo : Type 0 where
  pub session_id : SessionId
  pub scope_name : Text
  pub worker_endpoint : Text
  pub created_at : ℕ
  pub last_used_at : ℕ
  pub request_count : ℕ

pub record SessionManager : Type 0 where
  pub sessions : Map SessionInfo
  pub session_ttl : ℕ

-- `created` and `used` are the two readings of the clock.
unfoldable pub create_session :
    Text → Text → Text → Text → ℕ → ℕ → SessionManager → SessionId × SessionManager
create_session scope worker context endpoint created used m =
    let id : SessionId = record { worker_id = worker; context_id = context } in
    let info : SessionInfo = record {
      session_id = id;
      scope_name = scope;
      worker_endpoint = endpoint;
      created_at = created;
      last_used_at = used;
      request_count = 1;
    } in
    (id, record m { sessions = insert (to_string id) info m.sessions })

abbrev pub touch : ℕ → SessionInfo → SessionInfo
touch now s = record s { last_used_at = now; request_count = (s.request_count + 1) % u64_mod }

unfoldable pub get_found :
    Text → ℕ → SessionManager → Option SessionInfo → Option SessionInfo × SessionManager
get_found id now m none = (none, m)
get_found id now m (some s) =
    (some (touch now s), record m { sessions = insert id (touch now s) m.sessions })

unfoldable pub get_session : Text → ℕ → SessionManager → Option SessionInfo × SessionManager
get_session id now m = get_found id now m (lookup id m.sessions)

unfoldable pub remove_session : Text → SessionManager → SessionManager
remove_session id m = record m { sessions = remove id m.sessions }

-- One round of the cleanup task; `duration_since` saturates at 0.
unfoldable pub cleanup : ℕ → SessionManager → SessionManager
cleanup now m = record m {
  sessions = filter (λ e. ltb (now - e.1.last_used_at) m.session_ttl) m.sessions;
}
