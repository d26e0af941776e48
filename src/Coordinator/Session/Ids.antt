-- ===== src/Coordinator/Session/Ids.antt =====
-- Session ids as text, and the sessions under them (crates/common/src/session.rs).
use browser_hive_rs.Base.{
  ℕ, ◌-◌, ◌<◌, ◌≡◌, refl, false, [], ◌∷◌, ◌++◌, some, ◌==◌, ltb, lt→ltb, All,
}
use browser_hive_rs.Base.Text.{Text}
use browser_hive_rs.Base.Map.{insert, lookup-insert_self, lookup-filter-some}
use browser_hive_rs.Coordinator.Session.{
  SessionId, SessionInfo, SessionManager, colon, split_colon, from_string, to_string,
  create_session, get_session, get_found, cleanup,
}

-- No code point of the text is a colon.
abbrev pub NoColon : Text → Type 0
NoColon s = All (λ c. (c == colon) ≡ false) s

split_plain : (s : Text) → NoColon s → split_colon s ≡ s ∷ []
unfolding split_colon
split_plain [] h = refl
split_plain (c ∷ cs) h = rw (split_plain cs h.1, h.0) refl

split_join : (a b : Text) → NoColon a → NoColon b → split_colon (a ++ (colon ∷ b)) ≡ a ∷ b ∷ []
unfolding split_colon
split_join [] b h k = rw (split_plain b k) refl
split_join (c ∷ cs) b h k = rw (split_join cs b h.1 k, h.0) refl

-- A session id whose parts have no colon is read back from its text.
pub from_string-to_string :
    (i : SessionId)
    → NoColon i.worker_id
    → NoColon i.context_id
    → from_string (to_string i) ≡ some i
unfolding from_string to_string
from_string-to_string i h k = rw (split_join i.worker_id i.context_id h k) refl

-- A created session is found with its fields after a cleanup round that starts less than the
-- lifetime after its creation, and the find counts as the second request.
pub create-cleanup-get :
    (m : SessionManager) (scope worker context endpoint : Text) (created used cleaned now : ℕ)
    → cleaned - used < m.session_ttl
    → (get_session
        (to_string (create_session scope worker context endpoint created used m).0)
        now
        (cleanup cleaned (create_session scope worker context endpoint created used m).1)).0
      ≡ some (record {
        session_id = record { worker_id = worker; context_id = context };
        scope_name = scope;
        worker_endpoint = endpoint;
        created_at = created;
        last_used_at = now;
        request_count = 2;
      })
unfolding create_session get_session get_found cleanup
create-cleanup-get m scope worker context endpoint created used cleaned now h =
    let id : SessionId = record { worker_id = worker; context_id = context } in
    let info : SessionInfo = record {
      session_id = id;
      scope_name = scope;
      worker_endpoint = endpoint;
      created_at = created;
      last_used_at = used;
      request_count = 1;
    } in
    rw
      (lookup-filter-some (to_string id) (λ e. ltb (cleaned - e.1.last_used_at) m.session_ttl)
        (insert (to_string id) info m.sessions) info
        (lookup-insert_self (to_string id) info m.sessions) (lt→ltb _ _ h))
      refl
