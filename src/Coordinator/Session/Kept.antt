-- ===== src/Coordinator/Session/Kept.antt =====
-- How long a session of crates/common/src/session.rs stays in the map.
use browser_hive_rs.Base.{
  ℕ, ◌-◌, ◌≤◌, ◌<◌, ◌≡◌, refl, ap, ◌∙◌, ◌⊎◌, inl, inr, false, List, [], ◌∷◌, some, ltb, lt→ltb, sym,
  All, arith, Bool-cases, Option-cases,
}
use mathlib.Core.Option.{some-injective}
use browser_hive_rs.Base.Text.{Text, text_eq, text_eq_iff}
use browser_hive_rs.Base.Map.{
  lookup, insert, lookup-insert, lookup-insert_self, lookup-remove, lookup-filter-some,
}
use browser_hive_rs.Coordinator.Session.{
  SessionId, SessionInfo, SessionManager, to_string, create_session, touch, get_found, get_session,
  remove_session, cleanup,
}

-- What the coordinator and the cleanup task do with the map.
pub data Operation : Type 0 where
  create_op : Text → Text → Text → Text → ℕ → ℕ → Operation
  get_op : Text → ℕ → Operation
  remove_op : Text → Operation
  cleanup_op : ℕ → Operation

unfoldable pub perform : Operation → SessionManager → SessionManager
unfolding create_session get_session remove_session cleanup
perform (Operation.create_op scope worker context endpoint created used) m =
    (create_session scope worker context endpoint created used m).1
perform (Operation.get_op id now) m = (get_session id now m).1
perform (Operation.remove_op id) m = remove_session id m
perform (Operation.cleanup_op now) m = cleanup now m

abbrev pub perform_all : List Operation → SessionManager → SessionManager
perform_all [] m = m
perform_all (o ∷ os) m = perform_all os (perform o m)

module _ (scope worker context endpoint : Text) (used ttl : ℕ) where
  abbrev pub id : SessionId
  id = record { worker_id = worker; context_id = context }

  abbrev pub key : Text
  key = to_string id

  -- The operation does not end the session that was created at `used`: it removes another one, or is
  -- a cleanup within the lifetime, or happens later; a creation is of another session, or a later one
  -- of the same.
  abbrev pub IsQuiet : Operation → Type 0
  IsQuiet (Operation.create_op sc w c e created at) =
      (text_eq (to_string (record { worker_id = w; context_id = c })) key ≡ false)
      ⊎ ((sc ≡ scope) × (w ≡ worker) × (c ≡ context) × (e ≡ endpoint) × (used ≤ at))
  IsQuiet (Operation.get_op j now) = used ≤ now
  IsQuiet (Operation.remove_op j) = text_eq j key ≡ false
  IsQuiet (Operation.cleanup_op now) = now - used < ttl

  -- The session is in the map.
  pub record IsIn (m : SessionManager) (s : SessionInfo) : Type 0 where
    pub held : lookup key m.sessions ≡ some s
    pub of_id : s.session_id ≡ id
    pub of_scope : s.scope_name ≡ scope
    pub of_endpoint : s.worker_endpoint ≡ endpoint
    pub is_later : used ≤ s.last_used_at
    pub lives : m.session_ttl ≡ ttl

  abbrev pub IsKept : SessionManager → Type 0
  IsKept m = (s : SessionInfo) × IsIn m s

  moved :
      {m : SessionManager} {s : SessionInfo} (n : SessionManager)
      → IsIn m s
      → n.session_ttl ≡ m.session_ttl
      → lookup key n.sessions ≡ some s
      → IsKept n
  moved {m} {s} n k same held = (
    s,
    record {
      held = held;
      of_id = k.of_id;
      of_scope = k.of_scope;
      of_endpoint = k.of_endpoint;
      is_later = k.is_later;
      lives = same ∙ k.lives;
    },
  )

  create-IsKept :
      (sc w c e : Text) (created at : ℕ) (m : SessionManager)
      → IsQuiet (Operation.create_op sc w c e created at)
      → IsKept m
      → IsKept (create_session sc w c e created at m).1
  unfolding create_session
  create-IsKept sc w c e created at m q (s, k) = elim q [
    | inl other ↦ moved _ k refl (lookup-insert _ key _ m.sessions ∙ rw other k.held)
    | inr (p0, p1, p2, p3, p4) ↦
        rw (p0, p1, p2, p3)
          (
            _,
            record {
              held = lookup-insert_self key _ m.sessions;
              of_id = refl;
              of_scope = refl;
              of_endpoint = refl;
              is_later = p4;
              lives = k.lives;
            },
          )
  ]

  touch-IsKept :
      (j : Text) (now : ℕ) (m : SessionManager) (s found : SessionInfo)
      → used ≤ now
      → IsIn m s
      → lookup j m.sessions ≡ some found
      → IsKept (record m { sessions = insert j (touch now found) m.sessions })
  touch-IsKept j now m s found q k e = elim (Bool-cases (text_eq j key)) [
    | inr other ↦ moved _ k refl (lookup-insert j key _ m.sessions ∙ rw other k.held)
    | inl own ↦
        let here = (text_eq_iff j key).0 own in
        let same : found ≡ s =
          some-injective found s (sym e ∙ (ap (λ (x : Text). lookup x m.sessions) here ∙ k.held)) in
        rw here (
          touch now found,
          record {
            held = lookup-insert_self key (touch now found) m.sessions;
            of_id = ap (λ (x : SessionInfo). x.session_id) same ∙ k.of_id;
            of_scope = ap (λ (x : SessionInfo). x.scope_name) same ∙ k.of_scope;
            of_endpoint = ap (λ (x : SessionInfo). x.worker_endpoint) same ∙ k.of_endpoint;
            is_later = q;
            lives = k.lives;
          },
        )
  ]

  get-IsKept :
      (j : Text) (now : ℕ) (m : SessionManager)
      → used ≤ now
      → IsKept m
      → IsKept (get_session j now m).1
  unfolding get_session get_found
  get-IsKept j now m q (s, k) = elim (Option-cases (lookup j m.sessions)) [
    | inl e ↦ rw e (s, k)
    | inr (found, e) ↦ rw e (touch-IsKept j now m s found q k e)
  ]

  cleanup-IsKept :
      (now : ℕ) (m : SessionManager) → now - used < ttl → IsKept m → IsKept (cleanup now m)
  unfolding cleanup
  cleanup-IsKept now m q (s, k) = moved _ k refl (
      lookup-filter-some key (λ e. ltb (now - e.1.last_used_at) m.session_ttl) m.sessions s k.held
        (lt→ltb _ _ (omega (arith, q, k.is_later, k.lives))))

  remove-IsKept :
      (j : Text) (m : SessionManager)
      → text_eq j key ≡ false
      → IsKept m
      → IsKept (remove_session j m)
  unfolding remove_session
  remove-IsKept j m q (s, k) = moved _ k refl (lookup-remove j key m.sessions ∙ rw q k.held)

  perform-IsKept :
      (o : Operation) (m : SessionManager) → IsQuiet o → IsKept m → IsKept (perform o m)
  unfolding perform
  perform-IsKept (Operation.create_op sc w c e created at) m q k =
      create-IsKept sc w c e created at m q k
  perform-IsKept (Operation.get_op j now) m q k = get-IsKept j now m q k
  perform-IsKept (Operation.remove_op j) m q k = remove-IsKept j m q k
  perform-IsKept (Operation.cleanup_op now) m q k = cleanup-IsKept now m q k

  pub perform_all-IsKept :
      (os : List Operation) (m : SessionManager)
      → All IsQuiet os
      → IsKept m
      → IsKept (perform_all os m)
  perform_all-IsKept [] m q k = k
  perform_all-IsKept (o ∷ os) m q k =
      perform_all-IsKept os (perform o m) q.1 (perform-IsKept o m q.0 k)

  pub create_session-IsKept :
      (created : ℕ) (m : SessionManager)
      → m.session_ttl ≡ ttl
      → IsKept (create_session scope worker context endpoint created used m).1
  unfolding create_session
  create_session-IsKept created m e = (
    _,
    record {
      held = lookup-insert_self key _ m.sessions;
      of_id = refl;
      of_scope = refl;
      of_endpoint = refl;
      is_later = omega arith;
      lives = e;
    },
  )

  -- What a get then finds.
  pub get_session-IsKept :
      (now : ℕ) (m : SessionManager)
      → IsKept m
      → (s : SessionInfo) × ((get_session key now m).0 ≡ some s)
        × (s.session_id ≡ id)
        × (s.scope_name ≡ scope)
        × (s.worker_endpoint ≡ endpoint)
  unfolding get_session get_found
  get_session-IsKept now m (s, k) =
      (touch now s, rw k.held refl, k.of_id, k.of_scope, k.of_endpoint)
