-- ===== src/Coordinator/Route/Served.antt =====
-- The routing of a new request and of a session (crates/coordinator/src/service.rs).
use browser_hive_rs.Base.{
  ℕ, ◌≤◌, ◌<◌, ◌≡◌, refl, subst, inl, inr, Bool, true, false, List, [], ◌∷◌, Option, none, some,
  arith, ◌==◌, any, filter, All, All-Mem, filter-All, Mem-filter, Mem_of_filter, Bool-cases,
  Option-cases,
}
use mathlib.Core.List.{Memᴰ}
use browser_hive_rs.Base.Text.{Text}
use browser_hive_rs.Base.Map.{lookup, lookup-remove_self}
use browser_hive_rs.Base.Result.{ok, err}
use browser_hive_rs.Common.Endpoint.{WorkerEndpoint}
use browser_hive_rs.Coordinator.InFlight.{free_slots}
use browser_hive_rs.Coordinator.Routing.{SelectedWorker, is_healthy}
use browser_hive_rs.Coordinator.Routing.MostFree.{IsBest, eligible, select_best_worker-IsBest}
use browser_hive_rs.Coordinator.Session.{
  SessionInfo, SessionManager, get_session, get_found, remove_session,
}
use browser_hive_rs.Coordinator.Route.{
  RejectReason, Coordinator, Routed, code_session_not_found, route_selected, route_scope,
  route_session, worker_exists, endpoint, route,
}

any-Mem :
    (p : WorkerEndpoint → Bool) (ws : List WorkerEndpoint) {w : WorkerEndpoint}
    → Memᴰ w ws
    → p w ≡ true
    → any p ws ≡ true
any-Mem p [] m h = elim m [ ]
any-Mem p (x ∷ xs) (Memᴰ.head e) h = rw (← e, h) refl
any-Mem p (x ∷ xs) (Memᴰ.tail m) h = ground (arith, any-Mem p xs m h)

absent :
    (id : Text) (now : ℕ) (m : SessionManager)
    → (get_session id now m).0 ≡ none
    → lookup id (get_session id now m).1.sessions ≡ none
unfolding get_session get_found
absent id now m e = elim (Option-cases (lookup id m.sessions)) [
  | inl n ↦ rw (n, get_found) n
  | inr (s, k) ↦ cc (rw (k, get_found) at e)
]

module _ (print : ℕ → Text) (fresh : Text → Option ℕ) where
  -- The request goes to a healthy worker of the scope with at least as many free slots.
  abbrev pub GoesTo : List WorkerEndpoint → WorkerEndpoint → Coordinator → Routed → Type 0
  GoesTo ws w c r =
      (v : WorkerEndpoint) × Memᴰ v ws
      × (is_healthy c.healthy_workers v ≡ true)
      × (free_slots c.in_flight w ≤ free_slots c.in_flight v)
      × (r.0 ≡ ok (endpoint print fresh v, v.pod_name))

  module _ (c : Coordinator) (ws : List WorkerEndpoint) (w : WorkerEndpoint) (member : Memᴰ w ws)
      (healthy : is_healthy c.healthy_workers w ≡ true) (free : 0 < free_slots c.in_flight w) where
    eligible_healthy : eligible c.healthy_workers ws ≡ filter (is_healthy c.healthy_workers) ws
    eligible_healthy = rw (any-Mem (is_healthy c.healthy_workers) ws member healthy) refl

    selected-GoesTo :
        (r : Option SelectedWorker) (d : Coordinator)
        → IsBest ws c.healthy_workers (free_slots c.in_flight) r
        → GoesTo ws w c (route_selected print fresh r d)
    unfolding route_selected
    selected-GoesTo none d h = elim (subst (Memᴰ w) h member) [ ]
    selected-GoesTo (some s) d h =
        let (m, n, a, f) = h in
        let m' = subst (Memᴰ s.worker) eligible_healthy m in
        let a' = subst (All (λ v. free_slots c.in_flight v ≤ s.free_slots)) eligible_healthy a in
        let l =
          All-Mem (λ v. free_slots c.in_flight v ≤ s.free_slots) _ a'
            (Mem-filter (is_healthy c.healthy_workers) ws member healthy) in
        let z : (s.free_slots == 0) ≡ false = ground arith in
        (
          s.worker,
          Mem_of_filter (is_healthy c.healthy_workers) ws m',
          All-Mem (λ v. is_healthy c.healthy_workers v ≡ true) _
              (filter-All (is_healthy c.healthy_workers) ws) m',
          omega arith,
          rw z refl,
        )

  -- While the coordinator runs, a new request whose scope has a healthy worker with a free slot is
  -- not rejected but goes to a healthy worker of the scope with at least as many free slots.
  pub free_worker_is_routed :
      (now : ℕ) (scope : Text) (c : Coordinator) (ws : List WorkerEndpoint) (w : WorkerEndpoint)
      → c.is_cancelled ≡ false
      → lookup scope c.workers ≡ some ws
      → Memᴰ w ws
      → is_healthy c.healthy_workers w ≡ true
      → 0 < free_slots c.in_flight w
      → GoesTo ws w c (route print fresh now [] scope c)
  unfolding route route_scope
  free_worker_is_routed now scope c [] w r e m h f = elim m [ ]
  free_worker_is_routed now scope c (x ∷ xs) w r e m h f =
      rw (r, e)
        (selected-GoesTo c (x ∷ xs) w m h f _ _ (
          select_best_worker-IsBest (x ∷ xs) c.healthy_workers (free_slots c.in_flight)
            c.routing_rotation))

  -- No session was found, or its worker is not in its scope any more.
  abbrev pub IsLost : Coordinator → Option SessionInfo → Type 0
  IsLost d none = Unit {0}
  IsLost d (some s) = worker_exists s.session_id.worker_id (lookup s.scope_name d.workers) ≡ false

  -- What a request with a session may get: its own worker, or, where that is lost, the one
  -- rejection and the end of the session.
  abbrev pub SessionRouted : Text → Option SessionInfo → Routed → Type 0
  SessionRouted session_id found (ok target, d) =
      (s : SessionInfo) × (found ≡ some s)
      × (target ≡ (s.worker_endpoint, s.session_id.worker_id))
      × (worker_exists s.session_id.worker_id (lookup s.scope_name d.workers) ≡ true)
  SessionRouted session_id found (err r, d) =
      IsLost d found
      × (r.reason ≡ RejectReason.session_not_found)
      × (r.error_code ≡ code_session_not_found)
      × (lookup session_id d.session_manager.sessions ≡ none)

  route_session-SessionRouted :
      (session_id : Text) (found : Option SessionInfo) (c : Coordinator)
      → (found ≡ none → lookup session_id c.session_manager.sessions ≡ none)
      → SessionRouted session_id found (route_session session_id found c)
  unfolding route_session remove_session
  route_session-SessionRouted session_id none c h = (tt, refl, refl, h refl)
  route_session-SessionRouted session_id (some s) c h =
      elim (Bool-cases (worker_exists s.session_id.worker_id (lookup s.scope_name c.workers))) [
        | inl e ↦ rw e (s, refl, refl, e)
        | inr e ↦ rw e (e, refl, refl, lookup-remove_self session_id c.session_manager.sessions)
      ]

  -- While the coordinator runs, a request with a session goes to the worker that the session names,
  -- which the scope of the session still has, or is rejected as SESSION_NOT_FOUND, which happens
  -- only where no session was found or its worker is not in its scope any more, and then the
  -- session is not in the map any more.
  pub session_is_routed :
      (now : ℕ) (k : ℕ) (ks scope : Text) (c : Coordinator)
      → c.is_cancelled ≡ false
      → SessionRouted
          (k ∷ ks)
          (get_session (k ∷ ks) now c.session_manager).0
          (route print fresh now (k ∷ ks) scope c)
  unfolding route
  session_is_routed now k ks scope c r =
      rw r (route_session-SessionRouted (k ∷ ks) _ _ (absent (k ∷ ks) now c.session_manager))
