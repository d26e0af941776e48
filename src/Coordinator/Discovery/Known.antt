-- ===== src/Coordinator/Discovery/Known.antt =====
-- What a request to the coordinator (crates/coordinator/src/service.rs) is told of a scope that a
-- round of crates/coordinator/src/worker_discovery.rs has looked at.
use browser_hive_rs.Base.{
  ℕ, ◌<◌, ◌≡◌, ◌∙◌, sym, refl, ap, inl, inr, Bool, true, false, not, List, [], ◌∷◌, Option, none,
  some, is_empty, u64_mod, arith, length, any, Bool-cases, List-cases,
}
use browser_hive_rs.Base.Text.{Text}
use browser_hive_rs.Base.Map.{lookup}
use browser_hive_rs.Base.Result.{Result, ok, err}
use browser_hive_rs.Common.Endpoint.{WorkerEndpoint}
use browser_hive_rs.Coordinator.Route.{
  Coordinator, Rejection, RejectReason, Target, Routed, route, route_scope, route_selected,
  classify_missing_scope,
}
use browser_hive_rs.Coordinator.Routing.{SelectedWorker}
use browser_hive_rs.Coordinator.Discovery.{Pod, discover_workers}
use browser_hive_rs.Coordinator.Discovery.Counts.{is_of, workers_of, discover_workers-counts}
use browser_hive_rs.Coordinator.Discovery.Workers.{discover_workers-workers}

-- Whether a request is told that its scope does not exist.
abbrev pub is_not_found : Result Rejection Target → Bool
is_not_found (ok t) = false
is_not_found (err r) = elim r.reason [ RejectReason.scope_not_found ↦ true | _ ↦ false ]

module _ (print : ℕ → Text) (fresh : Text → Option ℕ) where
  is_not_found-route_selected :
      (s : Option SelectedWorker) (c : Coordinator)
      → is_not_found (route_selected print fresh s c).0 ≡ false
  unfolding route_selected
  is_not_found-route_selected none c = refl
  is_not_found-route_selected (some s) c = ground arith

  is_not_found-route_scope :
      (scope : Text) (w : WorkerEndpoint) (ws : List WorkerEndpoint) (c : Coordinator)
      → is_not_found (route_scope print fresh scope (some (w ∷ ws)) c).0 ≡ false
  unfolding route_scope
  is_not_found-route_scope scope w ws c = is_not_found-route_selected _ _

  is_not_found-missing :
      (scope : Text) (pods : List Pod) (c : Coordinator)
      → length pods < u64_mod
      → c.known_scopes ≡ (discover_workers pods).known_scopes
      → is_not_found (route_scope print fresh scope none c).0 ≡ not (any (is_of scope) pods)
  unfolding route_scope classify_missing_scope
  is_not_found-missing scope pods c few known =
      rw (known, discover_workers-counts scope pods few)
        (elim (Bool-cases (any (is_of scope) pods)) [ inl k ↦ rw k refl | inr k ↦ rw k refl ])

any-workers_of :
    (scope : Text) (pods : List Pod)
    → is_empty (workers_of scope pods) ≡ false
    → any (is_of scope) pods ≡ true
any-workers_of scope [] e = cc
any-workers_of scope (pod ∷ pods) e = elim (Bool-cases (is_of scope pod)) [
  | inl k ↦ rw k refl
  | inr k ↦ rw k (any-workers_of scope pods (rw k at e))
]

route-open :
    (print : ℕ → Text) (fresh : Text → Option ℕ) (now : ℕ) (scope : Text) (c : Coordinator)
    → c.is_cancelled ≡ false
    → route print fresh now [] scope c ≡ route_scope print fresh scope (lookup scope c.workers) c
unfolding route
route-open print fresh now scope c going = simp going

-- While the coordinator runs on the maps of a discovery round over fewer than 2^64 pods, a request
-- without a session is told that its scope does not exist exactly where no pod of the round carries
-- the label of the scope.
pub missing_scope_iff :
    (print : ℕ → Text) (fresh : Text → Option ℕ) (now : ℕ) (scope : Text) (pods : List Pod)
    (c : Coordinator)
    → length pods < u64_mod
    → c.is_cancelled ≡ false
    → c.workers ≡ (discover_workers pods).workers
    → c.known_scopes ≡ (discover_workers pods).known_scopes
    → is_not_found (route print fresh now [] scope c).0 ≡ not (any (is_of scope) pods)
missing_scope_iff print fresh now scope pods c few going workers known =
    let found = ap (lookup scope) workers ∙ discover_workers-workers scope pods in
    ap (λ (r : Routed). is_not_found r.0) (route-open print fresh now scope c going)
    ∙ elim (List-cases (workers_of scope pods)) [
      | inl e ↦ rw (found, e) (is_not_found-missing print fresh scope pods c few known)
      | inr (w, ws, e) ↦
          rw (found, e)
            (is_not_found-route_scope print fresh scope w ws c
              ∙ ap not (sym (any-workers_of scope pods (rw e refl))))
    ]
