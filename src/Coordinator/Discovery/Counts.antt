-- ===== src/Coordinator/Discovery/Counts.antt =====
-- What a round of crates/coordinator/src/worker_discovery.rs says of a scope.
use browser_hive_rs.Base.{
  ℕ, suc, ◌+◌, ◌<◌, ◌≤◌, ◌≡◌, refl, ◌∙◌, ap, inl, inr, Bool, true, not, ◌&&◌, List, [], ◌∷◌, Option,
  none, some, is_some, if◌then◌else◌, unwrap_or, fetch_add, u64_mod, arith, length, count_if, any,
  Bool-cases, Option-cases,
}
use browser_hive_rs.Base.Text.{Text, codes, text_eq}
use browser_hive_rs.Base.Map.{lookup, lookup-insert, if-text_eq}
use browser_hive_rs.Common.Challenge.{on_some}
use browser_hive_rs.Common.Endpoint.{WorkerStats, WorkerEndpoint}
use browser_hive_rs.Coordinator.InFlight.{InFlightTracker}
use browser_hive_rs.Coordinator.Route.{ScopePresence}
use browser_hive_rs.Coordinator.Discovery.{
  no_pods, Pod, Maps, is_pod_running, pod_ip_of, endpoint, visit, empty_maps, discover_pod,
  discover_all, discover_workers,
}

abbrev pub is_of : Text → Pod → Bool
is_of scope pod = on_some (λ s. text_eq s scope) pod.scope

-- The four states of a pod, told apart by what the pod has.
abbrev pub runs : Pod → Bool
runs pod = on_some (λ s. on_some (λ p. text_eq p (codes "Running")) s.phase) pod.status

abbrev pub is_ready : Pod → Bool
is_ready pod = runs pod && (is_some pod.name && is_some (pod_ip_of pod.status))

abbrev pub is_reachable : Pod → Bool
is_reachable pod = is_ready pod && is_some pod.fetched

abbrev pub is_leaving : Pod → Bool
is_leaving pod = is_ready pod && (not (is_some pod.fetched) && pod.has_deletion_timestamp)

abbrev pub is_booting : Pod → Bool
is_booting pod = is_ready pod && (not (is_some pod.fetched) && not pod.has_deletion_timestamp)

-- The numbers of the pods of a scope in these states.
abbrev pub presence_of : Text → List Pod → ScopePresence
presence_of scope pods = record {
  pods_total = count_if (is_of scope) pods;
  pods_reachable = count_if (λ p. is_of scope p && is_reachable p) pods;
  pods_not_running = count_if (λ p. is_of scope p && not (is_ready p)) pods;
  pods_terminating = count_if (λ p. is_of scope p && is_leaving p) pods;
  pods_unreachable = count_if (λ p. is_of scope p && is_booting p) pods;
}

-- The endpoints of the reachable ones, in the order of the list.
abbrev served_at :
    Text
    → Pod
    → Option Text
    → Option Text
    → Option (WorkerStats × InFlightTracker)
    → Option WorkerEndpoint
served_at scope pod (some name) (some ip) (some (stats, t)) =
    some (endpoint scope pod name ip stats t)
served_at scope pod name ip fetched = none

abbrev pub worker_of : Text → Pod → Option WorkerEndpoint
worker_of scope p =
    if is_pod_running p.status
    then served_at scope p p.name (pod_ip_of p.status) p.fetched
    else none

abbrev pub put_first : Option WorkerEndpoint → List WorkerEndpoint → List WorkerEndpoint
put_first none ws = ws
put_first (some w) ws = w ∷ ws

abbrev pub workers_of : Text → List Pod → List WorkerEndpoint
workers_of scope [] = []
workers_of scope (p ∷ pods) =
    if is_of scope p
    then put_first (worker_of scope p) (workers_of scope pods)
    else workers_of scope pods

-- Another pod of a scope, as the code counts it and as the numbers above do.
abbrev plus : Bool → ℕ → ℕ
plus b n = if b then fetch_add n 1 else n

abbrev counted : Pod → ScopePresence → ScopePresence
counted pod p = record {
  pods_total = fetch_add p.pods_total 1;
  pods_reachable = plus (is_reachable pod) p.pods_reachable;
  pods_not_running = plus (not (is_ready pod)) p.pods_not_running;
  pods_terminating = plus (is_leaving pod) p.pods_terminating;
  pods_unreachable = plus (is_booting pod) p.pods_unreachable;
}

visit-counted :
    (scope : Text) (pod : Pod) (p : ScopePresence) → (visit scope pod p).0 ≡ counted pod p
unfolding visit is_pod_running
visit-counted scope pod p = ground arith

lookup-discover_pod :
    (scope : Text) (pod : Pod) (m : Maps)
    → lookup scope (discover_pod pod m).known_scopes ≡ (
        if is_of scope pod
        then some (counted pod (unwrap_or (lookup scope m.known_scopes) no_pods))
        else lookup scope m.known_scopes)
unfolding discover_pod
lookup-discover_pod scope pod m = elim (Option-cases pod.scope) [
  | inl e ↦ rw (discover_pod, e) refl
  | inr (s, e) ↦
      let seen = unwrap_or (lookup s m.known_scopes) no_pods in
      rw
        (
          discover_pod,
          e,
          lookup-insert s scope (visit s pod seen).0 m.known_scopes,
          visit-counted s pod seen,
        )
        (if-text_eq (λ t. some (counted pod (unwrap_or (lookup t m.known_scopes) no_pods))) s scope
          (lookup scope m.known_scopes))
]

module _ (scope : Text) where
  -- The entry of the scope along a list of pods.
  abbrev follow : List Pod → Option ScopePresence → Option ScopePresence
  follow [] entry = entry
  follow (pod ∷ pods) entry =
      follow pods (if is_of scope pod then some (counted pod (unwrap_or entry no_pods)) else entry)

  lookup-discover_all :
      (pods : List Pod) (m : Maps)
      → lookup scope (discover_all pods m).known_scopes ≡ follow pods (lookup scope m.known_scopes)
  lookup-discover_all [] m = refl
  lookup-discover_all (pod ∷ pods) m =
      lookup-discover_all pods (discover_pod pod m)
      ∙ ap (follow pods) (lookup-discover_pod scope pod m)

  abbrev add : ScopePresence → ScopePresence → ScopePresence
  add p q = record {
    pods_total = p.pods_total + q.pods_total;
    pods_reachable = p.pods_reachable + q.pods_reachable;
    pods_not_running = p.pods_not_running + q.pods_not_running;
    pods_terminating = p.pods_terminating + q.pods_terminating;
    pods_unreachable = p.pods_unreachable + q.pods_unreachable;
  }

  abbrev IsWithin : ℕ → ScopePresence → Type 0
  IsWithin n p =
      (p.pods_total ≤ n)
      × (p.pods_reachable ≤ n)
      × (p.pods_not_running ≤ n)
      × (p.pods_terminating ≤ n)
      × (p.pods_unreachable ≤ n)

  counted-IsWithin :
      (n : ℕ) (p : ScopePresence) (pod : Pod)
      → IsWithin n p
      → suc n < u64_mod
      → IsWithin (suc n) (counted pod p)
  counted-IsWithin n p pod within few = ground arith

  plus_more :
      (b : Bool) (x c n : ℕ) → x ≤ n → suc n < u64_mod → plus b x + c ≡ x + (if b then suc c else c)
  plus_more b x c n le few = ground arith

  add-counted :
      (n : ℕ) (p q : ScopePresence) (pod : Pod)
      → IsWithin n p
      → suc n < u64_mod
      → add (counted pod p) q
        ≡ add p (record {
          pods_total = suc q.pods_total;
          pods_reachable = if is_reachable pod then suc q.pods_reachable else q.pods_reachable;
          pods_not_running =
              if not (is_ready pod) then suc q.pods_not_running else q.pods_not_running;
          pods_terminating = if is_leaving pod then suc q.pods_terminating else q.pods_terminating;
          pods_unreachable = if is_booting pod then suc q.pods_unreachable else q.pods_unreachable;
        })
  add-counted n p q pod within few =
      rw
        (
          plus_more true p.pods_total q.pods_total n (ground arith) few,
          plus_more (is_reachable pod) p.pods_reachable q.pods_reachable n (ground arith) few,
          plus_more (not (is_ready pod)) p.pods_not_running q.pods_not_running n (ground arith) few,
          plus_more (is_leaving pod) p.pods_terminating q.pods_terminating n (ground arith) few,
          plus_more (is_booting pod) p.pods_unreachable q.pods_unreachable n (ground arith) few,
        )
        refl

  follow-some :
      (pods : List Pod) (n : ℕ) (p : ScopePresence)
      → IsWithin n p
      → n + length pods < u64_mod
      → follow pods (some p) ≡ some (add p (presence_of scope pods))
  follow-some [] n p within few = ground arith
  follow-some (pod ∷ pods) n p within few = elim (Bool-cases (is_of scope pod)) [
    | inl k ↦ rw k (
        follow-some pods (suc n) (counted pod p) (counted-IsWithin n p pod within (ground arith))
          (ground arith)
        ∙ ap some (add-counted n p (presence_of scope pods) pod within (ground arith)))
    | inr k ↦ rw k (follow-some pods n p within (ground arith))
  ]

  add-no_pods : (p : ScopePresence) → add no_pods p ≡ p
  add-no_pods p = ground arith

  follow-none :
      (pods : List Pod)
      → length pods < u64_mod
      → follow pods none ≡ (if any (is_of scope) pods then some (presence_of scope pods) else none)
  follow-none [] few = refl
  follow-none (pod ∷ pods) few = elim (Bool-cases (is_of scope pod)) [
    | inl k ↦ rw k (
        follow-some pods 1 (counted pod no_pods)
          (counted-IsWithin 0 no_pods pod (ground arith) (ground arith)) (ground arith)
        ∙ ap some (
            add-counted 0 no_pods (presence_of scope pods) pod (ground arith) (ground arith)
            ∙ add-no_pods _))
    | inr k ↦ rw k (follow-none pods (ground arith))
  ]

-- After a round over fewer than 2^64 pods a scope is known exactly where some pod carries its
-- label, with the numbers of its pods that are ready and answer, that are not ready, and that are
-- ready, do not answer and are or are not being deleted.
pub discover_workers-counts :
    (scope : Text) (pods : List Pod)
    → length pods < u64_mod
    → lookup scope (discover_workers pods).known_scopes
      ≡ (if any (is_of scope) pods then some (presence_of scope pods) else none)
unfolding discover_workers
discover_workers-counts scope pods few =
    lookup-discover_all scope pods empty_maps ∙ follow-none scope pods few
