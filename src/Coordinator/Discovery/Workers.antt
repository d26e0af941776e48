-- ===== src/Coordinator/Discovery/Workers.antt =====
-- The workers of a scope after a round of crates/coordinator/src/worker_discovery.rs, and the sums
-- of its counts.
use browser_hive_rs.Base.{
  ◌+◌, ◌<◌, ◌≡◌, ◌∙◌, suc, sym, refl, ap, inl, inr, List, [], ◌∷◌, ◌++◌, Option, none, some,
  is_some, if◌then◌else◌, unwrap_or, u64_mod, arith, length, any, Bool-cases, Option-cases,
  List-cases,
}
use mathlib.Core.List.{append-nil, append_assoc}
use browser_hive_rs.Base.Text.{Text, text_eq}
use browser_hive_rs.Base.Map.{Map, lookup, lookup-insert, if-text_eq}
use browser_hive_rs.Common.Endpoint.{WorkerEndpoint}
use browser_hive_rs.Coordinator.Route.{ScopePresence}
use browser_hive_rs.Coordinator.Discovery.{
  Pod, Maps, visit, is_pod_running, push_worker, empty_maps, discover_pod, discover_all,
  discover_workers, no_pods,
}
use browser_hive_rs.Coordinator.Discovery.Counts.{
  is_of, is_reachable, presence_of, workers_of, worker_of, put_first, discover_workers-counts,
}

visit-worker :
    (scope : Text) (pod : Pod) (p : ScopePresence) → (visit scope pod p).1 ≡ worker_of scope pod
unfolding visit is_pod_running
visit-worker scope pod p = ground arith

-- The workers of a scope with one more.
abbrev with_worker :
    Option WorkerEndpoint → Option (List WorkerEndpoint) → Option (List WorkerEndpoint)
with_worker none found = found
with_worker (some w) found = some (unwrap_or found [] ++ (w ∷ []))

lookup-push_worker :
    (s scope : Text) (w : Option WorkerEndpoint) (m : Map (List WorkerEndpoint))
    → lookup scope (push_worker s w m)
      ≡ (if text_eq s scope then with_worker w (lookup scope m) else lookup scope m)
lookup-push_worker s scope none m = ground arith
lookup-push_worker s scope (some w) m =
    lookup-insert s scope (unwrap_or (lookup s m) [] ++ (w ∷ [])) m
    ∙ if-text_eq (λ t. some (unwrap_or (lookup t m) [] ++ (w ∷ []))) s scope (lookup scope m)

lookup-discover_pod :
    (scope : Text) (pod : Pod) (m : Maps)
    → lookup scope (discover_pod pod m).workers ≡ (
        if is_of scope pod
        then with_worker (worker_of scope pod) (lookup scope m.workers)
        else lookup scope m.workers)
unfolding discover_pod
lookup-discover_pod scope pod m = elim (Option-cases pod.scope) [
  | inl e ↦ rw (discover_pod, e) refl
  | inr (s, e) ↦
      let p = unwrap_or (lookup s m.known_scopes) no_pods in
      rw
        (
          discover_pod,
          e,
          lookup-push_worker s scope (visit s pod p).1 m.workers,
          visit-worker s pod p,
        )
        (if-text_eq (λ t. with_worker (worker_of t pod) (lookup scope m.workers)) s scope
          (lookup scope m.workers))
]

module _ (scope : Text) where
  abbrev follow : List Pod → Option (List WorkerEndpoint) → Option (List WorkerEndpoint)
  follow [] found = found
  follow (pod ∷ pods) found =
      follow pods (if is_of scope pod then with_worker (worker_of scope pod) found else found)

  lookup-discover_all :
      (pods : List Pod) (m : Maps)
      → lookup scope (discover_all pods m).workers ≡ follow pods (lookup scope m.workers)
  lookup-discover_all [] m = refl
  lookup-discover_all (pod ∷ pods) m =
      lookup-discover_all pods (discover_pod pod m)
      ∙ ap (follow pods) (lookup-discover_pod scope pod m)

  -- A scope without a reachable pod is not in the map.
  abbrev pub in_map : List WorkerEndpoint → Option (List WorkerEndpoint)
  in_map [] = none
  in_map (w ∷ ws) = some (w ∷ ws)

  follow-some :
      (pods : List Pod) (ws : List WorkerEndpoint)
      → follow pods (some ws) ≡ some (ws ++ workers_of scope pods)
  follow-some [] ws = ap some (sym (append-nil ws))
  follow-some (pod ∷ pods) ws = elim (Bool-cases (is_of scope pod)) [
    | inl k ↦ elim (Option-cases (worker_of scope pod)) [
      | inl e ↦ rw (k, e) (follow-some pods ws)
      | inr (w, e) ↦
          rw (k, e)
            (follow-some pods (ws ++ (w ∷ []))
              ∙ ap some (append_assoc ws (w ∷ []) (workers_of scope pods)))
    ]
    | inr k ↦ rw k (follow-some pods ws)
  ]

  follow-none : (pods : List Pod) → follow pods none ≡ in_map (workers_of scope pods)
  follow-none [] = refl
  follow-none (pod ∷ pods) = elim (Bool-cases (is_of scope pod)) [
    | inl k ↦ elim (Option-cases (worker_of scope pod)) [
      | inl e ↦ rw (k, e) (follow-none pods)
      | inr (w, e) ↦ rw (k, e) (follow-some pods (w ∷ []))
    ]
    | inr k ↦ rw k (follow-none pods)
  ]

  pub discover_workers-workers :
      (pods : List Pod)
      → lookup scope (discover_workers pods).workers ≡ in_map (workers_of scope pods)
  unfolding discover_workers
  discover_workers-workers pods = lookup-discover_all pods empty_maps ∙ follow-none pods

  unwrap_or-in_map :
      (pods : List Pod) → unwrap_or (in_map (workers_of scope pods)) [] ≡ workers_of scope pods
  unwrap_or-in_map pods = elim (List-cases (workers_of scope pods)) [
    | inl e ↦ rw e refl
    | inr (w, ws, e) ↦ rw e refl
  ]

  is_some-worker_of : (pod : Pod) → is_some (worker_of scope pod) ≡ is_reachable pod
  unfolding is_pod_running
  is_some-worker_of pod = ground arith

  length-put_first :
      (w : Option WorkerEndpoint) (ws : List WorkerEndpoint)
      → length (put_first w ws) ≡ (if is_some w then suc (length ws) else length ws)
  length-put_first none ws = refl
  length-put_first (some w) ws = refl

  length-workers_of :
      (pods : List Pod) → length (workers_of scope pods) ≡ (presence_of scope pods).pods_reachable
  length-workers_of [] = refl
  length-workers_of (pod ∷ pods) = ground (
    arith,
    is_some-worker_of pod,
    length-put_first (worker_of scope pod) (workers_of scope pods),
    length-workers_of pods,
  )

  presence_of-total :
      (pods : List Pod)
      → let p = presence_of scope pods in
        p.pods_total
        ≡ p.pods_reachable + p.pods_not_running + p.pods_terminating + p.pods_unreachable
  presence_of-total [] = refl
  presence_of-total (pod ∷ pods) = ground (arith, presence_of-total pods)

known_entry :
    (scope : Text) (pods : List Pod) (p : ScopePresence)
    → length pods < u64_mod
    → lookup scope (discover_workers pods).known_scopes ≡ some p
    → p ≡ presence_of scope pods
known_entry scope pods p few e = elim (Bool-cases (any (is_of scope) pods)) [
  | inl k ↦ let s = rw k at (discover_workers-counts scope pods few) in cc
  | inr k ↦ let s = rw k at (discover_workers-counts scope pods few) in cc
]

-- The four counts of a scope add up to its total, and as many workers are routable as are counted.
pub presence-IsTotal :
    (scope : Text) (pods : List Pod) (p : ScopePresence)
    → length pods < u64_mod
    → lookup scope (discover_workers pods).known_scopes ≡ some p
    → (p.pods_total
        ≡ p.pods_reachable + p.pods_not_running + p.pods_terminating + p.pods_unreachable)
      × (length (unwrap_or (lookup scope (discover_workers pods).workers) []) ≡ p.pods_reachable)
presence-IsTotal scope pods p few e =
    rw
      (
        known_entry scope pods p few e,
        discover_workers-workers scope pods,
        unwrap_or-in_map scope pods,
      )
      (presence_of-total scope pods, length-workers_of scope pods)
