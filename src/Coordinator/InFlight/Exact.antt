-- ===== src/Coordinator/InFlight/Exact.antt =====
-- The tracker over starts and drops of guards (crates/coordinator/src/in_flight.rs).
use browser_hive_rs.Base.{
  ℕ, zero, suc, ◌+◌, ◌-◌, ◌%◌, ◌≤◌, ◌<◌, ◌≡◌, refl, ap, List, [], ◌∷◌, Option, none, some, arith,
  ◌==◌, if◌then◌else◌, u64_mod, count_if, length, count_if-le-length,
}
use browser_hive_rs.Base.Text.{Text, text_eq, text_eq_iff, text_eq_refl, text_eq_comm}
use browser_hive_rs.Base.Map.{lookup, lookup-insert, lookup-remove}
use browser_hive_rs.Common.Endpoint.{WorkerEndpoint}
use browser_hive_rs.Coordinator.InFlight.{
  InFlightTracker, no_requests, current, start, finish, finish_entry, effective_free_slots,
  free_slots,
}

abbrev pub open_to : Text → List Text → ℕ
open_to pod guards = count_if (text_eq pod) guards

-- The map holds the number of live guards of each pod that has one, and no other pod.
abbrev pub IsExact : InFlightTracker → List Text → Type 0
IsExact t guards =
    (pod : Text)
    → lookup pod t.by_pod ≡ (if open_to pod guards == 0 then none else some (open_to pod guards))

abbrev pub remove_at : ℕ → List Text → List Text
remove_at i [] = []
remove_at zero (g ∷ gs) = gs
remove_at (suc i) (g ∷ gs) = g ∷ remove_at i gs

-- A request starts, or the guard at a place of the list is dropped, in any order.
pub data Event : Type 0 where
  starts : Text → Event
  ends : ℕ → Event

abbrev pub guard_at : ℕ → List Text → Option Text
guard_at i [] = none
guard_at zero (g ∷ gs) = some g
guard_at (suc i) (g ∷ gs) = guard_at i gs

abbrev pub drop_guard : Option Text → InFlightTracker → InFlightTracker
drop_guard none t = t
drop_guard (some pod) t = finish pod t

pub record Flights : Type 0 where
  pub tracker : InFlightTracker
  pub guards : List Text

unfoldable pub step : Flights → Event → Flights
step f (starts pod) = record { tracker = start pod f.tracker; guards = pod ∷ f.guards }
step f (ends i) = record {
  tracker = drop_guard (guard_at i f.guards) f.tracker;
  guards = remove_at i f.guards;
}

unfoldable pub run : Flights → List Event → Flights
run f [] = f
run f (e ∷ es) = run (step f e) es

current_exact :
    (t : InFlightTracker) (guards : List Text) (pod : Text)
    → IsExact t guards
    → current pod t ≡ open_to pod guards
unfolding current
current_exact t guards pod h = ground (arith, h pod)

start-IsExact :
    (pod : Text) (t : InFlightTracker) (guards : List Text)
    → suc (length guards) < u64_mod
    → IsExact t guards
    → IsExact (start pod t) (pod ∷ guards)
unfolding start
start-IsExact pod t guards b h j = ground (
  arith,
  h j,
  current_exact t guards pod h,
  text_eq_iff pod j,
  text_eq_comm pod j,
  lookup-insert pod j ((current pod t + 1) % u64_mod) t.by_pod,
  count_if-le-length (text_eq pod) guards,
)

open_to-remove_at :
    (i : ℕ) (guards : List Text) (pod j : Text)
    → guard_at i guards ≡ some pod
    → open_to j guards ≡ (
        if text_eq j pod
        then suc (open_to j (remove_at i guards))
        else open_to j (remove_at i guards))
open_to-remove_at i [] pod j e = cc
open_to-remove_at zero (g ∷ gs) pod j e = ground (arith, e)
open_to-remove_at (suc i) (g ∷ gs) pod j e = ground (arith, open_to-remove_at i gs pod j e)

finish-IsExact :
    (i : ℕ) (pod : Text) (t : InFlightTracker) (guards : List Text)
    → guard_at i guards ≡ some pod
    → IsExact t guards
    → IsExact (finish pod t) (remove_at i guards)
unfolding finish finish_entry
finish-IsExact i pod t guards e h j = ground (
  arith,
  h j,
  h pod,
  open_to-remove_at i guards pod j e,
  open_to-remove_at i guards pod pod e,
  text_eq_refl pod,
  text_eq_iff pod j,
  text_eq_comm pod j,
  lookup-remove pod j t.by_pod,
  lookup-insert pod j (open_to pod guards - 1) t.by_pod,
)

remove_at-none :
    (i : ℕ) (guards : List Text) → guard_at i guards ≡ none → remove_at i guards ≡ guards
remove_at-none i [] e = refl
remove_at-none zero (g ∷ gs) e = cc
remove_at-none (suc i) (g ∷ gs) e = ap (λ xs. g ∷ xs) (remove_at-none i gs e)

drop_guard-IsExact :
    (i : ℕ) (o : Option Text) (t : InFlightTracker) (guards : List Text)
    → guard_at i guards ≡ o
    → IsExact t guards
    → IsExact (drop_guard o t) (remove_at i guards)
drop_guard-IsExact i none t guards e h = rw (remove_at-none i guards e) h
drop_guard-IsExact i (some pod) t guards e h = finish-IsExact i pod t guards e h

step-IsExact :
    (f : Flights) (e : Event)
    → suc (length f.guards) < u64_mod
    → IsExact f.tracker f.guards
    → IsExact (step f e).tracker (step f e).guards
unfolding step
step-IsExact f (starts pod) b h = start-IsExact pod f.tracker f.guards b h
step-IsExact f (ends i) b h = drop_guard-IsExact i (guard_at i f.guards) f.tracker f.guards refl h

length-remove_at : (i : ℕ) (guards : List Text) → length (remove_at i guards) ≤ length guards
length-remove_at i [] = omega arith
length-remove_at zero (g ∷ gs) = omega arith
length-remove_at (suc i) (g ∷ gs) = omega (arith, length-remove_at i gs)

length-step : (f : Flights) (e : Event) → length (step f e).guards ≤ suc (length f.guards)
unfolding step
length-step f (starts pod) = omega arith
length-step f (ends i) = omega (arith, length-remove_at i f.guards)

run_from :
    (f : Flights) (events : List Event)
    → length f.guards + length events < u64_mod
    → IsExact f.tracker f.guards
    → IsExact (run f events).tracker (run f events).guards
      × (length (run f events).guards ≤ length f.guards + length events)
unfolding run
run_from f [] b h = (h, omega arith)
run_from f (e ∷ es) b h =
    let l = length-step f e in
    let (k, m) = run_from (step f e) es (omega arith) (step-IsExact f e (omega arith) h) in
    (k, omega arith)

abbrev pub nothing_in_flight : Flights
nothing_in_flight = record { tracker = no_requests; guards = [] }

-- After any sequence of fewer than 2^64 starts and drops of guards from an empty tracker, its map
-- holds for each pod the number of its live guards and no entry for a pod without one.
pub run-IsExact :
    (events : List Event)
    → length events < u64_mod
    → IsExact (run nothing_in_flight events).tracker (run nothing_in_flight events).guards
unfolding lookup
run-IsExact events b = (run_from nothing_in_flight events (omega arith) (λ pod. refl)).0

-- With the baseline taken from the tracker at the snapshot, and as long as no count passes 2^64,
-- the free slots after any later starts and drops are the slots of the snapshot plus the requests
-- then in flight minus those in flight now, or 0.
pub free_slots_since :
    (before after : List Event) (w : WorkerEndpoint)
    → w.in_flight_at_snapshot ≡ current w.pod_name (run nothing_in_flight before).tracker
    → length before + length after < u64_mod
    → w.stats.available_slots + length before < u64_mod
    → free_slots (run (run nothing_in_flight before) after).tracker w
      ≡ (w.stats.available_slots + open_to w.pod_name (run nothing_in_flight before).guards)
        - open_to w.pod_name (run (run nothing_in_flight before) after).guards
unfolding lookup free_slots effective_free_slots
free_slots_since before after w s b c =
    let (h, l) = run_from nothing_in_flight before (omega arith) (λ pod. refl) in
    let (k, m) = run_from (run nothing_in_flight before) after (omega arith) h in
    ground (
      arith,
      current_exact _ _ w.pod_name h,
      current_exact _ _ w.pod_name k,
      count_if-le-length (text_eq w.pod_name) (run nothing_in_flight before).guards,
    )
