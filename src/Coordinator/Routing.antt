-- ===== src/Coordinator/Routing.antt =====
-- The choice of a worker (crates/coordinator/src/service.rs).
pub mod MostFree
pub mod Rotation
use browser_hive_rs.Base.{
  ℕ, ◌+◌, ◌%◌, ◌≡◌, Bool, true, false, List, [], ◌∷◌, map, Option, none, some, max, ◌==◌,
  if◌then◌else◌, filter, length, get_elem?, is_empty, any,
}
use browser_hive_rs.Base.Text.{Text, text_eq, text_le}
use browser_hive_rs.Base.Sort.{sort_by}
use browser_hive_rs.Common.Endpoint.{WorkerEndpoint}

-- A worker with the free slots that it is ranked by.
abbrev pub Ranked : Type 0
Ranked = WorkerEndpoint × ℕ

-- `Iterator::max`.
abbrev larger : ℕ → Option ℕ → ℕ
larger n none = n
larger n (some m) = max n m

unfoldable pub max_slots : List Ranked → Option ℕ
max_slots [] = none
max_slots ((w, n) ∷ ranked) = some (larger n (max_slots ranked))

abbrev pub by_pod_name : Ranked → Ranked → Bool
by_pod_name a b = text_le (a.0.pod_name) (b.0.pod_name)

abbrev pub tied_at : ℕ → List Ranked → List Ranked
tied_at best_slots ranked = sort_by by_pod_name (filter (λ r. r.1 == best_slots) ranked)

unfoldable pub pick_tied : ℕ → List Ranked → Option ℕ → Option Ranked
pick_tied rotation ranked none = none
pick_tied rotation ranked (some best_slots) =
    let tied = tied_at best_slots ranked in get_elem? tied (rotation % length tied)

unfoldable pub rank : (WorkerEndpoint → ℕ) → List WorkerEndpoint → List Ranked
rank free_slots candidates = map (λ w. (w, free_slots w)) candidates

unfoldable pub pick_most_free : List WorkerEndpoint → (WorkerEndpoint → ℕ) → ℕ → Option Ranked
pick_most_free candidates free_slots rotation =
    let ranked = rank free_slots candidates in pick_tied rotation ranked (max_slots ranked)

pub record SelectedWorker : Type 0 where
  pub worker : WorkerEndpoint
  pub free_slots : ℕ
  pub used_fallback : Bool

abbrev pub is_healthy : List Text → WorkerEndpoint → Bool
is_healthy healthy_workers w = any (text_eq w.pod_name) healthy_workers

abbrev pub selected : Bool → Option Ranked → Option SelectedWorker
selected used_fallback none = none
selected used_fallback (some (w, n)) =
    some (record { worker = w; free_slots = n; used_fallback = used_fallback })

unfoldable pub select_best_worker :
    List WorkerEndpoint → List Text → (WorkerEndpoint → ℕ) → ℕ → Option SelectedWorker
select_best_worker scope_workers healthy_workers free_slots rotation =
    let healthy = filter (is_healthy healthy_workers) scope_workers in
    if is_empty healthy
    then selected true (pick_most_free scope_workers free_slots rotation)
    else selected false (pick_most_free healthy free_slots rotation)
