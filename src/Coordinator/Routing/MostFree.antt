-- ===== src/Coordinator/Routing/MostFree.antt =====
-- The ranking of `pick_most_free` (crates/coordinator/src/service.rs).
use browser_hive_rs.Base.{
  ℕ, zero, suc, ap, ◌∙◌, ◌%◌, ◌≤◌, ◌<◌, ◌≡◌, ◌≢◌, not, refl, inl, inr, Bool, true, false, List, [],
  ◌∷◌, Option, none, some, ◌==◌, ==_iff, arith, if◌then◌else◌, filter, length, get_elem?, is_empty,
  any, All, All-map, All-Mem, filter-All, filter_nil, Bool-cases, Option-cases, Mem_of_filter,
}
use mathlib.Core.List.{Memᴰ}
use native.Mathlib.Nat.{mod-lt}
use browser_hive_rs.Base.Text.{Text}
use browser_hive_rs.Base.Sort.{Mem_of_sort_by, sort_by_nil}
use browser_hive_rs.Common.Endpoint.{WorkerEndpoint}
use browser_hive_rs.Coordinator.Routing.{
  Ranked, max_slots, by_pod_name, tied_at, pick_tied, rank, pick_most_free, SelectedWorker,
  is_healthy, selected, select_best_worker,
}

get_elem?-lt {ℓ} :
    {A : Type ℓ} (xs : List A) (i : ℕ) → i < length xs → (a : A) × (get_elem? xs i ≡ some a)
get_elem?-lt [] i h = absurd (omega arith)
get_elem?-lt (x ∷ xs) zero h = (x, refl)
get_elem?-lt (x ∷ xs) (suc i) h = get_elem?-lt xs i (omega arith)

get_elem?-Mem {ℓ} : {A : Type ℓ} (xs : List A) (i : ℕ) (a : A) → get_elem? xs i ≡ some a → Memᴰ a xs
get_elem?-Mem [] i a e = absurd (cc e)
get_elem?-Mem (x ∷ xs) zero a e = Memᴰ.head (cc e)
get_elem?-Mem (x ∷ xs) (suc i) a e = Memᴰ.tail (get_elem?-Mem xs i a e)

pub max_slots-none : (ranked : List Ranked) → max_slots ranked ≡ none → ranked ≡ []
unfolding max_slots
max_slots-none [] e = refl
max_slots-none ((w, n) ∷ ranked) e = cc

-- The maximum bounds every rank.
pub max_slots-bounds :
    (ranked : List Ranked) (best : ℕ) → max_slots ranked ≡ some best → All (λ r. r.1 ≤ best) ranked
unfolding max_slots
max_slots-bounds [] best e = tt
max_slots-bounds ((w, n) ∷ ranked) best e = elim (Option-cases (max_slots ranked)) [
  | inl k ↦ (ground arith, rw (max_slots-none ranked k) tt)
  | inr (m, k) ↦
      (ground arith, All-map (λ r (h : r.1 ≤ m). ground arith) ranked (max_slots-bounds ranked m k))
]

-- Some worker has the maximum.
pub max_slots-attained :
    (ranked : List Ranked) (best : ℕ)
    → max_slots ranked ≡ some best
    → All (λ r. (r.1 == best) ≡ false) ranked
    → ⊥
unfolding max_slots
max_slots-attained [] best e h = cc
max_slots-attained ((w, n) ∷ ranked) best e h = elim (Option-cases (max_slots ranked)) [
  | inl k ↦ ground (arith, h.0)
  | inr (m, k) ↦ elim (Bool-cases (m == best)) [
    | inl i ↦ max_slots-attained ranked best (k ∙ ap some ((==_iff m best).0 i)) h.1
    | inr i ↦ ground (arith, h.0)
  ]
]

pub tied_nonempty :
    (ranked : List Ranked) (best : ℕ)
    → max_slots ranked ≡ some best
    → 0 < length (tied_at best ranked)
tied_nonempty ranked best e = nonempty (tied_at best ranked) refl
  where
    nonempty : (xs : List Ranked) → tied_at best ranked ≡ xs → 0 < length xs
    nonempty [] k = absurd (
        max_slots-attained ranked best e
          (filter_nil (λ r. r.1 == best) ranked (sort_by_nil by_pod_name _ k)))
    nonempty (x ∷ xs) k = omega arith

-- A worker of the candidates with its free slots, of which no candidate has more; or no candidate.
abbrev pub IsMostFree : (WorkerEndpoint → ℕ) → List WorkerEndpoint → Option Ranked → Type 0
IsMostFree free_slots candidates none = candidates ≡ []
IsMostFree free_slots candidates (some (w, n)) =
    Memᴰ w candidates × (n ≡ free_slots w) × All (λ c. free_slots c ≤ n) candidates

rank-Mem :
    (free_slots : WorkerEndpoint → ℕ) (cs : List WorkerEndpoint)
    → All (λ r. Memᴰ r.0 cs × (r.1 ≡ free_slots r.0)) (rank free_slots cs)
unfolding rank
rank-Mem free_slots [] = tt
rank-Mem free_slots (c ∷ cs) =
    ((Memᴰ.head refl, refl), All-map (λ r h. (Memᴰ.tail h.0, h.1)) _ (rank-Mem free_slots cs))

rank-bounds :
    (free_slots : WorkerEndpoint → ℕ) (cs : List WorkerEndpoint) (n : ℕ)
    → All (λ r. r.1 ≤ n) (rank free_slots cs)
    → All (λ c. free_slots c ≤ n) cs
unfolding rank
rank-bounds free_slots [] n h = tt
rank-bounds free_slots (c ∷ cs) n h = (h.0, rank-bounds free_slots cs n h.1)

rank_nil :
    (free_slots : WorkerEndpoint → ℕ) (cs : List WorkerEndpoint) → rank free_slots cs ≡ [] → cs ≡ []
unfolding rank
rank_nil free_slots [] e = refl
rank_nil free_slots (c ∷ cs) e = cc

module _ (free_slots : WorkerEndpoint → ℕ) (cs : List WorkerEndpoint) (rotation : ℕ) where
  picked-IsMostFree :
      (best : ℕ)
      → max_slots (rank free_slots cs) ≡ some best
      → (r : Ranked) → pick_tied rotation (rank free_slots cs) (some best) ≡ some r
      → IsMostFree free_slots cs (some r)
  unfolding pick_tied
  picked-IsMostFree best e (w, n) k =
      let tied = tied_at best (rank free_slots cs) in
      let m = get_elem?-Mem tied (rotation % length tied) (w, n) k in
      let among = Mem_of_sort_by by_pod_name (filter (λ r. r.1 == best) (rank free_slots cs)) m in
      let (i, j) = All-Mem _ _ (rank-Mem free_slots cs) (Mem_of_filter _ _ among) in
      let b = All-Mem _ _ (filter-All (λ r. r.1 == best) (rank free_slots cs)) among in
      (
        i,
        j,
        rank-bounds free_slots cs n
            (rw ((==_iff n best).0 b) (max_slots-bounds (rank free_slots cs) best e)),
      )

  picks :
      (best : ℕ)
      → max_slots (rank free_slots cs) ≡ some best
      → pick_tied rotation (rank free_slots cs) (some best) ≢ none
  unfolding pick_tied
  picks best e k =
      let tied = tied_at best (rank free_slots cs) in
      let (r, j) =
        get_elem?-lt tied (rotation % length tied) (mod-lt rotation (tied_nonempty _ best e)) in
      cc

  -- A candidate is always picked, if there is one, and no candidate has more free slots.
  pub pick_most_free-IsMostFree : IsMostFree free_slots cs (pick_most_free cs free_slots rotation)
  unfolding pick_most_free pick_tied
  pick_most_free-IsMostFree = elim (Option-cases (max_slots (rank free_slots cs))) [
    | inl e ↦ rw (e, pick_tied) (rank_nil free_slots cs (max_slots-none _ e))
    | inr (best, e) ↦ elim (Option-cases (pick_tied rotation (rank free_slots cs) (some best))) [
      | inl k ↦ absurd (picks best e k)
      | inr (r, k) ↦ rw (e, k) (picked-IsMostFree best e r k)
    ]
  ]

-- The healthy workers of the scope, or all of them where none is healthy.
abbrev pub eligible : List Text → List WorkerEndpoint → List WorkerEndpoint
eligible healthy_workers scope_workers =
    if any (is_healthy healthy_workers) scope_workers
    then filter (is_healthy healthy_workers) scope_workers
    else scope_workers

-- Nothing, where the scope has no worker; else an eligible worker, of which none has more free
-- slots, with a note whether no worker of the scope is healthy.
abbrev pub IsBest :
    List WorkerEndpoint → List Text → (WorkerEndpoint → ℕ) → Option SelectedWorker → Type 0
IsBest scope_workers healthy_workers free_slots none = scope_workers ≡ []
IsBest scope_workers healthy_workers free_slots (some s) =
    Memᴰ s.worker (eligible healthy_workers scope_workers)
    × (s.free_slots ≡ free_slots s.worker)
    × All (λ w. free_slots w ≤ s.free_slots) (eligible healthy_workers scope_workers)
    × (s.used_fallback ≡ not (any (is_healthy healthy_workers) scope_workers))

is_empty-filter :
    (p : WorkerEndpoint → Bool) (ws : List WorkerEndpoint) → is_empty (filter p ws) ≡ not (any p ws)
is_empty-filter p [] = refl
is_empty-filter p (w ∷ ws) = ground (arith, is_empty-filter p ws)

module _ (scope_workers : List WorkerEndpoint) (healthy_workers : List Text)
    (free_slots : WorkerEndpoint → ℕ) where
  filter-any :
      (ws : List WorkerEndpoint)
      → any (is_healthy healthy_workers) ws ≡ true
      → filter (is_healthy healthy_workers) ws ≢ []
  filter-any [] e h = cc
  filter-any (w ∷ ws) e h = ground (arith, filter-any ws)

  selected-IsBest :
      (r : Option Ranked)
      → IsMostFree free_slots (eligible healthy_workers scope_workers) r
      → IsBest scope_workers healthy_workers free_slots
          (selected (not (any (is_healthy healthy_workers) scope_workers)) r)
  selected-IsBest none h = elim (Bool-cases (any (is_healthy healthy_workers) scope_workers)) [
    | inl e ↦ absurd (filter-any scope_workers e (rw e at h))
    | inr e ↦ rw e at h
  ]
  selected-IsBest (some (w, n)) h = (h.0, h.1, h.2, refl)

  select_eligible :
      (rotation : ℕ)
      → select_best_worker scope_workers healthy_workers free_slots rotation
        ≡ selected
            (not (any (is_healthy healthy_workers) scope_workers))
            (pick_most_free (eligible healthy_workers scope_workers) free_slots rotation)
  unfolding select_best_worker
  select_eligible rotation =
      ground (arith, is_empty-filter (is_healthy healthy_workers) scope_workers)

  -- For every value of the rotation counter routing answers with none only for a scope without
  -- workers, and else with one that has the most free slots among the healthy workers, or among all
  -- of them and flagged as the fallback where none is healthy.
  pub select_best_worker-IsBest :
      (rotation : ℕ)
      → IsBest scope_workers healthy_workers free_slots
          (select_best_worker scope_workers healthy_workers free_slots rotation)
  select_best_worker-IsBest rotation = rw (select_eligible rotation) (
      selected-IsBest _
        (pick_most_free-IsMostFree free_slots (eligible healthy_workers scope_workers) rotation))
