-- ===== src/Worker/Pool/Select.antt =====
-- The choice of an existing context, and its claim.
use browser_hive_rs.Base.{
  ℕ, Bool, true, not, ◌&&◌, List, [], ◌∷◌, map, Option, none, some, ◌==◌, if◌then◌else◌, is_some,
  unwrap_or, filter, head?,
}
use browser_hive_rs.Base.Text.{Text}
use browser_hive_rs.Base.Sort.{sort_by_key}
use browser_hive_rs.Common.Lifecycle.{ContextLifecycleConfig}
use browser_hive_rs.Worker.Context.{
  BrowserContext, is_used_up, try_claim, quarantine_end, read_quarantine,
}

abbrev pub is_idle : BrowserContext → Bool
is_idle c = not c.is_busy

-- `None` ignores quarantines.
unfoldable pub allows : Option Text → ℕ → BrowserContext → Bool
allows none now c = true
allows (some origin) now c = not (is_some (quarantine_end origin now c))

-- The three tests of the selection together.
abbrev pub is_eligible : Option Text → ContextLifecycleConfig → ℕ → BrowserContext → Bool
is_eligible origin lifecycle now c =
    is_idle c && (not (is_used_up c lifecycle now) && allows origin now c)

unfoldable pub least_used_candidates :
    List BrowserContext → Option Text → ContextLifecycleConfig → ℕ → List BrowserContext
least_used_candidates contexts origin lifecycle now =
    sort_by_key (λ c. c.total_requests) (filter (is_eligible origin lifecycle now) contexts)

-- The query of the origin prunes each context that reaches it.
unfoldable pub examine_one : Text → ContextLifecycleConfig → ℕ → BrowserContext → BrowserContext
examine_one origin lifecycle now c =
    if is_idle c && not (is_used_up c lifecycle now) then read_quarantine origin now c else c

unfoldable pub examine :
    Option Text → ContextLifecycleConfig → ℕ → List BrowserContext → List BrowserContext
unfolding examine_one
examine none lifecycle now contexts = contexts
examine (some origin) lifecycle now contexts = map (examine_one origin lifecycle now) contexts

unfoldable pub select_least_used_idle :
    List BrowserContext → Option Text → ContextLifecycleConfig → ℕ → Option BrowserContext
unfolding least_used_candidates
select_least_used_idle contexts origin lifecycle now =
    head? (least_used_candidates contexts origin lifecycle now)

-- One compare-and-swap on the context with this id, where the pool keeps it.
after_claim :
    BrowserContext
    → List BrowserContext
    → Option BrowserContext
    → Option (BrowserContext × List BrowserContext)
after_claim c rest none = none
after_claim c rest (some d) = some (d, d ∷ rest)

abbrev behind :
    BrowserContext
    → Option (BrowserContext × List BrowserContext)
    → Option (BrowserContext × List BrowserContext)
behind c none = none
behind c (some (d, rest)) = some (d, c ∷ rest)

unfoldable pub claim_by_id : ℕ → List BrowserContext → Option (BrowserContext × List BrowserContext)
unfolding after_claim try_claim
claim_by_id id [] = none
claim_by_id id (c ∷ cs) =
    if c.id == id then after_claim c cs (try_claim c) else behind c (claim_by_id id cs)

-- `candidates.into_iter().find(|c| try_claim(c))`: a candidate that another task has won is
-- passed over.
unfoldable pub claim_first :
    List BrowserContext → List BrowserContext → Option BrowserContext × List BrowserContext
unfolding claim_by_id
claim_first [] store = (none, store)
claim_first (c ∷ cs) store =
    let rest = claim_first cs store in
    elim (claim_by_id c.id store) [ none ↦ rest | some (d, store') ↦ (some d, store') ]

unfoldable pub claim_least_used_idle :
    List BrowserContext
    → Option Text
    → ContextLifecycleConfig
    → ℕ
    → Option BrowserContext × List BrowserContext
claim_least_used_idle contexts origin lifecycle now =
    claim_first (least_used_candidates contexts origin lifecycle now)
      (examine origin lifecycle now contexts)

-- Idle, not used up, and quarantined for the origin: soonest to recover first.
unfoldable pub quarantined_candidates :
    List BrowserContext → Text → ContextLifecycleConfig → ℕ → List BrowserContext
quarantined_candidates contexts origin lifecycle now =
    sort_by_key (λ c. unwrap_or (quarantine_end origin now c) 0)
      (filter
        (λ c.
          is_idle c && (not (is_used_up c lifecycle now) && is_some (quarantine_end origin now c)))
        contexts)

unfoldable pub claim_soonest_unquarantined :
    List BrowserContext
    → Text
    → ContextLifecycleConfig
    → ℕ
    → Option BrowserContext × List BrowserContext
claim_soonest_unquarantined contexts origin lifecycle now =
    claim_first (quarantined_candidates contexts origin lifecycle now)
      (examine (some origin) lifecycle now contexts)

-- The oldest idle context that is used up leaves the pool, claimed.
unfoldable pub without : ℕ → List BrowserContext → List BrowserContext
without id = filter (λ c. not (c.id == id))

unfoldable pub used_up_candidates :
    List BrowserContext → ContextLifecycleConfig → ℕ → List BrowserContext
used_up_candidates contexts lifecycle now =
    sort_by_key (λ c. c.created_at) (filter (λ c. is_idle c && is_used_up c lifecycle now) contexts)

unfoldable pub take_claimed :
    Option BrowserContext × List BrowserContext → Option BrowserContext × List BrowserContext
take_claimed (none, store) = (none, store)
take_claimed (some c, store) = (some c, without c.id store)

unfoldable pub take_used_up_idle :
    List BrowserContext → ContextLifecycleConfig → ℕ → Option BrowserContext × List BrowserContext
unfolding take_claimed
take_used_up_idle contexts lifecycle now =
    take_claimed (claim_first (used_up_candidates contexts lifecycle now) contexts)

-- Keep the busy contexts; the others, in the pool's order, have leaked.
unfoldable pub reclaim_leaked_always_new_contexts :
    List BrowserContext → List BrowserContext × List BrowserContext
reclaim_leaked_always_new_contexts contexts =
    (filter is_idle contexts, filter (λ c. c.is_busy) contexts)
