-- ===== src/Worker/Pool/LeastUsed.antt =====
-- The three claims of the pool (crates/worker/src/browser_pool.rs).
use browser_hive_rs.Base.{
  ℕ, ◌≡◌, refl, ◌∙◌, Bool, true, false, not, ◌&&◌, List, Option, none, some, arith, is_some,
  unwrap_or, Mem-map,
}
use browser_hive_rs.Base.Text.{Text}
use browser_hive_rs.Common.Lifecycle.{ContextLifecycleConfig}
use browser_hive_rs.Worker.Context.{BrowserContext, is_used_up, quarantine_end}
use browser_hive_rs.Worker.Pool.{ids}
use browser_hive_rs.Worker.Pool.Select.{
  is_idle, is_eligible, examine, examine_one, least_used_candidates, claim_least_used_idle,
  quarantined_candidates, claim_soonest_unquarantined, used_up_candidates, take_used_up_idle,
  take_claimed,
}
use browser_hive_rs.Worker.Pool.Ids.{IsDistinct}
use browser_hive_rs.Worker.Pool.Claims.{examine_one-metadata, ids-examine}
use browser_hive_rs.Worker.Pool.Choice.{Chosen, Available, claim_first-Chosen}

-- Idle, not used up, and quarantined for the origin.
abbrev pub is_quarantined : ContextLifecycleConfig → ℕ → Text → BrowserContext → Bool
is_quarantined lifecycle now origin c =
    is_idle c && (not (is_used_up c lifecycle now) && is_some (quarantine_end origin now c))

-- Idle and used up.
abbrev pub is_replaceable : ContextLifecycleConfig → ℕ → BrowserContext → Bool
is_replaceable lifecycle now c = is_idle c && is_used_up c lifecycle now

module _ (lifecycle : ContextLifecycleConfig) (now : ℕ) (contexts : List BrowserContext)
    (distinct : IsDistinct (ids contexts)) where
  -- An idle context is still there, and idle, after the query of an origin.
  Available-examined :
      (test : BrowserContext → Bool) (origin : Option Text)
      → ((d : BrowserContext) → test d ≡ true → d.is_busy ≡ false)
      → Available test contexts (examine origin lifecycle now contexts)
  unfolding examine
  Available-examined test none idle d m t = (d, m, refl, idle d t)
  Available-examined test (some origin) idle d m t =
      let (i, b) = examine_one-metadata origin lifecycle now d in
      (examine_one origin lifecycle now d, Mem-map _ contexts m, i, b ∙ idle d t)

  -- In a pool with distinct ids a request is given the context with the fewest requests among those
  -- that are idle, not used up and not quarantined for its origin, and none only where no context
  -- passes these tests.
  pub claim_least_used_idle-Chosen :
      (origin : Option Text)
      → Chosen
          (λ c. c.total_requests)
          (is_eligible origin lifecycle now)
          contexts
          (claim_least_used_idle contexts origin lifecycle now).0
  unfolding claim_least_used_idle least_used_candidates
  claim_least_used_idle-Chosen origin =
      claim_first-Chosen _ (is_eligible origin lifecycle now) contexts _
        (rw (ids-examine origin lifecycle now contexts) distinct)
        (Available-examined _ origin (λ d t. ground arith))

  -- In a pool with distinct ids the last resort claims, among the idle contexts that are not used
  -- up and are quarantined for the origin, one whose quarantine ends first, and none only where
  -- there is none.
  pub claim_soonest_unquarantined-Chosen :
      (origin : Text)
      → Chosen
          (λ c. unwrap_or (quarantine_end origin now c) 0)
          (is_quarantined lifecycle now origin)
          contexts
          (claim_soonest_unquarantined contexts origin lifecycle now).0
  unfolding claim_soonest_unquarantined quarantined_candidates
  claim_soonest_unquarantined-Chosen origin =
      claim_first-Chosen _ (is_quarantined lifecycle now origin) contexts _
        (rw (ids-examine (some origin) lifecycle now contexts) distinct)
        (Available-examined _ (some origin) (λ d t. ground arith))

  -- In a pool with distinct ids the slot taken for reuse is that of the oldest context that is idle
  -- and used up, and none is taken only where there is none.
  pub take_used_up_idle-Chosen :
      Chosen
        (λ c. c.created_at)
        (is_replaceable lifecycle now)
        contexts
        (take_used_up_idle contexts lifecycle now).0
  unfolding take_used_up_idle used_up_candidates
  take_used_up_idle-Chosen = taken _ (
      claim_first-Chosen _ (is_replaceable lifecycle now) contexts contexts distinct
        (λ d m t. (d, m, refl, ground arith)))
    where
      taken :
          (r : Option BrowserContext × List BrowserContext)
          → Chosen (λ c. c.created_at) (is_replaceable lifecycle now) contexts r.0
          → Chosen (λ c. c.created_at) (is_replaceable lifecycle now) contexts (take_claimed r).0
      taken (none, store) h = h
      taken (some c, store) h = h
