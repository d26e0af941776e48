-- ===== src/Worker/Tests.antt =====
-- A pool of two contexts, and runs of the theorems on it.
use browser_hive_rs.Base.{
  ◌+◌, ◌≤◌, ◌<◌, ◌≡◌, ◌≢◌, ◌↔◌, refl, none, some, List, [], ◌∷◌, arith, length, unwrap_or,
}
use browser_hive_rs.Common.Metadata.{BrowserContextMetadata}
use browser_hive_rs.Common.Config.{SessionMode}
use browser_hive_rs.Common.Tests.{
  origin_a, origin_b, blocked_context, lifecycle, dedicated_scope, reusable_scope,
}
use browser_hive_rs.Worker.Context.{BrowserContext, quarantine_end}
use browser_hive_rs.Worker.Pool.{BrowserPool, ids}
use browser_hive_rs.Worker.Pool.Select.{
  is_eligible, claim_least_used_idle, claim_soonest_unquarantined,
}
use browser_hive_rs.Worker.Pool.Acquire.{
  requires_dedicated_context, exhausted, get_or_create_write, ProxyParams, reserved,
  acquire_by_mode, create_dedicated_reserve,
}
use browser_hive_rs.Worker.Pool.Monitor.{get_stats}
use browser_hive_rs.Worker.Pool.Ids.{IsDistinct}
use browser_hive_rs.Worker.Pool.Invariant.{Inv, Acquires, held}
use browser_hive_rs.Worker.Pool.Capacity.{acquire_by_mode-Acquires}
use browser_hive_rs.Worker.Pool.Choice.{Chosen}
use browser_hive_rs.Worker.Pool.LeastUsed.{
  claim_least_used_idle-Chosen, claim_soonest_unquarantined-Chosen, is_quarantined,
}
use browser_hive_rs.Worker.Pool.Service.Reusable.{reusable_slot_is_served}
use browser_hive_rs.Worker.Pool.Service.{dedicated_slot_iff}
use browser_hive_rs.Worker.Pool.Steps.{Event, World, step, run, acquires, frees, ticks, destroys}
use browser_hive_rs.Worker.Pool.Steps.Safety.{IsSound, run_within_limit, step_conserves}

abbrev context : BrowserContextMetadata → BrowserContext
context m = record {
  metadata = m;
  tab = some 1;
  cdp_context_id = none;
  proxy_host = none;
  site = none;
}

-- Context 7, blocked for origin a; context 8, with fewer requests; context 9, used up.
abbrev blocked : BrowserContext
blocked = context blocked_context

abbrev light : BrowserContext
light = context (record blocked_context { id = 8; total_requests = 1; blocked_origins = [] })

abbrev spent : BrowserContext
spent = context (record blocked_context { id = 9; total_requests = 10; blocked_origins = [] })

abbrev contexts : List BrowserContext
contexts = blocked ∷ light ∷ spent ∷ []

contexts-IsDistinct : IsDistinct (ids contexts)
contexts-IsDistinct =
    ((λ e. omega (arith, e), (λ e. omega (arith, e), tt)), ((λ e. omega (arith, e), tt), (tt, tt)))

abbrev pool : BrowserPool
pool = record {
  contexts = light ∷ [];
  pending_creations = 0;
  total_contexts_created = 1;
  total_contexts_recycled = 0;
  released = [];
}

pool-Inv : Inv dedicated_scope pool
pool-Inv = record { distinct = (tt, tt); capacity = omega arith; limit = omega arith }

pool-Inv_reusable : Inv reusable_scope pool
pool-Inv_reusable = record { distinct = (tt, tt); capacity = omega arith; limit = omega arith }

abbrev world : World
world = record { pool = pool; building = 0 }

world-IsSound : IsSound reusable_scope world
world-IsSound = record { inv = pool-Inv_reusable; reserved = refl }

abbrev any_proxy : ProxyParams
any_proxy = record { country_code = none }

-- Two requests at once, a tick, and the release of the context of the first.
abbrev schedule : List Event
schedule =
    acquires any_proxy (some origin_a) 20
    ∷ acquires any_proxy (some origin_b) 20
    ∷ ticks 30
    ∷ frees 8 40
    ∷ []

run_within_limit_example :
    let v = run reusable_scope world schedule in
    (length v.pool.contexts + v.building ≤ reusable_scope.max_contexts)
    × (v.pool.pending_creations ≡ v.building)
    × IsDistinct (ids v.pool.contexts)
run_within_limit_example =
    run_within_limit reusable_scope world schedule world-IsSound (tt, (tt, (tt, (tt, tt))))

step_conserves_example : held 8 (step reusable_scope world (destroys 8)).pool ≡ held 8 world.pool
step_conserves_example = step_conserves reusable_scope world (destroys 8) 8 tt world-IsSound

acquire_by_mode-Acquires_example :
    let r = acquire_by_mode SessionMode.reusable reusable_scope any_proxy (some origin_a) 20 pool in
    Acquires reusable_scope pool r.0 r.1
acquire_by_mode-Acquires_example =
    acquire_by_mode-Acquires reusable_scope SessionMode.reusable any_proxy (some origin_a) 20 pool
      pool-Inv_reusable

claim_least_used_idle-Chosen_example :
    Chosen
      (λ c. c.total_requests)
      (is_eligible (some origin_a) lifecycle 20)
      contexts
      (claim_least_used_idle contexts (some origin_a) lifecycle 20).0
claim_least_used_idle-Chosen_example =
    claim_least_used_idle-Chosen lifecycle 20 contexts contexts-IsDistinct (some origin_a)

claim_soonest_unquarantined-Chosen_example :
    Chosen
      (λ c. unwrap_or (quarantine_end origin_a 20 c) 0)
      (is_quarantined lifecycle 20 origin_a)
      contexts
      (claim_soonest_unquarantined contexts origin_a lifecycle 20).0
claim_soonest_unquarantined-Chosen_example =
    claim_soonest_unquarantined-Chosen lifecycle 20 contexts contexts-IsDistinct origin_a

dedicated_slot_iff_example :
    ((create_dedicated_reserve dedicated_scope pool).0 ≡ reserved)
    ↔ (0 < (get_stats dedicated_scope pool).available_slots)
dedicated_slot_iff_example = dedicated_slot_iff dedicated_scope pool refl

reusable_slot_is_served_example :
    (get_or_create_write reusable_scope any_proxy (some origin_a) 20 pool).0 ≢ exhausted
unfolding get_stats requires_dedicated_context
reusable_slot_is_served_example =
    reusable_slot_is_served reusable_scope any_proxy 20 refl (some origin_a) pool pool-Inv_reusable
      refl (omega arith)
