-- ===== src/Worker/Pool/Acquire.antt =====
-- How a request gets its context in each session mode, and how a context leaves the pool.
use browser_hive_rs.Base.{
  ℕ, Bool, true, false, List, Option, none, some, ltb, ◌==◌, if◌then◌else◌, is_some, filter, find,
  fetch_add,
}
use browser_hive_rs.Base.Text.{Text, text_eq}
use browser_hive_rs.Base.Result.{Result, ok, err}
use browser_hive_rs.Common.Config.{ScopeConfig, SessionMode}
use browser_hive_rs.Worker.Context.{BrowserContext, is_used_up}
use browser_hive_rs.Worker.Pool.{
  BrowserPool, Creation, occupied_slots, reserve, release_context, release_contexts,
  build_reserved_context,
}
use browser_hive_rs.Worker.Pool.Select.{
  claim_least_used_idle, claim_soonest_unquarantined, take_used_up_idle, claim_by_id, without,
  reclaim_leaked_always_new_contexts,
}

-- `ProxyParams` of crates/common/src/request_context.rs.
pub record ProxyParams : Type 0 where
  pub country_code : Option Text

unfoldable pub requires_dedicated_context : ProxyParams → Bool
requires_dedicated_context params = is_some params.country_code

-- What the critical section before a creation decides.
pub data Acquisition : Type 0 where
  claimed : BrowserContext → Acquisition
  reserved exhausted : Acquisition

abbrev with_contexts : BrowserPool → List BrowserContext → BrowserPool
with_contexts p contexts = record p { contexts = contexts }

-- The optimistic look-up, under the read lock.
unfoldable pub get_or_create_read :
    ScopeConfig → ProxyParams → Option Text → ℕ → BrowserPool → Option BrowserContext × BrowserPool
get_or_create_read cfg params origin now p =
    if requires_dedicated_context params
    then (none, p)
    else (let (found, contexts) = claim_least_used_idle p.contexts origin cfg.lifecycle now in
        (found, with_contexts p contexts))

-- At the limit an idle used-up context gives its slot up, or else a quarantined one serves.
unfoldable pub settle :
    BrowserPool → Option BrowserContext × List BrowserContext → Acquisition × BrowserPool
settle p (none, contexts) = (exhausted, with_contexts p contexts)
settle p (some c, contexts) = (claimed c, with_contexts p contexts)

unfoldable pub fall_back :
    ScopeConfig → ProxyParams → Option Text → ℕ → BrowserPool → Acquisition × BrowserPool
fall_back cfg params none now p = (exhausted, p)
fall_back cfg params (some origin) now p =
    if requires_dedicated_context params
    then (exhausted, p)
    else settle p (claim_soonest_unquarantined p.contexts origin cfg.lifecycle now)

unfoldable pub replace_used_up :
    ScopeConfig
    → ProxyParams
    → Option Text
    → ℕ
    → BrowserPool
    → Option BrowserContext × List BrowserContext
    → Acquisition × BrowserPool
replace_used_up cfg params origin now p (none, contexts) = fall_back cfg params origin now p
replace_used_up cfg params origin now p (some c, contexts) = (
  reserved,
  release_context c (
      reserve (record p {
        contexts = contexts;
        total_contexts_recycled = fetch_add p.total_contexts_recycled 1;
      })),
)

unfoldable pub grow_or_replace :
    ScopeConfig → ProxyParams → Option Text → ℕ → BrowserPool → Acquisition × BrowserPool
unfolding occupied_slots
grow_or_replace cfg params origin now p =
    if ltb (occupied_slots p) cfg.max_contexts
    then (reserved, reserve p)
    else replace_used_up cfg params origin now p (take_used_up_idle p.contexts cfg.lifecycle now)

-- The same look-up again and the rest, under the write lock.
unfoldable pub unless_found :
    ScopeConfig
    → ProxyParams
    → Option Text
    → ℕ
    → Option BrowserContext × BrowserPool
    → Acquisition × BrowserPool
unless_found cfg params origin now (none, p) = grow_or_replace cfg params origin now p
unless_found cfg params origin now (some c, p) = (claimed c, p)

unfoldable pub get_or_create_write :
    ScopeConfig → ProxyParams → Option Text → ℕ → BrowserPool → Acquisition × BrowserPool
get_or_create_write cfg params origin now p =
    unless_found cfg params origin now (get_or_create_read cfg params origin now p)

-- The capacity check that the other two modes share.
unfoldable pub try_reserve : ScopeConfig → BrowserPool → Acquisition × BrowserPool
unfolding occupied_slots
try_reserve cfg p =
    if ltb (occupied_slots p) cfg.max_contexts then (reserved, reserve p) else (exhausted, p)

unfoldable pub create_dedicated_reserve : ScopeConfig → BrowserPool → Acquisition × BrowserPool
create_dedicated_reserve cfg p = try_reserve cfg p

-- Leaks are reclaimed before the capacity is measured.
unfoldable pub create_always_new_reserve : ScopeConfig → BrowserPool → Acquisition × BrowserPool
unfolding reclaim_leaked_always_new_contexts
create_always_new_reserve cfg p =
    let (leaked, kept) = reclaim_leaked_always_new_contexts p.contexts in
    try_reserve cfg (release_contexts leaked (with_contexts p kept))

-- The critical section of `WorkerService::acquire_context` in each mode.
unfoldable pub acquire_by_mode :
    SessionMode
    → ScopeConfig
    → ProxyParams
    → Option Text
    → ℕ
    → BrowserPool
    → Acquisition × BrowserPool
acquire_by_mode SessionMode.always_new cfg params origin now p = create_always_new_reserve cfg p
acquire_by_mode SessionMode.reusable cfg params origin now p =
    get_or_create_write cfg params origin now p
acquire_by_mode SessionMode.dedicated cfg params origin now p = create_dedicated_reserve cfg p

-- What follows the critical section: `other` is what the other tasks do to the pool while the
-- lock is dropped.
unfoldable pub complete :
    Acquisition
    → Creation
    → (BrowserPool → BrowserPool)
    → BrowserPool
    → Result Text (Option BrowserContext) × BrowserPool
complete (claimed c) r other p = (ok (some c), p)
complete exhausted r other p = (ok none, p)
complete reserved r other p =
    let (made, q) = build_reserved_context r (other p) in
    elim made [ ok c ↦ (ok (some c), q) | err e ↦ (err e, q) ]

-- The whole of each acquisition, with what other tasks do between its critical sections.
unfoldable pub get_or_create_context :
    ScopeConfig
    → ProxyParams
    → Option Text
    → ℕ
    → ℕ
    → Creation
    → (BrowserPool → BrowserPool)
    → (BrowserPool → BrowserPool)
    → BrowserPool
    → Result Text (Option BrowserContext) × BrowserPool
unfolding complete
get_or_create_context cfg params origin now later r before during p =
    let (found, q) = get_or_create_read cfg params origin now p in
    elim found [
      | some c ↦ (ok (some c), q)
      | none ↦
          (let (a, s) = get_or_create_write cfg params origin later (before q) in
            complete a r during s)
    ]

unfoldable pub create_dedicated_context :
    ScopeConfig
    → Creation
    → (BrowserPool → BrowserPool)
    → BrowserPool
    → Result Text (Option BrowserContext) × BrowserPool
unfolding complete
create_dedicated_context cfg r during p =
    let (a, s) = create_dedicated_reserve cfg p in complete a r during s

unfoldable pub create_always_new_context :
    ScopeConfig
    → Creation
    → (BrowserPool → BrowserPool)
    → BrowserPool
    → Result Text (Option BrowserContext) × BrowserPool
unfolding complete
create_always_new_context cfg r during p =
    let (a, s) = create_always_new_reserve cfg p in complete a r during s

-- Remove a context by its id; a second call finds nothing.
unfoldable pub destroy_context : ℕ → BrowserPool → BrowserPool
destroy_context id p =
    release_contexts (filter (λ c. c.id == id) p.contexts) (with_contexts p (without id p.contexts))

-- `to_string` is how `Uuid` prints.
unfoldable pub find_context_by_id : (ℕ → Text) → Text → BrowserPool → Option BrowserContext
find_context_by_id to_string id p = find (λ c. text_eq (to_string c.id) id) p.contexts

unfoldable pub end_claimed :
    ℕ → Option (BrowserContext × List BrowserContext) → BrowserPool → Bool × BrowserPool
unfolding release_context
end_claimed id none p = (false, p)
end_claimed id (some (c, store)) p = (true, release_context c (with_contexts p (without id store)))

-- A session that has used its context up ends: `true` when the context left the pool. The
-- request holds the same object as the pool, so its state is read there; a context that is gone
-- from the pool answers `false` whatever its state.
unfoldable pub end_session_if_used_up : ScopeConfig → ℕ → ℕ → BrowserPool → Bool × BrowserPool
end_session_if_used_up cfg id now p = elim (find (λ c. c.id == id) p.contexts) [
  | none ↦ (false, p)
  | some c ↦
      if is_used_up c cfg.lifecycle now
      then end_claimed id (claim_by_id id p.contexts) p
      else (false, p)
]
