-- ===== src/Worker/Pool/Monitor.antt =====
-- The lifecycle monitor's tick, and the statistics that the coordinator routes by.
use browser_hive_rs.Base.{
  ℕ, ◌+◌, ◌-◌, Bool, true, not, ◌&&◌, List, [], ◌∷◌, ◌==◌, max, if◌then◌else◌, filter, length,
  fetch_add, count_if, sum_by, any, map, ◌%◌, u64_mod,
}
use browser_hive_rs.Common.Config.{ScopeConfig, SessionMode, is_dedicated}
use browser_hive_rs.Worker.Context.{BrowserContext, set_busy, should_recycle_context}
use browser_hive_rs.Worker.Pool.{BrowserPool, ids, release_context, release_contexts}
use browser_hive_rs.Worker.Pool.Select.{is_idle, reclaim_leaked_always_new_contexts}

-- AlwaysNew: what is idle has leaked.
unfoldable pub tick_always_new : BrowserPool → BrowserPool
unfolding reclaim_leaked_always_new_contexts
tick_always_new p =
    let (leaked, kept) = reclaim_leaked_always_new_contexts p.contexts in
    release_contexts leaked (record p { contexts = kept })

-- Dedicated: an idle context whose session has expired is removed.
abbrev pub is_expired : ScopeConfig → ℕ → BrowserContext → Bool
is_expired cfg now c = is_idle c && should_recycle_context c cfg.lifecycle now

unfoldable pub tick_dedicated : ScopeConfig → ℕ → BrowserPool → BrowserPool
tick_dedicated cfg now p =
    release_contexts (filter (is_expired cfg now) p.contexts)
      (record p { contexts = filter (λ c. not (is_expired cfg now c)) p.contexts })

-- Reusable, first phase: each expired idle context is claimed in place.
unfoldable pub claim_expired_one : ScopeConfig → ℕ → BrowserContext → BrowserContext
claim_expired_one cfg now c = if is_expired cfg now c then set_busy true c else c

unfoldable pub claim_expired : ScopeConfig → ℕ → BrowserPool → List ℕ × BrowserPool
unfolding claim_expired_one
claim_expired cfg now p = (
  ids (filter (is_expired cfg now) p.contexts),
  record p { contexts = map (claim_expired_one cfg now) p.contexts },
)

-- Third phase: the replacement takes the claimed slot, if it is still there.
unfoldable pub put_at : ℕ → BrowserContext → List BrowserContext → List BrowserContext
put_at id new [] = []
put_at id new (c ∷ cs) = if c.id == id then new ∷ cs else c ∷ put_at id new cs

unfoldable pub swap_recycled : ℕ → BrowserContext → BrowserPool → BrowserPool
unfolding put_at release_context
swap_recycled old new p =
    if any (λ c. c.id == old) p.contexts
    then record p {
      contexts = put_at old new p.contexts;
      total_contexts_recycled = fetch_add p.total_contexts_recycled 1;
      total_contexts_created = fetch_add p.total_contexts_created 1;
    }
    else release_context new p

-- Before the replacement is built the old tab and browser context are released.
unfoldable pub release_old : ℕ → BrowserPool → BrowserPool
release_old old p = record p { released = old ∷ p.released }

pub record BrowserPoolStats : Type 0 where
  pub total_contexts : ℕ
  pub total_slots : ℕ
  pub available_slots : ℕ
  pub active_requests : ℕ
  pub claimed_contexts : ℕ
  pub total_requests : ℕ
  pub total_contexts_created : ℕ
  pub total_contexts_recycled : ℕ

abbrev busy_count : BrowserPool → ℕ
busy_count p = count_if (λ c. c.is_busy) p.contexts

claimed_by_mode : SessionMode → BrowserPool → ℕ
claimed_by_mode mode p =
    let active = busy_count p + p.pending_creations in
    if is_dedicated mode then max (length p.contexts + p.pending_creations) active else active

unfoldable pub get_stats : ScopeConfig → BrowserPool → BrowserPoolStats
unfolding claimed_by_mode
get_stats cfg p = record {
  total_contexts = length p.contexts;
  total_slots = cfg.max_contexts;
  available_slots = cfg.max_contexts - claimed_by_mode cfg.session_mode p;
  active_requests = busy_count p + p.pending_creations;
  claimed_contexts = claimed_by_mode cfg.session_mode p;
  total_requests = sum_by (λ c. c.total_requests) p.contexts % u64_mod;
  total_contexts_created = p.total_contexts_created;
  total_contexts_recycled = p.total_contexts_recycled;
}
