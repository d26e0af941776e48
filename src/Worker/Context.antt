-- ===== src/Worker/Context.antt =====
-- `BrowserContext` of crates/worker/src/browser_pool.rs, and what the pool asks of one context.
-- A context is shared behind an `Arc`; its identity (`Arc::ptr_eq`) is its `id`, which each context
-- is created with anew.
use browser_hive_rs.Base.{ℕ, ◌-◌, Bool, true, false, ◌||◌, Option, none, some, ltb, if◌then◌else◌}
use browser_hive_rs.Base.Text.{Text}
use browser_hive_rs.Common.Lifecycle.{ContextLifecycleConfig, RotationStrategy}
use browser_hive_rs.Common.Lifecycle
use browser_hive_rs.Common.Metadata.{BrowserContextMetadata, quarantined_until}

-- `tab` is the handle of the open tab, `cdp_context_id` the browser's name of the context.
pub record BrowserContext : Type 0 where
  pub metadata : BrowserContextMetadata
  pub open metadata use *
  pub tab : Option ℕ
  pub cdp_context_id : Option Text
  pub proxy_host : Option Text
  pub site : Option Text

abbrev pub set_busy : Bool → BrowserContext → BrowserContext
set_busy b c = record c { metadata = record c.metadata { is_busy = b } }

-- `created_at.elapsed()` is 0 where the clock is behind.
unfoldable pub is_used_up : BrowserContext → ContextLifecycleConfig → ℕ → Bool
is_used_up c lifecycle now = Lifecycle.is_used_up lifecycle (now - c.created_at) c.total_requests

-- The compare-and-swap from idle to busy: the context afterwards, if this call won it.
unfoldable pub try_claim : BrowserContext → Option BrowserContext
try_claim c = if c.is_busy then none else some (set_busy true c)

idle_or_large : RotationStrategy → Bool → Bool
idle_or_large RotationStrategy.time_based_only exceeded = false
idle_or_large RotationStrategy.request_based_only exceeded = false
idle_or_large RotationStrategy.hybrid exceeded = exceeded

unfoldable pub should_recycle_context : BrowserContext → ContextLifecycleConfig → ℕ → Bool
unfolding idle_or_large is_used_up
should_recycle_context c config now =
    let idle_too_long = ltb config.max_idle_time (now - c.last_used_at) in
    let cache_too_large = ltb config.max_cache_size_mb c.cache_size_mb in
    if is_used_up c config now
    then true
    else idle_or_large config.rotation_strategy (idle_too_long || cache_too_large)

-- `quarantined_until` where the caller keeps the context.
unfoldable pub quarantine_end : Text → ℕ → BrowserContext → Option ℕ
quarantine_end origin now c = (quarantined_until origin now c.metadata).0

-- What that call leaves of the context: an expired entry is gone.
unfoldable pub read_quarantine : Text → ℕ → BrowserContext → BrowserContext
read_quarantine origin now c = record c { metadata = (quarantined_until origin now c.metadata).1 }
