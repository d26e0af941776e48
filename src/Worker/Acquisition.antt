-- ===== src/Worker/Acquisition.antt =====
-- How a request of crates/worker/src/service.rs gets its context: `acquire_context` with its
-- recovery from a dead browser, and what a request leaves of it.
use browser_hive_rs.Base.{
  ℕ, Bool, true, false, not, ◌||◌, [], Option, none, some, if◌then◌else◌, is_empty,
}
use browser_hive_rs.Base.Text.{Text}
use browser_hive_rs.Base.Result.{Result, ok, err}
use browser_hive_rs.Common.Config.{SessionMode, returns_session_id, is_always_new}
use browser_hive_rs.Worker.Context.{BrowserContext}
use browser_hive_rs.Worker.Pool.{BrowserPool, Creation}
use browser_hive_rs.Worker.Pool.Acquire.{
  ProxyParams, create_always_new_context, get_or_create_context, create_dedicated_context,
  destroy_context, find_context_by_id,
}
use browser_hive_rs.Worker.Outcome.{ErrorCode, is_dead_browser_error}
use browser_hive_rs.Worker.Attempt.{
  Answer, Shared, Setting, failure, recreate_browser_pool, on_pool,
}

-- What one acquisition gets from outside: the clock at its two look-ups, the creation, and the work
-- of other tasks between its critical sections.
pub record Acquiring : Type 0 where
  pub now : ℕ
  pub later : ℕ
  pub creation : Creation
  pub before : BrowserPool → BrowserPool
  pub during : BrowserPool → BrowserPool

-- An acquisition with its recovery: `new_pool` is what `BrowserPool::new` returns.
pub record Recovery : Type 0 where
  pub first : Acquiring
  pub new_pool : Result Text BrowserPool
  pub second : Acquiring

module _ (s : Setting) where
  -- `acquire_context`.
  unfoldable pub acquire_context :
      ProxyParams
      → Option Text
      → Acquiring
      → BrowserPool
      → Result Text (Option BrowserContext) × BrowserPool
  unfolding create_always_new_context get_or_create_context create_dedicated_context
  acquire_context params origin a p = by_mode s.scope.session_mode
    where
      by_mode : SessionMode → Result Text (Option BrowserContext) × BrowserPool
      by_mode SessionMode.always_new = create_always_new_context s.scope a.creation a.during p
      by_mode SessionMode.reusable =
          get_or_create_context s.scope params origin a.now a.later a.creation a.before a.during p
      by_mode SessionMode.dedicated = create_dedicated_context s.scope a.creation a.during p

  abbrev refuse : ErrorCode → Shared → Result Answer BrowserContext × Shared
  refuse e w = (err (failure e []), w)

  abbrev after_second :
      ℕ → Result Text (Option BrowserContext) × BrowserPool → Result Answer BrowserContext × Shared
  after_second g (ok (some c), p) = (ok c, record { pool = p; pool_generation = g })
  after_second g (ok none, p) =
      refuse ErrorCode.capacity_exhausted (record { pool = p; pool_generation = g })
  after_second g (err e, p) =
      refuse ErrorCode.context_creation_failed (record { pool = p; pool_generation = g })

  abbrev recovered :
      ProxyParams → Option Text → Recovery → Bool × Shared → Result Answer BrowserContext × Shared
  recovered params origin r (false, w) = refuse ErrorCode.browser_error w
  recovered params origin r (true, w) =
      after_second w.pool_generation (acquire_context params origin r.second w.pool)

  abbrev after_first :
      ProxyParams
      → Option Text
      → Recovery
      → ℕ
      → Result Text (Option BrowserContext) × BrowserPool
      → Result Answer BrowserContext × Shared
  after_first params origin r g (ok (some c), p) = (ok c, record { pool = p; pool_generation = g })
  after_first params origin r g (ok none, p) =
      refuse ErrorCode.capacity_exhausted (record { pool = p; pool_generation = g })
  after_first params origin r g (err e, p) =
      if is_dead_browser_error e
      then recovered params origin r
          (recreate_browser_pool r.new_pool (record { pool = p; pool_generation = g }))
      else refuse ErrorCode.context_creation_failed (record { pool = p; pool_generation = g })

  unfoldable pub acquire_context_with_recovery :
      ProxyParams → Option Text → Recovery → Shared → Result Answer BrowserContext × Shared
  unfolding acquire_context recreate_browser_pool is_dead_browser_error
  acquire_context_with_recovery params origin r w =
      after_first params origin r w.pool_generation (acquire_context params origin r.first w.pool)

  unfoldable pub surviving_session_context_id : Text → BrowserPool → Text
  unfolding find_context_by_id
  surviving_session_context_id id p =
      if is_empty id || not (returns_session_id s.scope.session_mode)
      then []
      else elim (find_context_by_id s.to_string id p) [ none ↦ [] | some c ↦ s.to_string c.id ]

  -- The drop of `AlwaysNewContextGuard`.
  unfoldable pub drop_always_new : BrowserContext → Shared → Shared
  unfolding destroy_context
  drop_always_new c w =
      if is_always_new s.scope.session_mode then on_pool (destroy_context c.id) w else w
