-- ===== src/Worker/Pool/Guard.antt =====
-- `ContextBusyGuard` of crates/worker/src/service.rs: the busy flag over a request's life.
use browser_hive_rs.Base.{ℕ, Bool, true, false, map, none, some, ◌==◌, if◌then◌else◌}
use browser_hive_rs.Worker.Context.{BrowserContext}
use browser_hive_rs.Worker.Pool.{BrowserPool}
use browser_hive_rs.Worker.Pool.Select.{claim_by_id}

-- `new`: a session's request claims the context that it looked up; `false` is SESSION_BUSY.
unfoldable pub guard_new : ℕ → BrowserPool → Bool × BrowserPool
guard_new id p = elim (claim_by_id id p.contexts) [
  | none ↦ (false, p)
  | some (c, store) ↦ (true, record p { contexts = store })
]

-- `drop`: the context is stamped with the end of the request, and then idle. The lock of
-- `last_used_at` is free, since a context in use is nobody else's.
unfoldable pub free_context : ℕ → BrowserContext → BrowserContext
free_context now c = record c {
  metadata = record c.metadata { last_used_at = now; is_busy = false };
}

unfoldable pub free_if : ℕ → ℕ → BrowserContext → BrowserContext
unfolding free_context
free_if id now c = if c.id == id then free_context now c else c

unfoldable pub guard_drop : ℕ → ℕ → BrowserPool → BrowserPool
unfolding free_if
guard_drop id now p = record p { contexts = map (free_if id now) p.contexts }
