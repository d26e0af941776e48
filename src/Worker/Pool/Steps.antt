-- ===== src/Worker/Pool/Steps.antt =====
-- The pool under every interleaving of the worker's tasks: an event is one critical section of
-- some task, and a schedule is a list of events in the order in which they take the lock.
pub mod Swap
pub mod Safety
use browser_hive_rs.Base.{ℕ, zero, suc, ◌+◌, ◌≢◌, Bool, List, [], ◌∷◌, Option, All}
use browser_hive_rs.Base.Text.{Text}
use browser_hive_rs.Common.Config.{ScopeConfig, SessionMode}
use browser_hive_rs.Worker.Context.{BrowserContext}
use browser_hive_rs.Worker.Pool.{BrowserPool, Creation, ids, build_reserved_context}
use browser_hive_rs.Worker.Pool.Acquire.{
  ProxyParams, Acquisition, get_or_create_read, acquire_by_mode, destroy_context,
  end_session_if_used_up,
}
use browser_hive_rs.Worker.Pool.Monitor.{
  tick_always_new, tick_dedicated, claim_expired, release_old, swap_recycled,
}
use browser_hive_rs.Worker.Pool.Guard.{guard_new, guard_drop}
use browser_hive_rs.Worker.Pool.Invariant.{reservations}

pub data Event : Type 0 where
  looks_up acquires : ProxyParams → Option Text → ℕ → Event
  builds : Creation → Event
  claims destroys : ℕ → Event
  frees ends : ℕ → ℕ → Event
  ticks : ℕ → Event
  recycles : ℕ → BrowserContext → Event

-- `building` counts the tasks that hold a reservation.
pub record World : Type 0 where
  pub pool : BrowserPool
  pub building : ℕ

-- The critical section of the monitor's tick in each mode. What `Reusable` claims comes back as
-- `recycles` events.
unfoldable pub tick : SessionMode → ScopeConfig → ℕ → BrowserPool → BrowserPool
tick SessionMode.always_new cfg now p = tick_always_new p
tick SessionMode.reusable cfg now p = (claim_expired cfg now p).1
tick SessionMode.dedicated cfg now p = tick_dedicated cfg now p

abbrev acquired : ℕ → Acquisition × BrowserPool → World
acquired n (a, q) = record { pool = q; building = n + reservations a }

abbrev pub built : ℕ → World → BrowserPool → World
built zero w q = w
built (suc n) w q = record { pool = q; building = n }

-- `builds` ends one reservation; with none outstanding there is no such task.
unfoldable pub step : ScopeConfig → World → Event → World
step cfg w (looks_up params origin now) = record w {
  pool = (get_or_create_read cfg params origin now w.pool).1;
}
step cfg w (acquires params origin now) =
    acquired w.building (acquire_by_mode cfg.session_mode cfg params origin now w.pool)
step cfg w (builds r) = built w.building w (build_reserved_context r w.pool).1
step cfg w (claims id) = record w { pool = (guard_new id w.pool).1 }
step cfg w (destroys id) = record w { pool = destroy_context id w.pool }
step cfg w (frees id now) = record w { pool = guard_drop id now w.pool }
step cfg w (ends id now) = record w { pool = (end_session_if_used_up cfg id now w.pool).1 }
step cfg w (ticks now) = record w { pool = tick cfg.session_mode cfg now w.pool }
step cfg w (recycles old new) = record w { pool = swap_recycled old new (release_old old w.pool) }

unfoldable pub run : ScopeConfig → World → List Event → World
run cfg w [] = w
run cfg w (e ∷ es) = run cfg (step cfg w e) es

-- `Uuid::new_v4` does not return an id that a context of the pool has.
abbrev pub IsFresh : ℕ → BrowserPool → Type 0
IsFresh id p = All (λ j. j ≢ id) (ids p.contexts)

abbrev pub NewIds : Event → BrowserPool → Type 0
NewIds (builds r) p = IsFresh r.id p
NewIds (recycles old new) p = IsFresh new.id p
NewIds _ p = Unit

abbrev pub AllNewIds : ScopeConfig → World → List Event → Type 0
AllNewIds cfg w [] = Unit
AllNewIds cfg w (e ∷ es) = NewIds e w.pool × AllNewIds cfg (step cfg w e) es
