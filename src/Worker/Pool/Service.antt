-- ===== src/Worker/Pool/Service.antt =====
-- `get_stats` against the acquisitions (crates/worker/src/browser_pool.rs).
pub mod Reusable
use browser_hive_rs.Base.{◌<◌, ◌≡◌, ◌↔◌, arith, count_if-le-length}
use browser_hive_rs.Common.Config.{ScopeConfig, SessionMode}
use browser_hive_rs.Worker.Pool.{BrowserPool, occupied_slots}
use browser_hive_rs.Worker.Pool.Acquire.{reserved, create_dedicated_reserve, try_reserve}
use browser_hive_rs.Worker.Pool.Monitor.{get_stats}

-- In Dedicated a new session gets a reservation exactly when the statistics report a free slot.
pub dedicated_slot_iff :
    (cfg : ScopeConfig) (p : BrowserPool)
    → cfg.session_mode ≡ SessionMode.dedicated
    → ((create_dedicated_reserve cfg p).0 ≡ reserved) ↔ (0 < (get_stats cfg p).available_slots)
unfolding create_dedicated_reserve try_reserve occupied_slots get_stats
dedicated_slot_iff cfg p d = (
  λ h. ground (arith, count_if-le-length (λ c. c.is_busy) p.contexts),
  λ h. ground (arith, count_if-le-length (λ c. c.is_busy) p.contexts),
)
