-- ===== src/Coordinator/Routing/Rotation.antt =====
-- The ties of `pick_most_free` (crates/coordinator/src/service.rs).
use browser_hive_rs.Base.{List}
