-- ===== src/Proto.antt =====
-- The protocol between client, coordinator and worker (crates/proto).
pub mod Wait
