-- ===== src/Common/Lifecycle.antt =====
-- `ContextLifecycleConfig` of crates/common/src/config.rs. Durations are nanoseconds.
use browser_hive_rs.Base.{ℕ, Bool, ◌||◌, ltb, leb}

pub data RotationStrategy : Type 0 where
  time_based_only request_based_only hybrid : RotationStrategy

pub record ContextLifecycleConfig : Type 0 where
  pub max_lifetime : ℕ
  pub max_requests : ℕ
  pub max_cache_size_mb : ℕ
  pub max_idle_time : ℕ
  pub rotation_strategy : RotationStrategy

used_up_by : RotationStrategy → Bool → Bool → Bool
used_up_by RotationStrategy.time_based_only too_old too_many = too_old
used_up_by RotationStrategy.request_based_only too_old too_many = too_many
used_up_by RotationStrategy.hybrid too_old too_many = too_old || too_many

unfoldable pub is_used_up : ContextLifecycleConfig → ℕ → ℕ → Bool
unfolding used_up_by
is_used_up config age requests =
    let too_old = ltb config.max_lifetime age in
    let too_many = leb config.max_requests requests in
    used_up_by config.rotation_strategy too_old too_many
