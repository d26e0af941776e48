-- ===== src/Common/Config/Validate.antt =====
-- `ScopeConfig::validate` (crates/common/src/config.rs).
use browser_hive_rs.Base.{◌≤◌, ◌<◌, ◌≡◌, ◌≢◌, ◌↔◌, ◌⊎◌, arith}
use browser_hive_rs.Base.Result.{ok}
use browser_hive_rs.Common.Lifecycle.{RotationStrategy}
use browser_hive_rs.Common.Config.{
  ScopeConfig, SessionMode, ContextIsolation, validate, collect_warnings,
}

pub record CanServe (c : ScopeConfig) : Type 0 where
  pub some_context : 0 < c.max_contexts
  pub min_fits : c.min_contexts ≤ c.max_contexts
  pub own_context :
      (c.session_mode ≢ SessionMode.dedicated) ⊎ (c.context_isolation ≡ ContextIsolation.isolated)
  pub idle_consulted :
      (c.session_mode ≢ SessionMode.dedicated)
      ⊎ (c.lifecycle.rotation_strategy ≡ RotationStrategy.hybrid)
  pub idle_reachable :
      (c.session_mode ≡ SessionMode.always_new)
      ⊎ (c.lifecycle.max_idle_time ≤ c.lifecycle.max_lifetime)

-- `validate` accepts a configuration, with its warnings, exactly when it has a context, its minimum
-- fits its maximum, a dedicated scope isolates contexts and rotates by both thresholds, and a
-- context can be idle long enough outside AlwaysNew.
pub validate_iff : (c : ScopeConfig) → (validate c ≡ ok (collect_warnings c)) ↔ CanServe c
unfolding validate
validate_iff c = (λ h. ground arith, λ h. ground arith)
