-- ===== src/Common/Tests.antt =====
-- Concrete metadata, configurations and runs of the theorems on them.
use browser_hive_rs.Base.{
  ◌≤◌, ◌≡◌, ◌≢◌, ◌↔◌, ◌⊎◌, refl, true, false, some, [], ◌∷◌, arith, ltb, length, filter, All,
}
use browser_hive_rs.Base.Text.{Text, codes, text_eq, text_eq_iff}
use browser_hive_rs.Base.Map.{lookup, IsMap}
use browser_hive_rs.Base.Result.{ok}
use browser_hive_rs.Common.Lifecycle.{RotationStrategy, ContextLifecycleConfig}
use browser_hive_rs.Common.Metadata.{
  BrowserContextMetadata, max_blocked_origins, quarantine_origin, quarantined_until,
}
use browser_hive_rs.Common.Metadata.Quarantine.{IsBounded, quarantine_origin_keeps_others}
use browser_hive_rs.Common.Config.{
  SessionMode, ContextIsolation, ScopeConfig, validate, collect_warnings,
}
use browser_hive_rs.Common.Config.Validate.{CanServe, validate_iff}

abbrev pub origin_a : Text
origin_a = codes "a.com"

abbrev pub origin_b : Text
origin_b = codes "b.com"

-- A context that origin a blocks until 100.
abbrev pub blocked_context : BrowserContextMetadata
blocked_context = record {
  id = 7;
  created_at = 0;
  last_used_at = 5;
  total_requests = 3;
  cache_size_mb = 0;
  is_busy = false;
  blocked_origins = (origin_a, 100) ∷ [];
}

blocked_context-IsBounded : IsBounded blocked_context
unfolding IsMap lookup
blocked_context-IsBounded = record { keyed = (refl, tt); capped = omega arith }

abbrev pub lifecycle : ContextLifecycleConfig
lifecycle = record {
  max_lifetime = 1000;
  max_requests = 10;
  max_cache_size_mb = 500;
  max_idle_time = 300;
  rotation_strategy = RotationStrategy.hybrid;
}

abbrev pub dedicated_scope : ScopeConfig
dedicated_scope = record {
  name = codes "scope";
  min_contexts = 0;
  max_contexts = 2;
  session_mode = SessionMode.dedicated;
  lifecycle = lifecycle;
  context_isolation = ContextIsolation.isolated;
  destroy_session_on_block = true;
  block_quarantine = 0;
  close_tab_after_request = false;
  assigns_proxy_host_per_context = false;
}

abbrev pub reusable_scope : ScopeConfig
reusable_scope = record dedicated_scope { session_mode = SessionMode.reusable }

origins_differ : origin_a ≢ origin_b
unfolding text_eq
origins_differ e = cc ((text_eq_iff origin_a origin_b).1 e)

quarantine_origin_keeps_others_example :
    ((quarantined_until origin_a 20 (quarantine_origin origin_b 50 20 blocked_context)).0
      ≡ some 100)
    ⊎ (max_blocked_origins ≤ length (filter (λ e. ltb 20 e.1) blocked_context.blocked_origins))
      × All (λ e. 100 ≤ e.1) (filter (λ e. ltb 20 e.1) blocked_context.blocked_origins)
unfolding quarantined_until lookup text_eq
quarantine_origin_keeps_others_example =
    quarantine_origin_keeps_others origin_b origin_a 50 20 100 blocked_context
      blocked_context-IsBounded origins_differ refl

validate_iff_example :
    (validate dedicated_scope ≡ ok (collect_warnings dedicated_scope)) ↔ CanServe dedicated_scope
validate_iff_example = validate_iff dedicated_scope
