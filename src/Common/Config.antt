-- ===== src/Common/Config.antt =====
-- `ScopeConfig`, `SessionMode` and `ContextIsolation` of crates/common/src/config.rs. The record
-- has the fields that the worker's rules read; the messages of `validate` are constructors.
pub mod Modes
pub mod Validate
pub mod Diagnostics
pub mod Coordinator
use browser_hive_rs.Base.{
  ℕ, ◌<◌, ◌-◌, ◌+◌, Bool, true, false, ◌&&◌, ◌||◌, not, List, [], ◌∷◌, ◌++◌, map, Option, none,
  some, ltb, leb, ◌==◌, if◌then◌else◌,
}
use browser_hive_rs.Base.Text.{Text, codes, text_eq}
use browser_hive_rs.Base.Result.{Result, ok, err, ◌>>◌, ◌>>=◌}
use browser_hive_rs.Common.Lifecycle.{ContextLifecycleConfig, RotationStrategy}

pub data SessionMode : Type 0 where
  always_new reusable dedicated : SessionMode

pub data ContextIsolation : Type 0 where
  shared isolated : ContextIsolation

-- `min_contexts` and `max_contexts` are `u16`. `assigns_proxy_host_per_context` is the answer of
-- the scope's `ProxyProvider`.
pub record ScopeConfig : Type 0 where
  pub name : Text
  pub min_contexts : ℕ
  pub max_contexts : ℕ
  pub session_mode : SessionMode
  pub lifecycle : ContextLifecycleConfig
  pub context_isolation : ContextIsolation
  pub destroy_session_on_block : Bool
  pub block_quarantine : ℕ
  pub close_tab_after_request : Bool
  pub assigns_proxy_host_per_context : Bool

unfoldable pub as_str : SessionMode → Text
as_str SessionMode.always_new = codes "always_new"
as_str SessionMode.reusable = codes "reusable"
as_str SessionMode.dedicated = codes "dedicated"

unfoldable pub returns_session_id : SessionMode → Bool
returns_session_id SessionMode.dedicated = true
returns_session_id _ = false

-- `to_lowercase`. Outside ASCII it makes an ASCII letter of one character only, the Kelvin sign,
-- and a `k` occurs in none of the accepted values.
to_lower_char : ℕ → ℕ
to_lower_char c = if leb b'A' c && leb c b'Z' then c + 32 else c

pub to_lowercase : Text → Text
unfolding to_lower_char
to_lowercase = map to_lower_char

unfoldable pub session_mode_from_str : Text → Option SessionMode
unfolding to_lowercase as_str
session_mode_from_str s =
    let t = to_lowercase s in
    if text_eq t (codes "always_new")
    then some SessionMode.always_new
    else (if text_eq t (codes "reusable")
        then some SessionMode.reusable
        else (if text_eq t (codes "dedicated") then some SessionMode.dedicated else none))

unfoldable pub context_isolation_from_str : Text → Option ContextIsolation
unfolding to_lowercase
context_isolation_from_str s =
    let t = to_lowercase s in
    if text_eq t (codes "shared")
    then some ContextIsolation.shared
    else (if text_eq t (codes "isolated") then some ContextIsolation.isolated else none)

-- The tests `mode == SessionMode::…` and `matches!(strategy, …)`.
abbrev pub is_always_new : SessionMode → Bool
is_always_new SessionMode.always_new = true
is_always_new _ = false

abbrev pub is_reusable : SessionMode → Bool
is_reusable SessionMode.reusable = true
is_reusable _ = false

abbrev pub is_dedicated : SessionMode → Bool
is_dedicated SessionMode.dedicated = true
is_dedicated _ = false

abbrev pub is_shared : ContextIsolation → Bool
is_shared ContextIsolation.shared = true
is_shared ContextIsolation.isolated = false

abbrev pub is_hybrid : RotationStrategy → Bool
is_hybrid RotationStrategy.hybrid = true
is_hybrid _ = false

pub data ConfigError : Type 0 where
  no_contexts min_exceeds_max dedicated_needs_isolation dedicated_needs_hybrid : ConfigError
  lifetime_below_idle_time : ConfigError

pub data Warning : Type 0 where
  precreated_unused lifecycle_ignored thresholds_ignored quarantine_ignored : Warning
  close_tab_ignored one_exit_ip destroy_session_ignored : Warning

abbrev ensure : Bool → ConfigError → Result ConfigError (Unit {0})
ensure true e = err e
ensure false e = ok tt

-- `anyhow::bail!` under each test, in the source's order.
check_errors : ScopeConfig → Result ConfigError (Unit {0})
check_errors c = do
  ensure (max_contexts == 0) ConfigError.no_contexts
  ensure (ltb max_contexts min_contexts) ConfigError.min_exceeds_max
  ensure (is_dedicated session_mode && is_shared context_isolation)
      ConfigError.dedicated_needs_isolation
  ensure (is_dedicated session_mode && not (is_hybrid lifecycle.rotation_strategy))
      ConfigError.dedicated_needs_hybrid
  ensure (not (is_always_new session_mode) && ltb lifecycle.max_lifetime lifecycle.max_idle_time)
      ConfigError.lifetime_below_idle_time
  where
    open c use {max_contexts, min_contexts, session_mode, context_isolation, lifecycle}

abbrev warn_if : Bool → Warning → List Warning
warn_if true w = w ∷ []
warn_if false w = []

pub collect_warnings : ScopeConfig → List Warning
collect_warnings c =
    warn_if (ltb 0 min_contexts && not (is_reusable session_mode)) Warning.precreated_unused
    ++ (warn_if (is_always_new session_mode) Warning.lifecycle_ignored
        ++ (warn_if (is_reusable session_mode && not (is_hybrid lifecycle.rotation_strategy))
              Warning.thresholds_ignored
            ++ (warn_if (not (block_quarantine == 0) && not (is_reusable session_mode))
                  Warning.quarantine_ignored
                ++ (warn_if (close_tab_after_request && not (is_reusable session_mode))
                      Warning.close_tab_ignored
                    ++ (warn_if
                          (is_reusable session_mode
                            && (ltb min_contexts max_contexts && assigns_proxy_host_per_context))
                          Warning.one_exit_ip
                        ++ warn_if (destroy_session_on_block && not (is_dedicated session_mode))
                            Warning.destroy_session_ignored)))))
  where
    open c use {
      min_contexts, max_contexts, session_mode, lifecycle, block_quarantine,
      close_tab_after_request, assigns_proxy_host_per_context, destroy_session_on_block,
    }

unfoldable pub validate : ScopeConfig → Result ConfigError (List Warning)
unfolding check_errors collect_warnings
validate c = do check_errors c; ok (collect_warnings c)
