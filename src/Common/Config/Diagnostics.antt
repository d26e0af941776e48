-- ===== src/Common/Config/Diagnostics.antt =====
-- `DiagnosticsMode` and `DiagnosticsConfig` of crates/common/src/config.rs: which requests may have
-- their diagnostics captured and logged. `env` stands for `std::env::var(name).ok()`.
pub mod Domains
use browser_hive_rs.Base.{
  ℕ, ◌+◌, ◌-◌, ◌^◌, ◌<◌, Bool, true, false, not, ◌&&◌, ◌||◌, List, [], ◌∷◌, ◌++◌, map, Option, none,
  some, ltb, ◌==◌, if◌then◌else◌, length, get_elem?, is_empty, any, filter, unwrap_or, ℤ, int_eq,
  u64_mod,
}
use browser_hive_rs.Base.Text.{Text, codes, text_eq}
use browser_hive_rs.Base.Strings.{
  trim, trim_start_matches, trim_end_matches, split, ends_with, to_ascii_lowercase,
}
use browser_hive_rs.Base.Strings.Decimal.{parse, parse_i32}
use browser_hive_rs.Common.Url.{Url, UrlLibrary}
use browser_hive_rs.Common.Config.{to_lowercase}

abbrev default_diagnostics_max_entries : ℕ
default_diagnostics_max_entries = 20

abbrev default_diagnostics_max_per_minute : ℕ
default_diagnostics_max_per_minute = 10

pub data DiagnosticsMode : Type 0 where
  off on_error always : DiagnosticsMode

unfoldable pub diagnostics_mode_from_str : Text → Option DiagnosticsMode
unfolding to_lowercase
diagnostics_mode_from_str s =
    let is_one = any (text_eq (to_lowercase s)) in
    if is_one (codes "off" ∷ codes "never" ∷ [])
    then some DiagnosticsMode.off
    else (if is_one (codes "on_error" ∷ codes "onerror" ∷ codes "error" ∷ [])
        then some DiagnosticsMode.on_error
        else (if is_one (codes "always" ∷ []) then some DiagnosticsMode.always else none))

pub record DiagnosticsConfig : Type 0 where
  pub enabled : Bool
  pub mode : DiagnosticsMode
  pub domains : List Text
  pub error_codes : List ℤ
  pub max_entries : ℕ
  pub max_per_minute : ℕ
  pub capture_console : Bool

abbrev pub default : DiagnosticsConfig
default = record {
  enabled = false;
  mode = DiagnosticsMode.on_error;
  domains = [];
  error_codes = [];
  max_entries = default_diagnostics_max_entries;
  max_per_minute = default_diagnostics_max_per_minute;
  capture_console = false;
}

abbrev is_dot : ℕ → Bool
is_dot c = c == b'.'

abbrev is_comma : ℕ → Bool
is_comma c = c == b','

unfoldable pub parse_domain_list : Text → List Text
parse_domain_list raw =
    filter (λ d. not (is_empty d))
      (map (λ d. to_ascii_lowercase (trim_start_matches is_dot (trim d))) (split is_comma raw))

abbrev keep_some {ℓ} : {A : Type ℓ} → List (Option A) → List A
keep_some [] = []
keep_some (none ∷ xs) = keep_some xs
keep_some (some x ∷ xs) = x ∷ keep_some xs

unfoldable pub parse_error_codes : Text → List ℤ
parse_error_codes raw =
    keep_some (map parse_i32 (filter (λ c. not (is_empty c)) (map trim (split is_comma raw))))

abbrev pub parse_bool : Text → Option Bool
parse_bool s =
    if text_eq s (codes "true")
    then some true
    else (if text_eq s (codes "false") then some false else none)

abbrev and_then {ℓ} : {A : Type ℓ} → Option Text → (Text → Option A) → Option A
and_then none f = none
and_then (some s) f = f s

abbrev map_or {ℓ} : {A : Type ℓ} → Option Text → (Text → A) → A → A
map_or none f d = d
map_or (some s) f d = f s

unfoldable pub from_env : (Text → Option Text) → DiagnosticsConfig
from_env env = record {
  enabled =
      unwrap_or (and_then (env (codes "WORKER_ENABLE_BROWSER_DIAGNOSTICS")) parse_bool)
        default.enabled;
  mode =
      unwrap_or (and_then (env (codes "WORKER_DIAGNOSTICS_MODE")) diagnostics_mode_from_str)
        default.mode;
  domains = map_or (env (codes "WORKER_DIAGNOSTICS_DOMAINS")) parse_domain_list default.domains;
  error_codes =
      map_or (env (codes "WORKER_DIAGNOSTICS_ERROR_CODES")) parse_error_codes default.error_codes;
  max_entries =
      unwrap_or (and_then (env (codes "WORKER_DIAGNOSTICS_MAX_ENTRIES")) (parse u64_mod))
        default.max_entries;
  max_per_minute =
      unwrap_or (and_then (env (codes "WORKER_DIAGNOSTICS_MAX_PER_MINUTE")) (parse (2 ^ 32)))
        default.max_per_minute;
  capture_console =
      unwrap_or (and_then (env (codes "WORKER_DIAGNOSTICS_CONSOLE")) parse_bool)
        default.capture_console;
}

abbrev pub is_off : DiagnosticsMode → Bool
is_off DiagnosticsMode.off = true
is_off _ = false

abbrev pub is_always : DiagnosticsMode → Bool
is_always DiagnosticsMode.always = true
is_always _ = false

unfoldable pub logs_error_code : DiagnosticsConfig → ℤ → Bool
logs_error_code config code =
    is_always config.mode || (is_empty config.error_codes || any (int_eq code) config.error_codes)

abbrev pub is_dot_at : Option ℕ → Bool
is_dot_at none = false
is_dot_at (some c) = is_dot c

unfoldable pub host_matches : Text → Text → Bool
unfolding ends_with
host_matches host domain =
    if text_eq host domain
    then true
    else ltb (length domain) (length host)
      && (ends_with host domain && is_dot_at (get_elem? host (length host - length domain - 1)))

abbrev normal_host : UrlLibrary → Text → Option Text
normal_host lib url = elim (lib.parse_url url) [ none ↦ none | some u ↦ normal u.host ]
  where
    normal : Option Text → Option Text
    normal none = none
    normal (some h) = some (to_ascii_lowercase (trim_end_matches is_dot h))

unfoldable pub is_active_for : UrlLibrary → DiagnosticsConfig → Text → Bool
unfolding host_matches
is_active_for lib config url =
    if not config.enabled || is_off config.mode
    then false
    else (if is_empty config.domains then true else elim (normal_host lib url) [
      | none ↦ false
      | some host ↦ any (host_matches host) config.domains
    ])
