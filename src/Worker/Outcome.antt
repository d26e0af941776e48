-- ===== src/Worker/Outcome.antt =====
-- What a finished attempt means, in crates/worker/src/service.rs: the error code and the message of
-- the response, from what the navigation, the wait and the listeners saw. The codes are those of
-- crates/proto/proto/worker.proto.
pub mod Failures
pub mod Classify
use browser_hive_rs.Base.{
  ℕ, ◌+◌, ◌-◌, ◌%◌, Bool, true, false, not, ◌&&◌, ◌||◌, List, [], ◌∷◌, ◌++◌, map, Option, none,
  some, is_some, ltb, leb, ◌==◌, if◌then◌else◌, any, length, u64_mod,
}
use browser_hive_rs.Base.Text.{Text, codes, text_eq, text_le}
use browser_hive_rs.Base.Map.{Map, lookup, contains_key}
use browser_hive_rs.Base.Result.{Result, ok, err}
use browser_hive_rs.Base.Strings.{contains, to_ascii_lowercase, join}
use browser_hive_rs.Base.Strings.Decimal.{show}
use browser_hive_rs.Common.Url.{Url, UrlLibrary}

pub data ErrorCode : Type 0 where
  no_error browser_error network_error context_creation_failed terminating : ErrorCode
  proxy_error capacity_exhausted page_load_incomplete invalid_url : ErrorCode
  session_not_found scope_not_found session_busy timeout_browser : ErrorCode
  selector_not_found skip_selector_found redirect_to_another_domain unknown : ErrorCode

unfoldable pub code : ErrorCode → ℕ
code ErrorCode.no_error = 0
code ErrorCode.browser_error = 5003
code ErrorCode.network_error = 5004
code ErrorCode.context_creation_failed = 5005
code ErrorCode.terminating = 5006
code ErrorCode.proxy_error = 5007
code ErrorCode.capacity_exhausted = 5008
code ErrorCode.page_load_incomplete = 5009
code ErrorCode.invalid_url = 4001
code ErrorCode.session_not_found = 4002
code ErrorCode.scope_not_found = 4003
code ErrorCode.session_busy = 4004
code ErrorCode.timeout_browser = 4041
code ErrorCode.selector_not_found = 4042
code ErrorCode.skip_selector_found = 4043
code ErrorCode.redirect_to_another_domain = 4050
code ErrorCode.unknown = 9999

unfoldable pub counts_as_failure : ℕ → Bool
counts_as_failure c =
    if c == code ErrorCode.capacity_exhausted then false else leb 5000 c && ltb c 6000

-- `EARLY_EXIT_STATUS_CODES` of crates/common/src/wait_strategy.rs.
unfoldable pub should_exit_early : ℕ → Bool
should_exit_early status = any (λ c. c == status) (403 ∷ 429 ∷ [])

abbrev proxy_errors : List Text
proxy_errors =
    codes "ERR_TUNNEL_CONNECTION_FAILED"
    ∷ codes "ERR_PROXY_CONNECTION_FAILED"
    ∷ codes "ERR_PROXY_AUTH_UNSUPPORTED"
    ∷ codes "ERR_PROXY_CERTIFICATE_INVALID"
    ∷ codes "ERR_UNEXPECTED_PROXY_AUTH"
    ∷ codes "ERR_MANDATORY_PROXY_CONFIGURATION_FAILED"
    ∷ codes "ERR_SOCKS_CONNECTION_FAILED"
    ∷ codes "ERR_SOCKS_CONNECTION_HOST_UNREACHABLE"
    ∷ []

unfoldable pub is_proxy_error : Text → Bool
is_proxy_error error_text = any (contains error_text) proxy_errors

unfoldable pub is_dead_browser_error : Text → Bool
is_dead_browser_error error =
    contains error (codes "connection is closed") || contains error (codes "No such process")

unfoldable pub is_dead_tab_error : Text → Bool
is_dead_tab_error error = contains error (codes "No session with given id")

-- The registrable domain of the page that was reached, where it is another than the requested one.
abbrev domain_of : UrlLibrary → Text → Option Text
domain_of lib url = elim (lib.parse_url url) [ none ↦ none | some u ↦ known u.host ]
  where
    known : Option Text → Option Text
    known none = none
    known (some h) = lib.domain_str (to_ascii_lowercase h)

abbrev differing : Option Text → Option Text → Option Text
differing (some requested) (some final) = if text_eq requested final then none else some final
differing _ _ = none

unfoldable pub cross_site_redirect_target : UrlLibrary → Text → Text → Option Text
cross_site_redirect_target lib requested_url final_url =
    differing (domain_of lib requested_url) (domain_of lib final_url)

-- `page_load_incomplete`, from the verdict of the tracker.
unfoldable pub load_message : List Text × ℕ → Text → Option Text
unfolding join
load_message (listed, total) selector_message =
    if total == 0
    then none
    else some (
        selector_message
        ++ (codes " — page load incomplete: "
            ++ (join (codes "; ") listed
                ++ (if ltb (length listed) total
                    then codes " (+" ++ (show (total - length listed) ++ codes " more)")
                    else []))))

pub data WaitResult : Type 0 where
  success skip_found wait_not_found : WaitResult

-- What an attempt that was not broken off has seen. `proxy_failures` is the count and the summary.
pub record Observed : Type 0 where
  pub url : Text
  pub final_url : Text
  pub navigation : Result Text (Unit {0})
  pub wait_result : Result Text WaitResult
  pub wait_selector : Text
  pub skip_selector : Text
  pub strategy_name : Text
  pub proxy_failures : ℕ × Text
  pub verdict : List Text × ℕ

-- Success, message and code.
abbrev pub Verdict : Type 0
Verdict = Bool × Text × ErrorCode

abbrev pub waited : Observed → Result Text WaitResult → Verdict
waited o (ok WaitResult.success) = (true, [], ErrorCode.no_error)
waited o (ok WaitResult.skip_found) = (
  false,
  codes "Skip selector '" ++ (o.skip_selector ++ codes "' was found"),
  ErrorCode.skip_selector_found,
)
waited o (ok WaitResult.wait_not_found) = (
  false,
  codes "Wait selector '" ++ (o.wait_selector ++ codes "' was not found within timeout"),
  ErrorCode.selector_not_found,
)
waited o (err e) = (
  false,
  codes "Wait strategy '" ++ (o.strategy_name ++ (codes "' failed: " ++ e)),
  ErrorCode.timeout_browser,
)

abbrev pub reached : Observed → Option Text → Verdict
reached o none = waited o o.wait_result
reached o (some target) = (
  false,
  codes "Redirected to another domain: "
      ++ (o.final_url ++ (codes " (from " ++ (o.url ++ codes ")"))),
  ErrorCode.redirect_to_another_domain,
)

-- Navigation error before redirect before wait result.
unfoldable pub first_verdict : UrlLibrary → Observed → Verdict
first_verdict lib o = elim o.navigation [
  | err e ↦
      if is_proxy_error e
      then (false, codes "Proxy/tunnel failure while navigating: " ++ e, ErrorCode.proxy_error)
      else (false, codes "Failed to navigate to URL: " ++ e, ErrorCode.network_error)
  | ok u ↦ reached o (cross_site_redirect_target lib o.url o.final_url)
]

abbrev pub may_be_proxy : ErrorCode → Bool
may_be_proxy ErrorCode.selector_not_found = true
may_be_proxy ErrorCode.timeout_browser = true
may_be_proxy _ = false

-- Resources lost to the proxy explain a missing selector and a timeout.
unfoldable pub blame_proxy : ℕ × Text → Verdict → Verdict
blame_proxy (count, summary) (done, message, c) =
    if ltb 0 count && may_be_proxy c
    then (
      done,
      message
          ++ (codes " — "
              ++ (show count
                  ++ (codes " resource load(s) failed with a proxy/tunnel error: " ++ summary))),
      ErrorCode.proxy_error,
    )
    else (done, message, c)

abbrev pub is_selector_not_found : ErrorCode → Bool
is_selector_not_found ErrorCode.selector_not_found = true
is_selector_not_found _ = false

-- A selector that is missing from a page that never finished loading.
unfoldable pub blame_load : List Text × ℕ → Verdict → Verdict
unfolding load_message
blame_load verdict (done, message, c) =
    if is_selector_not_found c
    then elim (load_message verdict message) [
      | some m ↦ (done, m, ErrorCode.page_load_incomplete)
      | none ↦ (done, message, c)
    ]
    else (done, message, c)

unfoldable pub classify : UrlLibrary → Observed → Verdict
classify lib o = blame_load o.verdict (blame_proxy o.proxy_failures (first_verdict lib o))
