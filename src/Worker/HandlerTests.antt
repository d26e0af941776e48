-- ===== src/Worker/HandlerTests.antt =====
-- Attempts and requests on a pool of one dedicated context.
use browser_hive_rs.Base.{
  ◌+◌, ◌≤◌, ◌≡◌, ◌≢◌, ◌↔◌, refl, true, false, List, [], ◌∷◌, none, some, arith, length,
}
use browser_hive_rs.Base.Text.{Text, codes}
use browser_hive_rs.Base.Result.{ok, err}
use browser_hive_rs.Base.Strings.Decimal.{show}
use browser_hive_rs.Common.Tests.{blocked_context, dedicated_scope}
use browser_hive_rs.Worker.Context.{BrowserContext}
use browser_hive_rs.Worker.Pool.{BrowserPool, Creation}
use browser_hive_rs.Worker.Outcome.{ErrorCode, WaitResult, Observed, classify}
use browser_hive_rs.Worker.Outcome.Classify.{IsReached, classify_iff}
use browser_hive_rs.Worker.Attempt.{Shared, Setting}
use browser_hive_rs.Worker.Attempt.Phases.{CallResult, Race, Script}
use browser_hive_rs.Worker.Attempt.Phases.Finish.{scrape_page_internal}
use browser_hive_rs.Worker.Attempt.Address.{IsHonest}
use browser_hive_rs.Worker.Attempt.Address.Honest.{scrape_page_internal-IsHonest}
use browser_hive_rs.Worker.Handler.{Request, Outside, Counters, scrape_page, success_counts, leave}
use browser_hive_rs.Worker.Acquisition.{Acquiring, Recovery}
use browser_hive_rs.Worker.Handler.Counting.{
  run_requests, no_requests, requests_are_counted, scrape_page-counters, leaves, admitted,
}
use browser_hive_rs.Worker.PageTests.{library}

abbrev context : BrowserContext
context = record {
  metadata = blocked_context;
  tab = some 1;
  cdp_context_id = none;
  proxy_host = none;
  site = none;
}

abbrev pool : BrowserPool
pool = record {
  contexts = context ∷ [];
  pending_creations = 0;
  total_contexts_created = 1;
  total_contexts_recycled = 0;
  released = [];
}

abbrev shared : Shared
shared = record { pool = pool; pool_generation = 0 }

abbrev setting : Setting
setting = record { scope = dedicated_scope; library = library; to_string = show }

abbrev page : Text
page = codes "https://a.com/list"

-- A page that answers 403 at once; the context is destroyed for it.
abbrev blocking : Script
blocking = record {
  start_time = 10;
  end_time = 40;
  assigned_proxy = false;
  supports_per_context_proxy = false;
  create_tab = CallResult.done 2;
  new_pool = err [];
  needs_fetch = false;
  has_credentials = false;
  enable_fetch = CallResult.done tt;
  recreate_tab = CallResult.done 3;
  enable_fetch_again = CallResult.done tt;
  authenticated = false;
  network_stalled = false;
  capture_stalled = false;
  navigation = Race.finished (ok tt);
  wait_config = ok tt;
  wait = Race.finished (ok WaitResult.success);
  content = Race.finished (ok (codes "blocked"));
  later = λ w. w;
  observed_status = 403;
  observed_url = page;
  response_headers = [];
  status_fallback = CallResult.stalled;
  tab_url = page;
  wait_selector = [];
  skip_selector = [];
  strategy_name = codes "timeout";
  proxy_failures = (0, []);
  verdict = ([], 0);
}

no_new_pool : (p : BrowserPool) → blocking.new_pool ≡ ok p → ⊥
no_new_pool p e = cc e

scrape_page_internal-IsHonest_example :
    IsHonest show context.id (scrape_page_internal setting page blocking context false shared)
scrape_page_internal-IsHonest_example =
    scrape_page_internal-IsHonest setting page blocking context refl
      (λ p e. absurd (no_new_pool p e)) (λ w. refl) false shared refl

abbrev seen : Observed
seen = record {
  url = page;
  final_url = page;
  navigation = ok tt;
  wait_result = ok WaitResult.wait_not_found;
  wait_selector = codes "#list";
  skip_selector = [];
  strategy_name = codes "selector";
  proxy_failures = (0, []);
  verdict = (codes "load event never fired" ∷ [], 1);
}

classify_iff_example :
    (((classify library seen).0 ≡ true)
      ↔ (IsReached library seen × (seen.wait_result ≡ ok WaitResult.success)))
    × (((classify library seen).2 ≡ ErrorCode.page_load_incomplete) ↔ (
        IsReached library seen
        × (seen.wait_result ≡ ok WaitResult.wait_not_found)
        × (seen.proxy_failures.0 ≡ 0)
        × (seen.verdict.1 ≢ 0)))
classify_iff_example = classify_iff library seen

abbrev kinds : List Text
kinds = codes "Script" ∷ codes "Image" ∷ codes "Script" ∷ []

abbrev created : Creation
created = record {
  id = 9;
  now = 20;
  context_proxy_host = none;
  launch_proxy_host = none;
  routes_per_context = false;
  built = ok (4, none);
}

abbrev acquiring : Acquiring
acquiring = record { now = 20; later = 21; creation = created; before = λ p. p; during = λ p. p }

abbrev recovery : Recovery
recovery = record { first = acquiring; new_pool = err []; second = acquiring }

abbrev outside : Outside
outside = record {
  is_ready = true;
  is_cancelled = false;
  now = 20;
  acquisition = recovery;
  attempt = λ c. blocking;
  retry_acquisition = recovery;
  retry = λ c. blocking;
}

abbrev request : Request
request = record { url = page; context_id = []; country_code = [] }

abbrev counters : Counters
counters = record { active_requests = 0; total_requests = 3; failed_requests = 1 }

scrape_page-counters_example :
    (scrape_page setting outside request counters shared).counters
    ≡ leave (
        leaves counters
          (admitted setting outside request)
          (scrape_page setting outside request counters shared).result)
scrape_page-counters_example = scrape_page-counters setting outside request counters shared

abbrev requests : List (Outside × Request × Shared)
requests = (outside, request, shared) ∷ (outside, request, shared) ∷ []

requests_are_counted_example :
    ((run_requests setting requests no_requests).active_requests ≡ 0)
    × ((run_requests setting requests no_requests).total_requests ≤ length requests)
    × ((success_counts (run_requests setting requests no_requests)).0
          + (run_requests setting requests no_requests).failed_requests
        ≡ (run_requests setting requests no_requests).total_requests)
requests_are_counted_example = requests_are_counted setting requests (omega arith)
