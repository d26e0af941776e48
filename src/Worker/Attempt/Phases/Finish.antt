-- ===== src/Worker/Attempt/Phases/Finish.antt =====
-- The end of `scrape_page_internal` in crates/worker/src/service.rs, from the page's content to the
-- response, and the whole of the function with its guards.
use browser_hive_rs.Base.{
  ℕ, Bool, true, false, ◌&&◌, [], none, some, ltb, ◌||◌, if◌then◌else◌, is_empty,
}
use browser_hive_rs.Base.Text.{Text}
use browser_hive_rs.Base.Result.{Result, ok, err}
use browser_hive_rs.Common.Config.{is_always_new, is_dedicated, is_reusable}
use browser_hive_rs.Common.Metadata
use browser_hive_rs.Worker.Context.{BrowserContext}
use browser_hive_rs.Worker.Pool.Acquire.{destroy_context}
use browser_hive_rs.Worker.Pool.Guard.{guard_drop}
use browser_hive_rs.Worker.Outcome.{
  ErrorCode, Verdict, Observed, WaitResult, classify, code, should_exit_early,
}
use browser_hive_rs.Worker.Attempt.{
  Answer, Shared, Setting, Step, ◌>>=◌, ◌>>◌, pure, perform, addressable_context_id,
  quarantine_origin, on_pool, discard_stuck_context,
}
use browser_hive_rs.Worker.Attempt.Phases.{
  Script, CallResult, change, claim, check_url, update_usage, check_proxy, ensure_tab,
  prepare_fetch, start_listeners, race, check_wait, wait_for_page, get_content,
}

-- What the page came to: the navigation, the wait and the content.
abbrev pub Page : Type 0
Page = Result Text (Unit {0}) × Result Text WaitResult × Text

module _ (s : Setting) (url : Text) (r : Script) (c : BrowserContext) where
  -- Up to the content.
  unfoldable pub load_page : Step Page
  unfolding check_proxy ensure_tab prepare_fetch start_listeners race check_wait wait_for_page
      get_content
  load_page = do
    check_proxy s r c
    ensure_tab s r c
    prepare_fetch s r c
    start_listeners s r c
    navigation ← race s r c ErrorCode.timeout_browser r.navigation
    check_wait s r c
    waited ← wait_for_page s r c navigation
    content ← get_content s r c
    pure (navigation, waited, content)

  abbrev pub early_destroy : Step (Unit {0})
  early_destroy =
      perform
        (λ w. if is_always_new s.scope.session_mode then on_pool (destroy_context c.id) w else w)

  -- The status, and whether reading it cost the context.
  abbrev pub read_fallback : CallResult ℕ → Step (ℕ × Bool)
  read_fallback (CallResult.done n) = pure (n, false)
  read_fallback CallResult.stalled = perform (discard_stuck_context c.id) >> pure (0, true)
  read_fallback (CallResult.failed e) = pure (0, false)

  unfoldable pub read_status : Step (ℕ × Bool)
  unfolding discard_stuck_context
  read_status =
      if ltb 0 r.observed_status
      then pure (r.observed_status, false)
      else read_fallback r.status_fallback

  abbrev pub observed : Page → Observed
  observed (navigation, waited, content) = record {
    url = url;
    final_url = if is_empty r.observed_url then r.tab_url else r.observed_url;
    navigation = navigation;
    wait_result = waited;
    wait_selector = r.wait_selector;
    skip_selector = r.skip_selector;
    strategy_name = r.strategy_name;
    proxy_failures = r.proxy_failures;
    verdict = r.verdict;
  }

  abbrev pub quarantine_in : Text → BrowserContext → BrowserContext
  quarantine_in origin d = record d {
    metadata = Metadata.quarantine_origin origin s.scope.block_quarantine r.end_time d.metadata;
  }

  -- A refused `reusable` context is kept from the origin.
  unfoldable pub quarantine_blocked : ℕ → Shared → Shared
  unfolding quarantine_origin should_exit_early
  quarantine_blocked status w = elim (quarantine_origin s url) [
    | none ↦ w
    | some origin ↦ if should_exit_early status then change c.id (quarantine_in origin) w else w
  ]

  -- A blocked session is a finished session, where the scope says so.
  unfoldable pub session_destroyed : ℕ → Bool
  unfolding should_exit_early
  session_destroyed status =
      s.scope.destroy_session_on_block
      && (is_dedicated s.scope.session_mode && should_exit_early status)

  abbrev pub answer : Verdict → Text → ℕ → Bool → Answer
  answer v content status gone = record {
    success = v.0;
    status_code = status;
    content = content;
    error_code = code v.2;
    response_headers = r.response_headers;
    context_id = if gone then [] else addressable_context_id s c.id;
  }

  -- `gone` says that reading the status cost the context.
  abbrev pub after_status : Page → ℕ × Bool → Step Answer
  after_status page (status, gone) = do
    perform (quarantine_blocked status)
    perform (λ w. if session_destroyed status then on_pool (destroy_context c.id) w else w)
    pure (
        answer (classify s.library (observed page)) page.2 status
          (session_destroyed status || gone))

  unfoldable pub finish_page : Page → Step Answer
  unfolding read_status quarantine_blocked session_destroyed addressable_context_id
  finish_page page = do
    perform r.later
    early_destroy
    status ← read_status
    after_status page status

  abbrev pub close_tab : Shared → Shared
  close_tab w =
      if s.scope.close_tab_after_request && is_reusable s.scope.session_mode
      then change c.id (λ d. record d { tab = none }) w
      else w

  -- The guards' drops, in their order.
  unfoldable pub drop_guards : Shared → Shared
  unfolding guard_drop
  drop_guards w = on_pool (guard_drop c.id r.end_time) (close_tab w)

  abbrev pub guarded : Step Answer
  guarded = do check_url s r c url; update_usage s r c; page ← load_page; finish_page page

  abbrev pub settled : Result (Result Text Answer) Answer × Shared → Result Text Answer × Shared
  settled (ok a, w) = (ok a, w)
  settled (err e, w) = (e, w)

  abbrev pub after_claim :
      Result (Result Text Answer) (Unit {0}) × Shared → Result Text Answer × Shared
  after_claim (err e, w) = (e, w)
  after_claim (ok u, w) = let (a, v) = settled (guarded w) in (a, drop_guards v)

  unfoldable pub scrape_page_internal : Bool → Shared → Result Text Answer × Shared
  unfolding claim check_url update_usage load_page finish_page drop_guards
  scrape_page_internal claimed w = after_claim (claim s r c claimed w)
