-- ===== src/Worker/Attempt/Phases.antt =====
-- The steps of `scrape_page_internal` in crates/worker/src/service.rs, and the whole of it.
pub mod Finish
use browser_hive_rs.Base.{
  ℕ, ◌+◌, Bool, true, false, not, ◌&&◌, ◌||◌, List, [], ◌∷◌, map, Option, none, some, is_some, ltb,
  ◌==◌, if◌then◌else◌, is_empty, unwrap_or, fetch_add,
}
use browser_hive_rs.Base.Text.{Text, codes}
use browser_hive_rs.Base.Map.{Map}
use browser_hive_rs.Base.Result.{Result, ok, err}
use browser_hive_rs.Base.Strings.{contains}
use browser_hive_rs.Common.Config.{is_shared}
use browser_hive_rs.Worker.Context.{BrowserContext}
use browser_hive_rs.Worker.Pool.{BrowserPool}
use browser_hive_rs.Worker.Pool.Acquire.{destroy_context}
use browser_hive_rs.Worker.Pool.Guard.{guard_new}
use browser_hive_rs.Worker.Outcome.{ErrorCode, WaitResult, is_dead_browser_error, is_dead_tab_error}
use browser_hive_rs.Worker.Attempt.{
  Answer, Shared, Setting, Step, ◌>>=◌, ◌>>◌, pure, perform, stop, failure, addressable_context_id,
  has_domain, recreate_browser_pool, on_pool, discard_stuck_context,
}

-- A call of `cdp_call::bounded`, and what a `select!` over a task, the cancellation and a timer gives.
pub data CallResult {ℓ} (A : Type ℓ) : Type ℓ where
  done : A → CallResult A
  stalled : CallResult A
  failed : Text → CallResult A

pub data Race {ℓ} (A : Type ℓ) : Type ℓ where
  cancelled timed_out panicked : Race A
  finished : A → Race A

-- `needs_fetch` is `proxy_auth || !blocked_resource_types.is_empty()`; `network_stalled` and
-- `capture_stalled` are the stalls of `Network.enable` and of `start_capture`; `wait_config` is the
-- check of the wait timeout and the strategy; `later` is what other tasks do while the page loads.
pub record Script : Type 0 where
  pub start_time : ℕ
  pub end_time : ℕ
  pub assigned_proxy : Bool
  pub supports_per_context_proxy : Bool
  pub create_tab : CallResult ℕ
  pub new_pool : Result Text BrowserPool
  pub needs_fetch : Bool
  pub has_credentials : Bool
  pub enable_fetch : CallResult (Unit {0})
  pub recreate_tab : CallResult ℕ
  pub enable_fetch_again : CallResult (Unit {0})
  pub authenticated : Bool
  pub network_stalled : Bool
  pub capture_stalled : Bool
  pub navigation : Race (Result Text (Unit {0}))
  pub wait_config : Result Text (Unit {0})
  pub wait : Race (Result Text WaitResult)
  pub content : Race (Result Text Text)
  pub later : Shared → Shared
  pub observed_status : ℕ
  pub observed_url : Text
  pub response_headers : Map Text
  pub status_fallback : CallResult ℕ
  pub tab_url : Text
  pub wait_selector : Text
  pub skip_selector : Text
  pub strategy_name : Text
  pub proxy_failures : ℕ × Text
  pub verdict : List Text × ℕ

abbrev pub change : ℕ → (BrowserContext → BrowserContext) → Shared → Shared
change id f =
    on_pool (λ p. record p { contexts = map (λ c. if c.id == id then f c else c) p.contexts })

abbrev pub set_tab : Option ℕ → BrowserContext → BrowserContext
set_tab t c = record c { tab = t }

abbrev pub used : ℕ → BrowserContext → BrowserContext
used now c = record c {
  metadata = record c.metadata {
    last_used_at = now;
    total_requests = fetch_add c.metadata.total_requests 1;
  };
}

module _ (s : Setting) (r : Script) (c : BrowserContext) where
  -- The context stays: its id is told where it addresses a session.
  abbrev pub fail {ℓ} : {A : Type ℓ} → ErrorCode → Step A
  fail e = stop (ok (failure e (addressable_context_id s c.id)))

  -- The context is gone.
  abbrev pub fail_gone {ℓ} : {A : Type ℓ} → ErrorCode → Step A
  fail_gone e = stop (ok (failure e []))

  unfoldable pub stalled_call_response {ℓ} : {A : Type ℓ} → Step A
  unfolding discard_stuck_context
  stalled_call_response = perform (discard_stuck_context c.id) >> fail_gone ErrorCode.browser_error

  abbrev pub after_restart {ℓ} :
      {A : Type ℓ} → Bool × Shared → Result (Result Text Answer) A × Shared
  after_restart (true, v) = fail_gone ErrorCode.browser_error v
  after_restart (false, v) = fail ErrorCode.browser_error v

  -- `recreate_browser_pool`, and then `browser_restarted_response`.
  unfoldable pub restart_browser {ℓ} : {A : Type ℓ} → Step A
  unfolding recreate_browser_pool addressable_context_id
  restart_browser w = after_restart (recreate_browser_pool r.new_pool w)

  unfoldable pub claim : Bool → Step (Unit {0})
  unfolding guard_new addressable_context_id
  claim true w = (ok tt, w)
  claim false w =
      let (won, p) = guard_new c.id w.pool in
      if won then (ok tt, record w { pool = p }) else fail ErrorCode.session_busy w

  unfoldable pub check_url : Text → Step (Unit {0})
  unfolding has_domain addressable_context_id
  check_url url = if has_domain s.library url then pure tt else fail ErrorCode.invalid_url

  unfoldable pub update_usage : Step (Unit {0})
  update_usage = perform (change c.id (used r.start_time))

  unfoldable pub check_proxy : Step (Unit {0})
  unfolding addressable_context_id
  check_proxy =
      if not r.assigned_proxy && r.supports_per_context_proxy
      then fail ErrorCode.browser_error
      else pure tt

  abbrev pub uses_isolated_contexts : Bool
  uses_isolated_contexts = not (is_shared s.scope.context_isolation)

  abbrev pub keep_tab : CallResult ℕ → (Text → Step (Unit {0})) → Step (Unit {0})
  keep_tab (CallResult.done t) k = perform (change c.id (set_tab (some t)))
  keep_tab CallResult.stalled k = stalled_call_response
  keep_tab (CallResult.failed e) k = k e

  abbrev pub or_restart : Text → Step (Unit {0})
  or_restart e = if is_dead_browser_error e then restart_browser else fail ErrorCode.browser_error

  unfoldable pub ensure_tab : Step (Unit {0})
  unfolding stalled_call_response restart_browser destroy_context is_dead_browser_error
  ensure_tab =
      if is_some c.tab
      then pure tt
      else (if not (is_some c.cdp_context_id) && uses_isolated_contexts
          then perform (on_pool (destroy_context c.id)) >> fail_gone ErrorCode.browser_error
          else keep_tab r.create_tab or_restart)

  abbrev pub enabled_again : CallResult (Unit {0}) → Step (Unit {0})
  enabled_again (CallResult.done u) = pure tt
  enabled_again CallResult.stalled = stalled_call_response
  enabled_again (CallResult.failed e) = fail ErrorCode.browser_error

  abbrev pub enabled : CallResult (Unit {0}) → Step (Unit {0})
  enabled (CallResult.done u) = pure tt
  enabled CallResult.stalled = stalled_call_response
  enabled (CallResult.failed e) =
      if is_dead_tab_error e
      then keep_tab r.recreate_tab (λ _. fail ErrorCode.browser_error)
        >> enabled_again r.enable_fetch_again
      else (if contains e (codes "connection is closed")
          then keep_tab r.recreate_tab or_restart >> enabled_again r.enable_fetch_again
          else fail ErrorCode.browser_error)

  abbrev pub authenticate : Step (Unit {0})
  authenticate =
      if r.has_credentials && not r.authenticated then fail ErrorCode.browser_error else pure tt

  unfoldable pub prepare_fetch : Step (Unit {0})
  unfolding stalled_call_response restart_browser is_dead_browser_error is_dead_tab_error
  prepare_fetch = if r.needs_fetch then enabled r.enable_fetch >> authenticate else pure tt

  unfoldable pub start_listeners : Step (Unit {0})
  unfolding stalled_call_response
  start_listeners =
      if r.network_stalled || r.capture_stalled then stalled_call_response else pure tt

  -- The `select!` of each phase: `late` is the code after its hard timeout.
  unfoldable pub race {ℓ} : {A : Type ℓ} → ErrorCode → Race A → Step A
  unfolding discard_stuck_context addressable_context_id
  race late Race.cancelled = fail ErrorCode.terminating
  race late Race.timed_out = perform (discard_stuck_context c.id) >> fail_gone late
  race late Race.panicked = fail ErrorCode.browser_error
  race late (Race.finished a) = pure a

  unfoldable pub check_wait : Step (Unit {0})
  check_wait = elim r.wait_config [ ok u ↦ pure tt | err e ↦ stop (err e) ]

  unfoldable pub wait_for_page : Result Text (Unit {0}) → Step (Result Text WaitResult)
  unfolding race
  wait_for_page (ok u) = race ErrorCode.timeout_browser r.wait
  wait_for_page (err e) = pure (ok WaitResult.success)

  abbrev pub read_content : Result Text Text → Step Text
  read_content (ok t) = pure t
  read_content (err e) = fail ErrorCode.browser_error

  unfoldable pub get_content : Step Text
  unfolding race addressable_context_id
  get_content = race ErrorCode.browser_error r.content >>= read_content
