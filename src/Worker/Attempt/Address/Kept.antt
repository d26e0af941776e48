-- ===== src/Worker/Attempt/Address/Kept.antt =====
-- Every step of an attempt in crates/worker/src/service.rs keeps the context, or returns an answer
-- that is honest about it.
use browser_hive_rs.Base.{
  ℕ, ◌≡◌, refl, ◌∙◌, inl, inr, Bool, true, false, not, ◌&&◌, ◌||◌, some, is_some, fetch_add,
  Bool-cases,
}
use browser_hive_rs.Base.Text.{Text, codes}
use browser_hive_rs.Base.Result.{Result, ok, err, Result-cases}
use browser_hive_rs.Base.Strings.{contains}
use browser_hive_rs.Common.Config.{SessionMode, returns_session_id}
use browser_hive_rs.Worker.Context.{BrowserContext}
use browser_hive_rs.Worker.Pool.{BrowserPool}
use browser_hive_rs.Worker.Pool.Acquire.{destroy_context}
use browser_hive_rs.Worker.Pool.Guard.{guard_new}
use browser_hive_rs.Worker.Outcome.{ErrorCode, WaitResult, is_dead_browser_error, is_dead_tab_error}
use browser_hive_rs.Worker.Attempt.{
  Answer, Shared, Setting, Step, follow, addressable_context_id, recreate_browser_pool, on_pool,
  discard_stuck_context, has_domain,
}
use browser_hive_rs.Worker.Attempt.Phases.{
  Script, CallResult, Race, set_tab, used, fail, fail_gone, stalled_call_response, restart_browser,
  claim, check_url, update_usage, check_proxy, ensure_tab, keep_tab, or_restart, enabled,
  enabled_again, authenticate, prepare_fetch, start_listeners, race, check_wait, wait_for_page,
  read_content, get_content, uses_isolated_contexts,
}
use browser_hive_rs.Worker.Attempt.Address.{
  holds, alive, IsGood, follow-IsGood, destroy_context-gone, change-alive, guard_new-holds,
}

-- A `dedicated` scope, and a new pool that does not hold the context.
module _ (s : Setting) (r : Script) (c : BrowserContext)
    (dedicated : s.scope.session_mode ≡ SessionMode.dedicated)
    (fresh : (p : BrowserPool) → r.new_pool ≡ ok p → holds c.id p ≡ false) where
  abbrev Good {ℓ} : {A : Type ℓ} → Result (Result Text Answer) A × Shared → Type 0
  Good = IsGood s.to_string c.id

  pub address : addressable_context_id s c.id ≡ s.to_string c.id
  unfolding addressable_context_id returns_session_id
  address = rw (addressable_context_id, dedicated) refl

  fail-IsGood :
      (A : Type 0) (e : ErrorCode) (w : Shared)
      → alive c.id w ≡ true
      → Good (fail s r c {A = A} e w)
  fail-IsGood A e w h = rw (h, address) refl

  fail_gone-IsGood :
      (A : Type 0) (e : ErrorCode) (w : Shared)
      → alive c.id w ≡ false
      → Good (fail_gone s r c {A = A} e w)
  fail_gone-IsGood A e w h = rw h refl

  pub discarded : (w : Shared) → alive c.id (discard_stuck_context c.id w) ≡ false
  unfolding discard_stuck_context
  discarded w = destroy_context-gone c.id w.pool

  stalled-IsGood : (A : Type 0) (w : Shared) → Good (stalled_call_response s r c {A = A} w)
  unfolding stalled_call_response
  stalled-IsGood A w =
      fail_gone-IsGood A ErrorCode.browser_error (discard_stuck_context c.id w) (discarded w)

  abbrev replaced : BrowserPool → Shared → Shared
  replaced p w = record { pool = p; pool_generation = fetch_add w.pool_generation 1 }

  restart-IsGood :
      (A : Type 0) (w : Shared) → alive c.id w ≡ true → Good (restart_browser s r c {A = A} w)
  unfolding restart_browser
  restart-IsGood A w h = elim (Result-cases r.new_pool) [
    | inl (p, e) ↦
        rw (recreate_browser_pool, e)
          (fail_gone-IsGood A ErrorCode.browser_error (replaced p w) (fresh p e))
    | inr (m, e) ↦ rw (recreate_browser_pool, e) (fail-IsGood A ErrorCode.browser_error w h)
  ]

  pub claim-IsGood :
      (claimed : Bool) (w : Shared) → alive c.id w ≡ true → Good (claim s r c claimed w)
  unfolding claim
  claim-IsGood true w h = h
  claim-IsGood false w h = elim (Bool-cases (guard_new c.id w.pool).0) [
    | inl e ↦ rw (claim, e) (guard_new-holds c.id c.id w.pool ∙ h)
    | inr e ↦ rw (claim, e) (fail-IsGood (Unit {0}) ErrorCode.session_busy w h)
  ]

  pub check_url-IsGood :
      (url : Text) (w : Shared) → alive c.id w ≡ true → Good (check_url s r c url w)
  unfolding check_url
  check_url-IsGood url w h = elim (Bool-cases (has_domain s.library url)) [
    | inl e ↦ rw (check_url, e) h
    | inr e ↦ rw (check_url, e) (fail-IsGood (Unit {0}) ErrorCode.invalid_url w h)
  ]

  pub update_usage-IsGood : (w : Shared) → alive c.id w ≡ true → Good (update_usage s r c w)
  unfolding update_usage
  update_usage-IsGood w h = change-alive c.id c.id (used r.start_time) w (λ d. refl) ∙ h

  pub check_proxy-IsGood : (w : Shared) → alive c.id w ≡ true → Good (check_proxy s r c w)
  unfolding check_proxy
  check_proxy-IsGood w h =
      elim (Bool-cases (not r.assigned_proxy && r.supports_per_context_proxy)) [
        | inl e ↦ rw (check_proxy, e) (fail-IsGood (Unit {0}) ErrorCode.browser_error w h)
        | inr e ↦ rw (check_proxy, e) h
      ]

  keep_tab-IsGood :
      (t : CallResult ℕ) (k : Text → Step (Unit {0})) (w : Shared)
      → alive c.id w ≡ true
      → ((e : Text) → Good (k e w))
      → Good (keep_tab s r c t k w)
  keep_tab-IsGood (CallResult.done t) k w h g =
      change-alive c.id c.id (set_tab (some t)) w (λ d. refl) ∙ h
  keep_tab-IsGood CallResult.stalled k w h g = stalled-IsGood (Unit {0}) w
  keep_tab-IsGood (CallResult.failed e) k w h g = g e

  or_restart-IsGood : (e : Text) (w : Shared) → alive c.id w ≡ true → Good (or_restart s r c e w)
  or_restart-IsGood e w h = elim (Bool-cases (is_dead_browser_error e)) [
    | inl d ↦ rw (or_restart, d) (restart-IsGood (Unit {0}) w h)
    | inr d ↦ rw (or_restart, d) (fail-IsGood (Unit {0}) ErrorCode.browser_error w h)
  ]

  pub ensure_tab-IsGood : (w : Shared) → alive c.id w ≡ true → Good (ensure_tab s r c w)
  unfolding ensure_tab
  ensure_tab-IsGood w h = elim (Bool-cases (is_some c.tab)) [
    | inl e ↦ rw (ensure_tab, e) h
    | inr e ↦ elim (Bool-cases (not (is_some c.cdp_context_id) && uses_isolated_contexts s r c)) [
      | inl d ↦
          rw (ensure_tab, e, d)
            (fail_gone-IsGood (Unit {0}) ErrorCode.browser_error (on_pool (destroy_context c.id) w)
              (destroy_context-gone c.id w.pool))
      | inr d ↦
          rw (ensure_tab, e, d)
            (keep_tab-IsGood r.create_tab (or_restart s r c) w h (λ m. or_restart-IsGood m w h))
    ]
  ]

  enabled_again-IsGood :
      (x : CallResult (Unit {0})) (w : Shared)
      → alive c.id w ≡ true
      → Good (enabled_again s r c x w)
  enabled_again-IsGood (CallResult.done u) w h = h
  enabled_again-IsGood CallResult.stalled w h = stalled-IsGood (Unit {0}) w
  enabled_again-IsGood (CallResult.failed e) w h =
      fail-IsGood (Unit {0}) ErrorCode.browser_error w h

  retab-IsGood :
      (k : Text → Step (Unit {0})) (w : Shared)
      → alive c.id w ≡ true
      → ((e : Text) → Good (k e w))
      → Good (
          follow
            (keep_tab s r c r.recreate_tab k w)
            (λ _. enabled_again s r c r.enable_fetch_again))
  retab-IsGood k w h g =
      follow-IsGood s.to_string c.id (keep_tab s r c r.recreate_tab k w)
        (λ _. enabled_again s r c r.enable_fetch_again) (keep_tab-IsGood r.recreate_tab k w h g)
        (λ u v i. enabled_again-IsGood r.enable_fetch_again v i)

  enabled-IsGood :
      (x : CallResult (Unit {0})) (w : Shared) → alive c.id w ≡ true → Good (enabled s r c x w)
  enabled-IsGood (CallResult.done u) w h = h
  enabled-IsGood CallResult.stalled w h = stalled-IsGood (Unit {0}) w
  enabled-IsGood (CallResult.failed e) w h = elim (Bool-cases (is_dead_tab_error e)) [
    | inl d ↦
        rw (enabled, d)
          (retab-IsGood (λ _. fail s r c ErrorCode.browser_error) w h
            (λ m. fail-IsGood (Unit {0}) ErrorCode.browser_error w h))
    | inr d ↦ elim (Bool-cases (contains e (codes "connection is closed"))) [
      | inl k ↦
          rw (enabled, d, k) (retab-IsGood (or_restart s r c) w h (λ m. or_restart-IsGood m w h))
      | inr k ↦ rw (enabled, d, k) (fail-IsGood (Unit {0}) ErrorCode.browser_error w h)
    ]
  ]

  authenticate-IsGood : (w : Shared) → alive c.id w ≡ true → Good (authenticate s r c w)
  authenticate-IsGood w h = elim (Bool-cases (r.has_credentials && not r.authenticated)) [
    | inl e ↦ rw (authenticate, e) (fail-IsGood (Unit {0}) ErrorCode.browser_error w h)
    | inr e ↦ rw (authenticate, e) h
  ]

  pub prepare_fetch-IsGood : (w : Shared) → alive c.id w ≡ true → Good (prepare_fetch s r c w)
  unfolding prepare_fetch
  prepare_fetch-IsGood w h = elim (Bool-cases r.needs_fetch) [
    | inr e ↦ rw (prepare_fetch, e) h
    | inl e ↦
        rw (prepare_fetch, e)
          (follow-IsGood s.to_string c.id (enabled s r c r.enable_fetch w) (λ _. authenticate s r c)
            (enabled-IsGood r.enable_fetch w h) (λ u v i. authenticate-IsGood v i))
  ]

  pub start_listeners-IsGood : (w : Shared) → alive c.id w ≡ true → Good (start_listeners s r c w)
  unfolding start_listeners
  start_listeners-IsGood w h = elim (Bool-cases (r.network_stalled || r.capture_stalled)) [
    | inl e ↦ rw (start_listeners, e) (stalled-IsGood (Unit {0}) w)
    | inr e ↦ rw (start_listeners, e) h
  ]

  pub race-IsGood :
      (A : Type 0) (late : ErrorCode) (x : Race A) (w : Shared)
      → alive c.id w ≡ true
      → Good (race s r c late x w)
  unfolding race
  race-IsGood A late Race.cancelled w h = fail-IsGood A ErrorCode.terminating w h
  race-IsGood A late Race.timed_out w h =
      fail_gone-IsGood A late (discard_stuck_context c.id w) (discarded w)
  race-IsGood A late Race.panicked w h = fail-IsGood A ErrorCode.browser_error w h
  race-IsGood A late (Race.finished a) w h = h

  pub check_wait-IsGood : (w : Shared) → alive c.id w ≡ true → Good (check_wait s r c w)
  unfolding check_wait
  check_wait-IsGood w h = elim (Result-cases r.wait_config) [
    | inl (u, e) ↦ rw (check_wait, e) h
    | inr (m, e) ↦ rw (check_wait, e) tt
  ]

  pub wait_for_page-IsGood :
      (n : Result Text (Unit {0})) (w : Shared)
      → alive c.id w ≡ true
      → Good (wait_for_page s r c n w)
  unfolding wait_for_page
  wait_for_page-IsGood (ok u) w h =
      race-IsGood (Result Text WaitResult) ErrorCode.timeout_browser r.wait w h
  wait_for_page-IsGood (err e) w h = h

  read_content-IsGood :
      (t : Result Text Text) (w : Shared) → alive c.id w ≡ true → Good (read_content s r c t w)
  read_content-IsGood (ok t) w h = h
  read_content-IsGood (err e) w h = fail-IsGood Text ErrorCode.browser_error w h

  pub get_content-IsGood : (w : Shared) → alive c.id w ≡ true → Good (get_content s r c w)
  unfolding get_content
  get_content-IsGood w h =
      follow-IsGood s.to_string c.id (race s r c ErrorCode.browser_error r.content w)
        (read_content s r c) (race-IsGood (Result Text Text) ErrorCode.browser_error r.content w h)
        (λ t v i. read_content-IsGood t v i)
