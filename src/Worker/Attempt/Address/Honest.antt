-- ===== src/Worker/Attempt/Address/Honest.antt =====
-- The session's contract over a whole attempt of crates/worker/src/service.rs.
use browser_hive_rs.Base.{
  ℕ, ◌≡◌, refl, ap, ◌∙◌, inl, inr, Bool, true, false, not, ◌&&◌, ◌||◌, ltb, if◌then◌else◌,
  Bool-cases, Option-cases,
}
use browser_hive_rs.Base.Text.{Text}
use browser_hive_rs.Base.Result.{Result, ok, err}
use browser_hive_rs.Common.Config.{SessionMode, is_always_new, is_reusable}
use browser_hive_rs.Common.Metadata.{quarantine_origin-id}
use browser_hive_rs.Worker.Context.{BrowserContext}
use browser_hive_rs.Worker.Pool.{BrowserPool}
use browser_hive_rs.Worker.Pool.Acquire.{destroy_context}
use browser_hive_rs.Worker.Outcome.{ErrorCode, Verdict, should_exit_early, classify}
use browser_hive_rs.Worker.Attempt.{
  Answer, Shared, Setting, Step, follow, on_pool, discard_stuck_context, quarantine_origin,
}
use browser_hive_rs.Worker.Attempt.Phases.{
  Script, CallResult, race, check_proxy, ensure_tab, prepare_fetch, start_listeners, check_wait,
  wait_for_page, get_content, claim, check_url, update_usage,
}
use browser_hive_rs.Worker.Attempt.Phases.Finish.{
  Page, load_page, finish_page, read_status, read_fallback, quarantine_blocked, quarantine_in,
  session_destroyed, after_status, answer, observed, drop_guards, close_tab, guarded, settled,
  after_claim, scrape_page_internal,
}
use browser_hive_rs.Worker.Attempt.Address.{
  holds, alive, IsHonest, IsGood, bind-Keeps, destroy_context-gone, change-alive, guard_drop-holds,
}
use browser_hive_rs.Worker.Attempt.Address.Kept.{
  address, claim-IsGood, check_url-IsGood, update_usage-IsGood, check_proxy-IsGood,
  ensure_tab-IsGood, prepare_fetch-IsGood, start_listeners-IsGood, race-IsGood, check_wait-IsGood,
  wait_for_page-IsGood, get_content-IsGood, discarded,
}

module _ (s : Setting) (url : Text) (r : Script) (c : BrowserContext)
    (dedicated : s.scope.session_mode ≡ SessionMode.dedicated)
    (fresh : (p : BrowserPool) → r.new_pool ≡ ok p → holds c.id p ≡ false)
    (calm : (w : Shared) → alive c.id (r.later w) ≡ alive c.id w) where
  load_page-IsGood :
      (w : Shared) → alive c.id w ≡ true → IsGood s.to_string c.id (load_page s url r c w)
  unfolding load_page
  load_page-IsGood =
      bind-Keeps s.to_string c.id (check_proxy s r c) _ (check_proxy-IsGood s r c dedicated fresh)
        λ _.
          bind-Keeps s.to_string c.id (ensure_tab s r c) _ (ensure_tab-IsGood s r c dedicated fresh)
            λ _.
              bind-Keeps s.to_string c.id (prepare_fetch s r c) _
                (prepare_fetch-IsGood s r c dedicated fresh)
                λ _.
                  bind-Keeps s.to_string c.id (start_listeners s r c) _
                    (start_listeners-IsGood s r c dedicated fresh)
                    λ _.
                      bind-Keeps s.to_string c.id
                        (race s r c ErrorCode.timeout_browser r.navigation) _
                        (race-IsGood s r c dedicated fresh _ ErrorCode.timeout_browser r.navigation)
                        λ n.
                          bind-Keeps s.to_string c.id (check_wait s r c) _
                            (check_wait-IsGood s r c dedicated fresh)
                            λ _.
                              bind-Keeps s.to_string c.id (wait_for_page s r c n) _
                                (wait_for_page-IsGood s r c dedicated fresh n)
                                λ t.
                                  bind-Keeps s.to_string c.id (get_content s r c) _
                                    (get_content-IsGood s r c dedicated fresh) λ x w h. h

  quarantine_blocked-alive :
      (status : ℕ) (w : Shared) → alive c.id (quarantine_blocked s url r c status w) ≡ alive c.id w
  unfolding quarantine_blocked
  quarantine_blocked-alive status w = elim (Option-cases (quarantine_origin s url)) [
    | inl e ↦ rw (quarantine_blocked, e) refl
    | inr (origin, e) ↦ elim (Bool-cases (should_exit_early status)) [
      | inl k ↦
          rw (quarantine_blocked, e, k)
            (change-alive c.id c.id (quarantine_in s url r c origin) w (λ d. same_id origin d))
      | inr k ↦ rw (quarantine_blocked, e, k) refl
    ]
  ]
    where
      same_id : (origin : Text) (d : BrowserContext) → (quarantine_in s url r c origin d).id ≡ d.id
      same_id origin d = quarantine_origin-id origin s.scope.block_quarantine r.end_time d.metadata

  -- What `finish_page` does once the status is known; `gone` says that reading it cost the context.
  abbrev release_blocked : ℕ → Shared → Shared
  release_blocked status w =
      if session_destroyed s url r c status then on_pool (destroy_context c.id) w else w

  tail-IsHonest :
      (v : Verdict) (content : Text) (status : ℕ) (gone : Bool) (w : Shared)
      → alive c.id w ≡ not gone
      → IsHonest s.to_string c.id (
        ok (answer s url r c v content status (session_destroyed s url r c status || gone)),
        release_blocked status (quarantine_blocked s url r c status w),
      )
  tail-IsHonest v content status gone w h = elim (Bool-cases (session_destroyed s url r c status)) [
    | inl e ↦ rw (e, destroy_context-gone c.id (quarantine_blocked s url r c status w).pool) refl
    | inr e ↦ elim (Bool-cases gone) [
      | inl g ↦ rw (e, quarantine_blocked-alive status w, h, g) refl
      | inr g ↦ rw (e, quarantine_blocked-alive status w, h, g) (address s r c dedicated fresh)
    ]
  ]

  abbrev verdict : Page → Verdict
  verdict page = classify s.library (observed s url r c page)

  abbrev Honest : Result Text Answer × Shared → Type 0
  Honest = IsHonest s.to_string c.id

  finish_status-IsHonest :
      (page : Page) (x : CallResult ℕ) (w : Shared)
      → alive c.id w ≡ true
      → Honest
          (settled s url r c (follow (read_fallback s url r c x w) (after_status s url r c page)))
  finish_status-IsHonest page (CallResult.done n) w h =
      tail-IsHonest (verdict page) page.2 n false w h
  finish_status-IsHonest page CallResult.stalled w h =
      tail-IsHonest (verdict page) page.2 0 true (discard_stuck_context c.id w)
        (discarded s r c dedicated fresh w)
  finish_status-IsHonest page (CallResult.failed e) w h =
      tail-IsHonest (verdict page) page.2 0 false w h

  read_status-IsHonest :
      (page : Page) (w : Shared)
      → alive c.id w ≡ true
      → Honest (settled s url r c (follow (read_status s url r c w) (after_status s url r c page)))
  unfolding read_status
  read_status-IsHonest page w h = elim (Bool-cases (ltb 0 r.observed_status)) [
    | inl e ↦ rw (read_status, e) (tail-IsHonest (verdict page) page.2 r.observed_status false w h)
    | inr e ↦ rw (read_status, e) (finish_status-IsHonest page r.status_fallback w h)
  ]

  finish_page-IsHonest :
      (page : Page) (w : Shared)
      → alive c.id w ≡ true
      → Honest (settled s url r c (finish_page s url r c page w))
  unfolding finish_page
  finish_page-IsHonest page w h =
      rw (finish_page, ap is_always_new dedicated)
        (read_status-IsHonest page (r.later w) (calm w ∙ h))

  -- The steps before the end, and then the end.
  settled-IsHonest :
      {A : Type 0} (x : Result (Result Text Answer) A × Shared) (k : A → Step Answer)
      → IsGood s.to_string c.id x
      → ((a : A) (w : Shared) → alive c.id w ≡ true → Honest (settled s url r c (k a w)))
      → Honest (settled s url r c (follow x k))
  settled-IsHonest (ok a, w) k g h = h a w g
  settled-IsHonest (err e, w) k g h = g

  guarded-IsHonest :
      (w : Shared) → alive c.id w ≡ true → Honest (settled s url r c (guarded s url r c w))
  guarded-IsHonest w h =
      settled-IsHonest (check_url s r c url w) _ (check_url-IsGood s r c dedicated fresh url w h)
        λ _ w1 h1.
          settled-IsHonest (update_usage s r c w1) _
            (update_usage-IsGood s r c dedicated fresh w1 h1)
            λ _ w2 h2.
              settled-IsHonest (load_page s url r c w2) _ (load_page-IsGood w2 h2)
                finish_page-IsHonest

  drop_guards-alive : (w : Shared) → alive c.id (drop_guards s url r c w) ≡ alive c.id w
  unfolding drop_guards
  drop_guards-alive w =
      guard_drop-holds c.id c.id r.end_time (close_tab s url r c w).pool
      ∙ elim (Bool-cases closes) [
        | inl e ↦ rw (close_tab, e) (change-alive c.id c.id _ w (λ d. refl))
        | inr e ↦ rw (close_tab, e) refl
      ]
    where
      closes : Bool
      closes = s.scope.close_tab_after_request && is_reusable s.scope.session_mode

  dropped-IsHonest :
      (a : Result Text Answer) (w : Shared) → Honest (a, w) → Honest (a, drop_guards s url r c w)
  dropped-IsHonest (ok a) w h = rw (drop_guards-alive w) h
  dropped-IsHonest (err e) w h = tt

  after_claim-IsHonest :
      (x : Result (Result Text Answer) (Unit {0}) × Shared)
      → IsGood s.to_string c.id x
      → Honest (after_claim s url r c x)
  after_claim-IsHonest (err e, w) g = g
  after_claim-IsHonest (ok u, w) g =
      let (a, v) = settled s url r c (guarded s url r c w) in
      dropped-IsHonest a v (guarded-IsHonest w g)

  -- In a dedicated scope, where a new browser pool has no context with the id of the request's and
  -- other tasks neither remove nor add that context while the page loads, an attempt that starts
  -- with its context in the pool and answers with a response names the context in it exactly where
  -- the pool still holds the context at the end.
  pub scrape_page_internal-IsHonest :
      (claimed : Bool) (w : Shared)
      → alive c.id w ≡ true
      → IsHonest s.to_string c.id (scrape_page_internal s url r c claimed w)
  unfolding scrape_page_internal
  scrape_page_internal-IsHonest claimed w h =
      after_claim-IsHonest (claim s r c claimed w) (claim-IsGood s r c dedicated fresh claimed w h)
