-- ===== src/Proto/Wait.antt =====
-- The wait parameters of a request (crates/proto/src/wait.rs). The two request types have the
-- same fields here, and the macro gives both the same function: one record stands for both.
use browser_hive_rs.Base.{ℕ, ◌≡◌, refl, Option, none, some, unwrap_or}
use browser_hive_rs.Base.Text.{Text}

pub record ResolvedWait : Type 0 where
  pub strategy : Text
  pub timeout_ms : ℕ
  pub wait_selector : Text
  pub skip_selector : Text
  pub challenge_timeout_ms : ℕ

pub record WaitOptions : Type 0 where
  pub strategy : Option Text
  pub timeout_ms : Option ℕ
  pub wait_selector : Option Text
  pub skip_selector : Option Text
  pub challenge_timeout_ms : Option ℕ

pub record ScrapePageRequest : Type 0 where
  pub wait_strategy : Text
  pub wait_timeout_ms : ℕ
  pub wait_selector : Text
  pub skip_selector : Text
  pub wait : Option WaitOptions

unfoldable pub pick {ℓ} : {A : Type ℓ} → Option A → A → A
pick set flat = unwrap_or set flat

-- `w.and_then(|w| w.field)`
abbrev pub and_then {ℓ} : {A : Type ℓ} → Option WaitOptions → (WaitOptions → Option A) → Option A
and_then none field = none
and_then (some w) field = field w

unfoldable pub resolved_wait : ScrapePageRequest → ResolvedWait
resolved_wait r = record {
  strategy = pick (and_then r.wait (λ w. w.strategy)) r.wait_strategy;
  timeout_ms = pick (and_then r.wait (λ w. w.timeout_ms)) r.wait_timeout_ms;
  wait_selector = pick (and_then r.wait (λ w. w.wait_selector)) r.wait_selector;
  skip_selector = pick (and_then r.wait (λ w. w.skip_selector)) r.skip_selector;
  challenge_timeout_ms = unwrap_or (and_then r.wait (λ w. w.challenge_timeout_ms)) 0;
}

-- `From<&ResolvedWait> for worker::WaitOptions`
unfoldable pub wait_options : ResolvedWait → WaitOptions
wait_options r = record {
  strategy = some r.strategy;
  timeout_ms = some r.timeout_ms;
  wait_selector = some r.wait_selector;
  skip_selector = some r.skip_selector;
  challenge_timeout_ms = some r.challenge_timeout_ms;
}

-- The wait parameters of the request that `scrape_page` of the coordinator sends to a worker
-- (crates/coordinator/src/service.rs).
unfoldable pub forward : ResolvedWait → ScrapePageRequest
forward r = record {
  wait_strategy = r.strategy;
  wait_timeout_ms = r.timeout_ms;
  wait_selector = r.wait_selector;
  skip_selector = r.skip_selector;
  wait = some (wait_options r);
}

-- The request as a worker without `WaitOptions` reads it.
abbrev pub without_wait : ScrapePageRequest → ScrapePageRequest
without_wait r = record r { wait = none }

-- A worker that reads wait resolves the forwarded request to what the coordinator resolved, and one
-- that reads the flat fields only to the same with a challenge timeout of 0.
pub forward-resolved_wait :
    (r : ScrapePageRequest)
    → (resolved_wait (forward (resolved_wait r)) ≡ resolved_wait r)
      × (resolved_wait (without_wait (forward (resolved_wait r)))
          ≡ record (resolved_wait r) { challenge_timeout_ms = 0 })
unfolding resolved_wait forward wait_options pick
forward-resolved_wait r = (refl, refl)
