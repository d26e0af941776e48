-- ===== src/Worker/Attempt.antt =====
-- One attempt at a page in crates/worker/src/service.rs: `scrape_page_internal` and what it calls.
-- `Script` is what Chrome, the clock and the other tasks supply, in the order in which the code
-- asks for it. The messages, the execution time and the ray id of a response are left out: no code
-- of the service reads them.
pub mod Phases
pub mod Address
use browser_hive_rs.Base.{
  ℕ, ◌+◌, Bool, true, false, not, ◌&&◌, ◌||◌, List, [], ◌∷◌, map, Option, none, some, is_some, ltb,
  ◌==◌, if◌then◌else◌, is_empty, unwrap_or, fetch_add,
}
use browser_hive_rs.Base.Text.{Text, text_eq}
use browser_hive_rs.Base.Map.{Map}
use browser_hive_rs.Base.Result.{Result, ok, err}
use browser_hive_rs.Base.Strings.{to_ascii_lowercase}
use browser_hive_rs.Common.Url.{Url, UrlLibrary}
use browser_hive_rs.Common.Config.{
  ScopeConfig, SessionMode, returns_session_id, is_reusable, is_dedicated, is_always_new, is_shared,
}
use browser_hive_rs.Common.Metadata
use browser_hive_rs.Worker.Context.{BrowserContext}
use browser_hive_rs.Worker.Pool.{BrowserPool, Creation, empty_pool, populate_initial_contexts}
use browser_hive_rs.Worker.Pool.Acquire.{destroy_context}
use browser_hive_rs.Worker.Pool.Guard.{guard_new, guard_drop}
use browser_hive_rs.Worker.Outcome.{ErrorCode, code, should_exit_early}

-- `ScrapePageResponse`.
pub record Answer : Type 0 where
  pub success : Bool
  pub status_code : ℕ
  pub content : Text
  pub error_code : ℕ
  pub response_headers : Map Text
  pub context_id : Text

-- The pool behind its lock, and the count of its replacements.
pub record Shared : Type 0 where
  pub pool : BrowserPool
  pub pool_generation : ℕ

-- The scope, the libraries, and how a context's id prints.
pub record Setting : Type 0 where
  pub scope : ScopeConfig
  pub library : UrlLibrary
  pub to_string : ℕ → Text

abbrev pub failure : ErrorCode → Text → Answer
failure c context_id = record {
  success = false;
  status_code = 0;
  content = [];
  error_code = code c;
  response_headers = [];
  context_id = context_id;
}

unfoldable pub addressable_context_id : Setting → ℕ → Text
addressable_context_id s id = if returns_session_id s.scope.session_mode then s.to_string id else []

-- `utils::extract_domain(url).is_ok()`.
unfoldable pub has_domain : UrlLibrary → Text → Bool
has_domain lib url = elim (lib.parse_url url) [ none ↦ false | some u ↦ is_some u.host ]

unfoldable pub quarantine_origin : Setting → Text → Option Text
quarantine_origin s url =
    if (s.scope.block_quarantine == 0) || not (is_reusable s.scope.session_mode)
    then none
    else elim (s.library.parse_url url) [ none ↦ none | some u ↦ registrable u.host ]
  where
    registrable : Option Text → Option Text
    registrable none = none
    registrable (some h) = s.library.domain_str (to_ascii_lowercase h)

-- `BrowserPool::new`: `launched` is the launch of the browser, with what each creation of an initial
-- context returns.
unfoldable pub new_pool : ScopeConfig → Result Text (List Creation) → Result Text BrowserPool
new_pool cfg (err e) = err e
new_pool cfg (ok rs) =
    if ltb 0 cfg.min_contexts && is_reusable cfg.session_mode
    then started (populate_initial_contexts rs empty_pool)
    else ok empty_pool
  where
    started : Result Text (Unit {0}) × BrowserPool → Result Text BrowserPool
    started (ok u, p) = ok p
    started (err e, p) = err e

unfoldable pub recreate_browser_pool : Result Text BrowserPool → Shared → Bool × Shared
recreate_browser_pool (err e) w = (false, w)
recreate_browser_pool (ok p) w =
    (true, record { pool = p; pool_generation = fetch_add w.pool_generation 1 })

abbrev pub on_pool : (BrowserPool → BrowserPool) → Shared → Shared
on_pool f w = record w { pool = f w.pool }

-- `destroy_context` behind the lock.
unfoldable pub discard_stuck_context : ℕ → Shared → Shared
unfolding destroy_context
discard_stuck_context id w = on_pool (destroy_context id) w

-- An early return, or the value of a step with what it leaves.
abbrev pub Step {ℓ} : Type ℓ → Type ℓ
Step A = Shared → Result (Result Text Answer) A × Shared

abbrev pub follow {ℓ κ} :
    {A : Type ℓ} {B : Type κ}
    → Result (Result Text Answer) A × Shared
    → (A → Step B)
    → Result (Result Text Answer) B × Shared
follow (ok a, w) k = k a w
follow (err e, w) k = (err e, w)

infixl 5 ◌>>=◌ ◌>>◌
abbrev pub ◌>>=◌ {ℓ κ} : {A : Type ℓ} {B : Type κ} → Step A → (A → Step B) → Step B
(m >>= k) w = follow (m w) k

abbrev pub ◌>>◌ {κ} : {B : Type κ} → Step (Unit {0}) → Step B → Step B
m >> k = m >>= λ _. k

abbrev pub pure {ℓ} : {A : Type ℓ} → A → Step A
pure a w = (ok a, w)

abbrev pub perform : (Shared → Shared) → Step (Unit {0})
perform f w = (ok tt, f w)

-- The early returns: of a status of gRPC, and of a failure.
abbrev pub stop {ℓ} : {A : Type ℓ} → Result Text Answer → Step A
stop r w = (err r, w)
