-- ===== src/Worker/Handler.antt =====
-- The calls of the worker's gRPC service in crates/worker/src/service.rs: `scrape_page` with its
-- recovery from a dead browser, `health_check` and `get_stats`. An atomic counter holds what the
-- requests before this one have left; the counters of requests that run beside it add up in any
-- order.
pub mod Counting
use browser_hive_rs.Base.{
  ℕ, ◌+◌, ◌-◌, ◌%◌, Bool, true, false, not, ◌&&◌, ◌||◌, [], Option, none, some, ◌==◌, if◌then◌else◌,
  is_empty, fetch_add, fetch_sub, u64_mod,
}
use browser_hive_rs.Base.Text.{Text}
use browser_hive_rs.Base.Result.{Result, ok, err}
use browser_hive_rs.Common.Config.{ScopeConfig, SessionMode, returns_session_id, is_always_new}
use browser_hive_rs.Worker.Context.{BrowserContext}
use browser_hive_rs.Worker.Pool.{BrowserPool, Creation}
use browser_hive_rs.Worker.Pool.Acquire.{
  ProxyParams, create_always_new_context, get_or_create_context, create_dedicated_context,
  destroy_context, find_context_by_id, end_session_if_used_up,
}
use browser_hive_rs.Worker.Outcome.{ErrorCode, is_dead_browser_error, counts_as_failure}
use browser_hive_rs.Worker.Attempt.{
  Answer, Shared, Setting, failure, has_domain, quarantine_origin, recreate_browser_pool, on_pool,
}
use browser_hive_rs.Worker.Attempt.Phases.{Script}
use browser_hive_rs.Worker.Attempt.Phases.Finish.{scrape_page_internal}
use browser_hive_rs.Worker.Acquisition.{
  Acquiring, Recovery, acquire_context, acquire_context_with_recovery, surviving_session_context_id,
  drop_always_new,
}

pub record Request : Type 0 where
  pub url : Text
  pub context_id : Text
  pub country_code : Text

pub record Outside : Type 0 where
  pub is_ready : Bool
  pub is_cancelled : Bool
  pub now : ℕ
  pub acquisition : Recovery
  pub attempt : BrowserContext → Script
  pub retry_acquisition : Recovery
  pub retry : BrowserContext → Script

pub record Counters : Type 0 where
  pub active_requests : ℕ
  pub total_requests : ℕ
  pub failed_requests : ℕ

unfoldable pub record_failed_if_5xxx : Answer → Counters → Counters
unfolding counts_as_failure
record_failed_if_5xxx a n =
    if counts_as_failure a.error_code
    then record n { failed_requests = fetch_add n.failed_requests 1 }
    else n

-- The bookkeeping at the end: a status of gRPC is a failure too.
unfoldable pub count_result : Result Text Answer → Counters → Counters
unfolding record_failed_if_5xxx
count_result (ok a) n = record_failed_if_5xxx a n
count_result (err e) n = record n { failed_requests = fetch_add n.failed_requests 1 }

-- `ActiveRequestGuard`.
abbrev pub enter : Counters → Counters
enter n = record n { active_requests = fetch_add n.active_requests 1 }

abbrev pub leave : Counters → Counters
leave n = record n { active_requests = fetch_sub n.active_requests 1 }

abbrev pub admit : Counters → Counters
admit n = record n { total_requests = fetch_add n.total_requests 1 }

-- The end of a request: its answer, what it leaves of the pool, the counters, and how many attempts
-- it made.
pub record End : Type 0 where
  pub result : Result Text Answer
  pub shared : Shared
  pub counters : Counters
  pub attempts : ℕ

module _ (s : Setting) (o : Outside) (q : Request) where
  abbrev params : ProxyParams
  params = record { country_code = if is_empty q.country_code then none else some q.country_code }

  abbrev origin : Option Text
  origin = quarantine_origin s q.url

  abbrev pub uses_existing : Bool
  uses_existing = not (is_empty q.context_id) && returns_session_id s.scope.session_mode

  -- A look-up answers for itself; a refusal of an acquisition is counted.
  abbrev pub refused : Answer → Counters → Shared → End
  refused a n w = record {
    result = ok a;
    shared = w;
    counters = record_failed_if_5xxx a n;
    attempts = 0;
  }

  abbrev pub is_unsuccessful : Result Text Answer → Bool
  is_unsuccessful (ok a) = not a.success
  is_unsuccessful (err e) = false

  abbrev pub conclude : ℕ → BrowserContext → Counters → Result Text Answer × Shared → End
  conclude k c n (result, w) = record {
    result = result;
    shared = drop_always_new s c w;
    counters = count_result result n;
    attempts = k;
  }

  abbrev pub second_attempt : Counters → Result Answer BrowserContext × Shared → End
  second_attempt n (err a, w) = record {
    result = ok a;
    shared = w;
    counters = record_failed_if_5xxx a n;
    attempts = 1;
  }
  second_attempt n (ok c, w) = conclude 2 c n (scrape_page_internal s q.url (o.retry c) c true w)

  -- The retry after a pool that was replaced, which only an unsuccessful answer gets.
  unfoldable pub retry_once : ℕ → BrowserContext → Counters → Result Text Answer × Shared → End
  unfolding acquire_context_with_recovery scrape_page_internal drop_always_new quarantine_origin
  retry_once generation c n (result, w) =
      if not (w.pool_generation == generation) && is_unsuccessful result
      then second_attempt n (
          acquire_context_with_recovery s params origin o.retry_acquisition (drop_always_new s c w))
      else conclude 1 c n (result, w)

  abbrev pub first_attempt : Bool → BrowserContext → Counters → Shared → End
  first_attempt claimed c n w =
      retry_once w.pool_generation c n (scrape_page_internal s q.url (o.attempt c) c claimed w)

  abbrev pub not_found : Counters → Shared → End
  not_found n w = record {
    result = ok (failure ErrorCode.session_not_found []);
    shared = w;
    counters = n;
    attempts = 0;
  }

  abbrev pub continued : Counters → Shared → BrowserContext → Bool × BrowserPool → End
  continued n w c (true, p) = not_found n (record w { pool = p })
  continued n w c (false, p) = first_attempt false c n (record w { pool = p })

  abbrev pub acquired : Counters → Result Answer BrowserContext × Shared → End
  acquired n (err a, w) = refused a n w
  acquired n (ok c, w) = first_attempt true c n w

  -- The request after the check of its URL.
  unfoldable pub select_context : Counters → Shared → End
  unfolding find_context_by_id end_session_if_used_up retry_once
  select_context n w =
      if uses_existing
      then elim (find_context_by_id s.to_string q.context_id w.pool) [
        | none ↦ not_found n w
        | some c ↦ continued n w c (end_session_if_used_up s.scope c.id o.now w.pool)
      ]
      else acquired n (acquire_context_with_recovery s params origin o.acquisition w)

  abbrev pub rejected : ErrorCode → Text → Counters → Shared → End
  rejected e id n w = record { result = ok (failure e id); shared = w; counters = n; attempts = 0 }

  abbrev pub depart : End → End
  depart e = record e { counters = leave e.counters }

  abbrev pub handle : Counters → Shared → End
  handle n w =
      if o.is_cancelled || not o.is_ready
      then rejected ErrorCode.terminating [] n w
      else (if has_domain s.library q.url
          then select_context (admit n) w
          else rejected ErrorCode.invalid_url (surviving_session_context_id s q.context_id w.pool)
              (admit n) w)

  unfoldable pub scrape_page : Counters → Shared → End
  unfolding select_context surviving_session_context_id has_domain
  scrape_page n w = depart (handle (enter n) w)

-- `healthy`.
unfoldable pub health_check : Bool → Bool → Bool
health_check is_ready is_terminating = is_ready && not is_terminating

-- The counts of `get_stats` behind its success rate, which is 1 where the second is 0.
unfoldable pub success_counts : Counters → ℕ × ℕ
success_counts n = ((n.total_requests + u64_mod - n.failed_requests) % u64_mod, n.total_requests)
