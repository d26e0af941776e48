-- ===== src/Worker/Handler/Counting.antt =====
-- The request counters of crates/worker/src/service.rs.
use browser_hive_rs.Base.{
  ℕ, suc, ◌+◌, ◌≤◌, ◌<◌, ◌≡◌, refl, ap, inl, inr, Bool, true, false, not, ◌&&◌, ◌||◌, List, [], ◌∷◌,
  arith, ◌==◌, if◌then◌else◌, length, fetch_add, u64_mod, Bool-cases, Option-cases,
}
use browser_hive_rs.Base.Text.{Text}
use browser_hive_rs.Base.Result.{Result, ok, err}
use browser_hive_rs.Worker.Context.{BrowserContext}
use browser_hive_rs.Worker.Pool.{BrowserPool}
use browser_hive_rs.Worker.Pool.Acquire.{find_context_by_id}
use browser_hive_rs.Worker.Outcome.{code, counts_as_failure}
use browser_hive_rs.Worker.Attempt.{Answer, Shared, Setting, has_domain}
use browser_hive_rs.Worker.Handler.{
  Request, Outside, Counters, End, record_failed_if_5xxx, count_result, enter, leave, admit,
  uses_existing, is_unsuccessful, second_attempt, retry_once, not_found, continued, acquired,
  select_context, handle, scrape_page, success_counts,
}

-- Whether an answer says that this worker failed.
abbrev pub fails : Result Text Answer → Bool
fails (ok a) = counts_as_failure a.error_code
fails (err e) = true

abbrev pub add_if : Bool → ℕ → ℕ
add_if b n = if b then fetch_add n 1 else n

abbrev with_failure : Result Text Answer → Counters → Counters
with_failure r n = record n { failed_requests = add_if (fails r) n.failed_requests }

record_failed-eq : (a : Answer) (n : Counters) → record_failed_if_5xxx a n ≡ with_failure (ok a) n
unfolding record_failed_if_5xxx
record_failed-eq a n = elim (Bool-cases (counts_as_failure a.error_code)) [
  | inl e ↦ rw (record_failed_if_5xxx, e) refl
  | inr e ↦ rw (record_failed_if_5xxx, e) refl
]

count_result-eq : (r : Result Text Answer) (n : Counters) → count_result r n ≡ with_failure r n
unfolding count_result
count_result-eq (ok a) n = record_failed-eq a n
count_result-eq (err m) n = refl

-- Of an admitted request only the failure is still to count.
abbrev IsCounted : Counters → End → Type 0
IsCounted n e = e.counters ≡ with_failure e.result n

-- An answer that is no failure leaves the counters.
uncounted : (n : Counters) (r : Result Text Answer) → fails r ≡ false → n ≡ with_failure r n
uncounted n r h = rw (with_failure, h) refl

-- The counters of a request that is on its way, admitted or not.
abbrev pub leaves : Counters → Bool → Result Text Answer → Counters
leaves n true r = with_failure r (admit (enter n))
leaves n false r = enter n

module _ (s : Setting) (o : Outside) (q : Request) where
  second_attempt-IsCounted :
      (n : Counters) (x : Result Answer BrowserContext × Shared)
      → IsCounted n (second_attempt s o q n x)
  second_attempt-IsCounted n (err a, w) = record_failed-eq a n
  second_attempt-IsCounted n (ok c, w) = count_result-eq _ n

  retry_once-IsCounted :
      (g : ℕ) (c : BrowserContext) (n : Counters) (x : Result Text Answer × Shared)
      → IsCounted n (retry_once s o q g c n x)
  unfolding retry_once
  retry_once-IsCounted g c n (r, w) =
      elim (Bool-cases (not (w.pool_generation == g) && is_unsuccessful s o q r)) [
        | inl e ↦ rw (retry_once, e) (second_attempt-IsCounted n _)
        | inr e ↦ rw (retry_once, e) (count_result-eq r n)
      ]

  not_found-IsCounted : (n : Counters) (w : Shared) → IsCounted n (not_found s o q n w)
  unfolding counts_as_failure code
  not_found-IsCounted n w = uncounted n (not_found s o q n w).result refl

  continued-IsCounted :
      (n : Counters) (w : Shared) (c : BrowserContext) (x : Bool × BrowserPool)
      → IsCounted n (continued s o q n w c x)
  continued-IsCounted n w c (true, p) = not_found-IsCounted n (record w { pool = p })
  continued-IsCounted n w c (false, p) = retry_once-IsCounted w.pool_generation c n _

  acquired-IsCounted :
      (n : Counters) (x : Result Answer BrowserContext × Shared) → IsCounted n (acquired s o q n x)
  acquired-IsCounted n (err a, w) = record_failed-eq a n
  acquired-IsCounted n (ok c, w) = retry_once-IsCounted w.pool_generation c n _

  select_context-IsCounted : (n : Counters) (w : Shared) → IsCounted n (select_context s o q n w)
  unfolding select_context
  select_context-IsCounted n w = elim (Bool-cases (uses_existing s o q)) [
    | inr e ↦ rw (select_context, e) (acquired-IsCounted n _)
    | inl e ↦ elim (Option-cases (find_context_by_id s.to_string q.context_id w.pool)) [
      | inl k ↦ rw (select_context, e, k) (not_found-IsCounted n w)
      | inr (c, k) ↦ rw (select_context, e, k) (continued-IsCounted n w c _)
    ]
  ]

  unfoldable pub admitted : Bool
  admitted = not (o.is_cancelled || not o.is_ready)

  handle-counters :
      (n : Counters) (w : Shared)
      → (handle s o q (enter n) w).counters ≡ leaves n admitted (handle s o q (enter n) w).result
  unfolding admitted counts_as_failure code
  handle-counters n w = elim (Bool-cases (o.is_cancelled || not o.is_ready)) [
    | inl e ↦ rw (handle, e) refl
    | inr e ↦ elim (Bool-cases (has_domain s.library q.url)) [
      | inl k ↦ rw (handle, e, k) (select_context-IsCounted (admit (enter n)) w)
      | inr k ↦ rw (handle, e, k) refl
    ]
  ]

-- On every path, retries included, a request adds one to the total where the worker admits it, one
-- to the failures where it is admitted and ends in a gRPC status or in an answer whose code counts
-- as a failure, and takes the active count back to its wrapped predecessor after one increment; so
-- a request that is answered TERMINATING without being admitted adds to neither.
pub scrape_page-counters :
    (s : Setting) (o : Outside) (q : Request) (n : Counters) (w : Shared)
    → (scrape_page s o q n w).counters
      ≡ leave (leaves n (admitted s o q) (scrape_page s o q n w).result)
unfolding scrape_page
scrape_page-counters s o q n w = ap leave (handle-counters s o q n w)

-- Requests one after the other, each with the pool as it finds it.
unfoldable pub run_requests : Setting → List (Outside × Request × Shared) → Counters → Counters
run_requests s [] n = n
run_requests s ((o, q, w) ∷ xs) n = run_requests s xs (scrape_page s o q n w).counters

record IsTallied (n : Counters) (running bound : ℕ) : Type 0 where
  pub active : n.active_requests ≡ running
  pub failed : n.failed_requests ≤ n.total_requests
  pub total : n.total_requests ≤ bound

leaves-IsTallied :
    (n : Counters) (active bound : ℕ) (b : Bool) (r : Result Text Answer)
    → suc active < u64_mod
    → suc bound < u64_mod
    → IsTallied n active bound
    → IsTallied (leave (leaves n b r)) active (suc bound)
leaves-IsTallied n active bound true r h k t = elim (Bool-cases (fails r)) [
  | inl e ↦
      rw (leaves, e)
        (record {
          active = omega (arith, t.active, h);
          failed = omega (arith, t.failed, t.total, k);
          total = omega (arith, t.total, k);
        })
  | inr e ↦
      rw (leaves, e)
        (record {
          active = omega (arith, t.active, h);
          failed = omega (arith, t.failed, t.total, k);
          total = omega (arith, t.total, k);
        })
]
leaves-IsTallied n active bound false r h k t = record {
  active = omega (arith, t.active, h);
  failed = omega (arith, t.failed);
  total = omega (arith, t.total);
}

scrape_page-IsTallied :
    (s : Setting) (o : Outside) (q : Request) (w : Shared) (n : Counters) (active bound : ℕ)
    → suc active < u64_mod
    → suc bound < u64_mod
    → IsTallied n active bound
    → IsTallied (scrape_page s o q n w).counters active (suc bound)
unfolding scrape_page
scrape_page-IsTallied s o q w n active bound h k t =
    rw (scrape_page, handle-counters s o q n w)
      (leaves-IsTallied n active bound (admitted s o q) (handle s o q (enter n) w).result h k t)

run_requests-IsTallied :
    (s : Setting) (xs : List (Outside × Request × Shared)) (n : Counters) (active bound : ℕ)
    → suc active < u64_mod
    → bound + length xs < u64_mod
    → IsTallied n active bound
    → IsTallied (run_requests s xs n) active (bound + length xs)
unfolding run_requests
run_requests-IsTallied s [] n active bound h k t = record {
  active = t.active;
  failed = t.failed;
  total = omega (arith, t.total);
}
run_requests-IsTallied s ((o, q, w) ∷ xs) n active bound h k t =
    let next = scrape_page-IsTallied s o q w n active bound h (omega (arith, k)) t in
    let rest =
      run_requests-IsTallied s xs (scrape_page s o q n w).counters active (suc bound) h
        (omega (arith, k)) next in
    record { active = rest.active; failed = rest.failed; total = omega (arith, rest.total) }

abbrev pub no_requests : Counters
no_requests = record { active_requests = 0; total_requests = 0; failed_requests = 0 }

-- After fewer than 2^64 requests, one after the other, from counters at zero, no request is active,
-- the total is at most their number, and the success count that get_stats derives and the failures
-- add up to the total.
pub requests_are_counted :
    (s : Setting) (xs : List (Outside × Request × Shared))
    → length xs < u64_mod
    → ((run_requests s xs no_requests).active_requests ≡ 0)
      × ((run_requests s xs no_requests).total_requests ≤ length xs)
      × ((success_counts (run_requests s xs no_requests)).0
            + (run_requests s xs no_requests).failed_requests
          ≡ (run_requests s xs no_requests).total_requests)
unfolding success_counts
requests_are_counted s xs h =
    let t =
      run_requests-IsTallied s xs no_requests 0 0 (omega arith) (omega (arith, h))
        (record { active = refl; failed = omega arith; total = omega arith }) in
    (t.active, omega (arith, t.total), omega (arith, t.failed, t.total, h))
