-- ===== src/Worker/WaitStrategy/Timeout/Priority.antt =====
-- The order of the two selectors in `TimeoutStrategy` of crates/common/src/wait_strategy.rs.
use browser_hive_rs.Base.{
  ℕ, ◌*◌, ◌≡◌, Bool, true, false, not, ◌&&◌, ◌||◌, List, [], ◌∷◌, map, some, leb, any,
  if◌then◌else◌, arith,
}
use browser_hive_rs.Base.Result.{ok}
use browser_hive_rs.Worker.Outcome.{WaitResult}
use browser_hive_rs.Worker.WaitBudget.{effective_timeout}
use browser_hive_rs.Worker.WaitStrategy.{millisecond}
use browser_hive_rs.Worker.WaitStrategy.Timeout.{Poll, poll_loop, run}

-- A round in which nothing fails and nothing is cancelled.
pub record Look : Type 0 where
  pub skip : Bool
  pub wait : Bool
  pub elapsed : ℕ
  pub final : Bool

abbrev pub quiet : Look → Poll
quiet l = record {
  is_cancelled = false;
  skip_seen = ok l.skip;
  wait_seen = ok l.wait;
  elapsed = l.elapsed;
  final_seen = ok l.final;
}

-- The rounds up to the first at which the timeout is over.
abbrev pub within : ℕ → List Look → List Look
within timeout [] = []
within timeout (l ∷ looks) = l ∷ (if leb timeout l.elapsed then [] else within timeout looks)

-- Whether the wait selector is seen in a round, or in the final look of the last one.
abbrev pub shows_wait : List Look → Bool
shows_wait [] = false
shows_wait (l ∷ []) = l.wait || l.final
shows_wait (l ∷ k ∷ looks) = l.wait || shows_wait (k ∷ looks)

-- The skip selector wins wherever it shows up, then the wait selector is asked for.
abbrev pub verdict : Bool → Bool → List Look → WaitResult
verdict has_skip has_wait looks =
    if has_skip && any (λ l. l.skip) looks
    then WaitResult.skip_found
    else (if has_wait && not (shows_wait looks)
        then WaitResult.wait_not_found
        else WaitResult.success)

-- The same once the wait selector has been seen.
abbrev seen_verdict : List Look → WaitResult
seen_verdict looks = if any (λ l. l.skip) looks then WaitResult.skip_found else WaitResult.success

module _ (timeout : ℕ) where
  seen-loop :
      (looks : List Look)
      → any (λ l. leb timeout l.elapsed) looks ≡ true
      → poll_loop timeout true true true (map quiet looks)
        ≡ some (ok (seen_verdict (within timeout looks)))
  unfolding poll_loop
  seen-loop [] e = cc
  seen-loop (l ∷ looks) e = ground (arith, seen-loop looks)

  unseen-loop :
      (has_skip has_wait : Bool) (looks : List Look)
      → any (λ l. leb timeout l.elapsed) looks ≡ true
      → poll_loop timeout has_skip has_wait false (map quiet looks)
        ≡ some (ok (verdict has_skip has_wait (within timeout looks)))
  unfolding poll_loop
  unseen-loop has_skip has_wait [] e = cc
  unseen-loop has_skip has_wait (l ∷ []) e = ground arith
  unseen-loop has_skip has_wait (l ∷ k ∷ looks) e =
      ground (arith, unseen-loop has_skip has_wait (k ∷ looks), seen-loop (k ∷ looks))

-- In a timeout wait in which nothing fails or is cancelled and whose rounds come to the timeout,
-- the answer is that of the rounds up to there: a skip selector of the request that any of them
-- shows wins, then a wait selector of the request that none shows is missing, and else the wait
-- succeeds.
pub timeout-verdict :
    (timeout_ms : ℕ) (has_skip has_wait : Bool) (looks : List Look)
    → any (λ l. leb (effective_timeout timeout_ms * millisecond) l.elapsed) looks ≡ true
    → run (ok tt) timeout_ms has_skip has_wait (map quiet looks)
      ≡ some (
          ok
            (verdict has_skip has_wait (within (effective_timeout timeout_ms * millisecond) looks)))
unfolding run
timeout-verdict timeout_ms has_skip has_wait looks e =
    unseen-loop (effective_timeout timeout_ms * millisecond) has_skip has_wait looks e
