-- ===== src/Worker/WaitStrategy/NetworkIdle/Earned.antt =====
-- What the answers of `NetworkIdleStrategy` in crates/common/src/wait_strategy.rs rest on.
use browser_hive_rs.Base.{
  ◌==◌, ℕ, ◌≡◌, refl, Bool, true, false, not, ◌&&◌, ◌||◌, List, [], ◌∷◌, Option, none, some, any,
  arith,
}
use browser_hive_rs.Base.Text.{Text}
use browser_hive_rs.Base.Result.{Result, ok, err}
use browser_hive_rs.Worker.Outcome.{WaitResult, should_exit_early}
use browser_hive_rs.Worker.WaitStrategy.NetworkIdle.{
  Round, Ready, Search, Page, Phase, exits_early, idle_loop, after_ready, search_loop, run, total,
  search_limit,
}

abbrev pub is_seen : Result Text Bool → Bool
is_seen (ok b) = b
is_seen (err e) = false

-- Whether the page ever showed the wait selector, the skip selector, or a status that blocks it.
abbrev pub shows_wait : Page → Bool
shows_wait page =
    any (λ r. is_seen r.final_seen) page.rounds
    || (is_seen page.ready.final_seen
        || any (λ p. is_seen p.wait_seen || is_seen p.final_seen) page.searches)

abbrev pub shows_skip : Page → Bool
shows_skip page =
    any (λ r. is_seen r.skip_seen) page.rounds
    || (is_seen page.ready.skip_seen || any (λ p. is_seen p.skip_seen) page.searches)

-- 403 or 429.
abbrev pub is_refusal : Option ℕ → Bool
is_refusal none = false
is_refusal (some status) = (status == 403) || (status == 429)

abbrev pub is_blocked : Page → Bool
is_blocked page = any (λ r. is_refusal r.status) page.rounds || is_refusal page.ready.status

-- What an answer rests on.
abbrev pub earned : Bool → Bool → Bool → Bool → Bool → Result Text WaitResult → Bool
earned has_skip has_wait wait skip blocked (err e) = true
earned has_skip has_wait wait skip blocked (ok WaitResult.success) =
    not has_wait || (wait || blocked)
earned has_skip has_wait wait skip blocked (ok WaitResult.skip_found) = has_skip && skip
earned has_skip has_wait wait skip blocked (ok WaitResult.wait_not_found) = has_wait

module _ (has_skip has_wait : Bool) where
  abbrev phase_earned : Bool → Bool → Bool → Option Phase → Bool
  phase_earned wait skip blocked none = true
  phase_earned wait skip blocked (some Phase.go_on) = true
  phase_earned wait skip blocked (some (Phase.ended a)) =
      earned has_skip has_wait wait skip blocked a

  idle_loop-earned :
      (total : ℕ) (rounds : List Round)
      → phase_earned
          (any (λ r. is_seen r.final_seen) rounds)
          (any (λ r. is_seen r.skip_seen) rounds)
          (any (λ r. exits_early r.status) rounds)
          (idle_loop has_skip has_wait total rounds)
        ≡ true
  unfolding idle_loop
  idle_loop-earned total [] = refl
  idle_loop-earned total (r ∷ rounds) = ground (arith, idle_loop-earned total rounds)

  after_ready-earned :
      (total : ℕ) (d : Ready)
      → phase_earned
          (is_seen d.final_seen)
          (is_seen d.skip_seen)
          (exits_early d.status)
          (some (after_ready has_skip has_wait total d))
        ≡ true
  unfolding after_ready
  after_ready-earned total d = ground arith

  abbrev search_earned : Bool → Bool → Option (Result Text WaitResult) → Bool
  search_earned wait skip none = true
  search_earned wait skip (some a) = earned has_skip true wait skip false a

  search_loop-earned :
      (total limit : ℕ) (searches : List Search)
      → search_earned
          (any (λ p. is_seen p.wait_seen || is_seen p.final_seen) searches)
          (any (λ p. is_seen p.skip_seen) searches)
          (search_loop has_skip has_wait total limit searches)
        ≡ true
  unfolding search_loop
  search_loop-earned total limit [] = refl
  search_loop-earned total limit (p ∷ searches) =
      ground (arith, search_loop-earned total limit searches)

exits_early-is_refusal : (status : Option ℕ) → exits_early status ≡ is_refusal status
unfolding should_exit_early
exits_early-is_refusal status = ground arith

any-exits_early :
    (rounds : List Round)
    → any (λ r. exits_early r.status) rounds ≡ any (λ r. is_refusal r.status) rounds
any-exits_early [] = refl
any-exits_early (r ∷ rounds) =
    ground (arith, exits_early-is_refusal r.status, any-exits_early rounds)

-- Where the network_idle strategy ends in success for a request with a wait selector, some look
-- found the selector or some status read was 403 or 429, where it ends in a found skip selector the
-- request has one and some look found it, and it ends in a missing wait selector only for a request
-- with one.
pub run-earned :
    (has_skip has_wait : Bool) (timeout_ms : ℕ) (page : Page) (r : Result Text WaitResult)
    → run has_skip has_wait timeout_ms page ≡ some r
    → earned has_skip has_wait (shows_wait page) (shows_skip page) (is_blocked page) r ≡ true
unfolding run
run-earned has_skip has_wait timeout_ms page r e = ground (
  arith,
  idle_loop-earned has_skip has_wait (total has_skip has_wait timeout_ms page) page.rounds,
  after_ready-earned has_skip has_wait (total has_skip has_wait timeout_ms page) page.ready,
  search_loop-earned has_skip has_wait (total has_skip has_wait timeout_ms page)
      (search_limit has_skip has_wait timeout_ms page) page.searches,
  any-exits_early page.rounds,
  exits_early-is_refusal page.ready.status,
)
