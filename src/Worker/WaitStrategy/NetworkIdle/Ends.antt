-- ===== src/Worker/WaitStrategy/NetworkIdle/Ends.antt =====
-- How long `NetworkIdleStrategy` of crates/common/src/wait_strategy.rs can wait.
use browser_hive_rs.Base.{ℕ, ◌≡◌, Bool, true, ◌||◌, List, [], ◌∷◌, leb, any, is_some, arith}
use browser_hive_rs.Worker.WaitStrategy.NetworkIdle.{
  Round, Search, Page, idle_loop, search_loop, run, total, search_limit,
}

module _ (has_skip has_wait : Bool) where
  is_some-idle_loop :
      (total : ℕ) (rounds : List Round)
      → any (λ r. leb total r.elapsed) rounds ≡ true
      → is_some (idle_loop has_skip has_wait total rounds) ≡ true
  unfolding idle_loop
  is_some-idle_loop total [] late = ground arith
  is_some-idle_loop total (r ∷ rounds) late = ground (arith, is_some-idle_loop total rounds)

  is_some-search_loop :
      (total limit : ℕ) (searches : List Search)
      → any (λ p. leb limit p.searched || leb total p.elapsed) searches ≡ true
      → is_some (search_loop has_skip has_wait total limit searches) ≡ true
  unfolding search_loop
  is_some-search_loop total limit [] late = ground arith
  is_some-search_loop total limit (p ∷ searches) late =
      ground (arith, is_some-search_loop total limit searches)

pub run_ends :
    (has_skip has_wait : Bool) (timeout_ms : ℕ) (page : Page)
    → any (λ r. leb (total has_skip has_wait timeout_ms page) r.elapsed) page.rounds ≡ true
    → any
        (λ p.
          leb (search_limit has_skip has_wait timeout_ms page) p.searched
          || leb (total has_skip has_wait timeout_ms page) p.elapsed)
        page.searches
      ≡ true
    → is_some (run has_skip has_wait timeout_ms page) ≡ true
unfolding run
run_ends has_skip has_wait timeout_ms page late searched = ground (
  arith,
  is_some-idle_loop has_skip has_wait (total has_skip has_wait timeout_ms page) page.rounds,
  is_some-search_loop has_skip has_wait (total has_skip has_wait timeout_ms page)
      (search_limit has_skip has_wait timeout_ms page) page.searches,
)
