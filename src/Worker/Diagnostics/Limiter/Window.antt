-- ===== src/Worker/Diagnostics/Limiter/Window.antt =====
-- How many calls the limiter of crates/worker/src/diagnostics.rs admits.
use browser_hive_rs.Base.{
  ℕ, ◌+◌, ◌-◌, ◌*◌, ◌≤◌, ◌<◌, ◌≡◌, refl, inl, inr, true, false, List, [], ◌∷◌, Option, is_some,
  arith, leb, ◌==◌, All, All-map, Bool-cases, count_if,
}
use browser_hive_rs.Worker.Diagnostics.Limiter.{
  LimiterState, minute, refresh, take_slot, try_acquire, calls,
}

abbrev pub admitted : List (Option ℕ) → ℕ
admitted = count_if is_some

-- The first call, and the others from the state that it leaves.
calls_cons :
    (max now : ℕ) (times : List ℕ) (st : LimiterState)
    → (max == 0) ≡ false
    → admitted (calls max (now ∷ times) st).0
      ≡ admitted ((take_slot max (refresh now now st)).0 ∷ [])
        + admitted (calls max times (take_slot max (refresh now now st)).1).0
unfolding calls try_acquire
calls_cons max now times st h = rw h (ground arith)

-- A slot that is given out is counted.
take_slot_used :
    (max : ℕ) (st : LimiterState)
    → admitted ((take_slot max st).0 ∷ []) + st.used ≡ (take_slot max st).1.used
take_slot_used max st = ground arith

take_slot_bound : (max : ℕ) (st : LimiterState) → st.used ≤ max → (take_slot max st).1.used ≤ max
take_slot_bound max st u = ground arith

take_slot_window :
    (max : ℕ) (st : LimiterState) → (take_slot max st).1.window_start ≡ st.window_start
take_slot_window max st = ground arith

refresh_kept :
    (now : ℕ) (st : LimiterState) → now - st.window_start < minute → refresh now now st ≡ st
refresh_kept now st h = rw young refl
  where
    young : leb minute (now - st.window_start) ≡ false
    young = ground arith

abbrev pub IsWithin : ℕ → List ℕ → Type 0
IsWithin start times = All (λ t. t - start < minute) times

-- While the window that `st` counts lasts, its slots are all there are.
admitted_in_window :
    (max : ℕ) (times : List ℕ) (st : LimiterState)
    → (max == 0) ≡ false
    → IsWithin st.window_start times
    → st.used ≤ max
    → admitted (calls max times st).0 + st.used ≤ max
unfolding calls
admitted_in_window max [] st h w u = omega (arith, u)
admitted_in_window max (now ∷ times) st h w u =
    let next = take_slot max st in
    let rest =
      admitted_in_window max times next.1 h (rw (take_slot_window max st) w.1)
        (take_slot_bound max st u) in
    rw (calls_cons max now times st h, refresh_kept now st w.0)
      (omega (arith, rest, take_slot_used max st))

later_window :
    (start now : ℕ) (times : List ℕ) → start ≤ now → IsWithin start times → IsWithin now times
later_window start now times h w = All-map (λ t k. omega (arith, h, k)) times w

abbrev fresh_at : ℕ → LimiterState → LimiterState
fresh_at now st = record { window_start = now; used = 0; suppressed = st.suppressed }

refresh_new :
    (now : ℕ) (st : LimiterState)
    → minute ≤ now - st.window_start
    → refresh now now st ≡ fresh_at now st
refresh_new now st h = rw old refl
  where
    old : leb minute (now - st.window_start) ≡ true
    old = ground arith

-- With a limit that is not zero, the calls whose times lie within one minute from an instant,
-- before which none of them falls, are admitted at most twice the limit times, the slots already
-- used in the current window included, where these are within the limit.
pub admitted_per_minute :
    (max start : ℕ) (times : List ℕ) (st : LimiterState)
    → (max == 0) ≡ false
    → All (λ t. start ≤ t) times
    → IsWithin start times
    → st.used ≤ max
    → admitted (calls max times st).0 + st.used ≤ 2 * max
unfolding calls
admitted_per_minute max start [] st h a w u = omega (arith, u)
admitted_per_minute max start (now ∷ times) st h a w u =
    elim (Bool-cases (leb minute (now - st.window_start))) [
      | inr young ↦
          let rest =
            admitted_per_minute max start times (take_slot max st).1 h a.1 w.1
              (take_slot_bound max st u) in
          rw (calls_cons max now times st h, refresh_kept now st (ground arith))
            (omega (arith, rest, take_slot_used max st))
      | inl old ↦
          let fresh = fresh_at now st in
          let rest =
            admitted_in_window max times (take_slot max fresh).1 h
              (rw (take_slot_window max fresh) (later_window start now times a.0 w.1))
              (take_slot_bound max fresh (omega arith)) in
          rw (calls_cons max now times st h, refresh_new now st (ground arith))
            (omega (arith, rest, take_slot_used max fresh, u))
    ]
