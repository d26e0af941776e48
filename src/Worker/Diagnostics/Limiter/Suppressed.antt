-- ===== src/Worker/Diagnostics/Limiter/Suppressed.antt =====
-- The suppressed emissions that the limiter of crates/worker/src/diagnostics.rs reports later.
use browser_hive_rs.Base.{
  ℕ, ◌+◌, ◌≤◌, ◌<◌, ◌≡◌, refl, sym, subst, false, not, List, [], ◌∷◌, Option, is_some, unwrap_or,
  arith, ◌==◌, count_if, sum_by, length,
}
use browser_hive_rs.Worker.Diagnostics.Limiter.{
  LimiterState, u32_mod, refresh, take_slot, try_acquire, calls,
}

abbrev pub denied : List (Option ℕ) → ℕ
denied = count_if (λ o. not (is_some o))

abbrev pub reported : List (Option ℕ) → ℕ
reported = sum_by (λ o. unwrap_or o 0)

take_slot_balance :
    (max : ℕ) (st : LimiterState)
    → st.suppressed + 1 < u32_mod
    → unwrap_or (take_slot max st).0 0 + (take_slot max st).1.suppressed
      ≡ st.suppressed + denied ((take_slot max st).0 ∷ [])
take_slot_balance max st h = ground arith

take_slot-suppressed-le :
    (max : ℕ) (st : LimiterState)
    → st.suppressed + 1 < u32_mod
    → (take_slot max st).1.suppressed ≤ st.suppressed + 1
take_slot-suppressed-le max st h = ground arith

refresh-suppressed :
    (now later : ℕ) (st : LimiterState) → (refresh now later st).suppressed ≡ st.suppressed
refresh-suppressed now later st = ground arith

calls_cons :
    (max now : ℕ) (times : List ℕ) (st : LimiterState)
    → (max == 0) ≡ false
    → calls max (now ∷ times) st ≡ (
      (take_slot max (refresh now now st)).0
          ∷ (calls max times (take_slot max (refresh now now st)).1).0,
      (calls max times (take_slot max (refresh now now st)).1).1,
    )
unfolding calls try_acquire
calls_cons max now times st h = rw h refl

abbrev Balances : ℕ → List (Option ℕ) × LimiterState → Type 0
Balances before r = reported r.0 + r.1.suppressed ≡ before + denied r.0

-- What is reported as suppressed, with what is still to report, is what was denied.
pub suppressed_is_reported :
    (max : ℕ) (times : List ℕ) (st : LimiterState)
    → (max == 0) ≡ false
    → st.suppressed + length times < u32_mod
    → reported (calls max times st).0 + (calls max times st).1.suppressed
      ≡ st.suppressed + denied (calls max times st).0
unfolding calls
suppressed_is_reported max [] st h b = omega arith
suppressed_is_reported max (now ∷ times) st h b =
    let st' = refresh now now st in
    let kept = refresh-suppressed now now st in
    let small : st'.suppressed + 1 < u32_mod = omega (arith, kept, b) in
    let rest =
      suppressed_is_reported max times (take_slot max st').1 h
        (omega (arith, take_slot-suppressed-le max st' small, kept, b)) in
    subst (Balances st.suppressed) (sym (calls_cons max now times st h))
      (ground (arith, rest, take_slot_balance max st' small, kept))
