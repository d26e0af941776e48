-- ===== src/Worker/Shutdown/Honest.antt =====
-- What the outcomes of the drain in crates/worker/src/shutdown.rs mean, and when it ends.
use browser_hive_rs.Base.{
  ℕ, ◌+◌, ◌≡◌, refl, Bool, true, ◌&&◌, List, [], ◌∷◌, Option, none, some, ltb, leb, ◌==◌, any,
  is_some, arith, inl, inr, Option-cases,
}
use browser_hive_rs.Worker.Shutdown.{DrainOutcome, Round, shorter, drain}

-- Whether some round bears an outcome out.
abbrev pub is_borne_out : ℕ → ℕ → ℕ → List Round → DrainOutcome → Bool
is_borne_out start min_pause timeout rounds DrainOutcome.drained =
    any (λ r. r.remaining == 0 && leb (start + shorter min_pause timeout) r.now) rounds
is_borne_out start min_pause timeout rounds (DrainOutcome.timed_out n) =
    ltb 0 n && any (λ r. r.remaining == n && leb (start + timeout) r.now) rounds
is_borne_out start min_pause timeout rounds (DrainOutcome.interrupted n) =
    any (λ r. is_some r.interrupt && ltb r.now (start + timeout)) rounds

module _ (start min_pause timeout : ℕ) where
  abbrev outcome_borne_out : List Round → Option DrainOutcome → Bool
  outcome_borne_out rounds none = true
  outcome_borne_out rounds (some o) = is_borne_out start min_pause timeout rounds o

  drain-outcome :
      (rounds : List Round) → outcome_borne_out rounds (drain start min_pause timeout rounds) ≡ true
  unfolding drain
  drain-outcome [] = refl
  drain-outcome (r ∷ rounds) = ground (arith, drain-outcome rounds)

  is_some-drain :
      (rounds : List Round)
      → any (λ r. leb (start + timeout) r.now) rounds ≡ true
      → is_some (drain start min_pause timeout rounds) ≡ true
  unfolding drain
  is_some-drain [] late = ground arith
  is_some-drain (r ∷ rounds) late = ground (arith, is_some-drain rounds)

-- A drain whose rounds come to its deadline ends, as drained only where a round after the pause,
-- cut to the timeout where that is shorter, saw no request in flight, as timed out with a number
-- only where it is not 0 and a round at the deadline saw it, and as interrupted only where an
-- interrupt came before the deadline.
pub drain-IsBorneOut :
    (start min_pause timeout : ℕ) (rounds : List Round)
    → any (λ r. leb (start + timeout) r.now) rounds ≡ true
    → (o : DrainOutcome) × (drain start min_pause timeout rounds ≡ some o)
      × (is_borne_out start min_pause timeout rounds o ≡ true)
drain-IsBorneOut start min_pause timeout rounds late =
    elim (Option-cases (drain start min_pause timeout rounds)) [
      | inl e ↦ let never = rw e at (is_some-drain start min_pause timeout rounds late) in cc
      | inr (o, e) ↦ (o, e, rw e at (drain-outcome start min_pause timeout rounds))
    ]
