-- ===== src/Common/Challenge/Verdict.antt =====
-- What crates/common/src/challenge.rs concludes from the documents of a window.
use browser_hive_rs.Base.{
  Bool, arith, not, ◌&&◌, ℕ, ◌≡◌, ◌⊎◌, ◌∙◌, refl, sym, ap, inl, inr, true, false, List, [], ◌∷◌,
  Option, none, some, leb, ltb, any, if◌then◌else◌, All, Bool-cases,
}
use browser_hive_rs.Base.Result.{Result, ok}
use browser_hive_rs.Common.Challenge.{
  DocumentSnapshot, ChallengeDetector, ChallengeOutcome, Cancelled, Round, Look, is_challenge,
  passes, look, at_end, wait_loop, wait_out_challenge,
}

-- The rounds up to the first at which the window is over.
abbrev pub within : ℕ → List Round → List Round
within window [] = []
within window (r ∷ rounds) = r ∷ (if leb window r.elapsed then [] else within window rounds)

-- The documents that they show, in order.
abbrev add_document : Option DocumentSnapshot → List DocumentSnapshot → List DocumentSnapshot
add_document none docs = docs
add_document (some s) docs = s ∷ docs

abbrev pub documents : List Round → List DocumentSnapshot
documents [] = []
documents (r ∷ rounds) = add_document r.latest (documents rounds)

-- A document that no detector takes for a challenge, and one that replaced the first.
abbrev pub is_page : List ChallengeDetector → DocumentSnapshot → Bool
is_page detectors s = not (any (λ d. d s.doc) detectors)

abbrev pub replaces : List ChallengeDetector → ℕ → DocumentSnapshot → Bool
replaces detectors first s = is_page detectors s && (s.is_loaded && ltb first s.seq)

-- The outcome that a list of documents stands for.
abbrev after_first : List ChallengeDetector → ℕ → List DocumentSnapshot → ChallengeOutcome
after_first detectors first docs =
    if any (replaces detectors first) docs
    then ChallengeOutcome.passed
    else ChallengeOutcome.not_passed

unfoldable pub verdict : List ChallengeDetector → List DocumentSnapshot → ChallengeOutcome
verdict detectors [] = ChallengeOutcome.no_challenge
verdict detectors (s ∷ docs) =
    if is_page detectors s then ChallengeOutcome.no_challenge else after_first detectors s.seq docs

abbrev from_state : List ChallengeDetector → Option ℕ → List DocumentSnapshot → ChallengeOutcome
from_state detectors none docs = verdict detectors docs
from_state detectors (some first) docs = after_first detectors first docs

Look-cases :
    (l : Look)
    → ((o : ChallengeOutcome) × (l ≡ Look.ended o)) ⊎ ((next : Option ℕ) × (l ≡ Look.go_on next))
Look-cases (Look.ended o) = inl (o, refl)
Look-cases (Look.go_on next) = inr (next, refl)

module _ (detectors : List ChallengeDetector) (window : ℕ) where
  -- What the documents stand for, after a round that came to this.
  abbrev Goes : Option ℕ → Option DocumentSnapshot → List DocumentSnapshot → Look → Type 0
  Goes first latest docs (Look.ended o) = from_state detectors first (add_document latest docs) ≡ o
  Goes first latest docs (Look.go_on next) =
      from_state detectors first (add_document latest docs) ≡ from_state detectors next docs

  is_page-is_challenge :
      (s : DocumentSnapshot) (b : Bool)
      → is_challenge detectors s.doc ≡ b
      → is_page detectors s ≡ not b
  unfolding is_challenge
  is_page-is_challenge s b e = ap not e

  replaces-passes : (f : ℕ) (s : DocumentSnapshot) → replaces detectors f s ≡ passes detectors f s
  unfolding is_challenge
  replaces-passes f s = ground arith

  verdict-challenge :
      (s : DocumentSnapshot) (docs : List DocumentSnapshot)
      → is_challenge detectors s.doc ≡ true
      → verdict detectors (s ∷ docs) ≡ after_first detectors s.seq docs
  unfolding verdict
  verdict-challenge s docs e = rw (verdict, is_page-is_challenge s true e) refl

  verdict-page :
      (s : DocumentSnapshot) (docs : List DocumentSnapshot)
      → is_challenge detectors s.doc ≡ false
      → verdict detectors (s ∷ docs) ≡ ChallengeOutcome.no_challenge
  unfolding verdict
  verdict-page s docs e = rw (verdict, is_page-is_challenge s false e) refl

  after_first-passed :
      (f : ℕ) (s : DocumentSnapshot) (docs : List DocumentSnapshot)
      → passes detectors f s ≡ true
      → after_first detectors f (s ∷ docs) ≡ ChallengeOutcome.passed
  after_first-passed f s docs e = rw (after_first, replaces-passes f s ∙ e) refl

  after_first-later :
      (f : ℕ) (s : DocumentSnapshot) (docs : List DocumentSnapshot)
      → passes detectors f s ≡ false
      → after_first detectors f (s ∷ docs) ≡ after_first detectors f docs
  after_first-later f s docs e = rw (after_first, replaces-passes f s ∙ e) refl

  look-Goes :
      (first : Option ℕ) (latest : Option DocumentSnapshot) (docs : List DocumentSnapshot)
      → Goes first latest docs (look detectors first latest)
  unfolding verdict
  look-Goes first none docs = refl
  look-Goes none (some s) docs = elim (Bool-cases (is_challenge detectors s.doc)) [
    | inl e ↦ rw e (verdict-challenge s docs e)
    | inr e ↦ rw e (verdict-page s docs e)
  ]
  look-Goes (some f) (some s) docs = elim (Bool-cases (passes detectors f s)) [
    | inl e ↦ rw e (after_first-passed f s docs e)
    | inr e ↦ rw e (after_first-later f s docs e)
  ]

  at_end-from_state : (next : Option ℕ) → from_state detectors next [] ≡ at_end detectors next
  unfolding verdict
  at_end-from_state none = refl
  at_end-from_state (some f) = refl

  wait_loop-verdict :
      (first : Option ℕ) (rounds : List Round)
      → any (λ r. leb window r.elapsed) rounds ≡ true
      → All (λ r. r.is_cancelled ≡ false) rounds
      → wait_loop detectors window first rounds
        ≡ some (ok (from_state detectors first (documents (within window rounds))))
  unfolding wait_loop
  wait_loop-verdict first [] e c = cc
  wait_loop-verdict first (r ∷ rounds) e c =
      let went = look-Goes first r.latest in
      elim (Look-cases (look detectors first r.latest)) [
        | inl (o, k) ↦ rw (wait_loop, c.0, k) (ap answers (sym (rw k at went _)))
        | inr (next, k) ↦ elim (Bool-cases (leb window r.elapsed)) [
          | inl w ↦
              rw (wait_loop, c.0, k, w)
                (ap answers (sym ((rw k at went []) ∙ at_end-from_state next)))
          | inr w ↦
              rw (wait_loop, c.0, k, w)
                (wait_loop-verdict next rounds (rw w at e) c.1 ∙ ap answers (sym (rw k at went _)))
        ]
      ]
    where
      answers : ChallengeOutcome → Option (Result Cancelled ChallengeOutcome)
      answers o = some (ok o)

  -- A wait whose rounds come to the end of the window and are not cancelled returns the verdict on
  -- the documents seen up to there: no challenge where there are none or the first is none, passed
  -- where a later document has a higher number, is loaded and is no challenge, and else failed.
  pub wait_out_challenge-verdict :
      (rounds : List Round)
      → any (λ r. leb window r.elapsed) rounds ≡ true
      → All (λ r. r.is_cancelled ≡ false) rounds
      → wait_out_challenge detectors window rounds
        ≡ some (ok (verdict detectors (documents (within window rounds))))
  unfolding wait_out_challenge
  wait_out_challenge-verdict rounds e c = wait_loop-verdict none rounds e c
