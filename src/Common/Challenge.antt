-- ===== src/Common/Challenge.antt =====
-- Waiting out an anti-bot challenge: crates/common/src/challenge.rs. A loop is a recursion on the
-- rounds that it can make, each with what the code reads in it; where they run out it has no answer.
-- The headers of a document stand in the order in which the map yields them.
pub mod Verdict
use browser_hive_rs.Base.{
  ℕ, Bool, true, false, not, ◌&&◌, List, [], ◌∷◌, Option, none, some, ltb, leb, ◌==◌, any,
  if◌then◌else◌, is_some, head?,
}
use browser_hive_rs.Base.Text.{Text, codes, text_eq}
use browser_hive_rs.Base.Map.{Map}
use browser_hive_rs.Base.Result.{Result, ok, err}
use browser_hive_rs.Base.Strings.{to_ascii_lowercase, split, trim}

pub record MainDocument : Type 0 where
  pub status : ℕ
  pub headers : Map Text
  pub url : Text

abbrev pub default : MainDocument
default = record { status = 0; headers = []; url = [] }

unfoldable pub eq_ignore_ascii_case : Text → Text → Bool
unfolding to_ascii_lowercase
eq_ignore_ascii_case s t = text_eq (to_ascii_lowercase s) (to_ascii_lowercase t)

unfoldable pub find_header : Text → Map Text → Option Text
unfolding eq_ignore_ascii_case
find_header name [] = none
find_header name ((k, v) ∷ headers) =
    if eq_ignore_ascii_case k name then some v else find_header name headers

unfoldable pub header : Text → MainDocument → Option Text
unfolding find_header
header name doc = find_header name doc.headers

abbrev pub is_json_type : Text → Bool
is_json_type media_type = eq_ignore_ascii_case (trim media_type) (codes "application/json")

abbrev pub on_some {ℓ} : {A : Type ℓ} → (A → Bool) → Option A → Bool
on_some p none = false
on_some p (some a) = p a

unfoldable pub is_json : MainDocument → Bool
unfolding header split trim eq_ignore_ascii_case
is_json doc =
    on_some (λ value. on_some is_json_type (head? (split (λ c. c == b';') value)))
      (header (codes "content-type") doc)

-- `HeaderChallengeDetector`: its rules.
abbrev pub HeaderChallengeDetector : Type 0
HeaderChallengeDetector = List (Text × Option Text)

abbrev pub matches_value : Option Text → Text → Bool
matches_value none value = true
matches_value (some expected) value =
    any (λ v. eq_ignore_ascii_case (trim v) (trim expected)) (split (λ c. c == 10) value)

unfoldable pub header_is_challenge : HeaderChallengeDetector → MainDocument → Bool
unfolding header split trim eq_ignore_ascii_case
header_is_challenge rules doc = any (λ r. on_some (matches_value r.1) (header r.0 doc)) rules

-- The trait `ChallengeDetector`.
abbrev pub ChallengeDetector : Type 0
ChallengeDetector = MainDocument → Bool

pub record DocumentSnapshot : Type 0 where
  pub seq : ℕ
  pub is_loaded : Bool
  pub doc : MainDocument

pub data ChallengeOutcome : Type 0 where
  no_challenge passed not_passed skipped : ChallengeOutcome

unfoldable pub as_str : ChallengeOutcome → Text
as_str ChallengeOutcome.no_challenge = codes "none"
as_str ChallengeOutcome.passed = codes "passed"
as_str ChallengeOutcome.not_passed = codes "failed"
as_str ChallengeOutcome.skipped = codes "skipped"

unfoldable pub is_challenge : List ChallengeDetector → MainDocument → Bool
is_challenge detectors doc = any (λ d. d doc) detectors

-- One round of a loop: the token, the probe, and the time since the start.
pub record Round : Type 0 where
  pub is_cancelled : Bool
  pub latest : Option DocumentSnapshot
  pub elapsed : ℕ

-- The error of `check_cancellation`.
pub data Cancelled : Type 0 where
  cancelled : Cancelled

-- A round ends the loop or leaves the number of the first document.
pub data Look : Type 0 where
  ended : ChallengeOutcome → Look
  go_on : Option ℕ → Look

module _ (detectors : List ChallengeDetector) where
  abbrev pub passes : ℕ → DocumentSnapshot → Bool
  passes first s = ltb first s.seq && (s.is_loaded && not (is_challenge detectors s.doc))

  abbrev pub look : Option ℕ → Option DocumentSnapshot → Look
  look first none = Look.go_on first
  look none (some s) =
      if is_challenge detectors s.doc
      then Look.go_on (some s.seq)
      else Look.ended ChallengeOutcome.no_challenge
  look (some first) (some s) =
      if passes first s then Look.ended ChallengeOutcome.passed else Look.go_on (some first)

  abbrev pub at_end : Option ℕ → ChallengeOutcome
  at_end none = ChallengeOutcome.no_challenge
  at_end (some first) = ChallengeOutcome.not_passed

  unfoldable pub wait_loop : ℕ → Option ℕ → List Round → Option (Result Cancelled ChallengeOutcome)
  wait_loop window first [] = none
  wait_loop window first (r ∷ rounds) = elim r.is_cancelled [
    | true ↦ some (err Cancelled.cancelled)
    | false ↦ elim (look first r.latest) [
      | Look.ended outcome ↦ some (ok outcome)
      | Look.go_on next ↦ elim (leb window r.elapsed) [
        | true ↦ some (ok (at_end next))
        | false ↦ wait_loop window next rounds
      ]
    ]
  ]

  unfoldable pub wait_out_challenge : ℕ → List Round → Option (Result Cancelled ChallengeOutcome)
  unfolding wait_loop
  wait_out_challenge window rounds = wait_loop window none rounds

-- What a round of `wait_for_json_body` sees: no JSON document, one that loads still, a loaded one.
pub data Body : Type 0 where
  not_json loading arrived : Body

abbrev pub body_of : Option DocumentSnapshot → Body
body_of none = Body.not_json
body_of (some s) =
    if is_json s.doc then (if s.is_loaded then Body.arrived else Body.loading) else Body.not_json

unfoldable pub wait_for_json_body : ℕ → List Round → Option (Result Cancelled Bool)
unfolding is_json
wait_for_json_body budget [] = none
wait_for_json_body budget (r ∷ rounds) = elim r.is_cancelled [
  | true ↦ some (err Cancelled.cancelled)
  | false ↦ elim (body_of r.latest) [
    | Body.not_json ↦ some (ok false)
    | Body.arrived ↦ some (ok true)
    | Body.loading ↦ elim (leb budget r.elapsed) [
      | true ↦ some (ok true)
      | false ↦ wait_for_json_body budget rounds
    ]
  ]
]
