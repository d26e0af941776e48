-- ===== src/Worker/Documents/Passed.antt =====
-- A challenge on the documents of the listener (crates/worker/src/service.rs, and
-- crates/common/src/challenge.rs).
use browser_hive_rs.Base.{
  ℕ, ◌+◌, ◌<◌, ◌≤◌, ◌≡◌, refl, inl, inr, Bool, true, false, not, ◌||◌, List, [], ◌∷◌, none, some,
  is_some, ltb, arith, count_if, u64_mod, Option-cases,
}
use browser_hive_rs.Base.Text.{Text}
use browser_hive_rs.Base.Result.{ok}
use browser_hive_rs.Common.Challenge.{
  DocumentSnapshot, ChallengeDetector, ChallengeOutcome, Round, wait_loop, wait_out_challenge,
}
use browser_hive_rs.Worker.Documents.{
  ObservedDocuments, Event, no_documents, latest_snapshot, mark_document_loaded, listen, listen_all,
}
use browser_hive_rs.Worker.Documents.Latest.{is_document, seq-listen}

-- The events that come before a round of the wait, and its clock.
pub record Step : Type 0 where
  pub events : List Event
  pub elapsed : ℕ

module _ (main : Text) where
  abbrev pub rounds_from : ObservedDocuments → List Step → List Round
  rounds_from docs [] = []
  rounds_from docs (s ∷ steps) =
      record {
        is_cancelled = false;
        latest = latest_snapshot (listen_all main s.events docs);
        elapsed = s.elapsed;
      }
      ∷ rounds_from (listen_all main s.events docs) steps

  -- The number of main documents.
  abbrev pub documents_in : List Step → ℕ
  documents_in [] = 0
  documents_in (s ∷ steps) = count_if (is_document main) s.events + documents_in steps

  seq-listen_all-exact :
      (docs : ObservedDocuments) (events : List Event)
      → docs.seq + count_if (is_document main) events < u64_mod
      → (listen_all main events docs).seq ≡ docs.seq + count_if (is_document main) events
  seq-listen_all-exact docs [] few = ground arith
  seq-listen_all-exact docs (e ∷ events) few =
      ground (arith, seq-listen main docs e, seq-listen_all-exact (listen main e docs) events)

  -- A document that is there has a number above 0.
  abbrev is_numbered : ObservedDocuments → Bool
  is_numbered docs = not (is_some docs.latest) || ltb 0 docs.seq

  is_numbered-listen :
      (docs : ObservedDocuments) (e : Event)
      → docs.seq + count_if (is_document main) (e ∷ []) < u64_mod
      → is_numbered docs ≡ true
      → is_numbered (listen main e docs) ≡ true
  unfolding listen mark_document_loaded
  is_numbered-listen docs (Event.response_received t f i d) few n = ground arith
  is_numbered-listen docs (Event.loading_finished i) few n = ground arith
  is_numbered-listen docs (Event.loading_failed i) few n = ground arith

  is_numbered-listen_all :
      (docs : ObservedDocuments) (events : List Event)
      → docs.seq + count_if (is_document main) events < u64_mod
      → is_numbered docs ≡ true
      → is_numbered (listen_all main events docs) ≡ true
  is_numbered-listen_all docs [] few n = n
  is_numbered-listen_all docs (e ∷ events) few n =
      is_numbered-listen_all (listen main e docs) events
        (ground (arith, seq-listen main docs e, few))
        (is_numbered-listen docs e (ground (arith, few)) n)

  latest_snapshot-seq :
      (docs : ObservedDocuments) (s : DocumentSnapshot)
      → latest_snapshot docs ≡ some s
      → (s.seq ≡ docs.seq) × (is_some docs.latest ≡ true)
  unfolding latest_snapshot
  latest_snapshot-seq docs s e = ground arith

  module _ (detectors : List ChallengeDetector) (window : ℕ) where
    passed-later :
        (f : ℕ) (docs : ObservedDocuments) (steps : List Step)
        → docs.seq + documents_in steps < u64_mod
        → wait_loop detectors window (some f) (rounds_from docs steps)
          ≡ some (ok ChallengeOutcome.passed)
        → f < docs.seq + documents_in steps
    unfolding wait_loop
    passed-later f docs [] few e = cc
    passed-later f docs (s ∷ steps) few e =
        let after = listen_all main s.events docs in
        let number = seq-listen_all-exact docs s.events (omega (arith, few)) in
        elim (Option-cases (latest_snapshot after)) [
          | inl k ↦ ground (arith, k, number, passed-later f after steps)
          | inr (d, k) ↦
              ground (arith, k, number, latest_snapshot-seq after d k, passed-later f after steps)
        ]

    passed-first :
        (docs : ObservedDocuments) (steps : List Step)
        → docs.seq + documents_in steps < u64_mod
        → is_numbered docs ≡ true
        → wait_loop detectors window none (rounds_from docs steps)
          ≡ some (ok ChallengeOutcome.passed)
        → 2 ≤ docs.seq + documents_in steps
    unfolding wait_loop
    passed-first docs [] few n e = cc
    passed-first docs (s ∷ steps) few n e =
        let after = listen_all main s.events docs in
        let number = seq-listen_all-exact docs s.events (omega (arith, few)) in
        let numbered = is_numbered-listen_all docs s.events (omega (arith, few)) n in
        elim (Option-cases (latest_snapshot after)) [
          | inl k ↦ ground (arith, k, number, numbered, passed-first after steps)
          | inr (d, k) ↦ ground (
            arith,
            k,
            number,
            numbered,
            latest_snapshot-seq after d k,
            passed-later d.seq after steps,
          )
        ]

    -- A wait for a challenge on the documents that the listener collects from fewer than 2^64 main
    -- documents reports it as passed only where a second main document came within its rounds.
    pub passed_on_second :
        (steps : List Step)
        → documents_in steps < u64_mod
        → wait_out_challenge detectors window (rounds_from no_documents steps)
          ≡ some (ok ChallengeOutcome.passed)
        → 2 ≤ documents_in steps
    unfolding wait_out_challenge
    passed_on_second steps few e =
        ground (arith, passed-first no_documents steps (omega (arith, few)) refl e)
