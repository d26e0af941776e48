-- ===== src/Worker/Documents/Latest.antt =====
-- What the probe of crates/worker/src/service.rs sees after a run of the listener.
use browser_hive_rs.Base.{
  Option, none, ◌&&◌, ℕ, ◌≡◌, refl, ◌∙◌, ap, Bool, true, false, ◌||◌, List, [], ◌∷◌, ◌++◌, some,
  any, if◌then◌else◌, arith, fetch_add,
}
use browser_hive_rs.Base.Text.{Text, text_eq, text_eq_refl}
use browser_hive_rs.Common.Challenge.{MainDocument}
use browser_hive_rs.Worker.Documents.{
  ObservedDocuments, Event, no_documents, latest_snapshot, mark_document_loaded, listen, listen_all,
}

abbrev pub is_frame : Text → Option Text → Bool
is_frame main none = false
is_frame main (some f) = text_eq f main

-- A main document, and the end of a load.
abbrev pub is_document : Text → Event → Bool
is_document main (Event.response_received t frame id doc) = t && is_frame main frame
is_document main (Event.loading_finished id) = false
is_document main (Event.loading_failed id) = false

abbrev pub ends_load : Text → Event → Bool
ends_load i (Event.response_received t frame id doc) = false
ends_load i (Event.loading_finished id) = text_eq i id
ends_load i (Event.loading_failed id) = text_eq i id

-- The number of main documents, in 64 bits.
abbrev pub count_documents : Text → List Event → ℕ → ℕ
count_documents main [] n = n
count_documents main (e ∷ events) n =
    count_documents main events (if is_document main e then fetch_add n 1 else n)

abbrev holding : MainDocument → Text → ℕ → Bool → ObservedDocuments
holding doc id n l = record { latest = some doc; request_id = id; seq = n; is_loaded = l }

module _ (main : Text) where
  listen-other :
      (doc : MainDocument) (id : Text) (n : ℕ) (l : Bool) (e : Event)
      → is_document main e ≡ false
      → listen main e (holding doc id n l) ≡ holding doc id n (l || ends_load id e)
  unfolding listen mark_document_loaded
  listen-other doc id n l (Event.response_received t frame i d) other = ground arith
  listen-other doc id n l (Event.loading_finished i) other = ground arith
  listen-other doc id n l (Event.loading_failed i) other = ground arith

  listen_all-others :
      (doc : MainDocument) (id : Text) (n : ℕ) (l : Bool) (events : List Event)
      → any (is_document main) events ≡ false
      → listen_all main events (holding doc id n l)
        ≡ holding doc id n (l || any (ends_load id) events)
  listen_all-others doc id n l [] others = ground arith
  listen_all-others doc id n l (e ∷ events) others = rw (listen-other doc id n l e (ground arith)) (
      listen_all-others doc id n (l || ends_load id e) events (ground arith)
      ∙ ap (holding doc id n) (ground arith))

  pub seq-listen :
      (docs : ObservedDocuments) (e : Event)
      → (listen main e docs).seq ≡ (if is_document main e then fetch_add docs.seq 1 else docs.seq)
  unfolding listen mark_document_loaded
  seq-listen docs (Event.response_received t frame i d) = ground arith
  seq-listen docs (Event.loading_finished i) = ground arith
  seq-listen docs (Event.loading_failed i) = ground arith

  seq-listen_all :
      (docs : ObservedDocuments) (events : List Event)
      → (listen_all main events docs).seq ≡ count_documents main events docs.seq
  seq-listen_all docs [] = refl
  seq-listen_all docs (e ∷ events) =
      seq-listen_all (listen main e docs) events
      ∙ ap (count_documents main events) (seq-listen docs e)

  listen_all-append :
      (docs : ObservedDocuments) (before after : List Event)
      → listen_all main (before ++ after) docs ≡ listen_all main after (listen_all main before docs)
  listen_all-append docs [] after = refl
  listen_all-append docs (e ∷ before) after = listen_all-append (listen main e docs) before after

  listen-main :
      (docs : ObservedDocuments) (id : Text) (doc : MainDocument)
      → listen main (Event.response_received true (some main) id doc) docs
        ≡ holding doc id (fetch_add docs.seq 1) false
  unfolding listen
  listen-main docs id doc = rw (listen, text_eq_refl main) refl

  -- After a run of events whose last main document is followed by none, the probe sees that
  -- document, with the number of main documents so far in 64 bits, and loaded exactly where a later
  -- event ends the load with its id.
  pub latest_snapshot-listen_all :
      (before after : List Event) (id : Text) (doc : MainDocument)
      → any (is_document main) after ≡ false
      → latest_snapshot (
          listen_all main
            (before ++ Event.response_received true (some main) id doc ∷ after)
            no_documents)
        ≡ some record {
          seq = fetch_add (count_documents main before 0) 1;
          is_loaded = any (ends_load id) after;
          doc = doc;
        }
  unfolding latest_snapshot
  latest_snapshot-listen_all before after id doc others =
      rw
        (
          listen_all-append no_documents before
              (Event.response_received true (some main) id doc ∷ after),
          listen-main (listen_all main before no_documents) id doc,
          listen_all-others doc id (fetch_add (listen_all main before no_documents).seq 1) false
              after others,
          seq-listen_all no_documents before,
        )
        refl
