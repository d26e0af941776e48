-- ===== src/Worker/Documents.antt =====
-- `ObservedDocuments` of crates/worker/src/service.rs: the main documents of a request, as the
-- listener of the tab collects them. The lock is never poisoned here, and the headers of a response
-- come as texts.
pub mod Latest
pub mod Passed
use browser_hive_rs.Base.{
  ℕ, Bool, true, false, ◌&&◌, List, [], ◌∷◌, Option, none, some, is_some, if◌then◌else◌, fetch_add,
}
use browser_hive_rs.Base.Text.{Text, text_eq}
use browser_hive_rs.Common.Challenge.{MainDocument, DocumentSnapshot, on_some, is_json}

pub record ObservedDocuments : Type 0 where
  pub latest : Option MainDocument
  pub request_id : Text
  pub seq : ℕ
  pub is_loaded : Bool

abbrev pub no_documents : ObservedDocuments
no_documents = record { latest = none; request_id = []; seq = 0; is_loaded = false }

-- `ObservedDocumentProbe::latest`
unfoldable pub latest_snapshot : ObservedDocuments → Option DocumentSnapshot
latest_snapshot docs = elim docs.latest [
  | none ↦ none
  | some doc ↦ some record { seq = docs.seq; is_loaded = docs.is_loaded; doc = doc }
]

unfoldable pub mark_document_loaded : Text → ObservedDocuments → ObservedDocuments
mark_document_loaded id docs =
    if is_some docs.latest && text_eq docs.request_id id
    then record docs { is_loaded = true }
    else docs

unfoldable pub json_document_request_id : ObservedDocuments → Option Text
unfolding is_json
json_document_request_id docs = if on_some is_json docs.latest then some docs.request_id else none

-- The events that the listener reads for the documents: a response with whether its type is
-- `Document`, its frame and its id, and the end of a load.
pub data Event : Type 0 where
  response_received : Bool → Option Text → Text → MainDocument → Event
  loading_finished loading_failed : Text → Event

abbrev pub is_main : Text → Bool → Option Text → Bool
is_main main_frame_id is_document frame_id =
    is_document && on_some (λ f. text_eq f main_frame_id) frame_id

unfoldable pub listen : Text → Event → ObservedDocuments → ObservedDocuments
unfolding mark_document_loaded
listen main_frame_id (Event.response_received is_document frame_id id doc) docs =
    if is_main main_frame_id is_document frame_id
    then record {
      latest = some doc;
      request_id = id;
      seq = fetch_add docs.seq 1;
      is_loaded = false;
    }
    else docs
listen main_frame_id (Event.loading_finished id) docs = mark_document_loaded id docs
listen main_frame_id (Event.loading_failed id) docs = mark_document_loaded id docs

abbrev pub listen_all : Text → List Event → ObservedDocuments → ObservedDocuments
listen_all main_frame_id [] docs = docs
listen_all main_frame_id (e ∷ events) docs =
    listen_all main_frame_id events (listen main_frame_id e docs)
