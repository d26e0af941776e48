-- ===== src/Worker/PageLoad.antt =====
-- crates/worker/src/page_load.rs: what a page that did not render failed to load.
pub mod Events
pub mod Bounds
pub mod Document
pub mod Verdict
pub mod Stalled
use browser_hive_rs.Base.{
  ℕ, ◌-◌, ◌*◌, ◌/◌, Bool, true, false, not, ◌&&◌, ◌||◌, List, [], ◌∷◌, ◌++◌, map, Option, none,
  some, is_some, unwrap_or, leb, ◌==◌, if◌then◌else◌, length, any, head?,
}
use browser_hive_rs.Base.Text.{Text, codes, text_eq}
use browser_hive_rs.Base.Map.{Map, lookup, insert, remove}
use browser_hive_rs.Base.Sort.{sort_by_key}
use browser_hive_rs.Base.Strings.{contains, take, split, trim_start_text}
use browser_hive_rs.Base.Strings.Decimal.{show}
use browser_hive_rs.Common.Url.{UrlLibrary}
use browser_hive_rs.Worker.ThirdParty.{host_of, is_cross_site}

abbrev pub second : ℕ
second = 1000000000

abbrev pub stalled_after : ℕ
stalled_after = 10 * second

abbrev pub max_tracked : ℕ
max_tracked = 4096

abbrev pub max_listed : ℕ
max_listed = 5

abbrev pub max_url_chars : ℕ
max_url_chars = 120

abbrev pub transport_errors : List Text
transport_errors =
    codes "ERR_TIMED_OUT"
    ∷ codes "ERR_CONNECTION_TIMED_OUT"
    ∷ codes "ERR_CONNECTION_RESET"
    ∷ codes "ERR_CONNECTION_CLOSED"
    ∷ codes "ERR_CONNECTION_ABORTED"
    ∷ codes "ERR_EMPTY_RESPONSE"
    ∷ codes "ERR_HTTP2_"
    ∷ codes "ERR_QUIC_PROTOCOL_ERROR"
    ∷ codes "ERR_INCOMPLETE_CHUNKED_ENCODING"
    ∷ codes "ERR_CONTENT_LENGTH_MISMATCH"
    ∷ []

abbrev pub cross_origin_blocks : List Text
cross_origin_blocks = codes "ERR_BLOCKED_BY_ORB" ∷ codes "ERR_BLOCKED_BY_RESPONSE" ∷ []

-- The types of headless_chrome that the code tells apart.
pub data ResourceType : Type 0 where
  script stylesheet xhr fetch another_type : ResourceType

pub data BlockedReason : Type 0 where
  inspector another_reason : BlockedReason

pub data Kind : Type 0 where
  asset data_request : Kind

unfoldable pub kind_of : ResourceType → Option (Kind × Text)
kind_of ResourceType.script = some (Kind.asset, codes "Script")
kind_of ResourceType.stylesheet = some (Kind.asset, codes "Stylesheet")
kind_of ResourceType.xhr = some (Kind.data_request, codes "XHR")
kind_of ResourceType.fetch = some (Kind.data_request, codes "Fetch")
kind_of ResourceType.another_type = none

-- `failed` holds the error text, `canceled`, `blocked_by_us` and `cors`.
pub data Outcome : Type 0 where
  pending : Outcome
  status : ℕ → Outcome
  failed : Text → Bool → Bool → Bool → Outcome

pub record Load : Type 0 where
  pub url : Text
  pub type_label : Text
  pub kind : Kind
  pub started : ℕ
  pub responded : Option ℕ
  pub outcome : Outcome

pub record PageLoadTracker : Type 0 where
  pub page_host : Text
  pub loads : Map Load
  pub main_document : Option Text
  pub last_document : Option Text
  pub load_fired : Bool

unfoldable pub new : UrlLibrary → Text → PageLoadTracker
new lib requested_url = record {
  page_host = unwrap_or (host_of lib requested_url) [];
  loads = [];
  main_document = none;
  last_document = none;
  load_fired = false;
}

-- `id.as_deref() == Some(request_id)`.
abbrev pub is_id : Text → Option Text → Bool
is_id i none = false
is_id i (some j) = text_eq j i

abbrev pub start_document : Text → PageLoadTracker → PageLoadTracker
start_document i t = record {
  page_host = t.page_host;
  loads = if is_some t.last_document && not (is_id i t.last_document) then [] else t.loads;
  main_document = some i;
  last_document = some i;
  load_fired = if is_id i t.last_document then t.load_fired else false;
}

abbrev pub new_load : Text → Kind × Text → ℕ → Load
new_load u (k, label) now = record {
  url = u;
  type_label = label;
  kind = k;
  started = now;
  responded = none;
  outcome = Outcome.pending;
}

abbrev pub start_load : Text → Text → Kind × Text → ℕ → PageLoadTracker → PageLoadTracker
start_load i u kind now t = record t {
  loads = elim (lookup i t.loads) [
    | some load ↦ insert i (record load { url = u }) t.loads
    | none ↦
        if leb max_tracked (length t.loads) then t.loads else insert i (new_load u kind now) t.loads
  ];
}

unfoldable pub tracked_kind : Option ResourceType → Option (Kind × Text)
tracked_kind none = none
tracked_kind (some ty) = kind_of ty

unfoldable pub will_be_sent :
    Text → Text → Option ResourceType → Bool → ℕ → PageLoadTracker → PageLoadTracker
will_be_sent i u ty true now t = start_document i t
will_be_sent i u ty false now t = elim (tracked_kind ty) [
  | none ↦ t
  | some kind ↦ start_load i u kind now t
]

unfoldable pub load_event : PageLoadTracker → PageLoadTracker
load_event t = record t { load_fired = true }

abbrev pub answered : ℕ → Load → Load
answered code load = record load {
  responded = some code;
  outcome = if code == 403 || code == 429 then Outcome.status code else load.outcome;
}

abbrev pub modify : Text → (Load → Load) → Map Load → Map Load
modify i f m = elim (lookup i m) [ none ↦ m | some load ↦ insert i (f load) m ]

unfoldable pub response : Text → ℕ → PageLoadTracker → PageLoadTracker
response i code t = record t { loads = modify i (answered code) t.loads }

-- The main document is no longer loading when its request ends.
abbrev pub end_document : Text → Option Text → Option Text
end_document i d = if is_id i d then none else d

abbrev pub is_pending : Outcome → Bool
is_pending Outcome.pending = true
is_pending _ = false

abbrev pub forget : Text → Map Load → Map Load
forget i m = elim (lookup i m) [
  | none ↦ m
  | some load ↦ if is_pending load.outcome then remove i m else m
]

unfoldable pub finished : Text → PageLoadTracker → PageLoadTracker
finished i t = record t { main_document = end_document i t.main_document; loads = forget i t.loads }

abbrev is_inspector : Option BlockedReason → Bool
is_inspector (some BlockedReason.inspector) = true
is_inspector _ = false

unfoldable pub loading_failed :
    Text → Text → Bool → Option BlockedReason → Bool → PageLoadTracker → PageLoadTracker
loading_failed i error canceled reason cors t = record t {
  main_document = end_document i t.main_document;
  loads =
      modify i
        (λ load. record load { outcome = Outcome.failed error canceled (is_inspector reason) cors })
        t.loads;
}
