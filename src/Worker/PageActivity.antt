-- ===== src/Worker/PageActivity.antt =====
-- What a page did while it loaded, in crates/worker/src/page_activity.rs. A report is the data that
-- its line prints: the text of a duration, of a size and of a list is made by `format!`. `debug` is
-- `format!("{:?}")` of a type, and sizes of bodies, floats in the code, are whole numbers of bytes.
pub mod Caps
use browser_hive_rs.Base.{
  ℕ, ◌+◌, ◌-◌, ◌%◌, Bool, true, false, List, [], ◌∷◌, ◌++◌, map, filter, Option, none, some, ltb,
  leb, if◌then◌else◌, is_empty, length, u64_mod,
}
use browser_hive_rs.Base.Text.{Text, codes, text_eq}
use browser_hive_rs.Base.Map.{Map, lookup, insert, remove}
use browser_hive_rs.Base.Sort.{sort_by_key}
use browser_hive_rs.Base.Strings.{take, trim_start_text}
use browser_hive_rs.Worker.PageLoad.{ResourceType}
use browser_hive_rs.Worker.PageLoad.Verdict.{short_url}
use browser_hive_rs.Base.Strings.{join}

abbrev pub max_data_requests : ℕ
max_data_requests = 40

abbrev pub max_pending_loads : ℕ
max_pending_loads = 512

abbrev pub max_pending_listed : ℕ
max_pending_listed = 15

abbrev pub timeline_events : List Text
timeline_events =
    codes "DOMContentLoaded" ∷ codes "load" ∷ codes "networkAlmostIdle" ∷ codes "networkIdle" ∷ []

pub data State : Type 0 where
  pending : State
  ended : (took bytes : ℕ) → State
  failure : (took : ℕ) → (error : Text) → State

pub record DataRequest : Type 0 where
  pub method : Text
  pub url : Text
  pub type_label : Text
  pub started : ℕ
  pub status : Option ℕ
  pub responded : Option ℕ
  pub received : ℕ
  pub state : State

pub record PendingLoad : Type 0 where
  pub type_label : Text
  pub url : Text
  pub started : ℕ

pub record PageActivity : Type 0 where
  pub started : ℕ
  pub requests : Map DataRequest
  pub untracked : ℕ
  pub pending_loads : Map PendingLoad
  pub pending_untracked : ℕ
  pub timeline : List (Text × Option ℕ)

abbrev pub new : ℕ → PageActivity
new started = record {
  started = started;
  requests = [];
  untracked = 0;
  pending_loads = [];
  pending_untracked = 0;
  timeline = map (λ name. (name, none)) timeline_events;
}

abbrev pub offset : PageActivity → ℕ → ℕ
offset a now = now - a.started

abbrev pub data_label : Option ResourceType → Option Text
data_label (some ResourceType.xhr) = some (codes "XHR")
data_label (some ResourceType.fetch) = some (codes "Fetch")
data_label _ = none

abbrev pub other_label : (ResourceType → Text) → Option ResourceType → Text
other_label debug none = codes "Other"
other_label debug (some ty) = debug ty

unfoldable pub other_will_be_sent :
    (ResourceType → Text) → Text → Text → Option ResourceType → ℕ → PageActivity → PageActivity
other_will_be_sent debug i url ty now a = elim (lookup i a.pending_loads) [
  | some load ↦ record a { pending_loads = insert i (record load { url = url }) a.pending_loads }
  | none ↦
      if leb max_pending_loads (length a.pending_loads)
      then record a { pending_untracked = (a.pending_untracked + 1) % u64_mod }
      else record a { pending_loads = insert i fresh a.pending_loads }
]
  where
    fresh : PendingLoad
    fresh = record { type_label = other_label debug ty; url = url; started = offset a now }

unfoldable pub data_will_be_sent : Text → Text → Text → Text → ℕ → PageActivity → PageActivity
data_will_be_sent label i method url now a = elim (lookup i a.requests) [
  | some request ↦ record a { requests = insert i (record request { url = url }) a.requests }
  | none ↦
      if leb max_data_requests (length a.requests)
      then record a { untracked = (a.untracked + 1) % u64_mod }
      else record a { requests = insert i fresh a.requests }
]
  where
    fresh : DataRequest
    fresh = record {
      method = method;
      url = url;
      type_label = label;
      started = offset a now;
      status = none;
      responded = none;
      received = 0;
      state = State.pending;
    }

unfoldable pub will_be_sent :
    (ResourceType → Text)
    → Text
    → Text
    → Text
    → Option ResourceType
    → ℕ
    → PageActivity
    → PageActivity
unfolding other_will_be_sent data_will_be_sent
will_be_sent debug i method url ty now a = elim (data_label ty) [
  | some label ↦ data_will_be_sent label i method url now a
  | none ↦ other_will_be_sent debug i url ty now a
]

-- `if let Some(request) = self.requests.get_mut(request_id)`.
abbrev pub alter : Text → (DataRequest → DataRequest) → PageActivity → PageActivity
alter i f a = elim (lookup i a.requests) [
  | none ↦ a
  | some request ↦ record a { requests = insert i (f request) a.requests }
]

unfoldable pub response : Text → ℕ → ℕ → PageActivity → PageActivity
response i code now a =
    alter i (λ q. record q { status = some code; responded = some (offset a now) }) a

abbrev pub saturating_add : ℕ → ℕ → ℕ
saturating_add m n = if ltb (m + n) u64_mod then m + n else u64_mod - 1

unfoldable pub data_received : Text → ℕ → PageActivity → PageActivity
data_received i bytes a = alter i (λ q. record q { received = saturating_add q.received bytes }) a

abbrev pub no_longer_pending : Text → PageActivity → PageActivity
no_longer_pending i a = record a { pending_loads = remove i a.pending_loads }

unfoldable pub finished : Text → ℕ → ℕ → PageActivity → PageActivity
finished i bytes now a =
    alter i (λ q. record q { state = State.ended (offset a now - q.started) bytes })
      (no_longer_pending i a)

unfoldable pub loading_failed : Text → Text → Bool → ℕ → PageActivity → PageActivity
unfolding trim_start_text
loading_failed i error blocked_by_us now a =
    if blocked_by_us
    then record (no_longer_pending i a) { requests = remove i a.requests }
    else alter i
        (λ q. record q {
          state = State.failure (offset a now - q.started) (trim_start_text error (codes "net::"));
        })
        (no_longer_pending i a)

unfoldable pub lifecycle : Text → ℕ → PageActivity → PageActivity
lifecycle name now a = record a { timeline = map mark a.timeline }
  where
    mark : Text × Option ℕ → Text × Option ℕ
    mark (event, at) = (event, if text_eq event name then some (offset a now) else at)

abbrev pub is_pending : State → Bool
is_pending State.pending = true
is_pending _ = false

-- The number recorded, how many of them are pending, how many more there were, and the requests in
-- start order. `values` are the requests in the order in which the map yields them.
unfoldable pub data_requests_report :
    List DataRequest → PageActivity → Option (ℕ × ℕ × ℕ × List DataRequest)
unfolding sort_by_key
data_requests_report values a =
    if is_empty values
    then none
    else some (
      length values,
      length (filter (λ q. is_pending q.state) values),
      a.untracked,
      sort_by_key (λ q. q.started) values,
    )

-- The number pending, how many more there were, and the oldest with the time each has waited.
unfoldable pub pending_loads_report :
    List PendingLoad → PageActivity → ℕ → Option (ℕ × ℕ × List (Text × Text × ℕ × ℕ))
unfolding sort_by_key short_url
pending_loads_report values a now =
    if is_empty values
    then none
    else some (length values, a.pending_untracked, map line (take max_pending_listed sorted))
  where
    sorted : List PendingLoad
    sorted = sort_by_key (λ l. l.started) values

    line : PendingLoad → Text × Text × ℕ × ℕ
    line l = (l.type_label, short_url l.url, l.started, offset a now - l.started)

-- `secs` is `format!("{:.1}s", duration.as_secs_f64())`.
unfoldable pub timeline_report : (ℕ → Text) → PageActivity → Text
unfolding join
timeline_report secs a = join (codes ", ") (map at_text a.timeline)
  where
    at_text : Text × Option ℕ → Text
    at_text (name, some at) = name ++ (codes " +" ++ secs at)
    at_text (name, none) = name ++ codes " not reached"
