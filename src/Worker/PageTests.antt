-- ===== src/Worker/PageTests.antt =====
-- The tracker, the buffer, the limiter and the verdict of a page on concrete inputs.
use mathlib.Core.List.{Memᴰ}
use browser_hive_rs.Base.{
  ℕ, ◌+◌, ◌*◌, ◌≤◌, ◌<◌, ◌≡◌, ◌≢◌, refl, true, false, List, [], ◌∷◌, ◌++◌, Option, none, some,
  arith, length, All, head?, ◌==◌,
}
use browser_hive_rs.Base.Text.{Text, codes, text_eq, text_eq_iff}
use browser_hive_rs.Base.Map.{lookup, insert}
use browser_hive_rs.Base.Sort.{sort_by_key}
use browser_hive_rs.Base.Strings.{strip_prefix, split, trim, rfind, ends_with}
use browser_hive_rs.Base.Strings.Decimal.{show, parse}
use browser_hive_rs.Common.Url.{Url, UrlLibrary}
use browser_hive_rs.Worker.ThirdParty.{host_of}
use browser_hive_rs.Worker.PageLoad.{
  ResourceType, Kind, Load, PageLoadTracker, new, new_load, second, max_tracked, tracked_kind,
  kind_of,
}
use browser_hive_rs.Worker.PageLoad.Verdict.{verdict_at, judge, short_url}
use browser_hive_rs.Worker.PageLoad.Events.{Event, run}
use browser_hive_rs.Worker.PageLoad.Bounds.{IsBounded, tracker-IsBounded}
use browser_hive_rs.Worker.PageLoad.Document.{navigation_starts_anew}
use browser_hive_rs.Worker.PageLoad.Stalled.{IsCounted, IsElsewhere, stalled_asset_is_reported}
use browser_hive_rs.Worker.Diagnostics.{
  Category, entries, empty, push, truncate, entry_body, marker_at, collapse, entry_count,
  max_entry_chars,
}
use browser_hive_rs.Worker.Diagnostics.Repeats.{push_times, push-repeated, repeated}
use browser_hive_rs.Worker.Diagnostics.Limiter
use browser_hive_rs.Worker.Diagnostics.Limiter.{LimiterState, calls, minute}
use browser_hive_rs.Worker.Diagnostics.Limiter.Window.{admitted, admitted_per_minute}

-- A library that knows `https` URLs only and takes every host for a registrable domain.
abbrev https_url : Option Text → Option Url
https_url none = none
https_url (some rest) =
    some (record { scheme = codes "https"; host = head? (split (λ c. c == b'/') rest) })

abbrev pub library : UrlLibrary
library = record {
  parse_url = λ s. https_url (strip_prefix s (codes "https://"));
  is_ip_addr = λ _. false;
  domain_str = λ h. some h;
}

abbrev page : Text
page = codes "https://a.com/list"

abbrev script : Text
script = codes "https://cdn.net/app.js"

abbrev id_a : Text
id_a = codes "a"

abbrev id_b : Text
id_b = codes "b"

abbrev id_s : Text
id_s = codes "s"

abbrev load : Text → Event
load i = Event.sent i script (some ResourceType.script) false second

abbrev document : Text → Event
document i = Event.sent i page (some ResourceType.another_type) true 0

abbrev challenge : List Event
challenge = document id_a ∷ load id_s ∷ Event.answered id_s 403 ∷ []

tracker-IsBounded_example : IsBounded (run challenge (new library page))
tracker-IsBounded_example = tracker-IsBounded library page challenge

first_document : (run challenge (new library page)).last_document ≡ some id_a
unfolding run tracked_kind kind_of new host_of split strip_prefix
first_document = refl

other_id : id_a ≢ id_b
unfolding text_eq
other_id e = cc ((text_eq_iff id_a id_b).1 e)

navigation_starts_anew_example :
    run (challenge ++ document id_b ∷ Event.fired ∷ []) (new library page)
    ≡ run (document id_b ∷ Event.fired ∷ []) (new library page)
navigation_starts_anew_example =
    navigation_starts_anew library page challenge (Event.fired ∷ []) id_a id_b page
      (some ResourceType.another_type) 0 first_document other_id

abbrev only_document : List Event
only_document = document id_a ∷ []

abbrev with_stalled : PageLoadTracker
with_stalled = run (only_document ++ load id_s ∷ Event.ended id_a ∷ []) (new library page)

abbrev stalled_load : Load
stalled_load = new_load script (Kind.asset, codes "Script") second

no_load : lookup id_s (run only_document (new library page)).loads ≡ none
unfolding run new lookup
no_load = refl

has_room : length (run only_document (new library page)).loads < max_tracked
unfolding run new
has_room = omega arith

script_kind : tracked_kind (some ResourceType.script) ≡ some (Kind.asset, codes "Script")
unfolding tracked_kind kind_of
script_kind = refl

document-IsElsewhere : All (IsElsewhere id_s) (Event.ended id_a ∷ [])
unfolding text_eq
document-IsElsewhere = (refl, tt)

values-All : All (λ e. Memᴰ e.1 (stalled_load ∷ [])) with_stalled.loads
unfolding run new tracked_kind kind_of lookup insert text_eq
values-All = (Memᴰ.head refl, tt)

stalled_asset_is_reported_example :
    IsCounted library id_s (12 * second) (stalled_load ∷ []) with_stalled
stalled_asset_is_reported_example =
    stalled_asset_is_reported library page only_document (Event.ended id_a ∷ []) id_s script
      (codes "Script") ResourceType.script second (12 * second) (stalled_load ∷ []) no_load has_room
      script_kind document-IsElsewhere (omega arith) values-All

reported :
    (verdict_at library with_stalled (stalled_load ∷ []) (12 * second)).0
    ≡ codes "load event never fired" ∷ codes "Script pending 11s https://cdn.net/app.js" ∷ []
unfolding verdict_at run new tracked_kind kind_of judge short_url text_eq sort_by_key show split
reported = refl

abbrev boom : Text
boom = codes "boom"

unmarked : marker_at (truncate boom max_entry_chars) ≡ none
unfolding marker_at truncate rfind trim
unmarked = refl

push-repeated_example :
    entries Category.js_error (push_times 3 Category.js_error boom 20 empty)
    ≡ [] ++ (repeated (truncate boom max_entry_chars) 2 ∷ [])
push-repeated_example =
    push-repeated Category.js_error boom 20 2 empty unmarked tt (omega arith) (omega arith)

collapsed :
    entries Category.js_error (push_times 3 Category.js_error boom 20 empty)
    ≡ codes "boom (x3)" ∷ []
unfolding push_times push marker_at entry_body truncate rfind trim show text_eq collapse entry_count
    ends_with parse
collapsed = refl

-- An entry that itself ends like a marker is not collapsed.
not_collapsed :
    entries Category.js_error (push_times 2 Category.js_error (codes "failed (xhr)") 20 empty)
    ≡ codes "failed (xhr)" ∷ codes "failed (xhr)" ∷ []
unfolding push_times push marker_at entry_body truncate rfind trim show text_eq collapse ends_with
not_collapsed = refl

abbrev times : List ℕ
times = 58 * second ∷ 59 * second ∷ 59 * second ∷ 60 * second ∷ 61 * second ∷ 62 * second ∷ []

abbrev start : ℕ
start = 58 * second

admitted_per_minute_example :
    admitted (calls 2 times (Limiter.new 0)).0 + (Limiter.new 0).used ≤ 2 * 2
admitted_per_minute_example =
    admitted_per_minute 2 start times (Limiter.new 0) refl
      (omega arith, (omega arith, (omega arith, (omega arith, (omega arith, (omega arith, tt))))))
      (omega arith, (omega arith, (omega arith, (omega arith, (omega arith, (omega arith, tt))))))
      (omega arith)

-- Four within four seconds, of a limiter of two a minute.
at_the_turn : admitted (calls 2 times (Limiter.new 0)).0 ≡ 4
unfolding calls
at_the_turn = refl
