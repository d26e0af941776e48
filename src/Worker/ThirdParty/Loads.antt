-- ===== src/Worker/ThirdParty/Loads.antt =====
-- Loads of one request in crates/worker/src/third_party.rs, and the counters whose label
-- combinations are capped. `counted` logs the labels of every increment of the Prometheus counter.
-- A lock is poisoned only by a panic of a holder, and no holder of `admitted` can panic.
use browser_hive_rs.Base.{
  ℕ, ◌≤◌, inl, inr, Bool, true, false, not, ◌&&◌, List, [], ◌∷◌, none, some, arith, ltb, leb, any,
  if◌then◌else◌, length, Bool-cases,
}
use browser_hive_rs.Base.Text.{Text, codes, text_eq}
use browser_hive_rs.Base.Map.{Map, lookup, insert, remove, contains_key}
use browser_hive_rs.Common.Url.{UrlLibrary}
use browser_hive_rs.Worker.ThirdParty.{host_of, is_cross_site}

abbrev pub default_max_series : ℕ
default_max_series = 2000

abbrev pub overflow : Text
overflow = codes "other"

abbrev pub max_pending_loads : ℕ
max_pending_loads = 4096

pub record CappedCounter : Type 0 where
  pub counted : List (Text × Text × Text)
  pub admitted : List (Text × Text)
  pub cap : ℕ
  pub keep_second_on_overflow : Bool

abbrev pub pair_eq : Text × Text → Text × Text → Bool
pair_eq (a, b) (c, d) = text_eq a c && text_eq b d

abbrev pub has : Text × Text → List (Text × Text) → Bool
has key keys = any (pair_eq key) keys

abbrev pub admit : Text × Text → CappedCounter → Bool × List (Text × Text)
admit key c =
    if has key c.admitted
    then (true, c.admitted)
    else (if ltb (length c.admitted) c.cap then (true, key ∷ c.admitted) else (false, c.admitted))

abbrev pub labels : Text → Text → Text → Bool → Bool → Text × Text × Text
labels scope site host keep true = (scope, site, host)
labels scope site host keep false = (scope, overflow, if keep then host else overflow)

unfoldable pub inc : Text → Text → Text → CappedCounter → CappedCounter
inc scope site host c =
    let (known, keys) = admit (site, host) c in
    record c {
      admitted = keys;
      counted = labels scope site host c.keep_second_on_overflow known ∷ c.counted;
    }

abbrev pub register : ℕ → CappedCounter
register cap = record { counted = []; admitted = []; cap = cap; keep_second_on_overflow = false }

pub record ThirdPartyMetrics : Type 0 where
  pub scope : Text
  pub iframes : CappedCounter
  pub requests : CappedCounter
  pub blocked : CappedCounter
  pub blocked_by_type : CappedCounter
  pub page_requests : CappedCounter

abbrev pub new : Text → ℕ → ThirdPartyMetrics
new scope max_series = record {
  scope = scope;
  iframes = register max_series;
  requests = register max_series;
  blocked = register max_series;
  blocked_by_type = register max_series;
  page_requests = record (register max_series) { keep_second_on_overflow = true };
}

unfoldable pub page_request : Text → Text → ThirdPartyMetrics → ThirdPartyMetrics
unfolding inc
page_request site challenge m = record m {
  page_requests = inc m.scope site challenge m.page_requests;
}

pub record PendingLoad : Type 0 where
  pub host : Text
  pub document : Bool

-- `RequestLoads`, with the metrics that all requests of the worker share.
pub record RequestLoads : Type 0 where
  pub metrics : ThirdPartyMetrics
  pub page_site : Text
  pub pending : Map PendingLoad

abbrev pub request_loads : Text → ThirdPartyMetrics → RequestLoads
request_loads site m = record { metrics = m; page_site = site; pending = [] }

module _ (lib : UrlLibrary) where
  unfoldable pub will_be_sent : Text → Text → Bool → RequestLoads → RequestLoads
  will_be_sent i url document r = elim (host_of lib url) [
    | none ↦ record r { pending = remove i r.pending }
    | some host ↦
        if leb max_pending_loads (length r.pending) && not (contains_key i r.pending)
        then r
        else record r { pending = insert i (record { host = host; document = document }) r.pending }
  ]

  unfoldable pub count_sent : PendingLoad → RequestLoads → RequestLoads
  unfolding inc is_cross_site
  count_sent load r =
      if not load.document && is_cross_site lib r.page_site load.host
      then record r {
        metrics = record r.metrics {
          requests = inc r.metrics.scope r.page_site load.host r.metrics.requests;
        };
      }
      else r

  abbrev pub count_blocked : PendingLoad → RequestLoads → RequestLoads
  count_blocked load r = record r {
    metrics = record r.metrics {
      blocked = inc r.metrics.scope r.page_site load.host r.metrics.blocked;
    };
  }

  abbrev pub settle :
      Text → (PendingLoad → RequestLoads → RequestLoads) → RequestLoads → RequestLoads
  settle i count r = elim (lookup i r.pending) [
    | none ↦ r
    | some load ↦ count load (record r { pending = remove i r.pending })
  ]

  unfoldable pub finished : Text → RequestLoads → RequestLoads
  unfolding count_sent
  finished i r = settle i count_sent r

  unfoldable pub loading_failed : Text → Bool → RequestLoads → RequestLoads
  unfolding count_sent inc
  loading_failed i blocked_by_list r =
      if blocked_by_list then settle i count_blocked r else settle i count_sent r

unfoldable pub blocked_by_type : Text → RequestLoads → RequestLoads
unfolding inc
blocked_by_type resource_type r = record r {
  metrics = record r.metrics {
    blocked_by_type = inc r.metrics.scope r.page_site resource_type r.metrics.blocked_by_type;
  };
}

-- The combinations stay within the cap.
pub admitted-inc_le :
    (scope site host : Text) (c : CappedCounter)
    → length c.admitted ≤ c.cap
    → length (inc scope site host c).admitted ≤ (inc scope site host c).cap
unfolding inc
admitted-inc_le scope site host c h = elim (Bool-cases (has (site, host) c.admitted)) [
  | inl e ↦ rw (inc, e) h
  | inr e ↦ elim (Bool-cases (ltb (length c.admitted) c.cap)) [
    | inl k ↦ rw (inc, e, k) (ground arith)
    | inr k ↦ rw (inc, e, k) h
  ]
]
