-- ===== src/Coordinator/Metrics/Labels.antt =====
-- What the requests of crates/coordinator/src/metrics.rs leave in the counters.
use browser_hive_rs.Base.{
  ℕ, ◌+◌, ◌<◌, ◌≡◌, ◌∙◌, refl, Bool, false, ◌&&◌, List, [], ◌∷◌, Option, none, some, unwrap_or,
  count_if, length, if◌then◌else◌, arith, fetch_add, u64_mod, inl, inr, Bool-cases,
}
use browser_hive_rs.Base.Text.{Text, text_eq, text_eq_iff}
use browser_hive_rs.Base.Map.{Map, lookup, lookup-insert}
use browser_hive_rs.Coordinator.Route.{RejectReason}
use browser_hive_rs.Coordinator.Metrics.{
  CoordinatorMetrics, RequestMetrics, label_of, count_rejection, reject_label, drop, inc, at_scope,
}

abbrev pub drop_all : List RequestMetrics → CoordinatorMetrics → CoordinatorMetrics
drop_all [] m = m
drop_all (r ∷ requests) m = drop_all requests (drop r m)

abbrev pub total_of : Text → CoordinatorMetrics → ℕ
total_of scope m = unwrap_or (lookup scope m.requests_total) 0

abbrev pub rejected_of : Text → RejectReason → CoordinatorMetrics → ℕ
rejected_of scope reason m =
    unwrap_or (lookup (reject_label reason) (unwrap_or (lookup scope m.requests_rejected_total) []))
      0

abbrev pub is_for : Text → Option RejectReason → Bool
is_for label none = false
is_for label (some reason) = text_eq (reject_label reason) label

lookup-inc :
    (k j : Text) (m : Map ℕ)
    → unwrap_or (lookup j (inc k m)) 0
      ≡ (if text_eq k j then fetch_add (unwrap_or (lookup j m) 0) 1 else unwrap_or (lookup j m) 0)
lookup-inc k j m =
    rw (lookup-insert k j (fetch_add (unwrap_or (lookup k m) 0) 1) m)
      (elim (Bool-cases (text_eq k j)) [
        | inl e ↦ rw (e, (text_eq_iff k j).0 e) refl
        | inr e ↦ rw e refl
      ])

lookup-at_scope :
    (k j : Text) (change : Map ℕ → Map ℕ) (m : Map (Map ℕ))
    → unwrap_or (lookup j (at_scope k change m)) []
      ≡ (if text_eq k j then change (unwrap_or (lookup j m) []) else unwrap_or (lookup j m) [])
lookup-at_scope k j change m =
    rw (lookup-insert k j (change (unwrap_or (lookup k m) [])) m) (elim (Bool-cases (text_eq k j)) [
      | inl e ↦ rw (e, (text_eq_iff k j).0 e) refl
      | inr e ↦ rw e refl
    ])

module _ (scope : Text) where
  total_of-drop :
      (r : RequestMetrics) (m : CoordinatorMetrics)
      → total_of scope (drop r m)
        ≡ (if text_eq (label_of r) scope then fetch_add (total_of scope m) 1 else total_of scope m)
  unfolding drop
  total_of-drop r m = lookup-inc (label_of r) scope m.requests_total

  total_of-drop_all :
      (requests : List RequestMetrics) (m : CoordinatorMetrics)
      → total_of scope m + length requests < u64_mod
      → total_of scope (drop_all requests m)
        ≡ total_of scope m + count_if (λ r. text_eq (label_of r) scope) requests
  total_of-drop_all [] m few = ground arith
  total_of-drop_all (r ∷ requests) m few =
      ground (arith, total_of-drop r m, total_of-drop_all requests (drop r m))

  lookup-count_rejection :
      (label reason : Text) (given : Option RejectReason) (m : Map (Map ℕ))
      → let count = unwrap_or (lookup reason (unwrap_or (lookup scope m) [])) 0 in
        unwrap_or (lookup reason (unwrap_or (lookup scope (count_rejection label given m)) [])) 0
        ≡ (if text_eq label scope && is_for reason given then fetch_add count 1 else count)
  lookup-count_rejection label reason none m = ground arith
  lookup-count_rejection label reason (some g) m =
      rw (lookup-at_scope label scope (inc (reject_label g)) m)
        (elim (Bool-cases (text_eq label scope)) [
          | inl e ↦ rw e (lookup-inc (reject_label g) reason (unwrap_or (lookup scope m) []))
          | inr e ↦ rw e refl
        ])

  rejected_of-drop :
      (reason : RejectReason) (r : RequestMetrics) (m : CoordinatorMetrics)
      → rejected_of scope reason (drop r m) ≡ (
          if text_eq (label_of r) scope && is_for (reject_label reason) r.reject_reason
          then fetch_add (rejected_of scope reason m) 1
          else rejected_of scope reason m)
  unfolding drop
  rejected_of-drop reason r m =
      lookup-count_rejection (label_of r) (reject_label reason) r.reject_reason
        m.requests_rejected_total

  rejected_of-drop_all :
      (reason : RejectReason) (requests : List RequestMetrics) (m : CoordinatorMetrics)
      → rejected_of scope reason m + length requests < u64_mod
      → rejected_of scope reason (drop_all requests m)
        ≡ rejected_of scope reason m
          + count_if
              (λ r. text_eq (label_of r) scope && is_for (reject_label reason) r.reject_reason)
              requests
  rejected_of-drop_all reason [] m few = ground arith
  rejected_of-drop_all reason (r ∷ requests) m few =
      ground (arith, rejected_of-drop reason r m, rejected_of-drop_all reason requests (drop r m))

abbrev pub no_metrics : CoordinatorMetrics
no_metrics = record {
  requests_total = [];
  requests_rejected_total = [];
  requests_retried_total = [];
  gauges = [];
}

-- From empty counters, the requests of a label are counted exactly, and so are those among them that
-- were rejected for a reason.
pub drop_all-counters :
    (scope : Text) (reason : RejectReason) (requests : List RequestMetrics)
    → length requests < u64_mod
    → (total_of scope (drop_all requests no_metrics)
        ≡ count_if (λ r. text_eq (label_of r) scope) requests)
      × (rejected_of scope reason (drop_all requests no_metrics)
          ≡ count_if
              (λ r. text_eq (label_of r) scope && is_for (reject_label reason) r.reject_reason)
              requests)
unfolding lookup
drop_all-counters scope reason requests few = (
  total_of-drop_all scope requests no_metrics (omega (arith, few)) ∙ omega arith,
  rejected_of-drop_all scope reason requests no_metrics (omega (arith, few)) ∙ omega arith,
)
