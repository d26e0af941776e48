-- ===== src/Worker/PageActivity/Caps.antt =====
-- The caps of crates/worker/src/page_activity.rs over any sequence of events.
use browser_hive_rs.Base.{
  ℕ, ◌≤◌, ◌≡◌, inl, inr, Bool, false, List, [], ◌∷◌, Option, none, some, arith, leb, Bool-cases,
  Option-cases, length,
}
use browser_hive_rs.Base.Text.{Text}
use browser_hive_rs.Base.Map.{
  Map, lookup, insert, IsMap, insert-IsMap, remove-IsMap, length-insert, length-remove-le,
}
use browser_hive_rs.Worker.PageLoad.{ResourceType}
use browser_hive_rs.Worker.PageActivity.{
  DataRequest, PageActivity, new, data_label, max_data_requests, max_pending_loads,
  other_will_be_sent, data_will_be_sent, will_be_sent, alter, no_longer_pending, response,
  data_received, finished, loading_failed, lifecycle,
}

-- The events that the page's session delivers, with the clock where the code reads it.
pub data Event : Type 0 where
  sent : Text → Text → Text → Option ResourceType → ℕ → Event
  answered : Text → ℕ → ℕ → Event
  received : Text → ℕ → Event
  done : Text → ℕ → ℕ → Event
  lost : Text → Text → Bool → ℕ → Event
  reached : Text → ℕ → Event

unfoldable pub step : (ResourceType → Text) → Event → PageActivity → PageActivity
unfolding will_be_sent response data_received finished loading_failed lifecycle
step debug (Event.sent i method url ty now) a = will_be_sent debug i method url ty now a
step debug (Event.answered i code now) a = response i code now a
step debug (Event.received i bytes) a = data_received i bytes a
step debug (Event.done i bytes now) a = finished i bytes now a
step debug (Event.lost i error blocked_by_us now) a = loading_failed i error blocked_by_us now a
step debug (Event.reached name now) a = lifecycle name now a

unfoldable pub run : (ResourceType → Text) → List Event → PageActivity → PageActivity
unfolding step
run debug [] a = a
run debug (e ∷ es) a = run debug es (step debug e a)

-- One entry for each id, and no more than the caps allow.
pub record IsCapped (a : PageActivity) : Type 0 where
  pub requests_map : IsMap a.requests
  pub few_requests : length a.requests ≤ max_data_requests
  pub loads_map : IsMap a.pending_loads
  pub few_loads : length a.pending_loads ≤ max_pending_loads

replaced_le :
    {V : Type 0} (i : Text) (v w : V) (m : Map V) (cap : ℕ)
    → lookup i m ≡ some v
    → length m ≤ cap
    → length (insert i w m) ≤ cap
replaced_le i v w m cap e h = rw (length-insert i w m, e) h

added_le :
    {V : Type 0} (i : Text) (w : V) (m : Map V) (cap : ℕ)
    → lookup i m ≡ none
    → leb cap (length m) ≡ false
    → length (insert i w m) ≤ cap
added_le i w m cap e h = rw (length-insert i w m, e) (ground arith)

alter-IsCapped :
    (i : Text) (f : DataRequest → DataRequest) (a : PageActivity)
    → IsCapped a
    → IsCapped (alter i f a)
alter-IsCapped i f a c = elim (Option-cases (lookup i a.requests)) [
  | inl e ↦ rw (alter, e) c
  | inr (q, e) ↦
      rw (alter, e)
        (record {
          requests_map = insert-IsMap i (f q) a.requests c.requests_map;
          few_requests = replaced_le i q (f q) a.requests max_data_requests e c.few_requests;
          loads_map = c.loads_map;
          few_loads = c.few_loads;
        })
]

no_longer_pending-IsCapped :
    (i : Text) (a : PageActivity) → IsCapped a → IsCapped (no_longer_pending i a)
no_longer_pending-IsCapped i a c = record {
  requests_map = c.requests_map;
  few_requests = c.few_requests;
  loads_map = remove-IsMap i a.pending_loads c.loads_map;
  few_loads = omega (arith, length-remove-le i a.pending_loads, c.few_loads);
}

other-IsCapped :
    (debug : ResourceType → Text) (i url : Text) (ty : Option ResourceType) (now : ℕ)
    (a : PageActivity)
    → IsCapped a
    → IsCapped (other_will_be_sent debug i url ty now a)
unfolding other_will_be_sent
other-IsCapped debug i url ty now a c = elim (Option-cases (lookup i a.pending_loads)) [
  | inr (l, e) ↦
      rw (other_will_be_sent, e)
        (record {
          requests_map = c.requests_map;
          few_requests = c.few_requests;
          loads_map = insert-IsMap i _ a.pending_loads c.loads_map;
          few_loads = replaced_le i l _ a.pending_loads max_pending_loads e c.few_loads;
        })
  | inl e ↦ elim (Bool-cases (leb max_pending_loads (length a.pending_loads))) [
    | inl k ↦
        rw (other_will_be_sent, e, k)
          (record {
            requests_map = c.requests_map;
            few_requests = c.few_requests;
            loads_map = c.loads_map;
            few_loads = c.few_loads;
          })
    | inr k ↦
        rw (other_will_be_sent, e, k)
          (record {
            requests_map = c.requests_map;
            few_requests = c.few_requests;
            loads_map = insert-IsMap i _ a.pending_loads c.loads_map;
            few_loads = added_le i _ a.pending_loads max_pending_loads e k;
          })
  ]
]

data-IsCapped :
    (label i method url : Text) (now : ℕ) (a : PageActivity)
    → IsCapped a
    → IsCapped (data_will_be_sent label i method url now a)
unfolding data_will_be_sent
data-IsCapped label i method url now a c = elim (Option-cases (lookup i a.requests)) [
  | inr (q, e) ↦
      rw (data_will_be_sent, e)
        (record {
          requests_map = insert-IsMap i _ a.requests c.requests_map;
          few_requests = replaced_le i q _ a.requests max_data_requests e c.few_requests;
          loads_map = c.loads_map;
          few_loads = c.few_loads;
        })
  | inl e ↦ elim (Bool-cases (leb max_data_requests (length a.requests))) [
    | inl k ↦
        rw (data_will_be_sent, e, k)
          (record {
            requests_map = c.requests_map;
            few_requests = c.few_requests;
            loads_map = c.loads_map;
            few_loads = c.few_loads;
          })
    | inr k ↦
        rw (data_will_be_sent, e, k)
          (record {
            requests_map = insert-IsMap i _ a.requests c.requests_map;
            few_requests = added_le i _ a.requests max_data_requests e k;
            loads_map = c.loads_map;
            few_loads = c.few_loads;
          })
  ]
]

step-IsCapped :
    (debug : ResourceType → Text) (e : Event) (a : PageActivity)
    → IsCapped a
    → IsCapped (step debug e a)
unfolding step
step-IsCapped debug (Event.sent i method url ty now) a c = elim (Option-cases (data_label ty)) [
  | inl e ↦ rw (step, will_be_sent, e) (other-IsCapped debug i url ty now a c)
  | inr (label, e) ↦ rw (step, will_be_sent, e) (data-IsCapped label i method url now a c)
]
step-IsCapped debug (Event.answered i code now) a c = alter-IsCapped i _ a c
step-IsCapped debug (Event.received i bytes) a c = alter-IsCapped i _ a c
step-IsCapped debug (Event.done i bytes now) a c =
    alter-IsCapped i _ (no_longer_pending i a) (no_longer_pending-IsCapped i a c)
step-IsCapped debug (Event.lost i error blocked_by_us now) a c = elim (Bool-cases blocked_by_us) [
  | inr e ↦
      rw (step, loading_failed, e)
        (alter-IsCapped i _ (no_longer_pending i a) (no_longer_pending-IsCapped i a c))
  | inl e ↦
      let d = no_longer_pending-IsCapped i a c in
      rw (step, loading_failed, e)
        (record {
          requests_map = remove-IsMap i a.requests c.requests_map;
          few_requests = omega (arith, length-remove-le i a.requests, c.few_requests);
          loads_map = d.loads_map;
          few_loads = d.few_loads;
        })
]
step-IsCapped debug (Event.reached name now) a c = record {
  requests_map = c.requests_map;
  few_requests = c.few_requests;
  loads_map = c.loads_map;
  few_loads = c.few_loads;
}

run-IsCapped :
    (debug : ResourceType → Text) (es : List Event) (a : PageActivity)
    → IsCapped a
    → IsCapped (run debug es a)
unfolding run
run-IsCapped debug [] a c = c
run-IsCapped debug (e ∷ es) a c = run-IsCapped debug es (step debug e a) (step-IsCapped debug e a c)

-- Whatever the page does, what is recorded of it stays within the caps.
pub activity-IsCapped :
    (debug : ResourceType → Text) (started : ℕ) (es : List Event)
    → IsCapped (run debug es (new started))
unfolding IsMap
activity-IsCapped debug started es = run-IsCapped debug es (new started) (record {
  requests_map = tt;
  few_requests = omega arith;
  loads_map = tt;
  few_loads = omega arith;
})
