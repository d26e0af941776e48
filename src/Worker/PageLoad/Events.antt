-- ===== src/Worker/PageLoad/Events.antt =====
-- The listener's calls on the tracker of crates/worker/src/page_load.rs, as a sequence of events,
-- and what every event keeps.
use browser_hive_rs.Base.{
  ℕ, Bool, true, false, List, [], ◌∷◌, ◌++◌, Option, ◌≡◌, refl, Option-cases, inl, inr,
}
use browser_hive_rs.Base.Text.{Text}
use browser_hive_rs.Worker.PageLoad.{
  PageLoadTracker, ResourceType, BlockedReason, will_be_sent, load_event, response, finished,
  loading_failed, tracked_kind,
}

pub data Event : Type 0 where
  sent : Text → Text → Option ResourceType → Bool → ℕ → Event
  fired : Event
  answered : Text → ℕ → Event
  ended : Text → Event
  lost : Text → Text → Bool → Option BlockedReason → Bool → Event

unfoldable pub step : Event → PageLoadTracker → PageLoadTracker
unfolding will_be_sent load_event response finished loading_failed
step (Event.sent i u ty is_main now) t = will_be_sent i u ty is_main now t
step Event.fired t = load_event t
step (Event.answered i code) t = response i code t
step (Event.ended i) t = finished i t
step (Event.lost i error canceled reason cors) t = loading_failed i error canceled reason cors t

unfoldable pub run : List Event → PageLoadTracker → PageLoadTracker
unfolding step
run [] t = t
run (e ∷ es) t = run es (step e t)

pub run-append : (xs ys : List Event) (t : PageLoadTracker) → run (xs ++ ys) t ≡ run ys (run xs t)
unfolding run
run-append [] ys t = refl
run-append (e ∷ xs) ys t = run-append xs ys (step e t)

step-page_host : (e : Event) (t : PageLoadTracker) → (step e t).page_host ≡ t.page_host
unfolding step
step-page_host (Event.sent i u ty true now) t = refl
step-page_host (Event.sent i u ty false now) t = elim (Option-cases (tracked_kind ty)) [
  | inl e ↦ rw (step, will_be_sent, e) refl
  | inr (k, e) ↦ rw (step, will_be_sent, e) refl
]
step-page_host Event.fired t = refl
step-page_host (Event.answered i code) t = refl
step-page_host (Event.ended i) t = refl
step-page_host (Event.lost i error canceled reason cors) t = refl

pub run-page_host : (es : List Event) (t : PageLoadTracker) → (run es t).page_host ≡ t.page_host
unfolding run
run-page_host [] t = refl
run-page_host (e ∷ es) t = cc (run-page_host es (step e t), step-page_host e t)
