-- ===== src/Worker/PageLoad/Bounds.antt =====
-- What holds of the tracker of crates/worker/src/page_load.rs after any events.
use browser_hive_rs.Base.{
  ℕ, ◌≤◌, ◌≡◌, refl, subst, ◌⊎◌, inl, inr, Bool, true, false, not, ◌&&◌, List, [], ◌∷◌, Option,
  none, some, is_some, arith, leb, ◌==◌, length, All, Bool-cases, Option-cases,
}
use browser_hive_rs.Base.Text.{Text, text_eq, text_eq_iff}
use browser_hive_rs.Base.Map.{
  Map, lookup, insert, remove, IsMap, insert-IsMap, remove-IsMap, length-insert, length-remove-le,
}
use browser_hive_rs.Common.Url.{UrlLibrary}
use browser_hive_rs.Worker.PageLoad.{
  PageLoadTracker, Load, Kind, Outcome, new, new_load, modify, max_tracked, tracked_kind,
  start_load, is_id, start_document, end_document, forget, answered, is_pending, finished,
  will_be_sent, load_event, response, loading_failed,
}
use browser_hive_rs.Worker.PageLoad.Events.{Event, step, run}

-- A status is recorded as an outcome only where it is 403 or 429.
abbrev HasSoundOutcome : Text × Load → Type 0
HasSoundOutcome (i, load) = HasSound load.outcome
  where
    HasSound : Outcome → Type 0
    HasSound (Outcome.status code) = (code ≡ 403) ⊎ (code ≡ 429)
    HasSound _ = Unit

-- The main document that is still loading is the latest one.
abbrev IsLatest : Option Text → Option Text → Type 0
IsLatest none last = Unit
IsLatest (some i) last = last ≡ some i

pub record IsBounded (t : PageLoadTracker) : Type 0 where
  pub is_map : IsMap t.loads
  pub few : length t.loads ≤ max_tracked
  pub sound : All HasSoundOutcome t.loads
  pub latest : IsLatest t.main_document t.last_document

insert_sound :
    (i : Text) (load : Load) (m : Map Load)
    → HasSoundOutcome (i, load)
    → All HasSoundOutcome m
    → All HasSoundOutcome (insert i load m)
unfolding insert
insert_sound i load [] h k = (h, tt)
insert_sound i load ((j, w) ∷ m) h k = elim (Bool-cases (text_eq j i)) [
  | inl e ↦ rw e (h, k.1)
  | inr e ↦ rw e (k.0, insert_sound i load m h k.1)
]

remove_sound : (i : Text) (m : Map Load) → All HasSoundOutcome m → All HasSoundOutcome (remove i m)
unfolding remove
remove_sound i [] k = tt
remove_sound i ((j, w) ∷ m) k = elim (Bool-cases (text_eq j i)) [
  | inl e ↦ rw e (remove_sound i m k.1)
  | inr e ↦ rw e (k.0, remove_sound i m k.1)
]

lookup_sound :
    (i : Text) (load : Load) (m : Map Load)
    → All HasSoundOutcome m
    → lookup i m ≡ some load
    → HasSoundOutcome (i, load)
unfolding lookup
lookup_sound i load [] k h = cc
lookup_sound i load ((j, w) ∷ m) k h = elim (Bool-cases (text_eq j i)) [
  | inl e ↦ subst (λ l. HasSoundOutcome (i, l)) (same w load (rw e at h)) k.0
  | inr e ↦ lookup_sound i load m k.1 (rw e at h)
]
  where
    same : (a b : Load) → some a ≡ some b → a ≡ b
    same a b q = cc

modify-IsMap : (i : Text) (f : Load → Load) (m : Map Load) → IsMap m → IsMap (modify i f m)
modify-IsMap i f m h = elim (Option-cases (lookup i m)) [
  | inl e ↦ rw (modify, e) h
  | inr (load, e) ↦ rw (modify, e) (insert-IsMap i (f load) m h)
]

length-modify : (i : Text) (f : Load → Load) (m : Map Load) → length (modify i f m) ≡ length m
length-modify i f m = elim (Option-cases (lookup i m)) [
  | inl e ↦ rw (modify, e) refl
  | inr (load, e) ↦ rw (modify, e, length-insert i (f load) m, e) refl
]

modify_sound :
    (i : Text) (f : Load → Load) (m : Map Load)
    → ((load : Load) → HasSoundOutcome (i, load) → HasSoundOutcome (i, f load))
    → All HasSoundOutcome m
    → All HasSoundOutcome (modify i f m)
modify_sound i f m g h = elim (Option-cases (lookup i m)) [
  | inl e ↦ rw (modify, e) h
  | inr (load, e) ↦
      rw (modify, e) (insert_sound i (f load) m (g load (lookup_sound i load m h e)) h)
]

is_id-eq : (i : Text) (d : Option Text) → is_id i d ≡ true → d ≡ some i
is_id-eq i none h = cc
is_id-eq i (some j) h = ground (arith, text_eq_iff j i)

start_document-IsBounded :
    (i : Text) (t : PageLoadTracker) → IsBounded t → IsBounded (start_document i t)
unfolding IsMap
start_document-IsBounded i t b = record {
  is_map = elim (Bool-cases other) [ inl e ↦ rw e tt | inr e ↦ rw e b.is_map ];
  few = elim (Bool-cases other) [ inl e ↦ rw e (omega arith) | inr e ↦ rw e b.few ];
  sound = elim (Bool-cases other) [ inl e ↦ rw e tt | inr e ↦ rw e b.sound ];
  latest = refl;
}
  where
    other : Bool
    other = is_some t.last_document && not (is_id i t.last_document)

start_load-IsBounded :
    (i u : Text) (kind : Kind × Text) (now : ℕ) (t : PageLoadTracker)
    → IsBounded t
    → IsBounded (start_load i u kind now t)
start_load-IsBounded i u kind now t b = elim (Option-cases (lookup i t.loads)) [
  | inr (load, e) ↦
      rw (start_load, e)
        (record {
          is_map = insert-IsMap i _ t.loads b.is_map;
          few = rw (length-insert i (record load { url = u }) t.loads, e) b.few;
          sound = insert_sound i _ t.loads (lookup_sound i load t.loads b.sound e) b.sound;
          latest = b.latest;
        })
  | inl e ↦ elim (Bool-cases (leb max_tracked (length t.loads))) [
    | inl full ↦ rw (start_load, e, full) b
    | inr room ↦
        rw (start_load, e, room)
          (record {
            is_map = insert-IsMap i _ t.loads b.is_map;
            few = rw (length-insert i (new_load u kind now) t.loads, e) (ground arith);
            sound = insert_sound i _ t.loads tt b.sound;
            latest = b.latest;
          })
  ]
]

end_document-IsLatest :
    (i : Text) (d last : Option Text) → IsLatest d last → IsLatest (end_document i d) last
end_document-IsLatest i none last h = tt
end_document-IsLatest i (some j) last h = elim (Bool-cases (text_eq j i)) [
  | inl e ↦ rw e tt
  | inr e ↦ rw e h
]

modify-IsBounded :
    (i : Text) (f : Load → Load) (t : PageLoadTracker)
    → ((load : Load) → HasSoundOutcome (i, load) → HasSoundOutcome (i, f load))
    → IsBounded t
    → IsBounded (record t { loads = modify i f t.loads })
modify-IsBounded i f t g b = record {
  is_map = modify-IsMap i f t.loads b.is_map;
  few = rw (length-modify i f t.loads) b.few;
  sound = modify_sound i f t.loads g b.sound;
  latest = b.latest;
}

answered_sound :
    (i : Text) (code : ℕ) (load : Load)
    → HasSoundOutcome (i, load)
    → HasSoundOutcome (i, answered code load)
answered_sound i code load h = elim (Bool-cases (code == 403)) [
  | inl e ↦ rw e (inl (ground arith))
  | inr e ↦ elim (Bool-cases (code == 429)) [
    | inl k ↦ rw (e, k) (inr (ground arith))
    | inr k ↦ rw (e, k) h
  ]
]

finished-IsBounded : (i : Text) (t : PageLoadTracker) → IsBounded t → IsBounded (finished i t)
unfolding finished
finished-IsBounded i t b = elim (Option-cases (lookup i t.loads)) [
  | inl e ↦ rw (finished, forget, e) kept
  | inr (load, e) ↦ elim (Bool-cases (is_pending load.outcome)) [
    | inr k ↦ rw (finished, forget, e, k) kept
    | inl k ↦
        rw (finished, forget, e, k)
          (record {
            is_map = remove-IsMap i t.loads b.is_map;
            few = omega (arith, length-remove-le i t.loads, b.few);
            sound = remove_sound i t.loads b.sound;
            latest = kept.latest;
          })
  ]
]
  where
    kept : IsBounded (record t { main_document = end_document i t.main_document })
    kept = record {
      is_map = b.is_map;
      few = b.few;
      sound = b.sound;
      latest = end_document-IsLatest i t.main_document t.last_document b.latest;
    }

pub step-IsBounded : (e : Event) (t : PageLoadTracker) → IsBounded t → IsBounded (step e t)
unfolding step load_event response loading_failed
step-IsBounded (Event.sent i u ty true now) t b = start_document-IsBounded i t b
step-IsBounded (Event.sent i u ty false now) t b = elim (Option-cases (tracked_kind ty)) [
  | inl e ↦ rw (step, will_be_sent, e) b
  | inr (k, e) ↦ rw (step, will_be_sent, e) (start_load-IsBounded i u k now t b)
]
step-IsBounded Event.fired t b = record {
  is_map = b.is_map;
  few = b.few;
  sound = b.sound;
  latest = b.latest;
}
step-IsBounded (Event.answered i code) t b =
    modify-IsBounded i (answered code) t (answered_sound i code) b
step-IsBounded (Event.ended i) t b = finished-IsBounded i t b
step-IsBounded (Event.lost i error canceled reason cors) t b =
    let c = modify-IsBounded i _ t (λ load h. tt) b in
    record {
      is_map = c.is_map;
      few = c.few;
      sound = c.sound;
      latest = end_document-IsLatest i t.main_document t.last_document b.latest;
    }

new-IsBounded : (lib : UrlLibrary) (url : Text) → IsBounded (new lib url)
unfolding new IsMap
new-IsBounded lib url = record { is_map = tt; few = omega arith; sound = tt; latest = tt }

pub run-IsBounded : (es : List Event) (t : PageLoadTracker) → IsBounded t → IsBounded (run es t)
unfolding run
run-IsBounded [] t b = b
run-IsBounded (e ∷ es) t b = run-IsBounded es (step e t) (step-IsBounded e t b)

-- After any sequence of events a tracker holds at most 4096 loads, one for each id, with no status
-- among their outcomes but 403 and 429, and a main document that is loading is the last one seen.
pub tracker-IsBounded :
    (lib : UrlLibrary) (url : Text) (es : List Event) → IsBounded (run es (new lib url))
tracker-IsBounded lib url es = run-IsBounded es (new lib url) (new-IsBounded lib url)
