-- ===== src/Worker/PageLoad/Stalled.antt =====
-- The verdict of crates/worker/src/page_load.rs: which loads it reports.
use browser_hive_rs.Base.{
  ℕ, zero, suc, subst, ◌+◌, ◌-◌, ◌≤◌, ◌<◌, ◌≡◌, refl, ap, ◌∙◌, inl, inr, Bool, true, false, List,
  [], ◌∷◌, ◌++◌, none, some, is_some, arith, leb, if◌then◌else◌, length, All, Bool-cases,
  Option-cases, count_if, length-append, length-map, Mem-split,
}
use browser_hive_rs.Base.Text.{Text, text_eq}
use browser_hive_rs.Base.Map.{Map, lookup, lookup-insert, lookup-remove, lookup-insert_self}
use mathlib.Core.List.{Memᴰ}
use browser_hive_rs.Base.Sort.{sort_by_key, length-sort_by}
use browser_hive_rs.Base.Strings.{take}
use browser_hive_rs.Common.Url.{UrlLibrary}
use browser_hive_rs.Worker.PageLoad.{
  PageLoadTracker, ResourceType, Load, Kind, new, new_load, modify, max_tracked, max_listed,
  stalled_after, tracked_kind, start_load, forget, answered, is_pending, will_be_sent,
}
use browser_hive_rs.Worker.PageLoad.Verdict.{judge, markers_of, document_marker, verdict_at}
use browser_hive_rs.Worker.PageLoad.Events.{Event, step, run, run-append}

-- The event neither replaces the page nor belongs to request `i`.
abbrev pub IsElsewhere : Text → Event → Type 0
IsElsewhere i (Event.sent j u ty is_main now) = (is_main ≡ false) × (text_eq j i ≡ false)
IsElsewhere i Event.fired = Unit
IsElsewhere i (Event.answered j code) = text_eq j i ≡ false
IsElsewhere i (Event.ended j) = text_eq j i ≡ false
IsElsewhere i (Event.lost j error canceled reason cors) = text_eq j i ≡ false

lookup-modify :
    (i j : Text) (f : Load → Load) (m : Map Load)
    → text_eq j i ≡ false
    → lookup i (modify j f m) ≡ lookup i m
lookup-modify i j f m h = elim (Option-cases (lookup j m)) [
  | inl e ↦ rw (modify, e) refl
  | inr (load, e) ↦ rw (modify, e, lookup-insert j i (f load) m, h) refl
]

lookup-forget :
    (i j : Text) (m : Map Load) → text_eq j i ≡ false → lookup i (forget j m) ≡ lookup i m
lookup-forget i j m h = elim (Option-cases (lookup j m)) [
  | inl e ↦ rw (forget, e) refl
  | inr (load, e) ↦ elim (Bool-cases (is_pending load.outcome)) [
    | inl k ↦ rw (forget, e, k, lookup-remove j i m, h) refl
    | inr k ↦ rw (forget, e, k) refl
  ]
]

lookup-start_load :
    (i j u : Text) (kind : Kind × Text) (now : ℕ) (t : PageLoadTracker)
    → text_eq j i ≡ false
    → lookup i (start_load j u kind now t).loads ≡ lookup i t.loads
lookup-start_load i j u kind now t h = elim (Option-cases (lookup j t.loads)) [
  | inr (load, e) ↦ rw (start_load, e, lookup-insert j i _ t.loads, h) refl
  | inl e ↦ elim (Bool-cases (leb max_tracked (length t.loads))) [
    | inl full ↦ rw (start_load, e, full) refl
    | inr room ↦ rw (start_load, e, room, lookup-insert j i _ t.loads, h) refl
  ]
]

lookup-step :
    (i : Text) (e : Event) (t : PageLoadTracker)
    → IsElsewhere i e
    → lookup i (step e t).loads ≡ lookup i t.loads
unfolding step
lookup-step i (Event.sent j u ty true now) t h = cc
lookup-step i (Event.sent j u ty false now) t h = elim (Option-cases (tracked_kind ty)) [
  | inl e ↦ rw (step, will_be_sent, e) refl
  | inr (k, e) ↦ rw (step, will_be_sent, e) (lookup-start_load i j u k now t h.1)
]
lookup-step i Event.fired t h = refl
lookup-step i (Event.answered j code) t h = lookup-modify i j (answered code) t.loads h
lookup-step i (Event.ended j) t h = lookup-forget i j t.loads h
lookup-step i (Event.lost j error canceled reason cors) t h = lookup-modify i j _ t.loads h

lookup-run :
    (i : Text) (es : List Event) (t : PageLoadTracker)
    → All (IsElsewhere i) es
    → lookup i (run es t).loads ≡ lookup i t.loads
unfolding run
lookup-run i [] t h = refl
lookup-run i (e ∷ es) t h = lookup-run i es (step e t) h.1 ∙ lookup-step i e t h.0

module _ (lib : UrlLibrary) where
  abbrev pub is_marker : Text → ℕ → Load → Bool
  is_marker page_host now load = is_some (judge lib page_host now load)

  length-markers_of :
      (page_host : Text) (now : ℕ) (values : List Load)
      → length (markers_of lib page_host now values) ≡ count_if (is_marker page_host now) values
  length-markers_of page_host now [] = refl
  length-markers_of page_host now (load ∷ values) =
      elim (Option-cases (judge lib page_host now load)) [
        | inl e ↦ rw (markers_of, e) (length-markers_of page_host now values)
        | inr (r, e) ↦ rw (markers_of, e) (ap suc (length-markers_of page_host now values))
      ]

  length-take {ℓ} :
      {A : Type ℓ} (n : ℕ) (xs : List A)
      → length (take n xs) ≡ (if leb n (length xs) then n else length xs)
  length-take zero xs = ground arith
  length-take (suc n) [] = ground arith
  length-take (suc n) (x ∷ xs) = ground (arith, length-take n xs)

  -- The count of a verdict, and how much of it is listed.
  pub verdict_counts :
      (t : PageLoadTracker) (values : List Load) (now : ℕ)
      → ((verdict_at lib t values now).1
          ≡ length (document_marker t) + count_if (is_marker t.page_host now) values)
        × (length (verdict_at lib t values now).0 ≡ (
            if leb max_listed (verdict_at lib t values now).1
            then max_listed
            else (verdict_at lib t values now).1))
  unfolding verdict_at sort_by_key
  verdict_counts t values now = (
    rw (length-append, length-map, length-sort_by, length-markers_of t.page_host now values) refl,
    length-take max_listed _,
  )

  judge_stalled :
      (page_host u label : Text) (now later : ℕ)
      → now + stalled_after ≤ later
      → is_marker page_host later (new_load u (Kind.asset, label) now) ≡ true
  unfolding judge
  judge_stalled page_host u label now later h = rw waited refl
    where
      waited : leb stalled_after (later - now) ≡ true
      waited = ground arith

lookup-values :
    (i : Text) (load : Load) (m : Map Load) (values : List Load)
    → All (λ e. Memᴰ e.1 values) m
    → lookup i m ≡ some load
    → Memᴰ load values
unfolding lookup
lookup-values i load [] values h k = cc
lookup-values i load ((j, w) ∷ m) values h k = elim (Bool-cases (text_eq j i)) [
  | inl e ↦ subst (λ l. Memᴰ l values) (same w load (rw e at k)) h.0
  | inr e ↦ lookup-values i load m values h.1 (rw e at k)
]
  where
    same : (a b : Load) → some a ≡ some b → a ≡ b
    same a b q = cc

lookup-sent :
    (i u : Text) (ty : ResourceType) (kind : Kind × Text) (now : ℕ) (t : PageLoadTracker)
    → lookup i t.loads ≡ none
    → length t.loads < max_tracked
    → tracked_kind (some ty) ≡ some kind
    → lookup i (step (Event.sent i u (some ty) false now) t).loads ≡ some (new_load u kind now)
unfolding step
lookup-sent i u ty kind now t h k e =
    rw (step, will_be_sent, e, start_load, h, room)
      (lookup-insert_self i (new_load u kind now) t.loads)
  where
    room : leb max_tracked (length t.loads) ≡ false
    room = ground arith

-- The load that the tracker holds for `i` is one of `values`, and the verdict counts one marker
-- more than it does on the values without that load.
abbrev pub IsCounted : UrlLibrary → Text → ℕ → List Load → PageLoadTracker → Type 0
IsCounted lib i later values t =
    (load : Load) × (xs : List Load) × (ys : List Load) × (lookup i t.loads ≡ some load)
    × (values ≡ xs ++ (load ∷ ys))
    × ((verdict_at lib t values later).1 ≡ suc (verdict_at lib t (xs ++ ys) later).1)

count_if-middle {ℓ} :
    {A : Type ℓ} (p : A → Bool) (xs ys : List A) (a : A)
    → p a ≡ true
    → count_if p (xs ++ (a ∷ ys)) ≡ suc (count_if p (xs ++ ys))
count_if-middle p [] ys a e = rw e refl
count_if-middle p (x ∷ xs) ys a e = ground (arith, count_if-middle p xs ys a e)

counts_stalled :
    (lib : UrlLibrary) (t : PageLoadTracker) (values : List Load) (i : Text) (load : Load)
    (later : ℕ)
    → lookup i t.loads ≡ some load
    → All (λ e. Memᴰ e.1 values) t.loads
    → is_marker lib t.page_host later load ≡ true
    → IsCounted lib i later values t
counts_stalled lib t values i load later found held marked =
    let (xs, ys, e) = Mem-split values (lookup-values i load t.loads values held found) in
    let more = count_if-middle (is_marker lib t.page_host later) xs ys load marked in
    (
      load,
      xs,
      ys,
      found,
      e,
      rw e (
          (verdict_counts lib t (xs ++ (load ∷ ys)) later).0
          ∙ omega (arith, more, (verdict_counts lib t (xs ++ ys) later).0)),
    )

-- A script or stylesheet that the tracker has room for and does not hold yet is still held under
-- its id, is one of the loads that a verdict reads, and makes the total of that verdict one larger
-- than it is without it, for every verdict that is given at least ten seconds after it was sent and
-- reads all tracked loads, where neither its own id nor a main document occurs in the events
-- between.
pub stalled_asset_is_reported :
    (lib : UrlLibrary) (url : Text) (before after : List Event) (i u label : Text)
    (ty : ResourceType) (now later : ℕ) (values : List Load)
    → lookup i (run before (new lib url)).loads ≡ none
    → length (run before (new lib url)).loads < max_tracked
    → tracked_kind (some ty) ≡ some (Kind.asset, label)
    → All (IsElsewhere i) after
    → now + stalled_after ≤ later
    → All
        (λ e. Memᴰ e.1 values)
        (run (before ++ Event.sent i u (some ty) false now ∷ after) (new lib url)).loads
    → IsCounted lib i later values
        (run (before ++ Event.sent i u (some ty) false now ∷ after) (new lib url))
unfolding run step
stalled_asset_is_reported lib url before after i u label ty now later values h k e q w v =
    counts_stalled lib end values i _ later found v
      (judge_stalled lib end.page_host u label now later w)
  where
    end : PageLoadTracker
    end = run (before ++ Event.sent i u (some ty) false now ∷ after) (new lib url)

    found : lookup i end.loads ≡ some (new_load u (Kind.asset, label) now)
    found = rw (run-append before (Event.sent i u (some ty) false now ∷ after) (new lib url)) (
        lookup-run i after (step (Event.sent i u (some ty) false now) (run before (new lib url))) q
        ∙ lookup-sent i u ty (Kind.asset, label) now (run before (new lib url)) h k e)
