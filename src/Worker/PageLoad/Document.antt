-- ===== src/Worker/PageLoad/Document.antt =====
-- Navigation in crates/worker/src/page_load.rs: a new main document starts the tracker anew.
use browser_hive_rs.Base.{List, ◌∷◌, ◌++◌, Option, some, ◌≡◌, ◌≢◌, refl, ap, true, false, ℕ, arith}
use browser_hive_rs.Base.Text.{Text, text_eq, text_eq_iff}
use browser_hive_rs.Common.Url.{UrlLibrary}
use browser_hive_rs.Worker.PageLoad.{PageLoadTracker, ResourceType, new, start_document}
use browser_hive_rs.Worker.PageLoad.Events.{Event, step, run, run-append, run-page_host}

start_document_fresh :
    (i old : Text) (lib : UrlLibrary) (url : Text) (t : PageLoadTracker)
    → t.page_host ≡ (new lib url).page_host
    → t.last_document ≡ some old
    → old ≢ i
    → start_document i t ≡ start_document i (new lib url)
unfolding new
start_document_fresh i old lib url t h k d = rw (k, h, other) refl
  where
    other : text_eq old i ≡ false
    other = ground (arith, text_eq_iff old i)

-- Where another main document was the last one seen, a request for a new main document brings the
-- tracker, with all that follows, to the state of a tracker that saw nothing before it.
pub navigation_starts_anew :
    (lib : UrlLibrary) (url : Text) (before after : List Event) (old i u : Text)
    (ty : Option ResourceType) (now : ℕ)
    → (run before (new lib url)).last_document ≡ some old
    → old ≢ i
    → run (before ++ Event.sent i u ty true now ∷ after) (new lib url)
      ≡ run (Event.sent i u ty true now ∷ after) (new lib url)
unfolding run step
navigation_starts_anew lib url before after old i u ty now k d =
    rw (run-append before (Event.sent i u ty true now ∷ after) (new lib url)) (
      ap (run after) (
        start_document_fresh i old lib url (run before (new lib url))
          (run-page_host before (new lib url)) k d))
