-- ===== src/Worker/PageLoad/Verdict.antt =====
-- The verdict on a page in crates/worker/src/page_load.rs.
use browser_hive_rs.Base.{
  ℕ, ◌-◌, ◌/◌, Bool, true, false, not, ◌&&◌, ◌||◌, List, [], ◌∷◌, ◌++◌, map, Option, none, some,
  is_some, unwrap_or, leb, ◌==◌, if◌then◌else◌, length, any, head?,
}
use browser_hive_rs.Base.Text.{Text, codes, text_eq}
use browser_hive_rs.Base.Sort.{sort_by_key}
use browser_hive_rs.Base.Strings.{contains, take, split, trim_start_text}
use browser_hive_rs.Base.Strings.Decimal.{show}
use browser_hive_rs.Common.Url.{UrlLibrary}
use browser_hive_rs.Worker.ThirdParty.{host_of, is_cross_site}
use browser_hive_rs.Worker.PageLoad.{
  second, stalled_after, max_listed, max_url_chars, transport_errors, cross_origin_blocks, Kind,
  Outcome, Load, PageLoadTracker,
}

unfoldable pub short_url : Text → Text
short_url u =
    let base = unwrap_or (head? (split (λ c. c == b'?' || c == b'#') u)) u in
    if leb (length base) max_url_chars then base else take max_url_chars base ++ codes "…"

unfoldable pub document_marker : PageLoadTracker → List Text
document_marker t =
    if is_some t.main_document
    then codes "main document still loading" ∷ []
    else (if is_some t.last_document && not t.load_fired
        then codes "load event never fired" ∷ []
        else [])

module _ (lib : UrlLibrary) where
  unfoldable pub is_same_site : Text → Text → Bool
  is_same_site page_host u = elim (host_of lib u) [
    | none ↦ false
    | some host ↦ if text_eq page_host [] then false else not (is_cross_site lib page_host host)
  ]

  abbrev judge_failed : Text → Bool → Bool → Bool → Option Text
  judge_failed error canceled blocked_by_us cors =
      let short = trim_start_text error (codes "net::") in
      if canceled || (blocked_by_us || contains error (codes "ERR_ABORTED"))
      then none
      else (if cors
          then some (codes "CORS " ++ short)
          else (if any (contains error) cross_origin_blocks || any (contains error) transport_errors
              then some short
              else none))

  abbrev judge_pending : ℕ → Option ℕ → Option Text
  judge_pending age responded =
      let waited = codes "pending " ++ show (age / second) in
      if leb stalled_after age
      then some (elim responded [
        | some code ↦ waited ++ codes "s, HTTP " ++ show code ++ codes " body"
        | none ↦ waited ++ codes "s"
      ])
      else none

  abbrev judge_outcome : Outcome → ℕ → Option ℕ → Option Text
  judge_outcome Outcome.pending age responded = judge_pending age responded
  judge_outcome (Outcome.status code) age responded = some (codes "HTTP " ++ show code)
  judge_outcome (Outcome.failed error canceled blocked_by_us cors) age responded =
      judge_failed error canceled blocked_by_us cors

  abbrev pub is_data : Kind → Bool
  is_data Kind.asset = false
  is_data Kind.data_request = true

  unfoldable pub judge : Text → ℕ → Load → Option Text
  unfolding is_same_site
  judge page_host now load =
      if is_data load.kind && not (is_same_site page_host load.url)
      then none
      else judge_outcome load.outcome (now - load.started) load.responded

  -- One line of the verdict, with the time its load started.
  abbrev pub markers_of : Text → ℕ → List Load → List (ℕ × Text)
  markers_of page_host now [] = []
  markers_of page_host now (load ∷ values) = elim (judge page_host now load) [
    | none ↦ markers_of page_host now values
    | some reason ↦
        (load.started, load.type_label ++ codes " " ++ reason ++ codes " " ++ short_url load.url)
        ∷ markers_of page_host now values
  ]

  -- `values` are the loads in the order in which the map yields them.
  unfoldable pub verdict_at : PageLoadTracker → List Load → ℕ → List Text × ℕ
  unfolding document_marker
  verdict_at t values now =
      let markers =
        document_marker t
        ++ map (λ m. m.1) (sort_by_key (λ m. m.0) (markers_of t.page_host now values)) in
      (take max_listed markers, length markers)
