-- ===== src/Worker/Outcome/Classify.antt =====
-- The order of the causes in crates/worker/src/service.rs: which observations give which code.
use browser_hive_rs.Base.{
  ℕ, ◌≡◌, ◌≢◌, refl, ◌∙◌, ap, ◌↔◌, ◌⊎◌, inl, inr, Bool, true, false, ◌&&◌, not, List, none, some,
  arith, ltb, ◌==◌, if◌then◌else◌, Bool-cases, Option-cases,
}
use browser_hive_rs.Base.Text.{Text}
use browser_hive_rs.Base.Result.{Result, ok, err, Result-cases}
use browser_hive_rs.Common.Url.{UrlLibrary}
use browser_hive_rs.Worker.Outcome.{
  ErrorCode, Observed, Verdict, WaitResult, is_proxy_error, cross_site_redirect_target,
  first_verdict, blame_proxy, blame_load, load_message, classify, may_be_proxy,
  is_selector_not_found, waited,
}

-- The page that was asked for was reached.
pub record IsReached (lib : UrlLibrary) (o : Observed) : Type 0 where
  pub navigated : o.navigation ≡ ok tt
  pub same_site : cross_site_redirect_target lib o.url o.final_url ≡ none

blame_proxy-success : (p : ℕ × Text) (v : Verdict) → (blame_proxy p v).0 ≡ v.0
unfolding blame_proxy
blame_proxy-success (n, s) (d, m, c) = elim (Bool-cases (ltb 0 n && may_be_proxy c)) [
  | inl e ↦ rw (blame_proxy, e) refl
  | inr e ↦ rw (blame_proxy, e) refl
]

blame_load-success : (w : List Text × ℕ) (v : Verdict) → (blame_load w v).0 ≡ v.0
unfolding blame_load
blame_load-success w (d, m, c) = elim (Bool-cases (is_selector_not_found c)) [
  | inr e ↦ rw (blame_load, e) refl
  | inl e ↦ elim (Option-cases (load_message w m)) [
    | inl k ↦ rw (blame_load, e, k) refl
    | inr (t, k) ↦ rw (blame_load, e, k) refl
  ]
]

blame_proxy-code :
    (n : ℕ) (s : Text) (v : Verdict)
    → (blame_proxy (n, s) v).2
      ≡ (if ltb 0 n && may_be_proxy v.2 then ErrorCode.proxy_error else v.2)
unfolding blame_proxy
blame_proxy-code n s (d, m, c) = elim (Bool-cases (ltb 0 n && may_be_proxy c)) [
  | inl e ↦ rw (blame_proxy, e) refl
  | inr e ↦ rw (blame_proxy, e) refl
]

blame_load-code :
    (listed : List Text) (total : ℕ) (v : Verdict)
    → (blame_load (listed, total) v).2 ≡ (
        if is_selector_not_found v.2 && not (total == 0)
        then ErrorCode.page_load_incomplete
        else v.2)
unfolding blame_load
blame_load-code listed total (d, m, c) = elim (Bool-cases (is_selector_not_found c)) [
  | inr e ↦ rw (blame_load, e) refl
  | inl e ↦ elim (Bool-cases (total == 0)) [
    | inl k ↦ rw (blame_load, load_message, e, k) refl
    | inr k ↦ rw (blame_load, load_message, e, k) refl
  ]
]

abbrev with_proxy : ℕ → ErrorCode → ErrorCode
with_proxy n c = if ltb 0 n && may_be_proxy c then ErrorCode.proxy_error else c

-- The code after both corrections.
abbrev corrected : ℕ → ℕ → ErrorCode → ErrorCode
corrected n total c =
    if is_selector_not_found (with_proxy n c) && not (total == 0)
    then ErrorCode.page_load_incomplete
    else with_proxy n c

-- No page, or another site's: neither a success nor a code that is corrected into an incomplete load.
abbrev IsOff : Verdict → Type 0
IsOff v =
    (v.0 ≡ false)
    × (is_selector_not_found v.2 ≡ false)
    × (may_be_proxy v.2 ≡ false)
    × (v.2 ≢ ErrorCode.page_load_incomplete)

first_verdict-cases :
    (lib : UrlLibrary) (o : Observed)
    → (IsReached lib o × (first_verdict lib o ≡ waited o o.wait_result))
      ⊎ ((IsReached lib o → ⊥) × IsOff (first_verdict lib o))
unfolding first_verdict
first_verdict-cases lib o = elim (Result-cases o.navigation) [
  | inr (e, h) ↦ elim (Bool-cases (is_proxy_error e)) [
    | inl k ↦ inr (no_page e h, rw (first_verdict, h, k) (refl, refl, refl, cc))
    | inr k ↦ inr (no_page e h, rw (first_verdict, h, k) (refl, refl, refl, cc))
  ]
  | inl (u, h) ↦ elim (Option-cases (cross_site_redirect_target lib o.url o.final_url)) [
    | inl k ↦ inl (record { navigated = h; same_site = k }, rw (first_verdict, h, k) refl)
    | inr (t, k) ↦ inr (elsewhere t k, rw (first_verdict, h, k) (refl, refl, refl, cc))
  ]
]
  where
    no_page : (e : Text) → o.navigation ≡ err e → IsReached lib o → ⊥
    no_page e h r = cc (h, r.navigated)

    elsewhere :
        (t : Text) → cross_site_redirect_target lib o.url o.final_url ≡ some t → IsReached lib o → ⊥
    elsewhere t h r = cc (h, r.same_site)

waited-success :
    (o : Observed) (r : Result Text WaitResult)
    → ((waited o r).0 ≡ true) ↔ (r ≡ ok WaitResult.success)
waited-success o (ok WaitResult.success) = (λ h. refl, λ h. refl)
waited-success o (ok WaitResult.skip_found) = (λ h. cc, λ h. cc)
waited-success o (ok WaitResult.wait_not_found) = (λ h. cc, λ h. cc)
waited-success o (err e) = (λ h. cc, λ h. cc)

waited-incomplete :
    (n total : ℕ) (o : Observed) (r : Result Text WaitResult)
    → (corrected n total (waited o r).2 ≡ ErrorCode.page_load_incomplete)
      ↔ ((r ≡ ok WaitResult.wait_not_found) × (n ≡ 0) × (total ≢ 0))
waited-incomplete n total o (ok WaitResult.success) = (λ h. absurd (ground (arith, h)), λ h. cc h.0)
waited-incomplete n total o (ok WaitResult.skip_found) =
    (λ h. absurd (ground (arith, h)), λ h. cc h.0)
waited-incomplete n total o (ok WaitResult.wait_not_found) = ground arith
waited-incomplete n total o (err e) = (λ h. absurd (ground (arith, h)), λ h. cc h.0)

IsOff-corrected :
    (n total : ℕ) (v : Verdict) → IsOff v → corrected n total v.2 ≢ ErrorCode.page_load_incomplete
IsOff-corrected n total v (f, s, p, i) = rw (p, and_false (ltb 0 n), s) i
  where
    and_false : (b : Bool) → (b && false) ≡ false
    and_false b = ground arith

classify-success : (lib : UrlLibrary) (o : Observed) → (classify lib o).0 ≡ (first_verdict lib o).0
unfolding classify
classify-success lib o =
    blame_load-success o.verdict (blame_proxy o.proxy_failures (first_verdict lib o))
    ∙ blame_proxy-success o.proxy_failures (first_verdict lib o)

classify-code :
    (lib : UrlLibrary) (o : Observed)
    → (classify lib o).2 ≡ corrected o.proxy_failures.0 o.verdict.1 (first_verdict lib o).2
unfolding classify
classify-code lib o =
    blame_load-code o.verdict.0 o.verdict.1 (blame_proxy o.proxy_failures (first_verdict lib o))
    ∙ ap (after o.verdict.1)
        (blame_proxy-code o.proxy_failures.0 o.proxy_failures.1 (first_verdict lib o))
  where
    after : ℕ → ErrorCode → ErrorCode
    after total c =
        if is_selector_not_found c && not (total == 0) then ErrorCode.page_load_incomplete else c

-- An attempt that ran to its end is a success exactly where the requested site was reached and the
-- wait succeeded, and carries PAGE_LOAD_INCOMPLETE exactly where the site was reached, the selector
-- was not found, no load failed at the proxy and the total of the verdict on the page, which counts
-- the markers of the loads and that of a main document still loading or without its load event, is
-- not 0.
pub classify_iff :
    (lib : UrlLibrary) (o : Observed)
    → (((classify lib o).0 ≡ true) ↔ (IsReached lib o × (o.wait_result ≡ ok WaitResult.success)))
      × (((classify lib o).2 ≡ ErrorCode.page_load_incomplete) ↔ (
          IsReached lib o
          × (o.wait_result ≡ ok WaitResult.wait_not_found)
          × (o.proxy_failures.0 ≡ 0)
          × (o.verdict.1 ≢ 0)))
classify_iff lib o =
    rw (classify-success lib o, classify-code lib o)
      (elim (first_verdict-cases lib o) [
        | inl (r, e) ↦
            let s = waited-success o o.wait_result in
            let i = waited-incomplete o.proxy_failures.0 o.verdict.1 o o.wait_result in
            rw e (
              (λ h. (r, s.0 h), λ h. s.1 h.1),
              (λ h. let (w, n, t) = i.0 h in (r, w, n, t), λ h. i.1 (h.1, h.2, h.3)),
            )
        | inr (n, f) ↦ (
          (λ h. absurd (never h f.0), λ h. absurd (n h.0)),
          (
            λ h. absurd (IsOff-corrected o.proxy_failures.0 o.verdict.1 (first_verdict lib o) f h),
            λ h. absurd (n h.0),
          ),
        )
      ])
  where
    never : {b : Bool} → b ≡ true → b ≡ false → ⊥
    never h k = cc
