-- ===== src/Worker/ThirdParty/Iframes.antt =====
-- `new_iframes` of crates/worker/src/third_party.rs. A `HashSet` is a list, of which only the
-- membership is read.
use browser_hive_rs.Base.{
  ◌≡◌, refl, inl, inr, true, not, ◌&&◌, ◌||◌, List, [], ◌∷◌, Option, none, some, arith,
  if◌then◌else◌, unwrap_or, Bool-cases, Option-cases, All, All-map,
}
use browser_hive_rs.Base.Text.{Text, codes, text_eq, text_eq_refl}
use browser_hive_rs.Base.Map.{Map, lookup}
use browser_hive_rs.Common.Url.{UrlLibrary}
use browser_hive_rs.Worker.ThirdParty.{host_of, is_cross_site}
use browser_hive_rs.Worker.ThirdParty.Loads.{has}

abbrev pub unknown_site : Text
unknown_site = codes "unknown"

pub record TargetInfo : Type 0 where
  pub target_id : Text
  pub target_type : Text
  pub url : Text
  pub browser_context_id : Option Text

abbrev pub site_of : Map Text → Option Text → Text
site_of sites none = unknown_site
site_of sites (some i) = unwrap_or (lookup i sites) unknown_site

module _ (lib : UrlLibrary) (sites : Map Text) (seen : List (Text × Text)) where
  abbrev pub found_in : TargetInfo → Text → List (Text × Text) → List (Text × Text)
  found_in t host found =
      let site = site_of sites t.browser_context_id in
      if not (has (t.target_id, host) seen)
        && (text_eq site unknown_site || is_cross_site lib site host)
      then (site, host) ∷ found
      else found

  abbrev pub look_at :
      TargetInfo → List (Text × Text) × List (Text × Text) → List (Text × Text) × List (Text × Text)
  look_at t (found, current) =
      if text_eq t.target_type (codes "iframe")
      then elim (host_of lib t.url) [
        | none ↦ (found, current)
        | some host ↦ (found_in t host found, (t.target_id, host) ∷ current)
      ]
      else (found, current)

  -- What was found, and the frames of this sample.
  unfoldable pub new_iframes : List TargetInfo → List (Text × Text) × List (Text × Text)
  unfolding host_of
  new_iframes [] = ([], [])
  new_iframes (t ∷ targets) = look_at t (new_iframes targets)

has_later :
    (key k : Text × Text) (keys : List (Text × Text))
    → has key keys ≡ true
    → has key (k ∷ keys) ≡ true
has_later key k keys h = ground (arith, h)

has_own : (keys : List (Text × Text)) → All (λ k. has k keys ≡ true) keys
has_own [] = tt
has_own ((a, b) ∷ keys) = (
  rw (text_eq_refl a, text_eq_refl b) refl,
  All-map (λ k h. has_later k (a, b) keys h) keys (has_own keys),
)

-- Where all frames of a sample were seen, it finds nothing.
pub found_nothing :
    (lib : UrlLibrary) (sites before : Map Text) (seen earlier : List (Text × Text))
    (targets : List TargetInfo)
    → All (λ k. has k seen ≡ true) (new_iframes lib before earlier targets).1
    → (new_iframes lib sites seen targets).0 ≡ []
unfolding new_iframes
found_nothing lib sites before seen earlier [] h = refl
found_nothing lib sites before seen earlier (t ∷ targets) h =
    elim (Bool-cases (text_eq t.target_type (codes "iframe"))) [
      | inr e ↦
          rw (new_iframes, e) (found_nothing lib sites before seen earlier targets (rw e at h))
      | inl e ↦ elim (Option-cases (host_of lib t.url)) [
        | inl k ↦
            rw (new_iframes, e, k)
              (found_nothing lib sites before seen earlier targets (rw (e, k) at h))
        | inr (host, k) ↦
            let (a, b) = rw (e, k) at h in
            rw (new_iframes, e, k, a) (found_nothing lib sites before seen earlier targets b)
      ]
    ]

-- A second sample of the same targets counts no frame again.
pub sampled_once :
    (lib : UrlLibrary) (sites : Map Text) (seen : List (Text × Text)) (targets : List TargetInfo)
    → (new_iframes lib sites (new_iframes lib sites seen targets).1 targets).0 ≡ []
sampled_once lib sites seen targets =
    found_nothing lib sites sites (new_iframes lib sites seen targets).1 seen targets
      (has_own (new_iframes lib sites seen targets).1)
