-- ===== src/Worker/LaunchArgs.antt =====
-- The merge of `--disable-features=` switches in crates/worker/src/launch_args.rs. `to_str` is
-- `OsStr::to_str` of the standard library, on the arguments of the middlewares.
pub mod Merge
use browser_hive_rs.Base.{
  ℕ, ◌+◌, Bool, true, not, ◌&&◌, List, [], ◌∷◌, ◌++◌, map, filter, Option, none, some, is_some,
  ◌==◌, any, if◌then◌else◌, is_empty,
}
use browser_hive_rs.Base.Text.{Text, codes, text_eq}
use browser_hive_rs.Base.Strings.{strip_prefix, split, trim}
use browser_hive_rs.Base.Strings.{join}

abbrev pub switch_name : Text
switch_name = codes "--disable-features="

-- The features of such a switch, and none for any other argument.
unfoldable pub disabled_features : Text → Option (List Text)
unfolding strip_prefix split trim
disabled_features arg = elim (strip_prefix arg switch_name) [
  | none ↦ none
  | some list ↦ some (filter (λ f. not (is_empty f)) (map trim (split (λ c. c == b',') list)))
]

abbrev pub knows : Text → List Text → Bool
knows f features = any (λ known. text_eq known f) features

-- `add`.
abbrev pub add : List Text → Text → List Text
add features f = if knows f features then features else features ++ (f ∷ [])

unfoldable pub add_all : List Text → List Text → List Text
add_all features [] = features
add_all features (f ∷ fs) = add_all (add features f) fs

pub record MergedArgs (A : Type 0) : Type 0 where
  pub args : List A
  pub disable_features : Option Text
  pub ignored_defaults : List Text

-- What the loop over the arguments has come to.
pub record Collected (A : Type 0) : Type 0 where
  pub features : List Text
  pub own_sources : ℕ
  pub kept : List A

abbrev pub ignored : List Text → List Text
ignored crate_defaults = filter (λ arg. is_some (disabled_features arg)) crate_defaults

unfoldable pub add_defaults : List Text → List Text → List Text
unfolding disabled_features add_all
add_defaults features [] = features
add_defaults features (arg ∷ defaults) = elim (disabled_features arg) [
  | some list ↦ add_defaults (add_all features list) defaults
  | none ↦ add_defaults features defaults
]

module _ {A : Type 0} (to_str : A → Option Text) where
  abbrev pub features_in : A → Option (List Text)
  features_in arg = elim (to_str arg) [ none ↦ none | some text ↦ disabled_features text ]

  abbrev pub collect : A → Collected A → Collected A
  collect arg s = elim (features_in arg) [
    | some list ↦ record s { own_sources = s.own_sources + 1; features = add_all s.features list }
    | none ↦ record s { kept = s.kept ++ (arg ∷ []) }
  ]

  unfoldable pub collect_all : List A → Collected A → Collected A
  unfolding disabled_features add_all
  collect_all [] s = s
  collect_all (arg ∷ args) s = collect_all args (collect arg s)

  -- The features of the defaults and of the arguments; the extra ones follow.
  abbrev pub collected : List Text → List A → Collected A
  collected crate_defaults args =
      collect_all args
        (record { features = add_defaults [] (ignored crate_defaults); own_sources = 0; kept = [] })

  abbrev pub fold_switch : List Text → List Text → Collected A → MergedArgs A
  fold_switch crate_defaults extra s =
      if (s.own_sources == 0) && is_empty extra
      then record { args = s.kept; disable_features = none; ignored_defaults = [] }
      else record {
        args = s.kept;
        disable_features = some (switch_name ++ join (codes ",") (add_all s.features extra));
        ignored_defaults = ignored crate_defaults;
      }

  unfoldable pub merge_disable_features : List Text → List A → List Text → MergedArgs A
  unfolding disabled_features add_defaults add_all collect_all join
  merge_disable_features crate_defaults args extra =
      fold_switch crate_defaults extra (collected crate_defaults args)
