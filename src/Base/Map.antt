-- ===== src/Base/Map.antt =====
-- `HashMap<String, V>` as an association list. Where the order of its entries shows, as in the
-- verdict on a page, the definition takes the entries in the map's order as an argument.
use mathlib.Core.Logic.{inl, inr}
use mathlib.Core.Path.{◌≡◌, refl}
use mathlib.Core.Bool.{Bool, true, false}
use mathlib.Core.List.{List, [], ◌∷◌}
use mathlib.Core.Option.{Option, none, some}
use Prim.Native.Nat.{suc, ◌≤◌}
use native.Mathlib.Omega.{arith}
use browser_hive_rs.Base.Tests.{if◌then◌else◌, is_some, Bool-cases}
use browser_hive_rs.Base.Lists.{length, filter}
use browser_hive_rs.Base.Text.{Text, text_eq, text_eq_iff, text_eq_refl, text_eq_comm}

abbrev pub Map {ℓ} : Type ℓ → Type ℓ
Map V = List (Text × V)

-- A key that was found may stand for the one it was compared with.
pub if-text_eq {ℓ} :
    {V : Type ℓ} (f : Text → V) (k j : Text) (d : V)
    → (if text_eq k j then f k else d) ≡ (if text_eq k j then f j else d)
if-text_eq f k j d = elim (Bool-cases (text_eq k j)) [
  | inl e ↦ rw (e, (text_eq_iff k j).0 e) refl
  | inr e ↦ rw e refl
]

module _ {ℓ} {V : Type ℓ} where
  unfoldable pub lookup : Text → Map V → Option V
  lookup k [] = none
  lookup k ((j, v) ∷ m) = if text_eq j k then some v else lookup k m

  unfoldable pub insert : Text → V → Map V → Map V
  insert k v [] = (k, v) ∷ []
  insert k v ((j, w) ∷ m) = if text_eq j k then (k, v) ∷ m else (j, w) ∷ insert k v m

  unfoldable pub remove : Text → Map V → Map V
  remove k [] = []
  remove k ((j, w) ∷ m) = if text_eq j k then remove k m else (j, w) ∷ remove k m

  abbrev pub contains_key : Text → Map V → Bool
  contains_key k m = is_some (lookup k m)

  pub lookup-insert :
      (k j : Text) (v : V) (m : Map V)
      → lookup j (insert k v m) ≡ (if text_eq k j then some v else lookup j m)
  unfolding lookup insert
  lookup-insert k j v [] = refl
  lookup-insert k j v ((i, w) ∷ m) =
      ground (arith, text_eq_iff k j, text_eq_iff i k, text_eq_iff i j, lookup-insert k j v m)

  pub lookup-remove :
      (k j : Text) (m : Map V) → lookup j (remove k m) ≡ (if text_eq k j then none else lookup j m)
  unfolding lookup remove
  lookup-remove k j [] = ground arith
  lookup-remove k j ((i, w) ∷ m) =
      ground (arith, text_eq_iff k j, text_eq_iff i k, text_eq_iff i j, lookup-remove k j m)

  pub lookup-insert_self : (k : Text) (v : V) (m : Map V) → lookup k (insert k v m) ≡ some v
  lookup-insert_self k v m = simp (lookup-insert, text_eq_refl)

  pub lookup-remove_self : (k : Text) (m : Map V) → lookup k (remove k m) ≡ none
  lookup-remove_self k m = simp (lookup-remove, text_eq_refl)

  pub length-remove-le : (k : Text) (m : Map V) → length (remove k m) ≤ length m
  unfolding remove
  length-remove-le k [] = omega arith
  length-remove-le k ((j, w) ∷ m) = ground (arith, length-remove-le k m)

  pub length-remove-lt :
      (k : Text) (v : V) (m : Map V) → lookup k m ≡ some v → suc (length (remove k m)) ≤ length m
  unfolding remove lookup
  length-remove-lt k v [] h = cc
  length-remove-lt k v ((j, w) ∷ m) h = ground (arith, length-remove-le k m, length-remove-lt k v m)

  pub length-insert :
      (k : Text) (v : V) (m : Map V)
      → length (insert k v m) ≡ (if contains_key k m then length m else suc (length m))
  unfolding insert lookup
  length-insert k v [] = refl
  length-insert k v ((j, w) ∷ m) = ground (arith, length-insert k v m)

  -- A key occurs in one entry at most.
  unfoldable pub IsMap : Map V → Type 0
  unfolding lookup
  IsMap [] = Unit
  IsMap ((j, w) ∷ m) = (contains_key j m ≡ false) × IsMap m

  pub lookup-filter_none :
      (k : Text) (p : Text × V → Bool) (m : Map V)
      → contains_key k m ≡ false
      → contains_key k (filter p m) ≡ false
  unfolding lookup
  lookup-filter_none k p [] h = h
  lookup-filter_none k p ((j, w) ∷ m) h = ground (arith, lookup-filter_none k p m)

  -- A filter that keeps the entry of a key keeps its value.
  pub lookup-filter-some :
      (k : Text) (p : Text × V → Bool) (m : Map V) (v : V)
      → lookup k m ≡ some v
      → p (k, v) ≡ true
      → lookup k (filter p m) ≡ some v
  unfolding lookup
  lookup-filter-some k p [] v h q = cc
  lookup-filter-some k p ((j, w) ∷ m) v h q =
      ground (arith, text_eq_iff j k, lookup-filter-some k p m v)

  pub filter-IsMap : (p : Text × V → Bool) (m : Map V) → IsMap m → IsMap (filter p m)
  unfolding IsMap
  filter-IsMap p [] u = u
  filter-IsMap p ((j, w) ∷ m) u = elim (Bool-cases (p (j, w))) [
    | inl e ↦ rw e (lookup-filter_none j p m u.0, filter-IsMap p m u.1)
    | inr e ↦ rw e (filter-IsMap p m u.1)
  ]

  pub insert-IsMap : (k : Text) (v : V) (m : Map V) → IsMap m → IsMap (insert k v m)
  unfolding IsMap insert lookup
  insert-IsMap k v [] u = ground arith
  insert-IsMap k v ((j, w) ∷ m) u =
      ground (arith, text_eq_iff j k, text_eq_comm j k, lookup-insert k j v m, insert-IsMap k v m)

  pub remove-IsMap : (k : Text) (m : Map V) → IsMap m → IsMap (remove k m)
  unfolding IsMap remove
  remove-IsMap k [] u = u
  remove-IsMap k ((j, w) ∷ m) u = ground (arith, lookup-remove k j m, remove-IsMap k m)
