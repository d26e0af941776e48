-- ===== src/Base/Text.antt =====
-- Text xs its code points, which the functions of `str` walk. A comparison of two texts by code
-- points is Rust's, since UTF-8 keeps their order.
use Prim.Native.Nat.{ℕ}
use Prim.Native.Char.{code}
use Prim.Native.String.{String}
use mathlib.Core.Path.{◌≡◌, refl}
use mathlib.Core.Logic.{◌↔◌}
use mathlib.Core.Bool.{Bool, true, false, ◌&&◌}
use mathlib.Core.List.{List, [], ◌∷◌}
use native.Mathlib.Omega.{arith}
use browser_hive_rs.Base.Tests.{◌==◌, ltb, if◌then◌else◌}

abbrev pub Text : Type 0
Text = List ℕ

abbrev pub codes : String → Text
codes String.[] = []
codes (String.◌∷◌ c s) = code c ∷ codes s

unfoldable pub text_eq : Text → Text → Bool
text_eq [] [] = true
text_eq (a ∷ xs) (b ∷ ys) = (a == b) && text_eq xs ys
text_eq _ _ = false

eq_of_text_eq : (a b : Text) → text_eq a b ≡ true → a ≡ b
unfolding text_eq
eq_of_text_eq [] [] h = refl
eq_of_text_eq [] (b ∷ ys) h = cc
eq_of_text_eq (a ∷ xs) [] h = cc
eq_of_text_eq (a ∷ xs) (b ∷ ys) h = ground (arith, eq_of_text_eq xs ys)

pub text_eq_refl : (a : Text) → text_eq a a ≡ true
unfolding text_eq
text_eq_refl [] = refl
text_eq_refl (a ∷ xs) = ground (arith, text_eq_refl xs)

pub text_eq_iff : (a b : Text) → (text_eq a b ≡ true) ↔ (a ≡ b)
text_eq_iff a b = (eq_of_text_eq a b, λ e. rw e (text_eq_refl b))

pub text_eq_comm : (a b : Text) → text_eq a b ≡ text_eq b a
unfolding text_eq
text_eq_comm [] [] = refl
text_eq_comm [] (b ∷ ys) = refl
text_eq_comm (a ∷ xs) [] = refl
text_eq_comm (a ∷ xs) (b ∷ ys) = ground (arith, text_eq_comm xs ys)

-- `a <= b` in the lexicographic order of `Ord for str`.
unfoldable pub text_le : Text → Text → Bool
text_le [] _ = true
text_le (a ∷ xs) [] = false
text_le (a ∷ xs) (b ∷ ys) = let rest = text_le xs ys in if a == b then rest else ltb a b

pub text_le_total : (a b : Text) → text_le a b ≡ false → text_le b a ≡ true
unfolding text_le
text_le_total [] b h = cc
text_le_total (a ∷ xs) [] h = refl
text_le_total (a ∷ xs) (b ∷ ys) h = ground (arith, text_le_total xs ys)

pub text_le_trans : (a b c : Text) → text_le a b ≡ true → text_le b c ≡ true → text_le a c ≡ true
unfolding text_le
text_le_trans [] b c h k = refl
text_le_trans (a ∷ xs) [] c h k = cc
text_le_trans (a ∷ xs) (b ∷ ys) [] h k = cc
text_le_trans (a ∷ xs) (b ∷ ys) (c ∷ zs) h k = ground (arith, text_le_trans xs ys zs)

pub text_le_antisymm : (a b : Text) → text_le a b ≡ true → text_le b a ≡ true → a ≡ b
unfolding text_le
text_le_antisymm [] [] h k = refl
text_le_antisymm [] (b ∷ ys) h k = cc
text_le_antisymm (a ∷ xs) [] h k = cc
text_le_antisymm (a ∷ xs) (b ∷ ys) h k = ground (arith, text_le_antisymm xs ys)
