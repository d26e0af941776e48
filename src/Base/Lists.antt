-- ===== src/Base/Lists.antt =====
-- Lists measured by native numbers, with Boolean filters and predicates by recursion.
use Prim.Native.Nat.{ℕ, zero, suc, ◌+◌, ◌≤◌}
use mathlib.Core.Path.{◌≡◌, refl, ap, sym, subst, ◌∙◌}
use mathlib.Core.Logic.{◌⊎◌, inl, inr}
use mathlib.Core.Bool.{Bool, true, false, not, ◌||◌}
use mathlib.Core.List.{List, [], ◌∷◌, ◌++◌, map, Memᴰ}
use mathlib.Core.Option.{Option, none, some}
use native.Mathlib.Omega.{arith}
use browser_hive_rs.Base.Tests.{if◌then◌else◌, Bool-cases}

module _ {ℓ} {A : Type ℓ} where
  abbrev pub length : List A → ℕ
  length [] = 0
  length (x ∷ xs) = suc (length xs)

  abbrev pub get_elem? : List A → ℕ → Option A
  get_elem? [] i = none
  get_elem? (x ∷ xs) zero = some x
  get_elem? (x ∷ xs) (suc i) = get_elem? xs i

  abbrev pub is_empty : List A → Bool
  is_empty [] = true
  is_empty (x ∷ xs) = false

  abbrev pub head? : List A → Option A
  head? [] = none
  head? (x ∷ xs) = some x

  pub List-cases : (xs : List A) → (xs ≡ []) ⊎ ((x : A) × (ys : List A) × (xs ≡ x ∷ ys))
  List-cases [] = inl refl
  List-cases (x ∷ xs) = inr (x, xs, refl)

  -- `Iterator::filter` and `Vec::retain`.
  abbrev pub filter : (A → Bool) → List A → List A
  filter p [] = []
  filter p (x ∷ xs) = if p x then x ∷ filter p xs else filter p xs

  abbrev pub any : (A → Bool) → List A → Bool
  any p [] = false
  any p (x ∷ xs) = p x || any p xs

  -- `Iterator::find`.
  abbrev pub find : (A → Bool) → List A → Option A
  find p [] = none
  find p (x ∷ xs) = if p x then some x else find p xs

  abbrev pub All {κ} : (A → Type κ) → List A → Type κ
  All P [] = Unit
  All P (x ∷ xs) = P x × All P xs

  -- `Iterator::count` after a filter.
  abbrev pub count_if : (A → Bool) → List A → ℕ
  count_if p [] = 0
  count_if p (x ∷ xs) = if p x then suc (count_if p xs) else count_if p xs

  abbrev pub sum_by : (A → ℕ) → List A → ℕ
  sum_by f [] = 0
  sum_by f (x ∷ xs) = f x + sum_by f xs

  pub length-append : (xs ys : List A) → length (xs ++ ys) ≡ length xs + length ys
  length-append [] ys = omega arith
  length-append (x ∷ xs) ys = omega (arith, length-append xs ys)

  pub length-filter-le : (p : A → Bool) (xs : List A) → length (filter p xs) ≤ length xs
  length-filter-le p [] = omega arith
  length-filter-le p (x ∷ xs) = ground (arith, length-filter-le p xs)

  pub count_if-append :
      (p : A → Bool) (xs ys : List A) → count_if p (xs ++ ys) ≡ count_if p xs + count_if p ys
  count_if-append p [] ys = omega arith
  count_if-append p (x ∷ xs) ys = ground (arith, count_if-append p xs ys)

  pub count_if-le-length : (p : A → Bool) (xs : List A) → count_if p xs ≤ length xs
  count_if-le-length p [] = omega arith
  count_if-le-length p (x ∷ xs) = ground (arith, count_if-le-length p xs)

  -- A filter and its complement share the list out.
  pub length-filter-not :
      (p : A → Bool) (xs : List A)
      → length (filter p xs) + length (filter (λ x. not (p x)) xs) ≡ length xs
  length-filter-not p [] = omega arith
  length-filter-not p (x ∷ xs) = ground (arith, length-filter-not p xs)

  pub All-append {κ} : (P : A → Type κ) (xs ys : List A) → All P xs → All P ys → All P (xs ++ ys)
  All-append P [] ys h k = k
  All-append P (x ∷ xs) ys h k = (h.0, All-append P xs ys h.1 k)

  pub All-filter {κ} :
      (P : A → Type κ) (p : A → Bool) (xs : List A) → All P xs → All P (filter p xs)
  All-filter P p [] h = tt
  All-filter P p (x ∷ xs) h = elim (Bool-cases (p x)) [
    | inl e ↦ rw e (h.0, All-filter P p xs h.1)
    | inr e ↦ rw e (All-filter P p xs h.1)
  ]

  -- Every kept element passed the test.
  pub filter-All : (p : A → Bool) (xs : List A) → All (λ x. p x ≡ true) (filter p xs)
  filter-All p [] = tt
  filter-All p (x ∷ xs) = elim (Bool-cases (p x)) [
    | inl e ↦ rw e (e, filter-All p xs)
    | inr e ↦ rw e (filter-All p xs)
  ]

  pub All-map {κ ι} :
      {P : A → Type κ} {Q : A → Type ι} (f : (x : A) → P x → Q x) (xs : List A)
      → All P xs
      → All Q xs
  All-map f [] h = tt
  All-map f (x ∷ xs) h = (f x h.0, All-map f xs h.1)

  pub All-Mem {κ} : (P : A → Type κ) (xs : List A) {a : A} → All P xs → Memᴰ a xs → P a
  All-Mem P [] h m = elim m [ ]
  All-Mem P (x ∷ xs) h (Memᴰ.head e) = subst P (sym e) h.0
  All-Mem P (x ∷ xs) h (Memᴰ.tail m) = All-Mem P xs h.1 m

  pub Mem-filter :
      (p : A → Bool) (xs : List A) {a : A} → Memᴰ a xs → p a ≡ true → Memᴰ a (filter p xs)
  Mem-filter p [] m h = elim m [ ]
  Mem-filter p (x ∷ xs) (Memᴰ.head e) h = rw (← e, h) (Memᴰ.head refl)
  Mem-filter p (x ∷ xs) (Memᴰ.tail m) h = elim (Bool-cases (p x)) [
    | inl e ↦ rw e (Memᴰ.tail (Mem-filter p xs m h))
    | inr e ↦ rw e (Mem-filter p xs m h)
  ]

  Mem_of_filter_cons :
      (a x : A) (xs ys : List A) → (Memᴰ a xs → Memᴰ a ys) → Memᴰ a (x ∷ xs) → Memᴰ a (x ∷ ys)
  Mem_of_filter_cons a x xs ys f (Memᴰ.head e) = Memᴰ.head e
  Mem_of_filter_cons a x xs ys f (Memᴰ.tail m) = Memᴰ.tail (f m)

  pub Mem_of_filter : (p : A → Bool) (xs : List A) {a : A} → Memᴰ a (filter p xs) → Memᴰ a xs
  Mem_of_filter p [] m = m
  Mem_of_filter p (x ∷ xs) {a} m = elim (Bool-cases (p x)) [
    | inl e ↦ Mem_of_filter_cons a x (filter p xs) xs (λ k. Mem_of_filter p xs k) (rw e at m)
    | inr e ↦ Memᴰ.tail (Mem_of_filter p xs (rw e at m))
  ]

  pub Mem-split :
      (xs : List A) {a : A} → Memᴰ a xs → (ys : List A) × (zs : List A) × (xs ≡ ys ++ (a ∷ zs))
  Mem-split [] m = elim m [ ]
  Mem-split (x ∷ xs) (Memᴰ.head e) = ([], xs, rw e refl)
  Mem-split (x ∷ xs) (Memᴰ.tail m) =
      let (ys, zs, e) = Mem-split xs m in (x ∷ ys, zs, ap (λ l. x ∷ l) e)

  pub All-self : (xs : List A) → All (λ x. Memᴰ x xs) xs
  All-self [] = tt
  All-self (x ∷ xs) = (Memᴰ.head refl, All-map (λ y m. Memᴰ.tail m) xs (All-self xs))

  -- What holds of the kept elements holds of every element under the test.
  pub filter-All_inv {κ} :
      (P : A → Type κ) (p : A → Bool) (xs : List A)
      → All P (filter p xs)
      → All (λ x. p x ≡ true → P x) xs
  filter-All_inv P p [] h = tt
  filter-All_inv P p (x ∷ xs) h = elim (Bool-cases (p x)) [
    | inl e ↦ let k = rw e at h in ((λ _. k.0), filter-All_inv P p xs k.1)
    | inr e ↦ ((λ t. absurd_bool (sym t ∙ e)), filter-All_inv P p xs (rw e at h))
  ]
    where
      absurd_bool : true ≡ false → P x
      absurd_bool e = cc

  pub filter_nil : (p : A → Bool) (xs : List A) → filter p xs ≡ [] → All (λ x. p x ≡ false) xs
  filter_nil p [] h = tt
  filter_nil p (x ∷ xs) h = elim (Bool-cases (p x)) [
    | inl e ↦ cc (rw e at h)
    | inr e ↦ (e, filter_nil p xs (rw e at h))
  ]

  pub count_if-lt-length :
      (p : A → Bool) (xs : List A)
      → suc (count_if p xs) ≤ length xs
      → (x : A) × Memᴰ x xs × (p x ≡ false)
  count_if-lt-length p [] h = absurd (omega arith)
  count_if-lt-length p (x ∷ xs) h = elim (Bool-cases (p x)) [
    | inl e ↦ let (y, m, k) = count_if-lt-length p xs (ground arith) in (y, Memᴰ.tail m, k)
    | inr e ↦ (x, Memᴰ.head refl, e)
  ]

module _ {ℓ κ} {A : Type ℓ} {B : Type κ} where
  pub length-map : (f : A → B) (xs : List A) → length (map f xs) ≡ length xs
  length-map f [] = refl
  length-map f (x ∷ xs) = ap suc (length-map f xs)

  pub Mem-map : (f : A → B) {a : A} (xs : List A) → Memᴰ a xs → Memᴰ (f a) (map f xs)
  Mem-map f [] m = elim m [ ]
  Mem-map f (x ∷ xs) (Memᴰ.head e) = Memᴰ.head (ap f e)
  Mem-map f (x ∷ xs) (Memᴰ.tail m) = Memᴰ.tail (Mem-map f xs m)
