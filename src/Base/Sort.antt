-- ===== src/Base/Sort.antt =====
-- `slice::sort_by` and `sort_by_key`: a stable sort, as insertions from the right.
use Prim.Native.Nat.{ℕ, suc}
use mathlib.Core.Path.{◌≡◌, refl}
use mathlib.Core.Logic.{inl, inr}
use mathlib.Core.Bool.{Bool, true, false}
use mathlib.Core.List.{List, [], ◌∷◌, Perm, Memᴰ}
use mathlib.Core.List.Perm
use native.Mathlib.Omega.{arith}
use browser_hive_rs.Base.Tests.{leb, if◌then◌else◌, Bool-cases}
use browser_hive_rs.Base.Lists.{length, All-Mem, All-self, All, All-map}

module _ {ℓ} {A : Type ℓ} (le : A → A → Bool) where
  unfoldable pub insert_sorted : A → List A → List A
  insert_sorted x [] = x ∷ []
  insert_sorted x (y ∷ ys) = if le x y then x ∷ y ∷ ys else y ∷ insert_sorted x ys

  unfoldable pub sort_by : List A → List A
  unfolding insert_sorted
  sort_by [] = []
  sort_by (x ∷ xs) = insert_sorted x (sort_by xs)

  insert_sorted-perm : (x : A) (ys : List A) → Perm (insert_sorted x ys) (x ∷ ys)
  unfolding insert_sorted
  insert_sorted-perm x [] = Perm.refl _
  insert_sorted-perm x (y ∷ ys) = elim (Bool-cases (le x y)) [
    | inl e ↦ rw e (Perm.refl _)
    | inr e ↦ rw e (Perm.trans (Perm.cons y (insert_sorted-perm x ys)) (Perm.swap x y ys))
  ]

  pub sort_by-perm : (xs : List A) → Perm (sort_by xs) xs
  unfolding sort_by
  sort_by-perm [] = Perm.refl []
  sort_by-perm (x ∷ xs) =
      Perm.trans (insert_sorted-perm x (sort_by xs)) (Perm.cons x (sort_by-perm xs))

  insert_sorted-All {κ} :
      (P : A → Type κ) (x : A) (ys : List A) → P x → All P ys → All P (insert_sorted x ys)
  unfolding insert_sorted
  insert_sorted-All P x [] p h = (p, tt)
  insert_sorted-All P x (y ∷ ys) p h = elim (Bool-cases (le x y)) [
    | inl e ↦ rw e (p, h)
    | inr e ↦ rw e (h.0, insert_sorted-All P x ys p h.1)
  ]

  pub sort_by-All {κ} : (P : A → Type κ) (xs : List A) → All P xs → All P (sort_by xs)
  unfolding sort_by
  sort_by-All P [] h = tt
  sort_by-All P (x ∷ xs) h = insert_sorted-All P x (sort_by xs) h.0 (sort_by-All P xs h.1)

  insert_sorted-All_inv {κ} :
      (P : A → Type κ) (x : A) (ys : List A) → All P (insert_sorted x ys) → P x × All P ys
  unfolding insert_sorted
  insert_sorted-All_inv P x [] h = h
  insert_sorted-All_inv P x (y ∷ ys) h = elim (Bool-cases (le x y)) [
    | inl e ↦ let k = rw e at h in (k.0, k.1)
    | inr e ↦ let k = rw e at h in let (p, q) = insert_sorted-All_inv P x ys k.1 in (p, (k.0, q))
  ]

  pub sort_by-All_inv {κ} : (P : A → Type κ) (xs : List A) → All P (sort_by xs) → All P xs
  unfolding sort_by
  sort_by-All_inv P [] h = tt
  sort_by-All_inv P (x ∷ xs) h =
      let (p, q) = insert_sorted-All_inv P x (sort_by xs) h in (p, sort_by-All_inv P xs q)

  length-insert_sorted : (x : A) (ys : List A) → length (insert_sorted x ys) ≡ suc (length ys)
  unfolding insert_sorted
  length-insert_sorted x [] = refl
  length-insert_sorted x (y ∷ ys) = ground (arith, length-insert_sorted x ys)

  pub length-sort_by : (xs : List A) → length (sort_by xs) ≡ length xs
  unfolding sort_by
  length-sort_by [] = refl
  length-sort_by (x ∷ xs) = omega (arith, length-sort_by xs, length-insert_sorted x (sort_by xs))

  pub Mem_of_sort_by : (xs : List A) {a : A} → Memᴰ a (sort_by xs) → Memᴰ a xs
  Mem_of_sort_by xs m =
      All-Mem (λ y. Memᴰ y xs) (sort_by xs) (sort_by-All (λ y. Memᴰ y xs) xs (All-self xs)) m

  pub Mem-sort_by : (xs : List A) {a : A} → Memᴰ a xs → Memᴰ a (sort_by xs)
  Mem-sort_by xs m =
      All-Mem (λ y. Memᴰ y (sort_by xs)) xs
        (sort_by-All_inv (λ y. Memᴰ y (sort_by xs)) xs (All-self (sort_by xs))) m

  pub sort_by_nil : (xs : List A) → sort_by xs ≡ [] → xs ≡ []
  sort_by_nil [] h = refl
  sort_by_nil (x ∷ xs) h = absurd (sort_by-All_inv (λ _. ⊥) (x ∷ xs) (rw h tt)).0

  -- Each element is at most all that follow it.
  abbrev pub IsSorted : List A → Type 0
  IsSorted [] = Unit
  IsSorted (x ∷ xs) = All (λ y. le x y ≡ true) xs × IsSorted xs

  module _ (total : (a b : A) → le a b ≡ false → le b a ≡ true)
      (trans : (a b c : A) → le a b ≡ true → le b c ≡ true → le a c ≡ true) where
    insert_sorted-IsSorted : (x : A) (ys : List A) → IsSorted ys → IsSorted (insert_sorted x ys)
    unfolding insert_sorted
    insert_sorted-IsSorted x [] s = (tt, tt)
    insert_sorted-IsSorted x (y ∷ ys) s = elim (Bool-cases (le x y)) [
      | inl e ↦ rw e ((e, All-map (λ z h. trans x y z e h) ys s.0), s)
      | inr e ↦ rw e (
        insert_sorted-All (λ z. le y z ≡ true) x ys (total x y e) s.0,
        insert_sorted-IsSorted x ys s.1,
      )
    ]

    pub sort_by-IsSorted : (xs : List A) → IsSorted (sort_by xs)
    unfolding sort_by
    sort_by-IsSorted [] = tt
    sort_by-IsSorted (x ∷ xs) = insert_sorted-IsSorted x (sort_by xs) (sort_by-IsSorted xs)

module _ {ℓ} {A : Type ℓ} (key : A → ℕ) where
  abbrev pub key_le : A → A → Bool
  key_le a b = leb (key a) (key b)

  unfoldable pub sort_by_key : List A → List A
  unfolding sort_by
  sort_by_key = sort_by key_le

  pub sort_by_key-perm : (xs : List A) → Perm (sort_by_key xs) xs
  unfolding sort_by_key
  sort_by_key-perm = sort_by-perm key_le

  pub sort_by_key-All {κ} : (P : A → Type κ) (xs : List A) → All P xs → All P (sort_by_key xs)
  unfolding sort_by_key
  sort_by_key-All = sort_by-All key_le

  pub sort_by_key-IsSorted : (xs : List A) → IsSorted key_le (sort_by_key xs)
  unfolding sort_by_key
  sort_by_key-IsSorted = sort_by-IsSorted key_le (λ a b h. ground arith) (λ a b c h k. ground arith)

  pub sort_by_key-All_inv {κ} : (P : A → Type κ) (xs : List A) → All P (sort_by_key xs) → All P xs
  unfolding sort_by_key
  sort_by_key-All_inv = sort_by-All_inv key_le

  pub sort_by_key_nil : (xs : List A) → sort_by_key xs ≡ [] → xs ≡ []
  unfolding sort_by_key
  sort_by_key_nil = sort_by_nil key_le
