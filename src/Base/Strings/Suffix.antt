-- ===== src/Base/Strings/Suffix.antt =====
-- Suffixes of a text, and the last occurrence of a pattern.
use browser_hive_rs.Base.{
  ℕ, zero, suc, ◌+◌, ◌≡◌, refl, ap, ◌↔◌, inl, inr, true, false, List, [], ◌∷◌, ◌++◌, none, some,
  arith, ◌==◌, length, get_elem?, All, Bool-cases,
}
use browser_hive_rs.Base.Text.{Text, text_eq, text_eq_iff, text_eq_refl}
use browser_hive_rs.Base.Strings.{starts_with, find, rfind, ends_with, take, drop}

starts_with_nil : (p : Text) → starts_with [] p ≡ true → p ≡ []
unfolding starts_with
starts_with_nil [] h = refl
starts_with_nil (a ∷ p) h = cc

ends_with-split : (s p : Text) → ends_with s p ≡ true → (q : Text) × (s ≡ q ++ p)
unfolding ends_with starts_with
ends_with-split [] [] h = ([], refl)
ends_with-split [] (a ∷ p) h = absurd (ground arith)
ends_with-split (c ∷ s) p h = elim (Bool-cases (text_eq (c ∷ s) p)) [
  | inl e ↦ ([], (text_eq_iff (c ∷ s) p).0 e)
  | inr e ↦ let (q, k) = ends_with-split s p (rw e at h) in (c ∷ q, ap (λ t. c ∷ t) k)
]

append-ends_with : (q p : Text) → ends_with (q ++ p) p ≡ true
unfolding ends_with starts_with
append-ends_with [] [] = refl
append-ends_with [] (a ∷ p) = rw (text_eq_refl (a ∷ p)) refl
append-ends_with (c ∷ q) p = ground (arith, append-ends_with q p)

-- A text ends with `p` exactly when it is some text before `p`.
pub ends_with_iff : (s p : Text) → (ends_with s p ≡ true) ↔ ((q : Text) × (s ≡ q ++ p))
ends_with_iff s p = (ends_with-split s p, λ (q, e). rw e (append-ends_with q p))

pub get_elem?-append {ℓ} :
    {A : Type ℓ} (xs : List A) (y : A) (ys : List A) → get_elem? (xs ++ y ∷ ys) (length xs) ≡ some y
get_elem?-append [] y ys = refl
get_elem?-append (x ∷ xs) y ys = get_elem?-append xs y ys

pub get_elem?-split {ℓ} :
    {A : Type ℓ} (xs : List A) (i : ℕ) {a : A}
    → get_elem? xs i ≡ some a
    → (ys : List A) × (zs : List A) × (xs ≡ ys ++ a ∷ zs) × (length ys ≡ i)
get_elem?-split [] i h = cc
get_elem?-split {A} (x ∷ xs) zero h = ([], xs, ap (λ y. y ∷ xs) (same x h), refl)
  where
    same : (b : A) {a : A} → some b ≡ some a → b ≡ a
    same b h = cc
get_elem?-split (x ∷ xs) (suc i) h =
    let (ys, zs, e, k) = get_elem?-split xs i h in (x ∷ ys, zs, ap (λ t. x ∷ t) e, ap suc k)

starts_with-append : (p s : Text) → starts_with (p ++ s) p ≡ true
unfolding starts_with
starts_with-append [] s = refl
starts_with-append (a ∷ p) s = ground (arith, starts_with-append p s)

-- No occurrence where the pattern's first character does not occur.
rfind_absent : (a : ℕ) (p s : Text) → All (λ c. (c == a) ≡ false) s → rfind s (a ∷ p) ≡ none
unfolding rfind starts_with
rfind_absent a p [] h = refl
rfind_absent a p (c ∷ s) h = rw (rfind_absent a p s h.1, h.0) refl

rfind-append : (q s p : Text) (i : ℕ) → rfind s p ≡ some i → rfind (q ++ s) p ≡ some (length q + i)
unfolding rfind
rfind-append [] s p i h = ground arith
rfind-append (c ∷ q) s p i h = rw (rfind-append q s p i h) (ground arith)

rfind_here :
    (a : ℕ) (p s : Text)
    → All (λ c. (c == a) ≡ false) (p ++ s)
    → rfind (a ∷ (p ++ s)) (a ∷ p) ≡ some 0
unfolding rfind
rfind_here a p s h = rw (rfind, rfind_absent a p (p ++ s) h, starts_with-append (a ∷ p) s) refl

-- The last occurrence is the one after which the pattern's first character is gone.
pub rfind_last :
    (q s p : Text) (a : ℕ)
    → All (λ c. (c == a) ≡ false) (p ++ s)
    → rfind (q ++ (a ∷ (p ++ s))) (a ∷ p) ≡ some (length q)
rfind_last q s p a h = ground (arith, rfind-append q (a ∷ (p ++ s)) (a ∷ p) 0 (rfind_here a p s h))

zero_add : (k : ℕ) → 0 + k ≡ k
zero_add k = omega arith

suc_add : (n k : ℕ) → suc n + k ≡ suc (n + k)
suc_add n k = omega arith

pub take-append {ℓ} : {A : Type ℓ} (xs ys : List A) → take (length xs) (xs ++ ys) ≡ xs
take-append {A} [] ys = take_zero ys
  where
    take_zero : (zs : List A) → take 0 zs ≡ []
    take_zero zs = refl
take-append (x ∷ xs) ys = ap (λ t. x ∷ t) (take-append xs ys)

pub drop-append {ℓ} :
    {A : Type ℓ} (xs ys : List A) (k : ℕ) → drop (length xs + k) (xs ++ ys) ≡ drop k ys
drop-append [] ys k = rw (zero_add k) refl
drop-append (x ∷ xs) ys k = rw (suc_add (length xs) k) (drop-append xs ys k)

-- A text cut at the end of its first part.
pub take_part {ℓ} :
    {A : Type ℓ} (n : ℕ) (xs ys s : List A) → s ≡ xs ++ ys → length xs ≡ n → take n s ≡ xs
take_part n xs ys s e k = rw (e, ← k) (take-append xs ys)

pub drop_part {ℓ} :
    {A : Type ℓ} (n : ℕ) (xs ys s : List A) → s ≡ xs ++ ys → length xs ≡ n → drop n s ≡ ys
drop_part n xs ys s e k =
    let m : n ≡ length xs + 0 = omega (arith, k) in rw (e, m) (drop-append xs ys 0)

-- A pattern is found where its first character first occurs, and it itself stands.
pub find_first :
    (q s p : Text) (a : ℕ)
    → All (λ c. (c == a) ≡ false) q
    → find (q ++ (a ∷ (p ++ s))) (a ∷ p) ≡ some (length q)
unfolding find starts_with
find_first [] s p a h = ground (arith, starts_with-append p s)
find_first (c ∷ q) s p a h = rw (find, h.0, find_first q s p a h.1) refl
