-- ===== src/Worker/Pool/Ids.antt =====
-- The identities of the pool's contexts: distinct, and counted.
use browser_hive_rs.Base.{
  ℕ, ◌+◌, ◌≤◌, ◌≡◌, refl, ◌≢◌, ap, inl, inr, Bool, not, List, [], ◌∷◌, ◌++◌, map, arith, ◌==◌,
  filter, length, All, All-append, count_if, Bool-cases, length-map,
}
use browser_hive_rs.Worker.Context.{BrowserContext}
use browser_hive_rs.Worker.Pool.{ids}
use browser_hive_rs.Worker.Pool.Select.{without}

abbrev pub count : ℕ → List ℕ → ℕ
count i = count_if (λ j. j == i)

abbrev pub IsDistinct : List ℕ → Type 0
IsDistinct [] = Unit
IsDistinct (i ∷ is) = All (λ j. j ≢ i) is × IsDistinct is

pub count_absent : (i : ℕ) (is : List ℕ) → All (λ j. j ≢ i) is → count i is ≡ 0
count_absent i [] h = refl
count_absent i (j ∷ is) h = ground (arith, count_absent i is h.1)

pub count-le-one : (i : ℕ) (is : List ℕ) → IsDistinct is → count i is ≤ 1
count-le-one i [] h = omega arith
count-le-one i (j ∷ is) h = ground (arith, count-le-one i is h.1, count_absent j is h.0)

pub IsDistinct-snoc :
    (is : List ℕ) (i : ℕ) → IsDistinct is → All (λ j. j ≢ i) is → IsDistinct (is ++ i ∷ [])
IsDistinct-snoc [] i h a = (tt, tt)
IsDistinct-snoc (j ∷ is) i h a = (
  All-append (λ k. k ≢ j) is (i ∷ []) h.0 ((λ e. a.0 (ground arith)), tt),
  IsDistinct-snoc is i h.1 a.1,
)

-- A selection of the contexts by any test.
module _ (p : BrowserContext → Bool) where
  pub All-ids-filter :
      (P : ℕ → Type 0) (cs : List BrowserContext) → All P (ids cs) → All P (ids (filter p cs))
  All-ids-filter P [] h = tt
  All-ids-filter P (c ∷ cs) h = elim (Bool-cases (p c)) [
    | inl e ↦ rw e (h.0, All-ids-filter P cs h.1)
    | inr e ↦ rw e (All-ids-filter P cs h.1)
  ]

  pub IsDistinct-ids-filter :
      (cs : List BrowserContext) → IsDistinct (ids cs) → IsDistinct (ids (filter p cs))
  IsDistinct-ids-filter [] h = tt
  IsDistinct-ids-filter (c ∷ cs) h = elim (Bool-cases (p c)) [
    | inl e ↦ rw e (All-ids-filter _ cs h.0, IsDistinct-ids-filter cs h.1)
    | inr e ↦ rw e (IsDistinct-ids-filter cs h.1)
  ]

  -- What a test takes out and what its negation leaves make up the whole.
  pub count-ids-filter :
      (q : BrowserContext → Bool) (i : ℕ) (cs : List BrowserContext)
      → ((c : BrowserContext) → q c ≡ not (p c))
      → count i (ids (filter p cs)) + count i (ids (filter q cs)) ≡ count i (ids cs)
  count-ids-filter q i [] h = refl
  count-ids-filter q i (c ∷ cs) h = ground (arith, h c, count-ids-filter q i cs h)

pub count-without_self : (id : ℕ) (cs : List BrowserContext) → count id (ids (without id cs)) ≡ 0
unfolding without
count-without_self id [] = refl
count-without_self id (c ∷ cs) = ground (arith, count-without_self id cs)

pub count-without_ne :
    (i id : ℕ) (cs : List BrowserContext)
    → i ≢ id
    → count i (ids (without id cs)) ≡ count i (ids cs)
unfolding without
count-without_ne i id [] h = refl
count-without_ne i id (c ∷ cs) h = ground (arith, count-without_ne i id cs)

pub length-without :
    (id : ℕ) (cs : List BrowserContext) → length (without id cs) + count id (ids cs) ≡ length cs
unfolding without
length-without id [] = refl
length-without id (c ∷ cs) = ground (arith, length-without id cs)

-- A map that keeps each identity keeps them all.
pub ids-map :
    (f : BrowserContext → BrowserContext) (cs : List BrowserContext)
    → ((c : BrowserContext) → (f c).id ≡ c.id)
    → ids (map f cs) ≡ ids cs
ids-map f [] h = refl
ids-map f (c ∷ cs) h = ground (arith, h c, ids-map f cs h)

pub length-ids : (cs ds : List BrowserContext) → ids cs ≡ ids ds → length cs ≡ length ds
length-ids cs ds e = omega (
  arith,
  ap length e,
  length-map (λ (c : BrowserContext). c.id) cs,
  length-map (λ (c : BrowserContext). c.id) ds,
)
