-- ===== src/Worker/Pool/Choice.antt =====
-- `claim_first` over sorted candidates (crates/worker/src/browser_pool.rs).
use browser_hive_rs.Base.{
  ℕ, ◌≤◌, ◌≡◌, refl, ◌≢◌, subst, Bool, true, false, List, [], ◌∷◌, Option, none, some, arith,
  filter, All, All-map, All-filter, All-Mem, All-self, filter_nil, filter-All, Mem-map, leb→le,
}
use mathlib.Core.List.{Memᴰ}
use browser_hive_rs.Base.Sort.{
  sort_by_key, sort_by_key-All, sort_by_key-IsSorted, sort_by_key-All_inv, sort_by_key_nil,
  IsSorted, key_le,
}
use browser_hive_rs.Worker.Context.{BrowserContext, set_busy}
use browser_hive_rs.Worker.Pool.{ids}
use browser_hive_rs.Worker.Pool.Select.{claim_by_id, claim_first}
use browser_hive_rs.Worker.Pool.Ids.{IsDistinct}

-- An idle context that the pool holds under its id is won.
pub claim_by_id_idle :
    (store : List BrowserContext) (x : BrowserContext)
    → IsDistinct (ids store)
    → Memᴰ x store
    → x.is_busy ≡ false
    → (rest : List BrowserContext) × (claim_by_id x.id store ≡ some (set_busy true x, rest))
unfolding claim_by_id
claim_by_id_idle [] x d m b = elim m [ ]
claim_by_id_idle (c ∷ cs) x d (Memᴰ.head e) b = (cs', ground arith)
  where
    cs' : List BrowserContext
    cs' = set_busy true x ∷ cs
claim_by_id_idle (c ∷ cs) x d (Memᴰ.tail m) b =
    let (rest, e) = claim_by_id_idle cs x d.1 m b in
    let other =
      All-Mem (λ j. j ≢ c.id) (ids cs) d.0 (Mem-map (λ (y : BrowserContext). y.id) cs m) in
    (c ∷ rest, ground (arith, other))

claim_by_equal_id :
    (j i : ℕ) (store : List BrowserContext) {r : Option (BrowserContext × List BrowserContext)}
    → i ≡ j
    → claim_by_id i store ≡ r
    → claim_by_id j store ≡ r
claim_by_equal_id j i store {r} e w = subst (λ k. claim_by_id k store ≡ r) e w

-- The context of the least key among those that pass the test, or no context passes it.
abbrev pub Chosen :
    (BrowserContext → ℕ)
    → (BrowserContext → Bool)
    → List BrowserContext
    → Option BrowserContext
    → Type 0
Chosen key test contexts none = All (λ e. test e ≡ false) contexts
Chosen key test contexts (some c) =
    (d : BrowserContext) × Memᴰ d contexts
    × (test d ≡ true)
    × (c.id ≡ d.id)
    × All (λ e. key d ≤ key e) (filter test contexts)

-- Each candidate is idle in the pool under its own id.
abbrev pub Available : (BrowserContext → Bool) → List BrowserContext → List BrowserContext → Type 0
Available test contexts store =
    (d : BrowserContext)
    → Memᴰ d contexts
    → test d ≡ true
    → (x : BrowserContext) × Memᴰ x store × (x.id ≡ d.id) × (x.is_busy ≡ false)

module _ (key : BrowserContext → ℕ) (test : BrowserContext → Bool)
    (contexts store : List BrowserContext) (distinct : IsDistinct (ids store))
    (available : Available test contexts store) where
  abbrev sorted : List BrowserContext
  sorted = sort_by_key key (filter test contexts)

  sorted_candidates : All (λ d. Memᴰ d contexts × (test d ≡ true)) sorted
  sorted_candidates =
      sort_by_key-All key _ (filter test contexts) (pair (filter test contexts) members tests)
    where
      members : All (λ d. Memᴰ d contexts) (filter test contexts)
      members = All-filter (λ d. Memᴰ d contexts) test contexts (All-self contexts)

      tests : All (λ d. test d ≡ true) (filter test contexts)
      tests = filter-All test contexts

      pair :
          (xs : List BrowserContext)
          → All (λ d. Memᴰ d contexts) xs
          → All (λ d. test d ≡ true) xs
          → All (λ d. Memᴰ d contexts × (test d ≡ true)) xs
      pair [] h k = tt
      pair (x ∷ xs) h k = ((h.0, k.0), pair xs h.1 k.1)

  claim_sorted :
      (cs : List BrowserContext) → sorted ≡ cs → Chosen key test contexts (claim_first cs store).0
  unfolding claim_first
  claim_sorted [] e = filter_nil test contexts (sort_by_key_nil key (filter test contexts) e)
  claim_sorted (d ∷ rest) e =
      let (m, t) = (subst (All (λ d. Memᴰ d contexts × (test d ≡ true))) e sorted_candidates).0 in
      let (x, n, i, b) = available d m t in
      let (after, w) = claim_by_id_idle store x distinct n b in
      let least =
        (subst (IsSorted (key_le key)) e (sort_by_key-IsSorted key (filter test contexts))).0 in
      let all : All (λ f. key d ≤ key f) (filter test contexts) =
        sort_by_key-All_inv key _ (filter test contexts)
          (rw e (omega arith, All-map (λ f h. leb→le (key d) (key f) h) rest least)) in
      rw (claim_first, claim_by_equal_id d.id x.id store i w) (d, m, t, i, all)

  pub claim_first-Chosen : Chosen key test contexts (claim_first sorted store).0
  claim_first-Chosen = claim_sorted sorted refl
