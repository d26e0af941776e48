-- ===== src/Worker/Pool/Steps/Swap.antt =====
-- Swapping a recycled context into its slot, and adding a built one.
use browser_hive_rs.Base.{
  ℕ, suc, ◌≡◌, refl, ◌≢◌, sym, inl, inr, List, [], ◌∷◌, ◌++◌, Option, arith, ◌==◌, any, length, All,
  Bool-cases, length-append,
}
use browser_hive_rs.Base.Text.{Text}
use browser_hive_rs.Base.Result.{Result, ok, err}
use browser_hive_rs.Common.Config.{ScopeConfig}
use browser_hive_rs.Common.Metadata.{new}
use browser_hive_rs.Worker.Context.{BrowserContext}
use browser_hive_rs.Worker.Pool.{
  BrowserPool, Creation, ids, finish_creation, insert_built, build_reserved_context,
  release_context,
}
use browser_hive_rs.Worker.Pool.Monitor.{put_at, swap_recycled, release_old}
use browser_hive_rs.Worker.Pool.Ids.{IsDistinct, IsDistinct-snoc}
use browser_hive_rs.Worker.Pool.Invariant.{Inv}
use browser_hive_rs.Worker.Pool.Steps.{IsFresh}

All-ids-put_at :
    (i old : ℕ) (new : BrowserContext) (cs : List BrowserContext)
    → new.id ≢ i
    → All (λ j. j ≢ i) (ids cs)
    → All (λ j. j ≢ i) (ids (put_at old new cs))
unfolding put_at
All-ids-put_at i old new [] n h = tt
All-ids-put_at i old new (c ∷ cs) n h = elim (Bool-cases (c.id == old)) [
  | inl e ↦ rw e (n, h.1)
  | inr e ↦ rw e (h.0, All-ids-put_at i old new cs n h.1)
]

IsDistinct-put_at :
    (old : ℕ) (new : BrowserContext) (cs : List BrowserContext)
    → All (λ j. j ≢ new.id) (ids cs)
    → IsDistinct (ids cs)
    → IsDistinct (ids (put_at old new cs))
unfolding put_at
IsDistinct-put_at old new [] n h = tt
IsDistinct-put_at old new (c ∷ cs) n h = elim (Bool-cases (c.id == old)) [
  | inl e ↦ rw e (n.1, h.1)
  | inr e ↦
      rw e (
        All-ids-put_at c.id old new cs (λ s. n.0 (sym s)) h.0,
        IsDistinct-put_at old new cs n.1 h.1,
      )
]

length-put_at :
    (old : ℕ) (new : BrowserContext) (cs : List BrowserContext)
    → length (put_at old new cs) ≡ length cs
unfolding put_at
length-put_at old new [] = refl
length-put_at old new (c ∷ cs) = ground (arith, length-put_at old new cs)

module _ (cfg : ScopeConfig) where
  pub swap_recycled-Inv :
      (old : ℕ) (new : BrowserContext) (p : BrowserPool)
      → IsFresh new.id p
      → Inv cfg p
      → let q = swap_recycled old new (release_old old p) in
        Inv cfg q × (q.pending_creations ≡ p.pending_creations)
  unfolding swap_recycled release_old release_context
  swap_recycled-Inv old new p f v = elim (Bool-cases (any (λ c. c.id == old) p.contexts)) [
    | inl e ↦
        rw (e, swap_recycled)
          (
            record {
              distinct = IsDistinct-put_at old new p.contexts f v.distinct;
              capacity = omega (arith, length-put_at old new p.contexts, v.capacity);
              limit = v.limit;
            },
            refl,
          )
    | inr e ↦
        rw (e, swap_recycled)
          (record { distinct = v.distinct; capacity = v.capacity; limit = v.limit }, refl)
  ]

  ids_snoc :
      (cs : List BrowserContext) (c : BrowserContext) → ids (cs ++ c ∷ []) ≡ ids cs ++ c.id ∷ []
  ids_snoc [] c = refl
  ids_snoc (d ∷ cs) c = ground (arith, ids_snoc cs c)

  finish_creation-Inv :
      (r : Creation) (p : BrowserPool) (n : ℕ) (b : Result Text (ℕ × Option Text))
      → IsFresh r.id p
      → p.pending_creations ≡ suc n
      → Inv cfg p
      → let q = (insert_built (finish_creation r p b)).1 in Inv cfg q × (q.pending_creations ≡ n)
  unfolding insert_built finish_creation new
  finish_creation-Inv r p n (ok b) f e v = (
    record {
      distinct = rw (ids_snoc p.contexts) (IsDistinct-snoc (ids p.contexts) r.id v.distinct f);
      capacity = omega (arith, length-append p.contexts, e, v.capacity, v.limit);
      limit = v.limit;
    },
    omega (arith, e, v.capacity, v.limit),
  )
  finish_creation-Inv r p n (err m) f e v = (
    record {
      distinct = v.distinct;
      capacity = omega (arith, e, v.capacity, v.limit);
      limit = v.limit;
    },
    omega (arith, e, v.capacity, v.limit),
  )

  -- A creation that ends, either way, ends its reservation; one that succeeds adds its context.
  pub build_reserved_context-Inv :
      (r : Creation) (p : BrowserPool) (n : ℕ)
      → IsFresh r.id p
      → p.pending_creations ≡ suc n
      → Inv cfg p
      → let q = (build_reserved_context r p).1 in Inv cfg q × (q.pending_creations ≡ n)
  unfolding build_reserved_context
  build_reserved_context-Inv r p n f e v = finish_creation-Inv r p n r.built f e v
