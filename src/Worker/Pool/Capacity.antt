-- ===== src/Worker/Pool/Capacity.antt =====
-- Acquisitions of a context (crates/worker/src/browser_pool.rs) against the invariant of the pool.
use browser_hive_rs.Base.{
  ℕ, ◌≡◌, ap, ◌∙◌, inl, inr, Bool, not, List, Option, none, some, arith, ltb, filter, length,
  Bool-cases, length-filter-le,
}
use browser_hive_rs.Base.Text.{Text}
use browser_hive_rs.Common.Config.{ScopeConfig, SessionMode}
use browser_hive_rs.Worker.Context.{BrowserContext}
use browser_hive_rs.Worker.Pool.{BrowserPool, ids, occupied_slots, release_contexts}
use browser_hive_rs.Worker.Pool.Select.{is_idle, claim_soonest_unquarantined}
use browser_hive_rs.Worker.Pool.Ids.{count, IsDistinct-ids-filter, count-ids-filter}
use browser_hive_rs.Worker.Pool.Claims.{claim_first-Picks}
use browser_hive_rs.Worker.Pool.Removal.{
  Takes, take_used_up_idle-Takes, release_contexts-fields, count-release_contexts,
}
use browser_hive_rs.Worker.Pool.Acquire.{
  ProxyParams, Acquisition, exhausted, fall_back, replace_used_up, unless_found, grow_or_replace,
  get_or_create_write, create_dedicated_reserve, try_reserve, create_always_new_reserve,
  acquire_by_mode, requires_dedicated_context,
}
use browser_hive_rs.Worker.Pool.Invariant.{
  Inv, Acquires, Reflags-Inv, Finds, get_or_create_read-Finds, replace-Acquires, reserve-Acquires,
  exhausted-Acquires, settle-Acquires, Acquires-after, claimed-Acquires,
}

module _ (cfg : ScopeConfig) (params : ProxyParams) (now : ℕ) where
  fall_back-Acquires :
      (origin : Option Text) (p : BrowserPool)
      → Inv cfg p
      → let r = fall_back cfg params origin now p in Acquires cfg p r.0 r.1
  unfolding fall_back claim_soonest_unquarantined
  fall_back-Acquires none p v = exhausted-Acquires cfg p v
  fall_back-Acquires (some origin) p v = elim (Bool-cases (requires_dedicated_context params)) [
    | inl e ↦ rw (e, fall_back) (exhausted-Acquires cfg p v)
    | inr e ↦
        rw (e, fall_back)
          (settle-Acquires cfg p _ v
            (claim_first-Picks _ p.contexts (some origin) cfg.lifecycle now))
  ]

  replace_used_up-Acquires :
      (origin : Option Text) (p : BrowserPool) (t : Option BrowserContext × List BrowserContext)
      → Inv cfg p
      → Takes p.contexts t
      → let r = replace_used_up cfg params origin now p t in Acquires cfg p r.0 r.1
  unfolding replace_used_up
  replace_used_up-Acquires origin p (none, after) v h = fall_back-Acquires origin p v
  replace_used_up-Acquires origin p (some c, after) v h = replace-Acquires cfg p c after _ v h

  grow_or_replace-Acquires :
      (origin : Option Text) (p : BrowserPool)
      → Inv cfg p
      → let r = grow_or_replace cfg params origin now p in Acquires cfg p r.0 r.1
  unfolding grow_or_replace
  grow_or_replace-Acquires origin p v =
      elim (Bool-cases (ltb (occupied_slots p) cfg.max_contexts)) [
        | inl e ↦ rw (e, grow_or_replace) (reserve-Acquires cfg p v e)
        | inr e ↦
            rw (e, grow_or_replace)
              (replace_used_up-Acquires origin p _ v
                (take_used_up_idle-Takes p.contexts cfg.lifecycle now v.distinct))
      ]

  unless_found-Acquires :
      (origin : Option Text) (p : BrowserPool) (f : Option BrowserContext × BrowserPool)
      → Inv cfg p
      → Finds cfg p f.0 f.1
      → let r = unless_found cfg params origin now f in Acquires cfg p r.0 r.1
  unfolding unless_found
  unless_found-Acquires origin p (none, q) v h =
      Acquires-after cfg p q _ _ h (grow_or_replace-Acquires origin q (Reflags-Inv cfg p q h v))
  unless_found-Acquires origin p (some c, q) v h = claimed-Acquires cfg p c q v h

  get_or_create_write-Acquires :
      (origin : Option Text) (p : BrowserPool)
      → Inv cfg p
      → let r = get_or_create_write cfg params origin now p in Acquires cfg p r.0 r.1
  unfolding get_or_create_write
  get_or_create_write-Acquires origin p v =
      unless_found-Acquires origin p _ v (get_or_create_read-Finds cfg params origin now p)

module _ (cfg : ScopeConfig) where
  try_reserve-Acquires :
      (p : BrowserPool) → Inv cfg p → let r = try_reserve cfg p in Acquires cfg p r.0 r.1
  unfolding try_reserve
  try_reserve-Acquires p v = elim (Bool-cases (ltb (occupied_slots p) cfg.max_contexts)) [
    | inl e ↦ rw (e, try_reserve) (reserve-Acquires cfg p v e)
    | inr e ↦ rw (e, try_reserve) (exhausted-Acquires cfg p v)
  ]

  -- The contexts that a test takes out are released, and the invariant holds of the rest.
  pub purge-Acquires :
      (p : BrowserPool) (out keep : BrowserContext → Bool)
      → ((c : BrowserContext) → keep c ≡ not (out c))
      → Inv cfg p
      → Acquires cfg p exhausted (
          release_contexts (filter out p.contexts) (record p { contexts = filter keep p.contexts }))
  purge-Acquires p out keep h v = record {
    inv = record {
      distinct = rw (fields.0) (IsDistinct-ids-filter keep p.contexts v.distinct);
      capacity =
          omega (arith, ap length fields.0, fields.1, length-filter-le keep p.contexts, v.capacity);
      limit = v.limit;
    };
    pending = omega (arith, fields.1);
    handed_out = tt;
    conserved = λ i. omega (
      arith,
      ap (λ cs. count i (ids cs)) fields.0,
      count-release_contexts i (filter out p.contexts) rest,
      count-ids-filter out keep i p.contexts h,
    );
  }
    where
      rest : BrowserPool
      rest = record p { contexts = filter keep p.contexts }

      fields :
          ((release_contexts (filter out p.contexts) rest).contexts ≡ filter keep p.contexts)
          × ((release_contexts (filter out p.contexts) rest).pending_creations
              ≡ p.pending_creations)
      fields = release_contexts-fields (filter out p.contexts) rest

  -- A step after one that took nothing up.
  pub Acquires-trans :
      (p q : BrowserPool) (a : Acquisition) (s : BrowserPool)
      → Acquires cfg p exhausted q
      → Acquires cfg q a s
      → Acquires cfg p a s
  Acquires-trans p q a s h k = record {
    inv = k.inv;
    pending = omega (arith, k.pending, h.pending);
    handed_out = k.handed_out;
    conserved = λ i. k.conserved i ∙ h.conserved i;
  }

  create_always_new_reserve-Acquires :
      (p : BrowserPool)
      → Inv cfg p
      → let r = create_always_new_reserve cfg p in Acquires cfg p r.0 r.1
  unfolding create_always_new_reserve
  create_always_new_reserve-Acquires p v =
      let purged = purge-Acquires p is_idle (λ c. c.is_busy) (λ c. ground arith) v in
      Acquires-trans p _ _ _ purged (try_reserve-Acquires _ purged.inv)

  -- In every session mode the critical section of an acquisition keeps the invariant of the pool,
  -- adds one reservation exactly where it decides to build, hands out a context of the pool marked
  -- busy, and leaves each context in the pool or among the released as often as before.
  pub acquire_by_mode-Acquires :
      (mode : SessionMode) (params : ProxyParams) (origin : Option Text) (now : ℕ) (p : BrowserPool)
      → Inv cfg p
      → let r = acquire_by_mode mode cfg params origin now p in Acquires cfg p r.0 r.1
  unfolding acquire_by_mode create_dedicated_reserve
  acquire_by_mode-Acquires SessionMode.always_new params origin now p v =
      create_always_new_reserve-Acquires p v
  acquire_by_mode-Acquires SessionMode.reusable params origin now p v =
      get_or_create_write-Acquires cfg params now origin p v
  acquire_by_mode-Acquires SessionMode.dedicated params origin now p v = try_reserve-Acquires p v
