-- ===== src/Worker/Pool/Steps/Safety.antt =====
-- The invariant of the pool (crates/worker/src/browser_pool.rs) along schedules of its tasks.
use browser_hive_rs.Base.{
  ℕ, zero, suc, ◌+◌, ◌≤◌, ◌≡◌, refl, ◌∙◌, inl, inr, not, List, [], ◌∷◌, Option, none, some, arith,
  ◌==◌, find, length, Bool-cases, Option-cases,
}
use browser_hive_rs.Common.Config.{ScopeConfig, SessionMode}
use browser_hive_rs.Worker.Context.{BrowserContext, is_used_up}
use browser_hive_rs.Worker.Pool.{
  BrowserPool, Creation, ids, build_reserved_context, release_context,
}
use browser_hive_rs.Worker.Pool.Select.{is_idle, claim_by_id, without}
use browser_hive_rs.Worker.Pool.Acquire.{
  exhausted, destroy_context, end_claimed, end_session_if_used_up,
}
use browser_hive_rs.Worker.Pool.Monitor.{
  tick_always_new, tick_dedicated, is_expired, claim_expired, claim_expired_one,
}
use browser_hive_rs.Worker.Pool.Guard.{guard_new, free_if, guard_drop}
use browser_hive_rs.Worker.Pool.Ids.{IsDistinct, ids-map}
use browser_hive_rs.Worker.Pool.Claims.{claim_by_id-Claims, claim_by_id-id}
use browser_hive_rs.Worker.Pool.Removal.{without-Removes}
use browser_hive_rs.Worker.Pool.Invariant.{
  Inv, held, Acquires, Acquires-Reflags, Reflags, get_or_create_read-Finds, Finds,
}
use browser_hive_rs.Worker.Pool.Capacity.{purge-Acquires, acquire_by_mode-Acquires}
use browser_hive_rs.Worker.Pool.Steps.Swap.{swap_recycled-Inv, build_reserved_context-Inv}
use browser_hive_rs.Worker.Pool.Steps.{
  built, Event, World, looks_up, acquires, builds, claims, destroys, frees, ends, ticks, recycles,
  tick, step, run, IsFresh, NewIds, AllNewIds,
}

-- The events that add no context to the pool.
abbrev pub AddsNothing : Event → Type 0
AddsNothing (builds r) = ⊥
AddsNothing (recycles old new) = ⊥
AddsNothing _ = Unit

-- The pool's invariant, and a reservation in the counter for each task that builds.
pub record IsSound (cfg : ScopeConfig) (w : World) : Type 0 where
  pub inv : Inv cfg w.pool
  pub reserved : w.pool.pending_creations ≡ w.building

module _ (cfg : ScopeConfig) where
  -- A critical section that is no acquisition: the same reservations, and no context lost.
  abbrev Keeps : BrowserPool → BrowserPool → Type 0
  Keeps p q = Acquires cfg p exhausted q

  Reflags-Keeps : (p q : BrowserPool) → Inv cfg p → Reflags cfg p q → Keeps p q
  Reflags-Keeps p q v r = Acquires-Reflags cfg p q exhausted r refl tt v

  Keeps-refl : (p : BrowserPool) → Inv cfg p → Keeps p p
  Keeps-refl p v =
      Reflags-Keeps p p v (record { same_ids = refl; same_pending = refl; same_released = refl })

  Finds-Keeps :
      (p : BrowserPool) (f : Option BrowserContext × BrowserPool)
      → Inv cfg p
      → Finds cfg p f.0 f.1
      → Keeps p f.1
  Finds-Keeps p (none, q) v h = Reflags-Keeps p q v h
  Finds-Keeps p (some c, q) v h = Reflags-Keeps p q v h.0

  guard_new-Keeps : (id : ℕ) (p : BrowserPool) → Inv cfg p → Keeps p (guard_new id p).1
  unfolding guard_new
  guard_new-Keeps id p v = elim (Option-cases (claim_by_id id p.contexts)) [
    | inl e ↦ rw (e, guard_new) (Keeps-refl p v)
    | inr ((c, store), e) ↦
        rw (e, guard_new)
          (Reflags-Keeps p _ v (record {
            same_ids = (claim_by_id-Claims id p.contexts c store e).same_ids;
            same_pending = refl;
            same_released = refl;
          }))
  ]

  guard_drop-Keeps : (id now : ℕ) (p : BrowserPool) → Inv cfg p → Keeps p (guard_drop id now p)
  unfolding guard_drop free_if
  guard_drop-Keeps id now p v = Reflags-Keeps p _ v (record {
    same_ids = ids-map _ p.contexts (λ c. ground arith);
    same_pending = refl;
    same_released = refl;
  })

  destroy_context-Keeps : (id : ℕ) (p : BrowserPool) → Inv cfg p → Keeps p (destroy_context id p)
  unfolding destroy_context without
  destroy_context-Keeps id p v =
      purge-Acquires cfg p (λ c. c.id == id) (λ c. not (c.id == id)) (λ c. refl) v

  end_claimed-Keeps :
      (id : ℕ) (p : BrowserPool) (o : Option (BrowserContext × List BrowserContext))
      → claim_by_id id p.contexts ≡ o
      → Inv cfg p
      → Keeps p (end_claimed id o p).1
  unfolding end_claimed release_context
  end_claimed-Keeps id p none e v = Keeps-refl p v
  end_claimed-Keeps id p (some (c, store)) e v =
      let k = claim_by_id-Claims id p.contexts c store e in
      let s = claim_by_id-id id p.contexts c store e in
      let r = without-Removes id p.contexts store v.distinct k.same_ids (rw s at (k.is_present)) in
      record {
        inv = record {
          distinct = r.distinct;
          capacity = omega (arith, r.shorter, v.capacity);
          limit = v.limit;
        };
        pending = omega arith;
        handed_out = tt;
        conserved = λ i. rw s (ground (arith, r.counted i));
      }

  end_session-Keeps :
      (id now : ℕ) (p : BrowserPool) → Inv cfg p → Keeps p (end_session_if_used_up cfg id now p).1
  unfolding end_session_if_used_up
  end_session-Keeps id now p v = elim (Option-cases (find (λ c. c.id == id) p.contexts)) [
    | inl e ↦ rw (e, end_session_if_used_up) (Keeps-refl p v)
    | inr (c, e) ↦ elim (Bool-cases (is_used_up c cfg.lifecycle now)) [
      | inl u ↦ rw (e, u, end_session_if_used_up) (end_claimed-Keeps id p _ refl v)
      | inr u ↦ rw (e, u, end_session_if_used_up) (Keeps-refl p v)
    ]
  ]

  tick-Keeps :
      (mode : SessionMode) (now : ℕ) (p : BrowserPool) → Inv cfg p → Keeps p (tick mode cfg now p)
  unfolding tick tick_always_new tick_dedicated claim_expired claim_expired_one
  tick-Keeps SessionMode.always_new now p v =
      purge-Acquires cfg p is_idle (λ c. c.is_busy) (λ c. ground arith) v
  tick-Keeps SessionMode.reusable now p v = Reflags-Keeps p _ v (record {
    same_ids = ids-map _ p.contexts (λ c. ground arith);
    same_pending = refl;
    same_released = refl;
  })
  tick-Keeps SessionMode.dedicated now p v =
      purge-Acquires cfg p (is_expired cfg now) (λ c. not (is_expired cfg now c)) (λ c. refl) v

  kept :
      (w : World) (q : BrowserPool)
      → IsSound cfg w
      → Keeps w.pool q
      → IsSound cfg (record w { pool = q })
  kept w q s k = record { inv = k.inv; reserved = omega (arith, k.pending, s.reserved) }

  built-IsSound :
      (w : World) (n : ℕ)
      → w.building ≡ n
      → (r : Creation) → IsFresh r.id w.pool
      → IsSound cfg w
      → IsSound cfg (built n w (build_reserved_context r w.pool).1)
  built-IsSound w zero e r f s = s
  built-IsSound w (suc n) e r f s =
      let b = build_reserved_context-Inv cfg r w.pool n f (s.reserved ∙ e) s.inv in
      record { inv = b.0; reserved = b.1 }

  -- Every step of every schedule is sound.
  pub step-IsSound :
      (w : World) (e : Event) → NewIds e w.pool → IsSound cfg w → IsSound cfg (step cfg w e)
  unfolding step
  step-IsSound w (looks_up params origin now) f s =
      kept w _ s
        (Finds-Keeps w.pool _ s.inv (get_or_create_read-Finds cfg params origin now w.pool))
  step-IsSound w (acquires params origin now) f s =
      let a = acquire_by_mode-Acquires cfg cfg.session_mode params origin now w.pool s.inv in
      record { inv = a.inv; reserved = omega (arith, a.pending, s.reserved) }
  step-IsSound w (builds r) f s = built-IsSound w w.building refl r f s
  step-IsSound w (claims id) f s = kept w _ s (guard_new-Keeps id w.pool s.inv)
  step-IsSound w (destroys id) f s = kept w _ s (destroy_context-Keeps id w.pool s.inv)
  step-IsSound w (frees id now) f s = kept w _ s (guard_drop-Keeps id now w.pool s.inv)
  step-IsSound w (ends id now) f s = kept w _ s (end_session-Keeps id now w.pool s.inv)
  step-IsSound w (ticks now) f s = kept w _ s (tick-Keeps cfg.session_mode now w.pool s.inv)
  step-IsSound w (recycles old new) f s =
      let r = swap_recycled-Inv cfg old new w.pool f s.inv in
      record { inv = r.0; reserved = r.1 ∙ s.reserved }

  run-IsSound :
      (w : World) (es : List Event)
      → AllNewIds cfg w es
      → IsSound cfg w
      → IsSound cfg (run cfg w es)
  unfolding run
  run-IsSound w [] f s = s
  run-IsSound w (e ∷ es) f s = run-IsSound (step cfg w e) es f.1 (step-IsSound w e f.0 s)

  -- From a sound world, along every schedule of critical sections whose new ids are new, contexts
  -- and creations under way stay within max_contexts, the reservation counter equals the creations
  -- under way, and no context is in the pool twice.
  pub run_within_limit :
      (w : World) (es : List Event)
      → IsSound cfg w
      → AllNewIds cfg w es
      → let v = run cfg w es in
        (length v.pool.contexts + v.building ≤ cfg.max_contexts)
        × (v.pool.pending_creations ≡ v.building)
        × IsDistinct (ids v.pool.contexts)
  run_within_limit w es s f =
      let r = run-IsSound w es f s in
      (omega (arith, r.inv.capacity, r.reserved), r.reserved, r.inv.distinct)

  -- From a sound world every critical section but a creation and a recycling leaves each context in
  -- the pool or among the released as often as before.
  pub step_conserves :
      (w : World) (e : Event) (i : ℕ)
      → AddsNothing e
      → IsSound cfg w
      → held i (step cfg w e).pool ≡ held i w.pool
  unfolding step
  step_conserves w (looks_up params origin now) i a s =
      (Finds-Keeps w.pool _ s.inv (get_or_create_read-Finds cfg params origin now w.pool)).conserved
        i
  step_conserves w (acquires params origin now) i a s =
      (acquire_by_mode-Acquires cfg cfg.session_mode params origin now w.pool s.inv).conserved i
  step_conserves w (builds r) i a s = absurd a
  step_conserves w (claims id) i a s = (guard_new-Keeps id w.pool s.inv).conserved i
  step_conserves w (destroys id) i a s = (destroy_context-Keeps id w.pool s.inv).conserved i
  step_conserves w (frees id now) i a s = (guard_drop-Keeps id now w.pool s.inv).conserved i
  step_conserves w (ends id now) i a s = (end_session-Keeps id now w.pool s.inv).conserved i
  step_conserves w (ticks now) i a s = (tick-Keeps cfg.session_mode now w.pool s.inv).conserved i
  step_conserves w (recycles old new) i a s = absurd a
