-- ===== src/Worker/Pool/Invariant.antt =====
-- The invariant of the pool (crates/worker/src/browser_pool.rs), and the changes that keep it.
use browser_hive_rs.Base.{
  ℕ, ◌+◌, ◌≤◌, ◌<◌, ◌≡◌, refl, ◌∙◌, inl, inr, true, List, Option, none, some, arith, ltb, length,
  Bool-cases,
}
use browser_hive_rs.Base.Text.{Text}
use browser_hive_rs.Common.Config.{ScopeConfig}
use browser_hive_rs.Worker.Context.{BrowserContext}
use browser_hive_rs.Worker.Pool.{BrowserPool, ids, occupied_slots, reserve, release_context}
use browser_hive_rs.Worker.Pool.Select.{claim_least_used_idle}
use browser_hive_rs.Worker.Pool.Ids.{count, IsDistinct, length-ids}
use browser_hive_rs.Worker.Pool.Removal.{Removes}
use browser_hive_rs.Worker.Pool.Claims.{Picks, claim_first-Picks}
use browser_hive_rs.Worker.Pool.Acquire.{
  ProxyParams, Acquisition, claimed, reserved, exhausted, get_or_create_read, settle,
  requires_dedicated_context,
}

-- No context is in the pool twice, and contexts and reservations fit the limit, a `u16`.
pub record Inv (cfg : ScopeConfig) (p : BrowserPool) : Type 0 where
  pub distinct : IsDistinct (ids p.contexts)
  pub capacity : length p.contexts + p.pending_creations ≤ cfg.max_contexts
  pub limit : cfg.max_contexts < 65536

-- How often a context is in the pool or has been released from it.
abbrev pub held : ℕ → BrowserPool → ℕ
held i p = count i (ids p.contexts) + count i p.released

abbrev pub reservations : Acquisition → ℕ
reservations (claimed c) = 0
reservations reserved = 1
reservations exhausted = 0

-- A context that is handed out is busy, and in the pool.
abbrev pub IsHandedOut : Acquisition → BrowserPool → Type 0
IsHandedOut (claimed c) q = (c.is_busy ≡ true) × (1 ≤ count c.id (ids q.contexts))
IsHandedOut reserved q = Unit
IsHandedOut exhausted q = Unit

-- What the critical section of an acquisition promises: the invariant; one reservation exactly
-- where it decides to build; and no context lost, or released without leaving the pool.
pub record Acquires (cfg : ScopeConfig) (p : BrowserPool) (a : Acquisition) (q : BrowserPool)
    : Type 0 where
  pub inv : Inv cfg q
  pub pending : q.pending_creations ≡ p.pending_creations + reservations a
  pub handed_out : IsHandedOut a q
  pub conserved : (i : ℕ) → held i q ≡ held i p

module _ (cfg : ScopeConfig) where
  -- The pool after a change of flags only.
  pub record Reflags (p q : BrowserPool) : Type 0 where
    pub same_ids : ids q.contexts ≡ ids p.contexts
    pub same_pending : q.pending_creations ≡ p.pending_creations
    pub same_released : q.released ≡ p.released

  pub Reflags-Inv : (p q : BrowserPool) → Reflags p q → Inv cfg p → Inv cfg q
  Reflags-Inv p q r v = record {
    distinct = rw (r.same_ids) v.distinct;
    capacity =
        omega (arith, length-ids q.contexts p.contexts r.same_ids, v.capacity, r.same_pending);
    limit = v.limit;
  }

  pub Reflags-held : (p q : BrowserPool) → Reflags p q → (i : ℕ) → held i q ≡ held i p
  Reflags-held p q r i = rw (r.same_ids, r.same_released)

  pub Acquires-Reflags :
      (p q : BrowserPool) (a : Acquisition)
      → Reflags p q
      → reservations a ≡ 0
      → IsHandedOut a q
      → Inv cfg p
      → Acquires cfg p a q
  Acquires-Reflags p q a r z h v = record {
    inv = Reflags-Inv p q r v;
    pending = omega (arith, r.same_pending, z);
    handed_out = h;
    conserved = Reflags-held p q r;
  }

  -- The optimistic look-up.
  abbrev pub Finds : BrowserPool → Option BrowserContext → BrowserPool → Type 0
  Finds p none q = Reflags p q
  Finds p (some c) q = Reflags p q × IsHandedOut (claimed c) q

  pub Finds-Picks :
      (p : BrowserPool) (r : Option BrowserContext × List BrowserContext)
      → Picks p.contexts r
      → Finds p r.0 (record p { contexts = r.1 })
  Finds-Picks p (none, after) h = record {
    same_ids = h.0;
    same_pending = refl;
    same_released = refl;
  }
  Finds-Picks p (some c, after) h = (
    record { same_ids = h.same_ids; same_pending = refl; same_released = refl },
    (h.is_claimed, h.is_present),
  )

  pub get_or_create_read-Finds :
      (params : ProxyParams) (origin : Option Text) (now : ℕ) (p : BrowserPool)
      → let r = get_or_create_read cfg params origin now p in Finds p r.0 r.1
  unfolding get_or_create_read claim_least_used_idle
  get_or_create_read-Finds params origin now p =
      elim (Bool-cases (requires_dedicated_context params)) [
        | inl e ↦
            rw (e, get_or_create_read)
              (record { same_ids = refl; same_pending = refl; same_released = refl })
        | inr e ↦
            rw (e, get_or_create_read)
              (Finds-Picks p _ (claim_first-Picks _ p.contexts origin cfg.lifecycle now))
      ]

  -- An idle used-up context gives its slot to the reservation.
  pub replace-Acquires :
      (p : BrowserPool) (c : BrowserContext) (after : List BrowserContext) (n : ℕ)
      → Inv cfg p
      → Removes p.contexts c.id after
      → Acquires cfg p reserved
          (release_context c (reserve (record p { contexts = after; total_contexts_recycled = n })))
  unfolding release_context reserve
  replace-Acquires p c after n v r = record {
    inv = record {
      distinct = r.distinct;
      capacity = omega (arith, r.shorter, v.capacity, v.limit);
      limit = v.limit;
    };
    pending = omega (arith, v.capacity, v.limit);
    handed_out = tt;
    conserved = λ i. ground (arith, r.counted i);
  }

  pub reserve-Acquires :
      (p : BrowserPool)
      → Inv cfg p
      → ltb (occupied_slots p) cfg.max_contexts ≡ true
      → Acquires cfg p reserved (reserve p)
  unfolding reserve occupied_slots
  reserve-Acquires p v h = record {
    inv = record {
      distinct = v.distinct;
      capacity = ground (arith, v.capacity, v.limit);
      limit = v.limit;
    };
    pending = ground (arith, v.capacity, v.limit);
    handed_out = tt;
    conserved = λ i. refl;
  }

  refl-Reflags : (p : BrowserPool) → Reflags p p
  refl-Reflags p = record { same_ids = refl; same_pending = refl; same_released = refl }

  pub exhausted-Acquires : (p : BrowserPool) → Inv cfg p → Acquires cfg p exhausted p
  exhausted-Acquires p v = Acquires-Reflags p p exhausted (refl-Reflags p) refl tt v

  pub settle-Acquires :
      (p : BrowserPool) (r : Option BrowserContext × List BrowserContext)
      → Inv cfg p
      → Picks p.contexts r
      → Acquires cfg p (settle p r).0 (settle p r).1
  unfolding settle
  settle-Acquires p (none, after) v h =
      Acquires-Reflags p _ exhausted (Finds-Picks p (none, after) h) refl tt v
  settle-Acquires p (some c, after) v h =
      let f = Finds-Picks p (some c, after) h in Acquires-Reflags p _ (claimed c) f.0 refl f.1 v

  -- A later step continues from a pool whose flags alone have changed.
  pub Acquires-after :
      (p q : BrowserPool) (a : Acquisition) (s : BrowserPool)
      → Reflags p q
      → Acquires cfg q a s
      → Acquires cfg p a s
  Acquires-after p q a s r h = record {
    inv = h.inv;
    pending = omega (arith, h.pending, r.same_pending);
    handed_out = h.handed_out;
    conserved = λ i. h.conserved i ∙ Reflags-held p q r i;
  }

  pub claimed-Acquires :
      (p : BrowserPool) (c : BrowserContext) (q : BrowserPool)
      → Inv cfg p
      → Finds p (some c) q
      → Acquires cfg p (claimed c) q
  claimed-Acquires p c q v f = Acquires-Reflags p q (claimed c) f.0 refl f.1 v
