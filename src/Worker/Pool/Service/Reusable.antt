-- ===== src/Worker/Pool/Service/Reusable.antt =====
-- The acquisition of `Reusable` against `get_stats` (crates/worker/src/browser_pool.rs).
use browser_hive_rs.Base.{
  ℕ, suc, ◌+◌, ◌≤◌, ◌<◌, ◌≡◌, refl, ◌∙◌, ◌≢◌, inl, inr, Bool, true, false, not, ◌&&◌, List, Option,
  none, some, arith, ltb, length, All, All-Mem, Mem-map, count_if-lt-length, Bool-cases,
}
use mathlib.Core.List.{Memᴰ}
use browser_hive_rs.Base.Text.{Text}
use browser_hive_rs.Common.Config.{ScopeConfig, SessionMode}
use browser_hive_rs.Common.Lifecycle.{ContextLifecycleConfig}
use browser_hive_rs.Common.Metadata.{quarantined_until}
use browser_hive_rs.Common.Metadata.Quarantine.{quarantined_until_pruned}
use browser_hive_rs.Worker.Context.{BrowserContext, is_used_up, quarantine_end, read_quarantine}
use browser_hive_rs.Worker.Pool.{BrowserPool, ids, occupied_slots}
use browser_hive_rs.Worker.Pool.Select.{
  is_idle, is_eligible, allows, examine, examine_one, claim_least_used_idle, take_used_up_idle,
}
use browser_hive_rs.Worker.Pool.Ids.{IsDistinct, length-ids}
use browser_hive_rs.Worker.Pool.Claims.{
  busy_in, ids-examine, examine_one-metadata, claim_first-ClaimsAny, ClaimsAny,
}
use browser_hive_rs.Worker.Pool.Choice.{Chosen}
use browser_hive_rs.Worker.Pool.LeastUsed.{
  claim_least_used_idle-Chosen, claim_soonest_unquarantined-Chosen, take_used_up_idle-Chosen,
  is_quarantined, is_replaceable,
}
use browser_hive_rs.Worker.Pool.Acquire.{
  ProxyParams, exhausted, requires_dedicated_context, get_or_create_read, settle, fall_back,
  replace_used_up, grow_or_replace, unless_found, get_or_create_write,
}
use browser_hive_rs.Worker.Pool.Monitor.{get_stats}
use browser_hive_rs.Worker.Pool.Invariant.{Inv}

-- A choice that finds nothing refutes each context that passes the test.
none-Chosen :
    (key : BrowserContext → ℕ) (test : BrowserContext → Bool) (contexts : List BrowserContext)
    (r : Option BrowserContext) (d : BrowserContext)
    → Chosen key test contexts r
    → Memᴰ d contexts
    → test d ≡ true
    → r ≢ none
none-Chosen key test contexts none d h m t e =
    let f = All-Mem (λ x. test x ≡ false) contexts h m in cc
none-Chosen key test contexts (some c) d h m t e = cc

settle-exhausted :
    (p : BrowserPool) (r : Option BrowserContext × List BrowserContext)
    → (settle p r).0 ≡ exhausted
    → r.0 ≡ none
unfolding settle
settle-exhausted p (none, cs) e = refl
settle-exhausted p (some c, cs) e = cc

-- What the query of an origin leaves of one context answers the pool's tests as before.
is_used_up-examine_one :
    (origin : Text) (lifecycle : ContextLifecycleConfig) (now : ℕ) (c : BrowserContext)
    → is_used_up (examine_one origin lifecycle now c) lifecycle now ≡ is_used_up c lifecycle now
unfolding examine_one read_quarantine is_used_up quarantined_until
is_used_up-examine_one origin lifecycle now c = ground arith

quarantine_end-read_quarantine :
    (origin : Text) (now : ℕ) (c : BrowserContext)
    → quarantine_end origin now (read_quarantine origin now c) ≡ quarantine_end origin now c
unfolding quarantine_end read_quarantine
quarantine_end-read_quarantine origin now c =
    quarantined_until_pruned origin origin now now c.metadata (omega arith)

quarantine_end-examine_one :
    (origin : Text) (lifecycle : ContextLifecycleConfig) (now : ℕ) (c : BrowserContext)
    → quarantine_end origin now (examine_one origin lifecycle now c) ≡ quarantine_end origin now c
unfolding examine_one
quarantine_end-examine_one origin lifecycle now c =
    elim (Bool-cases (is_idle c && not (is_used_up c lifecycle now))) [
      | inl e ↦ rw e (quarantine_end-read_quarantine origin now c)
      | inr e ↦ rw e refl
    ]

module _ (cfg : ScopeConfig) (params : ProxyParams) (now : ℕ)
    (any_context : requires_dedicated_context params ≡ false) where
  fall_back_serves :
      (origin : Text) (p : BrowserPool) (d : BrowserContext)
      → IsDistinct (ids p.contexts)
      → Memᴰ d p.contexts
      → is_quarantined cfg.lifecycle now origin d ≡ true
      → (fall_back cfg params (some origin) now p).0 ≢ exhausted
  unfolding fall_back
  fall_back_serves origin p d u m t e =
      none-Chosen _ (is_quarantined cfg.lifecycle now origin) p.contexts _ d
        (claim_soonest_unquarantined-Chosen cfg.lifecycle now p.contexts u origin) m t
        (settle-exhausted p _ (rw any_context at e))

  replace_serves_used_up :
      (origin : Option Text) (p : BrowserPool) (r : Option BrowserContext × List BrowserContext)
      → r.0 ≢ none
      → (replace_used_up cfg params origin now p r).0 ≢ exhausted
  unfolding replace_used_up
  replace_serves_used_up origin p (none, cs) n e = n refl
  replace_serves_used_up origin p (some c, cs) n e = cc

  replace_serves_quarantined :
      (origin : Text) (p : BrowserPool) (r : Option BrowserContext × List BrowserContext)
      (d : BrowserContext)
      → IsDistinct (ids p.contexts)
      → Memᴰ d p.contexts
      → is_quarantined cfg.lifecycle now origin d ≡ true
      → (replace_used_up cfg params (some origin) now p r).0 ≢ exhausted
  unfolding replace_used_up
  replace_serves_quarantined origin p (none, cs) d u m t e = fall_back_serves origin p d u m t e
  replace_serves_quarantined origin p (some c, cs) d u m t e = cc

  -- The pool as a look-up leaves it that finds nothing.
  abbrev examined : BrowserPool → Option Text → BrowserPool
  examined p origin = record p { contexts = examine origin cfg.lifecycle now p.contexts }

  module _ (p : BrowserPool) (distinct : IsDistinct (ids p.contexts)) (d : BrowserContext)
      (member : Memᴰ d p.contexts) (idle : d.is_busy ≡ false) where
    IsDistinct-examined : (origin : Option Text) → IsDistinct (ids (examined p origin).contexts)
    IsDistinct-examined origin = rw (ids-examine origin cfg.lifecycle now p.contexts) distinct

    replaced :
        (origin : Option Text) (x : BrowserContext)
        → Memᴰ x (examined p origin).contexts
        → x.is_busy ≡ false
        → is_used_up x cfg.lifecycle now ≡ true
        → (replace_used_up cfg params origin now
            (examined p origin)
            (take_used_up_idle (examined p origin).contexts cfg.lifecycle now)).0
          ≢ exhausted
    replaced origin x m b u = replace_serves_used_up origin (examined p origin) _ (
        none-Chosen _ (is_replaceable cfg.lifecycle now) _ _ x
          (take_used_up_idle-Chosen cfg.lifecycle now (examined p origin).contexts
            (IsDistinct-examined origin))
          m (ground arith))

    full_serves :
        (origin : Option Text)
        → is_eligible origin cfg.lifecycle now d ≡ false
        → (replace_used_up cfg params origin now
            (examined p origin)
            (take_used_up_idle (examined p origin).contexts cfg.lifecycle now)).0
          ≢ exhausted
    unfolding allows examine
    full_serves none n = replaced none d member idle (ground arith)
    full_serves (some origin) n =
        let x = examine_one origin cfg.lifecycle now d in
        let m : Memᴰ x (examined p (some origin)).contexts = Mem-map _ p.contexts member in
        let b : x.is_busy ≡ false = (examine_one-metadata origin cfg.lifecycle now d).1 ∙ idle in
        let u = is_used_up-examine_one origin cfg.lifecycle now d in
        let q = quarantine_end-examine_one origin cfg.lifecycle now d in
        elim (Bool-cases (is_used_up d cfg.lifecycle now)) [
          | inl e ↦ replaced (some origin) x m b (u ∙ e)
          | inr e ↦
              replace_serves_quarantined origin (examined p (some origin)) _ x
                (IsDistinct-examined (some origin)) m (ground arith)
        ]

  full_pool_serves :
      (origin : Option Text) (p : BrowserPool)
      → IsDistinct (ids p.contexts)
      → suc (busy_in p.contexts) ≤ length p.contexts
      → All (λ c. is_eligible origin cfg.lifecycle now c ≡ false) p.contexts
      → (replace_used_up cfg params origin now
          (examined p origin)
          (take_used_up_idle (examined p origin).contexts cfg.lifecycle now)).0
        ≢ exhausted
  full_pool_serves origin p u l h =
      let (d, m, i) = count_if-lt-length (λ c. c.is_busy) p.contexts l in
      full_serves p u d m i origin
        (All-Mem (λ c. is_eligible origin cfg.lifecycle now c ≡ false) _ h m)

  grow_serves :
      (origin : Option Text) (p : BrowserPool)
      → IsDistinct (ids p.contexts)
      → busy_in p.contexts + p.pending_creations < cfg.max_contexts
      → All (λ c. is_eligible origin cfg.lifecycle now c ≡ false) p.contexts
      → (grow_or_replace cfg params origin now (examined p origin)).0 ≢ exhausted
  unfolding grow_or_replace occupied_slots
  grow_serves origin p u l h =
      elim (Bool-cases
        (ltb (length (examined p origin).contexts + p.pending_creations) cfg.max_contexts)) [
          | inl e ↦ λ x. cc (rw e at x)
          | inr e ↦
              let n =
                length-ids (examined p origin).contexts p.contexts
                  (ids-examine origin cfg.lifecycle now p.contexts) in
              rw e (full_pool_serves origin p u (ground (arith, n)) h)
        ]

  looked_up :
      (origin : Option Text) (p : BrowserPool) (r : Option BrowserContext × List BrowserContext)
      → ClaimsAny (examine origin cfg.lifecycle now p.contexts) r.0 r.1
      → Chosen (λ c. c.total_requests) (is_eligible origin cfg.lifecycle now) p.contexts r.0
      → IsDistinct (ids p.contexts)
      → busy_in p.contexts + p.pending_creations < cfg.max_contexts
      → (unless_found cfg params origin now (r.0, record p { contexts = r.1 })).0 ≢ exhausted
  unfolding unless_found
  looked_up origin p (none, cs) a h u l = rw a (grow_serves origin p u l h)
  looked_up origin p (some c, cs) a h u l = λ e. cc

  -- In Reusable a request without an override of its proxy gets a context or a reservation whenever
  -- the statistics report a free slot, in a pool that satisfies the invariant.
  pub reusable_slot_is_served :
      (origin : Option Text) (p : BrowserPool)
      → Inv cfg p
      → cfg.session_mode ≡ SessionMode.reusable
      → 0 < (get_stats cfg p).available_slots
      → (get_or_create_write cfg params origin now p).0 ≢ exhausted
  unfolding get_or_create_write get_or_create_read get_stats claim_least_used_idle
  reusable_slot_is_served origin p v r h = rw any_context (
      looked_up origin p _ (claim_first-ClaimsAny _ (examine origin cfg.lifecycle now p.contexts))
        (claim_least_used_idle-Chosen cfg.lifecycle now p.contexts v.distinct origin) v.distinct
        (ground (arith, r)))
