-- ===== src/Worker/Pool/Removal.antt =====
-- Taking one claimed context out of the pool.
use browser_hive_rs.Base.{
  ℕ, suc, ◌+◌, ◌≤◌, ◌≡◌, refl, ap, inl, inr, List, [], ◌∷◌, Option, none, some, arith, ◌==◌, length,
  Bool-cases,
}
use browser_hive_rs.Common.Lifecycle.{ContextLifecycleConfig}
use browser_hive_rs.Worker.Context.{BrowserContext}
use browser_hive_rs.Worker.Pool.{ids, BrowserPool, release_context, release_contexts}
use browser_hive_rs.Worker.Pool.Select.{
  without, take_claimed, take_used_up_idle, used_up_candidates,
}
use browser_hive_rs.Worker.Pool.Ids.{
  count, IsDistinct, count-le-one, count-without_self, count-without_ne, length-without, length-ids,
  IsDistinct-ids-filter,
}
use browser_hive_rs.Worker.Pool.Claims.{ClaimsAny, claim_first-ClaimsAny}

-- The pool without the context of this id, which it held once.
pub record Removes (store : List BrowserContext) (id : ℕ) (after : List BrowserContext)
    : Type 0 where
  pub distinct : IsDistinct (ids after)
  pub shorter : suc (length after) ≡ length store
  pub counted : (i : ℕ) → count i (ids after) + count i (id ∷ []) ≡ count i (ids store)

pub without-Removes :
    (id : ℕ) (store mid : List BrowserContext)
    → IsDistinct (ids store)
    → ids mid ≡ ids store
    → 1 ≤ count id (ids mid)
    → Removes store id (without id mid)
without-Removes id store mid d e h = record {
  distinct = unfold without in IsDistinct-ids-filter _ mid (rw e d);
  shorter = omega (
    arith,
    length-without id mid,
    length-ids mid store e,
    count-le-one id (ids store) d,
    ap (count id) e,
    h,
  );
  counted = λ i. elim (Bool-cases (id == i)) [
    | inl s ↦
        ground (arith, count-without_self id mid, count-le-one id (ids store) d, ap (count id) e, h)
    | inr s ↦ ground (arith, count-without_ne i id mid, ap (count i) e)
  ];
}

abbrev pub Takes : List BrowserContext → Option BrowserContext × List BrowserContext → Type 0
Takes store (none, after) = after ≡ store
Takes store (some c, after) = Removes store c.id after

take_claimed-Takes :
    (store : List BrowserContext) (r : Option BrowserContext × List BrowserContext)
    → IsDistinct (ids store)
    → ClaimsAny store r.0 r.1
    → Takes store (take_claimed r)
unfolding take_claimed
take_claimed-Takes store (none, after) d h = h
take_claimed-Takes store (some c, after) d h =
    without-Removes c.id store after d h.same_ids h.is_present

pub take_used_up_idle-Takes :
    (store : List BrowserContext) (lifecycle : ContextLifecycleConfig) (now : ℕ)
    → IsDistinct (ids store)
    → Takes store (take_used_up_idle store lifecycle now)
unfolding take_used_up_idle
take_used_up_idle-Takes store lifecycle now d =
    take_claimed-Takes store _ d
      (claim_first-ClaimsAny (used_up_candidates store lifecycle now) store)

-- A selection that leaves the pool, and is released.
pub release_contexts-fields :
    (cs : List BrowserContext) (p : BrowserPool)
    → ((release_contexts cs p).contexts ≡ p.contexts)
      × ((release_contexts cs p).pending_creations ≡ p.pending_creations)
unfolding release_contexts
release_contexts-fields [] p = (refl, refl)
release_contexts-fields (c ∷ cs) p = release_contexts-fields cs (release_context c p)

pub count-release_contexts :
    (i : ℕ) (cs : List BrowserContext) (p : BrowserPool)
    → count i (release_contexts cs p).released ≡ count i (ids cs) + count i p.released
unfolding release_contexts
count-release_contexts i [] p = omega arith
count-release_contexts i (c ∷ cs) p =
    ground (arith, count-release_contexts i cs (release_context c p))
