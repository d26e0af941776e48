-- ===== src/Worker/Pool/Claims.antt =====
-- What `claim_by_id` and `claim_first` do to the pool (crates/worker/src/browser_pool.rs).
use browser_hive_rs.Base.{
  ℕ, suc, ◌≤◌, ◌≡◌, refl, ◌∙◌, ap, inl, inr, true, List, [], ◌∷◌, map, Option, none, some, arith,
  count_if, Option-cases,
}
use browser_hive_rs.Base.Text.{Text}
use browser_hive_rs.Common.Lifecycle.{ContextLifecycleConfig}
use browser_hive_rs.Worker.Context.{BrowserContext, read_quarantine}
use browser_hive_rs.Worker.Pool.{ids}
use browser_hive_rs.Worker.Pool.Ids.{count, ids-map}
use browser_hive_rs.Common.Metadata.{quarantined_until}
use browser_hive_rs.Worker.Pool.Select.{claim_by_id, claim_first, examine, examine_one}

abbrev pub busy_in : List BrowserContext → ℕ
busy_in = count_if (λ c. c.is_busy)

-- The contexts are the same ones, and exactly one more is busy: the one that is returned.
pub record Claims (store : List BrowserContext) (c : BrowserContext) (after : List BrowserContext)
    : Type 0 where
  pub same_ids : ids after ≡ ids store
  pub one_more : busy_in after ≡ suc (busy_in store)
  pub is_claimed : c.is_busy ≡ true
  pub is_present : 1 ≤ count c.id (ids after)

pub claim_by_id-Claims :
    (id : ℕ) (store : List BrowserContext) (c : BrowserContext) (after : List BrowserContext)
    → claim_by_id id store ≡ some (c, after)
    → Claims store c after
unfolding claim_by_id
claim_by_id-Claims id [] c after h = cc
claim_by_id-Claims id (d ∷ ds) c after h = elim (Option-cases (claim_by_id id ds)) [
  | inl e ↦ ground arith
  | inr ((x, rest), e) ↦ ground (arith, claim_by_id-Claims id ds x rest e)
]

pub claim_by_id-id :
    (id : ℕ) (store : List BrowserContext) (c : BrowserContext) (after : List BrowserContext)
    → claim_by_id id store ≡ some (c, after)
    → c.id ≡ id
unfolding claim_by_id
claim_by_id-id id [] c after h = cc
claim_by_id-id id (d ∷ ds) c after h = elim (Option-cases (claim_by_id id ds)) [
  | inl e ↦ ground arith
  | inr ((x, rest), e) ↦ ground (arith, claim_by_id-id id ds x rest e)
]

abbrev pub ClaimsAny : List BrowserContext → Option BrowserContext → List BrowserContext → Type 0
ClaimsAny store none after = after ≡ store
ClaimsAny store (some c) after = Claims store c after

pub claim_first-ClaimsAny :
    (cs store : List BrowserContext)
    → ClaimsAny store (claim_first cs store).0 (claim_first cs store).1
unfolding claim_first
claim_first-ClaimsAny [] store = refl
claim_first-ClaimsAny (c ∷ cs) store = elim (Option-cases (claim_by_id c.id store)) [
  | inl e ↦ rw (e, claim_first) (claim_first-ClaimsAny cs store)
  | inr ((x, rest), e) ↦ rw (e, claim_first) (claim_by_id-Claims c.id store x rest e)
]

busy-map :
    (f : BrowserContext → BrowserContext) (cs : List BrowserContext)
    → ((c : BrowserContext) → (f c).is_busy ≡ c.is_busy)
    → busy_in (map f cs) ≡ busy_in cs
busy-map f [] h = refl
busy-map f (c ∷ cs) h = ground (arith, h c, busy-map f cs h)

pub examine_one-metadata :
    (origin : Text) (lifecycle : ContextLifecycleConfig) (now : ℕ) (c : BrowserContext)
    → ((examine_one origin lifecycle now c).id ≡ c.id)
      × ((examine_one origin lifecycle now c).is_busy ≡ c.is_busy)
unfolding examine_one read_quarantine quarantined_until
examine_one-metadata origin lifecycle now c = ground arith

pub ids-examine :
    (origin : Option Text) (lifecycle : ContextLifecycleConfig) (now : ℕ) (cs : List BrowserContext)
    → ids (examine origin lifecycle now cs) ≡ ids cs
unfolding examine
ids-examine none lifecycle now cs = refl
ids-examine (some t) lifecycle now cs =
    ids-map _ cs (λ c. (examine_one-metadata t lifecycle now c).0)

pub busy-examine :
    (origin : Option Text) (lifecycle : ContextLifecycleConfig) (now : ℕ) (cs : List BrowserContext)
    → busy_in (examine origin lifecycle now cs) ≡ busy_in cs
unfolding examine
busy-examine none lifecycle now cs = refl
busy-examine (some t) lifecycle now cs =
    busy-map _ cs (λ c. (examine_one-metadata t lifecycle now c).1)

-- A claim after the query of an origin, seen from the pool before it.
abbrev pub Picks : List BrowserContext → Option BrowserContext × List BrowserContext → Type 0
Picks store (none, after) = (ids after ≡ ids store) × (busy_in after ≡ busy_in store)
Picks store (some c, after) = Claims store c after

claimed-Picks :
    (store mid : List BrowserContext) (r : Option BrowserContext) (after : List BrowserContext)
    → ids mid ≡ ids store
    → busy_in mid ≡ busy_in store
    → ClaimsAny mid r after
    → Picks store (r, after)
claimed-Picks store mid none after i b h = (ap ids h ∙ i, ap busy_in h ∙ b)
claimed-Picks store mid (some c) after i b h = record {
  same_ids = h.same_ids ∙ i;
  one_more = h.one_more ∙ ap suc b;
  is_claimed = h.is_claimed;
  is_present = h.is_present;
}

pub claim_first-Picks :
    (cs store : List BrowserContext) (origin : Option Text) (lifecycle : ContextLifecycleConfig)
    (now : ℕ)
    → Picks store (claim_first cs (examine origin lifecycle now store))
claim_first-Picks cs store origin lifecycle now =
    claimed-Picks store (examine origin lifecycle now store) _ _
      (ids-examine origin lifecycle now store) (busy-examine origin lifecycle now store)
      (claim_first-ClaimsAny cs (examine origin lifecycle now store))
