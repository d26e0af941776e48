-- ===== src/Worker/Attempt/Address.antt =====
-- The session's contract in crates/worker/src/service.rs: an attempt of a `dedicated` scope names its
-- context exactly where the context is still in the pool.
pub mod Kept
pub mod Honest
use browser_hive_rs.Base.{
  ℕ, ◌≡◌, refl, ap, ◌∙◌, inl, inr, Bool, true, false, not, ◌&&◌, ◌||◌, List, [], ◌∷◌, map, Option,
  none, some, is_some, arith, ◌==◌, if◌then◌else◌, any, filter, Bool-cases, Option-cases,
}
use browser_hive_rs.Base.Text.{Text}
use browser_hive_rs.Base.Result.{Result, ok, err, Result-cases}
use browser_hive_rs.Common.Config.{SessionMode, returns_session_id}
use browser_hive_rs.Worker.Context.{BrowserContext}
use browser_hive_rs.Worker.Pool.{BrowserPool, ids}
use browser_hive_rs.Worker.Pool.Select.{claim_by_id, without}
use browser_hive_rs.Worker.Pool.Claims.{claim_by_id-Claims}
use browser_hive_rs.Worker.Pool.Ids.{ids-map}
use browser_hive_rs.Worker.Pool.Removal.{release_contexts-fields}
use browser_hive_rs.Worker.Pool.Acquire.{destroy_context}
use browser_hive_rs.Worker.Pool.Guard.{guard_new, guard_drop, free_if}
use browser_hive_rs.Worker.Outcome.{ErrorCode}
use browser_hive_rs.Worker.Attempt.{
  Answer, Shared, Setting, Step, follow, addressable_context_id, recreate_browser_pool, on_pool,
  discard_stuck_context,
}
use browser_hive_rs.Worker.Attempt.Phases.{Script, change}

abbrev pub holds : ℕ → BrowserPool → Bool
holds id p = any (λ j. j == id) (ids p.contexts)

abbrev pub alive : ℕ → Shared → Bool
alive id w = holds id w.pool

-- The answer names the context exactly where the pool still holds it. A status of gRPC says nothing.
abbrev pub IsHonest : (ℕ → Text) → ℕ → Result Text Answer × Shared → Type 0
IsHonest to_string id (ok a, w) = a.context_id ≡ (if alive id w then to_string id else [])
IsHonest to_string id (err e, w) = Unit

holds-ids : (id : ℕ) (p q : BrowserPool) → ids p.contexts ≡ ids q.contexts → holds id p ≡ holds id q
holds-ids id p q e = ap (any (λ j. j == id)) e

without-gone :
    (id : ℕ) (cs : List BrowserContext) → any (λ j. j == id) (ids (without id cs)) ≡ false
unfolding without
without-gone id [] = refl
without-gone id (c ∷ cs) = ground (arith, without-gone id cs)

pub destroy_context-gone : (id : ℕ) (p : BrowserPool) → holds id (destroy_context id p) ≡ false
unfolding destroy_context
destroy_context-gone id p =
    ap (λ cs. any (λ j. j == id) (ids cs))
      (release_contexts-fields (filter (λ c. c.id == id) p.contexts)
        (record p { contexts = without id p.contexts })).0
    ∙ without-gone id p.contexts

-- A change of one context keeps all ids.
pub change-alive :
    (i id : ℕ) (f : BrowserContext → BrowserContext) (w : Shared)
    → ((c : BrowserContext) → (f c).id ≡ c.id)
    → alive i (change id f w) ≡ alive i w
change-alive i id f w h =
    ap (any (λ j. j == i)) (ids-map (λ c. if c.id == id then f c else c) w.pool.contexts kept)
  where
    kept : (c : BrowserContext) → (if c.id == id then f c else c).id ≡ c.id
    kept c = elim (Bool-cases (c.id == id)) [ inl e ↦ rw e (h c) | inr e ↦ rw e refl ]

pub guard_new-holds : (i id : ℕ) (p : BrowserPool) → holds i (guard_new id p).1 ≡ holds i p
unfolding guard_new
guard_new-holds i id p = elim (Option-cases (claim_by_id id p.contexts)) [
  | inl e ↦ rw (guard_new, e) refl
  | inr ((c, store), e) ↦
      rw (guard_new, e)
        (ap (any (λ j. j == i)) (claim_by_id-Claims id p.contexts c store e).same_ids)
]

pub guard_drop-holds : (i id now : ℕ) (p : BrowserPool) → holds i (guard_drop id now p) ≡ holds i p
unfolding guard_drop free_if
guard_drop-holds i id now p =
    ap (any (λ j. j == i)) (ids-map (free_if id now) p.contexts (λ c. ground arith))

module _ (to_string : ℕ → Text) (id : ℕ) where
  -- A step that goes on leaves the context in the pool, and one that returns is honest.
  abbrev pub IsGood {ℓ} : {A : Type ℓ} → Result (Result Text Answer) A × Shared → Type 0
  IsGood (ok a, w) = alive id w ≡ true
  IsGood (err e, w) = IsHonest to_string id (e, w)

  pub follow-IsGood {ℓ κ} :
      {A : Type ℓ} {B : Type κ} (x : Result (Result Text Answer) A × Shared) (k : A → Step B)
      → IsGood x
      → ((a : A) (w : Shared) → alive id w ≡ true → IsGood (k a w))
      → IsGood (follow x k)
  follow-IsGood (ok a, w) k g h = h a w g
  follow-IsGood (err e, w) k g h = g

  abbrev pub Keeps {ℓ} : {A : Type ℓ} → Step A → Type 0
  Keeps m = (w : Shared) → alive id w ≡ true → IsGood (m w)

  pub bind-Keeps {ℓ κ} :
      {A : Type ℓ} {B : Type κ} (m : Step A) (k : A → Step B)
      → Keeps m
      → ((a : A) → Keeps (k a))
      → (w : Shared) → alive id w ≡ true
      → IsGood (follow (m w) k)
  bind-Keeps m k f g w h = follow-IsGood (m w) k (f w h) g
