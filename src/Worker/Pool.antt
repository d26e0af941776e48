-- ===== src/Worker/Pool.antt =====
-- `BrowserPool` of crates/worker/src/browser_pool.rs: its state, and the creation, reservation and
-- release of contexts. A function is one critical section under the pool's lock, or the code
-- between two of them where that touches counters only.
pub mod Select
pub mod Acquire
pub mod Monitor
pub mod Guard
pub mod LeastUsed
pub mod Service
pub mod Choice
pub mod Steps
pub mod Capacity
pub mod Removal
pub mod Invariant
pub mod Ids
pub mod Claims
use browser_hive_rs.Base.{
  ℕ, ◌+◌, Bool, true, false, List, [], ◌∷◌, ◌++◌, map, Option, none, some, if◌then◌else◌, length,
  fetch_add, fetch_sub,
}
use browser_hive_rs.Base.Text.{Text}
use browser_hive_rs.Base.Result.{Result, ok, err}
use browser_hive_rs.Common.Metadata.{new}
use browser_hive_rs.Worker.Context.{BrowserContext, set_busy}

-- `released` logs the contexts handed to `release_context`, newest first: the calls into Chrome
-- that close the tab and dispose the browser context run detached, and nothing reads their result.
pub record BrowserPool : Type 0 where
  pub contexts : List BrowserContext
  pub pending_creations : ℕ
  pub total_contexts_created : ℕ
  pub total_contexts_recycled : ℕ
  pub released : List ℕ

abbrev pub ids : List BrowserContext → List ℕ
ids = map (λ c. c.id)

unfoldable pub occupied_slots : BrowserPool → ℕ
occupied_slots p = length p.contexts + p.pending_creations

unfoldable pub release_context : BrowserContext → BrowserPool → BrowserPool
release_context c p = record p { released = c.id ∷ p.released }

unfoldable pub release_contexts : List BrowserContext → BrowserPool → BrowserPool
unfolding release_context
release_contexts [] p = p
release_contexts (c ∷ cs) p = release_contexts cs (release_context c p)

-- `SlotReservation::take` and its `Drop`.
unfoldable pub reserve : BrowserPool → BrowserPool
reserve p = record p { pending_creations = fetch_add p.pending_creations 1 }

unfoldable pub drop_reservation : BrowserPool → BrowserPool
drop_reservation p = record p { pending_creations = fetch_sub p.pending_creations 1 }

-- What the code outside the pool supplies to one creation: the new id and instant, the hosts of
-- the context's and the browser's proxy, whether the provider routes per context (`cdp_client`),
-- and the tab with its browser context that Chrome made, or its error.
pub record Creation : Type 0 where
  pub id : ℕ
  pub now : ℕ
  pub context_proxy_host : Option Text
  pub launch_proxy_host : Option Text
  pub routes_per_context : Bool
  pub built : Result Text (ℕ × Option Text)

abbrev or_else : Option Text → Option Text → Option Text
or_else none b = b
or_else (some a) b = some a

-- The host that carries the context's traffic.
pub effective_proxy_host : Creation → Option Text
effective_proxy_host r =
    if r.routes_per_context
    then or_else r.context_proxy_host r.launch_proxy_host
    else r.launch_proxy_host

abbrev new_context : Creation → ℕ × Option Text → BrowserContext
new_context r (tab, cdp) = record {
  metadata = new r.id r.now;
  tab = some tab;
  cdp_context_id = cdp;
  proxy_host = effective_proxy_host r;
  site = none;
}

unfoldable pub finish_creation :
    Creation
    → BrowserPool
    → Result Text (ℕ × Option Text)
    → Result Text BrowserContext × BrowserPool
finish_creation r p (err e) = (err e, p)
finish_creation r p (ok b) = (
  ok (new_context r b),
  record p { total_contexts_created = fetch_add p.total_contexts_created 1 },
)

unfoldable pub create_new_context :
    Creation → BrowserPool → Result Text BrowserContext × BrowserPool
unfolding finish_creation
create_new_context r p = finish_creation r p r.built

-- The context enters the pool busy, under the lock that ends its reservation.
unfoldable pub insert_built :
    Result Text BrowserContext × BrowserPool → Result Text BrowserContext × BrowserPool
unfolding drop_reservation
insert_built (err e, p) = (err e, drop_reservation p)
insert_built (ok c, p) =
    let busy = set_busy true c in
    (ok busy, drop_reservation (record p { contexts = p.contexts ++ busy ∷ [] }))

unfoldable pub build_reserved_context :
    Creation → BrowserPool → Result Text BrowserContext × BrowserPool
unfolding create_new_context insert_built
build_reserved_context r p = insert_built (create_new_context r p)

pub empty_pool : BrowserPool
empty_pool = record {
  contexts = [];
  pending_creations = 0;
  total_contexts_created = 0;
  total_contexts_recycled = 0;
  released = [];
}

-- `populate_initial_contexts`: one creation for each of the `min_contexts` slots, up to the first
-- that fails. These contexts are idle.
unfoldable pub push_context : Result Text BrowserContext × BrowserPool → BrowserPool
push_context (err e, p) = p
push_context (ok c, p) = record p { contexts = p.contexts ++ c ∷ [] }

unfoldable pub populate_initial_contexts :
    List Creation → BrowserPool → Result Text (Unit {0}) × BrowserPool
unfolding create_new_context push_context
populate_initial_contexts [] p = (ok tt, p)
populate_initial_contexts (r ∷ rs) p =
    let made = create_new_context r p in
    let rest = populate_initial_contexts rs (push_context made) in
    elim (made.0) [ err e ↦ (err e, push_context made) | ok c ↦ rest ]
