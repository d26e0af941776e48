-- ===== src/Common/Metadata.antt =====
-- `BrowserContextMetadata` of crates/common/src/types.rs. An `Instant` is a number of nanoseconds;
-- `now` is what `Instant::now()` returns in the call. The mutex of `blocked_origins` is not
-- poisoned: none of its critical sections can panic.
pub mod Quarantine
use browser_hive_rs.Base.{
  ℕ, ◌+◌, ◌≡◌, refl, Bool, false, ◌&&◌, not, List, [], ◌∷◌, Option, none, some, ltb, leb,
  if◌then◌else◌, length, filter,
}
use browser_hive_rs.Base.Text.{Text}
use browser_hive_rs.Base.Map.{Map, lookup, insert, remove, contains_key}

-- `id` stands for the 128 bits of the `Uuid`; the atomics and the maps behind an `Arc` are the
-- values that they hold.
pub record BrowserContextMetadata : Type 0 where
  pub id : ℕ
  pub created_at : ℕ
  pub last_used_at : ℕ
  pub total_requests : ℕ
  pub cache_size_mb : ℕ
  pub is_busy : Bool
  pub blocked_origins : Map ℕ

abbrev pub max_blocked_origins : ℕ
max_blocked_origins = 32

-- `Default`, with what `Uuid::new_v4()` and `Instant::now()` return.
unfoldable pub new : ℕ → ℕ → BrowserContextMetadata
new id now = record {
  id = id;
  created_at = now;
  last_used_at = now;
  total_requests = 0;
  cache_size_mb = 0;
  is_busy = false;
  blocked_origins = [];
}

-- `min_by_key` on the deadline: the first entry of the least deadline, in the map's order.
earlier_entry : Text → ℕ → Option (Text × ℕ) → Option (Text × ℕ)
earlier_entry k d none = some (k, d)
earlier_entry k d (some (j, e)) = if leb d e then some (k, d) else some (j, e)

earliest : Map ℕ → Option (Text × ℕ)
unfolding earlier_entry
earliest [] = none
earliest ((k, d) ∷ m) = earlier_entry k d (earliest m)

drop_earliest : Map ℕ → Map ℕ
drop_earliest m = elim (earliest m) [ none ↦ m | some (k, d) ↦ remove k m ]

-- The room that is made before an insertion.
make_room : Text → ℕ → Map ℕ → Map ℕ
unfolding drop_earliest
make_room origin now blocked =
    if not (contains_key origin blocked) && leb max_blocked_origins (length blocked)
    then (let live = filter (λ e. ltb now e.1) blocked in
        if leb max_blocked_origins (length live) then drop_earliest live else live)
    else blocked

pub quarantine_origin : Text → ℕ → ℕ → BrowserContextMetadata → BrowserContextMetadata
unfolding make_room
quarantine_origin origin cooldown now m =
    let until = now + cooldown in
    record m { blocked_origins = insert origin until (make_room origin now m.blocked_origins) }

pub quarantine_origin-id :
    (origin : Text) (cooldown now : ℕ) (m : BrowserContextMetadata)
    → (quarantine_origin origin cooldown now m).id ≡ m.id
unfolding quarantine_origin
quarantine_origin-id origin cooldown now m = refl

-- The verdict, and the map less an entry that has expired.
read_deadline : Text → ℕ → Option ℕ → Map ℕ → Option ℕ × Map ℕ
read_deadline origin now none blocked = (none, blocked)
read_deadline origin now (some deadline) blocked =
    if ltb now deadline then (some deadline, blocked) else (none, remove origin blocked)

unfoldable pub quarantined_until :
    Text → ℕ → BrowserContextMetadata → Option ℕ × BrowserContextMetadata
unfolding read_deadline
quarantined_until origin now m =
    let (verdict, blocked) =
      read_deadline origin now (lookup origin m.blocked_origins) m.blocked_origins in
    (verdict, record m { blocked_origins = blocked })
