-- ===== src/Common/Metadata/Quarantine.antt =====
-- The quarantine of an origin (crates/common/src/types.rs).
use browser_hive_rs.Base.{
  ℕ, ◌+◌, ◌≤◌, ◌<◌, ◌≡◌, refl, ◌≢◌, ◌⊎◌, inl, inr, true, [], ◌∷◌, Option, none, some, arith, ltb,
  leb, if◌then◌else◌, length, filter, Bool-cases, Option-cases, length-filter-le, All, All-map,
}
use browser_hive_rs.Base.Text.{Text, text_eq, text_eq_iff, text_eq_refl}
use browser_hive_rs.Base.Map.{
  Map, lookup, contains_key, lookup-insert, lookup-remove, length-remove-lt, length-insert,
  length-remove-le, filter-IsMap, remove-IsMap, insert-IsMap, lookup-filter-some, IsMap,
}
use browser_hive_rs.Common.Metadata.{
  BrowserContextMetadata, new, max_blocked_origins, earlier_entry, earliest, drop_earliest,
  make_room, quarantine_origin, quarantined_until,
}

-- After a block of an origin the verdict at any instant is the end of the block while that lies
-- ahead, and none from then on, whatever the map held before.
pub quarantined_until-quarantine_origin :
    (origin : Text) (cooldown now later : ℕ) (m : BrowserContextMetadata)
    → (quarantined_until origin later (quarantine_origin origin cooldown now m)).0
      ≡ (if ltb later (now + cooldown) then some (now + cooldown) else none)
unfolding quarantined_until quarantine_origin
quarantined_until-quarantine_origin origin cooldown now later m = ground (
  arith,
  lookup-insert origin origin (now + cooldown) (make_room origin now m.blocked_origins),
  text_eq_refl origin,
)

-- The pruning of a read changes no verdict: for every origin and every later instant the verdict is
-- the one of the map before the read.
pub quarantined_until_pruned :
    (origin other : Text) (now later : ℕ) (m : BrowserContextMetadata)
    → now ≤ later
    → (quarantined_until other later (quarantined_until origin now m).1).0
      ≡ (quarantined_until other later m).0
unfolding quarantined_until
quarantined_until_pruned origin other now later m h =
    ground (arith, lookup-remove origin other m.blocked_origins, text_eq_iff origin other)

abbrev EarliestOf : ℕ → Map ℕ → Type 0
EarliestOf d = All (λ e. d ≤ e.1)

EarliestOf-le : (c d : ℕ) (m : Map ℕ) → d ≤ c → EarliestOf c m → EarliestOf d m
EarliestOf-le c d m h = All-map (λ e k. omega arith) m

earlier_entry_total :
    (k : Text) (d : ℕ) (o : Option (Text × ℕ))
    → (j : Text) × (c : ℕ) × (earlier_entry k d o ≡ some (j, c))
unfolding earlier_entry
earlier_entry_total k d none = (k, d, refl)
earlier_entry_total k d (some (j, c)) = elim (Bool-cases (leb d c)) [
  | inl e ↦ (k, d, rw e)
  | inr e ↦ (j, c, rw e)
]

earliest_total : (m : Map ℕ) → 1 ≤ length m → (k : Text) × (d : ℕ) × (earliest m ≡ some (k, d))
unfolding earliest
earliest_total [] h = absurd (omega arith)
earliest_total ((k, d) ∷ m) h = earlier_entry_total k d (earliest m)

EarliestOf-none : (m : Map ℕ) (d : ℕ) → earliest m ≡ none → EarliestOf d m
EarliestOf-none [] d h = tt
EarliestOf-none (e ∷ m) d h = let (k, c, s) = earliest_total (e ∷ m) (omega arith) in cc

earliest-least : (m : Map ℕ) (k : Text) (d : ℕ) → earliest m ≡ some (k, d) → EarliestOf d m
unfolding earliest
earliest-least [] k d h = tt
earliest-least ((j, e) ∷ m) k d h = elim (Option-cases (earliest m)) [
  | inl n ↦ ground (arith, EarliestOf-none m d)
  | inr ((i, c), s) ↦ ground (arith, earliest-least m i c, EarliestOf-le c d m)
]

-- In a map the entry that `earliest` finds is the one that a lookup finds.
lookup-earliest :
    (m : Map ℕ) (k : Text) (d : ℕ) → IsMap m → earliest m ≡ some (k, d) → lookup k m ≡ some d
unfolding earliest lookup IsMap
lookup-earliest [] k d u h = cc
lookup-earliest ((j, e) ∷ m) k d u h = elim (Option-cases (earliest m)) [
  | inl n ↦ ground (arith, text_eq_refl k)
  | inr ((i, c), s) ↦ ground (arith, text_eq_refl k, text_eq_iff j i, lookup-earliest m i c u.1)
]

drop_earliest-IsMap : (m : Map ℕ) → IsMap m → IsMap (drop_earliest m)
unfolding drop_earliest
drop_earliest-IsMap m u = elim (Option-cases (earliest m)) [
  | inl e ↦ rw (e, drop_earliest) u
  | inr ((k, d), e) ↦ rw (e, drop_earliest) (remove-IsMap k m u)
]

length-drop_earliest : (m : Map ℕ) → IsMap m → 1 ≤ length m → length (drop_earliest m) < length m
unfolding drop_earliest
length-drop_earliest m u h =
    let (k, d, e) = earliest_total m h in
    rw (e, drop_earliest) (length-remove-lt k d m (lookup-earliest m k d u e))

-- Only the entry of the least deadline is dropped.
lookup-drop_earliest :
    (m : Map ℕ) (k : Text) (d : ℕ)
    → IsMap m
    → lookup k m ≡ some d
    → (lookup k (drop_earliest m) ≡ some d) ⊎ EarliestOf d m
unfolding drop_earliest
lookup-drop_earliest m k d u h = elim (Option-cases (earliest m)) [
  | inl e ↦ inl (rw (e, drop_earliest) h)
  | inr ((j, c), e) ↦ elim (Bool-cases (text_eq j k)) [
    | inl s ↦
        inr (ground (arith, text_eq_iff j k, lookup-earliest m j c u e, earliest-least m j c e))
    | inr s ↦ inl (rw (e, drop_earliest) (ground (arith, lookup-remove j k m)))
  ]
]

module _ (origin : Text) (now : ℕ) (blocked : Map ℕ) where
  abbrev live : Map ℕ
  live = filter (λ e. ltb now e.1) blocked

  make_room-IsMap : IsMap blocked → IsMap (make_room origin now blocked)
  unfolding make_room
  make_room-IsMap u =
      ground (arith, filter-IsMap (λ e. ltb now e.1) blocked u, drop_earliest-IsMap live)

  length-make_room :
      IsMap blocked
      → length blocked ≤ max_blocked_origins
      → (contains_key origin blocked ≡ true) × (make_room origin now blocked ≡ blocked)
        ⊎ (length (make_room origin now blocked) < max_blocked_origins)
  unfolding make_room
  length-make_room u h = ground (
    arith,
    length-filter-le (λ e. ltb now e.1) blocked,
    filter-IsMap (λ e. ltb now e.1) blocked u,
    length-drop_earliest live,
  )

  lookup-make_room :
      (k : Text) (d : ℕ)
      → IsMap blocked
      → lookup k blocked ≡ some d
      → now < d
      → (lookup k (make_room origin now blocked) ≡ some d)
        ⊎ (max_blocked_origins ≤ length live) × EarliestOf d live
  unfolding make_room
  lookup-make_room k d u h l = ground (
    arith,
    filter-IsMap (λ e. ltb now e.1) blocked u,
    lookup-filter-some k (λ e. ltb now e.1) blocked d h,
    lookup-drop_earliest live k d,
  )

-- What the map of one context satisfies: one entry for an origin, and at most
-- `max_blocked_origins` of them.
pub record IsBounded (m : BrowserContextMetadata) : Type 0 where
  pub keyed : IsMap m.blocked_origins
  pub capped : length m.blocked_origins ≤ max_blocked_origins

-- A new context satisfies it.
pub new-IsBounded : (id now : ℕ) → IsBounded (new id now)
unfolding new IsMap
new-IsBounded id now = record { keyed = tt; capped = omega arith }

-- A block keeps the map with one entry for an origin and at most 32 entries.
pub quarantine_origin-IsBounded :
    (origin : Text) (cooldown now : ℕ) (m : BrowserContextMetadata)
    → IsBounded m
    → IsBounded (quarantine_origin origin cooldown now m)
unfolding quarantine_origin
quarantine_origin-IsBounded origin cooldown now m b =
    let room = make_room origin now m.blocked_origins in
    record {
      keyed =
          insert-IsMap origin (now + cooldown) room
            (make_room-IsMap origin now m.blocked_origins b.keyed);
      capped = ground (
        arith,
        length-insert origin (now + cooldown) room,
        length-make_room origin now m.blocked_origins b.keyed b.capped,
      );
    }

pub quarantined_until-IsBounded :
    (origin : Text) (now : ℕ) (m : BrowserContextMetadata)
    → IsBounded m
    → IsBounded (quarantined_until origin now m).1
unfolding quarantined_until
quarantined_until-IsBounded origin now m b =
    ground (arith, remove-IsMap origin m.blocked_origins, length-remove-le origin m.blocked_origins)

-- For metadata that is bounded, blocking one origin keeps the live block of another, unless at
-- least 32 live blocks were held and none of them ends before the other.
pub quarantine_origin_keeps_others :
    (origin other : Text) (cooldown now until : ℕ) (m : BrowserContextMetadata)
    → IsBounded m
    → other ≢ origin
    → (quarantined_until other now m).0 ≡ some until
    → ((quarantined_until other now (quarantine_origin origin cooldown now m)).0 ≡ some until)
      ⊎ (max_blocked_origins ≤ length (filter (λ e. ltb now e.1) m.blocked_origins))
        × All (λ e. until ≤ e.1) (filter (λ e. ltb now e.1) m.blocked_origins)
unfolding quarantined_until quarantine_origin
quarantine_origin_keeps_others origin other cooldown now until m b ne h = ground (
  arith,
  lookup-insert origin other (now + cooldown) (make_room origin now m.blocked_origins),
  text_eq_iff origin other,
  b.keyed,
  lookup-make_room origin now m.blocked_origins other until,
)
