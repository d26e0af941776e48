-- ===== src/Worker/Outcome/Failures.antt =====
-- `ProxyFailures` of crates/worker/src/service.rs: the loads lost to the proxy, by kind. The
-- `BTreeMap` is an association list in the order of its keys.
use browser_hive_rs.Base.{
  ℕ, suc, ◌+◌, ◌%◌, ◌≤◌, ◌<◌, ◌≡◌, refl, subst, ◌⊎◌, inl, inr, Bool, true, ◌||◌, List, [], ◌∷◌,
  ◌++◌, map, Option, none, some, arith, ltb, ltb→lt, count_if-le-length, if◌then◌else◌, length,
  count_if, u64_mod, Bool-cases, Option-cases,
}
use browser_hive_rs.Base.Text.{Text, codes, text_eq, text_eq_iff, text_le}
use browser_hive_rs.Base.Map.{Map, lookup, contains_key}
use browser_hive_rs.Base.Strings.Decimal.{show}
use browser_hive_rs.Base.Strings.{join}

abbrev pub max_proxy_failure_kinds : ℕ
max_proxy_failure_kinds = 8

pub record ProxyFailures : Type 0 where
  pub by_kind : Map ℕ
  pub total : ℕ

abbrev pub default : ProxyFailures
default = record { by_kind = []; total = 0 }

unfoldable increment : Text → Map ℕ → Map ℕ
increment k [] = []
increment k ((j, n) ∷ m) =
    if text_eq j k then (j, (n + 1) % u64_mod) ∷ m else (j, n) ∷ increment k m

unfoldable insert_in_order : Text → Map ℕ → Map ℕ
insert_in_order k [] = (k, 1) ∷ []
insert_in_order k ((j, n) ∷ m) =
    if text_le k j then (k, 1) ∷ (j, n) ∷ m else (j, n) ∷ insert_in_order k m

-- `*entry(kind).or_insert(0) += 1`.
abbrev bump : Text → Map ℕ → Map ℕ
bump k m = if contains_key k m then increment k m else insert_in_order k m

unfoldable pub record_failure : Text → ProxyFailures → ProxyFailures
unfolding increment insert_in_order
record_failure kind f = record {
  total = (f.total + 1) % u64_mod;
  by_kind =
      if ltb (length f.by_kind) max_proxy_failure_kinds || contains_key kind f.by_kind
      then bump kind f.by_kind
      else f.by_kind;
}

abbrev describe : Text × ℕ → Text
describe (kind, count) =
    if ltb 1 count then kind ++ (codes " (x" ++ (show count ++ codes ")")) else kind

unfoldable pub summary : ProxyFailures → Text
unfolding join
summary f = join (codes ", ") (map describe f.by_kind)

-- The failures after those of the list, the last of them first.
pub recorded : List Text → ProxyFailures
unfolding record_failure
recorded [] = default
recorded (kind ∷ kinds) = record_failure kind (recorded kinds)

lookup-increment :
    (k j : Text) (m : Map ℕ) (n : ℕ)
    → lookup k m ≡ some n
    → lookup j (increment k m) ≡ (if text_eq k j then some ((n + 1) % u64_mod) else lookup j m)
unfolding lookup increment
lookup-increment k j [] n h = cc
lookup-increment k j ((i, w) ∷ m) n h =
    ground (arith, text_eq_iff k j, text_eq_iff i k, text_eq_iff i j, lookup-increment k j m n)

lookup-insert_in_order :
    (k j : Text) (m : Map ℕ)
    → lookup k m ≡ none
    → lookup j (insert_in_order k m) ≡ (if text_eq k j then some 1 else lookup j m)
unfolding lookup insert_in_order
lookup-insert_in_order k j [] h = refl
lookup-insert_in_order k j ((i, w) ∷ m) h =
    ground (arith, text_eq_iff k j, text_eq_iff i k, text_eq_iff i j, lookup-insert_in_order k j m)

length-increment : (k : Text) (m : Map ℕ) → length (increment k m) ≡ length m
unfolding increment
length-increment k [] = refl
length-increment k ((i, w) ∷ m) = ground (arith, length-increment k m)

length-insert_in_order : (k : Text) (m : Map ℕ) → length (insert_in_order k m) ≡ suc (length m)
unfolding insert_in_order
length-insert_in_order k [] = refl
length-insert_in_order k ((i, w) ∷ m) = ground (arith, length-insert_in_order k m)

abbrev pub times : Text → List Text → ℕ
times kind = count_if (λ j. text_eq j kind)

-- The listed count is `n`, the number of the kind's failures; a kind is missing only where it never
-- failed or the list of `size` kinds is full.
abbrev pub IsExact : ℕ → ℕ → Option ℕ → Type 0
IsExact n size (some count) = count ≡ n
IsExact n size none = (n ≡ 0) ⊎ (size ≡ max_proxy_failure_kinds)

IsExact-room :
    (n size after : ℕ) (o : Option ℕ)
    → size < max_proxy_failure_kinds
    → IsExact n size o
    → IsExact n after o
IsExact-room n size after (some count) h e = e
IsExact-room n size after none h (inl e) = inl e
IsExact-room n size after none h (inr e) = absurd (omega arith)

-- What is known of `kind` after the failures `kinds`.
record IsSound (kinds : List Text) (f : ProxyFailures) (kind : Text) : Type 0 where
  pub total : f.total ≡ length kinds
  pub few : length f.by_kind ≤ max_proxy_failure_kinds
  pub exact : IsExact (times kind kinds) (length f.by_kind) (lookup kind f.by_kind)

module _ (k kind : Text) (kinds : List Text) (f : ProxyFailures) (b : suc (length kinds) < u64_mod)
    (s : IsSound kinds f kind) where
  known :
      (n : ℕ)
      → lookup k f.by_kind ≡ some n
      → IsSound
          (k ∷ kinds)
          (record { by_kind = increment k f.by_kind; total = (f.total + 1) % u64_mod })
          kind
  known n h = record {
    total = omega (arith, s.total, b);
    few = omega (arith, length-increment k f.by_kind, s.few);
    exact = elim (Bool-cases (text_eq k kind)) [
      | inl e ↦
          let same = subst (λ j. lookup j f.by_kind ≡ some n) ((text_eq_iff k kind).0 e) h in
          rw (lookup-increment k kind f.by_kind n h, e) (counted (rw same at s.exact))
      | inr e ↦ rw (lookup-increment k kind f.by_kind n h, length-increment k f.by_kind, e) s.exact
    ];
  }
    where
      counted : n ≡ times kind kinds → (n + 1) % u64_mod ≡ suc (times kind kinds)
      counted q = omega (arith, q, b, count_if-le-length (λ j. text_eq j kind) kinds)

  fresh :
      lookup k f.by_kind ≡ none
      → length f.by_kind < max_proxy_failure_kinds
      → IsSound
          (k ∷ kinds)
          (record { by_kind = insert_in_order k f.by_kind; total = (f.total + 1) % u64_mod })
          kind
  fresh h room = record {
    total = omega (arith, s.total, b);
    few = omega (arith, length-insert_in_order k f.by_kind, room);
    exact = elim (Bool-cases (text_eq k kind)) [
      | inl e ↦
          let same = subst (λ j. lookup j f.by_kind ≡ none) ((text_eq_iff k kind).0 e) h in
          rw (lookup-insert_in_order k kind f.by_kind h, e) (first (rw same at s.exact))
      | inr e ↦
          rw (lookup-insert_in_order k kind f.by_kind h, e)
            (IsExact-room (times kind kinds) (length f.by_kind) _ (lookup kind f.by_kind) room
              s.exact)
    ];
  }
    where
      first :
          (times kind kinds ≡ 0) ⊎ (length f.by_kind ≡ max_proxy_failure_kinds)
          → 1 ≡ suc (times kind kinds)
      first (inl q) = omega arith
      first (inr q) = absurd (omega (arith, q, room))

  full :
      lookup k f.by_kind ≡ none
      → max_proxy_failure_kinds ≤ length f.by_kind
      → IsSound (k ∷ kinds) (record { by_kind = f.by_kind; total = (f.total + 1) % u64_mod }) kind
  full h q = record {
    total = omega (arith, s.total, b);
    few = s.few;
    exact = elim (Bool-cases (text_eq k kind)) [
      | inl e ↦
          let same = subst (λ j. lookup j f.by_kind ≡ none) ((text_eq_iff k kind).0 e) h in
          rw same (inr (omega (arith, q, s.few)))
      | inr e ↦ rw e s.exact
    ];
  }

  record_failure-IsSound : IsSound (k ∷ kinds) (record_failure k f) kind
  unfolding record_failure
  record_failure-IsSound = elim (Option-cases (lookup k f.by_kind)) [
    | inr (n, h) ↦
        rw (record_failure, h, or_true (ltb (length f.by_kind) max_proxy_failure_kinds)) (known n h)
    | inl h ↦ elim (Bool-cases (ltb (length f.by_kind) max_proxy_failure_kinds)) [
      | inl r ↦
          rw (record_failure, h, r) (fresh h (ltb→lt (length f.by_kind) max_proxy_failure_kinds r))
      | inr r ↦ rw (record_failure, h, r) (full h (ground arith))
    ]
  ]
    where
      or_true : (a : Bool) → (a || true) ≡ true
      or_true a = ground arith

recorded-IsSound :
    (kinds : List Text) (kind : Text) → length kinds < u64_mod → IsSound kinds (recorded kinds) kind
unfolding recorded lookup
recorded-IsSound [] kind b = record { total = refl; few = omega arith; exact = inl refl }
recorded-IsSound (k ∷ kinds) kind b =
    record_failure-IsSound k kind kinds (recorded kinds) b
      (recorded-IsSound kinds kind (omega arith))

-- After fewer than 2^64 proxy failures the total is their number, at most eight kinds are listed,
-- the count of a listed kind is exact, and a kind that is not listed did not occur, unless all
-- eight places are taken.
pub failures_are_counted :
    (kinds : List Text) (kind : Text)
    → length kinds < u64_mod
    → ((recorded kinds).total ≡ length kinds)
      × (length (recorded kinds).by_kind ≤ max_proxy_failure_kinds)
      × IsExact
          (times kind kinds)
          (length (recorded kinds).by_kind)
          (lookup kind (recorded kinds).by_kind)
failures_are_counted kinds kind b =
    let s = recorded-IsSound kinds kind b in (s.total, s.few, s.exact)
