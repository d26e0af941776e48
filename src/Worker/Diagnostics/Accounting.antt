-- ===== src/Worker/Diagnostics/Accounting.antt =====
-- The caps of the buffer of crates/worker/src/diagnostics.rs, over any sequence of entries.
use browser_hive_rs.Base.{
  ℕ, suc, ◌+◌, ◌%◌, ◌≤◌, ◌≡◌, refl, inl, inr, List, [], ◌∷◌, ◌++◌, some, arith, leb, length,
  length-append, Bool-cases, Option-cases, u64_mod, subst, All,
}
use browser_hive_rs.Base.Text.{Text, text_eq}
use browser_hive_rs.Worker.Diagnostics.{
  DiagnosticsBuffer, Category, entries, set_entries, entry_body, truncate, collapse, push_text,
  push, total_entries, max_entry_chars, empty,
}

pub run_pushes : List (Category × Text) → ℕ → DiagnosticsBuffer → DiagnosticsBuffer
run_pushes [] max b = b
run_pushes ((c, text) ∷ ps) max b = run_pushes ps max (push c text max b)

abbrev pub categories : DiagnosticsBuffer → List (List Text)
categories b = b.js_errors ∷ b.failed_requests ∷ b.console_errors ∷ b.console_messages ∷ []

-- Every category is within the cap, and every entry stands for one of `n` pushes at least.
pub record IsCapped (max n : ℕ) (b : DiagnosticsBuffer) : Type 0 where
  pub capped : All (λ xs. length xs ≤ max) (categories b)
  pub counted : total_entries b + b.dropped ≤ n

length-collapse :
    (text : Text) (xs ys : List Text) → collapse text xs ≡ some ys → length ys ≡ length xs
unfolding collapse
length-collapse text [] ys h = cc
length-collapse text (x ∷ xs) ys h = elim (Bool-cases (text_eq (entry_body x) text)) [
  | inl e ↦ ground (arith, rw e at h)
  | inr e ↦ elim (Option-cases (collapse text xs)) [
    | inl k ↦ cc (rw (e, k) at h)
    | inr (zs, k) ↦ ground (arith, rw (e, k) at h, length-collapse text xs zs k)
  ]
]

total-set_entries :
    (c : Category) (xs : List Text) (b : DiagnosticsBuffer)
    → total_entries (set_entries c xs b) + length (entries c b) ≡ total_entries b + length xs
unfolding total_entries
total-set_entries Category.js_error xs b = omega arith
total-set_entries Category.failed_request xs b = omega arith
total-set_entries Category.console_error xs b = omega arith
total-set_entries Category.console_message xs b = omega arith

dropped-set_entries :
    (c : Category) (xs : List Text) (b : DiagnosticsBuffer)
    → (set_entries c xs b).dropped ≡ b.dropped
dropped-set_entries Category.js_error xs b = refl
dropped-set_entries Category.failed_request xs b = refl
dropped-set_entries Category.console_error xs b = refl
dropped-set_entries Category.console_message xs b = refl

abbrev Capped : ℕ → DiagnosticsBuffer → Type 0
Capped max b = All (λ xs. length xs ≤ max) (categories b)

entries-Capped :
    (max : ℕ) (c : Category) (b : DiagnosticsBuffer) → Capped max b → length (entries c b) ≤ max
entries-Capped max Category.js_error b h = h.0
entries-Capped max Category.failed_request b h = h.1.0
entries-Capped max Category.console_error b h = h.1.1.0
entries-Capped max Category.console_message b h = h.1.1.1.0

set_entries-Capped :
    (max : ℕ) (c : Category) (xs : List Text) (b : DiagnosticsBuffer)
    → Capped max b
    → length xs ≤ max
    → Capped max (set_entries c xs b)
set_entries-Capped max Category.js_error xs b h k = (k, h.1)
set_entries-Capped max Category.failed_request xs b h k = (h.0, (k, h.1.1))
set_entries-Capped max Category.console_error xs b h k = (h.0, (h.1.0, (k, h.1.1.1)))
set_entries-Capped max Category.console_message xs b h k = (h.0, (h.1.0, (h.1.1.0, (k, tt))))

set_entries-IsCapped :
    (max n m : ℕ) (c : Category) (xs : List Text) (b : DiagnosticsBuffer)
    → IsCapped max n b
    → length xs ≤ max
    → length xs + n ≤ length (entries c b) + m
    → IsCapped max m (set_entries c xs b)
set_entries-IsCapped max n m c xs b i k l = record {
  capped = set_entries-Capped max c xs b i.capped k;
  counted = omega (arith, total-set_entries c xs b, dropped-set_entries c xs b, i.counted, l);
}

drop_one :
    (max n : ℕ) (b : DiagnosticsBuffer)
    → IsCapped max n b
    → IsCapped max (suc n) (record b { dropped = (b.dropped + 1) % u64_mod })
unfolding total_entries
drop_one max n b i = record { capped = i.capped; counted = omega (arith, i.counted) }

push-IsCapped :
    (max n : ℕ) (c : Category) (text : Text) (b : DiagnosticsBuffer)
    → IsCapped max n b
    → IsCapped max (suc n) (push_text c text max b)
push-IsCapped max n c text b i = elim (Option-cases (collapse text (entries c b))) [
  | inr (xs, e) ↦
      let same = length-collapse text (entries c b) xs e in
      rw (push_text, e)
        (set_entries-IsCapped max n (suc n) c xs b i
          (omega (arith, same, entries-Capped max c b i.capped)) (omega (arith, same)))
  | inl e ↦ elim (Bool-cases (leb max (length (entries c b)))) [
    | inl full ↦ rw (push_text, e, full) (drop_one max n b i)
    | inr room ↦
        let size = length-append (entries c b) (text ∷ []) in
        rw (push_text, e, room)
          (set_entries-IsCapped max n (suc n) c (entries c b ++ (text ∷ [])) b i
            (ground (arith, size)) (ground (arith, size)))
  ]
]

run_pushes-IsCapped :
    (max n : ℕ) (ps : List (Category × Text)) (b : DiagnosticsBuffer)
    → IsCapped max n b
    → IsCapped max (n + length ps) (run_pushes ps max b)
unfolding run_pushes push
run_pushes-IsCapped max n [] b i = record { capped = i.capped; counted = omega (arith, i.counted) }
run_pushes-IsCapped max n ((c, text) ∷ ps) b i =
    let short = truncate text max_entry_chars in
    rw (shift n (length ps)) (
      run_pushes-IsCapped max (suc n) ps (push_text c short max b)
        (push-IsCapped max n c short b i))
  where
    shift : (n m : ℕ) → n + suc m ≡ suc n + m
    shift n m = omega arith

-- However often a buffer is pushed to, every category is within the cap, and its entries and drops
-- together are at most the pushes.
pub buffer-IsCapped :
    (max : ℕ) (ps : List (Category × Text)) → IsCapped max (length ps) (run_pushes ps max empty)
unfolding total_entries
buffer-IsCapped max ps = subst (λ n. IsCapped max n (run_pushes ps max empty)) zero_left start
  where
    fresh : IsCapped max 0 empty
    fresh = record {
      capped = (omega arith, (omega arith, (omega arith, (omega arith, tt))));
      counted = omega arith;
    }

    zero_left : 0 + length ps ≡ length ps
    zero_left = omega arith

    start : IsCapped max (0 + length ps) (run_pushes ps max empty)
    start = run_pushes-IsCapped max 0 ps empty fresh
