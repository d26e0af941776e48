-- ===== src/Worker/Diagnostics/Repeats.antt =====
-- Repeated entries in crates/worker/src/diagnostics.rs: the count that stands behind an entry.
use mathlib.Core.List.{append_assoc}
use browser_hive_rs.Base.{
  ℕ, zero, suc, ◌+◌, ◌-◌, ◌%◌, ◌<◌, ◌≡◌, refl, sym, ◌∙◌, ap, true, false, List, [], ◌∷◌, ◌++◌, none,
  some, arith, leb, ◌==◌, length, All, All-append, All-map, length-append, u64_mod,
}
use browser_hive_rs.Base.Text.{Text, codes, text_eq, text_eq_refl}
use browser_hive_rs.Base.Strings.{take, drop, rfind, ends_with}
use browser_hive_rs.Base.Strings.Suffix.{rfind_last, ends_with_iff, take-append, drop-append}
use browser_hive_rs.Base.Strings.Decimal.{show, parse, parse-show, show-IsDigits}
use browser_hive_rs.Worker.Diagnostics.{
  DiagnosticsBuffer, Category, entries, set_entries, marker_open, marker_at, entry_body,
  entry_count, marked, truncate, collapse, push_text, push, max_entry_chars,
}

no_space : (n : ℕ) → All (λ c. (c == b' ') ≡ false) (codes "(x" ++ (show n ++ codes ")"))
no_space n = (
  refl,
  (
    refl,
    All-append (λ c. (c == b' ') ≡ false) (show n) (codes ")")
        (All-map (λ c h. ground arith) (show n) (show-IsDigits n)) (refl, tt),
  ),
)

marker_at-found :
    (entry : Text) (i : ℕ)
    → rfind entry marker_open ≡ some i
    → ends_with entry (codes ")") ≡ true
    → marker_at entry ≡ some i
unfolding marker_at
marker_at-found entry i h k = rw (marker_at, h, k) refl

entry_body-found :
    (entry : Text) (i : ℕ) → marker_at entry ≡ some i → entry_body entry ≡ take i entry
unfolding entry_body
entry_body-found entry i h = rw (entry_body, h) refl

entry_count-found :
    (entry digits : Text) (i n : ℕ)
    → marker_at entry ≡ some i
    → take (length entry - 1 - (i + 3)) (drop (i + 3) entry) ≡ digits
    → parse u64_mod digits ≡ some n
    → entry_count entry ≡ n
unfolding entry_count
entry_count-found entry digits i n h k p = rw (entry_count, h, k, p) refl

marker_at-marked : (text : Text) (n : ℕ) → marker_at (marked text n) ≡ some (length text)
marker_at-marked text n = marker_at-found (marked text n) (length text) found closed
  where
    found : rfind (marked text n) marker_open ≡ some (length text)
    found = rfind_last text (show n ++ codes ")") (codes "(x") b' ' (no_space n)

    closed : ends_with (marked text n) (codes ")") ≡ true
    closed = (ends_with_iff (marked text n) (codes ")")).1 (
      text ++ (marker_open ++ show n),
      sym (append_assoc text (marker_open ++ show n) (codes ")")),
    )

-- The marker is taken off again, whatever the text is.
entry_body-marked : (text : Text) (n : ℕ) → entry_body (marked text n) ≡ text
entry_body-marked text n =
    entry_body-found (marked text n) (length text) (marker_at-marked text n)
    ∙ take-append text (marker_open ++ (show n ++ codes ")"))

-- The count is read back.
entry_count-marked : (text : Text) (n : ℕ) → n < u64_mod → entry_count (marked text n) ≡ n
entry_count-marked text n h =
    entry_count-found (marked text n) (show n) (length text) n (marker_at-marked text n) digits
      (parse-show u64_mod n h h)
  where
    tail : drop (length text + 3) (marked text n) ≡ show n ++ codes ")"
    tail = drop-append text (marker_open ++ (show n ++ codes ")")) 3

    size : length (marked text n) - 1 - (length text + 3) ≡ length (show n)
    size = omega (
      arith,
      length-append text (marker_open ++ (show n ++ codes ")")),
      length-append (show n) (codes ")"),
    )

    digits :
        take
          (length (marked text n) - 1 - (length text + 3))
          (drop (length text + 3) (marked text n))
        ≡ show n
    digits = rw (size, tail) (take-append (show n) (codes ")"))

-- No entry of the list stands for `text`.
abbrev pub IsAbsent : Text → List Text → Type 0
IsAbsent text xs = All (λ e. text_eq (entry_body e) text ≡ false) xs

collapse-IsAbsent : (text : Text) (xs : List Text) → IsAbsent text xs → collapse text xs ≡ none
unfolding collapse
collapse-IsAbsent text [] h = refl
collapse-IsAbsent text (x ∷ xs) h = rw (collapse, h.0, collapse-IsAbsent text xs h.1) refl

collapse_last :
    (text last : Text) (xs : List Text)
    → IsAbsent text xs
    → entry_body last ≡ text
    → collapse text (xs ++ (last ∷ []))
      ≡ some (xs ++ (marked text ((entry_count last + 1) % u64_mod) ∷ []))
unfolding collapse
collapse_last text last [] h k = rw (collapse, k, text_eq_refl text) refl
collapse_last text last (x ∷ xs) h k = rw (collapse, h.0, collapse_last text last xs h.1 k) refl

-- `text` after it was pushed `k` more times.
abbrev pub repeated : Text → ℕ → Text
repeated text zero = text
repeated text (suc k) = marked text (suc (suc k))

entry_body-unmarked : (text : Text) → marker_at text ≡ none → entry_body text ≡ text
unfolding entry_body
entry_body-unmarked text h = rw (entry_body, h) refl

entry_count-unmarked : (text : Text) → marker_at text ≡ none → entry_count text ≡ 1
unfolding entry_count
entry_count-unmarked text h = rw (entry_count, h) refl

entry_body-repeated :
    (text : Text) (k : ℕ) → marker_at text ≡ none → entry_body (repeated text k) ≡ text
entry_body-repeated text zero h = entry_body-unmarked text h
entry_body-repeated text (suc k) h = entry_body-marked text (suc (suc k))

entry_count-repeated :
    (text : Text) (k : ℕ)
    → marker_at text ≡ none
    → suc k < u64_mod
    → entry_count (repeated text k) ≡ suc k
entry_count-repeated text zero h b = entry_count-unmarked text h
entry_count-repeated text (suc k) h b = entry_count-marked text (suc (suc k)) b

entries-set_entries :
    (c : Category) (xs : List Text) (b : DiagnosticsBuffer) → entries c (set_entries c xs b) ≡ xs
entries-set_entries Category.js_error xs b = refl
entries-set_entries Category.failed_request xs b = refl
entries-set_entries Category.console_error xs b = refl
entries-set_entries Category.console_message xs b = refl

push_collapsed :
    (c : Category) (text : Text) (max : ℕ) (b : DiagnosticsBuffer) (xs : List Text)
    → collapse text (entries c b) ≡ some xs
    → entries c (push_text c text max b) ≡ xs
push_collapsed c text max b xs h = rw (push_text, h) (entries-set_entries c xs b)

push_appended :
    (c : Category) (text : Text) (max : ℕ) (b : DiagnosticsBuffer)
    → collapse text (entries c b) ≡ none
    → length (entries c b) < max
    → entries c (push_text c text max b) ≡ entries c b ++ (text ∷ [])
push_appended c text max b h k =
    rw (push_text, h, room) (entries-set_entries c (entries c b ++ (text ∷ [])) b)
  where
    room : leb max (length (entries c b)) ≡ false
    room = ground arith

-- The same text, pushed so many times.
unfoldable pub push_times : ℕ → Category → Text → ℕ → DiagnosticsBuffer → DiagnosticsBuffer
push_times zero c text max b = b
push_times (suc k) c text max b = push c text max (push_times k c text max b)

-- A text that after its truncation carries no marker and equals no entry, pushed k + 1 times in a
-- row, below 2^64, into a category that has room, takes one entry of it, and that entry is the text
-- for k = 0 and else the text with the marker (x k+1).
pub push-repeated :
    (c : Category) (text : Text) (max k : ℕ) (b : DiagnosticsBuffer)
    → marker_at (truncate text max_entry_chars) ≡ none
    → IsAbsent (truncate text max_entry_chars) (entries c b)
    → length (entries c b) < max
    → suc k < u64_mod
    → entries c (push_times (suc k) c text max b)
      ≡ entries c b ++ (repeated (truncate text max_entry_chars) k ∷ [])
unfolding push_times push
push-repeated c text max zero b h a r s =
    push_appended c (truncate text max_entry_chars) max b
      (collapse-IsAbsent (truncate text max_entry_chars) (entries c b) a) r
push-repeated c text max (suc k) b h a r s =
    push_collapsed c short max (push_times (suc k) c text max b) _ (
      ap (collapse short) (push-repeated c text max k b h a r (omega arith))
      ∙ (collapse_last short (repeated short k) (entries c b) a (entry_body-repeated short k h)
          ∙ ap (λ n. some (entries c b ++ (marked short n ∷ []))) counted))
  where
    short : Text
    short = truncate text max_entry_chars

    counted : (entry_count (repeated short k) + 1) % u64_mod ≡ suc (suc k)
    counted = omega (arith, entry_count-repeated short k h (omega arith))
