-- ===== src/Worker/Diagnostics.antt =====
-- crates/worker/src/diagnostics.rs: what one request recorded, and whether it is logged.
pub mod Repeats
pub mod Accounting
pub mod Limiter
pub mod Session
use browser_hive_rs.Base.{
  ℕ, ◌+◌, ◌-◌, ◌%◌, ◌^◌, Bool, true, false, ◌&&◌, ◌||◌, List, [], ◌∷◌, ◌++◌, Option, none, some,
  leb, ◌==◌, if◌then◌else◌, length, unwrap_or, u64_mod,
}
use browser_hive_rs.Base.Text.{Text, codes, text_eq}
use browser_hive_rs.Base.Map.{Map}
use browser_hive_rs.Base.Strings.{trim, take, drop, rfind, ends_with}
use browser_hive_rs.Base.Strings.Decimal.{show, parse}

abbrev pub max_entry_chars : ℕ
max_entry_chars = 500

abbrev pub max_tracked_requests : ℕ
max_tracked_requests = 512

-- `activity`, which another file models, is left out.
pub record DiagnosticsBuffer : Type 0 where
  pub js_errors : List Text
  pub failed_requests : List Text
  pub console_errors : List Text
  pub console_messages : List Text
  pub dropped : ℕ
  pub request_urls : Map Text
  pub page_state : Option Text
  pub headless_markers : Option Text

pub data Category : Type 0 where
  js_error failed_request console_error console_message : Category

abbrev pub entries : Category → DiagnosticsBuffer → List Text
entries Category.js_error b = b.js_errors
entries Category.failed_request b = b.failed_requests
entries Category.console_error b = b.console_errors
entries Category.console_message b = b.console_messages

abbrev pub set_entries : Category → List Text → DiagnosticsBuffer → DiagnosticsBuffer
set_entries Category.js_error xs b = record b { js_errors = xs }
set_entries Category.failed_request xs b = record b { failed_requests = xs }
set_entries Category.console_error xs b = record b { console_errors = xs }
set_entries Category.console_message xs b = record b { console_messages = xs }

abbrev pub marker_open : Text
marker_open = codes " (x"

-- Where a repetition marker starts: the last " (x" of an entry that ends with a parenthesis.
unfoldable pub marker_at : Text → Option ℕ
marker_at entry = elim (rfind entry marker_open) [
  | none ↦ none
  | some i ↦ if ends_with entry (codes ")") then some i else none
]

unfoldable pub entry_body : Text → Text
entry_body entry = elim (marker_at entry) [ some i ↦ take i entry | none ↦ entry ]

unfoldable pub entry_count : Text → ℕ
entry_count entry = elim (marker_at entry) [
  | none ↦ 1
  | some i ↦ unwrap_or (parse u64_mod (take (length entry - 1 - (i + 3)) (drop (i + 3) entry))) 1
]

-- `format!("{} (x{})", text, count)`.
abbrev pub marked : Text → ℕ → Text
marked text count = text ++ (marker_open ++ (show count ++ codes ")"))

unfoldable pub truncate : Text → ℕ → Text
truncate text max_chars =
    let text = trim text in
    if leb (length text) max_chars then text else take max_chars text ++ codes "…[truncated]"

-- The first entry whose body is `text`, counted once more.
unfoldable pub collapse : Text → List Text → Option (List Text)
collapse text [] = none
collapse text (existing ∷ rest) =
    if text_eq (entry_body existing) text
    then some (marked text ((entry_count existing + 1) % u64_mod) ∷ rest)
    else elim (collapse text rest) [ none ↦ none | some xs ↦ some (existing ∷ xs) ]

abbrev pub push_text : Category → Text → ℕ → DiagnosticsBuffer → DiagnosticsBuffer
push_text category text max_entries b = elim (collapse text (entries category b)) [
  | some xs ↦ set_entries category xs b
  | none ↦
      if leb max_entries (length (entries category b))
      then record b { dropped = (b.dropped + 1) % u64_mod }
      else set_entries category (entries category b ++ (text ∷ [])) b
]

unfoldable pub push : Category → Text → ℕ → DiagnosticsBuffer → DiagnosticsBuffer
push category text max_entries b = push_text category (truncate text max_entry_chars) max_entries b

unfoldable pub total_entries : DiagnosticsBuffer → ℕ
total_entries b =
    length b.js_errors
    + length b.failed_requests
    + length b.console_errors
    + length b.console_messages

abbrev pub empty : DiagnosticsBuffer
empty = record {
  js_errors = [];
  failed_requests = [];
  console_errors = [];
  console_messages = [];
  dropped = 0;
  request_urls = [];
  page_state = none;
  headless_markers = none;
}
