-- ===== src/Base/Strings.antt =====
-- Functions of `str` on code points: where the source cuts a text, it cuts between characters.
pub mod Decimal
pub mod Suffix
use browser_hive_rs.Base.{
  ℕ, zero, suc, ◌+◌, ◌≤◌, ◌≡◌, ◌≢◌, refl, Bool, true, false, ◌&&◌, ◌||◌, List, [], ◌∷◌, ◌++◌, map,
  Option, none, some, leb, ◌==◌, if◌then◌else◌, inl, inr, arith, length, is_empty, Option-cases,
}
use browser_hive_rs.Base.Text.{Text, text_eq}

unfoldable pub starts_with : Text → Text → Bool
starts_with s [] = true
starts_with [] (a ∷ p) = false
starts_with (c ∷ s) (a ∷ p) = (c == a) && starts_with s p

unfoldable pub contains : Text → Text → Bool
unfolding starts_with
contains [] p = starts_with [] p
contains (c ∷ s) p = starts_with (c ∷ s) p || contains s p

-- The position of the last occurrence.
unfoldable pub rfind : Text → Text → Option ℕ
unfolding starts_with
rfind [] p = if starts_with [] p then some 0 else none
rfind (c ∷ s) p = elim (rfind s p) [
  | some i ↦ some (suc i)
  | none ↦ if starts_with (c ∷ s) p then some 0 else none
]

-- The position of the first one.
unfoldable pub find : Text → Text → Option ℕ
unfolding starts_with
find [] p = if starts_with [] p then some 0 else none
find (c ∷ s) p = if starts_with (c ∷ s) p then some 0 else add_one (find s p)
  where
    add_one : Option ℕ → Option ℕ
    add_one none = none
    add_one (some i) = some (suc i)

module _ {ℓ} {A : Type ℓ} where
  -- `&s[..n]` and `Iterator::take`.
  abbrev pub take : ℕ → List A → List A
  take zero s = []
  take (suc n) [] = []
  take (suc n) (c ∷ s) = c ∷ take n s

  -- `&s[n..]`.
  abbrev pub drop : ℕ → List A → List A
  drop zero s = s
  drop (suc n) [] = []
  drop (suc n) (c ∷ s) = drop n s

-- `char::is_whitespace`: the characters with the property White_Space.
unfoldable pub is_whitespace : ℕ → Bool
is_whitespace c =
    (leb 9 c && leb c 13)
    || (c == 0x20
        || (c == 0x85
            || (c == 0xA0
                || (c == 0x1680
                    || ((leb 0x2000 c && leb c 0x200A)
                        || (c == 0x2028
                            || (c == 0x2029 || (c == 0x202F || (c == 0x205F || c == 0x3000)))))))))

unfoldable pub trim_start_matches : (ℕ → Bool) → Text → Text
trim_start_matches p [] = []
trim_start_matches p (c ∷ s) = if p c then trim_start_matches p s else c ∷ s

abbrev push_unless : Bool → ℕ → Text → Text
push_unless true c [] = []
push_unless false c [] = c ∷ []
push_unless _ c (d ∷ s) = c ∷ d ∷ s

unfoldable pub trim_end_matches : (ℕ → Bool) → Text → Text
trim_end_matches p [] = []
trim_end_matches p (c ∷ s) = push_unless (p c) c (trim_end_matches p s)

unfoldable pub trim : Text → Text
unfolding trim_start_matches trim_end_matches is_whitespace
trim s = trim_end_matches is_whitespace (trim_start_matches is_whitespace s)

abbrev on_first : ℕ → List Text → List Text
on_first c [] = (c ∷ []) ∷ []
on_first c (w ∷ ws) = (c ∷ w) ∷ ws

-- `split` at a character test: one part more than there are separators.
unfoldable pub split : (ℕ → Bool) → Text → List Text
split p [] = [] ∷ []
split p (c ∷ s) = let rest = split p s in if p c then [] ∷ rest else on_first c rest

to_ascii_lower : ℕ → ℕ
to_ascii_lower c = if leb b'A' c && leb c b'Z' then c + 32 else c

unfoldable pub to_ascii_lowercase : Text → Text
unfolding to_ascii_lower
to_ascii_lowercase = map to_ascii_lower

unfoldable pub ends_with : Text → Text → Bool
unfolding starts_with
ends_with [] p = starts_with [] p && is_empty p
ends_with (c ∷ s) p = text_eq (c ∷ s) p || ends_with s p

unfoldable pub strip_prefix : Text → Text → Option Text
strip_prefix s [] = some s
strip_prefix [] (a ∷ p) = none
strip_prefix (c ∷ s) (a ∷ p) = if c == a then strip_prefix s p else none

unfoldable strip_all : ℕ → Text → Text → Text
strip_all zero s p = s
strip_all (suc f) s p = elim (strip_prefix s p) [ some r ↦ strip_all f r p | none ↦ s ]

-- `trim_start_matches` of a text: as long as the text starts with `p`, `p` goes.
unfoldable pub trim_start_text : Text → Text → Text
unfolding strip_all
trim_start_text s p = strip_all (length s) s p

length-strip_prefix : (s p r : Text) → strip_prefix s p ≡ some r → length r + length p ≡ length s
unfolding strip_prefix
length-strip_prefix s [] r h = ground arith
length-strip_prefix [] (a ∷ p) r h = cc
length-strip_prefix (c ∷ s) (a ∷ p) r h = ground (arith, length-strip_prefix s p r)

empty-strip_prefix : (a : ℕ) (p : Text) → strip_prefix [] (a ∷ p) ≡ none
unfolding strip_prefix
empty-strip_prefix a p = refl

strip_all-done :
    (f : ℕ) (s p : Text) → length s ≤ f → p ≢ [] → strip_prefix (strip_all f s p) p ≡ none
unfolding strip_all
strip_all-done f s [] h k = absurd (k refl)
strip_all-done zero [] (a ∷ p) h k = empty-strip_prefix a p
strip_all-done zero (c ∷ s) (a ∷ p) h k = absurd (omega arith)
strip_all-done (suc f) s (a ∷ p) h k = elim (Option-cases (strip_prefix s (a ∷ p))) [
  | inl e ↦ rw (strip_all, e) e
  | inr (r, e) ↦
      rw (strip_all, e)
        (strip_all-done f r (a ∷ p) (omega (arith, length-strip_prefix s (a ∷ p) r e)) k)
]

-- The length of the text is fuel enough: what is left does not start with `p`.
pub trim_start_text-done : (s p : Text) → p ≢ [] → strip_prefix (trim_start_text s p) p ≡ none
unfolding trim_start_text
trim_start_text-done s p k = strip_all-done (length s) s p (omega arith) k

-- `[_]::join`
unfoldable pub join : Text → List Text → Text
join sep [] = []
join sep (x ∷ []) = x
join sep (x ∷ y ∷ xs) = x ++ (sep ++ join sep (y ∷ xs))
