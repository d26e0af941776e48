-- ===== src/Base/Strings/Decimal.antt =====
-- `Display` and `FromStr` of the unsigned integers.
use browser_hive_rs.Base.{
  ℤ, pos, negsuc, ℕ, zero, suc, ◌+◌, ◌-◌, ◌*◌, ◌/◌, ◌%◌, ◌^◌, ◌≤◌, ◌<◌, ◌≡◌, refl, ◌||◌, [], ◌∷◌,
  Option, none, some, arith, ltb, leb, ◌==◌, if◌then◌else◌, is_empty, Bool-cases, inl, inr, All,
  true,
}
use browser_hive_rs.Base.Text.{Text}

-- The digits of `n` before `out`; the fuel is the number of digits at most.
emit : ℕ → ℕ → Text → Text
emit zero n out = out
emit (suc f) n out =
    let more = emit f (n / 10) ((b'0' + n % 10) ∷ out) in
    if ltb n 10 then (b'0' + n) ∷ out else more

-- 2^64 has twenty digits.
unfoldable pub show : ℕ → Text
unfolding emit
show n = emit 20 n []

scan : ℕ → Text → ℕ → Option ℕ
scan bound [] n = some n
scan bound (c ∷ s) n =
    if ltb c b'0' || ltb b'9' c
    then none
    else (if leb bound (n * 10 + (c - b'0')) then none else scan bound s (n * 10 + (c - b'0')))

-- `parse` of an unsigned integer below `bound`, which takes a sign `+`.
unfoldable pub parse : ℕ → Text → Option ℕ
unfolding scan
parse bound [] = none
parse bound (c ∷ s) =
    if c == b'+' then (if is_empty s then none else scan bound s 0) else scan bound (c ∷ s) 0

-- `n` has at most `f` digits.
abbrev Fits : ℕ → ℕ → Type 0
Fits f n = n < 10 ^ f

scan_digit :
    (bound n d : ℕ) (out : Text)
    → d < 10
    → n * 10 + d < bound
    → scan bound ((b'0' + d) ∷ out) n ≡ scan bound out (n * 10 + d)
unfolding scan
scan_digit bound n d out h k = ground arith

scan-emit :
    (bound f n : ℕ) (out : Text)
    → Fits f n
    → n < bound
    → scan bound (emit f n out) 0 ≡ scan bound out n
unfolding emit
scan-emit bound zero n out h k = ground arith
scan-emit bound (suc f) n out h k = ground (
  arith,
  scan_digit bound 0 n out,
  scan_digit bound (n / 10) (n % 10) out,
  scan-emit bound f (n / 10) ((b'0' + n % 10) ∷ out),
)

-- A digit or a later character comes first, so no sign.
abbrev NoSign : Text → Type 0
NoSign [] = ⊥
NoSign (c ∷ s) = b'0' ≤ c

emit-NoSign : (f n : ℕ) (out : Text) → Fits (suc f) n → NoSign (emit (suc f) n out)
unfolding emit
emit-NoSign zero n out h = ground arith
emit-NoSign (suc f) n out h = elim (Bool-cases (ltb n 10)) [
  | inl e ↦ rw e (omega arith)
  | inr e ↦ rw e (emit-NoSign f (n / 10) ((b'0' + n % 10) ∷ out) (omega arith))
]

parse-scan : (bound : ℕ) (t : Text) → NoSign t → parse bound t ≡ scan bound t 0
unfolding parse
parse-scan bound [] h = absurd h
parse-scan bound (c ∷ s) h = ground arith

-- A number below the type's bound is read back from its print.
pub parse-show : (bound n : ℕ) → n < bound → n < 2 ^ 64 → parse bound (show n) ≡ some n
unfolding show scan
parse-show bound n h k =
    rw
      (
        parse-scan bound (emit 20 n []) (emit-NoSign 19 n [] (omega arith)),
        scan-emit bound 20 n [] (omega arith) h,
      )
      refl

negated : Option ℕ → Option ℤ
negated none = none
negated (some zero) = some (pos 0)
negated (some (suc n)) = some (negsuc n)

positive : Option ℕ → Option ℤ
positive none = none
positive (some n) = some (pos n)

-- `parse` of an `i32`.
unfoldable pub parse_i32 : Text → Option ℤ
unfolding parse scan negated positive
parse_i32 [] = none
parse_i32 (c ∷ s) =
    if c == b'-'
    then (if is_empty s then none else negated (scan (2 ^ 31 + 1) s 0))
    else positive (parse (2 ^ 31) (c ∷ s))

emit-IsDigits :
    (f n : ℕ) (out : Text)
    → All (λ c. leb b'0' c ≡ true) out
    → All (λ c. leb b'0' c ≡ true) (emit f n out)
unfolding emit
emit-IsDigits zero n out h = h
emit-IsDigits (suc f) n out h = elim (Bool-cases (ltb n 10)) [
  | inl e ↦ rw e (ground arith, h)
  | inr e ↦ rw e (emit-IsDigits f (n / 10) ((b'0' + n % 10) ∷ out) (ground arith, h))
]

-- No character of a print is below the digits.
pub show-IsDigits : (n : ℕ) → All (λ c. leb b'0' c ≡ true) (show n)
unfolding show
show-IsDigits n = emit-IsDigits 20 n [] tt
