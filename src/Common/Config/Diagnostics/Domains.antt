-- ===== src/Common/Config/Diagnostics/Domains.antt =====
-- Domain filters of crates/common/src/config.rs: a domain stands for itself and its subdomains.
use mathlib.Core.List.{append_assoc}
use browser_hive_rs.Base.{
  ℕ, zero, suc, ◌+◌, ◌-◌, ◌<◌, ◌≡◌, refl, sym, ◌∙◌, ap, subst, ◌↔◌, ◌⊎◌, inl, inr, Bool, true,
  false, ◌&&◌, [], ◌∷◌, ◌++◌, Option, none, some, arith, ltb, ltb→lt, length, get_elem?, Bool-cases,
  length-append,
}
use browser_hive_rs.Base.Text.{Text, text_eq, text_eq_iff, text_eq_refl}
use browser_hive_rs.Base.Strings.{ends_with}
use browser_hive_rs.Base.Strings.Suffix.{ends_with_iff, get_elem?-append}
use browser_hive_rs.Common.Config.Diagnostics.{host_matches, is_dot_at}

-- `host` is `domain` with more labels before it.
abbrev pub IsSubdomain : Text → Text → Type 0
IsSubdomain host domain = (q : Text) × (host ≡ q ++ (b'.' ∷ domain))

dot_at : (q domain : Text) → is_dot_at (get_elem? (q ++ (b'.' ∷ domain)) (length q)) ≡ true
dot_at q domain = rw (get_elem?-append q b'.' domain) refl

subdomain_matches : (q domain : Text) → host_matches (q ++ (b'.' ∷ domain)) domain ≡ true
unfolding host_matches
subdomain_matches q domain = elim (Bool-cases (text_eq (q ++ (b'.' ∷ domain)) domain)) [
  | inl e ↦ rw e refl
  | inr e ↦ rw (e, longer, suffix, position, dot_at q domain) refl
]
  where
    total : length (q ++ (b'.' ∷ domain)) ≡ length q + suc (length domain)
    total = length-append q (b'.' ∷ domain)

    longer : ltb (length domain) (length (q ++ (b'.' ∷ domain))) ≡ true
    longer = ground (arith, total)

    position : length (q ++ (b'.' ∷ domain)) - length domain - 1 ≡ length q
    position = omega (arith, total)

    suffix : ends_with (q ++ (b'.' ∷ domain)) domain ≡ true
    suffix =
        (ends_with_iff (q ++ (b'.' ∷ domain)) domain).1
          (q ++ (b'.' ∷ []), sym (append_assoc q (b'.' ∷ []) domain))

-- A text before `d`, taken apart at its last character.
last-split :
    (q d : Text) (n c : ℕ)
    → suc n ≡ length q
    → get_elem? (q ++ d) n ≡ some c
    → (r : Text) × (q ≡ r ++ (c ∷ []))
last-split [] d n c h k = absurd (omega (arith, h))
last-split (x ∷ []) d zero c h k = ([], cc)
last-split (x ∷ y ∷ q) d zero c h k = absurd (omega (arith, h))
last-split (x ∷ q) d (suc n) c h k =
    let (r, e) = last-split q d n c (omega (arith, h)) k in (x ∷ r, ap (λ t. x ∷ t) e)

is_dot_at-eq : (o : Option ℕ) → is_dot_at o ≡ true → o ≡ some b'.'
is_dot_at-eq none h = cc
is_dot_at-eq (some c) h = ground arith

suffix-IsSubdomain :
    (host domain : Text)
    → length domain < length host
    → ends_with host domain ≡ true
    → is_dot_at (get_elem? host (length host - length domain - 1)) ≡ true
    → IsSubdomain host domain
suffix-IsSubdomain host domain h k d =
    let (q, e) = (ends_with_iff host domain).0 k in
    let total = ap length e ∙ length-append q domain in
    let (r, f) =
      last-split q domain (length host - length domain - 1) b'.' (omega (arith, total, h)) (
        subst (λ t. get_elem? t (length host - length domain - 1) ≡ some b'.') e
          (is_dot_at-eq (get_elem? host (length host - length domain - 1)) d)) in
    (r, e ∙ (ap (λ t. t ++ domain) f ∙ append_assoc r (b'.' ∷ []) domain))

both : (a b : Bool) → (a && b) ≡ true → (a ≡ true) × (b ≡ true)
both true b h = (refl, h)
both false b h = cc

-- A host matches a configured domain exactly where it is the domain or a subdomain, a non-empty
-- prefix and a dot before the domain.
pub host_matches_iff :
    (host domain : Text)
    → (host_matches host domain ≡ true) ↔ ((host ≡ domain) ⊎ IsSubdomain host domain)
unfolding host_matches
host_matches_iff host domain = (to, from)
  where
    longer : Bool
    longer = ltb (length domain) (length host)

    dotted : Bool
    dotted = is_dot_at (get_elem? host (length host - length domain - 1))

    suffix_test : (longer && (ends_with host domain && dotted)) ≡ true → IsSubdomain host domain
    suffix_test h =
        let (l, m) = both longer (ends_with host domain && dotted) h in
        let (k, d) = both (ends_with host domain) dotted m in
        suffix-IsSubdomain host domain (ltb→lt (length domain) (length host) l) k d

    to : host_matches host domain ≡ true → (host ≡ domain) ⊎ IsSubdomain host domain
    to h = elim (Bool-cases (text_eq host domain)) [
      | inl e ↦ inl ((text_eq_iff host domain).0 e)
      | inr e ↦ inr (suffix_test (rw e at h))
    ]

    from : (host ≡ domain) ⊎ IsSubdomain host domain → host_matches host domain ≡ true
    from (inl e) = rw (e, text_eq_refl domain) refl
    from (inr (q, e)) = rw e (subdomain_matches q domain)
