-- ===== src/Common/BlockedTypes/Exact.antt =====
-- Which types the list of crates/common/src/browser_middleware.rs blocks.
use browser_hive_rs.Base.{
  ◌≡◌, ◌∙◌, refl, inl, inr, Bool, true, false, not, ◌&&◌, ◌||◌, List, [], ◌∷◌, ◌++◌, Option, none,
  some, any, find, is_empty, arith, Bool-cases,
}
use mathlib.Core.Option.{some-injective}
use browser_hive_rs.Base.Text.{Text, text_eq, text_eq_iff}
use browser_hive_rs.Base.Strings.{trim, to_ascii_lowercase}
use browser_hive_rs.Common.BlockedTypes.{
  TypeSupport, ResourceType, Entry, BlockedResourceType, is_listed, push, resource_types, add_entry,
  entry_named, add_name, add_names, new,
}

abbrev pub accepts : Option Entry → Bool
accepts none = false
accepts (some (label, resource_type, TypeSupport.unsupported)) = false
accepts (some (label, resource_type, TypeSupport.risky)) = true
accepts (some (label, resource_type, TypeSupport.safe)) = true

-- Whether a name of the list, spaces and case aside, is that of a type that Chrome can block.
abbrev pub names_type : Text → Text → Bool
names_type label name =
    not (is_empty (trim name))
    && (text_eq (to_ascii_lowercase (trim name)) label && accepts (entry_named label))

find-holds {ℓ} : {A : Type ℓ} (p : A → Bool) (xs : List A) (x : A) → find p xs ≡ some x → p x ≡ true
find-holds p [] x e = cc
find-holds p (y ∷ ys) x e = elim (Bool-cases (p y)) [
  | inl k ↦ let same = rw k at e in rw⁻¹ (some-injective y x same) k
  | inr k ↦ find-holds p ys x (rw k at e)
]

is_listed-append :
    (label : Text) (types more : List BlockedResourceType)
    → is_listed label (types ++ more) ≡ is_listed label types || is_listed label more
is_listed-append label [] more = refl
is_listed-append label (t ∷ types) more = ground (arith, is_listed-append label types more)

is_listed-push :
    (l label : Text) (rt : ResourceType) (types : List BlockedResourceType)
    → is_listed label (push l rt types) ≡ is_listed label types || text_eq l label
is_listed-push l label rt types = ground (
  arith,
  is_listed-append label types (record { resource_type = rt; label = l } ∷ []),
  text_eq_iff l label,
)

entry_named-label : (name : Text) (e : Entry) → entry_named name ≡ some e → text_eq e.0 name ≡ true
unfolding entry_named
entry_named-label name e found = find-holds (λ x. text_eq x.0 name) resource_types e found

is_listed-add_found :
    (label name : Text) (types : List BlockedResourceType) (o : Option Entry)
    → ((e : Entry) → o ≡ some e → text_eq e.0 name ≡ true)
    → is_listed label (add_entry o types)
      ≡ is_listed label types || (text_eq name label && accepts o)
is_listed-add_found label name types none named = ground arith
is_listed-add_found label name types (some (l, rt, TypeSupport.unsupported)) named = ground arith
is_listed-add_found label name types (some (l, rt, TypeSupport.risky)) named =
    rw⁻¹ ((text_eq_iff l name).0 (named (l, rt, TypeSupport.risky) refl))
      (is_listed-push l label rt types ∙ ground arith)
is_listed-add_found label name types (some (l, rt, TypeSupport.safe)) named =
    rw⁻¹ ((text_eq_iff l name).0 (named (l, rt, TypeSupport.safe) refl))
      (is_listed-push l label rt types ∙ ground arith)

is_listed-add_entry :
    (label name : Text) (types : List BlockedResourceType)
    → is_listed label (add_entry (entry_named name) types)
      ≡ is_listed label types || (text_eq name label && accepts (entry_named label))
is_listed-add_entry label name types =
    is_listed-add_found label name types (entry_named name) (entry_named-label name)
    ∙ elim (Bool-cases (text_eq name label)) [
      | inl e ↦ rw (e, (text_eq_iff name label).0 e) refl
      | inr e ↦ rw e refl
    ]

is_listed-add_name :
    (label name : Text) (types : List BlockedResourceType)
    → is_listed label (add_name name types) ≡ is_listed label types || names_type label name
unfolding add_name
is_listed-add_name label name types =
    ground (arith, is_listed-add_entry label (to_ascii_lowercase (trim name)) types)

is_listed-add_names :
    (label : Text) (names : List Text) (types : List BlockedResourceType)
    → is_listed label (add_names names types)
      ≡ is_listed label types || any (names_type label) names
is_listed-add_names label [] types = ground arith
is_listed-add_names label (n ∷ names) types =
    ground
      (arith, is_listed-add_name label n types, is_listed-add_names label names (add_name n types))

-- A type is blocked exactly where some name of the list is its name, spaces and case aside, and Chrome
-- can block it.
pub is_listed-new :
    (label : Text) (names : List Text) → is_listed label (new names) ≡ any (names_type label) names
unfolding new
is_listed-new label names = is_listed-add_names label names []
