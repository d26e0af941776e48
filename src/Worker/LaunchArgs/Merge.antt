-- ===== src/Worker/LaunchArgs/Merge.antt =====
-- The merged list of crates/worker/src/launch_args.rs: what it holds, and how often.
use browser_hive_rs.Base.{
  ◌≡◌, refl, ◌∙◌, sym, ap, inl, inr, Bool, true, false, ◌||◌, List, [], ◌∷◌, ◌++◌, arith,
  Bool-cases,
}
use browser_hive_rs.Base.Text.{Text, text_eq, text_eq_iff}
use browser_hive_rs.Worker.LaunchArgs.{knows, add, add_all}

knows-append : (f : Text) (xs ys : List Text) → knows f (xs ++ ys) ≡ (knows f xs || knows f ys)
knows-append f [] ys = refl
knows-append f (x ∷ xs) ys = ground (arith, knows-append f xs ys)

knows-add : (f g : Text) (xs : List Text) → knows f (add xs g) ≡ (knows f xs || text_eq g f)
knows-add f g xs = elim (Bool-cases (knows g xs)) [
  | inr e ↦ rw e (knows-append f xs (g ∷ []) ∙ ap (λ b. knows f xs || b) (or_false (text_eq g f)))
  | inl e ↦ elim (Bool-cases (text_eq g f)) [
    | inr k ↦ rw (e, k) (sym (or_false (knows f xs)))
    | inl k ↦
        rw (e, k)
          (sym (ap (λ t. knows t xs) ((text_eq_iff g f).0 k)) ∙ e ∙ sym (or_true (knows f xs)))
  ]
]
  where
    or_false : (b : Bool) → (b || false) ≡ b
    or_false b = ground arith

    or_true : (b : Bool) → (b || true) ≡ true
    or_true b = ground arith

-- A feature is in the merged list exactly where one of the two has it.
pub knows-add_all :
    (f : Text) (xs gs : List Text) → knows f (add_all xs gs) ≡ (knows f xs || knows f gs)
unfolding add_all
knows-add_all f xs [] = ground arith
knows-add_all f xs (g ∷ gs) = ground (arith, knows-add_all f (add xs g) gs, knows-add f g xs)

-- No feature stands in the list twice.
pub IsUnique : List Text → Type 0
IsUnique [] = Unit
IsUnique (x ∷ xs) = (knows x xs ≡ false) × IsUnique xs

append-IsUnique :
    (xs : List Text) (g : Text) → knows g xs ≡ false → IsUnique xs → IsUnique (xs ++ (g ∷ []))
unfolding IsUnique
append-IsUnique [] g h u = (refl, tt)
append-IsUnique (x ∷ xs) g h (k, u) =
    let (a, b) = neither (text_eq x g) (knows g xs) h in
    (knows-append x xs (g ∷ []) ∙ rw (k, flipped x g a) refl, append-IsUnique xs g b u)
  where
    neither : (a b : Bool) → (a || b) ≡ false → (a ≡ false) × (b ≡ false)
    neither true b h = cc
    neither false b h = (refl, h)

    flipped : (x g : Text) → text_eq x g ≡ false → text_eq g x ≡ false
    flipped x g h = elim (Bool-cases (text_eq g x)) [
      | inr e ↦ e
      | inl e ↦ cc (h, (text_eq_iff x g).1 (sym ((text_eq_iff g x).0 e)))
    ]

add-IsUnique : (xs : List Text) (g : Text) → IsUnique xs → IsUnique (add xs g)
add-IsUnique xs g u = elim (Bool-cases (knows g xs)) [
  | inl e ↦ rw e u
  | inr e ↦ rw e (append-IsUnique xs g e u)
]

pub add_all-IsUnique : (xs gs : List Text) → IsUnique xs → IsUnique (add_all xs gs)
unfolding add_all
add_all-IsUnique xs [] u = u
add_all-IsUnique xs (g ∷ gs) u = add_all-IsUnique (add xs g) gs (add-IsUnique xs g u)
