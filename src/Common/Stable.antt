-- ===== src/Common/Stable.antt =====
-- The stable sort and filters.
use Prim.Native.Nat.{ℕ, ◌≤◌}
use mathlib.Core.Path.{◌≡◌, refl, sym, ◌∙◌, ap}
use mathlib.Core.Logic.{inl, inr}
use mathlib.Core.Bool.{Bool, true, false}
use mathlib.Core.List.{List, [], ◌∷◌}
use native.Mathlib.Omega.{arith}
use atlas_knowledge.Common.Tests.{ltb, ltb→lt, ltb-false→le, Bool-cases}
use atlas_knowledge.Common.Lists.{All, keep}
use atlas_knowledge.Common.Sorting.{insert_by, sorted_by}

module _ {A : Type 0} (P : A → Type 0) (p : A → Bool) where
  All-keep : (xs : List A) → All P xs → All P (keep p xs)
  All-keep [] h = tt
  All-keep (x ∷ xs) h = elim (Bool-cases (p x)) [
    | inl e ↦ rw e (h.0, All-keep xs h.1)
    | inr e ↦ rw e (All-keep xs h.1)
  ]

module _ {A : Type 0} (key : A → ℕ) where
  abbrev AtMost : A → A → Type 0
  AtMost a b = key a ≤ key b

  -- The keys do not fall.
  abbrev IsRising : List A → Type 0
  IsRising [] = Unit
  IsRising (a ∷ as') = All (AtMost a) as' × IsRising as'

  AtMost-All : (a x : A) (xs : List A) → key a ≤ key x → All (AtMost x) xs → All (AtMost a) xs
  AtMost-All a x [] h k = tt
  AtMost-All a x (y ∷ ys) h k = (omega (arith, k.0), AtMost-All a x ys h k.1)

  insert_by-first : (a : A) (xs : List A) → All (AtMost a) xs → insert_by key a xs ≡ a ∷ xs
  unfolding insert_by
  insert_by-first a [] h = refl
  insert_by-first a (x ∷ xs) h = ground arith

  insert_by-All :
      (P : A → Type 0) (a : A) (xs : List A) → P a → All P xs → All P (insert_by key a xs)
  unfolding insert_by
  insert_by-All P a [] p h = (p, tt)
  insert_by-All P a (x ∷ xs) p h = elim (Bool-cases (ltb (key x) (key a))) [
    | inl e ↦ rw e (h.0, insert_by-All P a xs p h.1)
    | inr e ↦ rw e (p, h)
  ]

  insert_by-IsRising : (a : A) (xs : List A) → IsRising xs → IsRising (insert_by key a xs)
  unfolding insert_by
  insert_by-IsRising a [] h = (tt, tt)
  insert_by-IsRising a (x ∷ xs) h = elim (Bool-cases (ltb (key x) (key a))) [
    | inl e ↦ rw e (
      insert_by-All (AtMost x) a xs (omega (arith, ltb→lt (key x) (key a) e)) h.0,
      insert_by-IsRising a xs h.1,
    )
    | inr e ↦ rw e (
      (ltb-false→le (key x) (key a) e, AtMost-All a x xs (ltb-false→le (key x) (key a) e) h.0),
      h,
    )
  ]

  sorted_by-IsRising : (xs : List A) → IsRising (sorted_by key xs)
  unfolding sorted_by
  sorted_by-IsRising [] = tt
  sorted_by-IsRising (x ∷ xs) = insert_by-IsRising x (sorted_by key xs) (sorted_by-IsRising xs)

  module _ (p : A → Bool) where
    keep-insert_by_drop :
        (a : A) (xs : List A) → p a ≡ false → keep p (insert_by key a xs) ≡ keep p xs
    unfolding insert_by
    keep-insert_by_drop a [] h = rw h refl
    keep-insert_by_drop a (x ∷ xs) h = elim (Bool-cases (ltb (key x) (key a))) [
      | inr e ↦ rw (e, h) refl
      | inl e ↦ elim (Bool-cases (p x)) [
        | inl f ↦ rw (e, f) (ap (λ ys. x ∷ ys) (keep-insert_by_drop a xs h))
        | inr f ↦ rw (e, f) (keep-insert_by_drop a xs h)
      ]
    ]

    keep-insert_by :
        (a : A) (xs : List A)
        → p a ≡ true
        → IsRising xs
        → keep p (insert_by key a xs) ≡ insert_by key a (keep p xs)
    unfolding insert_by
    keep-insert_by a [] h r = rw h refl
    keep-insert_by a (x ∷ xs) h r = elim (Bool-cases (ltb (key x) (key a))) [
      | inr e ↦
          let le = ltb-false→le (key x) (key a) e in
          rw (e, h)
            (sym (
              insert_by-first a (keep p (x ∷ xs))
                (All-keep (AtMost a) p (x ∷ xs) (le, AtMost-All a x xs le r.0))))
      | inl e ↦ elim (Bool-cases (p x)) [
        | inl f ↦ rw (e, f) (rw e (ap (λ ys. x ∷ ys) (keep-insert_by a xs h r.1)))
        | inr f ↦ rw (e, f) (keep-insert_by a xs h r.1)
      ]
    ]

    -- Sorting and filtering commute.
    pub keep-sorted_by : (xs : List A) → keep p (sorted_by key xs) ≡ sorted_by key (keep p xs)
    unfolding sorted_by
    keep-sorted_by [] = refl
    keep-sorted_by (x ∷ xs) = elim (Bool-cases (p x)) [
      | inl e ↦ rw e (
          keep-insert_by x (sorted_by key xs) e (sorted_by-IsRising xs)
          ∙ ap (insert_by key x) (keep-sorted_by xs))
      | inr e ↦ rw e (keep-insert_by_drop x (sorted_by key xs) e ∙ keep-sorted_by xs)
    ]

  -- A list of one key is sorted.
  pub sorted_by_same : (n : ℕ) (xs : List A) → All (λ x. key x ≡ n) xs → sorted_by key xs ≡ xs
  unfolding sorted_by
  sorted_by_same n [] h = refl
  sorted_by_same n (x ∷ xs) h =
      ap (insert_by key x) (sorted_by_same n xs h.1) ∙ insert_by-first x xs (level xs h.1)
    where
      level : (ys : List A) → All (λ y. key y ≡ n) ys → All (AtMost x) ys
      level [] k = tt
      level (y ∷ ys) k = (omega (arith, h.0, k.0), level ys k.1)
