-- ===== src/Common/Lists.antt =====
-- Lists measured by native numbers, and a predicate on all elements.
use Prim.Native.Nat.{ℕ, zero, suc, ◌+◌, ◌-◌, ◌≤◌, min}
use mathlib.Core.Path.{◌≡◌, refl, subst}
use mathlib.Core.Logic.{◌⊎◌, inl, inr}
use mathlib.Core.Bool.{Bool, true, false, ◌||◌}
use mathlib.Core.List.{List, [], ◌∷◌, ◌++◌}
use mathlib.Core.Option.{Option, none, some}
use native.Mathlib.Omega.{arith}
use atlas_knowledge.Common.Tests.{if◌then◌else◌, Bool-cases}

module _ {ℓ} {A : Type ℓ} where
  abbrev pub length : List A → ℕ
  length [] = 0
  length (x ∷ xs) = suc (length xs)

  abbrev pub take : ℕ → List A → List A
  take zero xs = []
  take (suc n) [] = []
  take (suc n) (x ∷ xs) = x ∷ take n xs

  abbrev pub drop : ℕ → List A → List A
  drop zero xs = xs
  drop (suc n) [] = []
  drop (suc n) (x ∷ xs) = drop n xs

  -- `not xs` of the source
  abbrev pub is_empty : List A → Bool
  is_empty [] = true
  is_empty (x ∷ xs) = false

  abbrev pub get_elem? : List A → ℕ → Option A
  get_elem? [] i = none
  get_elem? (x ∷ xs) zero = some x
  get_elem? (x ∷ xs) (suc i) = get_elem? xs i

  abbrev pub any : (A → Bool) → List A → Bool
  any p [] = false
  any p (x ∷ xs) = p x || any p xs

  -- The elements that pass a test, in order.
  abbrev pub keep : (A → Bool) → List A → List A
  keep p [] = []
  keep p (x ∷ xs) = let rest = keep p xs in if p x then x ∷ rest else rest

  -- `next((x for x in xs if p(x)), None)`, and `scalar_one_or_none` where one row at most fits
  abbrev pub find_first : (A → Bool) → List A → Option A
  find_first p [] = none
  find_first p (x ∷ xs) = let rest = find_first p xs in if p x then some x else rest

  pub length-append : (xs ys : List A) → length (xs ++ ys) ≡ length xs + length ys
  length-append [] ys = omega arith
  length-append (x ∷ xs) ys = omega (arith, length-append xs ys)

module _ {ℓ} {A : Type ℓ} where
  pub take-append-drop : (n : ℕ) (xs : List A) → take n xs ++ drop n xs ≡ xs
  take-append-drop zero xs = refl
  take-append-drop (suc n) [] = refl
  take-append-drop (suc n) (x ∷ xs) = rw (take-append-drop n xs)

  pub length-take : (n : ℕ) (xs : List A) → length (take n xs) ≡ min n (length xs)
  length-take zero xs = omega arith
  length-take (suc n) [] = omega arith
  length-take (suc n) (x ∷ xs) = omega (arith, length-take n xs)

  pub length-drop : (n : ℕ) (xs : List A) → length (drop n xs) ≡ length xs - n
  length-drop zero xs = omega arith
  length-drop (suc n) [] = omega arith
  length-drop (suc n) (x ∷ xs) = omega (arith, length-drop n xs)

  pub length-keep-le : (p : A → Bool) (xs : List A) → length (keep p xs) ≤ length xs
  length-keep-le p [] = omega arith
  length-keep-le p (x ∷ xs) = ground (arith, length-keep-le p xs)

module _ {ℓ κ} {A : Type ℓ} (P : A → Type κ) where
  abbrev pub All : List A → Type κ
  All [] = Unit
  All (x ∷ xs) = P x × All xs

  pub All-append : (xs ys : List A) → All xs → All ys → All (xs ++ ys)
  All-append [] ys h k = k
  All-append (x ∷ xs) ys (p, h) k = (p, All-append xs ys h k)

  pub All-concat : (xs : List A) {x : A} → All xs → P x → All (xs ++ x ∷ [])
  All-concat xs h p = All-append xs (_ ∷ []) h (p, tt)

module _ {ℓ κ ι} {A : Type ℓ} (P : A → Type κ) (Q : A → Type ι) (f : (a : A) → P a → Q a) where
  pub All-map : (xs : List A) → All P xs → All Q xs
  All-map [] h = tt
  All-map (x ∷ xs) (p, h) = (f x p, All-map xs h)

-- Membership by recursion, which the tactics read.
module _ {A : Type 0} where
  abbrev pub Occurs : A → List A → Type 0
  Occurs a [] = ⊥
  Occurs a (x ∷ xs) = (a ≡ x) ⊎ Occurs a xs

  pub Occurs-append_left : (a : A) (xs ys : List A) → Occurs a xs → Occurs a (xs ++ ys)
  Occurs-append_left a [] ys h = elim h [ ]
  Occurs-append_left a (x ∷ xs) ys (inl e) = inl e
  Occurs-append_left a (x ∷ xs) ys (inr h) = inr (Occurs-append_left a xs ys h)

  pub Occurs-append_right : (a : A) (xs ys : List A) → Occurs a ys → Occurs a (xs ++ ys)
  Occurs-append_right a [] ys h = h
  Occurs-append_right a (x ∷ xs) ys h = inr (Occurs-append_right a xs ys h)

  pub Occurs-concat : (a : A) (xs : List A) → Occurs a (xs ++ a ∷ [])
  Occurs-concat a xs = Occurs-append_right a xs (a ∷ []) (inl refl)

module _ {ℓ} {A : Type ℓ} (p : A → Bool) where
  pub find_first-append_none :
      (xs ys : List A) → find_first p xs ≡ none → find_first p (xs ++ ys) ≡ find_first p ys
  find_first-append_none [] ys h = refl
  find_first-append_none (x ∷ xs) ys h = elim (Bool-cases (p x)) [
    | inl e ↦ cc
    | inr e ↦ rw e (find_first-append_none xs ys (rw e at h))
  ]

  pub find_first-append_some :
      (xs ys : List A) {x : A} → find_first p xs ≡ some x → find_first p (xs ++ ys) ≡ some x
  find_first-append_some [] ys h = cc
  find_first-append_some (y ∷ xs) ys h = elim (Bool-cases (p y)) [
    | inl e ↦ rw e (rw e at h)
    | inr e ↦ rw e (find_first-append_some xs ys (rw e at h))
  ]

  -- What is found passes the test.
  pub find_first_passes : (xs : List A) {x : A} → find_first p xs ≡ some x → p x ≡ true
  find_first_passes [] h = cc
  find_first_passes (y ∷ xs) {x} h = elim (Bool-cases (p y)) [
    | inl e ↦
        let found : some y ≡ some x = rw e at h in
        let same : y ≡ x = cc found in subst (λ a. p a ≡ true) same e
    | inr e ↦ find_first_passes xs (rw e at h)
  ]

  pub find_none_of_any : (xs : List A) → any p xs ≡ false → find_first p xs ≡ none
  find_none_of_any [] h = refl
  find_none_of_any (y ∷ xs) h = elim (Bool-cases (p y)) [
    | inl e ↦ let bad : true ≡ false = rw e at h in cc bad
    | inr e ↦ rw e (find_none_of_any xs (rw e at h))
  ]

  pub any_of_find_some : (xs : List A) {x : A} → find_first p xs ≡ some x → any p xs ≡ true
  any_of_find_some [] h = cc
  any_of_find_some (y ∷ xs) {x} h = elim (Bool-cases (p y)) [
    | inl e ↦ rw e refl
    | inr e ↦ rw e (any_of_find_some xs (rw e at h))
  ]

  pub any_of_find_none : (xs : List A) → find_first p xs ≡ none → any p xs ≡ false
  any_of_find_none [] h = refl
  any_of_find_none (y ∷ xs) h = elim (Bool-cases (p y)) [
    | inl e ↦ cc
    | inr e ↦ rw e (any_of_find_none xs (rw e at h))
  ]
