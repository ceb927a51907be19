-- ===== src/Common/Sorting.antt =====
-- `sorted` with a numeric key: a stable sort in ascending order, and rearrangements of a list.
use Prim.Native.Nat.{ℕ, ◌<◌}
use mathlib.Core.Path.{◌≡◌, refl, sym, ◌∙◌, ap}
use mathlib.Core.Logic.{◌≢◌, inl, inr}
use mathlib.Core.List.{List, [], ◌∷◌, map}
use native.Mathlib.Omega.{arith}
use atlas_knowledge.Common.Tests.{ltb, if◌then◌else◌, Bool-cases}
use atlas_knowledge.Common.Lists.{All}

-- One more element, anywhere in a list.
pub data Inserted {A : Type 0} (a : A) : List A → List A → Type 0 where
  here : {xs : List A} → Inserted a xs (a ∷ xs)
  further : {x : A} {xs ys : List A} → Inserted a xs ys → Inserted a (x ∷ xs) (x ∷ ys)

-- The second list has the elements of the first in any order.
pub data Shuffled {A : Type 0} : List A → List A → Type 0 where
  empty : Shuffled [] []
  one_more : {a : A} {xs ys zs : List A} → Shuffled xs ys → Inserted a ys zs → Shuffled (a ∷ xs) zs

module _ {A : Type 0} (P : A → Type 0) where
  pub All-Inserted : {a : A} {xs ys : List A} → Inserted a xs ys → P a → All P xs → All P ys
  All-Inserted here p h = (p, h)
  All-Inserted (further i) p h = (h.0, All-Inserted i p h.1)

  pub All-Shuffled : {xs ys : List A} → Shuffled xs ys → All P xs → All P ys
  All-Shuffled empty h = tt
  All-Shuffled (one_more s i) h = All-Inserted i h.0 (All-Shuffled s h.1)

module _ {A : Type 0} (key : A → ℕ) where
  unfoldable pub insert_by : A → List A → List A
  insert_by a [] = a ∷ []
  insert_by a (b ∷ bs) =
      let rest = insert_by a bs in if ltb (key b) (key a) then b ∷ rest else a ∷ b ∷ bs

  unfoldable pub sorted_by : List A → List A
  sorted_by [] = []
  sorted_by (a ∷ as') = insert_by a (sorted_by as')

  -- The keys ascend, without repetitions.
  abbrev pub Ascending : List A → Type 0
  Ascending [] = Unit
  Ascending (a ∷ as') = All (λ b. key a < key b) as' × Ascending as'

  abbrev Apart : A → A → Type 0
  Apart a b = key a ≢ key b

  insert_by_comm :
      (a b : A) (xs : List A)
      → key a ≢ key b
      → insert_by a (insert_by b xs) ≡ insert_by b (insert_by a xs)
  unfolding insert_by
  insert_by_comm a b [] n = ground arith
  insert_by_comm a b (x ∷ xs) n = ground (arith, insert_by_comm a b xs n)

  sorted_by-Inserted :
      {a : A} {xs ys : List A}
      → Inserted a xs ys
      → All (Apart a) xs
      → sorted_by ys ≡ insert_by a (sorted_by xs)
  unfolding sorted_by
  sorted_by-Inserted here h = refl
  sorted_by-Inserted {a} (further {x} {xs} {ys} i) h =
      ap (insert_by x) (sorted_by-Inserted i h.1)
      ∙ insert_by_comm x a (sorted_by xs) (λ e. h.0 (sym e))

  insert_by-first : (a : A) (xs : List A) → All (λ b. key a < key b) xs → insert_by a xs ≡ a ∷ xs
  unfolding insert_by
  insert_by-first a [] h = refl
  insert_by-first a (x ∷ xs) h = ground arith

  Apart-of_ascending : (a : A) (xs : List A) → All (λ b. key a < key b) xs → All (Apart a) xs
  Apart-of_ascending a [] h = tt
  Apart-of_ascending a (x ∷ xs) h = ((λ e. omega arith), Apart-of_ascending a xs h.1)

  -- Sorting an ascending list, rearranged, gives that list.
  pub sorted_by-Shuffled : {xs ys : List A} → Shuffled xs ys → Ascending xs → sorted_by ys ≡ xs
  unfolding sorted_by
  sorted_by-Shuffled empty h = refl
  sorted_by-Shuffled (one_more {a} {xs} {ys} {zs} s i) h =
      sorted_by-Inserted i (All-Shuffled (Apart a) s (Apart-of_ascending a xs h.0))
      ∙ ap (insert_by a) (sorted_by-Shuffled s h.1)
      ∙ insert_by-first a xs h.0

module _ {A B : Type 0} (f : A → B) (key : B → ℕ) where
  insert_by-map :
      (a : A) (xs : List A)
      → insert_by key (f a) (map f xs) ≡ map f (insert_by (λ x. key (f x)) a xs)
  unfolding insert_by
  insert_by-map a [] = refl
  insert_by-map a (x ∷ xs) = elim (Bool-cases (ltb (key (f x)) (key (f a)))) [
    | inl e ↦ rw e (ap (λ ys. f x ∷ ys) (insert_by-map a xs))
    | inr e ↦ rw e refl
  ]

  pub sorted_by-map :
      (xs : List A) → sorted_by key (map f xs) ≡ map f (sorted_by (λ x. key (f x)) xs)
  unfolding sorted_by
  sorted_by-map [] = refl
  sorted_by-map (x ∷ xs) =
      ap (insert_by key (f x)) (sorted_by-map xs) ∙ insert_by-map x (sorted_by (λ y. key (f y)) xs)
