-- ===== src/Common/Filtering.antt =====
-- What the elements of a filtered or shortened list have, and the parts of Boolean tests.
use mathlib.Core.Path.{subst}
use Prim.Native.Nat.{ℕ, zero, suc}
use mathlib.Core.Path.{◌≡◌, refl, sym, ap, ◌∙◌}
use mathlib.Core.Logic.{◌⊎◌, inl, inr}
use mathlib.Core.Bool.{Bool, true, false, ◌&&◌, ◌||◌}
use mathlib.Core.List.{List, [], ◌∷◌}
use atlas_knowledge.Common.Tests.{Bool-cases}
use atlas_knowledge.Common.Lists.{keep, take, All, Occurs}

module _ {A : Type 0} where
  pub Occurs-keep :
      (p : A → Bool) (a : A) (xs : List A) → Occurs a (keep p xs) → Occurs a xs × (p a ≡ true)
  Occurs-keep p a [] o = elim o [ ]
  Occurs-keep p a (x ∷ xs) o = elim (Bool-cases (p x)) [
    | inr e ↦ let (o', h) = Occurs-keep p a xs (rw e at o) in (inr o', h)
    | inl e ↦ first_or_later (Occurs-keep p a xs) (rw e at o) e
  ]
    where
      first_or_later :
          (Occurs a (keep p xs) → Occurs a xs × (p a ≡ true))
          → Occurs a (x ∷ keep p xs)
          → p x ≡ true
          → Occurs a (x ∷ xs) × (p a ≡ true)
      first_or_later ih (inl same) e = (inl same, ap p same ∙ e)
      first_or_later ih (inr later) e = let (o', h) = ih later in (inr o', h)

  pub Occurs-take : (n : ℕ) (a : A) (xs : List A) → Occurs a (take n xs) → Occurs a xs
  Occurs-take zero a xs o = elim o [ ]
  Occurs-take (suc n) a [] o = elim o [ ]
  Occurs-take (suc n) a (x ∷ xs) (inl e) = inl e
  Occurs-take (suc n) a (x ∷ xs) (inr o) = inr (Occurs-take n a xs o)

  pub All-of_Occurs : (P : A → Type 0) (xs : List A) → ((a : A) → Occurs a xs → P a) → All P xs
  All-of_Occurs P [] h = tt
  All-of_Occurs P (x ∷ xs) h = (h x (inl refl), All-of_Occurs P xs (λ a o. h a (inr o)))

  pub All-at : (P : A → Type 0) (a : A) (xs : List A) → All P xs → Occurs a xs → P a
  All-at P a [] h o = elim o [ ]
  All-at P a (x ∷ xs) h (inl e) = subst P (sym e) h.0
  All-at P a (x ∷ xs) h (inr o) = All-at P a xs h.1 o

  pub All-take : (P : A → Type 0) (n : ℕ) (xs : List A) → All P xs → All P (take n xs)
  All-take P zero xs h = tt
  All-take P (suc n) [] h = tt
  All-take P (suc n) (x ∷ xs) h = (h.0, All-take P n xs h.1)

-- The parts of a conjunction.
pub and_left : (a b : Bool) → (a && b) ≡ true → a ≡ true
and_left true b h = refl
and_left false b h = cc

pub and_right : (a b : Bool) → (a && b) ≡ true → b ≡ true
and_right true b h = h
and_right false b h = cc

pub or_cases : (a b : Bool) → (a || b) ≡ true → (a ≡ true) ⊎ (b ≡ true)
or_cases true b h = inl refl
or_cases false b h = inr h
