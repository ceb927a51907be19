-- ===== src/Adapters/Json.antt =====
-- The Python values that `json.loads` builds, with the operations that the adapters use on them.
-- `none` is an exception. Every zero is `num 0`; other numbers that are no naturals keep their text.
use atlas_knowledge.Common.{
  ◌≡◌, refl, ℕ, Bool, true, false, not, List, [], ◌∷◌, Option, none, some, ◌==◌, if◌then◌else◌,
  is_empty, Text, text_eq,
}

mutual
  pub data Json : Type 0 where
    null : Json
    bool : Bool → Json
    num : ℕ → Json
    other_number : Text → Json
    str : Text → Json
    arr : Items → Json
    obj : Fields → Json

  pub data Items : Type 0 where
    nil : Items
    cons : Json → Items → Items

  -- The entries of a `dict`, each key once.
  pub data Fields : Type 0 where
    end : Fields
    field : Text → Json → Fields → Fields

-- Go on with the value, unless an exception was raised.
infixl 5 ◌>>=◌
abbrev pub ◌>>=◌ {ℓ κ} : {A : Type ℓ} {B : Type κ} → Option A → (A → Option B) → Option B
m >>= next = elim m [ none ↦ none | some value ↦ next value ]

-- `bool(value)`
abbrev pub is_truthy : Json → Bool
is_truthy null = false
is_truthy (bool b) = b
is_truthy (num n) = not (n == 0)
is_truthy (other_number t) = true
is_truthy (str s) = not (is_empty s)
is_truthy (arr nil) = false
is_truthy (arr (cons x xs)) = true
is_truthy (obj end) = false
is_truthy (obj (field k v fs)) = true

abbrev pub find_field : Text → Fields → Option Json
find_field key end = none
find_field key (field k v fs) =
    let rest = find_field key fs in if text_eq k key then some v else rest

-- `value[key]` with a text for the key
abbrev pub subscript : Json → Text → Option Json
subscript (obj fs) key = find_field key fs
subscript null key = none
subscript (bool b) key = none
subscript (num n) key = none
subscript (other_number t) key = none
subscript (str s) key = none
subscript (arr xs) key = none

-- `value.get(key)`
abbrev pub get : Json → Text → Option Json
get (obj fs) key = elim (find_field key fs) [ none ↦ some null | some v ↦ some v ]
get null key = none
get (bool b) key = none
get (num n) key = none
get (other_number t) key = none
get (str s) key = none
get (arr xs) key = none

-- `value[0]`
abbrev pub first : Json → Option Json
first (arr (cons x xs)) = some x
first (str (c ∷ s)) = some (str (c ∷ []))
first (arr nil) = none
first (str []) = none
first null = none
first (bool b) = none
first (num n) = none
first (other_number t) = none
first (obj fs) = none

abbrev pub characters : Text → List Json
characters [] = []
characters (c ∷ s) = str (c ∷ []) ∷ characters s

abbrev pub elements : Items → List Json
elements nil = []
elements (cons x xs) = x ∷ elements xs

abbrev pub keys : Fields → List Json
keys end = []
keys (field k v fs) = str k ∷ keys fs

-- The values that a loop over a value runs through.
abbrev pub iterate : Json → Option (List Json)
iterate (arr xs) = some (elements xs)
iterate (str s) = some (characters s)
iterate (obj fs) = some (keys fs)
iterate null = none
iterate (bool b) = none
iterate (num n) = none
iterate (other_number t) = none

-- Both steps of a chain that gave a value gave one.
pub steps_of_some {ℓ κ} :
    {A : Type ℓ} {B : Type κ} {last : B} (next : A → Option B) (m : Option A)
    → m >>= next ≡ some last
    → (value : A) × (next value ≡ some last) × (m ≡ some value)
steps_of_some next none whole = cc
steps_of_some next (some value) whole = (value, whole, refl)
