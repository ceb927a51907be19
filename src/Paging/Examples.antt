-- ===== src/Paging/Examples.antt =====
-- Three rows in pages of two, and the statement about following the cursors.
use atlas_knowledge.Common.{suc, ◌≡◌, refl, List, [], ◌∷◌, Option, none, some, length, Text, arith}
use atlas_knowledge.Paging.{Key, Codec, order}
use atlas_knowledge.Paging.Order.{Distinct}
use atlas_knowledge.Paging.Walk.{walk, walk-order}

abbrev pair_of : Text → Option Key
pair_of (t ∷ i ∷ []) = some (t, i)
pair_of _ = none

abbrev codec : Codec
codec = record { encode = λ k. k.0 ∷ k.1 ∷ []; decode = pair_of }

abbrev rows : List Key
rows = (1, 5) ∷ (2, 4) ∷ (2, 6) ∷ []

distinct : Distinct codec (λ k. k) rows
distinct = (
  (λ e f. omega (arith, e), (λ e f. omega (arith, e), tt)),
  ((λ e f. omega (arith, f), tt), (tt, tt)),
)

walk-order_example :
    walk codec (λ k. k) rows 2 (suc (length (order codec (λ k. k) rows))) none
    ≡ some (order codec (λ k. k) rows)
walk-order_example = walk-order codec (λ k. k) rows (λ k. refl) distinct 1
