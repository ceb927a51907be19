-- ===== src/Retrieval/Index/Fusion.antt =====
-- The order of the fusion: the best rows by their reciprocal ranks.
use atlas_knowledge.Common.{ℕ, ◌*◌, List, [], ◌∷◌, ◌≤◌}
use atlas_knowledge.Ingestion.World.{World}
use atlas_knowledge.Retrieval.Index.{Fraction}

-- No row has a greater fraction than the one before it.
abbrev IsFirst : ℕ × Fraction → List (ℕ × Fraction) → Type 0
IsFirst a [] = Unit
IsFirst a (b ∷ bs) = b.1.0 * a.1.1 ≤ a.1.0 * b.1.1

abbrev pub IsDescending : List (ℕ × Fraction) → Type 0
IsDescending [] = Unit
IsDescending (a ∷ as') = IsFirst a as' × IsDescending as'
