-- ===== src/Chat/Prompts/Budget.antt =====
-- Which chunks the prompt takes.
use mathlib.Core.Path.{subst}
use atlas_knowledge.Common.{
  ℕ, suc, ◌+◌, ◌-◌, ◌≤◌, ◌<◌, ◌≡◌, refl, ap, inl, inr, List, [], ◌∷◌, ◌++◌, ltb, Bool-cases, ltb→lt,
  ltb-false→le, arith, length, total_length, Text, codes,
}
use atlas_knowledge.Chat.Rows.{RetrievedChunk, enumerated}
use atlas_knowledge.Chat.Prompts.{
  fill, render_block, rag_system_prompt, context_of, rag_instruction,
}

-- The block of a chunk at its rank.
abbrev pub block_at : ℕ → RetrievedChunk → Text
block_at rank c = render_block c rank

-- The chunk that ends the loop does not fit.
abbrev pub Overflows : ℕ → ℕ → List RetrievedChunk → Type 0
Overflows room rank [] = Unit
Overflows room rank (c ∷ cs) = room < length (render_block c rank)

-- What `fill` takes, described without its loop.
abbrev pub IsFilled : ℕ → ℕ → List RetrievedChunk → List Text × List RetrievedChunk → Type 0
IsFilled room rank chunks r =
    (r.0 ≡ enumerated block_at rank r.1)
    × (total_length r.0 ≤ room)
    × ((rest : List RetrievedChunk) × (chunks ≡ r.1 ++ rest)
        × Overflows (room - total_length r.0) (rank + length r.1) rest)

Overflows-cong :
    (a b i j : ℕ) (rest : List RetrievedChunk)
    → a ≡ b
    → i ≡ j
    → Overflows a i rest
    → Overflows b j rest
Overflows-cong a b i j rest e f h =
    subst (λ x. Overflows x j rest) e (subst (λ y. Overflows a y rest) f h)

IsFilled-step :
    (room rank : ℕ) (c : RetrievedChunk) (cs : List RetrievedChunk)
    (r : List Text × List RetrievedChunk)
    → length (render_block c rank) ≤ room
    → IsFilled (room - length (render_block c rank)) (suc rank) cs r
    → IsFilled room rank (c ∷ cs) (render_block c rank ∷ r.0, c ∷ r.1)
IsFilled-step room rank c cs r fits (blocks, bound, (rest, split, over)) = (
  ap (λ bs. render_block c rank ∷ bs) blocks,
  omega (arith, fits, bound),
  (
    rest,
    ap (λ x. c ∷ x) split,
    Overflows-cong _ _ _ _ rest (omega (arith, fits, bound)) (omega arith) over,
  ),
)

next_rank : (n : ℕ) → n + 1 + 1 ≡ suc (n + 1)
next_rank n = omega arith

fill-IsFilled :
    (room used : ℕ) (chunks : List RetrievedChunk)
    → IsFilled room (used + 1) chunks (fill room used chunks)
unfolding fill
fill-IsFilled room used [] = (refl, omega arith, ([], refl, tt))
fill-IsFilled room used (c ∷ cs) =
    elim (Bool-cases (ltb room (length (render_block c (used + 1))))) [
      | inl e ↦ rw e (
        refl,
        omega arith,
        (
          c ∷ cs,
          refl,
          Overflows-cong room _ (used + 1) _ (c ∷ cs) (omega arith) (omega arith)
              (ltb→lt room (length (render_block c (used + 1))) e),
        ),
      )
      | inr e ↦ rw e (
          IsFilled-step room (used + 1) c cs _ (ltb-false→le _ _ e) (
            subst
              (λ k.
                IsFilled (room - length (render_block c (used + 1))) k cs
                  (fill (room - length (render_block c (used + 1))) (used + 1) cs))
              (next_rank used)
              (fill-IsFilled (room - length (render_block c (used + 1))) (used + 1) cs)))
    ]

-- The chunks used, which are those cited, are the first of the chunks found, ranked from 1; their
-- blocks fit the budget of characters together; the first chunk left out would not fit what is
-- left; and the prompt is the base, the instruction and these blocks.
pub rag_system_prompt_lem :
    (base : Text) (chunks : List RetrievedChunk) (budget : ℕ)
    → (blocks : List Text) × IsFilled budget 1 chunks
        (blocks, (rag_system_prompt base chunks budget).1)
      × ((rag_system_prompt base chunks budget).0
          ≡ base ++ (codes "\n\n" ++ (rag_instruction ++ (codes "\n\n" ++ context_of blocks))))
unfolding rag_system_prompt
rag_system_prompt_lem base chunks budget =
    ((fill budget 0 chunks).0, fill-IsFilled budget 0 chunks, refl)
