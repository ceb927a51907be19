-- ===== src/Chunking/Tail/Bounds.antt =====
-- The overlap stays within its budget.
use mathlib.Core.List.{reverse}
use atlas_knowledge.Common.{
  ℕ, ◌+◌, ◌≤◌, ◌≡◌, List, [], ◌∷◌, arith, Bool-cases, inl, inr, leb, ltb, false, Text, concat, keep,
  ltb-false→le,
}
use atlas_knowledge.Chunking.Tokens.{estimate_tokens}
use atlas_knowledge.Chunking.Tokens.Bounds.{
  estimate_tokens-append, estimate_tokens-strip, estimate_tokens_bounds,
}
use atlas_knowledge.Chunking.Tail.{sentences, is_substantial, gather_tail, tail_within}

gather_tail-le :
    (budget tokens : ℕ) (tail pieces : List Text)
    → tokens ≤ budget
    → estimate_tokens (concat tail) ≤ tokens
    → estimate_tokens (concat (gather_tail budget tokens tail pieces)) ≤ budget
unfolding gather_tail
gather_tail-le budget tokens tail [] h k = omega arith
gather_tail-le budget tokens tail (piece ∷ pieces) h k =
    elim (Bool-cases (ltb budget (tokens + estimate_tokens piece))) [
      | inl e ↦ rw e (omega arith)
      | inr e ↦ rw e (
          gather_tail-le budget (tokens + estimate_tokens piece) (piece ∷ tail) pieces
            (ltb-false→le budget (tokens + estimate_tokens piece) e)
            (omega (arith, (estimate_tokens-append piece (concat tail)).0)))
    ]

estimate_tokens-nil : estimate_tokens [] ≡ 0
estimate_tokens-nil = omega (arith, (estimate_tokens_bounds []).1)

-- The overlap taken from a text has at most the tokens that the configuration allows.
pub tail_within-le :
    (text : Text) (overlap_tokens : ℕ)
    → estimate_tokens (tail_within text overlap_tokens) ≤ overlap_tokens
unfolding tail_within
tail_within-le text o = elim (Bool-cases (leb o 0)) [
  | inl e ↦ rw e (omega (arith, estimate_tokens-nil))
  | inr e ↦
      let pieces = reverse (keep is_substantial (sentences false [] text)) in
      rw e (
        omega (
          arith,
          estimate_tokens-strip (concat (gather_tail o 0 [] pieces)),
          gather_tail-le o 0 [] pieces (omega arith) (omega (arith, estimate_tokens-nil)),
        ))
]
