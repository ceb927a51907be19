-- ===== src/Chunking/Tail.antt =====
-- The overlap of two neighbouring chunks (default_recursive.py, `_tail_within`).
pub mod Bounds
use mathlib.Core.List.{reverse}
use atlas_knowledge.Common.{
  ℕ, zero, suc, ◌+◌, Bool, true, false, ◌||◌, List, [], ◌∷◌, ◌++◌, ltb, leb, ◌==◌, if◌then◌else◌,
  is_empty, keep, not, Text, strip, concat,
}
use atlas_knowledge.Chunking.Tokens.{estimate_tokens}
use atlas_knowledge.Chunking.Split.{ends_sentence}

-- `_SPLIT_POINTS.split(text)`; `cur` is the piece that is being read.
sentences : Bool → Text → Text → List Text
sentences dot cur [] = cur ∷ []
sentences dot cur (c ∷ s) =
    let closed = (cur ++ c ∷ []) ∷ sentences (c == b'.') [] s in
    let longer = sentences (c == b'.') (cur ++ c ∷ []) s in
    if ends_sentence dot c then closed else longer

abbrev is_substantial : Text → Bool
is_substantial p = not (is_empty (strip p))

-- The loop over the reversed pieces; a `break` returns the tail.
gather_tail : ℕ → ℕ → List Text → List Text → List Text
gather_tail budget tokens tail [] = tail
gather_tail budget tokens tail (piece ∷ pieces) =
    let more = gather_tail budget (tokens + estimate_tokens piece) (piece ∷ tail) pieces in
    if ltb budget (tokens + estimate_tokens piece) then tail else more

unfoldable pub tail_within : Text → ℕ → Text
unfolding sentences gather_tail estimate_tokens ends_sentence
tail_within text overlap_tokens =
    if leb overlap_tokens 0
    then []
    else strip (
        concat (
          gather_tail overlap_tokens 0 []
            (reverse (keep is_substantial (sentences false [] text)))))
