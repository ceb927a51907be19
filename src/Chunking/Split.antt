-- ===== src/Chunking/Split.antt =====
-- Cutting a long text at sentence ends (default_recursive.py, `_SPLIT_POINTS`, `_split_to_limit`).
pub mod Laws
use atlas_knowledge.Common.{
  ℕ, zero, suc, ◌+◌, ◌-◌, ◌/◌, Bool, true, false, ◌&&◌, ◌||◌, not, List, [], ◌∷◌, ◌++◌, ltb, leb,
  ◌==◌, if◌then◌else◌, length, take, drop, is_empty, Text, is_space,
}
use atlas_knowledge.Chunking.Tokens.{estimate_tokens}

-- The lookbehinds of `_SPLIT_POINTS` after the character `c`; `dot` says that "." stands before it.
unfoldable pub ends_sentence : Bool → ℕ → Bool
unfolding is_space
ends_sentence dot c =
    (c == 0x3002 || (c == b'!' || (c == b'?' || (c == 0xff01 || (c == b';' || c == 0xa)))))
    || (dot && is_space c)

-- The matches' positions that lie strictly inside the text, in order.
candidates : Bool → ℕ → Text → List ℕ
candidates dot pos [] = []
candidates dot pos (c ∷ s) =
    let rest = candidates (c == b'.') (pos + 1) s in
    if not (is_empty s) && ends_sentence dot c then (pos + 1) ∷ rest else rest

abbrev distance : ℕ → ℕ → ℕ
distance a b = if ltb a b then b - a else a - b

-- `min(ps, key=...)`: of two that are as near the first one stays.
nearest : ℕ → ℕ → List ℕ → ℕ
nearest middle best [] = best
nearest middle best (p ∷ ps) =
    nearest middle (if ltb (distance p middle) (distance best middle) then p else best) ps

abbrev cut_among : ℕ → List ℕ → ℕ
cut_among middle [] = middle
cut_among middle (p ∷ ps) = nearest middle p ps

unfoldable pub cut_point : Text → ℕ
unfolding candidates nearest ends_sentence
cut_point text = cut_among (length text / 2) (candidates false 0 text)

unfoldable pub fits : ℕ → Text → Bool
fits target text = leb (estimate_tokens text) target || leb (length text) 1

-- The recursion on fuel: each part is shorter than the text, so the length is enough.
split_fuel : ℕ → ℕ → Text → List Text
split_fuel target zero text = text ∷ []
split_fuel target (suc f) text =
    let parts =
      split_fuel target f (take (cut_point text) text)
      ++ split_fuel target f (drop (cut_point text) text) in
    if fits target text then text ∷ [] else parts

unfoldable pub split_to_limit : Text → ℕ → List Text
unfolding split_fuel cut_point fits estimate_tokens
split_to_limit text target = split_fuel target (length text) text
