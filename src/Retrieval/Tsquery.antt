-- ===== src/Retrieval/Tsquery.antt =====
-- The text of the full-text query: backend/app/infrastructure/vector/tokenizer.py, and
-- `build_tsquery` of backend/app/infrastructure/vector/pgvector_index.py.
pub mod Reading
pub mod Tokens
use atlas_knowledge.Common.{
  ℕ, Bool, true, false, not, List, [], ◌∷◌, ◌++◌, ◌&&◌, if◌then◌else◌, map, keep, any, is_empty,
  length, ltb, Text, codes, text_eq, is_space, strip, join, replace_char,
}

-- `s.split()`, with the word read so far
unfoldable pub words_from : Text → Text → List Text
words_from word [] = if is_empty word then [] else word ∷ []
words_from word (c ∷ s) = elim (is_space c) [
  | true ↦ if is_empty word then words_from [] s else word ∷ words_from [] s
  | false ↦ words_from (word ++ c ∷ []) s
]

abbrev pub split_words : Text → List Text
split_words s = words_from [] s

-- `index_tokens`, with jieba's `cut_for_search` as a parameter
unfoldable pub index_tokens : (Text → List Text) → Text → Text
index_tokens cut text = join (codes " ") (keep (λ t. not (is_empty t)) (map strip (cut text)))

-- The loop over the tokens, with the keys of `seen` so far.
unfoldable pub collect_tokens : List Text → List Text → List Text
collect_tokens seen [] = seen
collect_tokens seen (t ∷ ts) =
    collect_tokens (if ltb 1 (length t) && not (any (text_eq t) seen) then seen ++ t ∷ [] else seen)
      ts

unfoldable pub escape : Text → Text
unfolding replace_char
escape t = replace_char b'"' (codes "\\\"") (replace_char b'\\' (codes "\\\\") t)

unfoldable pub quote : Text → Text
unfolding escape
quote t = b'"' ∷ (escape t ++ b'"' ∷ [])

-- `build_tsquery`
unfoldable pub build_tsquery : Text → Text
build_tsquery query_tokens =
    join (codes " | ") (map quote (collect_tokens [] (split_words query_tokens)))
