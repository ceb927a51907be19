-- ===== src/Parsing/Normal.antt =====
-- `normalize_text` (blocks.py) and the line endings of Markdown (text.py).
use atlas_knowledge.Common.{true, false, [], ◌∷◌, ◌==◌, ◌&&◌, strip, replace_char, Text, codes}

-- `text.replace("\r\n", "\n")`
unfoldable pub replace_crlf : Text → Text
replace_crlf [] = []
replace_crlf (c ∷ []) = c ∷ []
replace_crlf (c ∷ d ∷ s) = elim (c == b'\r' && d == b'\n') [
  | true ↦ b'\n' ∷ replace_crlf s
  | false ↦ c ∷ replace_crlf (d ∷ s)
]

-- `text.replace("\r\n", "\n").replace("\r", "\n")`
unfoldable pub unix_lines : Text → Text
unix_lines text = replace_char b'\r' (codes "\n") (replace_crlf text)

-- The loop over `_SPACE_EQUIVALENTS`: the ideographic space, the space that does not break and the
-- space without width.
unfoldable pub plain_spaces : Text → Text
plain_spaces text =
    replace_char 0x200b [] (replace_char 0xa0 (codes " ") (replace_char 0x3000 (codes " ") text))

unfoldable pub normalize_text : Text → Text
normalize_text raw = strip (plain_spaces (unix_lines raw))
