-- ===== src/Parsing/Registry.antt =====
-- The parser of a media type (registry.py). The parsers of PDF, DOCX and HTML are parameters.
use atlas_knowledge.Common.{
  List, [], ◌∷◌, ◌++◌, Option, none, some, if◌then◌else◌, Text, codes, text_eq, Outcome, ok, err,
}
use atlas_knowledge.Parsing.Blocks.{NormalizedDocument}
use atlas_knowledge.Parsing.Plain.{parse_plain, parse_markdown}

abbrev pub Parser : Type 0
Parser = Text → Outcome Text NormalizedDocument

-- The parsers that wrap a package, and the decoders of text.
pub record Packages : Type 0 where
  pub pdf : Parser
  pub docx : Parser
  pub html : Parser
  pub chain : List (Text → Option Text)

-- `_BY_MEDIA_TYPE`; no two parsers have a media type in common.
abbrev pub by_media_type : Packages → List (Text × Parser)
by_media_type p =
    (codes "application/pdf", p.pdf)
    ∷ (codes "application/vnd.openxmlformats-officedocument.wordprocessingml.document", p.docx)
    ∷ (codes "text/html", p.html)
    ∷ (codes "text/plain", parse_plain p.chain)
    ∷ (codes "text/markdown", parse_markdown p.chain)
    ∷ []

abbrev pub find_parser : Text → List (Text × Parser) → Option Parser
find_parser mime [] = none
find_parser mime ((media_type, parser) ∷ rest) =
    let found = find_parser mime rest in if text_eq media_type mime then some parser else found

-- `get_parser`; the error is a `ParseError`
unfoldable pub get_parser : Packages → Text → Outcome Text Parser
get_parser p mime = elim (find_parser mime (by_media_type p)) [
  | none ↦ err (codes "沒有對應 " ++ (mime ++ codes " 的 parser"))
  | some parser ↦ ok parser
]
