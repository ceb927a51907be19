-- ===== src/Parsing/Plain.antt =====
-- The parsers of plain text and Markdown (text.py).
pub mod Crlf
use atlas_knowledge.Common.{
  ℕ, zero, suc, Bool, true, false, List, [], ◌∷◌, ◌++◌, Option, none, some, ◌==◌, ◌&&◌, ◌||◌, leb,
  if◌then◌else◌, map, is_empty, length, Text, codes, is_space, strip, strip_left, starts_with, join,
  Outcome, ok, err,
}
use atlas_knowledge.Documents.{BlockType, paragraph, heading, code, Block}
use atlas_knowledge.Parsing.Normal.{unix_lines}
use atlas_knowledge.Parsing.Blocks.{NormalizedDocument, finalize_document}

abbrev pub undecodable : Text
undecodable = codes "無法以 utf-8-sig/utf-8/cp950 解碼文字檔"

-- `decode_text`, with the decoders of `_ENCODING_CHAIN`
unfoldable pub decode_text : List (Text → Option Text) → Text → Outcome Text Text
decode_text [] bytes = err undecodable
decode_text (decode ∷ chain) bytes = elim (decode bytes) [
  | none ↦ decode_text chain bytes
  | some text ↦ ok text
]

abbrev pub is_blank : ℕ → Bool
is_blank c = c == b' ' || c == b'\t'

-- `_PARAGRAPH_SPLIT.split`, with the part read so far and, behind a line feed, the blanks since.
unfoldable pub split_from : Text → Option Text → Text → List Text
split_from part none [] = part ∷ []
split_from part (some blanks) [] = (part ++ b'\n' ∷ blanks) ∷ []
split_from part none (c ∷ s) = elim (c == b'\n') [
  | true ↦ split_from part (some []) s
  | false ↦ split_from (part ++ c ∷ []) none s
]
split_from part (some blanks) (c ∷ s) = elim (c == b'\n') [
  | true ↦ part ∷ split_from [] none s
  | false ↦ elim (is_blank c) [
    | true ↦ split_from part (some (blanks ++ c ∷ [])) s
    | false ↦ split_from (part ++ b'\n' ∷ (blanks ++ c ∷ [])) none s
  ]
]

abbrev pub split_paragraphs : Text → List Text
split_paragraphs text = split_from [] none text

abbrev pub text_block : BlockType → Option ℕ → Text → Block
text_block type level text = record {
  type = type;
  text = text;
  level = level;
  page = none;
  rows = none;
}

-- `_paragraph_blocks`
unfoldable pub paragraph_blocks : Text → List Block
paragraph_blocks text = map (text_block paragraph none) (split_paragraphs text)

-- `PlainTextParser.parse`
unfoldable pub parse_plain : List (Text → Option Text) → Text → Outcome Text NormalizedDocument
parse_plain chain bytes = elim (decode_text chain bytes) [
  | err message ↦ err message
  | ok text ↦ finalize_document (paragraph_blocks text) (codes "text/plain")
]

-- `text.split("\n")`, with the line read so far
unfoldable pub lines_from : Text → Text → List Text
lines_from line [] = line ∷ []
lines_from line (c ∷ s) = elim (c == b'\n') [
  | true ↦ line ∷ lines_from [] s
  | false ↦ lines_from (line ++ c ∷ []) s
]

-- The number of `#` in front of a line, and what follows.
unfoldable pub leading_hashes : Text → ℕ × Text
leading_hashes [] = (0, [])
leading_hashes (c ∷ s) =
    let rest = leading_hashes s in if c == b'#' then (suc rest.0, rest.1) else (0, c ∷ s)

abbrev pub title_behind : ℕ → Text → Option (ℕ × Text)
title_behind level [] = none
title_behind level (c ∷ s) = if is_space c then some (level, strip_left is_space s) else none

-- `_ATX_HEADING.match`: the level and the title
unfoldable pub atx_heading : Text → Option (ℕ × Text)
atx_heading line =
    let (level, rest) = leading_hashes line in
    if leb 1 level && leb level 6 then title_behind level rest else none

-- The variables of the loop over the lines.
pub record Reading : Type 0 where
  pub blocks : List Block
  pub buffer : List Text
  pub fence_lines : Option (List Text)

abbrev pub flush_paragraph : Reading → Reading
flush_paragraph r = if is_empty r.buffer then r else record r {
  blocks = r.blocks ++ paragraph_blocks (join (codes "\n") r.buffer);
  buffer = [];
}

abbrev pub code_block : List Text → Block
code_block fenced = text_block code none (join (codes "\n") fenced)

abbrev pub is_fence : Text → Bool
is_fence line = starts_with (strip line) (codes "```")

-- A line outside and inside of a fence.
unfoldable pub read_outside : Reading → Text → Reading
read_outside r line =
    if is_fence line
    then record (flush_paragraph r) { fence_lines = some [] }
    else elim (atx_heading line) [
      | some (level, title) ↦ record (flush_paragraph r) {
        blocks = (flush_paragraph r).blocks ++ text_block heading (some level) title ∷ [];
      }
      | none ↦
          if is_empty (strip line)
          then flush_paragraph r
          else record r { buffer = r.buffer ++ line ∷ [] }
    ]

unfoldable pub read_fenced : Reading → List Text → Text → Reading
read_fenced r fenced line =
    if is_fence line
    then record r { blocks = r.blocks ++ code_block fenced ∷ []; fence_lines = none }
    else record r { fence_lines = some (fenced ++ line ∷ []) }

abbrev pub read_line : Reading → Option (List Text) → Text → Reading
read_line r none line = read_outside r line
read_line r (some fenced) line = read_fenced r fenced line

unfoldable pub read_lines : Reading → List Text → Reading
read_lines r [] = r
read_lines r (line ∷ lines) = read_lines (read_line r r.fence_lines line) lines

-- The end of the loop: a fence that is not closed counts.
abbrev pub close_fence : Reading → Option (List Text) → Reading
close_fence r none = r
close_fence r (some fenced) = record r { blocks = r.blocks ++ code_block fenced ∷ [] }

unfoldable pub markdown_blocks : Text → List Block
markdown_blocks text =
    let r =
      read_lines (record { blocks = []; buffer = []; fence_lines = none })
        (lines_from [] (unix_lines text)) in
    (flush_paragraph (close_fence r r.fence_lines)).blocks

-- `MarkdownParser.parse`
unfoldable pub parse_markdown : List (Text → Option Text) → Text → Outcome Text NormalizedDocument
parse_markdown chain bytes = elim (decode_text chain bytes) [
  | err message ↦ err message
  | ok text ↦ finalize_document (markdown_blocks text) (codes "text/markdown")
]
