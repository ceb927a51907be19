-- ===== src/Parsing/Examples.antt =====
-- A short document and a text with carriage returns, and the statements about them.
use atlas_knowledge.Common.{
  ◌≡◌, ◌≤◌, refl, List, [], ◌∷◌, Option, none, some, length, All, Text, codes, ok, starts_with,
  join, is_space, strip, strip_left, replace_char,
}
use atlas_knowledge.Documents.{heading, paragraph, Block}
use atlas_knowledge.Parsing.Normal.{replace_crlf, unix_lines, plain_spaces, normalize_text}
use atlas_knowledge.Parsing.Blocks.{
  max_block_chars, max_document_chars, NormalizedDocument, finalize_text, finalize_block,
  finalize_blocks, finalize_document,
}
use atlas_knowledge.Parsing.Blocks.Bounds.{IsWithin, total_chars, normal_blocks}
use atlas_knowledge.Parsing.Blocks.Rounds.{finalize_document_lem}
use atlas_knowledge.Parsing.Plain.{
  text_block, decode_text, parse_plain, markdown_blocks, paragraph_blocks, split_from, lines_from,
  read_lines, read_outside, read_fenced, atx_heading, leading_hashes,
}
use atlas_knowledge.Parsing.Plain.Crlf.{parse_plain_crlf}

abbrev title : List Block
title = text_block heading (some 1) (codes " a ") ∷ []

abbrev titled : NormalizedDocument
titled = record {
  blocks = text_block heading (some 1) (codes "a") ∷ [];
  source_mime = codes "text/markdown";
  warnings = [];
}

title_finalized : finalize_document title (codes "text/markdown") ≡ ok titled
unfolding finalize_document finalize_blocks finalize_block finalize_text normalize_text unix_lines
    replace_crlf plain_spaces strip replace_char
title_finalized = refl

finalize_document_lem_example :
    (total_chars titled.blocks ≤ max_document_chars)
    × All IsWithin titled.blocks
    × (titled.warnings ≡ [] → titled.blocks ≡ normal_blocks title)
finalize_document_lem_example = finalize_document_lem title (codes "text/markdown") title_finalized

abbrev identity_chain : List (Text → Option Text)
identity_chain = (λ bytes. some bytes) ∷ []

decoded : decode_text identity_chain (codes "a\r\n\r\nb") ≡ ok (codes "a\r\n\r\nb")
unfolding decode_text
decoded = refl

parse_plain_crlf_example :
    (doc : NormalizedDocument) × (parse_plain identity_chain (codes "a\r\n\r\nb") ≡ ok doc)
    × (length doc.blocks ≤ 1)
    × (total_chars doc.blocks ≤ max_block_chars)
parse_plain_crlf_example = parse_plain_crlf identity_chain (codes "a\r\n\r\nb") decoded refl

-- With line feeds alone the same text has two paragraphs.
two_paragraphs :
    paragraph_blocks (codes "a\n \nb")
    ≡ text_block paragraph none (codes "a") ∷ text_block paragraph none (codes "b") ∷ []
unfolding paragraph_blocks split_from
two_paragraphs = refl

markdown :
    markdown_blocks (codes "# T\r\na\r\n\r\nb")
    ≡ text_block heading (some 1) (codes "T")
      ∷ text_block paragraph none (codes "a")
      ∷ text_block paragraph none (codes "b")
      ∷ []
unfolding starts_with join markdown_blocks unix_lines replace_crlf replace_char lines_from
    read_lines read_outside read_fenced atx_heading leading_hashes strip is_space strip_left
    paragraph_blocks split_from
markdown = refl
