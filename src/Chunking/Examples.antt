-- ===== src/Chunking/Examples.antt =====
-- A short document, and the statements about its chunks at it.
use mathlib.Core.Path.{subst}
use atlas_knowledge.Common.{
  ◌≤◌, ◌≡◌, refl, sym, ap, ◌∙◌, ◌⊎◌, inl, true, List, [], ◌∷◌, ◌++◌, none, some, length, take, drop,
  keep, All, Occurs, Text, concat, if◌then◌else◌,
}
use atlas_knowledge.Documents.{Block, ChunkingConfig, heading, paragraph, table}
use atlas_knowledge.Chunking.Tokens.{estimate_tokens, count_cjk, is_cjk}
use atlas_knowledge.Chunking.Split.{split_to_limit, fits, cut_point}
use atlas_knowledge.Chunking.Split.Laws.{split_to_limit_lem, split_to_limit_lossless}
use atlas_knowledge.Chunking.Table.{pack_table, serialize_rows, non_empty}
use atlas_knowledge.Chunking.Table.Laws.{IsPacked, pack_table-IsPacked}
use atlas_knowledge.Chunking.Builder.{empty_builder, add_blocks, chunk}
use atlas_knowledge.Chunking.Builder.Outline.{enclosing, headings_after, add_blocks-enclosing}
use atlas_knowledge.Chunking.Builder.Coverage.{Emitted, contribution, chunk-Emitted}

abbrev config : ChunkingConfig
config = record { target_tokens = 4; overlap_tokens = 1 }

abbrev title : Block
title = record { type = heading; text = b'T' ∷ []; level = some 1; page = some 1; rows = none }

-- 甲。乙
abbrev words : Text
words = 0x7532 ∷ 0x3002 ∷ 0x4e59 ∷ []

abbrev body : Block
body = record { type = paragraph; text = words; level = none; page = some 1; rows = none }

abbrev header : List Text
header = (b'k' ∷ []) ∷ (b'v' ∷ []) ∷ []

abbrev first_row : List Text
first_row = (b'1' ∷ []) ∷ (b'2' ∷ []) ∷ []

abbrev grid : Block
grid = record {
  type = table;
  text = [];
  level = none;
  page = none;
  rows = some (header ∷ first_row ∷ []);
}

split_to_limit_lossless_example :
    (concat (split_to_limit words 1) ≡ words)
    × All (λ part. (estimate_tokens part ≤ 1) ⊎ (length part ≤ 1)) (split_to_limit words 1)
split_to_limit_lossless_example = split_to_limit_lossless words 1

pack_table-IsPacked_example :
    IsPacked 4 (keep non_empty (serialize_rows header (first_row ∷ []))) (pack_table 4 grid)
pack_table-IsPacked_example = pack_table-IsPacked 4 grid header first_row [] refl

add_blocks-enclosing_example :
    (add_blocks config (title ∷ body ∷ []) empty_builder).headings
    ≡ enclosing (headings_after [] (title ∷ body ∷ []))
add_blocks-enclosing_example = add_blocks-enclosing config (title ∷ body ∷ [])

words_fit : fits 4 words ≡ true
unfolding fits estimate_tokens count_cjk is_cjk
words_fit = refl

body_is_whole : Occurs words (contribution config paragraph body)
body_is_whole =
    subst (Occurs words)
      (sym (
        split_to_limit_lem words 4
        ∙ ap
            (λ t.
              if t
              then words ∷ []
              else split_to_limit (take (cut_point words) words) 4
                ++ split_to_limit (drop (cut_point words) words) 4)
            words_fit))
      (inl refl)

chunk-Emitted_example :
    Emitted
      (enclosing (headings_after [] (title ∷ [])))
      words
      (chunk (title ∷ body ∷ grid ∷ []) config)
chunk-Emitted_example = chunk-Emitted config (title ∷ []) body (grid ∷ []) words body_is_whole
