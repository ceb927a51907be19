-- ===== src/Parsing/Blocks.antt =====
-- `finalize_document` (blocks.py): the rules for the blocks of every parser.
pub mod Bounds
pub mod Rounds
use atlas_knowledge.Common.{
  ℕ, zero, suc, ◌+◌, Bool, true, false, not, List, [], ◌∷◌, ◌++◌, Option, none, some, ◌&&◌,
  if◌then◌else◌, map, any, keep, take, length, total_length, ltb, is_empty, Text, codes, Outcome,
  ok, err,
}
use atlas_knowledge.Documents.{Block}
use atlas_knowledge.Parsing.Normal.{normalize_text}

-- `MAX_BLOCK_CHARS` and `MAX_DOCUMENT_CHARS`
abbrev pub max_block_chars : ℕ
max_block_chars = 20000

abbrev pub max_document_chars : ℕ
max_document_chars = 2000000

-- The entries of `meta.warnings`, with the number of the block.
pub data ParseWarning : Type 0 where
  table_truncated block_truncated : ℕ → ParseWarning

-- `NormalizedDocument`; of `meta` the type of the source and the warnings.
pub record NormalizedDocument : Type 0 where
  pub blocks : List Block
  pub source_mime : Text
  pub warnings : List ParseWarning

abbrev pub has_text : List Text → Bool
has_text row = any (λ cell. not (is_empty cell)) row

-- `_normalize_rows`
unfoldable pub normalize_rows : List (List Text) → List (List Text)
normalize_rows rows = keep has_text (map (λ row. map normalize_text row) rows)

-- The sum of the lengths of all cells.
abbrev pub rows_chars : List (List Text) → ℕ
rows_chars [] = 0
rows_chars (row ∷ rows) = total_length row + rows_chars rows

-- `_cap_rows` from a row on, with the rows kept and their total.
unfoldable pub cap_rows_from : List (List Text) → ℕ → List (List Text) → List (List Text) × Bool
cap_rows_from kept total [] = (kept, false)
cap_rows_from kept total (row ∷ rows) =
    let rest = cap_rows_from (kept ++ row ∷ []) (total + total_length row) rows in
    if ltb max_block_chars (total + total_length row) && not (is_empty kept)
    then (kept, true)
    else rest

abbrev pub cap_rows : List (List Text) → List (List Text) × Bool
cap_rows rows = cap_rows_from [] 0 rows

-- `_block_chars`
abbrev pub chars_of_rows : Text → Option (List (List Text)) → ℕ
chars_of_rows text none = length text
chars_of_rows text (some rows) = rows_chars rows

abbrev pub block_chars : Block → ℕ
block_chars b = chars_of_rows b.text b.rows

-- A table cut to its limit, and a text cut to its limit, each with a mark if it was cut. `none` is
-- a block that is left out.
unfoldable pub finalize_rows : Block → List (List Text) → Option (Block × Bool)
finalize_rows b [] = none
finalize_rows b (row ∷ rows) =
    some (record b { rows = some (cap_rows (row ∷ rows)).0; text = [] }, (cap_rows (row ∷ rows)).1)

unfoldable pub finalize_text : Block → Text → Option (Block × Bool)
finalize_text b [] = none
finalize_text b (c ∷ text) =
    if ltb max_block_chars (length (c ∷ text))
    then some (record b { text = take max_block_chars (c ∷ text) }, true)
    else some (record b { text = c ∷ text }, false)

unfoldable pub finalize_block : Block → Option (List (List Text)) → Option (Block × Bool)
finalize_block b none = finalize_text b (normalize_text b.text)
finalize_block b (some rows) = finalize_rows b (normalize_rows rows)

abbrev pub warning_of : Option (List (List Text)) → ℕ → ParseWarning
warning_of none n = block_truncated n
warning_of (some rows) n = table_truncated n

-- The variables of the loop.
pub record Finalizing : Type 0 where
  pub kept : List Block
  pub warnings : List ParseWarning
  pub total : ℕ

abbrev pub too_long : Text
too_long = codes "文件內容超過 2000000 字上限"

-- The end of a round: `none` is a `ParseError`.
abbrev pub keep_block : Finalizing → ParseWarning → Block × Bool → Option Finalizing
keep_block f w (b, truncated) =
    if ltb max_document_chars (f.total + block_chars b)
    then none
    else some (record {
      kept = f.kept ++ b ∷ [];
      warnings = if truncated then f.warnings ++ w ∷ [] else f.warnings;
      total = f.total + block_chars b;
    })

abbrev pub finalize_step : Finalizing → Block → Option Finalizing
finalize_step f b = elim (finalize_block b b.rows) [
  | none ↦ some f
  | some result ↦ keep_block f (warning_of b.rows (length f.kept)) result
]

unfoldable pub finalize_blocks : Finalizing → List Block → Option Finalizing
finalize_blocks f [] = some f
finalize_blocks f (b ∷ bs) = elim (finalize_step f b) [
  | none ↦ none
  | some f' ↦ finalize_blocks f' bs
]

unfoldable pub finalize_document : List Block → Text → Outcome Text NormalizedDocument
finalize_document blocks source_mime =
    elim (finalize_blocks (record { kept = []; warnings = []; total = 0 }) blocks) [
      | none ↦ err too_long
      | some f ↦ ok (record { blocks = f.kept; source_mime = source_mime; warnings = f.warnings })
    ]
