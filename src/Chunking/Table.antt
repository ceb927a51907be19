-- ===== src/Chunking/Table.antt =====
-- Packing the rows of a table into chunks (table_row.py).
pub mod Laws
use atlas_knowledge.Common.{
  ℕ, zero, suc, ◌+◌, Bool, true, false, ◌&&◌, not, List, [], ◌∷◌, ◌++◌, Option, none, some, ltb,
  if◌then◌else◌, is_empty, keep, length, Text, join,
}
use atlas_knowledge.Documents.{Block, BlockType, table, ChunkDraft, DraftMeta, table_draft}
use atlas_knowledge.Chunking.Tokens.{estimate_tokens}

abbrev pub cell_separator : Text
cell_separator = 0xff5c ∷ []

abbrev pub row_separator : Text
row_separator = 0xa ∷ []

abbrev pub non_empty : Text → Bool
non_empty t = not (is_empty t)

-- `f"{header[i]}: {value}"`, or the bare value under an empty header cell
abbrev labelled : Text → Text → Text
labelled head value = if is_empty head then value else head ++ (b':' ∷ 0x20 ∷ value)

-- The cells of a row; those beyond the header have no label.
label_cells : List Text → List Text → List Text
label_cells header [] = []
label_cells [] (value ∷ row) = value ∷ label_cells [] row
label_cells (head ∷ header) (value ∷ row) = labelled head value ∷ label_cells header row

unfoldable pub serialize_row : List Text → List Text → Text
unfolding label_cells join
serialize_row header row = join cell_separator (keep non_empty (label_cells header row))

-- The variables of the packing loop.
pub record Packing : Type 0 where
  pub packed : List Text
  pub buffer : List Text
  pub buffer_tokens : ℕ

close : Packing → Packing
unfolding join
close p = record {
  packed = p.packed ++ join row_separator p.buffer ∷ [];
  buffer = [];
  buffer_tokens = 0;
}

append_line : Text → Packing → Packing
append_line line p = record p {
  buffer = p.buffer ++ line ∷ [];
  buffer_tokens = p.buffer_tokens + estimate_tokens line;
}

-- One round of the loop, for a line that is not empty.
pack_line : ℕ → Packing → Text → Packing
unfolding close append_line
pack_line target p line =
    if not (is_empty p.buffer) && ltb target (p.buffer_tokens + estimate_tokens line)
    then append_line line (close p)
    else append_line line p

pack_lines : ℕ → Packing → List Text → Packing
pack_lines target p [] = p
pack_lines target p (line ∷ lines) =
    pack_lines target (if is_empty line then p else pack_line target p line) lines

-- What stands in the buffer after the loop is packed too.
flush_packing : Packing → List Text
unfolding close
flush_packing p = if is_empty p.buffer then p.packed else (close p).packed

pub serialize_rows : List Text → List (List Text) → List Text
unfolding serialize_row
serialize_rows header [] = []
serialize_rows header (row ∷ rows) = serialize_row header row ∷ serialize_rows header rows

abbrev start : Packing
start = record { packed = []; buffer = []; buffer_tokens = 0 }

pack_rows : ℕ → List (List Text) → List Text
unfolding serialize_rows pack_lines pack_line flush_packing
pack_rows target [] = []
pack_rows target (header ∷ []) = join cell_separator (keep non_empty header) ∷ []
pack_rows target (header ∷ row ∷ body) =
    flush_packing (pack_lines target start (serialize_rows header (row ∷ body)))

-- `block.rows or []`
abbrev pub rows_of : Block → List (List Text)
rows_of block = elim block.rows [ none ↦ [] | some rows ↦ rows ]

unfoldable pub pack_table : ℕ → Block → List Text
unfolding pack_rows
pack_table target block = pack_rows target (rows_of block)

-- `TableRowChunking.chunk`
emit_rows : Option ℕ → List ChunkDraft → List Text → List ChunkDraft
emit_rows page drafts [] = drafts
emit_rows page drafts (text ∷ texts) =
    emit_rows page
      (drafts
        ++ record {
          seq = length drafts;
          text = text;
          tokens = estimate_tokens text;
          meta = record { page = page; heading_path = none; block_type = table_draft };
        }
          ∷ [])
      texts

abbrev pub is_table : BlockType → Bool
is_table table = true
is_table _ = false

table_chunks : ℕ → List ChunkDraft → List Block → List ChunkDraft
unfolding emit_rows pack_table
table_chunks target drafts [] = drafts
table_chunks target drafts (block ∷ blocks) =
    table_chunks target
      (if is_table block.type
        then emit_rows block.page drafts (pack_table target block)
        else drafts)
      blocks

unfoldable pub table_row_chunk : ℕ → List Block → List ChunkDraft
unfolding table_chunks
table_row_chunk target blocks = table_chunks target [] blocks
