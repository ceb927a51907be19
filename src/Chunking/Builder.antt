-- ===== src/Chunking/Builder.antt =====
-- The chunk builder and the strategy `default_recursive` (default_recursive.py).
mod Induction
pub mod Sequence
pub mod Outline
pub mod Coverage
use mathlib.Core.List.{reverse}
use atlas_knowledge.Common.{
  ℕ, zero, suc, ◌+◌, Bool, true, false, ◌&&◌, not, List, [], ◌∷◌, ◌++◌, map, Option, none, some,
  ltb, leb, ◌==◌, if◌then◌else◌, is_empty, keep, length, Text, join,
}
use atlas_knowledge.Documents.{
  Block, BlockType, heading, paragraph, list_item, table, code, ChunkingConfig, ChunkDraft,
  DraftType, DraftMeta, text_draft, table_draft,
}
use atlas_knowledge.Chunking.Tokens.{estimate_tokens}
use atlas_knowledge.Chunking.Split.{split_to_limit}
use atlas_knowledge.Chunking.Tail.{tail_within}
use atlas_knowledge.Chunking.Table.{pack_table}

-- The attributes of `_Builder`; `headings` has the innermost heading at its head.
pub record Builder : Type 0 where
  pub drafts : List ChunkDraft
  pub headings : List (ℕ × Text)
  pub pending : List Text
  pub pending_tokens : ℕ
  pub pending_page : Option ℕ
  pub section_prefix : Option Text
  pub overlap : Text

abbrev pub empty_builder : Builder
empty_builder = record {
  drafts = [];
  headings = [];
  pending = [];
  pending_tokens = 0;
  pending_page = none;
  section_prefix = none;
  overlap = [];
}

abbrev pub line_end : Text
line_end = 0xa ∷ []

pub titles : List (ℕ × Text) → List Text
titles [] = []
titles ((_, title) ∷ hs) = title ∷ titles hs

-- `_emit`
pub emit : Text → DraftType → Option ℕ → Builder → Builder
unfolding titles
emit text block_type page b = record b {
  drafts =
      b.drafts
      ++ record {
        seq = length b.drafts;
        text = text;
        tokens = estimate_tokens text;
        meta = record {
          page = page;
          heading_path = some (reverse (titles b.headings));
          block_type = block_type;
        };
      }
        ∷ [];
}

-- `[part for part in (overlap, section_prefix, body) if part]`
prefix_part : Option Text → List Text
prefix_part none = []
prefix_part (some t) = if is_empty t then [] else t ∷ []

pub draft_parts : Builder → Text → List Text
unfolding prefix_part
draft_parts b body =
    prefix_part (some b.overlap) ++ (prefix_part b.section_prefix ++ prefix_part (some body))

-- The part of `flush` behind its guard.
pub flush_pending : ChunkingConfig → Builder → Builder
unfolding emit draft_parts join
flush_pending cfg b =
    let body = join line_end b.pending in
    record (emit (join line_end (draft_parts b body)) text_draft b.pending_page b) {
      section_prefix = none;
      overlap = tail_within body cfg.overlap_tokens;
      pending = [];
      pending_tokens = 0;
      pending_page = none;
    }

pub flush : ChunkingConfig → Builder → Builder
unfolding flush_pending
flush cfg b = if is_empty b.pending then b else flush_pending cfg b

-- The `while` loop that leaves the sections of the same level or below.
pop_headings : ℕ → List (ℕ × Text) → List (ℕ × Text)
pop_headings level [] = []
pop_headings level ((l, title) ∷ hs) =
    let popped = pop_headings level hs in if leb level l then popped else (l, title) ∷ hs

-- `block.level or 1`
abbrev pub level_of : Option ℕ → ℕ
level_of none = 1
level_of (some l) = if l == 0 then 1 else l

pub start_section : ChunkingConfig → Block → Builder → Builder
unfolding flush pop_headings
start_section cfg block b =
    let f = flush cfg b in
    record f {
      headings =
          (level_of block.level, block.text) ∷ pop_headings (level_of block.level) f.headings;
      section_prefix = some block.text;
      overlap = [];
    }

-- One round of the loop in `add_text`, in its three steps.
make_room : ChunkingConfig → Text → Builder → Builder
unfolding flush
make_room cfg piece b =
    if not (is_empty b.pending) && ltb cfg.target_tokens (b.pending_tokens + estimate_tokens piece)
    then flush cfg b
    else b

set_page : Option ℕ → Builder → Builder
set_page page b = if is_empty b.pending then record b { pending_page = page } else b

pub append_piece : Text → Builder → Builder
append_piece piece b = record b {
  pending = b.pending ++ piece ∷ [];
  pending_tokens = b.pending_tokens + estimate_tokens piece;
}

pub add_piece : ChunkingConfig → Option ℕ → Text → Builder → Builder
unfolding make_room set_page append_piece
add_piece cfg page piece b = append_piece piece (set_page page (make_room cfg piece b))

pub add_pieces : ChunkingConfig → Option ℕ → List Text → Builder → Builder
unfolding add_piece
add_pieces cfg page [] b = b
add_pieces cfg page (piece ∷ pieces) b = add_pieces cfg page pieces (add_piece cfg page piece b)

pub add_text : ChunkingConfig → Block → Builder → Builder
unfolding add_pieces
add_text cfg block b = add_pieces cfg block.page (split_to_limit block.text cfg.target_tokens) b

pub emit_all : Option ℕ → List Text → Builder → Builder
unfolding emit
emit_all page [] b = b
emit_all page (text ∷ texts) b = emit_all page texts (emit text table_draft page b)

pub add_table : ChunkingConfig → Block → Builder → Builder
unfolding emit_all flush
add_table cfg block b =
    record (emit_all block.page (pack_table cfg.target_tokens block) (flush cfg b)) { overlap = [] }

-- One round of the loop in `DefaultRecursiveChunking.chunk`, by the type of the block.
add_typed : BlockType → ChunkingConfig → Block → Builder → Builder
unfolding start_section add_table add_text
add_typed heading cfg block b = start_section cfg block b
add_typed table cfg block b = add_table cfg block b
add_typed paragraph cfg block b = add_text cfg block b
add_typed list_item cfg block b = add_text cfg block b
add_typed code cfg block b = add_text cfg block b

pub add_block : ChunkingConfig → Block → Builder → Builder
unfolding add_typed
add_block cfg block b = add_typed block.type cfg block b

pub add_blocks : ChunkingConfig → List Block → Builder → Builder
unfolding add_block
add_blocks cfg [] b = b
add_blocks cfg (block ∷ blocks) b = add_blocks cfg blocks (add_block cfg block b)

unfoldable pub chunk : List Block → ChunkingConfig → List ChunkDraft
unfolding add_blocks flush
chunk blocks cfg = (flush cfg (add_blocks cfg blocks empty_builder)).drafts
