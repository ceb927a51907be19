-- ===== src/Chunking/Builder/Induction.antt =====
-- A property that the builder's elementary steps keep is kept by the loop over the blocks.
use atlas_knowledge.Common.{
  ℕ, ◌+◌, Bool-cases, inl, inr, not, ◌&&◌, List, [], ◌∷◌, is_empty, ltb, Option, Text,
}
use atlas_knowledge.Documents.{
  Block, BlockType, heading, paragraph, list_item, table, code, ChunkingConfig, table_draft,
}
use atlas_knowledge.Chunking.Tokens.{estimate_tokens}
use atlas_knowledge.Chunking.Table.{pack_table}
use atlas_knowledge.Chunking.Split.{split_to_limit}
use atlas_knowledge.Chunking.Builder.{
  Builder, emit, flush, flush_pending, start_section, make_room, set_page, append_piece, add_piece,
  add_pieces, add_text, emit_all, add_table, add_typed, add_block, add_blocks,
}

module _ (cfg : ChunkingConfig) (P : Builder → Type 0)
    (flush_step : (b : Builder) → P b → P (flush_pending cfg b))
    (page_step : (page : Option ℕ) (b : Builder) → P b → P (record b { pending_page = page }))
    (append_step : (piece : Text) (b : Builder) → P b → P (append_piece piece b))
    (emit_step : (text : Text) (page : Option ℕ) (b : Builder)
      → P b
      → P (emit text table_draft page b))
    (overlap_step : (b : Builder) → P b → P (record b { overlap = [] }))
    (section_step : (block : Block) (b : Builder) → P b → P (start_section cfg block b)) where
  pub flush_keeps : (b : Builder) → P b → P (flush cfg b)
  unfolding flush
  flush_keeps b h = elim (Bool-cases (is_empty b.pending)) [
    | inl e ↦ rw e h
    | inr e ↦ rw e (flush_step b h)
  ]

  make_room_keeps : (piece : Text) (b : Builder) → P b → P (make_room cfg piece b)
  unfolding make_room
  make_room_keeps piece b h =
      elim (Bool-cases (
        not (is_empty b.pending)
        && ltb cfg.target_tokens (b.pending_tokens + estimate_tokens piece))) [
          | inl e ↦ rw e (flush_keeps b h)
          | inr e ↦ rw e h
        ]

  set_page_keeps : (page : Option ℕ) (b : Builder) → P b → P (set_page page b)
  unfolding set_page
  set_page_keeps page b h = elim (Bool-cases (is_empty b.pending)) [
    | inl e ↦ rw e (page_step page b h)
    | inr e ↦ rw e h
  ]

  pub add_piece_keeps :
      (page : Option ℕ) (piece : Text) (b : Builder) → P b → P (add_piece cfg page piece b)
  unfolding add_piece
  add_piece_keeps page piece b h =
      append_step piece (set_page page (make_room cfg piece b))
        (set_page_keeps page (make_room cfg piece b) (make_room_keeps piece b h))

  pub add_pieces_keeps :
      (page : Option ℕ) (pieces : List Text) (b : Builder) → P b → P (add_pieces cfg page pieces b)
  unfolding add_pieces
  add_pieces_keeps page [] b h = h
  add_pieces_keeps page (p ∷ ps) b h =
      add_pieces_keeps page ps (add_piece cfg page p b) (add_piece_keeps page p b h)

  pub emit_all_keeps :
      (page : Option ℕ) (texts : List Text) (b : Builder) → P b → P (emit_all page texts b)
  unfolding emit_all
  emit_all_keeps page [] b h = h
  emit_all_keeps page (t ∷ ts) b h =
      emit_all_keeps page ts (emit t table_draft page b) (emit_step t page b h)

  add_text_keeps : (block : Block) (b : Builder) → P b → P (add_text cfg block b)
  unfolding add_text
  add_text_keeps block b h =
      add_pieces_keeps block.page (split_to_limit block.text cfg.target_tokens) b h

  add_table_keeps : (block : Block) (b : Builder) → P b → P (add_table cfg block b)
  unfolding add_table
  add_table_keeps block b h =
      overlap_step (emit_all block.page (pack_table cfg.target_tokens block) (flush cfg b)) (
        emit_all_keeps block.page (pack_table cfg.target_tokens block) (flush cfg b)
          (flush_keeps b h))

  add_typed_keeps :
      (t : BlockType) (block : Block) (b : Builder) → P b → P (add_typed t cfg block b)
  unfolding add_typed
  add_typed_keeps heading block b h = section_step block b h
  add_typed_keeps table block b h = add_table_keeps block b h
  add_typed_keeps paragraph block b h = add_text_keeps block b h
  add_typed_keeps list_item block b h = add_text_keeps block b h
  add_typed_keeps code block b h = add_text_keeps block b h

  pub add_block_keeps : (block : Block) (b : Builder) → P b → P (add_block cfg block b)
  unfolding add_block
  add_block_keeps block b h = add_typed_keeps block.type block b h

  pub add_blocks_keeps : (blocks : List Block) (b : Builder) → P b → P (add_blocks cfg blocks b)
  unfolding add_blocks
  add_blocks_keeps [] b h = h
  add_blocks_keeps (x ∷ xs) b h = add_blocks_keeps xs (add_block cfg x b) (add_block_keeps x b h)
