-- ===== src/Chunking/Builder/Coverage.antt =====
-- Nothing is dropped: what a text block or a table holds comes out under the right headings.
use mathlib.Core.List.{reverse}
use atlas_knowledge.Common.{
  ℕ, ◌≡◌, refl, ◌∙◌, ap, List, [], ◌∷◌, ◌++◌, Bool-cases, ◌⊎◌, inl, inr, is_empty, true, Option,
  some, Text, join, Contains, Occurs, Occurs-append_left, Occurs-append_right, Occurs-concat,
  Contains-self, Contains-nil, Contains-trans, Contains-join,
}
use atlas_knowledge.Documents.{
  Block, BlockType, heading, paragraph, list_item, table, code, ChunkingConfig, ChunkDraft,
  table_draft,
}
use atlas_knowledge.Chunking.Table.{pack_table}
use atlas_knowledge.Chunking.Split.{split_to_limit}
use atlas_knowledge.Chunking.Builder.{
  Builder, empty_builder, emit, flush_pending, flush, start_section, append_piece, add_piece,
  add_pieces, add_text, emit_all, add_table, add_typed, add_block, add_blocks, chunk, titles,
  draft_parts, prefix_part, line_end, make_room, set_page,
}
use atlas_knowledge.Chunking.Builder.Induction.{add_pieces_keeps, emit_all_keeps, add_blocks_keeps}
use atlas_knowledge.Chunking.Builder.Outline.{
  enclosing, headings_after, add_blocks-enclosing, headings-add_piece, headings-flush,
}

-- Some draft under these headings contains the text.
pub record Emitted (path : List (ℕ × Text)) (piece : Text) (drafts : List ChunkDraft) : Type 0 where
  pub draft : ChunkDraft
  pub listed : Occurs draft drafts
  pub contained : Contains draft.text piece
  pub under : draft.meta.heading_path ≡ some (reverse (titles path))

Emitted-more :
    {path : List (ℕ × Text)} {piece : Text} (drafts : List ChunkDraft) (d : ChunkDraft)
    → Emitted path piece drafts
    → Emitted path piece (drafts ++ d ∷ [])
Emitted-more drafts d h = record {
  draft = h.draft;
  listed = Occurs-append_left h.draft drafts (d ∷ []) h.listed;
  contained = h.contained;
  under = h.under;
}

-- The body of a flush stands in the text of its draft.
Occurs-body : (body : Text) → Occurs body (prefix_part (some body)) ⊎ (body ≡ [])
unfolding prefix_part
Occurs-body [] = inr refl
Occurs-body (c ∷ s) = inl (inl refl)

body-Contains : (b : Builder) (body : Text) → Contains (join line_end (draft_parts b body)) body
unfolding draft_parts
body-Contains b body = elim (Occurs-body body) [
  | inl o ↦ Contains-join line_end (draft_parts b body) body (
      Occurs-append_right body (prefix_part (some b.overlap)) _
        (Occurs-append_right body (prefix_part b.section_prefix) (prefix_part (some body)) o))
  | inr e ↦ rw e (Contains-nil _)
]

module _ (cfg : ChunkingConfig) (path : List (ℕ × Text)) (piece : Text) where
  -- The piece waits in the buffer under its headings, or has come out.
  Held : Builder → Type 0
  Held b = (Occurs piece b.pending × (b.headings ≡ path)) ⊎ Emitted path piece b.drafts

  flush_pending-Emitted : (b : Builder) → Held b → Emitted path piece (flush_pending cfg b).drafts
  unfolding flush_pending Held emit
  flush_pending-Emitted b (inl (o, e)) =
      let body = join line_end b.pending in
      record {
        draft = _;
        listed = Occurs-concat _ b.drafts;
        contained =
            Contains-trans (join line_end (draft_parts b body)) body piece (body-Contains b body)
              (Contains-join line_end b.pending piece o);
        under = ap (λ hs. some (reverse (titles hs))) e;
      }
  flush_pending-Emitted b (inr h) = Emitted-more b.drafts _ h

  not-Held : (b : Builder) → is_empty b.pending ≡ true → Held b → Emitted path piece b.drafts
  unfolding Held
  not-Held b e (inl (o, p)) = absurd (occurs_of_empty b.pending e o)
    where
      occurs_of_empty : (xs : List Text) → is_empty xs ≡ true → Occurs piece xs → ⊥
      occurs_of_empty [] e o = o
      occurs_of_empty (x ∷ xs) e o = cc
  not-Held b e (inr h) = h

  flush-Emitted : (b : Builder) → Held b → Emitted path piece (flush cfg b).drafts
  unfolding flush
  flush-Emitted b h = elim (Bool-cases (is_empty b.pending)) [
    | inl e ↦ rw e (not-Held b e h)
    | inr e ↦ rw e (flush_pending-Emitted b h)
  ]

  append_piece-Held : (p : Text) (b : Builder) → Held b → Held (append_piece p b)
  unfolding Held append_piece
  append_piece-Held p b (inl (o, e)) = inl (Occurs-append_left piece b.pending (p ∷ []) o, e)
  append_piece-Held p b (inr h) = inr h

  emit-Held :
      (text : Text) (page : Option ℕ) (b : Builder) → Held b → Held (emit text table_draft page b)
  unfolding Held emit
  emit-Held text page b (inl h) = inl h
  emit-Held text page b (inr h) = inr (Emitted-more b.drafts _ h)

  section-Held : (block : Block) (b : Builder) → Held b → Held (start_section cfg block b)
  unfolding Held start_section
  section-Held block b h = inr (flush-Emitted b h)

  flush_pending-Held : (b : Builder) → Held b → Held (flush_pending cfg b)
  unfolding Held
  flush_pending-Held b h = inr (flush_pending-Emitted b h)

  page_step : (page : Option ℕ) (b : Builder) → Held b → Held (record b { pending_page = page })
  unfolding Held
  page_step page b h = h

  overlap_step : (b : Builder) → Held b → Held (record b { overlap = [] })
  unfolding Held
  overlap_step b h = h

  add_pieces-Held :
      (page : Option ℕ) (pieces : List Text) (b : Builder)
      → b.headings ≡ path
      → Occurs piece pieces
      → Held (add_pieces cfg page pieces b)
  unfolding add_pieces
  add_pieces-Held page [] b e o = elim o [ ]
  add_pieces-Held page (p ∷ ps) b e (inl same) =
      add_pieces_keeps cfg Held flush_pending-Held page_step append_piece-Held emit-Held
        overlap_step section-Held page ps (add_piece cfg page p b)
        (unfold Held add_piece append_piece in
          inl (
            rw same (Occurs-concat p (set_page page (make_room cfg p b)).pending),
            headings-add_piece cfg page p b ∙ e,
          ))
  add_pieces-Held page (p ∷ ps) b e (inr o) =
      add_pieces-Held page ps (add_piece cfg page p b) (headings-add_piece cfg page p b ∙ e) o

  emit_all-Held :
      (page : Option ℕ) (texts : List Text) (b : Builder)
      → b.headings ≡ path
      → Occurs piece texts
      → Held (emit_all page texts b)
  unfolding emit_all
  emit_all-Held page [] b e o = elim o [ ]
  emit_all-Held page (t ∷ ts) b e (inl same) =
      emit_all_keeps cfg Held flush_pending-Held page_step append_piece-Held emit-Held overlap_step
        section-Held page ts (emit t table_draft page b)
        (unfold Held emit in
          inr (record {
            draft = _;
            listed = Occurs-concat _ b.drafts;
            contained = rw same (Contains-self t);
            under = ap (λ hs. some (reverse (titles hs))) e;
          }))
  emit_all-Held page (t ∷ ts) b e (inr o) =
      emit_all-Held page ts (emit t table_draft page b) (unfold emit in e) o

  finish-Emitted :
      (blocks : List Block) (b : Builder)
      → Held b
      → Emitted path piece (flush cfg (add_blocks cfg blocks b)).drafts
  finish-Emitted blocks b h = flush-Emitted (add_blocks cfg blocks b) (
      add_blocks_keeps cfg Held flush_pending-Held page_step append_piece-Held emit-Held
        overlap_step section-Held blocks b h)

add_blocks-append :
    (cfg : ChunkingConfig) (xs ys : List Block) (b : Builder)
    → add_blocks cfg (xs ++ ys) b ≡ add_blocks cfg ys (add_blocks cfg xs b)
unfolding add_blocks
add_blocks-append cfg [] ys b = refl
add_blocks-append cfg (x ∷ xs) ys b = add_blocks-append cfg xs ys (add_block cfg x b)

-- The texts that a block contributes, by its type; a heading contributes none of its own.
abbrev pub contribution : ChunkingConfig → BlockType → Block → List Text
contribution cfg heading block = []
contribution cfg table block = pack_table cfg.target_tokens block
contribution cfg _ block = split_to_limit block.text cfg.target_tokens

module _ (cfg : ChunkingConfig) (path : List (ℕ × Text)) (piece : Text) (block : Block)
    (b : Builder) (e : b.headings ≡ path) where
  add_typed-Held :
      (t : BlockType)
      → Occurs piece (contribution cfg t block)
      → Held cfg path piece (add_typed t cfg block b)
  unfolding add_typed add_text add_table
  add_typed-Held heading o = elim o [ ]
  add_typed-Held table o =
      overlap_step cfg path piece _
        (emit_all-Held cfg path piece block.page _ (flush cfg b) (headings-flush cfg b ∙ e) o)
  add_typed-Held paragraph o = add_pieces-Held cfg path piece block.page _ b e o
  add_typed-Held list_item o = add_pieces-Held cfg path piece block.page _ b e o
  add_typed-Held code o = add_pieces-Held cfg path piece block.page _ b e o

-- Nothing is dropped: whatever stands before and after it, each part of a text block and each
-- packed text of a table stands inside some draft of the document, and the heading path of that
-- draft is the outline at the block.
pub chunk-Emitted :
    (cfg : ChunkingConfig) (before : List Block) (block : Block) (after : List Block) (piece : Text)
    → Occurs piece (contribution cfg block.type block)
    → Emitted (enclosing (headings_after [] before)) piece (chunk (before ++ block ∷ after) cfg)
unfolding chunk
chunk-Emitted cfg before block after piece o =
    let path = enclosing (headings_after [] before) in
    let b = add_blocks cfg before empty_builder in
    rw (add_blocks-append cfg before (block ∷ after) empty_builder, chunk)
      (unfold add_blocks in
        finish-Emitted cfg path piece after (add_block cfg block b) (
          unfold add_block in
          add_typed-Held cfg path piece block b (add_blocks-enclosing cfg before) block.type o))
