-- ===== src/Chunking/Builder/Outline.antt =====
-- The builder's stack of headings is the outline of the headings read so far.
use atlas_knowledge.Common.{
  ℕ, ◌≡◌, refl, ◌∙◌, ap, List, [], ◌∷◌, Bool-cases, inl, inr, arith, is_empty, ltb, leb, min,
  if◌then◌else◌, Option, Text, true, false,
}
use atlas_knowledge.Documents.{
  Block, BlockType, heading, paragraph, list_item, table, code, ChunkingConfig, table_draft,
}
use atlas_knowledge.Chunking.Table.{pack_table}
use atlas_knowledge.Chunking.Split.{split_to_limit}
use atlas_knowledge.Chunking.Builder.{
  Builder, empty_builder, emit, flush, add_typed, add_block, add_blocks, level_of, pop_headings,
  add_piece, add_pieces, emit_all,
}

-- Of the headings, latest first, those that enclose the present place: each has a lower level than
-- all that come after it, and than `limit`.
pub enclosing_below : ℕ → List (ℕ × Text) → List (ℕ × Text)
enclosing_below limit [] = []
enclosing_below limit ((l, title) ∷ hs) =
    let inner = (l, title) ∷ enclosing_below l hs in
    let outer = enclosing_below limit hs in if ltb l limit then inner else outer

pub enclosing : List (ℕ × Text) → List (ℕ × Text)
unfolding enclosing_below
enclosing [] = []
enclosing ((l, title) ∷ hs) = (l, title) ∷ enclosing_below l hs

-- The headings among the blocks, latest first, on top of earlier ones.
abbrev heading_of : BlockType → Block → List (ℕ × Text) → List (ℕ × Text)
heading_of heading block earlier = (level_of block.level, block.text) ∷ earlier
heading_of _ block earlier = earlier

pub headings_after : List (ℕ × Text) → List Block → List (ℕ × Text)
headings_after earlier [] = earlier
headings_after earlier (block ∷ blocks) =
    headings_after (heading_of block.type block earlier) blocks

pop-enclosing_below :
    (level limit : ℕ) (hs : List (ℕ × Text))
    → pop_headings level (enclosing_below limit hs) ≡ enclosing_below (min level limit) hs
unfolding pop_headings enclosing_below
pop-enclosing_below level limit [] = refl
pop-enclosing_below level limit ((l, title) ∷ hs) = elim (Bool-cases (ltb l limit)) [
  | inl e ↦ elim (Bool-cases (leb level l)) [
    | inl f ↦
        let out : ltb l (min level limit) ≡ false = ground arith in
        let low : min level l ≡ level = ground arith in
        let same : min level limit ≡ level = ground arith in
        rw (e, f, out, same) (rw (pop-enclosing_below level l hs, low))
    | inr f ↦ let inside : ltb l (min level limit) ≡ true = ground arith in rw (e, f, inside)
  ]
  | inr e ↦
      let out : ltb l (min level limit) ≡ false = ground arith in
      rw (e, out) (pop-enclosing_below level limit hs)
]

pop-enclosing :
    (level : ℕ) (hs : List (ℕ × Text))
    → pop_headings level (enclosing hs) ≡ enclosing_below level hs
unfolding pop_headings enclosing
pop-enclosing level [] = refl
pop-enclosing level ((l, title) ∷ hs) = elim (Bool-cases (leb level l)) [
  | inl f ↦
      let out : ltb l level ≡ false = ground arith in
      let low : min level l ≡ level = ground arith in
      rw (f, out) (rw (pop-enclosing_below level l hs, low))
  | inr f ↦ let inside : ltb l level ≡ true = ground arith in rw (f, inside)
]

pub headings-flush : (cfg : ChunkingConfig) (b : Builder) → (flush cfg b).headings ≡ b.headings
unfolding flush
headings-flush cfg b = elim (Bool-cases (is_empty b.pending)) [ inl e ↦ rw e | inr e ↦ rw e ]

pub headings-add_piece :
    (cfg : ChunkingConfig) (page : Option ℕ) (piece : Text) (b : Builder)
    → (add_piece cfg page piece b).headings ≡ b.headings
unfolding add_piece
headings-add_piece cfg page piece b = ground (arith, headings-flush cfg b)

headings-add_pieces :
    (cfg : ChunkingConfig) (page : Option ℕ) (pieces : List Text) (b : Builder)
    → (add_pieces cfg page pieces b).headings ≡ b.headings
unfolding add_pieces
headings-add_pieces cfg page [] b = refl
headings-add_pieces cfg page (p ∷ ps) b =
    headings-add_pieces cfg page ps (add_piece cfg page p b) ∙ headings-add_piece cfg page p b

headings-emit_all :
    (page : Option ℕ) (texts : List Text) (b : Builder)
    → (emit_all page texts b).headings ≡ b.headings
unfolding emit_all
headings-emit_all page [] b = refl
headings-emit_all page (t ∷ ts) b = headings-emit_all page ts (emit t table_draft page b)

module _ (cfg : ChunkingConfig) (earlier : List (ℕ × Text)) where
  add_typed-enclosing :
      (t : BlockType) (block : Block) (b : Builder)
      → b.headings ≡ enclosing earlier
      → (add_typed t cfg block b).headings ≡ enclosing (heading_of t block earlier)
  unfolding add_typed enclosing
  add_typed-enclosing heading block b h =
      let level = level_of block.level in
      ap (λ hs. (level, block.text) ∷ pop_headings level hs) (headings-flush cfg b ∙ h)
      ∙ ap (λ hs. (level, block.text) ∷ hs) (pop-enclosing level earlier)
  add_typed-enclosing table block b h =
      headings-emit_all block.page (pack_table cfg.target_tokens block) (flush cfg b)
      ∙ headings-flush cfg b
      ∙ h
  add_typed-enclosing paragraph block b h =
      headings-add_pieces cfg block.page (split_to_limit block.text cfg.target_tokens) b ∙ h
  add_typed-enclosing list_item block b h =
      headings-add_pieces cfg block.page (split_to_limit block.text cfg.target_tokens) b ∙ h
  add_typed-enclosing code block b h =
      headings-add_pieces cfg block.page (split_to_limit block.text cfg.target_tokens) b ∙ h

add_blocks-enclosing_from :
    (cfg : ChunkingConfig) (blocks : List Block) (earlier : List (ℕ × Text)) (b : Builder)
    → b.headings ≡ enclosing earlier
    → (add_blocks cfg blocks b).headings ≡ enclosing (headings_after earlier blocks)
unfolding add_blocks headings_after
add_blocks-enclosing_from cfg [] earlier b h = h
add_blocks-enclosing_from cfg (x ∷ xs) earlier b h =
    add_blocks-enclosing_from cfg xs (heading_of x.type x earlier) (add_block cfg x b)
      (unfold add_block in add_typed-enclosing cfg earlier x.type x b h)

-- After any blocks the stack of headings holds, innermost first, exactly the headings read so far
-- that no later heading of the same level or a lower one has closed.
pub add_blocks-enclosing :
    (cfg : ChunkingConfig) (blocks : List Block)
    → (add_blocks cfg blocks empty_builder).headings ≡ enclosing (headings_after [] blocks)
add_blocks-enclosing cfg blocks =
    add_blocks-enclosing_from cfg blocks [] empty_builder (unfold enclosing in refl)
