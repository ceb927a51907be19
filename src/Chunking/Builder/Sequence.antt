-- ===== src/Chunking/Builder/Sequence.antt =====
-- The drafts come out numbered in order, each with the estimate of its text.
use atlas_knowledge.Common.{
  ℕ, suc, ◌+◌, ◌≡◌, refl, List, [], ◌∷◌, ◌++◌, Bool-cases, inl, inr, arith, is_empty, length,
  Option, Text,
}
use atlas_knowledge.Documents.{Block, ChunkingConfig, ChunkDraft, table_draft}
use atlas_knowledge.Chunking.Tokens.{estimate_tokens}
use atlas_knowledge.Chunking.Builder.{
  Builder, empty_builder, emit, flush_pending, start_section, append_piece, add_blocks, chunk,
}
use atlas_knowledge.Chunking.Builder.Induction.{flush_keeps, add_blocks_keeps}

-- The drafts from number `n` on: consecutive numbers, and the estimate of the text.
abbrev pub NumberedFrom : ℕ → List ChunkDraft → Type 0
NumberedFrom n [] = Unit
NumberedFrom n (d ∷ ds) =
    ((d.seq ≡ n) × (d.tokens ≡ estimate_tokens d.text)) × NumberedFrom (suc n) ds

NumberedFrom-append :
    (n : ℕ) (ds : List ChunkDraft) (d : ChunkDraft)
    → NumberedFrom n ds
    → d.seq ≡ n + length ds
    → d.tokens ≡ estimate_tokens d.text
    → NumberedFrom n (ds ++ d ∷ [])
NumberedFrom-append n [] d h e k = ((omega arith, k), tt)
NumberedFrom-append n (x ∷ ds) d h e k = (h.0, NumberedFrom-append (suc n) ds d h.1 (omega arith) k)

abbrev IsNumbered : Builder → Type 0
IsNumbered b = NumberedFrom 0 b.drafts

emit-IsNumbered :
    (text : Text) (page : Option ℕ) (b : Builder)
    → IsNumbered b
    → IsNumbered (emit text table_draft page b)
unfolding emit
emit-IsNumbered text page b h = NumberedFrom-append 0 b.drafts _ h (omega arith) refl

flush_pending-IsNumbered :
    (cfg : ChunkingConfig) (b : Builder) → IsNumbered b → IsNumbered (flush_pending cfg b)
unfolding flush_pending
flush_pending-IsNumbered cfg b h = NumberedFrom-append 0 b.drafts _ h (omega arith) refl

section-IsNumbered :
    (cfg : ChunkingConfig) (block : Block) (b : Builder)
    → IsNumbered b
    → IsNumbered (start_section cfg block b)
unfolding start_section
section-IsNumbered cfg block b h = elim (Bool-cases (is_empty b.pending)) [
  | inl e ↦ rw e h
  | inr e ↦ rw e (flush_pending-IsNumbered cfg b h)
]

append_piece-IsNumbered :
    (piece : Text) (b : Builder) → IsNumbered b → IsNumbered (append_piece piece b)
unfolding append_piece
append_piece-IsNumbered piece b h = h

-- The drafts of a document are numbered 0, 1, 2 and so on, and each carries the estimate of its own
-- text.
chunk-NumberedFrom :
    (blocks : List Block) (cfg : ChunkingConfig) → NumberedFrom 0 (chunk blocks cfg)
unfolding chunk
chunk-NumberedFrom blocks cfg =
    flush_keeps cfg IsNumbered (flush_pending-IsNumbered cfg) (λ page b h. h)
      append_piece-IsNumbered emit-IsNumbered (λ b h. h) (section-IsNumbered cfg)
      (add_blocks cfg blocks empty_builder)
      (add_blocks_keeps cfg IsNumbered (flush_pending-IsNumbered cfg) (λ page b h. h)
        append_piece-IsNumbered emit-IsNumbered (λ b h. h) (section-IsNumbered cfg) blocks
        empty_builder tt)
