-- ===== src/Parsing/Blocks/Rounds.antt =====
-- The loop of `finalize_document`: what a document that passes has.
use mathlib.Core.Path.{subst}
use atlas_knowledge.Common.{
  ◌≡◌, refl, inl, inr, ◌+◌, ◌≤◌, Bool, true, false, List, [], ◌∷◌, ◌++◌, append_assoc, append-nil,
  Option, none, some, Bool-cases, Option-cases, if◌then◌else◌, ltb, ltb-false→le, length, All,
  All-concat, Text, ok, err, arith,
}
use atlas_knowledge.Documents.{Block}
use atlas_knowledge.Parsing.Blocks.{
  too_long, max_document_chars, ParseWarning, NormalizedDocument, block_chars, finalize_block,
  warning_of, Finalizing, keep_block, finalize_step, finalize_blocks, finalize_document,
}
use atlas_knowledge.Parsing.Blocks.Bounds.{
  IsWithin, IsResult, total_chars, total_chars-append, normal_block, normal_blocks,
  finalize_block-IsResult,
}

-- The variables of the loop after some blocks: within the limits, and nothing lost without a mark.
abbrev IsRunning : Finalizing → List Block → Type 0
IsRunning f normal =
    (f.total ≡ total_chars f.kept)
    × (f.total ≤ max_document_chars)
    × All IsWithin f.kept
    × (f.warnings ≡ [] → f.kept ≡ normal)

marked : (ws : List ParseWarning) (w : ParseWarning) → ws ++ w ∷ [] ≡ [] → ⊥
marked [] w h = cc
marked (v ∷ ws) w h = cc

keep_block-IsRunning :
    (f : Finalizing) (normal added : List Block) (w : ParseWarning) (r : Block × Bool)
    → IsRunning f normal
    → IsResult added (some r)
    → {f' : Finalizing} → keep_block f w r ≡ some f'
    → IsRunning f' (normal ++ added)
keep_block-IsRunning f normal added w (b, truncated) (t, m, within, same) (fits, whole) {f'} h =
    elim (Bool-cases (ltb max_document_chars (f.total + block_chars b))) [
      | inl e ↦ cc
      | inr e ↦
          let kept_block : some (record {
            kept = f.kept ++ b ∷ [];
            warnings = if truncated then f.warnings ++ w ∷ [] else f.warnings;
            total = f.total + block_chars b;
          })
              ≡ some f' =
            rw e at h in
          let next : record {
            kept = f.kept ++ b ∷ [];
            warnings = if truncated then f.warnings ++ w ∷ [] else f.warnings;
            total = f.total + block_chars b;
          }
              ≡ f' =
            cc kept_block in
          subst (λ g. IsRunning g (normal ++ added)) next
            (
              omega (arith, total_chars-append f.kept b),
              ltb-false→le max_document_chars (f.total + block_chars b) e,
              All-concat IsWithin f.kept within fits,
              nothing_lost truncated whole,
            )
    ]
  where
    nothing_lost :
        (cut : Bool)
        → (cut ≡ false → added ≡ b ∷ [])
        → (if cut then f.warnings ++ w ∷ [] else f.warnings) ≡ []
        → f.kept ++ b ∷ [] ≡ normal ++ added
    nothing_lost true k none_left = elim (marked f.warnings w none_left) [ ]
    nothing_lost false k none_left = rw (same none_left, k refl) refl

-- One round, by what became of its block.
finalize_step-IsRunning :
    (f : Finalizing) (normal : List Block) (b : Block) {f' : Finalizing}
    → IsRunning f normal
    → finalize_step f b ≡ some f'
    → IsRunning f' (normal ++ normal_block b b.rows)
finalize_step-IsRunning f normal b {f'} running h =
    by_result (finalize_block b b.rows) (finalize_block-IsResult b b.rows refl) h
  where
    by_result :
        (r : Option (Block × Bool))
        → IsResult (normal_block b b.rows) r
        → elim r [
          | none ↦ some f
          | some result ↦ keep_block f (warning_of b.rows (length f.kept)) result
        ]
          ≡ some f'
        → IsRunning f' (normal ++ normal_block b b.rows)
    by_result none left_out k =
        let same : f ≡ f' = cc k in
        subst (λ g. IsRunning g (normal ++ normal_block b b.rows)) same
          (rw (left_out, append-nil) running)
    by_result (some r) fits k =
        keep_block-IsRunning f normal (normal_block b b.rows) (warning_of b.rows (length f.kept)) r
          running fits k

finalize_blocks-IsRunning :
    (f : Finalizing) (normal : List Block) (bs : List Block) {f' : Finalizing}
    → IsRunning f normal
    → finalize_blocks f bs ≡ some f'
    → IsRunning f' (normal ++ normal_blocks bs)
unfolding finalize_blocks
finalize_blocks-IsRunning f normal [] {f'} running h =
    let same : f ≡ f' = cc h in subst (λ g. IsRunning g (normal ++ [])) same (rw append-nil running)
finalize_blocks-IsRunning f normal (b ∷ bs) {f'} running h =
    elim (Option-cases (finalize_step f b)) [
      | inl e ↦ let bad : none ≡ some f' = rw (e, finalize_blocks) at h in cc bad
      | inr (g, e) ↦ rw (← append_assoc normal (normal_block b b.rows) (normal_blocks bs)) (
          finalize_blocks-IsRunning g (normal ++ normal_block b b.rows) bs
            (finalize_step-IsRunning f normal b running e) (rw (e, finalize_blocks) at h))
    ]

-- A document that passes has at most max_document_chars characters; each block has a text of 1 to
-- max_block_chars characters, or is a table of at most that many or of a single row; and if nothing
-- is marked as cut, its blocks are the parser's, normalised, without those that are left empty.
pub finalize_document_lem :
    (blocks : List Block) (source_mime : Text) {doc : NormalizedDocument}
    → finalize_document blocks source_mime ≡ ok doc
    → (total_chars doc.blocks ≤ max_document_chars)
      × All IsWithin doc.blocks
      × (doc.warnings ≡ [] → doc.blocks ≡ normal_blocks blocks)
unfolding finalize_document
finalize_document_lem blocks source_mime {doc} h =
    elim (Option-cases (finalize_blocks (record { kept = []; warnings = []; total = 0 }) blocks)) [
      | inl e ↦ let bad : err too_long ≡ ok doc = rw (e, finalize_document) at h in cc bad
      | inr (f, e) ↦
          let (t, m, within, same) =
            finalize_blocks-IsRunning (record { kept = []; warnings = []; total = 0 }) [] blocks
              (refl, omega arith, tt, λ w. refl) e in
          let shown : ok
                (record { blocks = f.kept; source_mime = source_mime; warnings = f.warnings })
              ≡ ok doc =
            rw (e, finalize_document) at h in
          let it : record { blocks = f.kept; source_mime = source_mime; warnings = f.warnings }
              ≡ doc =
            cc shown in
          subst
            (λ (d : NormalizedDocument).
              (total_chars d.blocks ≤ max_document_chars)
              × All IsWithin d.blocks
              × (d.warnings ≡ [] → d.blocks ≡ normal_blocks blocks))
            it (omega (arith, t, m), within, same)
    ]
