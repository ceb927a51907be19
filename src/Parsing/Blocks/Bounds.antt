-- ===== src/Parsing/Blocks/Bounds.antt =====
-- The limits of a parsed document, and what is lost where none of them is met.
use atlas_knowledge.Common.{
  ◌≡◌, refl, sym, ap, ◌∙◌, ◌⊎◌, inl, inr, ℕ, ◌+◌, ◌≤◌, ◌<◌, Bool, false, not, ◌&&◌, List, [], ◌∷◌,
  ◌++◌, append_assoc, append-nil, Option, none, some, Bool-cases, ltb, ltb-false→le, is_empty, take,
  length, length-take, total_length, Text, arith,
}
use atlas_knowledge.Documents.{Block}
use atlas_knowledge.Parsing.Normal.{normalize_text}
use atlas_knowledge.Parsing.Blocks.{
  max_block_chars, normalize_rows, rows_chars, cap_rows_from, block_chars, finalize_rows,
  finalize_text, finalize_block,
}

-- A table within the limit, or of a single row.
abbrev pub IsCapped : List (List Text) → Type 0
IsCapped rows = (rows_chars rows ≤ max_block_chars) ⊎ (length rows ≡ 1)

abbrev pub FitsBlock : Text → Option (List (List Text)) → Type 0
FitsBlock text none = (0 < length text) × (length text ≤ max_block_chars)
FitsBlock text (some rows) = IsCapped rows

-- A block with text within the limit, or a table within the limit or of a single row.
abbrev pub IsWithin : Block → Type 0
IsWithin b = FitsBlock b.text b.rows

abbrev pub total_chars : List Block → ℕ
total_chars [] = 0
total_chars (b ∷ bs) = block_chars b + total_chars bs

-- The block with its text or its cells normalised, unless nothing is left of it.
abbrev pub normal_text : Block → Text → List Block
normal_text b [] = []
normal_text b (c ∷ text) = record b { text = c ∷ text } ∷ []

abbrev pub normal_rows : Block → List (List Text) → List Block
normal_rows b [] = []
normal_rows b (row ∷ rows) = record b { rows = some (row ∷ rows); text = [] } ∷ []

abbrev pub normal_block : Block → Option (List (List Text)) → List Block
normal_block b none = normal_text b (normalize_text b.text)
normal_block b (some rows) = normal_rows b (normalize_rows rows)

-- The blocks that have anything left, normalised.
abbrev pub normal_blocks : List Block → List Block
normal_blocks [] = []
normal_blocks (b ∷ bs) = normal_block b b.rows ++ normal_blocks bs

rows_chars-append :
    (rows : List (List Text)) (row : List Text)
    → rows_chars (rows ++ row ∷ []) ≡ rows_chars rows + total_length row
rows_chars-append [] row = omega arith
rows_chars-append (r ∷ rows) row = omega (arith, rows_chars-append rows row)

pub total_chars-append :
    (bs : List Block) (b : Block) → total_chars (bs ++ b ∷ []) ≡ total_chars bs + block_chars b
total_chars-append [] b = omega arith
total_chars-append (x ∷ bs) b = omega (arith, total_chars-append bs b)

-- One row more, where the test of the loop lets it pass.
IsCapped-append :
    (kept : List (List Text)) (row : List Text)
    → (ltb max_block_chars (rows_chars kept + total_length row) && not (is_empty kept)) ≡ false
    → IsCapped (kept ++ row ∷ [])
IsCapped-append [] row h = inr refl
IsCapped-append (r ∷ kept) row h =
    elim (Bool-cases (ltb max_block_chars (rows_chars (r ∷ kept) + total_length row))) [
      | inl e ↦ cc
      | inr e ↦ inl (
          omega (
            arith,
            rows_chars-append (r ∷ kept) row,
            ltb-false→le max_block_chars (rows_chars (r ∷ kept) + total_length row) e,
          ))
    ]

-- What the cut leaves: all rows if it makes no mark.
cap_rows_from_lem :
    (kept : List (List Text)) (total : ℕ) (rows : List (List Text))
    → IsCapped kept
    → total ≡ rows_chars kept
    → IsCapped (cap_rows_from kept total rows).0
      × ((cap_rows_from kept total rows).1 ≡ false
          → (cap_rows_from kept total rows).0 ≡ kept ++ rows)
unfolding cap_rows_from
cap_rows_from_lem kept total [] c t = (c, λ h. sym (append-nil kept))
cap_rows_from_lem kept total (row ∷ rows) c t =
    elim (Bool-cases (ltb max_block_chars (total + total_length row) && not (is_empty kept))) [
      | inl e ↦ rw e (c, λ h. cc)
      | inr e ↦
          let (c', same) =
            cap_rows_from_lem (kept ++ row ∷ []) (total + total_length row) rows
              (IsCapped-append kept row (rw t at e)) (omega (arith, rows_chars-append kept row)) in
          rw e (c', λ h. same h ∙ append_assoc kept (row ∷ []) rows)
    ]

-- A result of a block: within the limits, and the normalised block if it was not cut.
abbrev pub IsResult : List Block → Option (Block × Bool) → Type 0
IsResult normal none = normal ≡ []
IsResult normal (some (b, truncated)) = IsWithin b × (truncated ≡ false → normal ≡ b ∷ [])

FitsBlock-of_text :
    (text : Text) (rows : Option (List (List Text)))
    → rows ≡ none
    → 0 < length text
    → length text ≤ max_block_chars
    → FitsBlock text rows
FitsBlock-of_text text none r l m = (l, m)
FitsBlock-of_text text (some rows) r l m = cc

finalize_text-IsResult :
    (b : Block) (text : Text) → b.rows ≡ none → IsResult (normal_text b text) (finalize_text b text)
unfolding finalize_text
finalize_text-IsResult b [] r = refl
finalize_text-IsResult b (c ∷ text) r =
    elim (Bool-cases (ltb max_block_chars (length (c ∷ text)))) [
      | inl e ↦ rw e (
        FitsBlock-of_text (take max_block_chars (c ∷ text)) b.rows r
            (omega (arith, length-take max_block_chars (c ∷ text)))
            (omega (arith, length-take max_block_chars (c ∷ text))),
        λ h. cc,
      )
      | inr e ↦ rw e (
        FitsBlock-of_text (c ∷ text) b.rows r (omega arith)
            (ltb-false→le max_block_chars (length (c ∷ text)) e),
        λ h. refl,
      )
    ]

finalize_rows-IsResult :
    (b : Block) (rows : List (List Text)) → IsResult (normal_rows b rows) (finalize_rows b rows)
unfolding finalize_rows
finalize_rows-IsResult b [] = refl
finalize_rows-IsResult b (row ∷ rows) =
    let (c, same) = cap_rows_from_lem [] 0 (row ∷ rows) (inl (omega arith)) (omega arith) in
    (c, λ h. ap (λ rs. record b { rows = some rs; text = [] } ∷ []) (sym (same h)))

pub finalize_block-IsResult :
    (b : Block) (rows : Option (List (List Text)))
    → b.rows ≡ rows
    → IsResult (normal_block b rows) (finalize_block b rows)
unfolding finalize_block
finalize_block-IsResult b none r = finalize_text-IsResult b (normalize_text b.text) r
finalize_block-IsResult b (some rows) r = finalize_rows-IsResult b (normalize_rows rows)
