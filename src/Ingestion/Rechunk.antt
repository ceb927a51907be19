-- ===== src/Ingestion/Rechunk.antt =====
-- Replacing the chunks of a document: what it leaves, and that doing it again adds nothing.
use atlas_knowledge.Common.{
  ℕ, suc, ◌≡◌, refl, ap, ◌∙◌, Bool, not, List, [], ◌∷◌, ◌++◌, append-nil, Bool-cases, inl, inr,
  ◌==◌, ==_refl, keep,
}
use atlas_knowledge.Documents.{ChunkDraft}
use atlas_knowledge.Ingestion.World.{
  DocumentChunk, World, of_document, draft_row, draft_rows, replace_for_document,
}

keep-append :
    (p : DocumentChunk → Bool) (xs ys : List DocumentChunk)
    → keep p (xs ++ ys) ≡ keep p xs ++ keep p ys
keep-append p [] ys = refl
keep-append p (x ∷ xs) ys = elim (Bool-cases (p x)) [
  | inl e ↦ rw (e, keep-append p xs ys)
  | inr e ↦ rw (e, keep-append p xs ys)
]

abbrev pub other : ℕ → DocumentChunk → Bool
other i c = not (of_document i c)

keep-draft_rows :
    (ids : ℕ → ℕ) (n i : ℕ) (ds : List ChunkDraft)
    → keep (of_document i) (draft_rows ids n i ds) ≡ draft_rows ids n i ds
unfolding draft_rows
keep-draft_rows ids n i [] = refl
keep-draft_rows ids n i (d ∷ ds) =
    rw (==_refl i) (ap (λ r. draft_row i (ids n) d ∷ r) (keep-draft_rows ids (suc n) i ds))

drop-draft_rows :
    (ids : ℕ → ℕ) (n i : ℕ) (ds : List ChunkDraft) → keep (other i) (draft_rows ids n i ds) ≡ []
unfolding draft_rows
drop-draft_rows ids n i [] = refl
drop-draft_rows ids n i (d ∷ ds) = rw (==_refl i) (drop-draft_rows ids (suc n) i ds)

keep-keep_other : (i : ℕ) (cs : List DocumentChunk) → keep (of_document i) (keep (other i) cs) ≡ []
keep-keep_other i [] = refl
keep-keep_other i (c ∷ cs) = elim (Bool-cases (c.document_id == i)) [
  | inl e ↦ rw e (keep-keep_other i cs)
  | inr e ↦ rw (e, e) (keep-keep_other i cs)
]

other-other :
    (i : ℕ) (cs : List DocumentChunk) → keep (other i) (keep (other i) cs) ≡ keep (other i) cs
other-other i [] = refl
other-other i (c ∷ cs) = elim (Bool-cases (c.document_id == i)) [
  | inl e ↦ rw e (other-other i cs)
  | inr e ↦ rw (e, e) (ap (λ r. c ∷ r) (other-other i cs))
]

other-replaced :
    (ids : ℕ → ℕ) (i : ℕ) (drafts : List ChunkDraft) (w : World)
    → keep (other i) (replace_for_document ids i drafts w).chunks ≡ keep (other i) w.chunks
unfolding replace_for_document
other-replaced ids i drafts w =
    keep-append (other i) (keep (other i) w.chunks) (draft_rows ids 0 i drafts)
    ∙ rw (other-other i w.chunks, drop-draft_rows ids 0 i drafts)
        (append-nil (keep (other i) w.chunks))

-- After the replacement the document's rows are exactly the rows of the drafts, those of all other
-- documents are what they were, and replacing once more, whatever was there and under whatever ids,
-- gives the same rows as doing it only once: a chunk stage that runs again makes no duplicates.
pub replace_for_document_exact :
    (ids ids' : ℕ → ℕ) (i : ℕ) (drafts drafts' : List ChunkDraft) (w : World)
    → (keep (of_document i) (replace_for_document ids i drafts w).chunks
        ≡ draft_rows ids 0 i drafts)
      × (keep (other i) (replace_for_document ids i drafts w).chunks ≡ keep (other i) w.chunks)
      × ((replace_for_document ids i drafts (replace_for_document ids' i drafts' w)).chunks
          ≡ (replace_for_document ids i drafts w).chunks)
unfolding replace_for_document
replace_for_document_exact ids ids' i drafts drafts' w = (
  keep-append (of_document i) (keep (other i) w.chunks) (draft_rows ids 0 i drafts)
      ∙ rw (keep-keep_other i w.chunks) (keep-draft_rows ids 0 i drafts),
  other-replaced ids i drafts w,
  ap (λ r. r ++ draft_rows ids 0 i drafts) (other-replaced ids' i drafts' w),
)
