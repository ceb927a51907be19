-- ===== src/Ingestion/Uploads/Deletion.antt =====
-- What a delete takes away, and what it leaves.
use mathlib.Core.Path.{subst}
use atlas_knowledge.Common.{
  ℕ, ◌≡◌, ◌⊎◌, refl, sym, ap, Bool, true, false, not, List, [], ◌∷◌, ◌++◌, none, ◌==◌, Bool-cases,
  Option-cases, inl, inr, arith, if◌then◌else◌, keep, find_first, find_first_passes, Text, Outcome,
  ok, err,
}
use atlas_knowledge.Errors.{AppError, document_not_found}
use atlas_knowledge.Ingestion.World.{
  Document, DocumentChunk, IngestionJob, World, purge, has_id, get_document, of_document, enqueue,
}
use atlas_knowledge.Ingestion.Uploads.Restart.{of_job, owned_by, get_owned, delete_rows, delete}

find-removed :
    (i : ℕ) (ds : List Document) → find_first (has_id i) (keep (λ d. not (has_id i d)) ds) ≡ none
find-removed i [] = refl
find-removed i (d ∷ ds) = elim (Bool-cases (d.id == i)) [
  | inl p ↦ rw p (find-removed i ds)
  | inr p ↦ rw (p, p) (find-removed i ds)
]

find-kept :
    (i j : ℕ) (ds : List Document)
    → (i == j) ≡ false
    → find_first (has_id j) (keep (λ d. not (has_id i d)) ds) ≡ find_first (has_id j) ds
find-kept i j [] n = refl
find-kept i j (d ∷ ds) n = elim (Bool-cases (d.id == i)) [
  | inl p ↦ let away : (d.id == j) ≡ false = ground arith in rw (p, away) (find-kept i j ds n)
  | inr p ↦ elim (Bool-cases (d.id == j)) [
    | inl q ↦ rw (p, q)
    | inr q ↦ rw (p, q) (find-kept i j ds n)
  ]
]

chunks-removed :
    (i : ℕ) (cs : List DocumentChunk)
    → keep (of_document i) (keep (λ c. not (of_document i c)) cs) ≡ []
chunks-removed i [] = refl
chunks-removed i (c ∷ cs) = elim (Bool-cases (c.document_id == i)) [
  | inl p ↦ rw p (chunks-removed i cs)
  | inr p ↦ rw (p, p) (chunks-removed i cs)
]

chunks-kept :
    (i j : ℕ) (cs : List DocumentChunk)
    → (i == j) ≡ false
    → keep (of_document j) (keep (λ c. not (of_document i c)) cs) ≡ keep (of_document j) cs
chunks-kept i j [] n = refl
chunks-kept i j (c ∷ cs) n = elim (Bool-cases (c.document_id == i)) [
  | inl p ↦
      let away : (c.document_id == j) ≡ false = ground arith in rw (p, away) (chunks-kept i j cs n)
  | inr p ↦ elim (Bool-cases (c.document_id == j)) [
    | inl q ↦ rw (p, q) (ap (λ r. c ∷ r) (chunks-kept i j cs n))
    | inr q ↦ rw (p, q) (chunks-kept i j cs n)
  ]
]

jobs-removed :
    (i : ℕ) (js : List IngestionJob) → keep (of_job i) (keep (λ j. not (of_job i j)) js) ≡ []
jobs-removed i [] = refl
jobs-removed i (j ∷ js) = elim (Bool-cases (j.document_id == i)) [
  | inl p ↦ rw p (jobs-removed i js)
  | inr p ↦ rw (p, p) (jobs-removed i js)
]

jobs-kept :
    (i j : ℕ) (js : List IngestionJob)
    → (i == j) ≡ false
    → keep (of_job j) (keep (λ x. not (of_job i x)) js) ≡ keep (of_job j) js
jobs-kept i j [] n = refl
jobs-kept i j (x ∷ js) n = elim (Bool-cases (x.document_id == i)) [
  | inl p ↦
      let away : (x.document_id == j) ≡ false = ground arith in rw (p, away) (jobs-kept i j js n)
  | inr p ↦ elim (Bool-cases (x.document_id == j)) [
    | inl q ↦ rw (p, q) (ap (λ r. x ∷ r) (jobs-kept i j js n))
    | inr q ↦ rw (p, q) (jobs-kept i j js n)
  ]
]

-- Everything about the document `i` is gone but its files.
abbrev pub Gone : ℕ → World → Type 0
Gone i after =
    (get_document i after ≡ none)
    × (keep (of_document i) after.chunks ≡ [])
    × (keep (of_job i) after.jobs ≡ [])

-- The document `j` is as before, with its chunks and jobs.
abbrev pub Spared : ℕ → World → World → Type 0
Spared j w after =
    (get_document j after ≡ get_document j w)
    × (keep (of_document j) after.chunks ≡ keep (of_document j) w.chunks)
    × (keep (of_job j) after.jobs ≡ keep (of_job j) w.jobs)

-- The sources and files are as before, and the queue got the purge of this prefix, if it takes it.
abbrev pub OrdersPurge : Text → Bool → World → World → Type 0
OrdersPurge prefix queue_fails w after =
    (after.sources ≡ w.sources)
    × (after.files ≡ w.files)
    × (after.queue ≡ (if queue_fails then w.queue else w.queue ++ purge prefix ∷ []))

abbrev pub Deleted :
    (ℕ → Text) → Bool → ℕ → ℕ → World → Outcome AppError (Unit {0}) × World → Type 0
Deleted prefix queue_fails i j w r =
    (r.0 ≡ ok tt) × Gone i r.1 × Spared j w r.1 × OrdersPurge (prefix i) queue_fails w r.1

abbrev after_delete : (ℕ → Text) → Bool → ℕ → World → World
after_delete prefix queue_fails i w =
    if queue_fails then delete_rows i w else enqueue (purge (prefix i)) (delete_rows i w)

deleted :
    (prefix : ℕ → Text) (queue_fails : Bool) (i j : ℕ) (w : World)
    → (i == j) ≡ false
    → Deleted prefix queue_fails i j w (ok tt, after_delete prefix queue_fails i w)
unfolding delete_rows
deleted prefix true i j w n = (
  refl,
  (find-removed i w.documents, chunks-removed i w.chunks, jobs-removed i w.jobs),
  (find-kept i j w.documents n, chunks-kept i j w.chunks n, jobs-kept i j w.jobs n),
  (refl, refl, refl),
)
deleted prefix false i j w n = (
  refl,
  (find-removed i w.documents, chunks-removed i w.chunks, jobs-removed i w.jobs),
  (find-kept i j w.documents n, chunks-kept i j w.chunks n, jobs-kept i j w.jobs n),
  (refl, refl, refl),
)

-- For two different ids `i` and `j`: either `i` is not a document of the user and nothing changes,
-- or it is gone with all its chunks and jobs, while the document `j`, its chunks and jobs, the sources
-- and the stored files are what they were; and the purge of the files of `i`, and no other task, is
-- queued, or none if the queue raises.
pub delete_lem :
    (prefix : ℕ → Text) (queue_fails : Bool) (user_id i j : ℕ) (w : World)
    → (i == j) ≡ false
    → (let r = delete prefix queue_fails user_id i w in
        ((get_owned user_id i w ≡ none) × (r ≡ (err document_not_found, w)))
        ⊎ Deleted prefix queue_fails i j w r)
unfolding delete delete_rows
delete_lem prefix queue_fails user_id i j w n = elim (Option-cases (get_owned user_id i w)) [
  | inl e ↦ rw (delete, e) (inl (refl, refl))
  | inr (d, e) ↦
      let both : (owned_by user_id i d) ≡ true =
        find_first_passes (owned_by user_id i) w.documents e in
      let same : d.id ≡ i = ground arith in
      rw (delete, e)
        (inr (
          subst (λ k. Deleted prefix queue_fails i j w (ok tt, after_delete prefix queue_fails k w))
            (sym same) (deleted prefix queue_fails i j w n)))
]
