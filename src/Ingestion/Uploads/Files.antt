-- ===== src/Ingestion/Uploads/Files.antt =====
-- The documents of an owner and a checksum, along the changes of the rows.
use atlas_knowledge.Common.{
  ℕ, ◌≡◌, refl, ◌∙◌, Bool, true, false, List, [], ◌∷◌, ◌++◌, ◌==◌, Bool-cases, inl, inr, arith, any,
  find_first, Text, text_eq_iff, some,
}
use atlas_knowledge.Ingestion.World.{Status, Stage, Document, World, status_eq, update_document}
use atlas_knowledge.Ingestion.Uploads.{same_file}
use atlas_knowledge.Ingestion.Uploads.Restart.{
  enqueue_stage, restart, reset_if_failed, enqueue_failed_row, restart_row, entry_status, or_parse,
}
use atlas_knowledge.Ingestion.World.{first_failed_stage}

-- No document of the list has this owner and checksum.
abbrev pub NoFile : ℕ → Text → List Document → Type 0
NoFile u c [] = Unit
NoFile u c (d ∷ ds) = (same_file u c d ≡ false) × NoFile u c ds

-- The unique index `ux_documents_owner_checksum`.
abbrev pub UniqueFiles : List Document → Type 0
UniqueFiles [] = Unit
UniqueFiles (d ∷ ds) = NoFile d.uploaded_by d.checksum ds × UniqueFiles ds

-- The document with this owner and checksum that a lookup finds has this id.
abbrev pub Finds : ℕ → Text → ℕ → List Document → Type 0
Finds u c i ds = (d : Document) × (find_first (same_file u c) ds ≡ some d) × (d.id ≡ i)

-- A change of a row that leaves its owner, its checksum and its id.
abbrev pub KeepsFile : (Document → Document) → Type 0
KeepsFile f =
    (d : Document)
    → ((f d).uploaded_by ≡ d.uploaded_by) × ((f d).checksum ≡ d.checksum) × ((f d).id ≡ d.id)

module _ (i : ℕ) (f : Document → Document) (k : KeepsFile f) where
  NoFile-update :
      (u : ℕ) (c : Text) (ds : List Document) → NoFile u c ds → NoFile u c (update_document i f ds)
  unfolding update_document
  NoFile-update u c [] h = tt
  NoFile-update u c (d ∷ ds) h =
      let (owner, checksum, _) = k d in
      elim (Bool-cases (d.id == i)) [
        | inl p ↦ rw (p, owner, checksum) (h.0, NoFile-update u c ds h.1)
        | inr p ↦ rw p (h.0, NoFile-update u c ds h.1)
      ]

  pub UniqueFiles-update :
      (ds : List Document) → UniqueFiles ds → UniqueFiles (update_document i f ds)
  unfolding update_document
  UniqueFiles-update [] h = tt
  UniqueFiles-update (d ∷ ds) h =
      let (owner, checksum, _) = k d in
      elim (Bool-cases (d.id == i)) [
        | inl p ↦
            rw (p, owner, checksum)
              (NoFile-update d.uploaded_by d.checksum ds h.0, UniqueFiles-update ds h.1)
        | inr p ↦ rw p (NoFile-update d.uploaded_by d.checksum ds h.0, UniqueFiles-update ds h.1)
      ]

  pub Finds-update :
      (u : ℕ) (c : Text) (j : ℕ) (ds : List Document)
      → Finds u c j ds
      → Finds u c j (update_document i f ds)
  unfolding update_document
  Finds-update u c j [] (d, e, same) = cc
  Finds-update u c j (x ∷ ds) (d, e, same) =
      let (owner, checksum, kept) = k x in
      elim (Bool-cases (same_file u c x)) [
        | inl m ↦
            let first : some x ≡ some d = rw m at e in
            let found : x.id ≡ j = cc (first, same) in
            elim (Bool-cases (x.id == i)) [
              | inl p ↦ rw p (f x, rw (owner, checksum, m) refl, kept ∙ found)
              | inr p ↦ rw p (x, rw m refl, found)
            ]
        | inr m ↦
            let (d', e', same') = Finds-update u c j ds (d, rw m at e, same) in
            elim (Bool-cases (x.id == i)) [
              | inl p ↦ rw p (d', rw (owner, checksum, m) e', same')
              | inr p ↦ rw p (d', rw m e', same')
            ]
      ]

same_file_comm :
    (d e : Document)
    → same_file d.uploaded_by d.checksum e ≡ false
    → same_file e.uploaded_by e.checksum d ≡ false
same_file_comm d e h =
    ground (arith, text_eq_iff d.checksum e.checksum, text_eq_iff e.checksum d.checksum)

NoFile-append :
    (u : ℕ) (c : Text) (ds : List Document) (e : Document)
    → NoFile u c ds
    → same_file u c e ≡ false
    → NoFile u c (ds ++ e ∷ [])
NoFile-append u c [] e h k = (k, tt)
NoFile-append u c (d ∷ ds) e h k = (h.0, NoFile-append u c ds e h.1 k)

pub UniqueFiles-append :
    (ds : List Document) (e : Document)
    → UniqueFiles ds
    → any (same_file e.uploaded_by e.checksum) ds ≡ false
    → UniqueFiles (ds ++ e ∷ [])
UniqueFiles-append [] e h k = (tt, tt)
UniqueFiles-append (d ∷ ds) e h k = elim (Bool-cases (same_file e.uploaded_by e.checksum d)) [
  | inl p ↦ cc
  | inr p ↦ (
    NoFile-append d.uploaded_by d.checksum ds e h.0 (same_file_comm e d p),
    UniqueFiles-append ds e h.1 (rw p at k),
  )
]

-- What every change of a row that keeps its file keeps, a restart keeps.
module _ (P : List Document → Type 0)
    (keeps : (i : ℕ) (f : Document → Document)
      → KeepsFile f
      → (ds : List Document) → P ds
      → P (update_document i f ds)) where
  pub enqueue_stage_keeps :
      (fails : Bool) (i : ℕ) (stage : Stage) (w : World)
      → P w.documents
      → P (enqueue_stage fails i stage w).documents
  unfolding enqueue_stage
  enqueue_stage_keeps true i stage w h =
      keeps i enqueue_failed_row (λ d. (refl, refl, refl)) w.documents h
  enqueue_stage_keeps false i stage w h = h

  pub reset_if_failed_keeps :
      (fails : Bool) (d : Document) (w : World)
      → P w.documents
      → P (reset_if_failed fails d w).documents
  unfolding reset_if_failed restart
  reset_if_failed_keeps fails d w h = elim (Bool-cases (status_eq d.status Status.failed)) [
    | inr p ↦ simp p h
    | inl p ↦
        let stage = or_parse (first_failed_stage d.id w) in
        simp p (
          enqueue_stage_keeps fails d.id stage
            (record w {
              documents = update_document d.id (restart_row (entry_status stage)) w.documents;
            })
            (keeps d.id (restart_row (entry_status stage)) (λ e. (refl, refl, refl)) w.documents h))
  ]
