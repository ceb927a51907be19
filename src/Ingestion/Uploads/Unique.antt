-- ===== src/Ingestion/Uploads/Unique.antt =====
-- One document for each owner and checksum.
use mathlib.Core.Path.{subst}
use atlas_knowledge.Common.{
  ℕ, ◌≡◌, refl, sym, ◌∙◌, Bool, true, [], ◌∷◌, ◌++◌, Bool-cases, Option-cases, inl, inr, any,
  find_first, Text, find_none_of_any, find_first-append_none, ==_refl, text_eq_refl, none, some,
  ◌⊎◌, Outcome, ok, err,
}
use atlas_knowledge.Errors.{AppError, Failure, app, request_validation, unexpected}
use atlas_knowledge.Ingestion.World.{Stage, Document, World, write_file}
use atlas_knowledge.Ingestion.Uploads.{
  Upload, same_file, get_by_checksum, create, create_default, resolve_source_id, new_document,
  delete_files, insert_upload, store_upload, upload, default_source, owned_source, safe_name,
}
use atlas_knowledge.Ingestion.Uploads.Mime.{Paths, canonical_mime, check_magic}
use atlas_knowledge.Ingestion.Uploads.Files.{
  UniqueFiles, Finds, UniqueFiles-update, Finds-update, UniqueFiles-append, enqueue_stage_keeps,
  reset_if_failed_keeps,
}

-- What an upload of a file answers: the id under which the tables then hold it, its own if the file
-- is new; or a refusal; or the exception of the unique index, with no such file in the tables.
abbrev pub Answers : ℕ → Text → ℕ → Outcome Failure (ℕ × Bool) → World → Type 0
Answers user_id checksum new_id (ok (i, known)) w =
    Finds user_id checksum i w.documents × ((known ≡ true) ⊎ (i ≡ new_id))
Answers user_id checksum new_id (err (app e)) w = Unit
Answers user_id checksum new_id (err (request_validation details)) w = ⊥
Answers user_id checksum new_id (err (unexpected name details)) w =
    get_by_checksum user_id checksum w ≡ none

abbrev pub Sound : ℕ → Text → ℕ → Outcome Failure (ℕ × Bool) × World → Type 0
Sound user_id checksum new_id r =
    UniqueFiles r.1.documents × Answers user_id checksum new_id r.0 r.1

create_default-documents :
    (user_id : ℕ) (u : Upload) (w : World) → (create_default user_id u w).1.documents ≡ w.documents
unfolding create_default
create_default-documents user_id u w =
    elim (Option-cases (find_first (default_source user_id) w.sources)) [
      | inl e ↦ rw (create_default, e)
      | inr (s, e) ↦ rw (create_default, e)
    ]

resolve-UniqueFiles :
    (user_id : ℕ) (u : Upload) (w : World)
    → ((x : World) → UniqueFiles x.documents → UniqueFiles (u.other_source x).documents)
    → UniqueFiles w.documents
    → UniqueFiles (resolve_source_id user_id u w).1.documents
unfolding resolve_source_id
resolve-UniqueFiles user_id u w k h = elim (Option-cases u.source_id) [
  | inr (i, e) ↦ elim (Option-cases (find_first (owned_source user_id i) w.sources)) [
    | inl f ↦ simp (resolve_source_id, e, f) h
    | inr (s, f) ↦ simp (resolve_source_id, e, f) h
  ]
  | inl e ↦ elim (Option-cases (find_first (default_source user_id) w.sources)) [
    | inr (s, f) ↦ simp (resolve_source_id, e, f) h
    | inl f ↦
        simp (resolve_source_id, e, f)
          (subst UniqueFiles (sym (create_default-documents user_id u (u.other_source w))) (k w h))
  ]
]

module _ (p : Paths) (sha256 : Text → Text) (prefix : ℕ → Text) where
  insert_upload-Sound :
      (u : Upload) (d : Document) (w : World)
      → ((x : World) → UniqueFiles x.documents → UniqueFiles (u.other_lookup x).documents)
      → UniqueFiles w.documents
      → d.id ≡ u.document_id
      → Sound d.uploaded_by d.checksum u.document_id
          (insert_upload p sha256 prefix d.uploaded_by u d w)
  unfolding insert_upload create delete_files
  insert_upload-Sound u d w l h named =
      elim (Bool-cases (any (same_file d.uploaded_by d.checksum) w.documents)) [
        | inr e ↦
            let created : World = record w { documents = w.documents ++ d ∷ [] } in
            let itself : same_file d.uploaded_by d.checksum d ≡ true =
              rw (==_refl d.uploaded_by, text_eq_refl d.checksum) refl in
            let found : find_first (same_file d.uploaded_by d.checksum) created.documents ≡ some d =
              find_first-append_none (same_file d.uploaded_by d.checksum) w.documents (d ∷ [])
                (find_none_of_any (same_file d.uploaded_by d.checksum) w.documents e)
              ∙ rw itself refl in
            rw (insert_upload, create, e)
              (
                enqueue_stage_keeps UniqueFiles UniqueFiles-update u.queue_fails d.id Stage.parse
                    created (UniqueFiles-append w.documents d h e),
                (
                  enqueue_stage_keeps (Finds d.uploaded_by d.checksum d.id)
                      (λ i f k. Finds-update i f k d.uploaded_by d.checksum d.id) u.queue_fails d.id
                      Stage.parse created (d, found, refl),
                  inr named,
                ),
              )
        | inl e ↦
            let later = u.other_lookup (delete_files p sha256 prefix (prefix u.document_id) w) in
            let unique : UniqueFiles later.documents =
              l (delete_files p sha256 prefix (prefix u.document_id) w) h in
            elim (Option-cases (find_first (same_file d.uploaded_by d.checksum) later.documents)) [
              | inl f ↦ rw (insert_upload, create, e, f) (unique, f)
              | inr (twin, f) ↦
                  rw (insert_upload, create, e, f)
                    (
                      reset_if_failed_keeps UniqueFiles UniqueFiles-update u.queue_fails twin later
                          unique,
                      (
                        reset_if_failed_keeps (Finds d.uploaded_by d.checksum twin.id)
                            (λ i f k. Finds-update i f k d.uploaded_by d.checksum twin.id)
                            u.queue_fails twin later (twin, f, refl),
                        inl refl,
                      ),
                    )
            ]
      ]

  -- What other sessions commit in the three gaps keeps the files unique.
  abbrev pub KeepUnique : Upload → Type 0
  KeepUnique u =
      ((x : World) → UniqueFiles x.documents → UniqueFiles (u.other x).documents)
      × ((x : World) → UniqueFiles x.documents → UniqueFiles (u.other_source x).documents)
      × ((x : World) → UniqueFiles x.documents → UniqueFiles (u.other_lookup x).documents)

  store_upload-Sound :
      (user_id : ℕ) (u : Upload) (mime : Text) (w : World)
      → KeepUnique u
      → UniqueFiles w.documents
      → Sound user_id
          (sha256 u.contents)
          u.document_id
          (store_upload p sha256 prefix user_id u mime w)
  unfolding store_upload new_document
  store_upload-Sound user_id u mime w (other, source, lookup) h =
      resolved (resolve_source_id user_id u w).0 refl
    where
      resolved :
          (o : Outcome AppError ℕ)
          → (resolve_source_id user_id u w).0 ≡ o
          → Sound user_id
              (sha256 u.contents)
              u.document_id
              (store_upload p sha256 prefix user_id u mime w)
      resolved (err e) eq = rw (store_upload, eq) (resolve-UniqueFiles user_id u w source h, tt)
      resolved (ok i) eq =
          let d = new_document p sha256 prefix user_id u mime i in
          let before = write_file d.storage_key u.contents (resolve_source_id user_id u w).1 in
          rw (store_upload, eq)
            (insert_upload-Sound u d (u.other before) lookup
              (other before (resolve-UniqueFiles user_id u w source h)) refl)

  -- If what other sessions commit meanwhile keeps one document for each owner and checksum, every
  -- upload does. When it answers with an id, the tables then hold the file under it, for the user and
  -- with the checksum of the contents, and the id is the drawn one unless the answer says that the
  -- file was known. The exception of the unique index reaches the client only where the file that the
  -- insert met is gone at the second lookup.
  pub upload-UniqueFiles :
      (user_id : ℕ) (u : Upload) (w : World)
      → KeepUnique u
      → UniqueFiles w.documents
      → Sound user_id (sha256 u.contents) u.document_id (upload p sha256 prefix user_id u w)
  unfolding upload
  upload-UniqueFiles user_id u w k h =
      checked (canonical_mime p (safe_name p sha256 prefix u.filename) u.content_type) refl
    where
      found :
          (mime : Text) (contents : Outcome AppError (Unit {0}))
          → canonical_mime p (safe_name p sha256 prefix u.filename) u.content_type ≡ ok mime
          → check_magic mime u.contents ≡ contents
          → Sound user_id (sha256 u.contents) u.document_id (upload p sha256 prefix user_id u w)
      found mime (err e) eq m = rw (upload, eq, m) (h, tt)
      found mime (ok _) eq m = elim (Option-cases (get_by_checksum user_id (sha256 u.contents) w)) [
        | inl f ↦ rw (upload, eq, m, f) (store_upload-Sound user_id u mime w k h)
        | inr (d, f) ↦
            rw (upload, eq, m, f)
              (
                reset_if_failed_keeps UniqueFiles UniqueFiles-update u.queue_fails d w h,
                (
                  reset_if_failed_keeps (Finds user_id (sha256 u.contents) d.id)
                      (λ i g k. Finds-update i g k user_id (sha256 u.contents) d.id) u.queue_fails d
                      w (d, f, refl),
                  inl refl,
                ),
              )
      ]

      checked :
          (o : Outcome AppError Text)
          → canonical_mime p (safe_name p sha256 prefix u.filename) u.content_type ≡ o
          → Sound user_id (sha256 u.contents) u.document_id (upload p sha256 prefix user_id u w)
      checked (err e) eq = rw (upload, eq) (h, tt)
      checked (ok mime) eq = found mime (check_magic mime u.contents) eq refl
