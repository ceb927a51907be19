-- ===== src/Ingestion/Uploads.antt =====
-- The upload of `DocumentService` (document_service.py, documents.py,
-- knowledge_sources.py). SHA-256, path and lower-case functions are parameters.
pub mod Mime
pub mod Restart
pub mod Files
pub mod Unique
pub mod Claims
pub mod Deletion
pub mod Listing
use atlas_knowledge.Common.{
  ℕ, ◌+◌, Bool, true, false, ◌&&◌, not, List, [], ◌∷◌, ◌++◌, Option, none, some, ◌==◌,
  if◌then◌else◌, any, keep, find_first, length, is_empty, take, Text, codes, text_eq, starts_with,
  replace_char, Outcome, ok, err,
}
use atlas_knowledge.Errors.{AppError, source_not_found, Failure, app, unexpected}
use atlas_knowledge.Ingestion.World.{
  Status, Stage, Document, DocumentChunk, IngestionJob, KnowledgeSource, World, Task, run, purge,
  status_eq, has_id, get_document, update_document, first_failed_stage, of_document, enqueue,
  write_file,
}
use atlas_knowledge.Ingestion.Uploads.Restart.{enqueue_stage, reset_if_failed}
use atlas_knowledge.Ingestion.Uploads.Mime.{Paths, canonical_mime, check_magic}

abbrev pub same_file : ℕ → Text → Document → Bool
same_file user_id checksum d = d.uploaded_by == user_id && text_eq d.checksum checksum

abbrev pub get_by_checksum : ℕ → Text → World → Option Document
get_by_checksum user_id checksum w = find_first (same_file user_id checksum) w.documents

-- `create`: `none` is the IntegrityError of `ux_documents_owner_checksum`.
unfoldable pub create : Document → World → Option World
create d w =
    if any (same_file d.uploaded_by d.checksum) w.documents
    then none
    else some (record w { documents = w.documents ++ d ∷ [] })

abbrev pub owned_source : ℕ → ℕ → KnowledgeSource → Bool
owned_source owner i s = s.id == i && s.owner_id == owner

abbrev pub default_source : ℕ → KnowledgeSource → Bool
default_source owner s = s.owner_id == owner && text_eq s.type (codes "upload")

-- What one upload draws and meets; `other` and `other_source` are what other sessions commit between
-- the lookup and the insert of the document, and of the default source; `other_lookup`, between an
-- insert of the document that failed and the lookup of its twin.
pub record Upload : Type 0 where
  pub filename : Text
  pub content_type : Option Text
  pub contents : Text
  pub source_id : Option ℕ
  pub document_id : ℕ
  pub new_source_id : ℕ
  pub queue_fails : Bool
  pub other : World → World
  pub other_source : World → World
  pub other_lookup : World → World

unfoldable pub create_default : ℕ → Upload → World → Outcome AppError ℕ × World
create_default user_id u w = elim (find_first (default_source user_id) w.sources) [
  | some s ↦ (ok s.id, w)
  | none ↦ (
    ok u.new_source_id,
    record w {
      sources =
          w.sources
          ++ record {
            id = u.new_source_id;
            owner_id = user_id;
            type = codes "upload";
            enabled = true;
          }
            ∷ [];
    },
  )
]

-- `_resolve_source_id`. The insert of the default source fails exactly where another session has
-- created it since the lookup, and then the source of that session is found: nothing deletes a source.
unfoldable pub resolve_source_id : ℕ → Upload → World → Outcome AppError ℕ × World
resolve_source_id user_id u w = elim u.source_id [
  | some i ↦ elim (find_first (owned_source user_id i) w.sources) [
    | none ↦ (err source_not_found, w)
    | some s ↦ (ok s.id, w)
  ]
  | none ↦ elim (find_first (default_source user_id) w.sources) [
    | some s ↦ (ok s.id, w)
    | none ↦ create_default user_id u (u.other_source w)
  ]
]

module _ (p : Paths) (sha256 : Text → Text) (prefix : ℕ → Text) where
  abbrev pub safe_name : Text → Text
  safe_name filename = take 255 (p.name (replace_char 0x5c (0x2f ∷ []) filename))

  abbrev pub original_key : ℕ → Text → Text
  original_key i name = prefix i ++ (codes "original" ++ p.lower (p.suffix name))

  unfoldable pub new_document : ℕ → Upload → Text → ℕ → Document
  new_document user_id u mime source_id = record {
    id = u.document_id;
    source_id = source_id;
    uploaded_by = user_id;
    filename = safe_name u.filename;
    mime = mime;
    size_bytes = length u.contents;
    storage_key = original_key u.document_id (safe_name u.filename);
    checksum = sha256 u.contents;
    status = Status.pending;
    error = none;
  }

  -- `storage.delete_prefix` of the document that was not created
  unfoldable pub delete_files : Text → World → World
  delete_files key w = record w { files = keep (λ f. not (starts_with f.0 key)) w.files }

  -- From the insert on: the new document, or the one that another session created meanwhile.
  unfoldable pub insert_upload : ℕ → Upload → Document → World → Outcome Failure (ℕ × Bool) × World
  insert_upload user_id u d w = elim (create d w) [
    | some created ↦ (ok (d.id, false), enqueue_stage u.queue_fails d.id Stage.parse created)
    | none ↦
        let cleaned = u.other_lookup (delete_files (prefix u.document_id) w) in
        elim (get_by_checksum user_id d.checksum cleaned) [
          | none ↦ (err (unexpected "IntegrityError" ""), cleaned)
          | some twin ↦ (ok (twin.id, true), reset_if_failed u.queue_fails twin cleaned)
        ]
  ]

  unfoldable pub store_upload : ℕ → Upload → Text → World → Outcome Failure (ℕ × Bool) × World
  store_upload user_id u mime w =
      let (source, w') = resolve_source_id user_id u w in
      elim source [
        | err e ↦ (err (app e), w')
        | ok source_id ↦
            let d = new_document user_id u mime source_id in
            insert_upload user_id u d (u.other (write_file d.storage_key u.contents w'))
      ]

  -- `upload`: the id of the document, and whether it was there before.
  unfoldable pub upload : ℕ → Upload → World → Outcome Failure (ℕ × Bool) × World
  upload user_id u w = elim (canonical_mime p (safe_name u.filename) u.content_type) [
    | err e ↦ (err (app e), w)
    | ok mime ↦ elim (check_magic mime u.contents) [
      | err e ↦ (err (app e), w)
      | ok _ ↦ elim (get_by_checksum user_id (sha256 u.contents) w) [
        | some d ↦ (ok (d.id, true), reset_if_failed u.queue_fails d w)
        | none ↦ store_upload user_id u mime w
      ]
    ]
  ]
