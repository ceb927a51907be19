-- ===== src/Ingestion/Uploads/Listing.antt =====
-- `list_documents` (document_service.py) with the query of documents.py. The time stamps of the
-- documents are a function of the document.
use atlas_knowledge.Common.{
  ℕ, Bool, true, ◌&&◌, ◌==◌, List, Option, none, some, keep, Text, Outcome,
}
use atlas_knowledge.Errors.{AppError}
use atlas_knowledge.Paging.{Key, Codec, list_rows}
use atlas_knowledge.Ingestion.World.{Status, Document, World, status_eq}

-- `_doc_key`
abbrev pub document_key : (Document → ℕ) → Document → Key
document_key created_at d = (created_at d, d.id)

abbrev pub has_status : Option Status → Document → Bool
has_status none d = true
has_status (some status) d = status_eq d.status status

-- The conditions of `list_page`.
abbrev pub is_listed : ℕ → Option Status → Document → Bool
is_listed user_id status d = d.uploaded_by == user_id && has_status status d

unfoldable pub list_documents :
    Codec
    → (Document → ℕ)
    → ℕ
    → ℕ
    → Option Text
    → Option Status
    → World
    → Outcome AppError (List Document × Option Text)
list_documents codec created_at user_id limit cursor status w =
    list_rows codec (document_key created_at) (keep (is_listed user_id status) w.documents) limit
      cursor
