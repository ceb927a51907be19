-- ===== src/Documents.antt =====
-- The parser's output, the chunker's input and output (backend/app/domain/entities/document.py and
-- chunk.py, backend/app/domain/ports/chunking.py).
use atlas_knowledge.Common.{ℕ, Option, List, Text}

pub data BlockType : Type 0 where
  heading paragraph list_item table code : BlockType

pub record Block : Type 0 where
  pub type : BlockType
  pub text : Text
  pub level : Option ℕ
  pub page : Option ℕ
  pub rows : Option (List (List Text))

pub record ChunkingConfig : Type 0 where
  pub target_tokens : ℕ
  pub overlap_tokens : ℕ

pub data DraftType : Type 0 where
  text_draft table_draft : DraftType

-- `meta` of a draft; the key `heading_path` is absent from those of `table_row`. The entry
-- `kind` is "document" in every draft, and is left out.
pub record DraftMeta : Type 0 where
  pub page : Option ℕ
  pub heading_path : Option (List Text)
  pub block_type : DraftType

pub record ChunkDraft : Type 0 where
  pub seq : ℕ
  pub text : Text
  pub tokens : ℕ
  pub meta : DraftMeta
