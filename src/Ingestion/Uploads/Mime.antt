-- ===== src/Ingestion/Uploads/Mime.antt =====
-- The media type of an upload (document_service.py, `canonical_mime` and `_check_magic`).
use atlas_knowledge.Common.{
  Bool, ◌||◌, not, ◌&&◌, List, [], ◌∷◌, Option, none, some, ◌==◌, if◌then◌else◌, any, Text, codes,
  text_eq, starts_with, strip, Outcome, ok, err, is_empty,
}
use atlas_knowledge.Errors.{AppError, unsupported_media_type}

-- `PurePosixPath(s).name`, `.suffix`, and `str.lower`
pub record Paths : Type 0 where
  pub name : Text → Text
  pub suffix : Text → Text
  pub lower : Text → Text

abbrev pub pdf : Text
pdf = codes "application/pdf"

abbrev pub docx : Text
docx = codes "application/vnd.openxmlformats-officedocument.wordprocessingml.document"

abbrev pub plain : Text
plain = codes "text/plain"

abbrev pub markdown : Text
markdown = codes "text/markdown"

abbrev pub html : Text
html = codes "text/html"

-- `_EXT_TO_MIME.get(suffix)`
unfoldable pub ext_to_mime : Text → Option Text
ext_to_mime suffix =
    if text_eq suffix (codes ".pdf")
    then some pdf
    else if text_eq suffix (codes ".docx")
    then some docx
    else if text_eq suffix (codes ".txt")
    then some plain
    else if text_eq suffix (codes ".md")
    then some markdown
    else if text_eq suffix (codes ".html") || text_eq suffix (codes ".htm")
    then some html
    else none

-- `_ACCEPTED_CONTENT_TYPES[mime]`
unfoldable pub accepted_content_types : Text → List Text
accepted_content_types mime =
    if text_eq mime pdf
    then pdf ∷ []
    else if text_eq mime docx
    then docx ∷ codes "application/zip" ∷ []
    else if text_eq mime plain
    then plain ∷ []
    else if text_eq mime markdown
    then markdown ∷ codes "text/x-markdown" ∷ plain ∷ []
    else html ∷ plain ∷ []

-- `s.split(";")[0]`
unfoldable pub before_semicolon : Text → Text
before_semicolon [] = []
before_semicolon (c ∷ s) = let rest = before_semicolon s in if c == b';' then [] else c ∷ rest

abbrev pub or_empty : Option Text → Text
or_empty none = []
or_empty (some t) = t

unfoldable pub declared_type : Paths → Option Text → Text
declared_type p content_type = p.lower (strip (before_semicolon (or_empty content_type)))

unfoldable pub always_accepted : Text → Bool
always_accepted declared = is_empty declared || text_eq declared (codes "application/octet-stream")

unfoldable pub canonical_mime : Paths → Text → Option Text → Outcome AppError Text
canonical_mime p filename content_type = elim (ext_to_mime (p.lower (p.suffix filename))) [
  | none ↦ err unsupported_media_type
  | some mime ↦
      let declared = declared_type p content_type in
      if always_accepted declared
      then ok mime
      else if not (any (λ t. text_eq declared t) (accepted_content_types mime))
      then err unsupported_media_type
      else ok mime
]

unfoldable pub check_magic : Text → Text → Outcome AppError (Unit {0})
check_magic mime contents =
    if text_eq mime pdf && not (starts_with contents (codes "%PDF"))
    then err unsupported_media_type
    else ok tt
