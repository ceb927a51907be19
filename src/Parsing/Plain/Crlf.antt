-- ===== src/Parsing/Plain/Crlf.antt =====
-- Plain text whose lines end in carriage return and line feed.
use mathlib.Core.Bool.{true≢false}
use atlas_knowledge.Common.{
  ==_iff, ◌≡◌, refl, sym, ap, ◌∙◌, inl, inr, ℕ, ◌+◌, ◌≤◌, Bool, true, false, not, ◌&&◌, ◌||◌, ◌==◌,
  List, [], ◌∷◌, ◌++◌, append_assoc, append-nil, Option, none, some, Bool-cases, if◌then◌else◌,
  take, length-take, ltb, ltb-false→le, length, Text, codes, Outcome, ok, err, arith,
}
use atlas_knowledge.Common.Filtering.{and_left, and_right}
use atlas_knowledge.Documents.{Block, paragraph}
use atlas_knowledge.Parsing.Normal.{normalize_text}
use atlas_knowledge.Parsing.Blocks.{
  max_block_chars, max_document_chars, too_long, NormalizedDocument, ParseWarning, Finalizing,
  block_truncated, finalize_step, keep_block, finalize_block, finalize_text, finalize_blocks,
  finalize_document,
}
use atlas_knowledge.Parsing.Blocks.Bounds.{total_chars}
use atlas_knowledge.Parsing.Plain.{
  decode_text, is_blank, split_from, split_paragraphs, text_block, paragraph_blocks, parse_plain,
}

-- Each line feed stands behind a carriage return, given the character before the text.
abbrev pub has_crlf_only : ℕ → Text → Bool
has_crlf_only before [] = true
has_crlf_only before (c ∷ s) = (not (c == b'\n') || before == b'\r') && has_crlf_only c s

-- What the splitting holds back behind a line feed.
abbrev held : Option Text → Text
held none = []
held (some blanks) = b'\n' ∷ blanks

-- Behind a line feed and blanks, the character before is no carriage return.
abbrev Follows : ℕ → Option Text → Type 0
Follows before none = Unit
Follows before (some blanks) = (before == b'\r') ≡ false

blank-no_return : (c : ℕ) → is_blank c ≡ true → (c == b'\r') ≡ false
blank-no_return c h = ground arith

-- The text is not split at all.
split_from-crlf :
    (part : Text) (pending : Option Text) (before : ℕ) (s : Text)
    → Follows before pending
    → has_crlf_only before s ≡ true
    → split_from part pending s ≡ (part ++ (held pending ++ s)) ∷ []
unfolding split_from
split_from-crlf part none before [] f h = rw (append-nil part) refl
split_from-crlf part (some blanks) before [] f h = rw (append-nil blanks) refl
split_from-crlf part none before (c ∷ s) f h = elim (Bool-cases (c == b'\n')) [
  | inl e ↦
      let feed : c ≡ b'\n' = (==_iff c b'\n').0 e in
      simp (split_from, e)
        (split_from-crlf part (some []) c s (rw feed refl) (and_right _ (has_crlf_only c s) h)
          ∙ ap (λ x. (part ++ x ∷ s) ∷ []) (sym feed))
  | inr e ↦
      simp (split_from, e)
        (split_from-crlf (part ++ c ∷ []) none c s tt (and_right _ (has_crlf_only c s) h)
          ∙ ap (λ x. x ∷ []) (append_assoc part (c ∷ []) s))
]
split_from-crlf part (some blanks) before (c ∷ s) f h = elim (Bool-cases (c == b'\n')) [
  | inl e ↦ elim (true≢false (sym (and_left _ (has_crlf_only c s) h) ∙ rw (e, f) refl)) [ ]
  | inr e ↦ elim (Bool-cases (is_blank c)) [
    | inl k ↦
        simp (split_from, e, k)
          (split_from-crlf part (some (blanks ++ c ∷ [])) c s (blank-no_return c k)
              (and_right _ (has_crlf_only c s) h)
            ∙ ap (λ x. (part ++ b'\n' ∷ x) ∷ []) (append_assoc blanks (c ∷ []) s))
    | inr k ↦
        simp (split_from, e, k)
          (split_from-crlf (part ++ b'\n' ∷ (blanks ++ c ∷ [])) none c s tt
              (and_right _ (has_crlf_only c s) h)
            ∙ ap (λ x. x ∷ [])
                (append_assoc part (b'\n' ∷ (blanks ++ c ∷ [])) s
                  ∙ ap (λ x. part ++ b'\n' ∷ x) (append_assoc blanks (c ∷ []) s)))
  ]
]

-- A document of one short block.
abbrev OneShort : Outcome Text NormalizedDocument → Type 0
OneShort r =
    (doc : NormalizedDocument) × (r ≡ ok doc)
    × (length doc.blocks ≤ 1)
    × (total_chars doc.blocks ≤ max_block_chars)

no_excess : (n : ℕ) → n ≤ max_block_chars → ltb max_document_chars (0 + n) ≡ false
no_excess n h = ground arith

abbrev fresh : Finalizing
fresh = record { kept = []; warnings = []; total = 0 }

abbrev alone : Text → Block
alone text = text_block paragraph none text

abbrev closed_with : Text → Option Finalizing → Outcome Text NormalizedDocument
closed_with mime none = err too_long
closed_with mime (some f) =
    ok (record { blocks = f.kept; source_mime = mime; warnings = f.warnings })

-- One block kept of a document's first and only one.
keep_block-OneShort :
    (mime t : Text) (w : ParseWarning) (truncated : Bool)
    → length t ≤ max_block_chars
    → OneShort (closed_with mime (keep_block fresh w (alone t, truncated)))
keep_block-OneShort mime t w truncated short = rw (no_excess (length t) short) (
  record {
    blocks = text_block paragraph none t ∷ [];
    source_mime = mime;
    warnings = if truncated then w ∷ [] else [];
  },
  refl,
  omega arith,
  omega (arith, short),
)

-- What a document of one text comes to, by the result of its block.
abbrev closed : Text → Option (Block × Bool) → Outcome Text NormalizedDocument
closed mime none = closed_with mime (some fresh)
closed mime (some r) = closed_with mime (keep_block fresh (block_truncated 0) r)

document_of_step :
    (text mime : Text) (o : Option Finalizing)
    → finalize_step fresh (alone text) ≡ o
    → finalize_document (alone text ∷ []) mime ≡ closed_with mime o
unfolding finalize_document finalize_blocks
document_of_step text mime none e = rw (e, finalize_document, finalize_blocks) refl
document_of_step text mime (some f) e = rw (e, finalize_document, finalize_blocks) refl

one_block :
    (text mime : Text) (r : Option (Block × Bool))
    → finalize_block (alone text) none ≡ r
    → finalize_document (alone text ∷ []) mime ≡ closed mime r
one_block text mime none e = document_of_step text mime (some fresh) (rw (e, finalize_step) refl)
one_block text mime (some r) e =
    document_of_step text mime (keep_block fresh (block_truncated 0) r) (rw (e, finalize_step) refl)

finalize_text-OneShort :
    (text t mime : Text) → OneShort (closed mime (finalize_text (alone text) t))
unfolding finalize_text
finalize_text-OneShort text [] mime =
    (record { blocks = []; source_mime = mime; warnings = [] }, refl, omega arith, omega arith)
finalize_text-OneShort text (c ∷ t) mime =
    elim (Bool-cases (ltb max_block_chars (length (c ∷ t)))) [
      | inl k ↦ rw k (
          keep_block-OneShort mime (take max_block_chars (c ∷ t)) (block_truncated 0) true
            (omega (arith, length-take max_block_chars (c ∷ t))))
      | inr k ↦ rw k (
          keep_block-OneShort mime (c ∷ t) (block_truncated 0) false
            (ltb-false→le max_block_chars (length (c ∷ t)) k))
    ]

finalize_document-OneShort :
    (text mime : Text) → OneShort (finalize_document (alone text ∷ []) mime)
unfolding finalize_block
finalize_document-OneShort text mime =
    rw (one_block text mime (finalize_text (alone text) (normalize_text text)) refl)
      (finalize_text-OneShort text (normalize_text text) mime)

-- A plain text whose every line feed stands behind a carriage return is never split into
-- paragraphs: whatever its length and its empty lines, the document has one block at most, with at
-- most max_block_chars characters, and the rest of the text is cut off.
pub parse_plain_crlf :
    (chain : List (Text → Option Text)) (bytes : Text) {text : Text}
    → decode_text chain bytes ≡ ok text
    → has_crlf_only 0 text ≡ true
    → (doc : NormalizedDocument) × (parse_plain chain bytes ≡ ok doc)
      × (length doc.blocks ≤ 1)
      × (total_chars doc.blocks ≤ max_block_chars)
unfolding parse_plain paragraph_blocks
parse_plain_crlf chain bytes {text} d h =
    let whole : split_paragraphs text ≡ text ∷ [] = split_from-crlf [] none 0 text tt h in
    simp (parse_plain, d, paragraph_blocks, whole)
      (finalize_document-OneShort text (codes "text/plain"))
