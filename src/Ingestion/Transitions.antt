-- ===== src/Ingestion/Transitions.antt =====
-- The state machine of a document: which status each stage leaves behind.
use atlas_knowledge.Common.{
  ℕ, ◌≡◌, refl, ◌⊎◌, inl, inr, true, false, List, [], ◌∷◌, some, Option-cases, Bool-cases, Text,
  Outcome, ok, err,
}
use atlas_knowledge.Documents.{Block}
use atlas_knowledge.Ingestion.World.{
  Status, Stage, Document, World, get_document, claim_row, mark_running, replace_for_document,
  write_file,
}
use atlas_knowledge.Ingestion.Stages.{
  Adapters, Settings, Run, Ending, returned, timed_out, transient_error, crashed, ParseResult,
  parsed, parse_error, parse_crash, ReadResult, contents, read_error, missing, succeed, fail,
  hand_on, store_parsed, parse_contents, parse_claimed, parse_stage, store_chunks, chunk_contents,
  chunk_claimed, chunk_stage, normalized_key,
}
use atlas_knowledge.Ingestion.Rows.{
  UniqueIds, allows, get-succeed, get-fail, claim_granted, claim_refused,
}

-- The statuses that a stage from `to` to `next` may leave, by the way it ends.
abbrev pub Leaves : Status → Status → Ending → Status → Type 0
Leaves to next returned s = (s ≡ next) ⊎ (s ≡ Status.failed)
Leaves to next timed_out s = s ≡ to
Leaves to next (transient_error m) s = s ≡ to
Leaves to next (crashed n) s = (s ≡ to) ⊎ (s ≡ next)

-- The document is there, with a status that fits the ending.
pub record Ends (i : ℕ) (to next : Status) (r : Ending × World) : Type 0 where
  pub doc : Document
  pub found : get_document i r.1 ≡ some doc
  pub leaves : Leaves to next r.0 doc.status

module _ (i : ℕ) (to next : Status) (w : World) {d : Document} (e : get_document i w ≡ some d)
    (at : d.status ≡ to) where
  pub Ends-fail : (stage : Stage) (m : Text) → Ends i to next (returned, fail i stage m w)
  Ends-fail stage m = record { doc = _; found = get-fail i w e stage m; leaves = inr refl }

  pub Ends-transient : (m : Text) → Ends i to next (transient_error m, w)
  Ends-transient m = record { doc = d; found = e; leaves = at }

  pub Ends-crashed : (n : Text) → Ends i to next (crashed n, w)
  Ends-crashed n = record { doc = d; found = e; leaves = inl at }

  pub Ends-succeed : (stage : Stage) → Ends i to next (returned, succeed i stage next w)
  Ends-succeed stage = record { doc = _; found = get-succeed i w e stage next; leaves = inl refl }

  pub Ends-hand_on :
      (r : Run) (stage after : Stage) → Ends i to next (hand_on r after i (succeed i stage next w))
  Ends-hand_on r stage after = elim (Option-cases r.enqueue_fails) [
    | inl f ↦ rw f (record { doc = _; found = get-succeed i w e stage next; leaves = inl refl })
    | inr (n, f) ↦
        rw f (record { doc = _; found = get-succeed i w e stage next; leaves = inr refl })
  ]

module _ (a : Adapters) (settings : Settings) (r : Run) (i : ℕ) where
  store_parsed-Ends :
      (w : World) (d : Document) (p : ParseResult)
      → get_document i w ≡ some d
      → d.status ≡ Status.parsing
      → Ends i Status.parsing Status.chunking (store_parsed a settings r i w p)
  unfolding store_parsed
  store_parsed-Ends w d (parse_error m) e at =
      Ends-fail i Status.parsing Status.chunking w e at Stage.parse m
  store_parsed-Ends w d (parse_crash n) e at =
      Ends-crashed i Status.parsing Status.chunking w e at n
  store_parsed-Ends w d (parsed blocks) e at = elim (Option-cases r.write_fails) [
    | inl f ↦ rw f (
        Ends-hand_on i Status.parsing Status.chunking
          (write_file (normalized_key a i) (a.to_json blocks) w) e at r Stage.parse Stage.chunk)
    | inr (m, f) ↦ rw f (Ends-transient i Status.parsing Status.chunking w e at _)
  ]

  parse_contents-Ends :
      (w : World) (d : Document) (c : ReadResult)
      → get_document i w ≡ some d
      → d.status ≡ Status.parsing
      → Ends i Status.parsing Status.chunking (parse_contents a settings r i d w c)
  unfolding parse_contents
  parse_contents-Ends w d (read_error m) e at =
      Ends-transient i Status.parsing Status.chunking w e at m
  parse_contents-Ends w d missing e at =
      Ends-fail i Status.parsing Status.chunking w e at Stage.parse _
  parse_contents-Ends w d (contents c) e at =
      store_parsed-Ends w d (a.parse_file d.mime c d.filename) e at

  store_chunks-Ends :
      (w : World) (d : Document) (p : Outcome Text (List Block))
      → get_document i w ≡ some d
      → d.status ≡ Status.chunking
      → Ends i Status.chunking Status.embedding (store_chunks a settings r i w p)
  unfolding store_chunks replace_for_document
  store_chunks-Ends w d (err m) e at =
      Ends-fail i Status.chunking Status.embedding w e at Stage.chunk _
  store_chunks-Ends w d (ok blocks) e at =
      Ends-hand_on i Status.chunking Status.embedding _ e at r Stage.chunk Stage.embed

  chunk_contents-Ends :
      (w : World) (d : Document) (c : ReadResult)
      → get_document i w ≡ some d
      → d.status ≡ Status.chunking
      → Ends i Status.chunking Status.embedding (chunk_contents a settings r i w c)
  unfolding chunk_contents
  chunk_contents-Ends w d (read_error m) e at =
      Ends-transient i Status.chunking Status.embedding w e at m
  chunk_contents-Ends w d missing e at =
      Ends-fail i Status.chunking Status.embedding w e at Stage.chunk _
  chunk_contents-Ends w d (contents c) e at = store_chunks-Ends w d (a.of_json c) e at

  module _ (w : World) (d : Document) (e : get_document i w ≡ some d)
      (u : UniqueIds w.documents) where
    -- With unique document ids, a parse run on a document that is neither pending nor failed
    -- returns at once and changes nothing. On any other it ends with the document at `chunking` or
    -- failed if it returns, at `parsing` if it asks to be retried, and at `parsing` or `chunking`
    -- if it crashes.
    pub parse_stage_transition :
        (allows (Status.pending ∷ Status.failed ∷ []) d ≡ false)
          × (parse_stage a settings r i w ≡ (returned, w))
        ⊎ (allows (Status.pending ∷ Status.failed ∷ []) d ≡ true)
          × Ends i Status.parsing Status.chunking (parse_stage a settings r i w)
    unfolding parse_stage parse_claimed mark_running
    parse_stage_transition =
        let allowed = Status.pending ∷ Status.failed ∷ [] in
        elim (Bool-cases (allows allowed d)) [
          | inr refused ↦ inl (
            refused,
            rw (claim_refused i w e allowed Status.parsing Stage.parse u refused, parse_stage),
          )
          | inl granted ↦
              let (claimed, found) =
                claim_granted i w e allowed Status.parsing Stage.parse u granted in
              inr (
                granted,
                rw (claimed, parse_stage, found, parse_claimed)
                    (parse_contents-Ends _ (claim_row Status.parsing d) _ found refl),
              )
        ]

    -- With unique document ids, a chunk run on a document that is neither at `chunking` nor failed
    -- returns at once and changes nothing. On any other it ends with the document at `embedding`
    -- or failed if it returns, at `chunking` if it asks to be retried, and at `chunking` or
    -- `embedding` if it crashes.
    pub chunk_stage_transition :
        (allows (Status.chunking ∷ Status.failed ∷ []) d ≡ false)
          × (chunk_stage a settings r i w ≡ (returned, w))
        ⊎ (allows (Status.chunking ∷ Status.failed ∷ []) d ≡ true)
          × Ends i Status.chunking Status.embedding (chunk_stage a settings r i w)
    unfolding chunk_stage chunk_claimed mark_running
    chunk_stage_transition =
        let allowed = Status.chunking ∷ Status.failed ∷ [] in
        elim (Bool-cases (allows allowed d)) [
          | inr refused ↦ inl (
            refused,
            rw (claim_refused i w e allowed Status.chunking Stage.chunk u refused, chunk_stage),
          )
          | inl granted ↦
              let (claimed, found) =
                claim_granted i w e allowed Status.chunking Stage.chunk u granted in
              inr (
                granted,
                rw (claimed, chunk_stage, found, chunk_claimed)
                    (chunk_contents-Ends _ (claim_row Status.chunking d) _ found refl),
              )
        ]
