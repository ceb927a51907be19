-- ===== src/Ingestion/Embedding/Totality.antt =====
-- The embed stage always ends, and what it leaves behind.
use mathlib.Core.Path.{subst}
use atlas_knowledge.Common.{
  ℕ, zero, suc, ◌+◌, ◌<◌, ◌≡◌, refl, sym, ap, ◌∙◌, ◌⊎◌, inl, inr, true, false, List, [], ◌∷◌,
  Option, some, Option-cases, Bool-cases, arith, Text, Occurs, find_first,
}
use atlas_knowledge.Ingestion.World.{
  Status, Stage, Document, DocumentChunk, World, get_document, claim_row, mark_running,
  list_unembedded, mark_finished, set_status, is_unembedded, has_id,
}
use atlas_knowledge.Ingestion.Stages.{
  EmbedResult, vectors, embedding_error, embed_crash, Adapters, Settings, Ending, returned,
  transient_error, crashed, succeed,
}
use atlas_knowledge.Ingestion.Rows.{
  UniqueIds, allows, get-succeed, get-fail, claim_granted, claim_refused,
}
use atlas_knowledge.Ingestion.Embedding.{
  is_retryable, pair_up, texts, Round, again, stop, continue, round, embed_loop, embed_claimed,
  embed_stage,
}
use atlas_knowledge.Ingestion.Embedding.Progress.{
  count_unembedded, Occurs-list_unembedded, count_of_no_batch, count-batch-lt,
}

-- How an embed run that got its claim may end: ready with every chunk embedded, failed, or at
-- `embedding` with an exception.
pub data EmbedEnds (i : ℕ) : Ending × World → Type 0 where
  all_done :
      (w : World) (d : Document)
      → get_document i w ≡ some d
      → d.status ≡ Status.ready
      → count_unembedded i w.chunks ≡ 0
      → EmbedEnds i (returned, w)
  gave_up :
      (w : World) (d : Document)
      → get_document i w ≡ some d
      → d.status ≡ Status.failed
      → EmbedEnds i (returned, w)
  to_retry :
      (w : World) (d : Document) (m : Text)
      → get_document i w ≡ some d
      → d.status ≡ Status.embedding
      → EmbedEnds i (transient_error m, w)
  broke :
      (w : World) (d : Document) (n : Text)
      → get_document i w ≡ some d
      → d.status ≡ Status.embedding
      → EmbedEnds i (crashed n, w)

module _ (a : Adapters) (settings : Settings) (i : ℕ)
    (positive : 0 < settings.embedding_batch_size) where
  list-cases :
      (l : List DocumentChunk)
      → (l ≡ []) ⊎ ((c : DocumentChunk) × (cs : List DocumentChunk) × (l ≡ c ∷ cs))
  list-cases [] = inl refl
  list-cases (c ∷ cs) = inr (c, cs, refl)

  -- What a round may do to a world whose document is at `embedding`.
  RoundEnds : World → Round → Type 0
  RoundEnds w (stop ending w') = EmbedEnds i (ending, w')
  RoundEnds w (again w') =
      (w'.documents ≡ w.documents) × (count_unembedded i w'.chunks < count_unembedded i w.chunks)

  round-RoundEnds :
      (w : World) (d : Document) (c : DocumentChunk) (cs : List DocumentChunk)
      (answer : EmbedResult)
      → get_document i w ≡ some d
      → d.status ≡ Status.embedding
      → Occurs c w.chunks
      → is_unembedded i c ≡ true
      → RoundEnds w (round a settings i (c ∷ cs) w answer)
  unfolding round RoundEnds
  round-RoundEnds w d c cs (embedding_error code m) e at o p =
      elim (Bool-cases (is_retryable code)) [
        | inl r ↦ rw r (to_retry w d m e at)
        | inr r ↦ rw r (gave_up _ _ (get-fail i w e Stage.embed m) refl)
      ]
  round-RoundEnds w d c cs (embed_crash n) e at o p = broke w d n e at
  round-RoundEnds w d c cs (vectors vs) e at o p = elim (Option-cases (pair_up (c ∷ cs) vs)) [
    | inl f ↦ rw (f, round, RoundEnds) (broke w d _ e at)
    | inr (pairs, f) ↦
        rw (f, round, RoundEnds)
          (refl, count-batch-lt i a.embedding_version c cs w.chunks vs pairs o p f)
  ]

  -- The loop gives a result, and the result is a proper end.
  abbrev Total : Option (Ending × World) → Type 0
  Total o = (r : Ending × World) × (o ≡ some r) × EmbedEnds i r

  continue-Total :
      (w : World) (d : Document) (next : World → Option (Ending × World)) (r : Round)
      → RoundEnds w r
      → get_document i w ≡ some d
      → ((w' : World)
          → count_unembedded i w'.chunks < count_unembedded i w.chunks
          → get_document i w' ≡ some d
          → Total (next w'))
      → Total (continue next r)
  unfolding continue RoundEnds
  continue-Total w d next (stop ending w') q e ih = ((ending, w'), refl, q)
  continue-Total w d next (again w') q e ih =
      ih w' q.1 (ap (λ ds. find_first (has_id i) ds) q.0 ∙ e)

  head-Occurs :
      (w : World) (c : DocumentChunk) (cs : List DocumentChunk)
      → list_unembedded i settings.embedding_batch_size w.chunks ≡ c ∷ cs
      → Occurs c w.chunks × (is_unembedded i c ≡ true)
  head-Occurs w c cs b =
      Occurs-list_unembedded c i settings.embedding_batch_size w.chunks
        (subst (λ l. Occurs c l) (sym b) (inl refl))

  embed_loop-Total :
      (f n : ℕ) (w : World) (d : Document)
      → count_unembedded i w.chunks < f
      → get_document i w ≡ some d
      → d.status ≡ Status.embedding
      → Total (embed_loop a settings f n i w)
  unfolding embed_loop
  embed_loop-Total zero n w d h e at = absurd (omega arith)
  embed_loop-Total (suc f) n w d h e at =
      elim (list-cases (list_unembedded i settings.embedding_batch_size w.chunks)) [
        | inl b ↦
            rw (b, embed_loop)
              (
                (returned, succeed i Stage.embed Status.ready w),
                refl,
                all_done (succeed i Stage.embed Status.ready w) (record d { status = Status.ready })
                    (get-succeed i w e Stage.embed Status.ready) refl
                    (unfold succeed set_status mark_finished in
                      count_of_no_batch i settings.embedding_batch_size w.chunks positive b),
              )
        | inr (c, cs, b) ↦
            let (o, p) = head-Occurs w c cs b in
            rw (b, embed_loop)
              (continue-Total w d (embed_loop a settings f (n + 1) i)
                (round a settings i (c ∷ cs) w (a.embed n (texts (c ∷ cs))))
                (round-RoundEnds w d c cs (a.embed n (texts (c ∷ cs))) e at o p) e
                (λ w' less e'. embed_loop-Total f (n + 1) w' d (omega arith) e' at))
      ]

  -- With unique document ids and a batch size above 0 an embed run always ends, whatever the
  -- provider answers: the loop never runs out of its fuel. On a document neither at `embedding`
  -- nor failed it returns at once and changes nothing. On any other it leaves the document ready
  -- with every chunk embedded, or failed, or at `embedding` with an exception.
  pub embed_stage-Total :
      (w : World) (d : Document)
      → get_document i w ≡ some d
      → UniqueIds w.documents
      → (allows (Status.embedding ∷ Status.failed ∷ []) d ≡ false)
          × (embed_stage a settings i w ≡ some (returned, w))
        ⊎ (allows (Status.embedding ∷ Status.failed ∷ []) d ≡ true)
          × Total (embed_stage a settings i w)
  unfolding embed_stage embed_claimed mark_running
  embed_stage-Total w d e u =
      let allowed = Status.embedding ∷ Status.failed ∷ [] in
      elim (Bool-cases (allows allowed d)) [
        | inr refused ↦ inl (
          refused,
          rw (claim_refused i w e allowed Status.embedding Stage.embed u refused, embed_stage),
        )
        | inl granted ↦
            let (claimed, found) =
              claim_granted i w e allowed Status.embedding Stage.embed u granted in
            inr (
              granted,
              rw (claimed, embed_stage, found, embed_claimed)
                  (embed_loop-Total _ 0 _ (claim_row Status.embedding d) (omega arith) found refl),
            )
      ]
