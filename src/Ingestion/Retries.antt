-- ===== src/Ingestion/Retries.antt =====
-- What a retried parse task meets (`parse` of ingestion_service.py under `_run_stage` of
-- workers/tasks/ingest.py).
use mathlib.Core.Path.{subst}
use atlas_knowledge.Common.{
  ℕ, ◌^◌, ◌<◌, ◌≡◌, refl, sym, ap, ◌∙◌, Bool, true, false, List, [], ◌∷◌, none, some, Bool-cases,
  Option-cases, inl, inr, arith, Text, codes, ◌++◌, leb, min, any,
}
use atlas_knowledge.Ingestion.World.{
  Status, Stage, Document, World, status_eq, get_document, claim_row, claim_rows, claimable,
  mark_running, read_file,
}
use atlas_knowledge.Ingestion.Stages.{
  Adapters, Settings, Run, returned, transient_error, parse_stage, parse_claimed, parse_contents,
  read_error, missing, contents, read,
}
use atlas_knowledge.Ingestion.Rows.{NoId, UniqueIds, allows, claim_granted, claim_refused}
use atlas_knowledge.Ingestion.Tasks.{done, retry, max_retries, max_backoff, run_stage}
use atlas_knowledge.Ingestion.Uploads.Restart.{get_owned}
use atlas_knowledge.Ingestion.Uploads.Restart
use atlas_knowledge.Ingestion.Uploads.Claims.{owned-find}

module _ (i : ℕ) (allowed : List Status) (to : Status) where
  NoId-claim_rows : (j : ℕ) (ds : List Document) → NoId j ds → NoId j (claim_rows i allowed to ds)
  unfolding claim_rows
  NoId-claim_rows j [] h = tt
  NoId-claim_rows j (d ∷ ds) h = elim (Bool-cases (claimable i allowed d)) [
    | inl p ↦ rw p (h.0, NoId-claim_rows j ds h.1)
    | inr p ↦ rw p (h.0, NoId-claim_rows j ds h.1)
  ]

  UniqueIds-claim_rows :
      (ds : List Document) → UniqueIds ds → UniqueIds (claim_rows i allowed to ds)
  unfolding claim_rows
  UniqueIds-claim_rows [] h = tt
  UniqueIds-claim_rows (d ∷ ds) h = elim (Bool-cases (claimable i allowed d)) [
    | inl p ↦ rw p (NoId-claim_rows d.id ds h.0, UniqueIds-claim_rows ds h.1)
    | inr p ↦ rw p (NoId-claim_rows d.id ds h.0, UniqueIds-claim_rows ds h.1)
  ]

-- The world after the claim of a parse run.
abbrev claimed_for_parse : ℕ → World → World
claimed_for_parse i w = mark_running i Stage.parse (record w {
  documents = claim_rows i (Status.pending ∷ Status.failed ∷ []) Status.parsing w.documents;
})

-- The document of a user who asks for a retry, at a status other than failed.
retry_refused :
    (queue_fails : Bool) (user_id i : ℕ) (w : World) (d : Document)
    → get_document i w ≡ some d
    → UniqueIds w.documents
    → status_eq d.status Status.failed ≡ false
    → (Restart.retry queue_fails user_id i w).1 ≡ w
unfolding Restart.retry
retry_refused queue_fails user_id i w d e u s = elim (Option-cases (get_owned user_id i w)) [
  | inl f ↦ rw (Restart.retry, f)
  | inr (d', f) ↦
      let same : some d' ≡ some d = sym (owned-find user_id i w.documents f u) ∙ e in
      let at : status_eq d'.status Status.failed ≡ false = cc in rw (Restart.retry, f, at)
]

read_failing :
    (r : Run) (key : Text) (w : World) (e : Text)
    → r.read_fails ≡ some e
    → read r key w ≡ read_error (codes "讀取儲存失敗:" ++ e)
read_failing r key w e f =
    ap
      (λ o. elim o [
        | some m ↦ read_error (codes "讀取儲存失敗:" ++ m)
        | none ↦ elim (read_file key w.files) [ none ↦ missing | some c ↦ contents c ]
      ])
      f

module _ (a : Adapters) (settings : Settings) where
  parse_stage-read_fails :
      (r : Run) (i : ℕ) (w : World) (d : Document) (e : Text)
      → get_document i w ≡ some d
      → UniqueIds w.documents
      → d.status ≡ Status.pending
      → r.read_fails ≡ some e
      → parse_stage a settings r i w
        ≡ (transient_error (codes "讀取儲存失敗:" ++ e), claimed_for_parse i w)
  unfolding parse_stage parse_claimed parse_contents mark_running
  parse_stage-read_fails r i w d e g u s f =
      let allowed = Status.pending ∷ Status.failed ∷ [] in
      let granted : allows allowed d ≡ true = ap (λ x. any (status_eq x) allowed) s in
      let (claimed, found) = claim_granted i w g allowed Status.parsing Stage.parse u granted in
      rw (claimed, parse_stage, found, parse_claimed)
        (ap (parse_contents a settings r i (claim_row Status.parsing d) (claimed_for_parse i w))
          (read_failing r d.storage_key (claimed_for_parse i w) e f))

  parse_stage-refused :
      (r : Run) (i : ℕ) (w : World) (d : Document)
      → get_document i w ≡ some d
      → UniqueIds w.documents
      → allows (Status.pending ∷ Status.failed ∷ []) d ≡ false
      → parse_stage a settings r i w ≡ (returned, w)
  unfolding parse_stage
  parse_stage-refused r i w d g u f = rw (
    claim_refused i w g (Status.pending ∷ Status.failed ∷ []) Status.parsing Stage.parse u f,
    parse_stage,
  )

  first_run :
      (r : Run) (i retries : ℕ) (w : World) (d : Document) (e : Text)
      → get_document i w ≡ some d
      → UniqueIds w.documents
      → d.status ≡ Status.pending
      → r.read_fails ≡ some e
      → retries < max_retries Stage.parse
      → run_stage Stage.parse retries i (parse_stage a settings r i w)
        ≡ (retry (min (2 ^ retries) max_backoff), claimed_for_parse i w)
  unfolding run_stage
  first_run r i retries w d e g u s f n =
      let more : leb 3 retries ≡ false = ground arith in
      ap (run_stage Stage.parse retries i) (parse_stage-read_fails r i w d e g u s f) ∙ rw more

  -- With unique document ids, a parse task of a pending document that meets an `OSError` as it
  -- reads the file, with retries left, asks to be run again and leaves the document at `parsing`,
  -- from which its own claim is refused: the run that was asked for returns without parsing or
  -- marking the document, however the storage is by then, and a retry by any user changes nothing
  -- either.
  pub parse_retry_is_lost :
      (r r' : Run) (i retries retries' : ℕ) (w : World) (d : Document) (e : Text)
      → get_document i w ≡ some d
      → UniqueIds w.documents
      → d.status ≡ Status.pending
      → r.read_fails ≡ some e
      → retries < max_retries Stage.parse
      → (let w' = (run_stage Stage.parse retries i (parse_stage a settings r i w)).1 in
          ((run_stage Stage.parse retries i (parse_stage a settings r i w)).0
            ≡ retry (min (2 ^ retries) max_backoff))
          × (get_document i w' ≡ some (claim_row Status.parsing d))
          × (run_stage Stage.parse retries' i (parse_stage a settings r' i w') ≡ (done, w'))
          × ((queue_fails : Bool) (user_id : ℕ) → (Restart.retry queue_fails user_id i w').1 ≡ w'))
  unfolding run_stage mark_running
  parse_retry_is_lost r r' i retries retries' w d e g u s f n =
      let allowed = Status.pending ∷ Status.failed ∷ [] in
      let granted : allows allowed d ≡ true = ap (λ x. any (status_eq x) allowed) s in
      let found : get_document i (claimed_for_parse i w) ≡ some (claim_row Status.parsing d) =
        (claim_granted i w g allowed Status.parsing Stage.parse u granted).1 in
      let unique : UniqueIds (claimed_for_parse i w).documents =
        UniqueIds-claim_rows i allowed Status.parsing w.documents u in
      subst
        (λ p.
          (p.0 ≡ retry (min (2 ^ retries) max_backoff))
          × (get_document i p.1 ≡ some (claim_row Status.parsing d))
          × (run_stage Stage.parse retries' i (parse_stage a settings r' i p.1) ≡ (done, p.1))
          × ((queue_fails : Bool) (user_id : ℕ)
              → (Restart.retry queue_fails user_id i p.1).1 ≡ p.1))
        (sym (first_run r i retries w d e g u s f n))
        (
          refl,
          found,
          ap (run_stage Stage.parse retries' i) (
              parse_stage-refused r' i (claimed_for_parse i w) (claim_row Status.parsing d) found
                unique refl),
          λ queue_fails user_id.
              retry_refused queue_fails user_id i (claimed_for_parse i w)
                (claim_row Status.parsing d) found unique refl,
        )
