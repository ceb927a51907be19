-- ===== src/Ingestion/Uploads/Claims.antt =====
-- Retry: the stage that is queued can claim the document.
use mathlib.Core.Path.{subst}
use atlas_knowledge.Common.{
  ℕ, ◌≡◌, refl, sym, ap, ◌∙◌, false, List, [], ◌∷◌, ◌++◌, none, some, ◌==◌, ==_iff, Bool-cases, inl,
  inr, arith, if◌then◌else◌, find_first, find_first_passes, ok, err,
}
use atlas_knowledge.Errors.{document_not_retryable}
use atlas_knowledge.Ingestion.World.{
  Status, Stage, Document, World, run, status_eq, has_id, update_document, get_document,
  first_failed_stage,
}
use atlas_knowledge.Ingestion.Stages.{start_of}
use atlas_knowledge.Ingestion.Rows.{UniqueIds, NoId, find-update, claim_granted}
use atlas_knowledge.Ingestion.Uploads.Restart.{
  owned_by, get_owned, entry_status, restart_row, enqueue_stage, or_parse, restart, retry,
}

no_owned : (u i : ℕ) (ds : List Document) → NoId i ds → find_first (owned_by u i) ds ≡ none
no_owned u i [] h = refl
no_owned u i (d ∷ ds) h = rw h.0 (no_owned u i ds h.1)

-- The row that the owner finds is the row of its id.
pub owned-find :
    (u i : ℕ) (ds : List Document) {d : Document}
    → find_first (owned_by u i) ds ≡ some d
    → UniqueIds ds
    → find_first (has_id i) ds ≡ some d
owned-find u i [] e h = cc
owned-find u i (x ∷ ds) {d} e h = elim (Bool-cases (x.id == i)) [
  | inr p ↦ rw p (owned-find u i ds (rw p at e) h.1)
  | inl p ↦ elim (Bool-cases (x.uploaded_by == u)) [
    | inl q ↦ rw p (rw (p, q) at e)
    | inr q ↦
        let key : x.id ≡ i = ground arith in
        let nothing : find_first (owned_by u i) ds ≡ none = no_owned u i ds (rw key at h.0) in
        let found : find_first (owned_by u i) ds ≡ some d = rw (p, q) at e in cc
  ]
]

pub find_has_id :
    (i : ℕ) (ds : List Document) {d : Document} → find_first (has_id i) ds ≡ some d → d.id ≡ i
find_has_id i ds {d} e = (==_iff d.id i).0 (find_first_passes (has_id i) ds e)

-- After the restart with a working queue.
restarted :
    (i : ℕ) (w : World) {d : Document}
    → get_document i w ≡ some d
    → get_document i (restart false i w)
      ≡ some (restart_row (entry_status (or_parse (first_failed_stage i w))) d)
unfolding restart enqueue_stage
restarted i w e =
    find-update i (restart_row (entry_status (or_parse (first_failed_stage i w)))) w.documents refl
      e

entry_starts :
    (stage : Stage) (i : ℕ) (w : World) (d : Document)
    → UniqueIds w.documents
    → get_document i w ≡ some (restart_row (entry_status stage) d)
    → (claimed : World) × (start_of stage i w ≡ some claimed)
entry_starts Stage.parse i w d u e = (
  _,
  (claim_granted i w e (Status.pending ∷ Status.failed ∷ []) Status.parsing Stage.parse u refl).0,
)
entry_starts Stage.chunk i w d u e = (
  _,
  (claim_granted i w e (Status.chunking ∷ Status.failed ∷ []) Status.chunking Stage.chunk u refl).0,
)
entry_starts Stage.embed i w d u e = (
  _,
  (claim_granted i w e (Status.embedding ∷ Status.failed ∷ []) Status.embedding Stage.embed u
      refl).0,
)

NoId-update :
    (i j : ℕ) (f : Document → Document) (ds : List Document)
    → ((d : Document) → (f d).id ≡ d.id)
    → NoId j ds
    → NoId j (update_document i f ds)
unfolding update_document
NoId-update i j f [] k h = tt
NoId-update i j f (d ∷ ds) k h = elim (Bool-cases (d.id == i)) [
  | inl p ↦ rw p (subst (λ n. (n == j) ≡ false) (sym (k d)) h.0, NoId-update i j f ds k h.1)
  | inr p ↦ rw p (h.0, NoId-update i j f ds k h.1)
]

pub UniqueIds-update :
    (i : ℕ) (f : Document → Document) (ds : List Document)
    → ((d : Document) → (f d).id ≡ d.id)
    → UniqueIds ds
    → UniqueIds (update_document i f ds)
unfolding update_document
UniqueIds-update i f [] k h = tt
UniqueIds-update i f (d ∷ ds) k h = elim (Bool-cases (d.id == i)) [
  | inl p ↦ rw p (
    subst (λ n. NoId n (update_document i f ds)) (sym (k d)) (NoId-update i d.id f ds k h.0),
    UniqueIds-update i f ds k h.1,
  )
  | inr p ↦ rw p (NoId-update i d.id f ds k h.0, UniqueIds-update i f ds k h.1)
]

retry-failed :
    (user_id i : ℕ) (w : World) (d : Document)
    → get_owned user_id i w ≡ some d
    → d.status ≡ Status.failed
    → d.id ≡ i
    → retry false user_id i w ≡ (ok i, restart false i w)
unfolding retry
retry-failed user_id i w d e f k =
    rw (retry, e)
      (ap
          (λ t.
            if status_eq t Status.failed
            then (ok d.id, restart false d.id w)
            else (err document_not_retryable, w))
          f
        ∙ ap (λ n. (ok n, restart false n w)) k)

restart-UniqueIds :
    (i : ℕ) (w : World) → UniqueIds w.documents → UniqueIds (restart false i w).documents
unfolding restart enqueue_stage
restart-UniqueIds i w u =
    UniqueIds-update i (restart_row (entry_status (or_parse (first_failed_stage i w)))) w.documents
      (λ d. refl) u

restart-queue :
    (i : ℕ) (w : World)
    → (restart false i w).queue ≡ w.queue ++ run (or_parse (first_failed_stage i w)) i ∷ []
unfolding restart enqueue_stage
restart-queue i w = refl

-- With unique document ids, the owner's retry of a failed document, with a working queue, answers
-- with its id, clears its error, queues the first of its stages that failed (or `parse`), and
-- leaves it in a status from which the claim of that stage is granted.
pub retry_starts :
    (user_id i : ℕ) (w : World) {d : Document}
    → UniqueIds w.documents
    → get_owned user_id i w ≡ some d
    → d.status ≡ Status.failed
    → (let r = retry false user_id i w in
        let stage = or_parse (first_failed_stage i w) in
        (r.0 ≡ ok i)
        × (r.1.queue ≡ w.queue ++ run stage i ∷ [])
        × (get_document i r.1 ≡ some (restart_row (entry_status stage) d))
        × ((claimed : World) × (start_of stage i r.1 ≡ some claimed)))
retry_starts user_id i w {d} u e f =
    let found = owned-find user_id i w.documents e u in
    let same = find_has_id i w.documents found in
    let stage = or_parse (first_failed_stage i w) in
    subst
      (λ r.
        (r.0 ≡ ok i)
        × (r.1.queue ≡ w.queue ++ run stage i ∷ [])
        × (get_document i r.1 ≡ some (restart_row (entry_status stage) d))
        × ((claimed : World) × (start_of stage i r.1 ≡ some claimed)))
      (sym (retry-failed user_id i w d e f same))
      (
        refl,
        restart-queue i w,
        restarted i w found,
        entry_starts stage i (restart false i w) d (restart-UniqueIds i w u) (restarted i w found),
      )
