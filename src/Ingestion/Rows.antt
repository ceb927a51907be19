-- ===== src/Ingestion/Rows.antt =====
-- What the repositories' writes do to a document, the others and the id column.
use mathlib.Core.Path.{subst}
use atlas_knowledge.Common.{
  ℕ, ◌≡◌, refl, sym, ap, ◌∙◌, Bool, true, false, List, [], ◌∷◌, none, some, ◌==◌, Bool-cases, inl,
  inr, arith, any, find_first, Text,
}
use atlas_knowledge.Ingestion.World.{
  Status, Stage, Document, World, status_eq, has_id, update_document, get_document, claimable,
  claim_row, claim_rows, claim_document, set_status, set_failed, mark_running, mark_finished,
}
use atlas_knowledge.Ingestion.Stages.{claim, succeed, fail}

-- The primary key.
abbrev pub NoId : ℕ → List Document → Type 0
NoId i [] = Unit
NoId i (d ∷ ds) = ((d.id == i) ≡ false) × NoId i ds

abbrev pub UniqueIds : List Document → Type 0
UniqueIds [] = Unit
UniqueIds (d ∷ ds) = NoId d.id ds × UniqueIds ds

pub find-update :
    (i : ℕ) (f : Document → Document) (ds : List Document) {d : Document}
    → (f d).id ≡ d.id
    → find_first (has_id i) ds ≡ some d
    → find_first (has_id i) (update_document i f ds) ≡ some (f d)
unfolding update_document
find-update i f [] k e = cc
find-update i f (x ∷ ds) {d} k e = elim (Bool-cases (x.id == i)) [
  | inl p ↦ let same : some x ≡ some d = rw p at e in ground (arith, same)
  | inr p ↦ rw (p, p) (find-update i f ds k (rw p at e))
]

pub find-update_other :
    (i j : ℕ) (f : Document → Document) (ds : List Document)
    → ((d : Document) → (f d).id ≡ d.id)
    → (i == j) ≡ false
    → find_first (has_id j) (update_document i f ds) ≡ find_first (has_id j) ds
unfolding update_document
find-update_other i j f [] k n = refl
find-update_other i j f (x ∷ ds) k n = ground (arith, k x, find-update_other i j f ds k n)

abbrev pub allows : List Status → Document → Bool
allows allowed d = any (status_eq d.status) allowed

none_claimable :
    (i : ℕ) (allowed : List Status) (ds : List Document)
    → NoId i ds
    → any (claimable i allowed) ds ≡ false
none_claimable i allowed [] h = refl
none_claimable i allowed (d ∷ ds) h = rw h.0 (none_claimable i allowed ds h.1)

-- The conditional UPDATE meets a row exactly when the document has one of the statuses.
pub any-claimable :
    (i : ℕ) (allowed : List Status) (ds : List Document) {d : Document}
    → UniqueIds ds
    → find_first (has_id i) ds ≡ some d
    → any (claimable i allowed) ds ≡ allows allowed d
any-claimable i allowed [] u e = cc
any-claimable i allowed (x ∷ ds) {d} u e = elim (Bool-cases (x.id == i)) [
  | inl p ↦
      let same : some x ≡ some d = rw p at e in
      let key : x.id ≡ i = ground arith in
      let rest : any (claimable i allowed) ds ≡ false =
        none_claimable i allowed ds (rw key at u.0) in
      rw (p, rest) (ground (arith, same))
  | inr p ↦ rw p (any-claimable i allowed ds u.1 (rw p at e))
]

pub find-claim_rows :
    (i : ℕ) (allowed : List Status) (to : Status) (ds : List Document) {d : Document}
    → find_first (has_id i) ds ≡ some d
    → allows allowed d ≡ true
    → find_first (has_id i) (claim_rows i allowed to ds) ≡ some (claim_row to d)
unfolding claim_rows
find-claim_rows i allowed to [] e a = cc
find-claim_rows i allowed to (x ∷ ds) {d} e a = elim (Bool-cases (x.id == i)) [
  | inl p ↦
      let same : some x ≡ some d = rw p at e in
      let eq : x ≡ d = cc same in
      let ax : allows allowed x ≡ true = subst (λ y. allows allowed y ≡ true) (sym eq) a in
      rw (p, ax, p) (ap (λ y. some (claim_row to y)) eq)
  | inr p ↦ rw (p, p) (find-claim_rows i allowed to ds (rw p at e) a)
]

pub find-claim_rows_other :
    (i j : ℕ) (allowed : List Status) (to : Status) (ds : List Document)
    → (i == j) ≡ false
    → find_first (has_id j) (claim_rows i allowed to ds) ≡ find_first (has_id j) ds
unfolding claim_rows
find-claim_rows_other i j allowed to [] n = refl
find-claim_rows_other i j allowed to (x ∷ ds) n =
    ground (arith, find-claim_rows_other i j allowed to ds n)

-- The document `i`, and every other one, in the world after a step.
module _ (i : ℕ) (w : World) {d : Document} (e : get_document i w ≡ some d) where
  pub get-succeed :
      (stage : Stage) (next : Status)
      → get_document i (succeed i stage next w) ≡ some (record d { status = next })
  unfolding succeed set_status mark_finished
  get-succeed stage next = find-update i (λ x. record x { status = next }) w.documents refl e

  pub get-fail :
      (stage : Stage) (message : Text)
      → get_document i (fail i stage message w)
        ≡ some (record d { status = Status.failed; error = some message })
  unfolding fail set_failed mark_finished
  get-fail stage message =
      find-update i (λ x. record x { status = Status.failed; error = some message }) w.documents
        refl e

  -- A claim from a status that is allowed is granted, and leaves the document in its new status.
  pub claim_granted :
      (allowed : List Status) (to : Status) (stage : Stage)
      → UniqueIds w.documents
      → allows allowed d ≡ true
      → (claim i allowed to stage w
          ≡ some
              (mark_running i stage (record w { documents = claim_rows i allowed to w.documents })))
        × (get_document i (record w { documents = claim_rows i allowed to w.documents })
            ≡ some (claim_row to d))
  unfolding claim claim_document
  claim_granted allowed to stage u a = (
    rw (any-claimable i allowed w.documents u e ∙ a, claim, claim_document),
    find-claim_rows i allowed to w.documents e a,
  )

  -- A claim from any other status is refused.
  pub claim_refused :
      (allowed : List Status) (to : Status) (stage : Stage)
      → UniqueIds w.documents
      → allows allowed d ≡ false
      → claim i allowed to stage w ≡ none
  unfolding claim claim_document
  claim_refused allowed to stage u a =
      rw (any-claimable i allowed w.documents u e ∙ a, claim, claim_document)
