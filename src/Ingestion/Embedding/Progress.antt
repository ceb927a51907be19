-- ===== src/Ingestion/Embedding/Progress.antt =====
-- Every round of the embed loop leaves fewer chunks to embed.
use mathlib.Core.Path.{subst}
use atlas_knowledge.Common.{
  ℕ, zero, suc, ◌≤◌, ◌<◌, ◌≡◌, refl, sym, ap, ◌∙◌, ◌⊎◌, inl, inr, Bool, true, List, [], ◌∷◌, some,
  Option-cases, Bool-cases, arith, Text, length, keep, take, leb, Occurs,
}
use atlas_knowledge.Ingestion.World.{
  DocumentChunk, is_unembedded, insert_by_seq, sort_by_seq, list_unembedded, set_embedding,
  set_embeddings,
}
use atlas_knowledge.Ingestion.Embedding.{pair_up}

-- The number of chunks of a document that wait for their embedding.
abbrev pub count_unembedded : ℕ → List DocumentChunk → ℕ
count_unembedded i cs = length (keep (is_unembedded i) cs)

count-set_embedding-le :
    (i cid v : ℕ) (version : Text) (cs : List DocumentChunk)
    → count_unembedded i (set_embedding cid v version cs) ≤ count_unembedded i cs
unfolding set_embedding
count-set_embedding-le i cid v version [] = omega arith
count-set_embedding-le i cid v version (c ∷ cs) =
    ground (arith, count-set_embedding-le i cid v version cs)

count-set_embeddings-le :
    (i : ℕ) (pairs : List (ℕ × ℕ)) (version : Text) (cs : List DocumentChunk)
    → count_unembedded i (set_embeddings pairs version cs) ≤ count_unembedded i cs
unfolding set_embeddings
count-set_embeddings-le i [] version cs = omega arith
count-set_embeddings-le i ((cid, v) ∷ pairs) version cs = omega (
  arith,
  count-set_embeddings-le i pairs version (set_embedding cid v version cs),
  count-set_embedding-le i cid v version cs,
)

count-set_embedding-lt :
    (i v : ℕ) (version : Text) (c : DocumentChunk) (cs : List DocumentChunk)
    → Occurs c cs
    → is_unembedded i c ≡ true
    → count_unembedded i (set_embedding c.id v version cs) < count_unembedded i cs
unfolding set_embedding
count-set_embedding-lt i v version c [] o p = elim o [ ]
count-set_embedding-lt i v version c (x ∷ cs) (inl e) p =
    ground (arith, count-set_embedding-le i c.id v version cs)
count-set_embedding-lt i v version c (x ∷ cs) (inr o) p =
    ground (arith, count-set_embedding-lt i v version c cs o p)

Occurs-keep_cons :
    (p : DocumentChunk → Bool) (c x : DocumentChunk) (cs : List DocumentChunk)
    → p x ≡ true
    → (Occurs c (keep p cs) → Occurs c cs × (p c ≡ true))
    → Occurs c (x ∷ keep p cs)
    → Occurs c (x ∷ cs) × (p c ≡ true)
Occurs-keep_cons p c x cs h ih (inl e) = (inl e, subst (λ y. p y ≡ true) (sym e) h)
Occurs-keep_cons p c x cs h ih (inr q) = let (r, g) = ih q in (inr r, g)

Occurs-keep :
    (p : DocumentChunk → Bool) (c : DocumentChunk) (cs : List DocumentChunk)
    → Occurs c (keep p cs)
    → Occurs c cs × (p c ≡ true)
Occurs-keep p c [] o = elim o [ ]
Occurs-keep p c (x ∷ cs) o = elim (Bool-cases (p x)) [
  | inl e ↦ Occurs-keep_cons p c x cs e (Occurs-keep p c cs) (rw e at o)
  | inr e ↦ let (q, h) = Occurs-keep p c cs (rw e at o) in (inr q, h)
]

Occurs-insert_cons :
    (c d x : DocumentChunk) (ds : List DocumentChunk)
    → (Occurs c (insert_by_seq d ds) → (c ≡ d) ⊎ Occurs c ds)
    → Occurs c (x ∷ insert_by_seq d ds)
    → (c ≡ d) ⊎ Occurs c (x ∷ ds)
Occurs-insert_cons c d x ds ih (inl e) = inr (inl e)
Occurs-insert_cons c d x ds ih (inr q) = elim (ih q) [ inl e ↦ inl e | inr r ↦ inr (inr r) ]

Occurs-insert :
    (c d : DocumentChunk) (ds : List DocumentChunk)
    → Occurs c (insert_by_seq d ds)
    → (c ≡ d) ⊎ Occurs c ds
unfolding insert_by_seq
Occurs-insert c d [] (inl e) = inl e
Occurs-insert c d [] (inr o) = elim o [ ]
Occurs-insert c d (x ∷ ds) o = elim (Bool-cases (leb d.seq x.seq)) [
  | inl e ↦ rw e at o
  | inr e ↦ Occurs-insert_cons c d x ds (Occurs-insert c d ds) (rw e at o)
]

Occurs-sort :
    (c : DocumentChunk) (cs : List DocumentChunk) → Occurs c (sort_by_seq cs) → Occurs c cs
unfolding sort_by_seq
Occurs-sort c [] o = o
Occurs-sort c (x ∷ cs) o = elim (Occurs-insert c x (sort_by_seq cs) o) [
  | inl e ↦ inl e
  | inr q ↦ inr (Occurs-sort c cs q)
]

Occurs-take :
    (c : DocumentChunk) (n : ℕ) (cs : List DocumentChunk) → Occurs c (take n cs) → Occurs c cs
Occurs-take c zero cs o = elim o [ ]
Occurs-take c (suc n) [] o = elim o [ ]
Occurs-take c (suc n) (x ∷ cs) (inl e) = inl e
Occurs-take c (suc n) (x ∷ cs) (inr o) = inr (Occurs-take c n cs o)

-- A chunk of a batch is a chunk of the document without an embedding.
pub Occurs-list_unembedded :
    (c : DocumentChunk) (i limit : ℕ) (cs : List DocumentChunk)
    → Occurs c (list_unembedded i limit cs)
    → Occurs c cs × (is_unembedded i c ≡ true)
unfolding list_unembedded
Occurs-list_unembedded c i limit cs o = Occurs-keep (is_unembedded i) c cs (
    Occurs-sort c (keep (is_unembedded i) cs)
      (Occurs-take c limit (sort_by_seq (keep (is_unembedded i) cs)) o))

length-insert :
    (d : DocumentChunk) (ds : List DocumentChunk) → length (insert_by_seq d ds) ≡ suc (length ds)
unfolding insert_by_seq
length-insert d [] = refl
length-insert d (x ∷ ds) = ground (arith, length-insert d ds)

length-sort : (cs : List DocumentChunk) → length (sort_by_seq cs) ≡ length cs
unfolding sort_by_seq
length-sort [] = refl
length-sort (c ∷ cs) = length-insert c (sort_by_seq cs) ∙ ap suc (length-sort cs)

-- With a positive batch size an empty batch means that no chunk waits.
pub count_of_no_batch :
    (i limit : ℕ) (cs : List DocumentChunk)
    → 0 < limit
    → list_unembedded i limit cs ≡ []
    → count_unembedded i cs ≡ 0
unfolding list_unembedded
count_of_no_batch i zero cs h e = absurd (omega arith)
count_of_no_batch i (suc n) cs h e =
    sym (length-sort (keep (is_unembedded i) cs))
    ∙ empty (sort_by_seq (keep (is_unembedded i) cs)) e
  where
    empty : (xs : List DocumentChunk) → take (suc n) xs ≡ [] → length xs ≡ 0
    empty [] e = refl
    empty (x ∷ xs) e = cc

-- Storing the vectors of a batch that is not empty leaves fewer chunks to embed.
pub count-batch-lt :
    (i : ℕ) (version : Text) (c : DocumentChunk) (cs chunks : List DocumentChunk) (vs : List ℕ)
    (pairs : List (ℕ × ℕ))
    → Occurs c chunks
    → is_unembedded i c ≡ true
    → pair_up (c ∷ cs) vs ≡ some pairs
    → count_unembedded i (set_embeddings pairs version chunks) < count_unembedded i chunks
unfolding pair_up set_embeddings
count-batch-lt i version c cs chunks [] pairs o p e = cc
count-batch-lt i version c cs chunks (v ∷ vs) pairs o p e = elim (Option-cases (pair_up cs vs)) [
  | inl f ↦ let bad = rw (f, pair_up) at e in cc
  | inr (rest, f) ↦
      let same : some ((c.id, v) ∷ rest) ≡ some pairs = rw (f, pair_up) at e in
      let eq : (c.id, v) ∷ rest ≡ pairs = cc same in
      rw (← eq) (
        omega (
          arith,
          count-set_embeddings-le i rest version (set_embedding c.id v version chunks),
          count-set_embedding-lt i v version c chunks o p,
        ))
]
