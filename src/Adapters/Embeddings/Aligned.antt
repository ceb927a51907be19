-- ===== src/Adapters/Embeddings/Aligned.antt =====
-- What every call of the embedding adapter that returns gives.
use atlas_knowledge.Common.{
  ◌≡◌, refl, ℕ, zero, suc, ◌+◌, ◌≤◌, max, not, Bool-cases, inl, inr, true, List, [], ◌∷◌, ◌++◌, any,
  take, drop, length, length-append, length-take, length-drop, All, All-append, ==_iff, ◌==◌, arith,
  Text, Outcome, ok, err, leb,
}
use atlas_knowledge.Adapters.Json.{Json}
use atlas_knowledge.Adapters.Http.{timed_out, http_error, other_error, task_cancelled}
use atlas_knowledge.Adapters.Embeddings.{
  Trouble, malformed, escaped, steps_of_ok, EmbedRequest, Posted, unanswered, replied, Settings,
  has_other_dim, check_vectors, embed_batch, read_vectors, post_batch, extend_by, embed_from, embed,
}

module _ {F : Type 0} (to_float : Json → Outcome Trouble F)
    (sort_others : List (Json × Json) → Outcome Trouble (List Json)) where
  -- One vector of the right dimension for each of `n` texts.
  abbrev pub IsAligned : ℕ → ℕ → List (List F) → Type 0
  IsAligned dim n vectors = (length vectors ≡ n) × All (λ v. length v ≡ dim) vectors

  dims_of_checked :
      (dim : ℕ) (vectors : List (List F))
      → not (any (has_other_dim dim) vectors) ≡ true
      → All (λ v. length v ≡ dim) vectors
  dims_of_checked dim [] h = tt
  dims_of_checked dim (v ∷ vs) h = elim (Bool-cases (length v == dim)) [
    | inl e ↦ ((==_iff (length v) dim).0 e, dims_of_checked dim vs (rw e at h))
    | inr e ↦ cc
  ]

  check_vectors-IsAligned :
      (dim : ℕ) (batch : List Text) (r : Outcome Trouble (List (List F))) {vs : List (List F)}
      → check_vectors dim batch r ≡ ok vs
      → IsAligned dim (length batch) vs
  unfolding check_vectors
  check_vectors-IsAligned dim batch (err malformed) h = cc
  check_vectors-IsAligned dim batch (err escaped) h = cc
  check_vectors-IsAligned dim batch (ok vectors) {vs} h =
      elim (Bool-cases (length vectors == length batch)) [
        | inr e ↦ cc
        | inl e ↦ elim (Bool-cases (any (has_other_dim dim) vectors)) [
          | inl f ↦ cc
          | inr f ↦
              let same : vectors ≡ vs = cc in
              rw (← same) (
                (==_iff (length vectors) (length batch)).0 e,
                dims_of_checked dim vectors (rw f refl),
              )
        ]
      ]

  embed_batch-IsAligned :
      (dim : ℕ) (batch : List Text) (p : Posted) {vs : List (List F)}
      → embed_batch to_float sort_others dim batch p ≡ ok vs
      → IsAligned dim (length batch) vs
  unfolding embed_batch
  embed_batch-IsAligned dim batch (unanswered timed_out) h = cc
  embed_batch-IsAligned dim batch (unanswered http_error) h = cc
  embed_batch-IsAligned dim batch (unanswered other_error) h = cc
  embed_batch-IsAligned dim batch (unanswered task_cancelled) h = cc
  embed_batch-IsAligned dim batch (replied r) h = elim (Bool-cases (leb 400 r.status)) [
    | inl e ↦ cc
    | inr e ↦
        check_vectors-IsAligned dim batch (read_vectors to_float sort_others r.json) (rw e at h)
  ]

  -- A batch and what is left of the texts make up the texts.
  batch_lengths :
      (k : ℕ) (texts : List Text) → length (take k texts) + length (drop k texts) ≡ length texts
  batch_lengths k texts = omega (arith, length-take k texts, length-drop k texts)

  module _ (settings : Settings) (post : ℕ → Text → EmbedRequest → Posted) where
    embed_from-IsAligned :
        (fuel start : ℕ) (texts : List Text) {vs : List (List F)}
        → length texts ≤ fuel
        → embed_from to_float sort_others settings post fuel start texts ≡ ok vs
        → IsAligned settings.dim (length texts) vs
    unfolding embed_from
    embed_from-IsAligned fuel start [] {vs} enough h = let e : [] ≡ vs = cc in rw (← e) (refl, tt)
    embed_from-IsAligned zero start (t ∷ ts) enough h = absurd (omega arith)
    embed_from-IsAligned (suc fuel) start (t ∷ ts) {vs} enough h =
        let size = max 1 settings.batch_size in
        let batch = take size (t ∷ ts) in
        let later = drop size (t ∷ ts) in
        let (now, h', e) =
          steps_of_ok
            (extend_by (embed_from to_float sort_others settings post fuel (start + size) later))
            (embed_batch to_float sort_others settings.dim batch
              (post_batch settings post start batch))
            h in
        let (rest, g, f) =
          steps_of_ok (λ rest. ok (now ++ rest))
            (embed_from to_float sort_others settings post fuel (start + size) later) h' in
        let same : now ++ rest ≡ vs = cc in
        let (n, dims) = embed_batch-IsAligned settings.dim batch _ e in
        let (n', dims') =
          embed_from-IsAligned fuel (start + size) later (omega (arith, length-drop size (t ∷ ts)))
            f in
        rw (← same) (
          omega (arith, length-append now rest, batch_lengths size (t ∷ ts)),
          All-append _ now rest dims dims',
        )

    -- Whatever the service answers: when embed returns, it returns one vector for each text, and
    -- each has the configured dimension; an answer with too few, too many or other vectors raises.
    pub embed-IsAligned :
        (texts : List Text) {vs : List (List F)}
        → embed to_float sort_others settings post texts ≡ ok vs
        → IsAligned settings.dim (length texts) vs
    unfolding embed
    embed-IsAligned texts h = embed_from-IsAligned (length texts) 0 texts (omega arith) h
