-- ===== src/Adapters/Embeddings/Served.antt =====
-- The promise of the port (backend/app/domain/ports/embedding.py, `embed`): the vectors in the order
-- of the texts, for a service that answers each batch with its rows in any order.
use mathlib.Core.List.{map-append}
use atlas_knowledge.Common.{
  any, sym, ◌≡◌, refl, ap, ◌∙◌, ℕ, zero, suc, ◌+◌, ◌≤◌, ◌<◌, max, false, List, [], ◌∷◌, map, take,
  drop, length, length-drop, take-append-drop, All, arith, Text, codes, some, Outcome, ok, leb,
  ==_refl,
}
use atlas_knowledge.Common.Sorting.{
  sorted_by, Shuffled, Ascending, sorted_by-Shuffled, sorted_by-map,
}
use atlas_knowledge.Adapters.Json.{Json, num, subscript, iterate}
use atlas_knowledge.Adapters.Embeddings.{
  Trouble, EmbedRequest, EmbedResponse, Posted, replied, Settings, with_index, numbered, row_of,
  index_of, sort_keyed, sorted_rows, vector_of, vectors_of, read_vectors, check_vectors,
  embed_batch, post_batch, embed_from, embed, has_other_dim,
}

-- The texts with their positions, from `n` on.
abbrev pub indexed : ℕ → List Text → List (ℕ × Text)
indexed n [] = []
indexed n (t ∷ ts) = (n, t) ∷ indexed (suc n) ts

abbrev position : ℕ × Text → ℕ
position (i, t) = i

indexed_above : (k n : ℕ) (ts : List Text) → k < n → All (λ p. k < position p) (indexed n ts)
indexed_above k n [] h = tt
indexed_above k n (t ∷ ts) h = (h, indexed_above k (suc n) ts (omega arith))

indexed-Ascending : (n : ℕ) (ts : List Text) → Ascending position (indexed n ts)
indexed-Ascending n [] = tt
indexed-Ascending n (t ∷ ts) =
    (indexed_above n (suc n) ts (omega arith), indexed-Ascending (suc n) ts)

-- `row i t` is the row of the text `t` at position `i`, and `f t` the vector that it reads as.
module _ {F : Type 0} (to_float : Json → Outcome Trouble F)
    (sort_others : List (Json × Json) → Outcome Trouble (List Json)) (row : ℕ → Text → Json)
    (f : Text → List F)
    (row_index : (i : ℕ) (t : Text) → subscript (row i t) (codes "index") ≡ some (num i))
    (row_vector : (i : ℕ) (t : Text) → vector_of to_float (row i t) ≡ ok (f t)) where
  abbrev pub row_at : ℕ × Text → Json
  row_at (i, t) = row i t

  abbrev with_key : ℕ × Text → Json × Json
  with_key (i, t) = (num i, row i t)

  abbrev with_position : ℕ × Text → ℕ × Json
  with_position (i, t) = (i, row i t)

  with_index_lem : (ps : List (ℕ × Text)) → with_index (map row_at ps) ≡ ok (map with_key ps)
  unfolding with_index
  with_index_lem [] = refl
  with_index_lem ((i, t) ∷ ps) = simp (row_index i t, with_index_lem ps)

  numbered_lem : (ps : List (ℕ × Text)) → numbered (map with_key ps) ≡ some (map with_position ps)
  unfolding numbered
  numbered_lem [] = refl
  numbered_lem ((i, t) ∷ ps) = simp (numbered_lem ps)

  rows_of_positions : (ps : List (ℕ × Text)) → map row_of (map with_position ps) ≡ map row_at ps
  rows_of_positions [] = refl
  rows_of_positions ((i, t) ∷ ps) = ap (λ rs. row i t ∷ rs) (rows_of_positions ps)

  -- Rows in any order are put back into the order of their texts.
  sorted_rows_lem :
      (ts : List Text) {ps : List (ℕ × Text)}
      → Shuffled (indexed 0 ts) ps
      → sorted_rows sort_others (map row_at ps) ≡ ok (map row_at (indexed 0 ts))
  unfolding sorted_rows sort_keyed
  sorted_rows_lem ts {ps} s =
      simp (with_index_lem ps, sort_keyed, numbered_lem ps)
        (ap ok (
          ap (map row_of) (sorted_by-map with_position index_of ps)
          ∙ (rows_of_positions (sorted_by (λ p. index_of (with_position p)) ps)
              ∙ ap (map row_at) (
                  sorted_by-Shuffled (λ p. index_of (with_position p)) s
                    (indexed-Ascending 0 ts)))))

  vectors_of_lem :
      (n : ℕ) (ts : List Text) → vectors_of to_float (map row_at (indexed n ts)) ≡ ok (map f ts)
  unfolding vectors_of
  vectors_of_lem n [] = refl
  vectors_of_lem n (t ∷ ts) = simp (row_vector n t, vectors_of_lem (suc n) ts)

  -- The answer to a batch: no error, and the rows of the texts in some order under `data`.
  abbrev pub AnswersInSomeOrder : List Text → Posted → Type 0
  AnswersInSomeOrder batch posted =
      (r : EmbedResponse) × (ps : List (ℕ × Text)) × (answer : Json) × (rows : Json) × (posted
        ≡ replied r)
      × (leb 400 r.status ≡ false)
      × (r.json ≡ ok answer)
      × (subscript answer (codes "data") ≡ some rows)
      × (iterate rows ≡ some (map row_at ps))
      × Shuffled (indexed 0 batch) ps

  read_vectors_lem :
      (batch : List Text) {ps : List (ℕ × Text)} (answer rows : Json)
      → subscript answer (codes "data") ≡ some rows
      → iterate rows ≡ some (map row_at ps)
      → Shuffled (indexed 0 batch) ps
      → read_vectors to_float sort_others (ok answer) ≡ ok (map f batch)
  unfolding read_vectors
  read_vectors_lem batch answer rows d i s =
      simp (d, i, sorted_rows_lem batch s, vectors_of_lem 0 batch) refl

  module _ (dim : ℕ) (right_dim : (t : Text) → length (f t) ≡ dim) where
    no_other_dim : (ts : List Text) → any (has_other_dim dim) (map f ts) ≡ false
    no_other_dim [] = refl
    no_other_dim (t ∷ ts) = simp (right_dim t, ==_refl dim) (no_other_dim ts)

    length-map : (ts : List Text) → length (map f ts) ≡ length ts
    length-map [] = refl
    length-map (t ∷ ts) = ap suc (length-map ts)

    embed_batch_lem :
        (batch : List Text) (posted : Posted)
        → AnswersInSomeOrder batch posted
        → embed_batch to_float sort_others dim batch posted ≡ ok (map f batch)
    unfolding embed_batch check_vectors
    embed_batch_lem batch posted (r, ps, answer, rows, p, good, j, d, i, s) = rw p (
        rw
          (
            good,
            j,
            read_vectors_lem batch answer rows d i s,
            length-map batch,
            ==_refl (length batch),
            no_other_dim batch,
          )
          refl)

module _ {F : Type 0} (to_float : Json → Outcome Trouble F)
    (sort_others : List (Json × Json) → Outcome Trouble (List Json)) (settings : Settings)
    (post : ℕ → Text → EmbedRequest → Posted) (row : ℕ → Text → Json) (f : Text → List F)
    (row_index : (i : ℕ) (t : Text) → subscript (row i t) (codes "index") ≡ some (num i))
    (row_vector : (i : ℕ) (t : Text) → vector_of to_float (row i t) ≡ ok (f t))
    (right_dim : (t : Text) → length (f t) ≡ settings.dim)
    (served : (start : ℕ) (batch : List Text)
      → AnswersInSomeOrder to_float sort_others row f row_index row_vector batch
          (post_batch settings post start batch)) where
  embed_from_lem :
      (fuel start : ℕ) (texts : List Text)
      → length texts ≤ fuel
      → embed_from to_float sort_others settings post fuel start texts ≡ ok (map f texts)
  unfolding embed_from
  embed_from_lem fuel start [] enough = refl
  embed_from_lem zero start (t ∷ ts) enough = absurd (omega arith)
  embed_from_lem (suc fuel) start (t ∷ ts) enough =
      let size = max 1 settings.batch_size in
      let later = drop size (t ∷ ts) in
      simp
        (
          embed_batch_lem to_float sort_others row f row_index row_vector settings.dim right_dim
              (take size (t ∷ ts)) _ (served start (take size (t ∷ ts))),
          embed_from_lem fuel (start + size) later (omega (arith, length-drop size (t ∷ ts))),
        )
        (ap ok (
          sym (map-append f (take size (t ∷ ts)) later)
          ∙ ap (map f) (take-append-drop size (t ∷ ts))))

  -- From a service that answers every batch with a row for each text, in any order and each with
  -- the index of its text, embed gets the vectors of the texts in their order, whatever the size
  -- of the batches and the number of the texts.
  pub embed_lem :
      (texts : List Text) → embed to_float sort_others settings post texts ≡ ok (map f texts)
  unfolding embed
  embed_lem texts = embed_from_lem (length texts) 0 texts (omega arith)
