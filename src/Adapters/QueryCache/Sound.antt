-- ===== src/Adapters/QueryCache/Sound.antt =====
-- The cache changes no answer of the provider.
use mathlib.Core.List.{append_cancel_left}
use atlas_knowledge.Common.{
  ◌≡◌, refl, sym, ◌∙◌, ◌⊎◌, inl, inr, List, [], ◌∷◌, ◌++◌, Option, none, some, Bool-cases,
  Option-cases, Text, codes, text_eq, text_eq_iff, Outcome, ok,
}
use atlas_knowledge.Adapters.Json.{Json}
use atlas_knowledge.Adapters.Embeddings.{Trouble, Failure}
use atlas_knowledge.Adapters.QueryCache.{
  Redis, cache_key, read_entry, get_cached, set_cached, embed_missed, embed_query,
}

module _ {F : Type 0} (to_float : Json → Outcome Trouble F) (loads : Text → Outcome Trouble Json)
    (dumps : List F → Text) (sha : Text → Text) (version : Text) (f : Text → List F)
    (embed : List Text → Outcome Failure (List (List F))) where
  -- Every entry under the key of a query reads as the query's vector, or as a miss.
  abbrev pub IsSound : Redis → Type 0
  IsSound redis =
      (query raw : Text)
      → redis.entries (cache_key to_float loads dumps sha version query) ≡ some raw
      → (read_entry to_float loads dumps sha version raw ≡ ok (some (f query)))
        ⊎ (read_entry to_float loads dumps sha version raw ≡ ok none)

  get_cached-IsSound :
      (redis : Redis) (query : Text)
      → IsSound redis
      → (get_cached to_float loads dumps sha version redis query ≡ ok (some (f query)))
        ⊎ (get_cached to_float loads dumps sha version redis query ≡ ok none)
  unfolding get_cached
  get_cached-IsSound redis query s = elim (Bool-cases redis.get_fails) [
    | inl e ↦ inr (simp (get_cached, e) refl)
    | inr e ↦
        elim (Option-cases (redis.entries (cache_key to_float loads dumps sha version query))) [
          | inl m ↦ inr (simp (get_cached, e, m) refl)
          | inr (raw, m) ↦ elim (s query raw m) [
            | inl k ↦ inl (simp (get_cached, e, m) k)
            | inr k ↦ inr (simp (get_cached, e, m) k)
          ]
        ]
  ]

  module _
      (round_trip : (v : List F)
        → read_entry to_float loads dumps sha version (dumps v) ≡ ok (some v))
      (distinct_digests : (p q : Text) → sha p ≡ sha q → p ≡ q) where
    same_key :
        (p q : Text)
        → cache_key to_float loads dumps sha version p
          ≡ cache_key to_float loads dumps sha version q
        → p ≡ q
    same_key p q e = distinct_digests p q (
        append_cancel_left (codes ":") (sha p) (sha q) (
          append_cancel_left version (codes ":" ++ sha p) (codes ":" ++ sha q)
            (append_cancel_left (codes "emb:q:") _ _ e)))

    -- What stands in the entries after a write: the new text under its key.
    entry_after :
        (redis : Redis) (query key : Text)
        → ((set_cached to_float loads dumps sha version redis query (f query)).entries key
            ≡ redis.entries key)
          ⊎ ((key ≡ cache_key to_float loads dumps sha version query)
              × ((set_cached to_float loads dumps sha version redis query (f query)).entries key
                  ≡ some (dumps (f query))))
    unfolding set_cached
    entry_after redis query key = elim (Bool-cases redis.set_fails) [
      | inl e ↦ inl (rw (e, set_cached) refl)
      | inr e ↦ elim (Bool-cases (text_eq key (cache_key to_float loads dumps sha version query))) [
        | inl k ↦ inr (
          (text_eq_iff key (cache_key to_float loads dumps sha version query)).0 k,
          simp (set_cached, e, k) refl,
        )
        | inr k ↦ inl (simp (set_cached, e, k) refl)
      ]
    ]

    set_cached-IsSound :
        (redis : Redis) (query : Text)
        → IsSound redis
        → IsSound (set_cached to_float loads dumps sha version redis query (f query))
    set_cached-IsSound redis query s q raw h =
        elim (entry_after redis query (cache_key to_float loads dumps sha version q)) [
          | inl old ↦ s q raw (sym old ∙ h)
          | inr (k, new) ↦
              let same : q ≡ query = same_key q query k in
              let stored : some (dumps (f query)) ≡ some raw = sym new ∙ h in
              let text : dumps (f query) ≡ raw = cc stored in
              inl (rw (← text, same) (round_trip (f query)))
        ]

    after_get :
        (provides : (query : Text) → embed (query ∷ []) ≡ ok (f query ∷ []))
        → (redis : Redis) (text : Text) (cached : Outcome Failure (Option (List F))) → IsSound redis
        → (cached ≡ ok (some (f text))) ⊎ (cached ≡ ok none)
        → (let r = embed_missed to_float loads dumps sha version embed redis text cached in
            (r.0 ≡ ok (f text)) × IsSound r.1)
    after_get provides redis text cached s (inl hit) = rw hit (refl, s)
    after_get provides redis text cached s (inr miss) =
        rw miss (rw (provides text) (refl, set_cached-IsSound redis text s))

    -- With a cache whose entries under the keys of this version are the provider's vectors or
    -- unreadable, embed_query gives the provider's vector of the text, whatever the cache holds and
    -- whether its calls fail, and leaves a cache of the same kind: for a provider that has a vector
    -- for every text, a JSON round trip of vectors, and digests that tell the queries apart.
    pub embed_query_lem :
        (provides : (query : Text) → embed (query ∷ []) ≡ ok (f query ∷ []))
        → (redis : Redis) (text : Text) → IsSound redis
        → (let r = embed_query to_float loads dumps sha version embed redis text in
            (r.0 ≡ ok (f text)) × IsSound r.1)
    unfolding embed_query
    embed_query_lem provides redis text s =
        after_get provides redis text _ s (get_cached-IsSound redis text s)
