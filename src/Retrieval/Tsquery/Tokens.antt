-- ===== src/Retrieval/Tsquery/Tokens.antt =====
-- Which tokens the query text has.
use atlas_knowledge.Common.{
  ◌≡◌, ◌≢◌, ◌↔◌, ◌⊎◌, inl, inr, Bool, true, false, not, ◌&&◌, List, [], ◌∷◌, ◌++◌, ◌<◌, ltb, ltb→lt,
  lt→ltb, Bool-cases, any, length, All, All-concat, Occurs, Occurs-append_left, Occurs-concat, some,
  arith, Text, text_eq, text_eq_iff,
}
use atlas_knowledge.Retrieval.Tsquery.{collect_tokens, build_tsquery, split_words}
use atlas_knowledge.Retrieval.Tsquery.Reading.{read_tsquery, read_tsquery-build_tsquery}

abbrev pub AllDifferent : List Text → Type 0
AllDifferent [] = Unit
AllDifferent (t ∷ ts) = All (λ u. u ≢ t) ts × AllDifferent ts

AllDifferent-concat :
    (ts : List Text) (t : Text)
    → AllDifferent ts
    → any (text_eq t) ts ≡ false
    → AllDifferent (ts ++ t ∷ [])
AllDifferent-concat [] t d h = (tt, tt)
AllDifferent-concat (u ∷ ts) t d h = elim (Bool-cases (text_eq t u)) [
  | inl e ↦ cc
  | inr e ↦ (
    All-concat _ ts d.0 (λ (k : t ≡ u). cc ((text_eq_iff t u).1 k)),
    AllDifferent-concat ts t d.1 (rw e at h),
  )
]

Occurs-of_any : (t : Text) (ts : List Text) → any (text_eq t) ts ≡ true → Occurs t ts
Occurs-of_any t [] h = cc
Occurs-of_any t (u ∷ ts) h = elim (Bool-cases (text_eq t u)) [
  | inl e ↦ inl ((text_eq_iff t u).0 e)
  | inr e ↦ inr (Occurs-of_any t ts (rw e at h))
]

-- Whether a word is taken, behind the tokens `seen`.
abbrev is_taken : List Text → Text → Bool
is_taken seen t = ltb 1 (length t) && not (any (text_eq t) seen)

collect_tokens-AllDifferent :
    (seen ts : List Text) → AllDifferent seen → AllDifferent (collect_tokens seen ts)
unfolding collect_tokens
collect_tokens-AllDifferent seen [] d = d
collect_tokens-AllDifferent seen (t ∷ ts) d = elim (Bool-cases (is_taken seen t)) [
  | inl e ↦ rw e (
      collect_tokens-AllDifferent (seen ++ t ∷ []) ts (AllDifferent-concat seen t d (ground arith)))
  | inr e ↦ rw e (collect_tokens-AllDifferent seen ts d)
]

-- What is seen stays.
collect_tokens-keeps :
    (u : Text) (seen ts : List Text) → Occurs u seen → Occurs u (collect_tokens seen ts)
unfolding collect_tokens
collect_tokens-keeps u seen [] h = h
collect_tokens-keeps u seen (t ∷ ts) h = elim (Bool-cases (is_taken seen t)) [
  | inl e ↦ rw e (collect_tokens-keeps u (seen ++ t ∷ []) ts (Occurs-append_left u seen _ h))
  | inr e ↦ rw e (collect_tokens-keeps u seen ts h)
]

seen_of_refused :
    (u : Text) (seen : List Text)
    → is_taken seen u ≡ false
    → 1 < length u
    → any (text_eq u) seen ≡ true
seen_of_refused u seen e long = ground (arith, lt→ltb 1 (length u))

collect_tokens_complete :
    (u : Text) (seen ts : List Text)
    → Occurs u ts
    → 1 < length u
    → Occurs u (collect_tokens seen ts)
unfolding collect_tokens
collect_tokens_complete u seen [] o long = elim o [ ]
collect_tokens_complete u seen (t ∷ ts) (inr o) long = elim (Bool-cases (is_taken seen t)) [
  | inl e ↦ rw e (collect_tokens_complete u (seen ++ t ∷ []) ts o long)
  | inr e ↦ rw e (collect_tokens_complete u seen ts o long)
]
collect_tokens_complete u seen (t ∷ ts) (inl same) long = elim (Bool-cases (is_taken seen t)) [
  | inl e ↦ rw e (collect_tokens-keeps u (seen ++ t ∷ []) ts (rw (← same) (Occurs-concat u seen)))
  | inr e ↦ rw e (
      collect_tokens-keeps u seen ts
        (Occurs-of_any u seen (seen_of_refused u seen (rw (← same) at e) long)))
]

Occurs-concat_cases :
    (u t : Text) (ts : List Text) → Occurs u (ts ++ t ∷ []) → Occurs u ts ⊎ (u ≡ t)
Occurs-concat_cases u t [] (inl e) = inr e
Occurs-concat_cases u t [] (inr h) = elim h [ ]
Occurs-concat_cases u t (x ∷ ts) (inl e) = inl (inl e)
Occurs-concat_cases u t (x ∷ ts) (inr h) = elim (Occurs-concat_cases u t ts h) [
  | inl o ↦ inl (inr o)
  | inr e ↦ inr e
]

long_of_taken : (t : Text) (seen : List Text) → is_taken seen t ≡ true → 1 < length t
long_of_taken t seen e = ground (arith, ltb→lt 1 (length t))

collect_tokens_sound :
    (u : Text) (seen ts : List Text)
    → Occurs u (collect_tokens seen ts)
    → Occurs u seen ⊎ (Occurs u ts × (1 < length u))
unfolding collect_tokens
collect_tokens_sound u seen [] o = inl o
collect_tokens_sound u seen (t ∷ ts) o = elim (Bool-cases (is_taken seen t)) [
  | inl e ↦ elim (collect_tokens_sound u (seen ++ t ∷ []) ts (rw e at o)) [
    | inr (later, long) ↦ inr (inr later, long)
    | inl before ↦ elim (Occurs-concat_cases u t seen before) [
      | inl old ↦ inl old
      | inr same ↦ inr (inl same, rw same (long_of_taken t seen e))
    ]
  ]
  | inr e ↦ elim (collect_tokens_sound u seen ts (rw e at o)) [
    | inl old ↦ inl old
    | inr (later, long) ↦ inr (inr later, long)
  ]
]

collect_tokens_iff :
    (u : Text) (words : List Text)
    → Occurs u (collect_tokens [] words) ↔ (Occurs u words × (1 < length u))
collect_tokens_iff u words = (
  (λ o. elim (collect_tokens_sound u [] words o) [ inl h ↦ elim h [ ] | inr h ↦ h ]),
  (λ h. collect_tokens_complete u [] words h.0 h.1),
)

-- Reading the query text back, bar by bar and each quoted token with its escapes undone, gives the
-- words of the tokenised query that are longer than one character, each of them once, and no other.
pub build_tsquery_lem :
    (query_tokens : Text)
    → (tokens : List Text) × (read_tsquery (build_tsquery query_tokens) ≡ some tokens)
      × AllDifferent tokens
      × ((t : Text) → Occurs t tokens ↔ (Occurs t (split_words query_tokens) × (1 < length t)))
build_tsquery_lem q = (
  collect_tokens [] (split_words q),
  read_tsquery-build_tsquery q,
  collect_tokens-AllDifferent [] (split_words q) tt,
  λ t. collect_tokens_iff t (split_words q),
)
