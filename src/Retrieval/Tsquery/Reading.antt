-- ===== src/Retrieval/Tsquery/Reading.antt =====
-- The query text read back: quoted tokens with backslash escapes, between bars.
use atlas_knowledge.Common.{
  ℕ, ◌≡◌, refl, ap, ◌∙◌, sym, true, false, List, [], ◌∷◌, ◌++◌, append_assoc, append-nil, inl, inr,
  Option, none, some, ◌&&◌, if◌then◌else◌, ◌==◌, Bool-cases, map, Text, codes, join, replace_char,
  arith,
}
use atlas_knowledge.Retrieval.Tsquery.{collect_tokens, escape, quote, build_tsquery, split_words}

-- What is read behind a token: the rest of the tokens, or nothing.
abbrev add_first : Text → Option (List Text) → Option (List Text)
add_first t none = none
add_first t (some ts) = some (t ∷ ts)

-- Where the reader stands: before a token, inside one with the text so far, behind a backslash,
-- and behind a token.
data Mode : Type 0 where
  outside : Mode
  inside : Text → Mode
  escaped : Text → Mode
  behind : Mode

-- `" | "` stands between two tokens.
read : Mode → Text → Option (List Text)
read outside [] = none
read outside (c ∷ s) = if c == b'"' then read (inside []) s else none
read (inside t) [] = none
read (inside t) (c ∷ s) = elim (c == b'"') [
  | true ↦ add_first t (read behind s)
  | false ↦ elim (c == b'\\') [ true ↦ read (escaped t) s | false ↦ read (inside (t ++ c ∷ [])) s ]
]
read (escaped t) [] = none
read (escaped t) (c ∷ s) = read (inside (t ++ c ∷ [])) s
read behind [] = some []
read behind (a ∷ []) = none
read behind (a ∷ b ∷ []) = none
read behind (a ∷ b ∷ c ∷ s) = if a == b' ' && b == b'|' && c == b' ' then read outside s else none

-- The tokens of a query text; the empty text has none.
pub read_tsquery : Text → Option (List Text)
unfolding read
read_tsquery [] = some []
read_tsquery (c ∷ s) = read outside (c ∷ s)

-- What one character becomes.
abbrev escaped_char : ℕ → Text
escaped_char c = if c == b'\\' then codes "\\\\" else if c == b'"' then codes "\\\"" else c ∷ []

escape-cons : (c : ℕ) (u : Text) → escape (c ∷ u) ≡ escaped_char c ++ escape u
unfolding escape replace_char
escape-cons c u = elim (Bool-cases (c == b'\\')) [
  | inl e ↦ rw e refl
  | inr e ↦ elim (Bool-cases (c == b'"')) [ inl f ↦ rw (e, f) refl | inr f ↦ rw (e, f) refl ]
]

plain_char : (c : ℕ) → (c == b'\\') ≡ false → (c == b'"') ≡ false → escaped_char c ≡ c ∷ []
plain_char c e f = rw (e, f) refl

read_plain :
    (t : Text) (c : ℕ) (s : Text)
    → (c == b'\\') ≡ false
    → (c == b'"') ≡ false
    → read (inside t) (c ∷ s) ≡ read (inside (t ++ c ∷ [])) s
unfolding read
read_plain t c s e f = simp (read, e, f) refl

read-escaped_char :
    (t : Text) (c : ℕ) (s : Text)
    → read (inside t) (escaped_char c ++ s) ≡ read (inside (t ++ c ∷ [])) s
unfolding read
read-escaped_char t c s = elim (Bool-cases (c == b'\\')) [
  | inl e ↦ let same : c ≡ b'\\' = ground arith in rw same refl
  | inr e ↦ elim (Bool-cases (c == b'"')) [
    | inl f ↦ let same : c ≡ b'"' = ground arith in rw same refl
    | inr f ↦ ap (λ u. read (inside t) (u ++ s)) (plain_char c e f) ∙ read_plain t c s e f
  ]
]

closes :
    (t rest : Text) → read (inside t) (escape [] ++ b'"' ∷ rest) ≡ add_first t (read behind rest)
unfolding read escape replace_char
closes t rest = refl

-- The escaped text of a token, and the quote behind it.
read-escape :
    (t u rest : Text)
    → read (inside t) (escape u ++ b'"' ∷ rest) ≡ add_first (t ++ u) (read behind rest)
read-escape t [] rest =
    closes t rest ∙ ap (λ w. add_first w (read behind rest)) (sym (append-nil t))
read-escape t (c ∷ u) rest =
    ap (λ s. read (inside t) (s ++ b'"' ∷ rest)) (escape-cons c u)
    ∙ (ap (read (inside t)) (append_assoc (escaped_char c) (escape u) (b'"' ∷ rest))
        ∙ (read-escaped_char t c (escape u ++ b'"' ∷ rest)
            ∙ (read-escape (t ++ c ∷ []) u rest
                ∙ ap (λ w. add_first w (read behind rest)) (append_assoc t (c ∷ []) u))))

read-quote : (t rest : Text) → read outside (quote t ++ rest) ≡ add_first t (read behind rest)
unfolding read quote
read-quote t rest =
    ap (read (inside [])) (append_assoc (escape t) (b'"' ∷ []) rest) ∙ read-escape [] t rest

behind_bar : (s : Text) → read behind (codes " | " ++ s) ≡ read outside s
unfolding read
behind_bar s = refl

nothing_left : (t : Text) → add_first t (read behind []) ≡ some (t ∷ [])
unfolding read
nothing_left t = refl

read-join :
    (t : Text) (ts : List Text)
    → read outside (join (codes " | ") (map quote (t ∷ ts))) ≡ some (t ∷ ts)
unfolding join
read-join t [] = ap (read outside) (sym (append-nil (quote t))) ∙ last_token
  where
    last_token : read outside (quote t ++ []) ≡ some (t ∷ [])
    last_token = read-quote t [] ∙ nothing_left t
read-join t (u ∷ ts) =
    read-quote t (codes " | " ++ join (codes " | ") (map quote (u ∷ ts)))
    ∙ (ap (add_first t) (behind_bar (join (codes " | ") (map quote (u ∷ ts))))
        ∙ ap (add_first t) (read-join u ts))

-- The text of at least one token starts with a quote.
read_tokens : (ts : List Text) → read_tsquery (join (codes " | ") (map quote ts)) ≡ some ts
unfolding read_tsquery join quote
read_tokens [] = refl
read_tokens (t ∷ []) = read-join t []
read_tokens (t ∷ u ∷ ts) = read-join t (u ∷ ts)

-- What is read back from the query text are the tokens that went into it.
pub read_tsquery-build_tsquery :
    (query_tokens : Text)
    → read_tsquery (build_tsquery query_tokens)
      ≡ some (collect_tokens [] (split_words query_tokens))
unfolding build_tsquery
read_tsquery-build_tsquery q = read_tokens (collect_tokens [] (split_words q))
