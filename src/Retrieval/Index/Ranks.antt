-- ===== src/Retrieval/Index/Ranks.antt =====
-- The score of a fused row, by the ranks of its chunk in the two legs.
use mathlib.Core.Path.{subst}
use atlas_knowledge.Common.{
  ◌≡◌, refl, sym, ap, ◌∙◌, inl, inr, ℕ, zero, suc, ◌+◌, ◌*◌, ◌<◌, true, false, List, [], ◌∷◌,
  Option, none, some, Bool-cases, Option-cases, ==_iff, ==_refl, ◌==◌, if◌then◌else◌, is_empty, map,
  Text, arith, All, All-append, Occurs,
}
use atlas_knowledge.Common.Filtering.{All-of_Occurs, All-at}
use atlas_knowledge.Ingestion.World.{DocumentChunk, World}
use atlas_knowledge.Retrieval.Index.{
  Fraction, Joined, Engine, IndexSettings, row_numbers, rank_in, join_left, join_right, full_join,
  reciprocal, add, rrf_score, scored, vec_leg, fts_leg, fused,
}
use atlas_knowledge.Retrieval.Index.Scope.{BringsNothing}

-- The chunk stands in the leg under this rank, or does not stand there.
abbrev pub HasRank : ℕ → List (ℕ × ℕ) → Option ℕ → Type 0
HasRank i leg none = (r : ℕ) → ¬ Occurs (i, r) leg
HasRank i leg (some r) = Occurs (i, r) leg

-- A fraction is the sum of the reciprocals of k and each of the ranks.
abbrev pub IsSum : ℕ → Option ℕ → Option ℕ → Fraction → Type 0
IsSum k none none (a, b) = a ≡ 0
IsSum k (some v) none (a, b) = a * (k + v) ≡ b
IsSum k none (some f) (a, b) = a * (k + f) ≡ b
IsSum k (some v) (some f) (a, b) = a * ((k + v) * (k + f)) ≡ ((k + v) + (k + f)) * b

-- What a row of the fusion says of its chunk.
abbrev pub Weighs : ℕ → List (ℕ × ℕ) → List (ℕ × ℕ) → ℕ × Fraction → Type 0
Weighs k vec fts row =
    (v : Option ℕ) × (f : Option ℕ) × HasRank row.0 vec v
    × HasRank row.0 fts f
    × IsSum k v f row.1
    × (0 < row.1.1)

-- The full-text leg, which is left out without a text query.
abbrev pub text_leg : Engine → World → ℕ → List ℕ → ℕ → Text → List (ℕ × ℕ)
text_leg e w user_id filter_ids top_k tsquery =
    if is_empty tsquery then [] else fts_leg e w user_id filter_ids top_k tsquery

absent :
    (i j n : ℕ) (leg : List (ℕ × ℕ))
    → HasRank i leg none
    → (j == i) ≡ false
    → (r : ℕ) → ¬ Occurs (i, r) ((j, n) ∷ leg)
absent i j n leg h e r (inl same) =
    let equal : i ≡ j = ap (λ (x : ℕ × ℕ). x.0) same in
    let yes : (j == i) ≡ true = rw equal (==_refl j) in
    let bad : false ≡ true = sym e ∙ yes in cc bad
absent i j n leg h e r (inr o) = h r o

rank_in-HasRank : (i : ℕ) (leg : List (ℕ × ℕ)) → HasRank i leg (rank_in i leg)
rank_in-HasRank i [] = λ r o. elim o [ ]
rank_in-HasRank i ((j, n) ∷ leg) = elim (Bool-cases (j == i)) [
  | inl e ↦ let same : i ≡ j = sym ((==_iff j i).0 e) in rw e (inl cc)
  | inr e ↦ elim (Option-cases (rank_in i leg)) [
    | inl m ↦
        let none_there : HasRank i leg none = subst (HasRank i leg) m (rank_in-HasRank i leg) in
        rw (e, m) (λ r o. absent i j n leg none_there e r o)
    | inr (n', m) ↦ rw (e, m) (inr (subst (HasRank i leg) m (rank_in-HasRank i leg)))
  ]
]

-- A row of the join has the ranks of its chunk.
abbrev pub Ranked : List (ℕ × ℕ) → List (ℕ × ℕ) → Joined → Type 0
Ranked vec fts row = HasRank row.id vec row.vec_rank × HasRank row.id fts row.fts_rank

join_left-Ranked :
    (all vec fts : List (ℕ × ℕ))
    → ((x : ℕ × ℕ) → Occurs x vec → Occurs x all)
    → All (Ranked all fts) (join_left vec fts)
unfolding join_left
join_left-Ranked all [] fts h = tt
join_left-Ranked all ((i, r) ∷ vec) fts h = (
  (h (i, r) (inl refl), rank_in-HasRank i fts),
  join_left-Ranked all vec fts (λ x o. h x (inr o)),
)

join_right-Ranked :
    (vec all fts : List (ℕ × ℕ))
    → ((x : ℕ × ℕ) → Occurs x fts → Occurs x all)
    → All (Ranked vec all) (join_right vec fts)
unfolding join_right
join_right-Ranked vec all [] h = tt
join_right-Ranked vec all ((i, r) ∷ fts) h = elim (Option-cases (rank_in i vec)) [
  | inl m ↦
      simp (join_right, m)
        (
          (subst (HasRank i vec) m (rank_in-HasRank i vec), h (i, r) (inl refl)),
          join_right-Ranked vec all fts (λ x o. h x (inr o)),
        )
  | inr (r', m) ↦ simp (join_right, m) (join_right-Ranked vec all fts (λ x o. h x (inr o)))
]

full_join-Ranked : (vec fts : List (ℕ × ℕ)) → All (Ranked vec fts) (full_join vec fts)
full_join-Ranked vec fts =
    All-append _ (join_left vec fts) (join_right vec fts) (join_left-Ranked vec vec fts (λ x o. o))
      (join_right-Ranked vec fts fts (λ x o. o))

-- Ranks are counted from 1.
abbrev IsCounted : List (ℕ × ℕ) → Type 0
IsCounted = All (λ row. 0 < row.1)

row_numbers-IsCounted : (n : ℕ) (cs : List DocumentChunk) → 0 < n → IsCounted (row_numbers n cs)
row_numbers-IsCounted n [] h = tt
row_numbers-IsCounted n (c ∷ cs) h = (h, row_numbers-IsCounted (suc n) cs (omega arith))

mul_pos : (a b : ℕ) → 0 < a → 0 < b → 0 < a * b
mul_pos zero b h k = omega arith
mul_pos (suc a) zero h k = omega arith
mul_pos (suc a) (suc b) h k = omega arith

denominator_pos :
    (k i : ℕ) (leg : List (ℕ × ℕ)) (rank : Option ℕ)
    → IsCounted leg
    → HasRank i leg rank
    → 0 < (reciprocal k rank).1
denominator_pos k i leg none c h = omega arith
denominator_pos k i leg (some r) c h =
    let positive : 0 < r = All-at (λ row. 0 < row.1) (i, r) leg c h in omega arith

rrf_score-IsSum : (k : ℕ) (row : Joined) → IsSum k row.vec_rank row.fts_rank (rrf_score k row)
rrf_score-IsSum k row = sum row.vec_rank row.fts_rank
  where
    sum : (v f : Option ℕ) → IsSum k v f (add (reciprocal k v) (reciprocal k f))
    sum none none = refl
    sum (some v) none = let one : 1 + 0 * (k + v) ≡ 1 = omega arith in rw one (omega arith)
    sum none (some f) = let one : 0 * (k + f) + 1 ≡ 1 = omega arith in rw one refl
    sum (some v) (some f) =
        let both : 1 * (k + f) + 1 * (k + v) ≡ (k + v) + (k + f) = omega arith in
        ap (λ a. a * ((k + v) * (k + f))) both

scored-Weighs :
    (k : ℕ) (vec fts : List (ℕ × ℕ)) (rows : List Joined)
    → IsCounted vec
    → IsCounted fts
    → All (Ranked vec fts) rows
    → All (Weighs k vec fts) (map (scored (rrf_score k)) rows)
scored-Weighs k vec fts [] p q h = tt
scored-Weighs k vec fts (row ∷ rows) p q h = (
  (
    row.vec_rank,
    row.fts_rank,
    h.0.0,
    h.0.1,
    rrf_score-IsSum k row,
    mul_pos (reciprocal k row.vec_rank).1 (reciprocal k row.fts_rank).1
        (denominator_pos k row.id vec row.vec_rank p h.0.0)
        (denominator_pos k row.id fts row.fts_rank q h.0.1),
  ),
  scored-Weighs k vec fts rows p q h.1,
)

module _ (e : Engine) (b : BringsNothing e) (w : World) (user_id : ℕ) (filter_ids : List ℕ) where
  fused-full_join :
      (s : IndexSettings) (qvec : List ℕ) (tsquery : Text)
      → fused e w user_id filter_ids s qvec tsquery
        ≡ full_join
            (vec_leg e w user_id filter_ids s.top_k qvec)
            (text_leg e w user_id filter_ids s.top_k tsquery)
  unfolding fused
  fused-full_join s qvec tsquery = elim (Bool-cases (is_empty tsquery)) [
    | inl m ↦ rw (fused, m) refl
    | inr m ↦ rw (fused, m) refl
  ]

  vec_leg-IsCounted : (n : ℕ) (qvec : List ℕ) → IsCounted (vec_leg e w user_id filter_ids n qvec)
  unfolding vec_leg
  vec_leg-IsCounted n qvec = row_numbers-IsCounted 1 _ (omega arith)

  text_leg-IsCounted :
      (n : ℕ) (tsquery : Text) → IsCounted (text_leg e w user_id filter_ids n tsquery)
  unfolding fts_leg
  text_leg-IsCounted n tsquery = elim (Bool-cases (is_empty tsquery)) [
    | inl m ↦ rw m tt
    | inr m ↦ rw m (row_numbers-IsCounted 1 _ (omega arith))
  ]

  pub fused-Weighs :
      (s : IndexSettings) (qvec : List ℕ) (tsquery : Text)
      → All
          (Weighs s.rrf_k
            (vec_leg e w user_id filter_ids s.top_k qvec)
            (text_leg e w user_id filter_ids s.top_k tsquery))
          (map (scored (rrf_score s.rrf_k)) (e.scan (fused e w user_id filter_ids s qvec tsquery)))
  fused-Weighs s qvec tsquery =
      let vec = vec_leg e w user_id filter_ids s.top_k qvec in
      let fts = text_leg e w user_id filter_ids s.top_k tsquery in
      let rows = fused e w user_id filter_ids s qvec tsquery in
      let ranked : All (Ranked vec fts) rows =
        rw (fused-full_join s qvec tsquery) (full_join-Ranked vec fts) in
      scored-Weighs s.rrf_k vec fts (e.scan rows) (vec_leg-IsCounted s.top_k qvec)
        (text_leg-IsCounted s.top_k tsquery)
        (All-of_Occurs (Ranked vec fts) (e.scan rows)
          (λ row o. All-at (Ranked vec fts) row rows ranked (b.scan_from rows row o)))
