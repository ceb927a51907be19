-- ===== src/Chunking/Split/Laws.antt =====
-- The cut lies inside the text, the fuel is enough, nothing is lost, and every part fits.
use atlas_knowledge.Common.{
  ℕ, zero, suc, ◌+◌, ◌/◌, ◌≤◌, ◌<◌, ◌≡◌, refl, Bool, true, false, List, [], ◌∷◌, ◌++◌, arith, ltb,
  ◌==◌, if◌then◌else◌, Bool-cases, ◌⊎◌, inl, inr, length, take, drop, length-take, length-drop,
  take-append-drop, All, All-append, Text, concat, concat-append, append-nil,
}
use atlas_knowledge.Chunking.Tokens.{estimate_tokens}
use atlas_knowledge.Chunking.Split.{
  candidates, distance, nearest, cut_among, cut_point, ends_sentence, fits, split_fuel,
  split_to_limit,
}

abbrev Inside : ℕ → ℕ → Type 0
Inside n p = (0 < p) × (p < n)

candidates-Inside :
    (dot : Bool) (pos n : ℕ) (s : Text) → pos + length s ≤ n → All (Inside n) (candidates dot pos s)
unfolding candidates
candidates-Inside dot pos n [] h = tt
candidates-Inside dot pos n (c ∷ []) h = tt
candidates-Inside dot pos n (c ∷ d ∷ s) h = elim (Bool-cases (ends_sentence dot c)) [
  | inl e ↦
      rw e (
        (omega arith, omega arith),
        candidates-Inside (c == b'.') (pos + 1) n (d ∷ s) (omega arith),
      )
  | inr e ↦ rw e (candidates-Inside (c == b'.') (pos + 1) n (d ∷ s) (omega arith))
]

closer-Inside :
    (middle n best p : ℕ)
    → Inside n best
    → Inside n p
    → Inside n (if ltb (distance p middle) (distance best middle) then p else best)
closer-Inside middle n best p h k =
    elim (Bool-cases (ltb (distance p middle) (distance best middle))) [
      | inl e ↦ rw e k
      | inr e ↦ rw e h
    ]

nearest-Inside :
    (middle n best : ℕ) (ps : List ℕ)
    → Inside n best
    → All (Inside n) ps
    → Inside n (nearest middle best ps)
unfolding nearest
nearest-Inside middle n best [] h k = h
nearest-Inside middle n best (p ∷ ps) h k =
    nearest-Inside middle n (if ltb (distance p middle) (distance best middle) then p else best) ps
      (closer-Inside middle n best p h k.0) k.1

cut_among-Inside :
    (n : ℕ) (ps : List ℕ) → 1 < n → All (Inside n) ps → Inside n (cut_among (n / 2) ps)
cut_among-Inside n [] h k = omega arith
cut_among-Inside n (p ∷ ps) h k = nearest-Inside (n / 2) n p ps k.0 k.1

-- The cut lies strictly inside a text of two characters or more.
pub cut_point-Inside :
    (text : Text) → 1 < length text → (0 < cut_point text) × (cut_point text < length text)
unfolding cut_point
cut_point-Inside text h =
    cut_among-Inside (length text) (candidates false 0 text) h
      (candidates-Inside false 0 (length text) text (omega arith))

length_of_not_fits : (target : ℕ) (text : Text) → fits target text ≡ false → 1 < length text
unfolding fits
length_of_not_fits target text h = ground arith

module _ (target : ℕ) where
  -- With two supplies of fuel that both reach the length the results agree.
  split_fuel_enough :
      (f g : ℕ) (text : Text)
      → length text ≤ f
      → length text ≤ g
      → split_fuel target f text ≡ split_fuel target g text
  unfolding split_fuel fits
  split_fuel_enough zero zero text h k = refl
  split_fuel_enough zero (suc g) [] h k = ground arith
  split_fuel_enough zero (suc g) (c ∷ s) h k = absurd (omega arith)
  split_fuel_enough (suc f) zero [] h k = ground arith
  split_fuel_enough (suc f) zero (c ∷ s) h k = absurd (omega arith)
  split_fuel_enough (suc f) (suc g) text h k = elim (Bool-cases (fits target text)) [
    | inl e ↦ rw e
    | inr e ↦
        let long = length_of_not_fits target text e in
        let (pos, less) = cut_point-Inside text long in
        let n = cut_point text in
        rw (
          e,
          split_fuel_enough f g (take n text) (omega (arith, length-take n text))
              (omega (arith, length-take n text)),
          split_fuel_enough f g (drop n text) (omega (arith, length-drop n text))
              (omega (arith, length-drop n text)),
        )
  ]

  split_fuel_step :
      (f : ℕ) (text : Text)
      → length text ≤ f
      → split_fuel target f text ≡ (
          if fits target text
          then text ∷ []
          else split_fuel target (length (take (cut_point text) text)) (take (cut_point text) text)
            ++ split_fuel target (length (drop (cut_point text) text)) (drop (cut_point text) text))
  unfolding split_fuel fits
  split_fuel_step zero [] h = ground arith
  split_fuel_step zero (c ∷ s) h = absurd (omega arith)
  split_fuel_step (suc f) text h = elim (Bool-cases (fits target text)) [
    | inl e ↦ rw e
    | inr e ↦
        let (pos, less) = cut_point-Inside text (length_of_not_fits target text e) in
        let n = cut_point text in
        rw (
          e,
          split_fuel_enough f (length (take n text)) (take n text)
              (omega (arith, length-take n text)) (omega arith),
          split_fuel_enough f (length (drop n text)) (drop n text)
              (omega (arith, length-drop n text)) (omega arith),
        )
  ]

  split_fuel-concat : (f : ℕ) (text : Text) → concat (split_fuel target f text) ≡ text
  unfolding split_fuel
  split_fuel-concat zero text = append-nil text
  split_fuel-concat (suc f) text = elim (Bool-cases (fits target text)) [
    | inl e ↦ rw e (append-nil text)
    | inr e ↦
        let n = cut_point text in
        rw
          (
            e,
            concat-append (split_fuel target f (take n text)) (split_fuel target f (drop n text)),
            split_fuel-concat f (take n text),
            split_fuel-concat f (drop n text),
          )
          (take-append-drop n text)
  ]

  -- A part that needs no further cut: within the limit, or one character at most.
  abbrev pub Fits : Text → Type 0
  Fits part = (estimate_tokens part ≤ target) ⊎ (length part ≤ 1)

  Fits-of_fits : (text : Text) → fits target text ≡ true → Fits text
  unfolding fits
  Fits-of_fits text h = ground arith

  split_fuel-Fits : (f : ℕ) (text : Text) → length text ≤ f → All Fits (split_fuel target f text)
  unfolding split_fuel
  split_fuel-Fits zero [] h = (inr (omega arith), tt)
  split_fuel-Fits zero (c ∷ s) h = absurd (omega arith)
  split_fuel-Fits (suc f) text h = elim (Bool-cases (fits target text)) [
    | inl e ↦ rw e (Fits-of_fits text e, tt)
    | inr e ↦
        let (pos, less) = cut_point-Inside text (length_of_not_fits target text e) in
        let n = cut_point text in
        rw e (
          All-append Fits (split_fuel target f (take n text)) (split_fuel target f (drop n text))
            (split_fuel-Fits f (take n text) (omega (arith, length-take n text)))
            (split_fuel-Fits f (drop n text) (omega (arith, length-drop n text))))
  ]

-- `split_to_limit` satisfies the recursive equation of the source: a text that fits, or of one
-- character at most, is one part; any other is cut at its cut point and both halves are split in
-- the same way. So the fuel of the definition is always enough.
pub split_to_limit_lem :
    (text : Text) (target : ℕ)
    → split_to_limit text target ≡ (
        if fits target text
        then text ∷ []
        else split_to_limit (take (cut_point text) text) target
          ++ split_to_limit (drop (cut_point text) text) target)
unfolding split_to_limit
split_to_limit_lem text target = split_fuel_step target (length text) text (omega arith)

-- The parts in order make the text again, and every part is within the token limit or has one
-- character at most.
pub split_to_limit_lossless :
    (text : Text) (target : ℕ)
    → (concat (split_to_limit text target) ≡ text)
      × All
          (λ part. (estimate_tokens part ≤ target) ⊎ (length part ≤ 1))
          (split_to_limit text target)
unfolding split_to_limit
split_to_limit_lossless text target = (
  split_fuel-concat target (length text) text,
  split_fuel-Fits target (length text) text (omega arith),
)
