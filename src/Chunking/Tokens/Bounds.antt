-- ===== src/Chunking/Tokens/Bounds.antt =====
-- What the estimate of a text says about the estimates of its parts.
use mathlib.Core.List.{reverse, reverse-cons}
use atlas_knowledge.Common.{
  ℕ, ◌+◌, ◌*◌, ◌≤◌, ◌≡◌, refl, [], ◌∷◌, ◌++◌, arith, Bool-cases, inl, inr, length, length-append,
  Text, strip, strip_by, strip_left, is_space, Bool,
}
use atlas_knowledge.Chunking.Tokens.{is_cjk, count_cjk, estimate_tokens}

pub count_cjk-le : (s : Text) → count_cjk s ≤ length s
unfolding count_cjk
count_cjk-le [] = omega arith
count_cjk-le (c ∷ s) = elim (Bool-cases (is_cjk c)) [
  | inl e ↦ rw e (omega (arith, count_cjk-le s))
  | inr e ↦ rw e (omega (arith, count_cjk-le s))
]

pub count_cjk-append : (s t : Text) → count_cjk (s ++ t) ≡ count_cjk s + count_cjk t
unfolding count_cjk
count_cjk-append [] t = omega arith
count_cjk-append (c ∷ s) t = omega (arith, count_cjk-append s t)

-- The estimate is at most the length, and at least a quarter of it.
pub estimate_tokens_bounds :
    (s : Text) → (length s ≤ 4 * estimate_tokens s) × (estimate_tokens s ≤ length s)
unfolding estimate_tokens
estimate_tokens_bounds s = omega (arith, count_cjk-le s)

-- The estimate of a text lies between the sum of its parts' estimates less one, and that sum; it
-- does not fall when text is added at either end.
pub estimate_tokens-append :
    (s t : Text)
    → (estimate_tokens (s ++ t) ≤ estimate_tokens s + estimate_tokens t)
      × (estimate_tokens s + estimate_tokens t ≤ estimate_tokens (s ++ t) + 1)
      × (estimate_tokens s ≤ estimate_tokens (s ++ t))
      × (estimate_tokens t ≤ estimate_tokens (s ++ t))
unfolding estimate_tokens
estimate_tokens-append s t =
    omega (arith, count_cjk-le s, count_cjk-le t, count_cjk-append s t, length-append {0} s t)

-- Reversing keeps the estimate.
count_cjk-reverse : (s : Text) → count_cjk (reverse s) ≡ count_cjk s
count_cjk-reverse [] = refl
count_cjk-reverse (c ∷ s) = rw (reverse-cons c s) (
    omega (
      arith,
      count_cjk-append (reverse s) (c ∷ []),
      count_cjk-append (c ∷ []) s,
      count_cjk-reverse s,
    ))

length-reverse : (s : Text) → length (reverse s) ≡ length s
length-reverse [] = refl
length-reverse (c ∷ s) =
    rw (reverse-cons c s) (omega (arith, length-append {0} (reverse s) (c ∷ []), length-reverse s))

estimate_tokens-reverse : (s : Text) → estimate_tokens (reverse s) ≡ estimate_tokens s
unfolding estimate_tokens
estimate_tokens-reverse s = rw (count_cjk-reverse s, length-reverse s)

estimate_tokens-strip_left :
    (p : ℕ → Bool) (s : Text) → estimate_tokens (strip_left p s) ≤ estimate_tokens s
unfolding strip_left
estimate_tokens-strip_left p [] = omega arith
estimate_tokens-strip_left p (c ∷ s) = elim (Bool-cases (p c)) [
  | inl e ↦
      rw e (omega (arith, estimate_tokens-strip_left p s, (estimate_tokens-append (c ∷ []) s).3))
  | inr e ↦ rw e (omega arith)
]

pub estimate_tokens-strip_by :
    (p : ℕ → Bool) (s : Text) → estimate_tokens (strip_by p s) ≤ estimate_tokens s
unfolding strip_by
estimate_tokens-strip_by p s =
    rw (estimate_tokens-reverse (strip_left p (reverse (strip_left p s)))) (
      omega (
        arith,
        estimate_tokens-strip_left p (reverse (strip_left p s)),
        estimate_tokens-reverse (strip_left p s),
        estimate_tokens-strip_left p s,
      ))

-- Stripping a text never raises its estimate.
pub estimate_tokens-strip : (s : Text) → estimate_tokens (strip s) ≤ estimate_tokens s
unfolding strip
estimate_tokens-strip s = estimate_tokens-strip_by is_space s
