-- ===== src/Paging/Walk.antt =====
-- Following the cursors from the first page on.
use mathlib.Core.Path.{subst}
use atlas_knowledge.Common.{
  ℕ, zero, suc, ◌≤◌, ◌<◌, ◌≡◌, refl, sym, ap, ◌∙◌, ◌⊎◌, inl, inr, List, [], ◌∷◌, ◌++◌, append_assoc,
  Option, none, some, ltb, Bool-cases, arith, length, length-take, length-drop, take-append-drop,
  take, drop, keep, Text, ok, err, ltb→lt, ltb-false→le,
}
use atlas_knowledge.Paging.{
  Key, Codec, order, after_cursor, list_page, last, next_cursor, paginate, keyset_of, list_rows,
  decode_cursor,
}
use atlas_knowledge.Paging.Order.{Distinct, Descending, order-Descending, keep-after}

module _ {A : Type 0} where
  take-take : (n : ℕ) (xs : List A) → take n (take (suc n) xs) ≡ take n xs
  take-take zero xs = refl
  take-take (suc n) [] = refl
  take-take (suc n) (x ∷ xs) = ap (λ r. x ∷ r) (take-take n xs)

  take-all : (n : ℕ) (xs : List A) → length xs ≤ n → take n xs ≡ xs
  take-all zero [] h = refl
  take-all zero (x ∷ xs) h = let bad : ⊥ = omega (arith, h) in elim bad [ ]
  take-all (suc n) [] h = refl
  take-all (suc n) (x ∷ xs) h = ap (λ r. x ∷ r) (take-all n xs (omega (arith, h)))

  -- A page that is full, by its last row.
  record Cut (n : ℕ) (xs : List A) : Type 0 where
    front : List A
    row : A
    page : take (suc n) xs ≡ front ++ row ∷ []
    whole : xs ≡ front ++ row ∷ drop (suc n) xs

  cut : (n : ℕ) (xs : List A) → n < length xs → Cut n xs
  cut n [] h = let bad : ⊥ = omega (arith, h) in elim bad [ ]
  cut zero (x ∷ xs) h = record { front = []; row = x; page = refl; whole = refl }
  cut (suc n) (x ∷ xs) h =
      let c = cut n xs (omega (arith, h)) in
      record {
        front = x ∷ c.front;
        row = c.row;
        page = ap (λ r. x ∷ r) c.page;
        whole = ap (λ r. x ∷ r) c.whole;
      }

module _ (codec : Codec) {A : Type 0} (key : A → Key) where
  last-append : (front : List A) (a : A) → last codec key (front ++ a ∷ []) ≡ some a
  last-append [] a = refl
  last-append (b ∷ []) a = refl
  last-append (b ∷ c ∷ front) a = last-append (c ∷ front) a

  -- The client's loop: a page, and all pages behind its cursor. `none` if the fuel runs out or a
  -- cursor is refused.
  unfoldable pub walk : List A → ℕ → ℕ → Option Text → Option (List A)
  walk rows limit zero cursor = none
  walk rows limit (suc fuel) cursor = elim (list_rows codec key rows limit cursor) [
    | err e ↦ none
    | ok (items, none) ↦ some items
    | ok (items, some more) ↦ elim (walk rows limit fuel (some more)) [
      | none ↦ none
      | some rest ↦ some (items ++ rest)
    ]
  ]

  -- One page of the rows that a cursor leaves: the last one, or a full one and the cursor behind it.
  page_of :
      (n : ℕ) (back : List A)
      → (length back ≤ suc n)
          × (paginate codec key (take (suc (suc n)) back) (suc n) ≡ (back, none))
        ⊎ ((c : Cut n back) × (suc n < length back)
            × (paginate codec key (take (suc (suc n)) back) (suc n)
                ≡ (take (suc n) back, some (codec.encode (key c.row)))))
  unfolding paginate next_cursor
  page_of n back = elim (Bool-cases (ltb (suc n) (length (take (suc (suc n)) back)))) [
    | inr e ↦
        let short : length back ≤ suc n =
          omega (arith, ltb-false→le _ _ e, length-take (suc (suc n)) back) in
        inl
          (short, rw e (ap (λ r. (r, none)) (take-take (suc n) back ∙ take-all (suc n) back short)))
    | inl e ↦
        let long : suc n < length back =
          omega (arith, ltb→lt _ _ e, length-take (suc (suc n)) back) in
        let c = cut n back (omega (arith, long)) in
        inr (c, long, rw (e, take-take (suc n) back, c.page, last-append c.front c.row) refl)
  ]

  module _ (rows : List A) (round_trip : (k : Key) → codec.decode (codec.encode k) ≡ some k)
      (distinct : Distinct codec key rows) where
    -- A cursor that leaves these rows of the order.
    abbrev Leaves : Option Text → List A → List A → Type 0
    Leaves cursor front back =
        (keyset : Option Key) × (keyset_of codec key cursor ≡ ok keyset)
        × (keep (after_cursor codec key keyset) (order codec key rows) ≡ back)
        × (order codec key rows ≡ front ++ back)

    Leaves-next :
        (n : ℕ) (front back : List A) (c : Cut n back)
        → order codec key rows ≡ front ++ back
        → Leaves (some (codec.encode (key c.row))) (front ++ take (suc n) back) (drop (suc n) back)
    unfolding decode_cursor
    Leaves-next n front back c e =
        let whole : order codec key rows ≡ (front ++ c.front) ++ c.row ∷ drop (suc n) back =
          e
          ∙ ap (λ r. front ++ r) c.whole
          ∙ sym (append_assoc front c.front (c.row ∷ drop (suc n) back)) in
        (
          some (key c.row),
          rw (keyset_of, decode_cursor, round_trip (key c.row)) refl,
          ap (keep (after_cursor codec key (some (key c.row)))) whole
              ∙ keep-after codec key (front ++ c.front) c.row (drop (suc n) back)
                  (subst (Descending codec key) whole (order-Descending codec key rows distinct)),
          e
              ∙ ap (λ r. front ++ r) (sym (take-append-drop (suc n) back))
              ∙ sym (append_assoc front (take (suc n) back) (drop (suc n) back)),
        )

    listed :
        (n : ℕ) (cursor : Option Text) (front back : List A)
        → Leaves cursor front back
        → list_rows codec key rows (suc n) cursor
          ≡ ok (paginate codec key (take (suc (suc n)) back) (suc n))
    unfolding list_rows list_page
    listed n cursor front back (keyset, decoded, left, split) =
        rw (list_rows, decoded)
          (ap (λ r. ok (paginate codec key (take (suc (suc n)) r) (suc n))) left)

    walk_from :
        (n fuel : ℕ) (cursor : Option Text) (front back : List A)
        → Leaves cursor front back
        → length back < fuel
        → walk rows (suc n) fuel cursor ≡ some back
    unfolding walk
    walk_from n zero cursor front back l h = let bad : ⊥ = omega (arith, h) in elim bad [ ]
    walk_from n (suc fuel) cursor front back l h = elim (page_of n back) [
      | inl (short, page) ↦ rw (walk, listed n cursor front back l ∙ ap ok page) refl
      | inr (c, long, page) ↦
          let rest : walk rows (suc n) fuel (some (codec.encode (key c.row)))
              ≡ some (drop (suc n) back) =
            walk_from n fuel (some (codec.encode (key c.row))) (front ++ take (suc n) back)
              (drop (suc n) back) (Leaves-next n front back c l.3)
              (omega (arith, length-drop (suc n) back, h, long)) in
          rw (walk, listed n cursor front back l ∙ ap ok page, rest)
            (ap some (take-append-drop (suc n) back))
    ]

    keep-true : (xs : List A) → keep (after_cursor codec key none) xs ≡ xs
    keep-true [] = refl
    keep-true (x ∷ xs) = ap (λ r. x ∷ r) (keep-true xs)

    -- A client that follows the cursors from the first page on, with a page size above 0, gets
    -- every row exactly once and in order, in at most one page more than there are rows, if the
    -- keys are distinct and a cursor decodes to the key that it was made of.
    pub walk-order :
        (n : ℕ)
        → walk rows (suc n) (suc (length (order codec key rows))) none ≡ some (order codec key rows)
    walk-order n =
        walk_from n (suc (length (order codec key rows))) none [] (order codec key rows)
          (none, refl, keep-true (order codec key rows), refl) (omega arith)
