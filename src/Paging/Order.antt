-- ===== src/Paging/Order.antt =====
-- The order of the rows and what a cursor leaves of it.
use atlas_knowledge.Common.{
  ◌≡◌, refl, ap, inl, inr, Bool, true, false, List, [], ◌∷◌, ◌++◌, some, Bool-cases, arith, keep,
  All,
}
use atlas_knowledge.Paging.{Key, Codec, keyset_before, insert, order, after_cursor}

pub before_trans :
    (a b c : Key) → keyset_before a b ≡ true → keyset_before b c ≡ true → keyset_before a c ≡ true
unfolding keyset_before
before_trans a b c h k = ground arith

before_irrefl : (a : Key) → keyset_before a a ≡ false
unfolding keyset_before
before_irrefl a = ground arith

before_asym : (a b : Key) → keyset_before a b ≡ true → keyset_before b a ≡ false
unfolding keyset_before
before_asym a b h = ground arith

-- Two different keys stand in one order or the other.
before_total :
    (a b : Key) → (a.0 ≡ b.0 → a.1 ≡ b.1 → ⊥) → keyset_before a b ≡ false → keyset_before b a ≡ true
unfolding keyset_before
before_total a b n h = ground (arith, n)

module _ (codec : Codec) {A : Type 0} (key : A → Key) where
  abbrev pub Below : A → A → Type 0
  Below a b = keyset_before (key b) (key a) ≡ true

  abbrev pub Differs : A → A → Type 0
  Differs a b = (key a).0 ≡ (key b).0 → (key a).1 ≡ (key b).1 → ⊥

  -- Each row is above all later ones.
  abbrev pub Descending : List A → Type 0
  Descending [] = Unit
  Descending (a ∷ as') = All (Below a) as' × Descending as'

  -- The primary key: no two rows have the same key.
  abbrev pub Distinct : List A → Type 0
  Distinct [] = Unit
  Distinct (a ∷ as') = All (Differs a) as' × Distinct as'

  module _ {κ} (P : A → Type κ) where
    All-insert : (a : A) (bs : List A) → P a → All P bs → All P (insert codec key a bs)
    unfolding insert
    All-insert a [] p h = (p, tt)
    All-insert a (b ∷ bs) p h = elim (Bool-cases (keyset_before (key a) (key b))) [
      | inl e ↦ rw e (h.0, All-insert a bs p h.1)
      | inr e ↦ rw e (p, h)
    ]

    All-order : (as' : List A) → All P as' → All P (order codec key as')
    unfolding order
    All-order [] h = tt
    All-order (a ∷ as') h = All-insert a (order codec key as') h.0 (All-order as' h.1)

  Below-Below : (a b : A) (bs : List A) → Below a b → All (Below b) bs → All (Below a) bs
  Below-Below a b [] h k = tt
  Below-Below a b (c ∷ cs) h k =
      (before_trans (key c) (key b) (key a) k.0 h, Below-Below a b cs h k.1)

  insert-Descending :
      (a : A) (bs : List A)
      → All (Differs a) bs
      → Descending bs
      → Descending (insert codec key a bs)
  unfolding insert
  insert-Descending a [] n h = (tt, tt)
  insert-Descending a (b ∷ bs) n h = elim (Bool-cases (keyset_before (key a) (key b))) [
    | inl e ↦ rw e (All-insert (Below b) a bs e h.0, insert-Descending a bs n.1 h.1)
    | inr e ↦
        let below = before_total (key a) (key b) n.0 e in
        rw e ((below, Below-Below a b bs below h.0), h)
  ]

  pub order-Descending : (as' : List A) → Distinct as' → Descending (order codec key as')
  unfolding order
  order-Descending [] h = tt
  order-Descending (a ∷ as') h =
      insert-Descending a (order codec key as') (All-order (Differs a) as' h.0)
        (order-Descending as' h.1)

  keep_passing : (p : A → Bool) (bs : List A) → All (λ b. p b ≡ true) bs → keep p bs ≡ bs
  keep_passing p [] h = refl
  keep_passing p (b ∷ bs) h = rw h.0 (ap (λ r. b ∷ r) (keep_passing p bs h.1))

  -- In descending rows the rows after a cursor are those that stand after its row.
  pub keep-after :
      (front : List A) (a : A) (back : List A)
      → Descending (front ++ a ∷ back)
      → keep (after_cursor codec key (some (key a))) (front ++ a ∷ back) ≡ back
  keep-after [] a back h = rw (before_irrefl (key a)) (keep_passing _ back h.0)
  keep-after (b ∷ front) a back h =
      rw (before_asym (key a) (key b) (below_later front h.0)) (keep-after front a back h.1)
    where
      below_later : (fs : List A) → All (Below b) (fs ++ a ∷ back) → Below b a
      below_later [] k = k.0
      below_later (f ∷ fs) k = below_later fs k.1
