-- ===== src/Chat/Titles/Laws.antt =====
-- What a title may be, and that it replaces none.
use mathlib.Core.List.{reverse, reverse-cons}
use mathlib.Core.Path.{subst}
use atlas_knowledge.Common.{
  ℕ, zero, suc, ◌≤◌, ◌≡◌, refl, sym, ap, ◌⊎◌, inl, inr, Bool, true, false, ◌&&◌, List, [], ◌∷◌,
  Option, none, some, ◌==◌, ==_iff, if◌then◌else◌, Bool-cases, Option-cases, arith, find_first, map,
  is_empty, length, length-take, take, All, All-append, Text, concat, strip, strip_by, strip_left,
}
use atlas_knowledge.Chat.Rows.{ChatMessage, ModelParams, Conversation, Message, ChatDb}
use atlas_knowledge.Chat.Turn.{is_none}
use atlas_knowledge.Chat.Stream.{StreamEvent, Ending}
use atlas_knowledge.Chat.Titles.{
  title_max_chars, is_strip_char, is_line_break, first_line, clean, is_user, is_assistant,
  first_of_role, has_conversation_id, title_row, set_title_if_null, store_title, ask_title,
  title_turn, generate_title,
}

-- A text that may be a title: not empty, of 20 characters at most, on one line.
abbrev pub IsTitle : Text → Type 0
IsTitle t =
    (is_empty t ≡ false) × (length t ≤ title_max_chars) × All (λ c. is_line_break c ≡ false) t

module _ {A : Type 0} (P : A → Type 0) where
  All-reverse : (xs : List A) → All P xs → All P (reverse xs)
  All-reverse [] h = tt
  All-reverse (x ∷ xs) h =
      subst (All P) (sym (reverse-cons x xs))
        (All-append P (reverse xs) (x ∷ []) (All-reverse xs h.1) (h.0, tt))

  All-take : (n : ℕ) (xs : List A) → All P xs → All P (take n xs)
  All-take zero xs h = tt
  All-take (suc n) [] h = tt
  All-take (suc n) (x ∷ xs) h = (h.0, All-take n xs h.1)

module _ (P : ℕ → Type 0) (p : ℕ → Bool) where
  All-strip_left : (s : Text) → All P s → All P (strip_left p s)
  unfolding strip_left
  All-strip_left [] h = tt
  All-strip_left (c ∷ s) h = elim (Bool-cases (p c)) [
    | inl e ↦ rw e (All-strip_left s h.1)
    | inr e ↦ rw e h
  ]

  All-strip_by : (s : Text) → All P s → All P (strip_by p s)
  unfolding strip_by
  All-strip_by s h = All-reverse P (strip_left p (reverse (strip_left p s))) (
      All-strip_left (reverse (strip_left p s))
        (All-reverse P (strip_left p s) (All-strip_left s h)))

one_line : (s : Text) → All (λ c. is_line_break c ≡ false) (first_line s)
unfolding first_line
one_line [] = tt
one_line (c ∷ s) = elim (Bool-cases (is_line_break c)) [
  | inl e ↦ rw e tt
  | inr e ↦ rw e (e, one_line s)
]

clean-IsTitle : (raw : Text) → is_empty (clean raw) ≡ false → IsTitle (clean raw)
unfolding clean
clean-IsTitle raw h = elim (Bool-cases (is_empty (strip raw))) [
  | inl e ↦ rw e (rw e at h, omega arith, tt)
  | inr e ↦
      let line = strip_by is_strip_char (first_line (strip raw)) in
      rw e (
        rw e at h,
        omega (arith, length-take title_max_chars line),
        All-take (λ c. is_line_break c ≡ false) title_max_chars line
            (All-strip_by (λ c. is_line_break c ≡ false) is_strip_char (first_line (strip raw))
              (one_line (strip raw))),
      )
]

module _ (now i : ℕ) where
  -- Each conversation is as it was, or is the conversation `i`, had no title, and has one now.
  abbrev pub Retitled : List Conversation → List Conversation → Type 0
  Retitled [] [] = Unit
  Retitled [] (d ∷ ds) = ⊥
  Retitled (c ∷ cs) [] = ⊥
  Retitled (c ∷ cs) (d ∷ ds) =
      ((d ≡ c)
        ⊎ ((c.id ≡ i)
            × (c.title ≡ none)
            × ((t : Text) × IsTitle t × (d ≡ record c { title = some t; updated_at = now }))))
      × Retitled cs ds

  Retitled-refl : (cs : List Conversation) → Retitled cs cs
  Retitled-refl [] = tt
  Retitled-refl (c ∷ cs) = (inl refl, Retitled-refl cs)

  chosen :
      (t : Text) (c : Conversation) {b : Bool}
      → (c.id == i && is_none c.title) ≡ b
      → title_row now i t c ≡ (if b then record c { title = some t; updated_at = now } else c)
  chosen t c e = ap (λ b. if b then record c { title = some t; updated_at = now } else c) e

  Retitled-set :
      (t : Text) (cs : List Conversation) → IsTitle t → Retitled cs (map (title_row now i t) cs)
  Retitled-set t [] h = tt
  Retitled-set t (c ∷ cs) h = elim (Bool-cases (c.id == i)) [
    | inr e ↦ rw e (inl refl, Retitled-set t cs h)
    | inl e ↦ elim (Option-cases c.title) [
      | inl f ↦ (
        inr ((==_iff c.id i).0 e, f, (t, h, chosen t c {b = true} (rw e (ap is_none f)))),
        Retitled-set t cs h,
      )
      | inr (old, f) ↦ (inl (chosen t c {b = false} (rw e (ap is_none f))), Retitled-set t cs h)
    ]
  ]

  store_title-Retitled :
      (said : Option (List Text)) (db : ChatDb)
      → Retitled db.conversations (store_title now i said db).conversations
        × ((store_title now i said db).messages ≡ db.messages)
  unfolding store_title set_title_if_null
  store_title-Retitled none db = (Retitled-refl db.conversations, refl)
  store_title-Retitled (some parts) db = elim (Bool-cases (is_empty (clean (concat parts)))) [
    | inl e ↦ rw e (Retitled-refl db.conversations, refl)
    | inr e ↦ rw e (
      Retitled-set (clean (concat parts)) db.conversations (clean-IsTitle (concat parts) e),
      refl,
    )
  ]

module _ (resolve : Text → ModelParams)
    (chat : List ChatMessage → ModelParams → List StreamEvent × Ending) (now : ℕ)
    (other : ChatDb → ChatDb) where
  abbrev Outcomes : ℕ → ChatDb → ChatDb → Type 0
  Outcomes i db db' =
      (db' ≡ db)
      ⊎ (Retitled now i (other db).conversations db'.conversations
          × (db'.messages ≡ (other db).messages))

  title_turn-Outcomes :
      (i : ℕ) (conv : Conversation) (u a : Option Message) (db : ChatDb)
      → Outcomes i db (title_turn resolve chat now other i conv u a db)
  unfolding title_turn ask_title
  title_turn-Outcomes i conv none a db = inl refl
  title_turn-Outcomes i conv (some u) none db = inl refl
  title_turn-Outcomes i conv (some u) (some a) db = inr (store_title-Retitled now i _ (other db))

  -- Whatever the model says, and whatever other sessions commit while it answers, the task writes
  -- nothing, or changes no conversation row but that of its own conversation, which gets a title
  -- of 1 to 20 characters on one line, and only if it has none by then; messages stay as they are.
  pub generate_title_lem :
      (i : ℕ) (db : ChatDb)
      → (generate_title resolve chat now other i db ≡ db)
        ⊎ (Retitled now i
              (other db).conversations
              (generate_title resolve chat now other i db).conversations
            × ((generate_title resolve chat now other i db).messages ≡ (other db).messages))
  unfolding generate_title
  generate_title_lem i db =
      elim (Option-cases (find_first (has_conversation_id i) db.conversations)) [
        | inl e ↦ rw (generate_title, e) (inl refl)
        | inr (conv, e) ↦ elim (Bool-cases (is_none conv.title)) [
          | inl f ↦
              rw (generate_title, e, f)
                (title_turn-Outcomes i conv (first_of_role i is_user db)
                  (first_of_role i is_assistant db) db)
          | inr f ↦ rw (generate_title, e, f) (inl refl)
        ]
      ]
