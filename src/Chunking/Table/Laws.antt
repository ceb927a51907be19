-- ===== src/Chunking/Table/Laws.antt =====
-- No row of a table is lost, and the packed texts respect the token limit.
use atlas_knowledge.Common.{
  ℕ, ◌+◌, ◌≤◌, ◌≡◌, refl, sym, ◌∙◌, ap, ◌⊎◌, inl, inr, true, List, [], ◌∷◌, ◌++◌, append_assoc,
  append-nil, arith, Bool-cases, ltb, ltb-false→le, is_empty, length, keep, All, All-concat, Text,
  join,
}
use atlas_knowledge.Documents.{Block}
use atlas_knowledge.Chunking.Tokens.{estimate_tokens}
use atlas_knowledge.Chunking.Table.{
  row_separator, non_empty, Packing, close, append_line, pack_line, pack_lines, flush_packing,
  serialize_rows, pack_rows, rows_of, pack_table, start,
}

abbrev pub sum_tokens : List Text → ℕ
sum_tokens [] = 0
sum_tokens (l ∷ ls) = estimate_tokens l + sum_tokens ls

sum_tokens-append :
    (ls : List Text) (l : Text) → sum_tokens (ls ++ l ∷ []) ≡ sum_tokens ls + estimate_tokens l
sum_tokens-append [] l = omega arith
sum_tokens-append (k ∷ ls) l = omega (arith, sum_tokens-append ls l)

-- A group of lines that may be packed together: one line, or lines within the limit.
abbrev pub FitsLimit : ℕ → List Text → Type 0
FitsLimit target ls = (length ls ≤ 1) ⊎ (sum_tokens ls ≤ target)

-- The packed texts are the groups, each joined by line ends.
abbrev pub join_groups : List (List Text) → List Text
join_groups [] = []
join_groups (g ∷ gs) = join row_separator g ∷ join_groups gs

join_groups-append :
    (gs : List (List Text)) (g : List Text)
    → join_groups (gs ++ g ∷ []) ≡ join_groups gs ++ join row_separator g ∷ []
join_groups-append [] g = refl
join_groups-append (h ∷ gs) g = rw (join_groups-append gs g)

abbrev pub lines_of : List (List Text) → List Text
lines_of [] = []
lines_of (g ∷ gs) = g ++ lines_of gs

lines_of-append :
    (gs : List (List Text)) (g : List Text) → lines_of (gs ++ g ∷ []) ≡ lines_of gs ++ g
lines_of-append [] g = append-nil g
lines_of-append (h ∷ gs) g = simp (lines_of-append gs g, append_assoc)

module _ (target : ℕ) where
  -- The loop's invariant: `seen` are the lines so far, in closed groups and in the buffer.
  record Packs (seen : List Text) (p : Packing) : Type 0 where
    groups : List (List Text)
    closed : p.packed ≡ join_groups groups
    order : lines_of groups ++ p.buffer ≡ seen
    counted : p.buffer_tokens ≡ sum_tokens p.buffer
    fit : All (FitsLimit target) groups
    buffer_fit : FitsLimit target p.buffer

  close-Packs : (seen : List Text) (p : Packing) → Packs seen p → Packs seen (close p)
  unfolding close
  close-Packs seen p h = record {
    groups = h.groups ++ p.buffer ∷ [];
    closed = rw (join_groups-append h.groups p.buffer, h.closed);
    order =
        rw (lines_of-append h.groups p.buffer, append-nil (lines_of h.groups ++ p.buffer)) h.order;
    counted = refl;
    fit = All-concat (FitsLimit target) h.groups h.fit h.buffer_fit;
    buffer_fit = inl (omega arith);
  }

  length_of_empty : (xs : List Text) (l : Text) → is_empty xs ≡ true → length (xs ++ l ∷ []) ≤ 1
  length_of_empty [] l e = omega arith
  length_of_empty (x ∷ xs) l e = cc

  append_line-Packs :
      (seen : List Text) (p : Packing) (line : Text)
      → Packs seen p
      → FitsLimit target (p.buffer ++ line ∷ [])
      → Packs (seen ++ line ∷ []) (append_line line p)
  unfolding append_line
  append_line-Packs seen p line h k = record {
    groups = h.groups;
    closed = h.closed;
    order =
        sym (append_assoc (lines_of h.groups) p.buffer (line ∷ []))
        ∙ ap (λ s. s ++ line ∷ []) h.order;
    counted = omega (arith, sum_tokens-append p.buffer line, h.counted);
    fit = h.fit;
    buffer_fit = k;
  }

  pack_line-Packs :
      (seen : List Text) (p : Packing) (line : Text)
      → Packs seen p
      → Packs (seen ++ line ∷ []) (pack_line target p line)
  unfolding pack_line
  pack_line-Packs seen p line h = elim (Bool-cases (is_empty p.buffer)) [
    | inl e ↦ rw e (append_line-Packs seen p line h (inl (length_of_empty p.buffer line e)))
    | inr e ↦ elim (Bool-cases (ltb target (p.buffer_tokens + estimate_tokens line))) [
      | inl big ↦
          rw (e, big)
            (append_line-Packs seen (close p) line (close-Packs seen p h)
              (unfold close in inl (omega arith)))
      | inr small ↦
          rw (e, small)
            (append_line-Packs seen p line h (
              inr (
                omega (
                  arith,
                  sum_tokens-append p.buffer line,
                  h.counted,
                  ltb-false→le target (p.buffer_tokens + estimate_tokens line) small,
                ))))
    ]
  ]

  pack_lines-Packs :
      (seen : List Text) (p : Packing) (lines : List Text)
      → Packs seen p
      → Packs (seen ++ keep non_empty lines) (pack_lines target p lines)
  unfolding pack_lines
  pack_lines-Packs seen p [] h = rw (append-nil seen) h
  pack_lines-Packs seen p ([] ∷ lines) h = pack_lines-Packs seen p lines h
  pack_lines-Packs seen p ((c ∷ s) ∷ lines) h =
      rw (← append_assoc seen ((c ∷ s) ∷ []) (keep non_empty lines)) (
        pack_lines-Packs (seen ++ (c ∷ s) ∷ []) (pack_line target p (c ∷ s)) lines
          (pack_line-Packs seen p (c ∷ s) h))

  -- What the groups say of the texts that come out.
  abbrev pub IsPacked : List Text → List Text → Type 0
  IsPacked lines texts =
      (groups : List (List Text)) × (texts ≡ join_groups groups)
      × (lines_of groups ≡ lines)
      × All (FitsLimit target) groups

  order_of_empty :
      (gs : List (List Text)) (b seen : List Text)
      → is_empty b ≡ true
      → lines_of gs ++ b ≡ seen
      → lines_of gs ≡ seen
  order_of_empty gs [] seen e h = sym (append-nil (lines_of gs)) ∙ h
  order_of_empty gs (x ∷ xs) seen e h = cc

  flush_packing-IsPacked :
      (seen : List Text) (p : Packing) → Packs seen p → IsPacked seen (flush_packing p)
  unfolding flush_packing
  flush_packing-IsPacked seen p h = elim (Bool-cases (is_empty p.buffer)) [
    | inl e ↦ rw e (h.groups, h.closed, order_of_empty h.groups p.buffer seen e h.order, h.fit)
    | inr e ↦
        let k = close-Packs seen p h in
        rw e (
          k.groups,
          k.closed,
          order_of_empty k.groups (close p).buffer seen (unfold close in refl) k.order,
          k.fit,
        )
  ]

Packs-start : (target : ℕ) → Packs target [] start
Packs-start target = record {
  groups = [];
  closed = refl;
  order = refl;
  counted = refl;
  fit = tt;
  buffer_fit = inl (omega arith);
}

-- For a table with a header and at least one more row the packed texts are the serialised rows
-- that are not empty, in order and none lost, in groups joined by line ends; a group has one line,
-- or lines whose estimates sum to at most the limit.
pub pack_table-IsPacked :
    (target : ℕ) (block : Block) (header row : List Text) (body : List (List Text))
    → rows_of block ≡ header ∷ row ∷ body
    → IsPacked target
        (keep non_empty (serialize_rows header (row ∷ body)))
        (pack_table target block)
unfolding pack_table
pack_table-IsPacked target block header row body e =
    rw (e, pack_rows)
      (flush_packing-IsPacked target _ _ (
        pack_lines-Packs target [] start (serialize_rows header (row ∷ body)) (Packs-start target)))
