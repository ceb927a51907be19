-- ===== src/Paging.antt =====
-- Keyset paging (backend/app/core/pagination.py, and the `list_page` queries). A key is the pair of a
-- time stamp and an id; the base64 and ISO codecs of the cursor are parameters.
pub mod Order
pub mod Walk
mod Examples
use atlas_knowledge.Common.{
  ℕ, zero, suc, ◌+◌, Bool, true, false, ◌&&◌, ◌||◌, List, [], ◌∷◌, ◌++◌, Option, none, some, ltb,
  ◌==◌, if◌then◌else◌, length, take, keep, Text, Outcome, ok, err,
}
use atlas_knowledge.Errors.{AppError, invalid_cursor}

abbrev pub Key : Type 0
Key = ℕ × ℕ

-- `encode` and `decode` of the text inside a cursor; `none` is a ValueError.
pub record Codec : Type 0 where
  pub encode : Key → Text
  pub decode : Text → Option Key

-- `keyset_before`
unfoldable pub keyset_before : Key → Key → Bool
keyset_before k cursor = ltb k.0 cursor.0 || (k.0 == cursor.0 && ltb k.1 cursor.1)

module _ (codec : Codec) where
  abbrev pub encode_cursor : Key → Text
  encode_cursor k = codec.encode k

  unfoldable pub decode_cursor : Text → Outcome AppError Key
  decode_cursor cursor = elim (codec.decode cursor) [ none ↦ err invalid_cursor | some k ↦ ok k ]

  module _ {A : Type 0} (key : A → Key) where
    -- Insertion in descending order of keys.
    unfoldable pub insert : A → List A → List A
    insert a [] = a ∷ []
    insert a (b ∷ bs) =
        let rest = insert a bs in if keyset_before (key a) (key b) then b ∷ rest else a ∷ b ∷ bs

    -- ORDER BY ts DESC, id DESC
    unfoldable pub order : List A → List A
    order [] = []
    order (a ∷ as') = insert a (order as')

    abbrev pub after_cursor : Option Key → A → Bool
    after_cursor none a = true
    after_cursor (some cursor) a = keyset_before (key a) cursor

    -- `list_page`: WHERE, ORDER BY and LIMIT limit + 1 of a query over these rows
    unfoldable pub list_page : List A → ℕ → Option Key → List A
    list_page rows limit cursor = take (suc limit) (keep (after_cursor cursor) (order rows))

    abbrev pub last : List A → Option A
    last [] = none
    last (a ∷ []) = some a
    last (a ∷ b ∷ bs) = last (b ∷ bs)

    -- `encode_cursor(*key(items[-1])) if has_more and items else None`
    unfoldable pub next_cursor : Bool → List A → Option Text
    next_cursor has_more items =
        if has_more
        then elim (last items) [ none ↦ none | some a ↦ some (encode_cursor (key a)) ]
        else none

    unfoldable pub paginate : List A → ℕ → List A × Option Text
    paginate rows limit =
        let items = take limit rows in (items, next_cursor (ltb limit (length rows)) items)

    abbrev pub keyset_of : Option Text → Outcome AppError (Option Key)
    keyset_of none = ok none
    keyset_of (some cursor) = elim (decode_cursor cursor) [ err e ↦ err e | ok k ↦ ok (some k) ]

    -- The body of `list_conversations` and `list_messages`: decode, query, paginate.
    unfoldable pub list_rows : List A → ℕ → Option Text → Outcome AppError (List A × Option Text)
    list_rows rows limit cursor = elim (keyset_of cursor) [
      | err e ↦ err e
      | ok keyset ↦ ok (paginate (list_page rows limit keyset) limit)
    ]
