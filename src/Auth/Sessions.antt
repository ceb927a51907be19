-- ===== src/Auth/Sessions.antt =====
-- A token family has one live token at most, in every state that the service reaches.
use atlas_knowledge.Common.{
  ℕ, ◌+◌, ◌≤◌, ◌≡◌, refl, Bool, ◌&&◌, List, [], ◌∷◌, ◌++◌, none, some, ◌==◌, Bool-cases, inl, inr,
  arith, if◌then◌else◌, find_first, Text,
}
use atlas_knowledge.Auth.Tables.{RefreshToken, Db, is_live, has_hash, revoke_family, replace_token}

abbrev pub live_in : ℕ → RefreshToken → Bool
live_in f t = t.family_id == f && is_live t

-- The number of live tokens of a family.
unfoldable pub count_live : ℕ → List RefreshToken → ℕ
count_live f [] = 0
count_live f (t ∷ ts) = (if live_in f t then 1 else 0) + count_live f ts

pub count_live-append :
    (f : ℕ) (ts us : List RefreshToken)
    → count_live f (ts ++ us) ≡ count_live f ts + count_live f us
unfolding count_live
count_live-append f [] us = omega arith
count_live-append f (t ∷ ts) us = omega (arith, count_live-append f ts us)

pub count_live-revoke_family-le :
    (f g now : ℕ) (ts : List RefreshToken) → count_live g (revoke_family f now ts) ≤ count_live g ts
unfolding count_live revoke_family
count_live-revoke_family-le f g now [] = omega arith
count_live-revoke_family-le f g now (t ∷ ts) =
    ground (arith, count_live-revoke_family-le f g now ts)

-- Revoking a family leaves none of its tokens live.
pub count_live-revoke_family :
    (f now : ℕ) (ts : List RefreshToken) → count_live f (revoke_family f now ts) ≡ 0
unfolding count_live revoke_family
count_live-revoke_family f now [] = refl
count_live-revoke_family f now (t ∷ ts) = ground (arith, count_live-revoke_family f now ts)

pub count_live-replace-le :
    (f i now n : ℕ) (ts : List RefreshToken)
    → count_live f (replace_token i now n ts) ≤ count_live f ts
unfolding count_live replace_token
count_live-replace-le f i now n [] = omega arith
count_live-replace-le f i now n (t ∷ ts) = ground (arith, count_live-replace-le f i now n ts)

-- The token that is found in the table is no longer counted once it is replaced.
pub count_live-replace_found :
    (h : Text) (now n : ℕ) (ts : List RefreshToken) (row : RefreshToken)
    → find_first (has_hash h) ts ≡ some row
    → row.revoked_at ≡ none
    → count_live row.family_id (replace_token row.id now n ts) + 1 ≤ count_live row.family_id ts
unfolding count_live replace_token
count_live-replace_found h now n [] row e live = cc
count_live-replace_found h now n (t ∷ ts) row e live = elim (Bool-cases (has_hash h t)) [
  | inl p ↦
      let found : some t ≡ some row = rw p at e in
      let same : t ≡ row = cc found in
      ground (arith, count_live-replace-le row.family_id row.id now n ts)
  | inr p ↦
      let later : find_first (has_hash h) ts ≡ some row = rw p at e in
      let ih = count_live-replace_found h now n ts row later live in ground (arith, ih)
]

-- Each family has one live token at most.
abbrev pub OneLive : Db → Type 0
OneLive db = (f : ℕ) → count_live f db.tokens ≤ 1
