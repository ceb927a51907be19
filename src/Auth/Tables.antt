-- ===== src/Auth/Tables.antt =====
-- The rows and the repositories (backend/app/infrastructure/db/models.py, users.py,
-- refresh_tokens.py).
use atlas_knowledge.Common.{
  ℕ, Bool, true, false, ◌&&◌, List, [], ◌∷◌, ◌++◌, Option, none, some, ◌==◌, if◌then◌else◌, any,
  find_first, Text, text_eq,
}

pub record User : Type 0 where
  pub id : ℕ
  pub email : Text
  pub password_hash : Text
  pub role : Text
  pub is_active : Bool

pub record RefreshToken : Type 0 where
  pub id : ℕ
  pub user_id : ℕ
  pub family_id : ℕ
  pub token_hash : Text
  pub expires_at : ℕ
  pub revoked_at : Option ℕ
  pub replaced_by : Option ℕ
  pub user_agent : Option Text

pub record Db : Type 0 where
  pub users : List User
  pub tokens : List RefreshToken

abbrev pub has_email : Text → User → Bool
has_email email u = text_eq u.email email

abbrev pub has_user_id : ℕ → User → Bool
has_user_id i u = u.id == i

abbrev pub has_hash : Text → RefreshToken → Bool
has_hash h t = text_eq t.token_hash h

abbrev pub get_by_email : Db → Text → Option User
get_by_email db email = find_first (has_email email) db.users

abbrev pub get_by_id : Db → ℕ → Option User
get_by_id db i = find_first (has_user_id i) db.users

abbrev pub get_by_hash : Db → Text → Option RefreshToken
get_by_hash db h = find_first (has_hash h) db.tokens

-- `UserRepository.create`; `none` is the IntegrityError of the unique index `ux_users_email`.
unfoldable pub create_user : Db → User → Option Db
unfolding text_eq
create_user db u =
    if any (has_email u.email) db.users
    then none
    else some (record db { users = db.users ++ u ∷ [] })

abbrev pub is_live : RefreshToken → Bool
is_live t = elim t.revoked_at [ none ↦ true | some _ ↦ false ]

-- `UPDATE refresh_tokens SET revoked_at = now WHERE family_id = f AND revoked_at IS NULL`
abbrev pub revoke_in_family : ℕ → ℕ → RefreshToken → RefreshToken
revoke_in_family f now t =
    if t.family_id == f && is_live t then record t { revoked_at = some now } else t

unfoldable pub revoke_family : ℕ → ℕ → List RefreshToken → List RefreshToken
revoke_family f now [] = []
revoke_family f now (t ∷ ts) = revoke_in_family f now t ∷ revoke_family f now ts

-- `row.revoked_at = now; row.replaced_by = new_id`, written by primary key at the flush.
abbrev pub replace_one : ℕ → ℕ → ℕ → RefreshToken → RefreshToken
replace_one i now new_id t =
    if t.id == i then record t { revoked_at = some now; replaced_by = some new_id } else t

unfoldable pub replace_token : ℕ → ℕ → ℕ → List RefreshToken → List RefreshToken
replace_token i now new_id [] = []
replace_token i now new_id (t ∷ ts) = replace_one i now new_id t ∷ replace_token i now new_id ts
