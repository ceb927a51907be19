-- ===== src/Auth/Service.antt =====
-- `AuthService` and the password part of security.py. argon2, SHA-256, JWT, the random sources and
-- `str.lower` are parameters; every method returns its result and the committed database.
use atlas_knowledge.Common.{
  ℕ, ◌+◌, ◌-◌, ◌*◌, Bool, true, false, ◌&&◌, not, List, [], ◌∷◌, ◌++◌, Option, none, some, ltb, leb,
  if◌then◌else◌, is_empty, Text, codes, strip, Outcome, ok, err,
}
use atlas_knowledge.Errors.{
  AppError, email_already_registered, invalid_credentials, user_inactive, invalid_refresh_token,
}
use atlas_knowledge.Auth.Tables.{
  User, RefreshToken, Db, has_user_id, get_by_email, get_by_id, get_by_hash, create_user,
  revoke_family, replace_token,
}

-- `hash salt password` is the encoded hash of argon2 under a random salt.
pub record Crypto : Type 0 where
  pub lower : Text → Text
  pub hash : ℕ → Text → Text
  pub verify : Text → Text → Bool
  pub needs_rehash : Text → Bool
  pub sha256 : Text → Text
  pub access_token : ℕ → Text → ℕ → ℕ → Text

pub record Settings : Type 0 where
  pub access_token_ttl_min : ℕ
  pub refresh_token_ttl_days : ℕ

abbrev pub default_settings : Settings
default_settings = record { access_token_ttl_min = 20; refresh_token_ttl_days = 14 }

-- `_ROTATION_GRACE`, in microseconds
abbrev pub rotation_grace : ℕ
rotation_grace = 60 * 1000000

abbrev pub day : ℕ
day = 86400 * 1000000

pub record IssuedTokens : Type 0 where
  pub user : User
  pub access_token : Text
  pub refresh_token : Text
  pub expires_in : ℕ

-- What the random sources and the clock give to one call.
pub record Draws : Type 0 where
  pub now : ℕ
  pub salt : ℕ
  pub user_id : ℕ
  pub family_id : ℕ
  pub token_id : ℕ
  pub jti : ℕ
  pub refresh_plain : Text

-- `user.password_hash = new_hash`, written by primary key.
unfoldable pub set_password : ℕ → Text → List User → List User
set_password i h [] = []
set_password i h (u ∷ us) =
    (if has_user_id i u then record u { password_hash = h } else u) ∷ set_password i h us

abbrev pub rehashed : User → Option Text → User
rehashed u none = u
rehashed u (some h) = record u { password_hash = h }

abbrev pub store_rehash : User → Option Text → Db → Db
store_rehash u none db = db
store_rehash u (some h) db = record db { users = set_password u.id h db.users }

abbrev is_some : Option ℕ → Bool
is_some none = false
is_some (some _) = true

-- It was replaced, and not long ago.
abbrev pub in_grace : RefreshToken → ℕ → ℕ → Bool
in_grace row now revoked_at = is_some row.replaced_by && leb (now - revoked_at) rotation_grace

module _ (c : Crypto) where
  unfoldable pub normalize_email : Text → Text
  normalize_email email = c.lower (strip email)

  unfoldable pub verify_password : ℕ → Text → Text → Bool × Option Text
  verify_password salt password_hash password =
      if c.verify password_hash password
      then (true, if c.needs_rehash password_hash then some (c.hash salt password) else none)
      else (false, none)

  -- The row that `register` inserts, with the column defaults.
  unfoldable pub new_user : Draws → Text → Text → User
  new_user d email password = record {
    id = d.user_id;
    email = email;
    password_hash = c.hash d.salt password;
    role = codes "user";
    is_active = true;
  }

  -- `other` is what other sessions commit between the lookup and the insert.
  unfoldable pub register : Draws → (Db → Db) → Text → Text → Db → Outcome AppError User × Db
  register d other email password db =
      let e = normalize_email email in
      elim (get_by_email db e) [
        | some _ ↦ (err email_already_registered, db)
        | none ↦ elim (create_user (other db) (new_user d e password)) [
          | some db' ↦ (ok (new_user d e password), db')
          | none ↦ (err email_already_registered, other db)
        ]
      ]

  module _ (settings : Settings) where
    unfoldable pub new_token : Draws → ℕ → ℕ → Option Text → RefreshToken
    new_token d user_id family_id user_agent = record {
      id = d.token_id;
      user_id = user_id;
      family_id = family_id;
      token_hash = c.sha256 d.refresh_plain;
      expires_at = d.now + settings.refresh_token_ttl_days * day;
      revoked_at = none;
      replaced_by = none;
      user_agent = user_agent;
    }

    unfoldable pub issued_tokens : Draws → User → IssuedTokens
    issued_tokens d user = record {
      user = user;
      access_token = c.access_token user.id user.role d.now d.jti;
      refresh_token = d.refresh_plain;
      expires_in = settings.access_token_ttl_min * 60;
    }

    -- `_issue`: the row is added, and nothing is committed yet.
    unfoldable pub issue : Draws → User → ℕ → Option Text → Db → IssuedTokens × Db
    issue d user family_id user_agent db = (
      issued_tokens d user,
      record db { tokens = db.tokens ++ new_token d user.id family_id user_agent ∷ [] },
    )

    unfoldable pub login :
        Draws → Text → Text → Option Text → Db → Outcome AppError IssuedTokens × Db
    login d email password user_agent db = elim (get_by_email db (normalize_email email)) [
      | none ↦ (err invalid_credentials, db)
      | some user ↦
          let (good, new_hash) = verify_password d.salt user.password_hash password in
          if not good
          then (err invalid_credentials, db)
          else if not user.is_active
          then (err user_inactive, db)
          else let (issued, db') =
              issue d (rehashed user new_hash) d.family_id user_agent
                (store_rehash user new_hash db) in
            (ok issued, db')
    ]

    -- The part of `refresh` for a token that is known, in time and not revoked.
    unfoldable pub rotate :
        Draws → RefreshToken → Option Text → Db → Outcome AppError IssuedTokens × Db
    rotate d row user_agent db = elim (get_by_id db row.user_id) [
      | none ↦ (err invalid_refresh_token, db)
      | some user ↦
          if not user.is_active
          then (err invalid_refresh_token, db)
          else let (issued, db') = issue d user row.family_id user_agent db in
            (ok issued, record db' { tokens = replace_token row.id d.now d.token_id db'.tokens })
    ]

    -- The part of `refresh` for a token that was revoked before.
    unfoldable pub replayed : ℕ → RefreshToken → ℕ → Db → Outcome AppError IssuedTokens × Db
    replayed now row revoked_at db =
        if in_grace row now revoked_at then (err invalid_refresh_token, db) else (
          err invalid_refresh_token,
          record db { tokens = revoke_family row.family_id now db.tokens },
        )

    unfoldable pub refresh : Draws → Text → Option Text → Db → Outcome AppError IssuedTokens × Db
    refresh d refresh_token user_agent db = elim (get_by_hash db (c.sha256 refresh_token)) [
      | none ↦ (err invalid_refresh_token, db)
      | some row ↦
          if ltb row.expires_at d.now
          then (err invalid_refresh_token, db)
          else elim row.revoked_at [
            | some revoked_at ↦ replayed d.now row revoked_at db
            | none ↦ rotate d row user_agent db
          ]
    ]

  -- `logout`: an absent or empty cookie changes nothing.
  unfoldable pub logout : ℕ → Option Text → Db → Db
  logout now none db = db
  logout now (some token) db =
      if is_empty token then db else elim (get_by_hash db (c.sha256 token)) [
        | none ↦ db
        | some row ↦ record db { tokens = revoke_family row.family_id now db.tokens }
      ]
