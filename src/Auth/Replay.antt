-- ===== src/Auth/Replay.antt =====
-- Replay of a rotated token, and logout.
use atlas_knowledge.Common.{
  ◌+◌, ◌-◌, ◌*◌, ◌≤◌, ◌≡◌, ◌≢◌, refl, ◌∙◌, ap, false, [], ◌∷◌, ◌++◌, Option, none, some, ◌==◌,
  ==_refl, Bool-cases, inl, inr, arith, if◌then◌else◌, find_first-append_some,
  find_first-append_none, Text, text_eq_refl, leb, ok, err,
}
use atlas_knowledge.Errors.{invalid_refresh_token}
use atlas_knowledge.Auth.Tables.{
  User, RefreshToken, Db, has_hash, get_by_id, get_by_hash, revoke_family, replace_token,
}
use atlas_knowledge.Auth.Service.{
  Crypto, Settings, IssuedTokens, Draws, new_token, issued_tokens, replayed, refresh,
  rotation_grace, day,
}
use atlas_knowledge.Auth.Sessions.{count_live, count_live-revoke_family}
use atlas_knowledge.Auth.Steps.{replace_token-append}
use atlas_knowledge.Auth.Rotation.{
  find-replace_token, find_none-replace_token, Rotated, rotated_db, refresh_revoked,
  refresh_accepts,
}

module _ (c : Crypto) (settings : Settings) where
  found_after :
      (d : Draws) (token : Text) (ua : Option Text) (db : Db) (row : RefreshToken) (user : User)
      → get_by_hash db (c.sha256 token) ≡ some row
      → get_by_hash (rotated_db c settings d ua db row user) (c.sha256 token)
        ≡ some (record row { revoked_at = some d.now; replaced_by = some d.token_id })
  found_after d token ua db row user f =
      let new = new_token c settings d user.id row.family_id ua in
      find-replace_token (c.sha256 token) row.id d.now d.token_id (db.tokens ++ new ∷ [])
        (find_first-append_some (has_hash (c.sha256 token)) db.tokens (new ∷ []) f)
      ∙ (rw (==_refl row.id))

  -- Replaying the token that a refresh has just rotated, before it expires, always fails. Within the
  -- grace period nothing is written; after it the whole family is revoked, and has no live token.
  pub refresh_replay :
      (d d' : Draws) (token : Text) (ua ua' : Option Text) (db db' : Db) (issued : IssuedTokens)
      (r : Rotated c settings d token ua db db' issued)
      → d'.now ≤ r.row.expires_at
      → (refresh c settings d' token ua' db' ≡ (
        err invalid_refresh_token,
        if leb (d'.now - d.now) rotation_grace
            then db'
            else record db' { tokens = revoke_family r.row.family_id d'.now db'.tokens },
      ))
        × (count_live r.row.family_id (revoke_family r.row.family_id d'.now db'.tokens) ≡ 0)
  unfolding replayed
  refresh_replay d d' token ua ua' db db' issued r t =
      let row' = record r.row { revoked_at = some d.now; replaced_by = some d.token_id } in
      let found : get_by_hash db' (c.sha256 token) ≡ some row' =
        ap (λ s. get_by_hash s (c.sha256 token)) r.written
        ∙ found_after d token ua db r.row r.user r.found in
      (
        refresh_revoked c settings d' token ua' db' row' d.now found t refl
            ∙ (elim (Bool-cases (leb (d'.now - d.now) rotation_grace)) [
              | inl g ↦ rw g
              | inr g ↦ rw g
            ]),
        count_live-revoke_family r.row.family_id d'.now db'.tokens,
      )

  found_new :
      (d : Draws) (ua : Option Text) (db : Db) (row : RefreshToken) (user : User)
      → get_by_hash db (c.sha256 d.refresh_plain) ≡ none
      → (d.token_id == row.id) ≡ false
      → get_by_hash (rotated_db c settings d ua db row user) (c.sha256 d.refresh_plain)
        ≡ some (new_token c settings d user.id row.family_id ua)
  unfolding new_token
  found_new d ua db row user f n =
      let h = c.sha256 d.refresh_plain in
      let new = new_token c settings d user.id row.family_id ua in
      rw (replace_token-append row.id d.now d.token_id db.tokens new) (
        find_first-append_none (has_hash h) (replace_token row.id d.now d.token_id db.tokens) _
          (find_none-replace_token h row.id d.now d.token_id db.tokens f)
        ∙ (rw (n, text_eq_refl h)))

  -- The token that a refresh hands out is accepted in turn until it expires, if its hash was not
  -- in the table before, its row's id is not that of the presented token, and the owner is found
  -- under its own id.
  pub refresh_chain :
      (d d' : Draws) (token : Text) (ua ua' : Option Text) (db db' : Db) (issued : IssuedTokens)
      (r : Rotated c settings d token ua db db' issued)
      → get_by_hash db (c.sha256 d.refresh_plain) ≡ none
      → d.token_id ≢ r.row.id
      → get_by_id db r.user.id ≡ some r.user
      → d'.now ≤ d.now + settings.refresh_token_ttl_days * day
      → (refresh c settings d' issued.refresh_token ua' db').0
        ≡ ok (issued_tokens c settings d' r.user)
  unfolding new_token issued_tokens
  refresh_chain d d' token ua ua' db db' issued r f n u t =
      let distinct : (d.token_id == r.row.id) ≡ false = ground (arith, n) in
      let same : issued.refresh_token ≡ d.refresh_plain =
        ap (λ (i : IssuedTokens). i.refresh_token) r.tokens in
      rw (same, r.written)
        (ap (λ p. p.0)
          (refresh_accepts c settings d' d.refresh_plain ua'
            (rotated_db c settings d ua db r.row r.user)
            (new_token c settings d r.user.id r.row.family_id ua) r.user
            (found_new d ua db r.row r.user f distinct) t refl u r.active))
