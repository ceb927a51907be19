-- ===== src/Auth/Rotation.antt =====
-- When `refresh` issues tokens, and what it leaves.
use atlas_knowledge.Common.{
  ℕ, ◌≤◌, ◌≡◌, ◌↔◌, refl, sym, ◌∙◌, ap, true, false, List, [], ◌∷◌, ◌++◌, Option, none, some, ◌==◌,
  Bool-cases, Option-cases, inl, inr, arith, find_first, Text, ltb, ltb-false→le, ok, err,
}
use atlas_knowledge.Errors.{invalid_refresh_token}
use atlas_knowledge.Auth.Tables.{
  User, RefreshToken, Db, has_hash, get_by_id, get_by_hash, replace_one, replace_token,
}
use atlas_knowledge.Auth.Service.{
  Crypto, Settings, IssuedTokens, Draws, new_token, issued_tokens, issue, rotate, in_grace,
  replayed, refresh,
}

pub find-replace_token :
    (h : Text) (i now n : ℕ) (ts : List RefreshToken) {row : RefreshToken}
    → find_first (has_hash h) ts ≡ some row
    → find_first (has_hash h) (replace_token i now n ts) ≡ some (replace_one i now n row)
unfolding replace_token
find-replace_token h i now n [] e = cc
find-replace_token h i now n (t ∷ ts) {row} e = elim (Bool-cases (t.id == i)) [
  | inl m ↦ elim (Bool-cases (has_hash h t)) [
    | inl p ↦ let same : some t ≡ some row = rw p at e in ground (arith, same)
    | inr p ↦ rw (m, p) (find-replace_token h i now n ts (rw p at e))
  ]
  | inr m ↦ elim (Bool-cases (has_hash h t)) [
    | inl p ↦ let same : some t ≡ some row = rw p at e in ground (arith, same)
    | inr p ↦ rw (m, p) (find-replace_token h i now n ts (rw p at e))
  ]
]

pub find_none-replace_token :
    (h : Text) (i now n : ℕ) (ts : List RefreshToken)
    → find_first (has_hash h) ts ≡ none
    → find_first (has_hash h) (replace_token i now n ts) ≡ none
unfolding replace_token
find_none-replace_token h i now n [] e = refl
find_none-replace_token h i now n (t ∷ ts) e = elim (Bool-cases (has_hash h t)) [
  | inl p ↦ let bad : some t ≡ none = rw p at e in cc
  | inr p ↦ elim (Bool-cases (t.id == i)) [
    | inl m ↦ rw (m, p) (find_none-replace_token h i now n ts (rw p at e))
    | inr m ↦ rw (m, p) (find_none-replace_token h i now n ts (rw p at e))
  ]
]

module _ (c : Crypto) (settings : Settings) where
  -- When `refresh` issues tokens, and what it leaves in the database.
  pub record Rotated (d : Draws) (token : Text) (ua : Option Text) (db db' : Db)
      (issued : IssuedTokens) : Type 0 where
    pub row : RefreshToken
    pub user : User
    pub found : get_by_hash db (c.sha256 token) ≡ some row
    pub in_time : d.now ≤ row.expires_at
    pub live : row.revoked_at ≡ none
    pub owner : get_by_id db row.user_id ≡ some user
    pub active : user.is_active ≡ true
    pub tokens : issued ≡ issued_tokens c settings d user
    pub written : db' ≡ record db {
      tokens =
          replace_token row.id d.now d.token_id
            (db.tokens ++ new_token c settings d user.id row.family_id ua ∷ []);
    }

  abbrev pub rotated_db : Draws → Option Text → Db → RefreshToken → User → Db
  rotated_db d ua db row user = record db {
    tokens =
        replace_token row.id d.now d.token_id
          (db.tokens ++ new_token c settings d user.id row.family_id ua ∷ []);
  }

  rotate_active :
      (d : Draws) (ua : Option Text) (db : Db) (row : RefreshToken) (user : User)
      → get_by_id db row.user_id ≡ some user
      → user.is_active ≡ true
      → rotate c settings d row ua db
        ≡ (ok (issued_tokens c settings d user), rotated_db d ua db row user)
  unfolding rotate issue
  rotate_active d ua db row user g a = rw (g, rotate) (simp a)

  rotate-Rotated :
      (d : Draws) (token : Text) (ua : Option Text) (db : Db) (row : RefreshToken)
      → get_by_hash db (c.sha256 token) ≡ some row
      → d.now ≤ row.expires_at
      → row.revoked_at ≡ none
      → {issued : IssuedTokens} {db' : Db} → rotate c settings d row ua db ≡ (ok issued, db')
      → Rotated d token ua db db' issued
  unfolding rotate issue
  rotate-Rotated d token ua db row f t l {issued} {db'} e =
      elim (Option-cases (get_by_id db row.user_id)) [
        | inl g ↦ let bad = rw (g, rotate) at e in cc (ap (λ p. p.0) bad)
        | inr (user, g) ↦ elim (Bool-cases user.is_active) [
          | inl a ↦
              let same : (ok (issued_tokens c settings d user), rotated_db d ua db row user)
                  ≡ (ok issued, db') =
                sym (rotate_active d ua db row user g a) ∙ e in
              record {
                row = row;
                user = user;
                found = f;
                in_time = t;
                live = l;
                owner = g;
                active = a;
                tokens = cc (ap (λ p. p.0) same);
                written = cc (ap (λ p. p.1) same);
              }
          | inr a ↦ let bad = rw (g, rotate, a) at e in cc (ap (λ p. p.0) bad)
        ]
      ]

  replayed_fails :
      (now : ℕ) (row : RefreshToken) (at : ℕ) (db : Db)
      → (replayed c settings now row at db).0 ≡ err invalid_refresh_token
  unfolding replayed
  replayed_fails now row at db = elim (Bool-cases (in_grace row now at)) [
    | inl g ↦ rw g
    | inr g ↦ rw g
  ]

  pub refresh_revoked :
      (d : Draws) (token : Text) (ua : Option Text) (db : Db) (row : RefreshToken) (at : ℕ)
      → get_by_hash db (c.sha256 token) ≡ some row
      → d.now ≤ row.expires_at
      → row.revoked_at ≡ some at
      → refresh c settings d token ua db ≡ replayed c settings d.now row at db
  unfolding refresh
  refresh_revoked d token ua db row at f t r =
      let in_time : ltb row.expires_at d.now ≡ false = ground arith in
      rw (f, refresh, in_time) (simp r)

  pub refresh_revoked_fails :
      (d : Draws) (token : Text) (ua : Option Text) (db : Db) (row : RefreshToken) (at : ℕ)
      → get_by_hash db (c.sha256 token) ≡ some row
      → row.revoked_at ≡ some at
      → (refresh c settings d token ua db).0 ≡ err invalid_refresh_token
  unfolding refresh
  refresh_revoked_fails d token ua db row at f r = elim (Bool-cases (ltb row.expires_at d.now)) [
    | inl late ↦ rw (f, refresh, late)
    | inr t ↦ rw (f, refresh, t) (simp r (replayed_fails d.now row at db))
  ]

  pub refresh_accepts :
      (d : Draws) (token : Text) (ua : Option Text) (db : Db) (row : RefreshToken) (user : User)
      → get_by_hash db (c.sha256 token) ≡ some row
      → d.now ≤ row.expires_at
      → row.revoked_at ≡ none
      → get_by_id db row.user_id ≡ some user
      → user.is_active ≡ true
      → refresh c settings d token ua db
        ≡ (ok (issued_tokens c settings d user), rotated_db d ua db row user)
  unfolding refresh
  refresh_accepts d token ua db row user f t l g a =
      let in_time : ltb row.expires_at d.now ≡ false = ground arith in
      rw (f, refresh, in_time) (simp l (rotate_active d ua db row user g a))

  refresh-Rotated :
      (d : Draws) (token : Text) (ua : Option Text) (db : Db) (issued : IssuedTokens) (db' : Db)
      → refresh c settings d token ua db ≡ (ok issued, db')
      → Rotated d token ua db db' issued
  unfolding refresh replayed
  refresh-Rotated d token ua db issued db' e =
      elim (Option-cases (get_by_hash db (c.sha256 token))) [
        | inl f ↦ let bad = rw (f, refresh) at e in cc (ap (λ p. p.0) bad)
        | inr (row, f) ↦ elim (Bool-cases (ltb row.expires_at d.now)) [
          | inl late ↦ let bad = rw (f, refresh, late) at e in cc (ap (λ p. p.0) bad)
          | inr t ↦ elim (Option-cases row.revoked_at) [
            | inl l ↦
                rotate-Rotated d token ua db row f (ltb-false→le row.expires_at d.now t) l
                  (simp l at (rw (f, refresh, t) at e))
            | inr (at, r) ↦
                let fails : err invalid_refresh_token ≡ ok issued =
                  sym (replayed_fails d.now row at db)
                  ∙ sym (
                      ap (λ p. p.0)
                        (refresh_revoked d token ua db row at f
                          (ltb-false→le row.expires_at d.now t) r))
                  ∙ ap (λ p. p.0) e in
                cc
          ]
        ]
      ]

  Rotated-refresh :
      (d : Draws) (token : Text) (ua : Option Text) (db : Db) (issued : IssuedTokens) (db' : Db)
      → Rotated d token ua db db' issued
      → refresh c settings d token ua db ≡ (ok issued, db')
  Rotated-refresh d token ua db issued db' r =
      rw (r.tokens, r.written)
        (refresh_accepts d token ua db r.row r.user r.found r.in_time r.live r.owner r.active)

  -- `refresh` issues tokens exactly when the token is known, not expired and not revoked, and its
  -- owner exists and is active; then the database differs by one new live token of the same family,
  -- and by the presented one, which is revoked now and points to the new one.
  pub refresh_iff :
      (d : Draws) (token : Text) (ua : Option Text) (db : Db) (issued : IssuedTokens) (db' : Db)
      → (refresh c settings d token ua db ≡ (ok issued, db')) ↔ Rotated d token ua db db' issued
  refresh_iff d token ua db issued db' =
      (refresh-Rotated d token ua db issued db', Rotated-refresh d token ua db issued db')
