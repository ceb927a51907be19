-- ===== src/Auth/Steps.antt =====
-- Histories of the service's calls, and what holds after every one of them.
use atlas_knowledge.Common.{
  ℕ, ◌≤◌, ◌≡◌, refl, ap, Bool, true, false, not, List, [], ◌∷◌, ◌++◌, Option, none, some, ◌==◌,
  Bool-cases, Option-cases, inl, inr, arith, if◌then◌else◌, Text, is_empty, ltb, Outcome, ok, err,
}
use atlas_knowledge.Auth.Tables.{
  User, RefreshToken, Db, get_by_email, get_by_id, get_by_hash, revoke_family, replace_one,
  replace_token, create_user,
}
use atlas_knowledge.Auth.Service.{
  Crypto, Settings, Draws, normalize_email, verify_password, new_user, new_token, register, issue,
  login, rotate, in_grace, replayed, refresh, logout, rehashed, store_rehash,
}
use atlas_knowledge.Auth.Sessions.{
  count_live, count_live-append, count_live-revoke_family-le, count_live-replace-le,
  count_live-replace_found, OneLive,
}

-- One committed call. The ids of new families are fresh: no live token carries them.
pub data Step (c : Crypto) (settings : Settings) : Db → Db → Type 0 where
  registers :
      {db : Db} (d : Draws) (email password : Text)
      → Step c settings db (register c d (λ s. s) email password db).1
  logs_in :
      {db : Db} (d : Draws) (email password : Text) (user_agent : Option Text)
      → count_live d.family_id db.tokens ≡ 0
      → Step c settings db (login c settings d email password user_agent db).1
  refreshes :
      {db : Db} (d : Draws) (token : Text) (user_agent : Option Text)
      → Step c settings db (refresh c settings d token user_agent db).1
  logs_out : {db : Db} (now : ℕ) (token : Option Text) → Step c settings db (logout c now token db)

pub data Reach (c : Crypto) (settings : Settings) (start : Db) : Db → Type 0 where
  here : Reach c settings start start
  next :
      {db db' : Db}
      → Reach c settings start db
      → Step c settings db db'
      → Reach c settings start db'

OneLive-of_tokens : (db db' : Db) → db'.tokens ≡ db.tokens → OneLive db → OneLive db'
OneLive-of_tokens db db' e h f = omega (arith, h f, ap (count_live f) e)

revoke-OneLive :
    (f now : ℕ) (db : Db)
    → OneLive db
    → OneLive (record db { tokens = revoke_family f now db.tokens })
revoke-OneLive f now db h g = omega (arith, count_live-revoke_family-le f g now db.tokens, h g)

pub replace_token-append :
    (i now n : ℕ) (ts : List RefreshToken) (t : RefreshToken)
    → replace_token i now n (ts ++ t ∷ []) ≡ replace_token i now n ts ++ replace_one i now n t ∷ []
unfolding replace_token
replace_token-append i now n [] t = refl
replace_token-append i now n (u ∷ ts) t = rw (replace_token-append i now n ts t)

-- The outcome of `login` for a known user, by the two tests that follow.
login_branches :
    {E A : Type 0} (f : ℕ) (good active : Bool) (e e' : E) (a : A) (db db' : Db)
    → count_live f db.tokens ≤ 1
    → count_live f db'.tokens ≤ 1
    → count_live f
        (let r : Outcome E A × Db =
            if not good then (err e, db) else if not active then (err e', db) else (ok a, db') in
          r).1.tokens
      ≤ 1
login_branches f false active e e' a db db' h k = h
login_branches f true false e e' a db db' h k = h
login_branches f true true e e' a db db' h k = k

tokens-store_rehash :
    (user : User) (h : Option Text) (db : Db) → (store_rehash user h db).tokens ≡ db.tokens
tokens-store_rehash user none db = refl
tokens-store_rehash user (some h) db = refl

module _ (c : Crypto) (settings : Settings) where
  tokens-register :
      (d : Draws) (email password : Text) (db : Db)
      → (register c d (λ s. s) email password db).1.tokens ≡ db.tokens
  unfolding register create_user new_user
  tokens-register d email password db = ground arith

  count_live-new :
      (f : ℕ) (d : Draws) (i fam : ℕ) (ua : Option Text)
      → count_live f (new_token c settings d i fam ua ∷ []) ≡ (if fam == f then 1 else 0)
  unfolding new_token count_live
  count_live-new f d i fam ua = ground arith

  count_live-rotated :
      (f : ℕ) (d : Draws) (i : ℕ) (ua : Option Text) (db : Db) (row : RefreshToken) (h : Text)
      → get_by_hash db h ≡ some row
      → row.revoked_at ≡ none
      → OneLive db
      → count_live f (
          replace_token row.id d.now d.token_id
            (db.tokens ++ new_token c settings d i row.family_id ua ∷ []))
        ≤ 1
  unfolding replace_token
  count_live-rotated f d i ua db row h found live one =
      let new = new_token c settings d i row.family_id ua in
      let gone = count_live-replace_found h d.now d.token_id db.tokens row found live in
      let le = count_live-replace-le f row.id d.now d.token_id db.tokens in
      let tail = count_live-replace-le f row.id d.now d.token_id (new ∷ []) in
      rw
        (
          replace_token-append row.id d.now d.token_id db.tokens new,
          count_live-append f (replace_token row.id d.now d.token_id db.tokens)
              (replace_one row.id d.now d.token_id new ∷ []),
        )
        (ground
          (arith, gone, le, tail, count_live-new f d i row.family_id ua, one f, one row.family_id))

  rotate-OneLive :
      (d : Draws) (ua : Option Text) (db : Db) (row : RefreshToken) (h : Text)
      → get_by_hash db h ≡ some row
      → row.revoked_at ≡ none
      → OneLive db
      → OneLive (rotate c settings d row ua db).1
  unfolding rotate issue
  rotate-OneLive d ua db row h found live one f = elim (Option-cases (get_by_id db row.user_id)) [
    | inl e ↦ rw (e, rotate) (one f)
    | inr (user, e) ↦ elim (Bool-cases user.is_active) [
      | inl a ↦ rw (e, rotate, a) (count_live-rotated f d user.id ua db row h found live one)
      | inr a ↦ rw (e, rotate, a) (one f)
    ]
  ]

  replayed-OneLive :
      (now : ℕ) (row : RefreshToken) (at : ℕ) (db : Db)
      → OneLive db
      → OneLive (replayed c settings now row at db).1
  unfolding replayed
  replayed-OneLive now row at db one = elim (Bool-cases (in_grace row now at)) [
    | inl g ↦ rw g one
    | inr g ↦ rw g (revoke-OneLive row.family_id now db one)
  ]

  refresh-OneLive :
      (d : Draws) (token : Text) (ua : Option Text) (db : Db)
      → OneLive db
      → OneLive (refresh c settings d token ua db).1
  unfolding refresh
  refresh-OneLive d token ua db one = elim (Option-cases (get_by_hash db (c.sha256 token))) [
    | inl e ↦ rw (e, refresh) one
    | inr (row, e) ↦ elim (Bool-cases (ltb row.expires_at d.now)) [
      | inl late ↦ rw (e, refresh, late) one
      | inr in_time ↦ elim (Option-cases row.revoked_at) [
        | inr (at, r) ↦ rw (e, refresh, in_time) (simp (r) (replayed-OneLive d.now row at db one))
        | inl r ↦
            rw (e, refresh, in_time)
              (simp (r) (rotate-OneLive d ua db row (c.sha256 token) e r one))
      ]
    ]
  ]

  logout-OneLive :
      (now : ℕ) (token : Option Text) (db : Db) → OneLive db → OneLive (logout c now token db)
  unfolding logout
  logout-OneLive now none db one = one
  logout-OneLive now (some token) db one = elim (Bool-cases (is_empty token)) [
    | inl e ↦ rw e one
    | inr e ↦ elim (Option-cases (get_by_hash db (c.sha256 token))) [
      | inl g ↦ rw (e, g, logout) one
      | inr (row, g) ↦ rw (e, g, logout) (revoke-OneLive row.family_id now db one)
    ]
  ]

  login-OneLive :
      (d : Draws) (email password : Text) (ua : Option Text) (db : Db)
      → count_live d.family_id db.tokens ≡ 0
      → OneLive db
      → OneLive (login c settings d email password ua db).1
  unfolding login verify_password issue
  login-OneLive d email password ua db fresh one f =
      elim (Option-cases (get_by_email db (normalize_email c email))) [
        | inl e ↦ rw (e, login) (one f)
        | inr (user, e) ↦
            let (good, new_hash) = verify_password c d.salt user.password_hash password in
            let new = new_token c settings d (rehashed user new_hash).id d.family_id ua in
            let added : count_live f (db.tokens ++ new ∷ []) ≤ 1 =
              rw (count_live-append f db.tokens (new ∷ [])) (
                ground (
                  arith,
                  fresh,
                  one f,
                  count_live-new f d (rehashed user new_hash).id d.family_id ua,
                )) in
            rw (e, login)
              (login_branches f good user.is_active _ _ _ _ _ (one f)
                (rw (tokens-store_rehash user new_hash db) added))
      ]

  Step-OneLive : {db db' : Db} → Step c settings db db' → OneLive db → OneLive db'
  Step-OneLive {db} (registers d email password) one =
      OneLive-of_tokens db (register c d (λ s. s) email password db).1
        (tokens-register d email password db) one
  Step-OneLive {db} (logs_in d email password ua fresh) one =
      login-OneLive d email password ua db fresh one
  Step-OneLive {db} (refreshes d token ua) one = refresh-OneLive d token ua db one
  Step-OneLive {db} (logs_out now token) one = logout-OneLive now token db one

  -- In every history of registrations, logins under fresh families, refreshes and logouts, each call
  -- committed before the next one starts, a family that had one live token at most never gets a
  -- second one.
  pub Reach-OneLive : {db db' : Db} → OneLive db → Reach c settings db db' → OneLive db'
  Reach-OneLive one here = one
  Reach-OneLive one (next r s) = Step-OneLive s (Reach-OneLive one r)
