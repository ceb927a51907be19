-- ===== src/Auth/Accounts.antt =====
-- Registration and login.
use mathlib.Core.Path.{subst}
use atlas_knowledge.Common.{
  ℕ, ◌≡◌, refl, ◌∙◌, ◌⊎◌, inl, inr, true, false, List, [], ◌∷◌, ◌++◌, Option, none, some,
  Bool-cases, Option-cases, arith, any, find_first-append_none, Text, text_eq, text_eq_iff,
  text_eq_refl, Outcome, ok, err, any_of_find_none, any_of_find_some, find_first, sym,
}
use atlas_knowledge.Errors.{AppError, email_already_registered, invalid_credentials}
use atlas_knowledge.Auth.Tables.{User, Db, has_email, get_by_email, create_user}
use atlas_knowledge.Auth.Service.{
  Crypto, Settings, IssuedTokens, Draws, normalize_email, verify_password, new_user, register,
  issue, issued_tokens, rehashed, login,
}

-- No user of the list has this address.
abbrev pub Unused : Text → List User → Type 0
Unused email [] = Unit
Unused email (u ∷ us) = (text_eq u.email email ≡ false) × Unused email us

-- The unique index on the address.
abbrev pub UniqueEmails : List User → Type 0
UniqueEmails [] = Unit
UniqueEmails (u ∷ us) = Unused u.email us × UniqueEmails us

text_eq_comm : (s t : Text) → text_eq s t ≡ false → text_eq t s ≡ false
text_eq_comm s t h = ground (arith, text_eq_iff s t, text_eq_iff t s)

Unused-append :
    (email : Text) (us : List User) (u : User)
    → Unused email us
    → text_eq u.email email ≡ false
    → Unused email (us ++ u ∷ [])
Unused-append email [] u h k = (k, tt)
Unused-append email (v ∷ us) u h k = (h.0, Unused-append email us u h.1 k)

UniqueEmails-append :
    (us : List User) (u : User)
    → UniqueEmails us
    → any (has_email u.email) us ≡ false
    → UniqueEmails (us ++ u ∷ [])
UniqueEmails-append [] u h k = (tt, tt)
UniqueEmails-append (v ∷ us) u h k = elim (Bool-cases (text_eq v.email u.email)) [
  | inl e ↦ ground (arith, e)
  | inr e ↦ (
    Unused-append v.email us u h.0 (text_eq_comm v.email u.email e),
    UniqueEmails-append us u h.1 (rw e at k),
  )
]

module _ (c : Crypto) where
  -- What a registration of this address answers and writes, by whom it meets: a user who was there at
  -- the lookup, one who came before the insert, or none, when the new user can be looked up afterwards.
  abbrev pub Registers : Draws → (Db → Db) → Text → Text → Db → Outcome AppError User × Db → Type 0
  Registers d other email password db r =
      (((taken : User) × (get_by_email db email ≡ some taken))
        × (r ≡ (err email_already_registered, db)))
      ⊎ (((get_by_email db email ≡ none)
            × ((taken : User) × (get_by_email (other db) email ≡ some taken))
            × (r ≡ (err email_already_registered, other db)))
          ⊎ ((get_by_email db email ≡ none)
              × (get_by_email (other db) email ≡ none)
              × (r.0 ≡ ok (new_user c d email password))
              × (get_by_email r.1 email ≡ some (new_user c d email password))
              × (r.1.users ≡ (other db).users ++ new_user c d email password ∷ [])
              × (r.1.tokens ≡ (other db).tokens)))

  register-Registers :
      (d : Draws) (other : Db → Db) (email password : Text) (db : Db)
      → Registers d other
          (normalize_email c email)
          password
          db
          (register c d other email password db)
  unfolding register create_user new_user
  register-Registers d other email password db =
      let e = normalize_email c email in
      elim (Option-cases (get_by_email db e)) [
        | inr (u, f) ↦ rw (f, register) (inl ((u, refl), refl))
        | inl f ↦ elim (Option-cases (get_by_email (other db) e)) [
          | inr (u, g) ↦
              let taken : any (has_email e) (other db).users ≡ true =
                any_of_find_some (has_email e) (other db).users g in
              let met : register c d other email password db
                  ≡ (err email_already_registered, other db) =
                rw (f, register, create_user, taken) refl in
              inr (inl (f, (u, g), met))
          | inl g ↦
              let u = new_user c d e password in
              let free : any (has_email e) (other db).users ≡ false =
                any_of_find_none (has_email e) (other db).users g in
              let met : register c d other email password db
                  ≡ (ok u, record (other db) { users = (other db).users ++ u ∷ [] }) =
                rw (f, register, create_user, free) refl in
              let found : find_first (has_email e) ((other db).users ++ u ∷ []) ≡ some u =
                find_first-append_none (has_email e) (other db).users (u ∷ []) g
                ∙ rw (text_eq_refl e) refl in
              subst (Registers d other e password db) (sym met)
                (inr (inr (f, g, refl, found, refl, refl)))
        ]
      ]

  Registers-UniqueEmails :
      (d : Draws) (other : Db → Db) (email password : Text) (db : Db)
      → (r : Outcome AppError User × Db) → Registers d other email password db r
      → UniqueEmails db.users
      → UniqueEmails (other db).users
      → UniqueEmails r.1.users
  unfolding new_user
  Registers-UniqueEmails d other email password db r (inl (_, met)) h k = rw met h
  Registers-UniqueEmails d other email password db r (inr (inl (_, _, met))) h k = rw met k
  Registers-UniqueEmails d other email password db r (inr (inr (_, g, _, _, users, _))) h k =
      subst UniqueEmails (sym users) (
        UniqueEmails-append (other db).users (new_user c d email password) k
          (any_of_find_none (has_email email) (other db).users g))

  -- Whatever other sessions commit between the lookup and the insert, as long as it keeps the
  -- addresses unique, `register` keeps them unique. It fails, and writes nothing, exactly if the
  -- normalised address belongs to a user at the lookup or at the insert; otherwise it answers with the
  -- new user, who is all that is added to the tables and is found under the address.
  pub register-UniqueEmails :
      (d : Draws) (other : Db → Db) (email password : Text) (db : Db)
      → UniqueEmails db.users
      → UniqueEmails (other db).users
      → UniqueEmails (register c d other email password db).1.users
        × Registers d other
            (normalize_email c email)
            password
            db
            (register c d other email password db)
  register-UniqueEmails d other email password db h k =
      let e = normalize_email c email in
      let r = register-Registers d other email password db in
      (Registers-UniqueEmails d other e password db (register c d other email password db) r h k, r)

  login_accepts :
      (settings : Settings) (d : Draws) (email password : Text) (user_agent : Option Text) (db : Db)
      (user : User)
      → get_by_email db (normalize_email c email) ≡ some user
      → c.verify user.password_hash password ≡ true
      → user.is_active ≡ true
      → (login c settings d email password user_agent db).0
        ≡ ok (
            issued_tokens c settings d
              (rehashed user (verify_password c d.salt user.password_hash password).1))
  unfolding login verify_password issue
  login_accepts settings d email password user_agent db user f v a = rw (f, login, v, a)

  register_writes :
      (d : Draws) (email password : Text) (db : Db)
      → get_by_email db (normalize_email c email) ≡ none
      → (register c d (λ s. s) email password db).1
        ≡ record db { users = db.users ++ new_user c d (normalize_email c email) password ∷ [] }
  unfolding register create_user new_user
  register_writes d email password db absent =
      let unique = any_of_find_none (has_email (normalize_email c email)) db.users absent in
      rw (absent, register, create_user, unique)

  id-rehashed : (user : User) (h : Option Text) → (rehashed user h).id ≡ user.id
  id-rehashed user none = refl
  id-rehashed user (some h) = refl

  -- After a registration that met no other session's write, a login under any spelling of the address
  -- that normalises alike, with the same password, succeeds and is for the new user, if the
  -- password hash verifies the password that it was made of.
  pub login-register :
      (settings : Settings) (d d' : Draws) (email email' password : Text) (user_agent : Option Text)
      (db : Db)
      → ((salt : ℕ) (p : Text) → c.verify (c.hash salt p) p ≡ true)
      → get_by_email db (normalize_email c email) ≡ none
      → normalize_email c email' ≡ normalize_email c email
      → (issued : IssuedTokens) × ((login c settings d' email' password user_agent
            (register c d (λ s. s) email password db).1).0
          ≡ ok issued)
        × (issued.user.id ≡ d.user_id)
        × (issued.refresh_token ≡ d'.refresh_plain)
  unfolding new_user issued_tokens
  login-register settings d d' email email' password user_agent db verifies absent same =
      let e = normalize_email c email in
      let u = new_user c d e password in
      let found : get_by_email (record db { users = db.users ++ u ∷ [] }) (normalize_email c email')
          ≡ some u =
        rw same
          (find_first-append_none (has_email e) db.users (u ∷ []) absent ∙ (rw (text_eq_refl e))) in
      (
        issued_tokens c settings d'
            (rehashed u (verify_password c d'.salt u.password_hash password).1),
        rw (register_writes d email password db absent) (
            login_accepts settings d' email' password user_agent
              (record db { users = db.users ++ u ∷ [] }) u found (verifies d.salt password) refl),
        id-rehashed u (verify_password c d'.salt u.password_hash password).1,
        refl,
      )

  -- A login fails for an unknown address exactly as it does for a wrong password: the same error, and
  -- nothing is written.
  pub login_rejects :
      (settings : Settings) (d : Draws) (email password : Text) (user_agent : Option Text) (db : Db)
      → (get_by_email db (normalize_email c email) ≡ none)
        ⊎ ((user : User) × (get_by_email db (normalize_email c email) ≡ some user)
            × (c.verify user.password_hash password ≡ false))
      → login c settings d email password user_agent db ≡ (err invalid_credentials, db)
  unfolding login verify_password
  login_rejects settings d email password user_agent db (inl f) = rw (f, login)
  login_rejects settings d email password user_agent db (inr (user, f, v)) = rw (f, login, v)
