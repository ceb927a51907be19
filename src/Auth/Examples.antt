-- ===== src/Auth/Examples.antt =====
-- A small account database, and the statements about sessions and accounts at it.
use atlas_knowledge.Common.{
  ◌≤◌, ◌≡◌, refl, ◌↔◌, ◌≢◌, Bool, true, false, [], ◌∷◌, ◌++◌, none, some, Text, codes, text_eq,
  text_eq_refl, ok, err, arith, strip,
}
use atlas_knowledge.Errors.{invalid_refresh_token}
use atlas_knowledge.Auth.Tables.{
  User, RefreshToken, Db, get_by_email, get_by_hash, revoke_family, replace_token,
}
use atlas_knowledge.Auth.Service.{
  Crypto, default_settings, Draws, IssuedTokens, new_token, issued_tokens, normalize_email,
  register, login, refresh,
}
use atlas_knowledge.Auth.Accounts.{UniqueEmails, Registers, register-UniqueEmails, login-register}
use atlas_knowledge.Auth.Sessions.{OneLive, count_live}
use atlas_knowledge.Auth.Steps.{here, next, refreshes, Reach-OneLive}
use atlas_knowledge.Auth.Rotation.{Rotated, refresh_iff}
use atlas_knowledge.Auth.Replay.{refresh_replay}

abbrev verify_tail : Text → Text → Bool
verify_tail [] p = false
verify_tail (salt ∷ h) p = text_eq h p

abbrev crypto : Crypto
crypto = record {
  lower = λ s. s;
  hash = λ salt p. salt ∷ p;
  verify = verify_tail;
  needs_rehash = λ h. false;
  sha256 = λ s. s;
  access_token = λ user role now jti. user ∷ now ∷ jti ∷ [];
}

abbrev alice : User
alice = record {
  id = 1;
  email = b'a' ∷ [];
  password_hash = 9 ∷ b'p' ∷ [];
  role = codes "user";
  is_active = true;
}

abbrev first_plain : Text
first_plain = b'1' ∷ []

abbrev first_token : RefreshToken
first_token = record {
  id = 1;
  user_id = 1;
  family_id = 7;
  token_hash = first_plain;
  expires_at = 1000000000;
  revoked_at = none;
  replaced_by = none;
  user_agent = none;
}

abbrev start : Db
start = record { users = alice ∷ []; tokens = first_token ∷ [] }

abbrev draws : Draws
draws = record {
  now = 10;
  salt = 3;
  user_id = 2;
  family_id = 8;
  token_id = 2;
  jti = 4;
  refresh_plain = b'2' ∷ [];
}

-- Two minutes later.
abbrev later : Draws
later = record {
  now = 120000010;
  salt = 5;
  user_id = 3;
  family_id = 9;
  token_id = 3;
  jti = 6;
  refresh_plain = b'3' ∷ [];
}

abbrev issued : IssuedTokens
issued = issued_tokens crypto default_settings draws alice

abbrev rotated : Db
rotated = record start {
  tokens =
      replace_token 1 10 2 (start.tokens ++ new_token crypto default_settings draws 1 7 none ∷ []);
}

known : get_by_hash start first_plain ≡ some first_token
unfolding text_eq
known = refl

in_time : 10 ≤ 1000000000
in_time = omega arith

abbrev rotation : Rotated crypto default_settings draws first_plain none start rotated issued
rotation = record {
  row = first_token;
  user = alice;
  found = known;
  in_time = in_time;
  live = refl;
  owner = refl;
  active = refl;
  tokens = refl;
  written = refl;
}

start-OneLive : OneLive start
unfolding count_live
start-OneLive f = ground arith

Reach-OneLive_example :
    count_live 7 (refresh crypto default_settings draws first_plain none start).1.tokens ≤ 1
Reach-OneLive_example =
    Reach-OneLive crypto default_settings start-OneLive
      (next here (refreshes draws first_plain none)) 7

refresh_iff_example :
    (refresh crypto default_settings draws first_plain none start ≡ (ok issued, rotated))
    ↔ Rotated crypto default_settings draws first_plain none start rotated issued
refresh_iff_example =
    refresh_iff crypto default_settings draws first_plain none start issued rotated

refresh_replay_example :
    (refresh crypto default_settings later first_plain none rotated ≡ (
      err invalid_refresh_token,
      record rotated { tokens = revoke_family 7 120000010 rotated.tokens },
    ))
    × (count_live 7 (revoke_family 7 120000010 rotated.tokens) ≡ 0)
refresh_replay_example =
    refresh_replay crypto default_settings draws later first_plain none none start rotated issued
      rotation (omega arith)

two≢one : draws.token_id ≢ first_token.id
two≢one e = omega (arith, e)

unknown : get_by_hash start (b'2' ∷ []) ≡ none
unfolding text_eq
unknown = refl

register-UniqueEmails_example :
    UniqueEmails (register crypto draws (λ s. s) (b'b' ∷ []) (b'q' ∷ []) start).1.users
    × Registers crypto draws
        (λ s. s)
        (normalize_email crypto (b'b' ∷ []))
        (b'q' ∷ [])
        start
        (register crypto draws (λ s. s) (b'b' ∷ []) (b'q' ∷ []) start)
register-UniqueEmails_example =
    register-UniqueEmails crypto draws (λ s. s) (b'b' ∷ []) (b'q' ∷ []) start (tt, tt) (tt, tt)

absent : get_by_email start (normalize_email crypto (b'b' ∷ [])) ≡ none
unfolding text_eq normalize_email strip
absent = refl

same_address : normalize_email crypto (b' ' ∷ b'b' ∷ []) ≡ normalize_email crypto (b'b' ∷ [])
unfolding normalize_email strip
same_address = refl

login-register_example :
    (tokens : IssuedTokens) × ((login crypto default_settings later
        (b' ' ∷ b'b' ∷ [])
        (b'q' ∷ [])
        none
        (register crypto draws (λ s. s) (b'b' ∷ []) (b'q' ∷ []) start).1).0
      ≡ ok tokens)
    × (tokens.user.id ≡ 2)
    × (tokens.refresh_token ≡ b'3' ∷ [])
login-register_example =
    login-register crypto default_settings draws later (b'b' ∷ []) (b' ' ∷ b'b' ∷ []) (b'q' ∷ [])
      none start (λ salt p. text_eq_refl p) absent same_address
