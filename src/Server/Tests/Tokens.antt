-- ===== src/Server/Tests/Tokens.antt =====
-- The theorems on sessions and single-use tokens at samples.
use silentguard_xdr.Server.Tests.{toy_digest, ann}
use silentguard_xdr.Server.Models.{Db, User, RefreshToken, empty_db}
use silentguard_xdr.Server.Exec.{ok, HttpError, lit, nat}
use silentguard_xdr.Server.Auth.Settings.{default_settings}
use silentguard_xdr.Server.Auth.Sessions.{
  Claims, Tokens, Jwt, get_session, session_row, refresh_tokens,
}
use silentguard_xdr.Server.Auth.Sessions.Rotation.{refresh_tokens_sound, refresh_token_serves_once}
use silentguard_xdr.Server.Auth.OneTime.Redeem.{
  redeem_all, redeem, token_serves_once, resetting, verifying,
}
use silentguard_xdr.Prelude.{
  ℕ, ◌<◌, ◌≡◌, refl, ◌≢◌, true, false, none, some, [], ◌∷◌, ◌++◌, arith, if◌then◌else◌, ◌==◌,
  nat_eq, string_eq, option_eq, list_eq,
}
use silentguard_xdr.Prelude.Table.{find, update}
use silentguard_xdr.Prelude.Text.{Text, codes}

abbrev session_claims : Claims
session_claims = record {
  sub = "u1";
  role = "";
  kind = "refresh";
  jti = "s1";
  iat = 1;
  exp = 1000;
  email = [];
}

-- tokens that are the ids of their sessions
abbrev toy_jwt : Jwt
toy_jwt = record {
  encode = λ claims. claims.jti;
  decode = λ token. if token == "s1" then some session_claims else none;
}

abbrev with_session : Db
with_session = record empty_db {
  users = ann ∷ [];
  refresh_tokens = session_row toy_jwt default_settings 1 ann "s1" ∷ [];
}

abbrev new_tokens : Tokens
new_tokens = record {
  access_token = "";
  refresh_token = "s2";
  token_type = "bearer";
  expires_in = 900;
}

refresh_tokens_sound_example :
    (claims : Claims) × (t : RefreshToken) × (user : User) × (toy_jwt.decode "s1" ≡ some claims)
    × (claims.kind ≡ "refresh")
    × (get_session claims.jti with_session ≡ some t)
    × (t.revoked ≡ false)
    × (10 < t.expires_at)
    × (find (λ u. u.id == claims.sub) with_session.users ≡ some user)
    × (user.is_active ≡ true)
    × ((refresh_tokens toy_jwt default_settings 10 "s1" "s2" with_session).1.refresh_tokens
        ≡ update
            (λ r. r.jti == t.jti)
            (λ r. record r { revoked = true })
            with_session.refresh_tokens
          ++ session_row toy_jwt default_settings 10 user "s2" ∷ [])
unfolding refresh_tokens
refresh_tokens_sound_example =
    refresh_tokens_sound toy_jwt default_settings 10 "s1" "s2" with_session new_tokens refl

refresh_token_serves_once_example :
    (refresh_tokens toy_jwt default_settings 20 "s1" "s3"
      (refresh_tokens toy_jwt default_settings 10 "s1" "s2" with_session).1).0
    ≢ ok new_tokens
unfolding refresh_tokens
refresh_token_serves_once_example =
    refresh_token_serves_once toy_jwt default_settings 10 20 "s1" "s2" "s3" with_session new_tokens
      refl new_tokens

abbrev with_user : Db
with_user = record empty_db { users = ann ∷ [] }

abbrev with_token : Db
with_token = record with_user {
  user_tokens =
      record {
        id = 1;
        user_id = "u1";
        purpose = "password_reset";
        token_hash = "t1";
        expires_at = 100;
        used_at = none;
        created_at = 1;
      }
      ∷ [];
}

abbrev long_password : Text
long_password = codes "Correct-horse-12"

abbrev same_hash : Text → Text → ℕ → Text
same_hash salt password rounds = password

-- a reset, a wrong token in between, and the same token again
token_serves_once_example :
    (redeem toy_digest same_hash default_settings 20 (resetting (codes "s2") long_password) "t1" (
      redeem_all toy_digest same_hash default_settings
        ((15, verifying, "t9") ∷ [])
        (redeem toy_digest same_hash default_settings 10
          (resetting (codes "s1") long_password)
          "t1"
          with_token).1)).0
    ≡ false
unfolding redeem silentguard_xdr.Server.Auth.Password.validate_password
    silentguard_xdr.Prelude.Text.lower silentguard_xdr.Prelude.Text.upper
    silentguard_xdr.Prelude.Text.is_alpha_text silentguard_xdr.Server.Auth.OneTime.consume_token
token_serves_once_example =
    token_serves_once toy_digest same_hash default_settings 10 20
      (resetting (codes "s1") long_password) (resetting (codes "s2") long_password) "t1"
      ((15, verifying, "t9") ∷ []) with_token refl (omega arith) refl

abbrev too_short : HttpError
too_short = record {
  status_code = 400;
  detail = lit "Password must be at least " ∷ nat 12 ∷ lit " characters" ∷ [];
}
