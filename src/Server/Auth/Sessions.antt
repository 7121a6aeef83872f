-- ===== src/Server/Auth/Sessions.antt =====
-- Access and refresh tokens: `decode_token` and the token makers of server/app/core/security.py, and
-- `issue_tokens`, `refresh_tokens` and `revoke_refresh_token` of server/app/services/auth_service.py.
-- `encode` and `decode` are the JWT library's, with the secret of the settings; `decode` checks the
-- signature, and the expiry is checked here as that library does.
pub mod Rotation
use silentguard_xdr.Server.Models.{Db, User, RefreshToken}
use silentguard_xdr.Server.Exec.{
  Result, ok, err, Exec, HttpError, http, pure, raise, or_raise, gets, modify, ◌>>=◌, ◌>>◌,
}
use silentguard_xdr.Server.Auth.Settings.{Settings}
use silentguard_xdr.Prelude.{
  ℕ, ◌+◌, String, true, false, Option, none, some, [], ◌∷◌, ◌++◌, leb, if◌then◌else◌, ◌==◌, nat_eq,
  string_eq, option_eq, list_eq,
}
use silentguard_xdr.Prelude.Table.{find, update}
use silentguard_xdr.Prelude.Text.{Text}

-- The claims of a token. `extra` of an access token is the email; `jti` is empty in it.
pub record Claims : Type 0 where
  pub sub : String
  pub role : String
  pub kind : String
  pub jti : String
  pub iat : ℕ
  pub exp : ℕ
  pub email : Text

pub record Tokens : Type 0 where
  pub access_token : String
  pub refresh_token : String
  pub token_type : String
  pub expires_in : ℕ

-- The JWT library's two functions.
pub record Jwt : Type 0 where
  pub encode : Claims → String
  pub decode : String → Option Claims

-- `db.get(RefreshToken, jti)`
unfoldable pub get_session : String → Db → Option RefreshToken
get_session jti db = find (λ t. t.jti == jti) db.refresh_tokens

-- `record.revoked = True`
abbrev pub revoke : String → Db → Db
revoke jti db = record db {
  refresh_tokens = update (λ t. t.jti == jti) (λ t. record t { revoked = true }) db.refresh_tokens;
}

-- the check of the user that a token names
unfoldable pub check_active : Option User → Exec Db User
check_active none = raise (http 401 "User is no longer active")
check_active (some user) =
    if user.is_active then pure user else raise (http 401 "User is no longer active")

module _ (jwt : Jwt) (s : Settings) (now : ℕ) where
  open jwt use {encode, decode}

  -- `decode_token(token, expected_type)`; none is `TokenError`
  unfoldable pub decode_token : String → String → Option Claims
  decode_token token expected_type = elim (decode token) [
    | none ↦ none
    | some claims ↦
        if leb claims.exp now
        then none
        else if claims.kind == expected_type
        then some claims
        else none
  ]

  -- `create_access_token`
  unfoldable pub create_access_token : User → String
  create_access_token user = encode (record {
    sub = user.id;
    role = user.role;
    kind = "access";
    jti = "";
    iat = now;
    exp = now + s.access_token_ttl_seconds;
    email = user.email;
  })

  abbrev pub refresh_claims : User → String → Claims
  refresh_claims user jti = record {
    sub = user.id;
    role = "";
    kind = "refresh";
    jti = jti;
    iat = now;
    exp = now + s.refresh_token_ttl_seconds;
    email = [];
  }

  -- `create_refresh_token`, with the id that it drew
  unfoldable pub create_refresh_token : User → String → String
  create_refresh_token user jti = encode (refresh_claims user jti)

  abbrev pub session_row : User → String → RefreshToken
  session_row user jti = record {
    jti = jti;
    user_id = user.id;
    expires_at = now + s.refresh_token_ttl_seconds;
    revoked = false;
    created_at = now;
  }

  -- `issue_tokens`
  unfoldable pub issue_tokens : User → String → Exec Db Tokens
  unfolding create_access_token create_refresh_token
  issue_tokens user jti = do
    modify (λ db. record db { refresh_tokens = db.refresh_tokens ++ session_row user jti ∷ [] })
    pure (record {
      access_token = create_access_token user;
      refresh_token = create_refresh_token user jti;
      token_type = "bearer";
      expires_in = s.access_token_ttl_seconds;
    })

  -- the checks of `refresh_tokens` on the stored session, `record is None or record.revoked` first
  unfoldable pub check_session : Option RefreshToken → Exec Db RefreshToken
  check_session none = raise (http 401 "Refresh token is not recognized")
  check_session (some t) =
      if t.revoked
      then raise (http 401 "Refresh token is not recognized")
      else if leb t.expires_at now
      then raise (http 401 "Refresh token has expired")
      else pure t

  -- `refresh_tokens`; `fresh` is the id drawn for the new session
  unfoldable pub refresh_tokens : String → String → Exec Db Tokens
  unfolding decode_token check_session check_active issue_tokens get_session
  refresh_tokens token fresh = do
    claims ← or_raise (decode_token token "refresh") (http 401 "Invalid refresh token")
    found ← gets (get_session claims.jti)
    session ← check_session found
    owner ← gets (λ db. find (λ u. u.id == claims.sub) db.users)
    user ← check_active owner
    modify (revoke session.jti)
    issue_tokens user fresh

  -- `revoke_refresh_token`: the logout
  unfoldable pub revoke_refresh_token : String → Exec Db (Unit {0})
  unfolding decode_token get_session
  revoke_refresh_token token db = elim (decode_token token "refresh") [
    | none ↦ (ok tt, db)
    | some claims ↦ elim (get_session claims.jti db) [
      | none ↦ (ok tt, db)
      | some session ↦ if session.revoked then (ok tt, db) else (ok tt, revoke session.jti db)
    ]
  ]
