-- ===== src/Server/Auth/OneTime.antt =====
-- Accounts and their single-use tokens: `create_user`, `invite_member`, `accept_invite`, the email
-- verification and the password reset of server/app/services/auth_service.py. What the code draws at
-- random (a token, a salt, an id) is an argument; `digest` is `_hash_token`, the SHA-256 of a token.
-- The use of a token is written by the commit of the call that consumed it: `_consume_token` gives what
-- that commit will write, and a call that raises or returns before its commit writes nothing. Sending
-- the mail is left out.
pub mod SingleUse
pub mod Reset
pub mod Redeem
use silentguard_xdr.Server.Models.{Db, User, UserToken, RefreshToken}
use silentguard_xdr.Server.Exec.{
  Result, ok, err, Exec, HttpError, http, lit, pure, raise, raise_if, or_raise, gets, modify,
  atomic, ◌>>=◌, ◌>>◌,
}
use silentguard_xdr.Server.Access.{parse_role}
use silentguard_xdr.Server.Auth.Settings.{Settings}
use silentguard_xdr.Server.Auth.Password.{validate_password, hash_password}
use silentguard_xdr.Prelude.{
  ℕ, ◌+◌, ◌*◌, String, Bool, true, false, not, ◌&&◌, Option, none, some, List, [], ◌∷◌, ◌++◌, leb,
  if◌then◌else◌, ◌==◌, nat_eq, string_eq, option_eq, list_eq,
}
use silentguard_xdr.Prelude.Table.{find, update}
use silentguard_xdr.Prelude.Text.{Text, lower, strip}

abbrev pub is_none {ℓ} : {A : Type ℓ} → Option A → Bool
is_none none = true
is_none (some a) = false

-- the filter of `_consume_token`
abbrev pub is_open : String → String → UserToken → Bool
is_open token_hash purpose t =
    t.token_hash == token_hash && t.purpose == purpose && is_none t.used_at

-- the filter of `_issue_token`
abbrev pub is_outstanding : String → String → UserToken → Bool
is_outstanding user_id purpose t = t.user_id == user_id && t.purpose == purpose && is_none t.used_at

abbrev pub mark_used : ℕ → UserToken → UserToken
mark_used now t = record t { used_at = some now }

abbrev pub save : String → (User → User) → Db → Db
save id f db = record db { users = update (λ u. u.id == id) f db.users }

-- `if some_error is raised`
abbrev pub check : {S : Type 0} → Option HttpError → Exec S (Unit {0})
check none = pure tt
check (some e) = raise e

abbrev pub known_role : String → Bool
known_role role = not (is_none (parse_role role))

abbrev pub unknown_role : String → HttpError
unknown_role role = record {
  status_code = 400;
  detail = lit "Unknown role '" ∷ lit role ∷ lit "'" ∷ [];
}

abbrev pub reset_row : (Text → Text → ℕ → Text) → Text → Text → User → User
reset_row pbkdf2 salt password u = record u {
  hashed_password = hash_password pbkdf2 salt password;
  failed_login_count = 0;
  locked_until = none;
}

abbrev pub invited_row : (Text → Text → ℕ → Text) → Text → Text → User → User
invited_row pbkdf2 salt password u = record u {
  hashed_password = hash_password pbkdf2 salt password;
  is_active = true;
  email_verified = true;
}

abbrev pub revoke_all : String → List RefreshToken → List RefreshToken
revoke_all user_id =
    update (λ r. r.user_id == user_id && not r.revoked) (λ r. record r { revoked = true })

module _ (digest : String → String) (now : ℕ) where
  abbrev pub token_row : ℕ → String → String → ℕ → String → UserToken
  token_row id user_id purpose ttl_seconds raw = record {
    id = id;
    user_id = user_id;
    purpose = purpose;
    token_hash = digest raw;
    expires_at = now + ttl_seconds;
    used_at = none;
    created_at = now;
  }

  -- `_issue_token`, with the token that it drew
  unfoldable pub issue_token : User → String → ℕ → String → Db → Db
  issue_token user purpose ttl_seconds raw db = record db {
    user_tokens =
        update (is_outstanding user.id purpose) (mark_used now) db.user_tokens
        ++ token_row db.next_id user.id purpose ttl_seconds raw ∷ [];
    next_id = db.next_id + 1;
  }

  -- the user of a token, and what the use of the token changes when it is committed
  abbrev pub Consumed : Type 0
  Consumed = Option User × (Db → Db)

  abbrev pub use_row : UserToken → Db → Db
  use_row row db = record db {
    user_tokens = update (λ t. t.id == row.id) (mark_used now) db.user_tokens;
  }

  -- what `_consume_token` does with the row that it found
  unfoldable pub consume_row : Option UserToken → Db → Consumed
  consume_row none db = (none, λ t. t)
  consume_row (some row) db =
      if leb row.expires_at now
      then (none, λ t. t)
      else (find (λ u. u.id == row.user_id) db.users, use_row row)

  -- `_consume_token`
  unfoldable pub consume_token : String → String → Db → Consumed
  unfolding consume_row
  consume_token raw purpose db = consume_row (find (is_open (digest raw) purpose) db.user_tokens) db

  -- `verify_email`: the session commits only where a user was found
  unfoldable pub verify_email : String → Db → Bool × Db
  verify_email raw db =
      let (found, used) = consume_token raw "email_verify" db in
      elim found [
        | none ↦ (false, db)
        | some user ↦ (true, save user.id (λ u. record u { email_verified = true }) (used db))
      ]

  -- `request_email_verification`
  unfoldable pub request_email_verification : Settings → User → String → Db → Db
  request_email_verification s user = issue_token user "email_verify" s.verify_token_ttl_seconds

  -- `request_password_reset`: none if the address is unknown
  unfoldable pub request_password_reset : Settings → Text → String → Db → Option String × Db
  request_password_reset s email raw db =
      elim (find (λ u. u.email == lower (strip email)) db.users) [
        | none ↦ (none, db)
        | some user ↦ (some raw, issue_token user "password_reset" s.reset_token_ttl_seconds raw db)
      ]

  module _ (pbkdf2 : Text → Text → ℕ → Text) (s : Settings) where
    abbrev pub finish_reset : Text → Text → Consumed → Exec Db Bool
    finish_reset salt password (none, used) = pure false
    finish_reset salt password (some user, used) = do
      modify used
      modify (save user.id (reset_row pbkdf2 salt password))
      modify (λ db. record db { refresh_tokens = revoke_all user.id db.refresh_tokens })
      pure true

    -- `reset_password`; a token that names no user is not committed as used
    unfoldable pub reset_password : String → Text → Text → Exec Db Bool
    reset_password raw salt new_password = do
      check (validate_password s new_password)
      found ← gets (consume_token raw "password_reset")
      finish_reset salt new_password found

    -- `accept_invite`: a refused password leaves the invitation unused, as nothing is committed
    unfoldable pub accept_invite : String → Text → Text → Exec Db User
    accept_invite raw salt password = do
      found ← gets (consume_token raw "invite")
      user ← or_raise found.0 (http 400 "Invalid or expired invitation")
      check (validate_password s password)
      modify found.1
      modify (save user.id (invited_row pbkdf2 salt password))
      pure (invited_row pbkdf2 salt password user)

    abbrev pub new_user : String → String → Text → Text → Text → String → User
    new_user id org_id email salt password role = record {
      id = id;
      org_id = some org_id;
      email = email;
      hashed_password = hash_password pbkdf2 salt password;
      role = role;
      is_active = true;
      email_verified = false;
      mfa_enabled = false;
      mfa_secret = none;
      failed_login_count = 0;
      locked_until = none;
      last_login_at = none;
      created_at = now;
    }

    abbrev pub email_taken : Text → Db → Bool
    email_taken email db = not (is_none (find (λ u. u.email == email) db.users))

    -- `create_user`
    unfoldable pub create_user : String → Text → Text → Text → String → String → Exec Db User
    create_user id email salt password role org_id = do
      let address = lower (strip email)
      taken ← gets (email_taken address)
      raise_if taken (http 409 "A user with that email already exists")
      raise_if (not (known_role role)) (unknown_role role)
      check (validate_password s password)
      let user = new_user id org_id address salt password role
      modify (λ db. record db { users = db.users ++ user ∷ [] })
      pure user

    -- `invite_member`, with the password and the invitation that it drew
    unfoldable pub invite_member :
        String → String → Text → String → Text → Text → String → Exec Db (User × String)
    invite_member id org_id email role salt drawn raw = do
      let address = lower (strip email)
      raise_if (not (known_role role)) (unknown_role role)
      taken ← gets (email_taken address)
      raise_if taken (http 409 "A user with that email already exists")
      let user = record (new_user id org_id address salt drawn role) { is_active = false }
      modify (λ db. record db { users = db.users ++ user ∷ [] })
      modify (issue_token user "invite" (7 * 86400) raw)
      pure (user, raw)
