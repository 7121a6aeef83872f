-- ===== src/Server/Auth/Mfa.antt =====
-- Multi-factor codes: server/app/core/totp.py, the functions `mfa_...` and `enforce_mfa` of
-- server/app/services/auth_service.py, and `login` and the MFA endpoints of server/app/routers/auth.py. A
-- code has ASCII digits. `b32decode` is base64's, on a secret that the server made, and `hmac_sha1` the
-- digest of 20 bytes.
pub mod Codes
pub mod Rights
use silentguard_xdr.Server.Models.{Json, Db, User, end, concat}
use silentguard_xdr.Server.Exec.{
  Result, ok, err, Exec, http, pure, raise, raise_if, modify, ◌>>=◌, ◌>>◌,
}
use silentguard_xdr.Server.Auth.Settings.{Settings}
use silentguard_xdr.Server.Auth.Login.{World, authenticate}
use silentguard_xdr.Server.Auth.Sessions.{Jwt, Tokens, issue_tokens}
use silentguard_xdr.Server.Auth.OneTime
use silentguard_xdr.Server.Users.{record_change}
use silentguard_xdr.Prelude.{
  ℕ, zero, suc, ◌+◌, ◌-◌, ◌*◌, ◌/◌, ◌%◌, String, Bool, true, false, not, ◌||◌, none, some, List, [],
  ◌∷◌, ◌++◌, if◌then◌else◌, ◌==◌, nat_eq, string_eq, option_eq, list_eq, length, drop, any, all,
}
use silentguard_xdr.Prelude.Text.{Text, is_digit, upper, strip}

-- `PERIOD`
abbrev pub period : ℕ
period = 30

-- `_pad`: up to a multiple of 8
abbrev pub fill : ℕ → Text → Text
fill zero s = s
fill (suc n) s = fill n (s ++ b'=' ∷ [])

unfoldable pub pad : Text → Text
pad secret = fill ((8 - length secret % 8) % 8) secret

-- `struct.pack(">Q", counter)`
unfoldable pub pack_u64 : ℕ → List ℕ
pack_u64 n =
    n / 72057594037927936 % 256
    ∷ n / 281474976710656 % 256
    ∷ n / 1099511627776 % 256
    ∷ n / 4294967296 % 256
    ∷ n / 16777216 % 256
    ∷ n / 65536 % 256
    ∷ n / 256 % 256
    ∷ n % 256
    ∷ []

-- `digest[-1]`
abbrev pub last_byte : List ℕ → ℕ
last_byte [] = 0
last_byte (b ∷ []) = b
last_byte (b ∷ c ∷ bs) = last_byte (c ∷ bs)

-- `struct.unpack(">I", ...)` of the first four bytes, without the sign bit
abbrev pub unpack_u31 : List ℕ → ℕ
unpack_u31 (a ∷ b ∷ c ∷ d ∷ rest) = a % 128 * 16777216 + b * 65536 + c * 256 + d
unpack_u31 bytes = 0

abbrev pub digit : ℕ → ℕ
digit n = b'0' + n % 10

-- `str(n).zfill(6)` of a number below 10 ** 6
abbrev pub zfill : ℕ → Text
zfill n =
    digit (n / 100000)
    ∷ digit (n / 10000)
    ∷ digit (n / 1000)
    ∷ digit (n / 100)
    ∷ digit (n / 10)
    ∷ digit n
    ∷ []

abbrev pub is_digits : Text → Bool
is_digits [] = false
is_digits (c ∷ s) = all is_digit (c ∷ s)

-- the loop of `verify` over the steps from `counter - 1`, of which a negative one is skipped
abbrev pub steps_around : ℕ → List ℕ
steps_around zero = 0 ∷ 1 ∷ []
steps_around (suc n) = n ∷ (n + 1) ∷ (n + 2) ∷ []

-- `user.mfa_secret or ""`
abbrev pub secret_of : User → Text
secret_of user = elim user.mfa_secret [ none ↦ [] | some t ↦ t ]

module _ (b32decode : Text → List ℕ) (hmac_sha1 : List ℕ → List ℕ → List ℕ) where
  -- `_hotp`
  unfoldable pub hotp : Text → ℕ → Text
  unfolding pad pack_u64
  hotp secret counter =
      let digest = hmac_sha1 (b32decode (pad (upper secret))) (pack_u64 counter) in
      let offset = last_byte digest % 16 in zfill (unpack_u31 (drop offset digest) % 1000000)

  -- `totp`
  unfoldable pub totp : Text → ℕ → Text
  unfolding hotp
  totp secret now = hotp secret (now / period)

  -- `verify`
  unfoldable pub verify : Text → Text → ℕ → Bool
  unfolding hotp
  verify secret code now =
      if secret == [] || code == [] || not (is_digits (strip code))
      then false
      else any (λ step. hotp secret step == strip code) (steps_around (now / period))

  -- `mfa_begin_setup`, with the secret that it would draw: the secret that it answers with
  unfoldable pub mfa_begin_setup : User → Text → Db → Text × Db
  mfa_begin_setup user drawn db =
      if secret_of user == [] || user.mfa_enabled
      then (
        drawn,
        OneTime.save user.id (λ u. record u { mfa_secret = some drawn; mfa_enabled = false }) db,
      )
      else (secret_of user, db)

  -- `mfa_activate`
  unfoldable pub mfa_activate : ℕ → User → Text → Exec Db (Unit {0})
  unfolding verify
  mfa_activate now user code = do
    raise_if (secret_of user == []) (http 400 "No MFA setup in progress")
    raise_if (not (verify (secret_of user) code now)) (http 401 "Invalid MFA code")
    modify (OneTime.save user.id (λ u. record u { mfa_enabled = true }))

  -- `mfa_disable`
  unfoldable pub mfa_disable : ℕ → User → Text → Exec Db (Unit {0})
  unfolding verify
  mfa_disable now user code = do
    raise_if (not user.mfa_enabled || secret_of user == []) (http 400 "MFA is not enabled")
    raise_if (not (verify (secret_of user) code now)) (http 401 "Invalid MFA code")
    modify (OneTime.save user.id (λ u. record u { mfa_enabled = false; mfa_secret = none }))

  -- `enforce_mfa`; no code is the empty one
  unfoldable pub enforce_mfa : {S : Type 0} → ℕ → User → Text → Exec S (Unit {0})
  enforce_mfa now user code s =
      if not user.mfa_enabled
      then (ok tt, s)
      else if code == []
      then (err (http 401 "MFA code required"), s)
      else if verify (secret_of user) code now
      then (ok tt, s)
      else (err (http 401 "Invalid MFA code"), s)

  -- a call on the database of the world
  abbrev pub on_db : {A : Type 0} → Exec Db A → Exec World A
  on_db m w = let (r, db) = m w.db in (r, record w { db = db })

  -- `_audit`
  abbrev pub audit_user : ℕ → User → String → Db → Db
  audit_user now user action =
      record_change now (concat "user:" user.id) action (Json.text user.email) end user.org_id

  -- the endpoints `mfa_activate` and `mfa_disable`
  unfoldable pub post_activate : ℕ → User → Text → Exec Db Bool
  post_activate now user code = do
    mfa_activate now user code
    modify (audit_user now user "mfa_enable")
    pure true

  unfoldable pub post_disable : ℕ → User → Text → Exec Db Bool
  post_disable now user code = do
    mfa_disable now user code
    modify (audit_user now user "mfa_disable")
    pure false

  module _ (pbkdf2 : Text → Text → ℕ → Text) (jwt : Jwt) (s : Settings) (now : ℕ) where
    -- `login` behind the checks
    unfoldable pub signed_in : User → String → Exec World Tokens
    signed_in user jti = do
      tokens ← on_db (issue_tokens jwt s now user jti)
      modify (λ w. record w { db = audit_user now user "login" w.db })
      pure tokens

    unfoldable pub finish_login : User → Text → String → Exec World Tokens
    finish_login user code jti = do enforce_mfa now user code; signed_in user jti

    -- `login`; `jti` is the id drawn for the session
    unfoldable pub login : Text → Text → Text → Text → String → Exec World Tokens
    login email password code client_key jti = do
      user ← authenticate pbkdf2 s now email password client_key
      finish_login user code jti
