-- ===== src/Server/Auth/Login.antt =====
-- `authenticate` of server/app/services/auth_service.py. Every call of the clock in one request reads
-- the same time `now`.
pub mod Lockout
use silentguard_xdr.Server.Models.{Db, User}
use silentguard_xdr.Server.Exec.{
  Result, ok, err, Exec, http, pure, raise, raise_if, gets, modify, ◌>>=◌, ◌>>◌,
}
use silentguard_xdr.Server.Auth.Settings.{Settings}
use silentguard_xdr.Server.Auth.RateLimit.{Attempts, rate_limited}
use silentguard_xdr.Server.Auth.Password.{verify_password}
use silentguard_xdr.Prelude.{
  ℕ, ◌+◌, Bool, false, not, Option, none, some, List, [], ltb, leb, if◌then◌else◌, ◌==◌, nat_eq,
  string_eq, option_eq, list_eq,
}
use silentguard_xdr.Prelude.Table.{find, update}
use silentguard_xdr.Prelude.Text.{Text, lower, strip}

-- The database, and the memory of the process that serves the request.
pub record World : Type 0 where
  pub db : Db
  pub attempts : Attempts

abbrev pub set_users : (List User → List User) → World → World
set_users f w = record w { db = record w.db { users = f w.db.users } }

-- an assignment to the attributes of a loaded user
abbrev pub save_user : User → (User → User) → World → World
save_user user f = set_users (update (λ u. u.id == user.id) f)

-- `user.locked_until and aware_utc(user.locked_until) > now`
unfoldable pub is_locked : ℕ → User → Bool
is_locked now user = elim user.locked_until [ none ↦ false | some t ↦ ltb now t ]

-- what a wrong password does to the row
unfoldable pub record_failure : Settings → ℕ → User → User
record_failure s now user =
    let failed = user.failed_login_count + 1 in
    if leb s.login_max_attempts failed
    then record user { failed_login_count = 0; locked_until = some (now + s.login_lockout_seconds) }
    else record user { failed_login_count = failed }

-- what the right password does to the row
unfoldable pub record_success : ℕ → User → User
record_success now user = record user {
  failed_login_count = 0;
  locked_until = none;
  last_login_at = some now;
}

-- `_rate_limited(key)` as a step
unfoldable pub check_rate : Settings → ℕ → Text → World → Bool × World
unfolding rate_limited
check_rate s now key w =
    let (refused, attempts) =
      rate_limited s.login_rate_limit s.login_rate_window_seconds now key w.attempts in
    (refused, record w { attempts = attempts })

-- `db.query(User).filter(User.email == email.strip().lower()).first()`
unfoldable pub find_user : Text → List User → Option User
find_user email users = find (λ u. u.email == lower (strip email)) users

module _ (pbkdf2 : Text → Text → ℕ → Text) (s : Settings) (now : ℕ) where
  -- the part of `authenticate` after the query for the user
  unfoldable pub check_user : Text → Option User → Exec World User
  check_user password none = raise (http 401 "Invalid credentials")
  check_user password (some user) =
      if not user.is_active
      then raise (http 403 "Account is disabled")
      else if is_locked now user
      then raise (http 423 "Account is temporarily locked")
      else if verify_password pbkdf2 password user.hashed_password
      then (do modify (save_user user (record_success now)); pure (record_success now user))
      else (do
        modify (save_user user (record_failure s now))
        raise (http 401 "Invalid credentials"))

  unfoldable pub authenticate : Text → Text → Text → Exec World User
  unfolding check_user
  authenticate email password client_key w =
      let (limited, w') = check_rate s now (if client_key == [] then email else client_key) w in
      (do
        raise_if limited (http 429 "Too many login attempts; slow down")
        found ← gets (λ v. find_user email v.db.users)
        check_user password found)
        w'
