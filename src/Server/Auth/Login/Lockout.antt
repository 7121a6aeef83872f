-- ===== src/Server/Auth/Login/Lockout.antt =====
-- Who gets in, and when an account locks.
use silentguard_xdr.Server.Models.{User}
use silentguard_xdr.Server.Exec.{ok}
use silentguard_xdr.Server.Auth.Settings.{Settings}
use silentguard_xdr.Server.Auth.Password.{verify_password}
use silentguard_xdr.Server.Auth.Login.{
  World, is_locked, record_failure, record_success, check_rate, find_user, authenticate,
}
use silentguard_xdr.Prelude.{
  ℕ, ◌+◌, ◌≤◌, ◌<◌, ◌≡◌, refl, ap, ◌≢◌, ◌↔◌, inl, inr, true, false, Option, some, List, [], ◌∷◌,
  ◌++◌, arith, if◌then◌else◌, ◌==◌, nat_eq, string_eq, option_eq, list_eq, beq_refl, Option-cases,
  length,
}
use silentguard_xdr.Prelude.Table.{update, find-update}
use silentguard_xdr.Prelude.Text.{Text, lower, strip}

-- A wrong password leaves fewer failures on the account than the maximum, and one that reaches the
-- maximum locks it for the lockout time.
pub record_failure_bound :
    (s : Settings) (now : ℕ) (u : User)
    → 0 < s.login_max_attempts
    → (record_failure s now u).failed_login_count < s.login_max_attempts
unfolding record_failure
record_failure_bound s now u h = ground arith

record_failure-count :
    (s : Settings) (now : ℕ) (u : User)
    → u.failed_login_count + 1 < s.login_max_attempts
    → (record_failure s now u).failed_login_count ≡ u.failed_login_count + 1
unfolding record_failure
record_failure-count s now u h = ground arith

record_failure-locks :
    (s : Settings) (now : ℕ) (u : User)
    → s.login_max_attempts ≤ u.failed_login_count + 1
    → ((record_failure s now u).locked_until ≡ some (now + s.login_lockout_seconds))
      × ((record_failure s now u).failed_login_count ≡ 0)
unfolding record_failure
record_failure-locks s now u h = ground arith

-- Wrong passwords at the given times, one after the other.
pub failures : Settings → List ℕ → User → User
failures s [] u = u
failures s (now ∷ times) u = failures s times (record_failure s now u)

failures-count :
    (s : Settings) (times : List ℕ) (u : User)
    → u.failed_login_count + length times < s.login_max_attempts
    → (failures s times u).failed_login_count ≡ u.failed_login_count + length times
unfolding failures
failures-count s [] u h = omega arith
failures-count s (now ∷ times) u h =
    let e = record_failure-count s now u (omega arith) in
    omega (arith, e, failures-count s times (record_failure s now u) (omega (arith, e)))

failures-append :
    (s : Settings) (times : List ℕ) (now : ℕ) (u : User)
    → failures s (times ++ now ∷ []) u ≡ record_failure s now (failures s times u)
unfolding failures
failures-append s [] now u = refl
failures-append s (t ∷ times) now u = failures-append s times now (record_failure s t u)

-- From an account with no failures, as many wrong passwords as the maximum, and no fewer, lock it:
-- until the last one the count is their number, and at the last one the account is locked from then
-- on for the lockout time and the count starts anew.
pub lockout_at_max :
    (s : Settings) (times : List ℕ) (now : ℕ) (u : User)
    → u.failed_login_count ≡ 0
    → length times + 1 ≡ s.login_max_attempts
    → ((failures s times u).failed_login_count ≡ length times)
      × ((failures s (times ++ now ∷ []) u).locked_until ≡ some (now + s.login_lockout_seconds))
      × ((failures s (times ++ now ∷ []) u).failed_login_count ≡ 0)
lockout_at_max s times now u z m =
    let e : (failures s times u).failed_login_count ≡ length times =
      omega (arith, failures-count s times u (omega arith)) in
    (
      e,
      rw failures-append (record_failure-locks s now (failures s times u) (omega (arith, e))).0,
      rw failures-append (record_failure-locks s now (failures s times u) (omega (arith, e))).1,
    )

module _ (pbkdf2 : Text → Text → ℕ → Text) (s : Settings) (now : ℕ) where
  -- a wrong password stores the failure in the row of the user
  users-wrong_password :
      (email wrong key : Text) (w : World) (user : User)
      → (check_rate s now (if key == [] then email else key) w).0 ≡ false
      → find_user email w.db.users ≡ some user
      → user.is_active ≡ true
      → is_locked now user ≡ false
      → verify_password pbkdf2 wrong user.hashed_password ≡ false
      → (authenticate pbkdf2 s now email wrong key w).1.db.users
        ≡ update (λ u. u.id == user.id) (record_failure s now) w.db.users
  unfolding authenticate check_rate
  users-wrong_password email wrong key w user free found active unlocked bad = ground arith

  -- The call returns a user exactly if the rate limit lets it through, and the user that the
  -- normalised address names is active, not locked at that time, and has that password; what is
  -- returned is that user with its failures and its lock cleared and the login recorded.
  pub authenticate_iff :
      (email password key : Text) (w : World) (u : User)
      → (authenticate pbkdf2 s now email password key w).0 ≡ ok u ↔ (
          ((check_rate s now (if key == [] then email else key) w).0 ≡ false)
          × (((user : User) × (find_user email w.db.users ≡ some user)
              × (user.is_active ≡ true)
              × (is_locked now user ≡ false)
              × (verify_password pbkdf2 password user.hashed_password ≡ true)
              × (u ≡ record_success now user))))
  unfolding authenticate check_rate
  authenticate_iff email password key w u =
      let k : Text = if key == [] then email else key in
      let lookup : Option User = find_user email w.db.users in
      (
        λ h. elim (Option-cases lookup) [
          | inl unknown ↦ absurd (ground arith)
          | inr (user, found) ↦
              (ground arith, (user, found, ground arith, ground arith, ground arith, ground arith))
        ],
        λ (free, (user, found, active, open_, right, e)). ground arith,
      )

-- the row of the user that an address names, after an assignment that keeps the address
find_user-save :
    (email : Text) (f : User → User) (users : List User) (user : User)
    → ((u : User) → (f u).email ≡ u.email)
    → find_user email users ≡ some user
    → find_user email (update (λ u. u.id == user.id) f users) ≡ some (f user)
unfolding find_user
find_user-save email f users user keep found = rw (
  find-update (λ u. u.email == lower (strip email)) (λ u. u.id == user.id) f users
      (λ u. ap (λ e. e == lower (strip email)) (keep u)) found,
  beq_refl user.id,
)

email-record_failure :
    (s : Settings) (now : ℕ) (u : User) → (record_failure s now u).email ≡ u.email
unfolding record_failure
email-record_failure s now u = ground arith

is_locked-until :
    (t until : ℕ) (u : User) → u.locked_until ≡ some until → t < until → is_locked t u ≡ true
unfolding is_locked
is_locked-until t until u e h = ground arith

-- A wrong password that reaches the maximum shuts the account: until the lockout time has passed,
-- no login with its address succeeds, with whatever password and from whatever client.
pub locked_out_until :
    (pbkdf2 : Text → Text → ℕ → Text) (s : Settings) (now later : ℕ)
    (email wrong key password other_key : Text) (w : World) (user : User)
    → (check_rate s now (if key == [] then email else key) w).0 ≡ false
    → find_user email w.db.users ≡ some user
    → user.is_active ≡ true
    → is_locked now user ≡ false
    → verify_password pbkdf2 wrong user.hashed_password ≡ false
    → s.login_max_attempts ≤ user.failed_login_count + 1
    → later < now + s.login_lockout_seconds
    → let w' = (authenticate pbkdf2 s now email wrong key w).1 in
      (u : User) → (authenticate pbkdf2 s later email password other_key w').0 ≢ ok u
locked_out_until pbkdf2 s now later email wrong key password other_key w user free found active
      unlocked bad reached before u h =
    let w' = (authenticate pbkdf2 s now email wrong key w).1 in
    let f = record_failure s now in
    let stored =
      users-wrong_password pbkdf2 s now email wrong key w user free found active unlocked bad in
    let there : find_user email w'.db.users ≡ some (f user) =
      rw stored (find_user-save email f w.db.users user (email-record_failure s now) found) in
    let (_, (user', found', _, open_, _, _)) =
      (authenticate_iff pbkdf2 s later email password other_key w' u).0 h in
    let locked =
      is_locked-until later (now + s.login_lockout_seconds) (f user)
        (record_failure-locks s now user reached).0 before in
    cc (there, found', open_, locked)
