-- ===== src/Server/Auth/Mfa/Rights.antt =====
-- Who gets in with a password, and who with a code as well.
use mathlib.Core.Path.{subst}
use silentguard_xdr.Server.Models.{Db, User}
use silentguard_xdr.Server.Exec.{Result, ok, err}
use silentguard_xdr.Server.Auth.Settings.{Settings}
use silentguard_xdr.Server.Auth.Login.{World, authenticate, find_user, record_success}
use silentguard_xdr.Server.Auth.Login.Lockout.{authenticate_iff}
use silentguard_xdr.Server.Auth.Sessions.{Jwt, Tokens}
use silentguard_xdr.Server.Auth.Mfa.{
  signed_in, verify, secret_of, enforce_mfa, finish_login, login, mfa_begin_setup,
}
use silentguard_xdr.Prelude.{
  ℕ, String, ◌≡◌, refl, sym, ap, ◌∙◌, Bool, true, false, ◌||◌, some, List, [], arith, ◌==◌, nat_eq,
  string_eq, option_eq, list_eq,
}
use silentguard_xdr.Prelude.Table.{find, find-update_self}
use silentguard_xdr.Prelude.Text.{Text}

-- what a call that returned has done first
bind_ok :
    {S A B : Type 0} (r : Result A × S) (k : A → S → Result B × S) (b : B)
    → (elim r.0 as (λ _. Result B × S) [ ok a ↦ k a r.1 | err e ↦ (err e, r.1) ]).0 ≡ ok b
    → (a : A) × (r.0 ≡ ok a) × ((k a r.1).0 ≡ ok b)
bind_ok (ok a, s) k b h = (a, refl, h)
bind_ok (err e, s) k b h = cc

or_true : (a b : Bool) → b ≡ true → (a || b) ≡ true
or_true a b h = ground (arith, h)

module _ (b32decode : Text → List ℕ) (hmac_sha1 : List ℕ → List ℕ → List ℕ) where
  module _ (pbkdf2 : Text → Text → ℕ → Text) (jwt : Jwt) (s : Settings) (now : ℕ) where
    enforce_passes :
        (user : User) (code : Text) (w w' : World)
        → user.mfa_enabled ≡ true
        → (enforce_mfa b32decode hmac_sha1 now user code w).0 ≡ ok tt
        → verify b32decode hmac_sha1 (secret_of user) code now ≡ true
    unfolding enforce_mfa
    enforce_passes user code w w' enabled h = ground (arith, enabled, h)

    finish_needs_code :
        (user : User) (code : Text) (jti : String) (w : World) (t : Tokens)
        → user.mfa_enabled ≡ true
        → (finish_login b32decode hmac_sha1 pbkdf2 jwt s now user code jti w).0 ≡ ok t
        → verify b32decode hmac_sha1 (secret_of user) code now ≡ true
    unfolding finish_login
    finish_needs_code user code jti w t enabled h =
        let (_, passed, _) =
          bind_ok (enforce_mfa b32decode hmac_sha1 now user code w)
            (λ _. signed_in b32decode hmac_sha1 pbkdf2 jwt s now user jti) t h in
        enforce_passes user code w w enabled passed

    -- A login to an account with MFA succeeds only with a code that is valid at that time, for the secret of
    -- the account that the address names.
    pub login_needs_code :
        (email password code key : Text) (jti : String) (w : World) (u : User) (t : Tokens)
        → find_user email w.db.users ≡ some u
        → u.mfa_enabled ≡ true
        → (login b32decode hmac_sha1 pbkdf2 jwt s now email password code key jti w).0 ≡ ok t
        → verify b32decode hmac_sha1 (secret_of u) code now ≡ true
    unfolding login record_success
    login_needs_code email password code key jti w u t found enabled h =
        let (user, returned, finished) =
          bind_ok (authenticate pbkdf2 s now email password key w)
            (λ a. finish_login b32decode hmac_sha1 pbkdf2 jwt s now a code jti) t h in
        let (_, (user', found', _, _, _, same)) =
          (authenticate_iff pbkdf2 s now email password key w user).0 returned in
        let same_row : u ≡ user' = cc (found, found') in
        let logged_in : user ≡ record_success now u =
          same ∙ ap (record_success now) (sym same_row) in
        finish_needs_code (record_success now u) code jti
          (authenticate pbkdf2 s now email password key w).1 t enabled
          (subst
            (λ v.
              (finish_login b32decode hmac_sha1 pbkdf2 jwt s now v code jti
                (authenticate pbkdf2 s now email password key w).1).0
              ≡ ok t)
            logged_in finished)

  -- Starting the setup again switches the MFA of an account off: no code is asked, and afterwards a login
  -- needs none.
  pub setup_turns_off :
      (user : User) (drawn : Text) (db : Db)
      → find (λ u. u.id == user.id) db.users ≡ some user
      → user.mfa_enabled ≡ true
      → let (secret, db') = mfa_begin_setup b32decode hmac_sha1 user drawn db in
        (u : User) × (find (λ v. v.id == user.id) db'.users ≡ some u)
        × (u.mfa_enabled ≡ false)
        × ((now : ℕ) (w : World) → enforce_mfa b32decode hmac_sha1 now u [] w ≡ (ok tt, w))
  unfolding mfa_begin_setup enforce_mfa
  setup_turns_off user drawn db found enabled =
      let off : User → User = λ u. record u { mfa_secret = some drawn; mfa_enabled = false } in
      rw (or_true (secret_of user == []) user.mfa_enabled enabled, mfa_begin_setup)
        (
          off user,
          find-update_self (λ v. v.id == user.id) off db.users (λ v. refl) found,
          refl,
          λ now w. refl,
        )
