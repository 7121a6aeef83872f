-- ===== src/Server/Auth/OneTime/Reset.antt =====
-- What a password reset and an invitation change.
use silentguard_xdr.Server.Auth.OneTime.SingleUse.{consume_token-Taken}
use silentguard_xdr.Server.Models.{Db, User, RefreshToken}
use silentguard_xdr.Server.Exec.{ok, err, HttpError}
use silentguard_xdr.Server.Auth.Settings.{Settings}
use silentguard_xdr.Server.Auth.Password.{validate_password}
use silentguard_xdr.Server.Auth.OneTime.{
  consume_token, revoke_all, reset_row, reset_password, accept_invite,
}
use silentguard_xdr.Prelude.{
  ℕ, String, ◌≡◌, refl, ap, inl, inr, true, not, ◌&&◌, none, some, List, [], ◌∷◌, arith, ◌==◌,
  nat_eq, string_eq, option_eq, list_eq, Bool-cases, Option-cases,
}
use silentguard_xdr.Prelude.Table.{update, All}
use silentguard_xdr.Prelude.Text.{Text}

-- every session of the user is revoked afterwards
revoke_all-All :
    (user_id : String) (rows : List RefreshToken)
    → All (λ r. (r.user_id == user_id) ≡ true → r.revoked ≡ true) (revoke_all user_id rows)
revoke_all-All user_id [] = tt
revoke_all-All user_id (r ∷ rows) = elim (Bool-cases (r.user_id == user_id && not r.revoked)) [
  | inl hit ↦ rw hit ((λ h. refl), revoke_all-All user_id rows)
  | inr miss ↦ rw miss ((λ h. ground arith), revoke_all-All user_id rows)
]

module _ (digest : String → String) (now : ℕ) (pbkdf2 : Text → Text → ℕ → Text) (s : Settings) where
  -- A reset that succeeds was asked for with a password that the policy accepts and a token that
  -- gave the user; it stores the new hash, lifts the lock, and leaves no session of the user alive.
  pub reset_password_sound :
      (raw : String) (salt password : Text) (db : Db)
      → (reset_password digest now pbkdf2 s raw salt password db).0 ≡ ok true
      → let db' = (reset_password digest now pbkdf2 s raw salt password db).1 in
        (user : User) × ((consume_token digest now raw "password_reset" db).0 ≡ some user)
        × (validate_password s password ≡ none)
        × (db'.users ≡ update (λ u. u.id == user.id) (reset_row pbkdf2 salt password) db.users)
        × All (λ r. (r.user_id == user.id) ≡ true → r.revoked ≡ true) db'.refresh_tokens
  unfolding reset_password
  reset_password_sound raw salt password db h = elim (Option-cases (validate_password s password)) [
    | inr (e, weak) ↦ absurd (ground arith)
    | inl strong ↦ elim (consume_token-Taken digest now raw "password_reset" db) [
      | inl refused ↦ absurd (ground arith)
      | inr (row, user, _, _, _, taken) ↦ (
        user,
        ap (λ c. c.0) taken,
        strong,
        rw (strong, taken) refl,
        rw (strong, taken) (revoke_all-All user.id db.refresh_tokens),
      )
    ]
  ]

  -- A password that the policy refuses changes nothing: neither a reset nor an invitation is used up.
  pub weak_password_keeps_token :
      (raw : String) (salt password : Text) (e : HttpError) (db : Db)
      → validate_password s password ≡ some e
      → (reset_password digest now pbkdf2 s raw salt password db ≡ (err e, db))
        × ((accept_invite digest now pbkdf2 s raw salt password db).1 ≡ db)
  unfolding reset_password accept_invite
  weak_password_keeps_token raw salt password e db weak = (ground arith, ground arith)
