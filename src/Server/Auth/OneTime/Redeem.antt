-- ===== src/Server/Auth/OneTime/Redeem.antt =====
-- The calls that redeem a single-use token, `verify_email`, `reset_password` and `accept_invite`, one after
-- the other, each with its own commit.
use silentguard_xdr.Server.Auth.Password.{validate_password}
use silentguard_xdr.Server.Auth.OneTime.SingleUse.{never-is_open, consume_token-Taken}
use silentguard_xdr.Server.Auth.OneTime.{
  accept_invite, reset_password, mark_used, verify_email, is_open,
}
use silentguard_xdr.Server.Models.{Db, User, UserToken}
use silentguard_xdr.Server.Exec.{Result, ok, err}
use silentguard_xdr.Server.Auth.Settings.{Settings}
use silentguard_xdr.Prelude.{
  ℕ, ◌≤◌, String, ◌≡◌, ap, ◌∙◌, ◌⊎◌, inl, inr, Bool, true, false, none, some, List, [], ◌∷◌, arith,
  ◌==◌, nat_eq, string_eq, option_eq, list_eq, beq_refl, Option-cases,
}
use silentguard_xdr.Prelude.Table.{
  find, count, update, find-update_fewer, find-count_zero, count-update_off,
}
use silentguard_xdr.Prelude.Text.{Text}

pub data Redemption : Type 0 where
  verifying : Redemption
  resetting accepting : Text → Text → Redemption

-- the purpose that each call asks for
abbrev pub purpose_of : Redemption → String
purpose_of verifying = "email_verify"
purpose_of (resetting salt password) = "password_reset"
purpose_of (accepting salt password) = "invite"

abbrev pub is_reset : Result Bool → Bool
is_reset (ok done) = done
is_reset (err e) = false

abbrev pub is_accepted : Result User → Bool
is_accepted (ok user) = true
is_accepted (err e) = false

module _ (digest : String → String) (pbkdf2 : Text → Text → ℕ → Text) (s : Settings) where
  -- one call, and whether it succeeded
  unfoldable pub redeem : ℕ → Redemption → String → Db → Bool × Db
  unfolding verify_email reset_password accept_invite
  redeem now verifying raw db = verify_email digest now raw db
  redeem now (resetting salt password) raw db =
      let (r, db') = reset_password digest now pbkdf2 s raw salt password db in (is_reset r, db')
  redeem now (accepting salt password) raw db =
      let (r, db') = accept_invite digest now pbkdf2 s raw salt password db in (is_accepted r, db')

  -- calls one after the other, each with its time and its token
  unfoldable pub redeem_all : List (ℕ × Redemption × String) → Db → Db
  redeem_all [] db = db
  redeem_all ((now, q, raw) ∷ calls) db = redeem_all calls (redeem now q raw db).1

  -- what a call leaves of the tokens: all of them, or one row used that was open
  redeem-Redeemed :
      (now : ℕ) (q : Redemption) (raw : String) (db : Db)
      → let (done, db') = redeem now q raw db in
        ((done ≡ false) × (db'.user_tokens ≡ db.user_tokens))
        ⊎ ((row : UserToken) × (find (is_open (digest raw) (purpose_of q)) db.user_tokens
              ≡ some row)
            × (db'.user_tokens ≡ update (λ t. t.id == row.id) (mark_used now) db.user_tokens))
  unfolding redeem verify_email reset_password accept_invite
  redeem-Redeemed now verifying raw db =
      elim (consume_token-Taken digest now raw "email_verify" db) [
        | inl refused ↦ inl (ground (arith, refused), ground (arith, refused))
        | inr (row, user, found, _, _, taken) ↦ inr (row, found, ground (arith, taken))
      ]
  redeem-Redeemed now (resetting salt password) raw db =
      elim (Option-cases (validate_password s password)) [
        | inr (e, weak) ↦ inl (ground (arith, weak), ground (arith, weak))
        | inl strong ↦ elim (consume_token-Taken digest now raw "password_reset" db) [
          | inl refused ↦ inl (ground (arith, strong, refused), ground (arith, strong, refused))
          | inr (row, user, found, _, _, taken) ↦ inr (row, found, ground (arith, strong, taken))
        ]
      ]
  redeem-Redeemed now (accepting salt password) raw db =
      elim (consume_token-Taken digest now raw "invite" db) [
        | inl refused ↦ inl (ground (arith, refused), ground (arith, refused))
        | inr (row, user, found, _, _, taken) ↦ elim (Option-cases (validate_password s password)) [
          | inr (e, weak) ↦ inl (ground (arith, taken, weak), ground (arith, taken, weak))
          | inl strong ↦ inr (row, found, ground (arith, taken, strong))
        ]
      ]

  redeem-none :
      (now : ℕ) (q : Redemption) (raw : String) (db : Db)
      → find (is_open (digest raw) (purpose_of q)) db.user_tokens ≡ none
      → (redeem now q raw db).0 ≡ false
  redeem-none now q raw db closed = elim (redeem-Redeemed now q raw db) [
    | inl (refused, _) ↦ refused
    | inr (row, found, _) ↦ absurd (cc (closed, found))
  ]

  -- no call opens a token
  redeem_all-closed :
      (h purpose : String) (calls : List (ℕ × Redemption × String)) (db : Db)
      → find (is_open h purpose) db.user_tokens ≡ none
      → find (is_open h purpose) (redeem_all calls db).user_tokens ≡ none
  unfolding redeem_all
  redeem_all-closed h purpose [] db closed = closed
  redeem_all-closed h purpose ((now, q, raw) ∷ calls) db closed =
      let p = is_open h purpose in
      redeem_all-closed h purpose calls (redeem now q raw db).1
        (elim (redeem-Redeemed now q raw db) [
          | inl (_, same) ↦ ap (find p) same ∙ closed
          | inr (row, _, used) ↦
              ap (find p) used
              ∙ find-update_fewer p (λ t. t.id == row.id) (mark_used now) db.user_tokens
                  (λ t _. never-is_open h purpose now t) closed
        ])

  -- A token serves once: after a call that redeemed it with success, and so committed its use, and whatever
  -- redemptions come in between, with this token or with others, no call for the same purpose redeems it
  -- again, if it was the only open token with its digest and purpose and none is issued in between. A call
  -- that fails, as with a password that the policy refuses, does not count.
  pub token_serves_once :
      (now later : ℕ) (q q' : Redemption) (raw : String) (calls : List (ℕ × Redemption × String))
      (db : Db)
      → purpose_of q' ≡ purpose_of q
      → count (is_open (digest raw) (purpose_of q)) db.user_tokens ≤ 1
      → (redeem now q raw db).0 ≡ true
      → (redeem later q' raw (redeem_all calls (redeem now q raw db).1)).0 ≡ false
  token_serves_once now later q q' raw calls db same only done =
      let p = is_open (digest raw) (purpose_of q) in
      let closed : find p (redeem now q raw db).1.user_tokens ≡ none =
        elim (redeem-Redeemed now q raw db) [
          | inl (refused, _) ↦ absurd (cc (refused, done))
          | inr (row, found, used) ↦
              let fewer =
                count-update_off p (λ t. t.id == row.id) (mark_used now) db.user_tokens
                  (never-is_open (digest raw) (purpose_of q) now) found (beq_refl row.id) in
              ap (find p) used
              ∙ find-count_zero p (update (λ t. t.id == row.id) (mark_used now) db.user_tokens)
                  (omega (arith, fewer))
        ] in
      redeem-none later q' raw (redeem_all calls (redeem now q raw db).1) (
        rw same
          (redeem_all-closed (digest raw) (purpose_of q) calls (redeem now q raw db).1 closed))
