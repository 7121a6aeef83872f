-- ===== src/Server/Auth/Sessions/Rotation.antt =====
-- A refresh token serves once, and not after a logout.
use text.Mathlib.TextEquality.{eq_iff}
use silentguard_xdr.Server.Models.{Db, User, RefreshToken}
use silentguard_xdr.Server.Exec.{ok}
use silentguard_xdr.Server.Auth.Settings.{Settings}
use silentguard_xdr.Server.Auth.Sessions.{
  Jwt, Claims, Tokens, decode_token, get_session, revoke, session_row, refresh_tokens,
  revoke_refresh_token,
}
use silentguard_xdr.Prelude.{
  ℕ, ◌<◌, String, ◌≡◌, refl, ◌≢◌, inl, inr, true, false, Option, none, some, List, [], ◌∷◌, ◌++◌,
  arith, ◌==◌, nat_eq, string_eq, option_eq, list_eq, beq_refl, Bool-cases, Option-cases,
}
use silentguard_xdr.Prelude.Table.{find, update, find-append, find-update}

module _ (jwt : Jwt) (s : Settings) (now : ℕ) where
  open jwt use {encode, decode}

  -- a token whose session is revoked is refused
  refresh-IsRevoked :
      (token fresh : String) (claims : Claims) (t : RefreshToken) (db : Db)
      → decode token ≡ some claims
      → get_session claims.jti db ≡ some t
      → t.revoked ≡ true
      → (u : Tokens) → (refresh_tokens jwt s now token fresh db).0 ≢ ok u
  unfolding refresh_tokens
  refresh-IsRevoked token fresh claims t db valid found gone u h = ground arith

  -- A refresh succeeds only for a valid refresh token of a stored session that is neither revoked
  -- nor expired, and an active user; it revokes the session and adds the new one of that user.
  pub refresh_tokens_sound :
      (token fresh : String) (db : Db) (new : Tokens)
      → (refresh_tokens jwt s now token fresh db).0 ≡ ok new
      → (claims : Claims) × (t : RefreshToken) × (user : User) × (decode token ≡ some claims)
        × (claims.kind ≡ "refresh")
        × (get_session claims.jti db ≡ some t)
        × (t.revoked ≡ false)
        × (now < t.expires_at)
        × (find (λ u. u.id == claims.sub) db.users ≡ some user)
        × (user.is_active ≡ true)
        × ((refresh_tokens jwt s now token fresh db).1.refresh_tokens
            ≡ update (λ r. r.jti == t.jti) (λ r. record r { revoked = true }) db.refresh_tokens
              ++ session_row jwt s now user fresh ∷ [])
  unfolding refresh_tokens
  refresh_tokens_sound token fresh db new h = elim (Option-cases (decode token)) [
    | inl bad ↦ absurd (ground arith)
    | inr (claims, valid) ↦
        elim (Option-cases (find (λ t. t.jti == claims.jti) db.refresh_tokens)) [
          | inl unknown ↦ absurd (ground arith)
          | inr (t, found) ↦ elim (Option-cases (find (λ u. u.id == claims.sub) db.users)) [
            | inl gone ↦ absurd (ground arith)
            | inr (user, owner) ↦ (
              claims,
              t,
              user,
              valid,
              ground (arith, eq_iff claims.kind "refresh"),
              found,
              ground arith,
              ground arith,
              owner,
              ground arith,
              ground arith,
            )
          ]
        ]
  ]

find-revoked :
    (jti : String) (rows : List RefreshToken) (t : RefreshToken)
    → find (λ r. r.jti == jti) rows ≡ some t
    → find
        (λ r. r.jti == jti)
        (update (λ r. r.jti == t.jti) (λ r. record r { revoked = true }) rows)
      ≡ some (record t { revoked = true })
find-revoked jti rows t found = rw (
  find-update (λ r. r.jti == jti) (λ r. r.jti == t.jti) (λ r. record r { revoked = true }) rows
      (λ r. refl) found,
  beq_refl t.jti,
)

-- A refresh token that has been exchanged for new tokens is refused from then on, whatever the time
-- and the id drawn.
pub refresh_token_serves_once :
    (jwt : Jwt) (s : Settings) (now later : ℕ) (token fresh other : String) (db : Db) (new : Tokens)
    → (refresh_tokens jwt s now token fresh db).0 ≡ ok new
    → let db' = (refresh_tokens jwt s now token fresh db).1 in
      (u : Tokens) → (refresh_tokens jwt s later token other db').0 ≢ ok u
unfolding get_session
refresh_token_serves_once jwt s now later token fresh other db new h u =
    let db' = (refresh_tokens jwt s now token fresh db).1 in
    let (claims, t, user, valid, _, found, _, _, _, _, rows) =
      refresh_tokens_sound jwt s now token fresh db new h in
    let gone : get_session claims.jti db' ≡ some (record t { revoked = true }) = rw rows (
      find-append (λ r. r.jti == claims.jti)
        (update (λ r. r.jti == t.jti) (λ r. record r { revoked = true }) db.refresh_tokens)
        (session_row jwt s now user fresh ∷ [])
        (find-revoked claims.jti db.refresh_tokens t found)) in
    refresh-IsRevoked jwt s later token other claims (record t { revoked = true }) db' valid gone
      refl u

-- no session that could serve
abbrev IsSpent : Option RefreshToken → Type 0
IsSpent none = Unit
IsSpent (some t) = t.revoked ≡ true

module _ (jwt : Jwt) (s : Settings) (now : ℕ) (token : String) (claims : Claims) where
  open jwt use {encode, decode}

  refresh-IsSpent :
      (fresh : String) (db : Db)
      → decode token ≡ some claims
      → IsSpent (get_session claims.jti db)
      → (u : Tokens) → (refresh_tokens jwt s now token fresh db).0 ≢ ok u
  unfolding refresh_tokens
  refresh-IsSpent fresh db valid spent u h = elim (Option-cases (get_session claims.jti db)) [
    | inl unknown ↦ ground arith
    | inr (t, found) ↦
        refresh-IsRevoked jwt s now token fresh claims t db valid found (rw found at spent) u h
  ]

  logout-IsSpent :
      (db : Db)
      → decode token ≡ some claims
      → IsSpent (get_session claims.jti db)
      → (revoke_refresh_token jwt s now token db).1 ≡ db
  unfolding revoke_refresh_token
  logout-IsSpent db valid spent = elim (Option-cases (get_session claims.jti db)) [
    | inl unknown ↦ ground arith
    | inr (t, found) ↦ let gone : t.revoked ≡ true = rw found at spent in ground arith
  ]

  logout-live :
      (db : Db) (t : RefreshToken)
      → decode_token jwt s now token "refresh" ≡ some claims
      → get_session claims.jti db ≡ some t
      → t.revoked ≡ false
      → (revoke_refresh_token jwt s now token db).1 ≡ revoke t.jti db
  unfolding revoke_refresh_token
  logout-live db t valid found live = ground arith

  IsSpent-logout :
      (db : Db)
      → decode_token jwt s now token "refresh" ≡ some claims
      → decode token ≡ some claims
      → IsSpent (get_session claims.jti (revoke_refresh_token jwt s now token db).1)
  IsSpent-logout db valid known = elim (Option-cases (get_session claims.jti db)) [
    | inl unknown ↦ rw (logout-IsSpent db known (rw unknown tt), unknown) tt
    | inr (t, found) ↦ elim (Bool-cases t.revoked) [
      | inl gone ↦ rw (logout-IsSpent db known (rw found gone), found) gone
      | inr live ↦ rw (logout-live db t valid found live) (
          unfold get_session in
          rw (find-revoked claims.jti db.refresh_tokens t (unfold get_session in found)) refl)
    ]
  ]

decode-decode_token :
    (jwt : Jwt) (s : Settings) (now : ℕ) (token kind : String) (claims : Claims)
    → decode_token jwt s now token kind ≡ some claims
    → jwt.decode token ≡ some claims
unfolding decode_token
decode-decode_token jwt s now token kind claims h = ground arith

-- After a logout with a refresh token that has not expired, that token is refused, and a second
-- logout changes nothing.
pub logout_ends_session :
    (jwt : Jwt) (s : Settings) (now later : ℕ) (token other : String) (db : Db) (claims : Claims)
    → decode_token jwt s now token "refresh" ≡ some claims
    → let db' = (revoke_refresh_token jwt s now token db).1 in
      ((u : Tokens) → (refresh_tokens jwt s later token other db').0 ≢ ok u)
      × ((revoke_refresh_token jwt s later token db').1 ≡ db')
logout_ends_session jwt s now later token other db claims valid =
    let db' = (revoke_refresh_token jwt s now token db).1 in
    let known = decode-decode_token jwt s now token "refresh" claims valid in
    let spent = IsSpent-logout jwt s now token claims db valid known in
    (
      refresh-IsSpent jwt s later token claims other db' known spent,
      logout-IsSpent jwt s later token claims db' known spent,
    )
