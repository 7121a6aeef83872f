-- ===== src/Server/Auth/OneTime/SingleUse.antt =====
-- A token sent by mail serves within its time, and only the newest one serves.
use silentguard_xdr.Server.Models.{Db, User, UserToken}
use silentguard_xdr.Server.Auth.OneTime.{
  use_row, is_open, is_outstanding, mark_used, token_row, issue_token, consume_token,
}
use silentguard_xdr.Prelude.{
  ℕ, ◌+◌, ◌<◌, String, ◌≡◌, refl, ◌∙◌, ◌⊎◌, inl, inr, true, false, none, some, List, [], ◌∷◌, ◌++◌,
  arith, leb, ◌==◌, nat_eq, string_eq, option_eq, list_eq, beq_refl, Bool-cases, Option-cases,
}
use silentguard_xdr.Prelude.Table.{
  find, update, All, All-append, find-none_append, find-update_fewer,
}

-- a used token is open no more
pub never-is_open :
    (h purpose : String) (now : ℕ) (t : UserToken) → is_open h purpose (mark_used now t) ≡ false
never-is_open h purpose now t = ground arith

module _ (digest : String → String) (now : ℕ) where
  -- what consuming a token gives: no user, or the user of an open row in its time
  pub consume_token-Taken :
      (raw purpose : String) (db : Db)
      → ((consume_token digest now raw purpose db).0 ≡ none)
        ⊎ ((row : UserToken) × (user : User) × (find (is_open (digest raw) purpose) db.user_tokens
              ≡ some row)
            × (now < row.expires_at)
            × (find (λ u. u.id == row.user_id) db.users ≡ some user)
            × (consume_token digest now raw purpose db ≡ (some user, use_row digest now row)))
  unfolding consume_token
  consume_token-Taken raw purpose db =
      elim (Option-cases (find (is_open (digest raw) purpose) db.user_tokens)) [
        | inl unknown ↦ inl (ground arith)
        | inr (row, found) ↦ elim (Bool-cases (leb row.expires_at now)) [
          | inl late ↦ inl (rw (found, late) refl)
          | inr early ↦ elim (Option-cases (find (λ u. u.id == row.user_id) db.users)) [
            | inl gone ↦ inl (rw (found, early) gone)
            | inr (user, stored) ↦
                inr (row, user, found, ground arith, stored, rw (found, early, stored) refl)
          ]
        ]
      ]

  pub consume-none :
      (raw purpose : String) (db : Db)
      → find (is_open (digest raw) purpose) db.user_tokens ≡ none
      → (consume_token digest now raw purpose db).0 ≡ none
  unfolding consume_token
  consume-none raw purpose db h = ground arith

  -- Issuing a token of one purpose for a user leaves no other token of that purpose for it open.
  pub issue_supersedes :
      (user : User) (purpose raw : String) (ttl : ℕ) (db : Db)
      → All
          (λ t. is_outstanding user.id purpose t ≡ true → t.token_hash ≡ digest raw)
          (issue_token digest now user purpose ttl raw db).user_tokens
  unfolding issue_token
  issue_supersedes user purpose raw ttl db =
      All-append (λ t. is_outstanding user.id purpose t ≡ true → t.token_hash ≡ digest raw)
        (update (is_outstanding user.id purpose) (mark_used now) db.user_tokens)
        (token_row digest now db.next_id user.id purpose ttl raw ∷ []) (closed db.user_tokens)
        ((λ _. refl), tt)
    where
      closed :
          (rows : List UserToken)
          → All
              (λ t. is_outstanding user.id purpose t ≡ true → t.token_hash ≡ digest raw)
              (update (is_outstanding user.id purpose) (mark_used now) rows)
      closed [] = tt
      closed (t ∷ rows) = elim (Bool-cases (is_outstanding user.id purpose t)) [
        | inl hit ↦ rw hit ((λ h. absurd (ground arith)), closed rows)
        | inr miss ↦ rw miss ((λ h. absurd (cc (h, miss))), closed rows)
      ]

  -- A token that was just issued to a stored user gives that user until it expires, if no open
  -- token of the purpose had its digest before.
  pub consume-issue :
      (later : ℕ) (user : User) (purpose raw : String) (ttl : ℕ) (db : Db)
      → find (λ u. u.id == user.id) db.users ≡ some user
      → find (is_open (digest raw) purpose) db.user_tokens ≡ none
      → later < now + ttl
      → (consume_token digest later raw purpose (issue_token digest now user purpose ttl raw db)).0
        ≡ some user
  unfolding consume_token issue_token
  consume-issue later user purpose raw ttl db stored fresh early =
      let p = is_open (digest raw) purpose in
      let older = update (is_outstanding user.id purpose) (mark_used now) db.user_tokens in
      let new = token_row digest now db.next_id user.id purpose ttl raw in
      let closed : find p older ≡ none =
        find-update_fewer p (is_outstanding user.id purpose) (mark_used now) db.user_tokens
          (λ t _. never-is_open (digest raw) purpose now t) fresh in
      let first : find p (older ++ new ∷ []) ≡ some new =
        find-none_append p older (new ∷ []) closed
        ∙ ground (arith, beq_refl (digest raw), beq_refl purpose) in
      rw first (ground (arith, stored, early))
