-- ===== src/Server/Access/Matrix.antt =====
-- The permission matrix, by what it grants, and who a request's caller can be.
use mathlib.Core.Path.{subst}
use text.Mathlib.TextEquality.{eq_iff}
use silentguard_xdr.Server.Models.{Db, User}
use silentguard_xdr.Server.Exec.{ok}
use silentguard_xdr.Server.Access.{
  Role, super_admin, Permission, write_isolation, write_blocklist, write_quarantine,
  execute_response, manage_orgs, has_permission, only_read_fleet, is_mutating, is_super_admin,
  parse_role, Credentials, Principal, current_principal, principal_of, scope_query,
}
use silentguard_xdr.Prelude.{
  String, ◌≡◌, sym, ◌≢◌, ◌⊎◌, inl, inr, Bool, true, false, ◌&&◌, Option, none, some, List, arith,
  ◌==◌, nat_eq, string_eq, option_eq, list_eq, eq_of_beq, Option-cases,
}
use silentguard_xdr.Prelude.Table.{find, count, All, find_test, All-select_test, count-select}

-- A role may isolate a device exactly if it is one of `MUTATING_ROLES`, and these are exactly the
-- roles that may edit the blocklist, restore from quarantine and dispatch responses.
pub mutating_iff_may_respond :
    (r : Role)
    → (has_permission r write_isolation ≡ is_mutating r)
      × (has_permission r write_blocklist ≡ is_mutating r)
      × (has_permission r write_quarantine ≡ is_mutating r)
      × (has_permission r execute_response ≡ is_mutating r)
unfolding has_permission is_mutating
mutating_iff_may_respond r = ground arith

-- Organizations are managed by super-admins only, and these have every permission.
pub platform_roles :
    (r : Role) (p : Permission)
    → (has_permission r manage_orgs ≡ is_super_admin r) × (has_permission super_admin p ≡ true)
unfolding has_permission
platform_roles r p = ground arith

-- A user whose stored role is not a known role may read the fleet and nothing else, inside its own
-- organization.
pub unknown_role_reads_only :
    (u : User) (p : Permission)
    → parse_role u.role ≡ none
    → (has_permission (principal_of u).role p ≡ only_read_fleet p)
      × ((principal_of u).cross_org ≡ false)
      × ((principal_of u).org_id ≡ u.org_id)
unfolding principal_of has_permission
unknown_role_reads_only u p h = ground (arith, h)

module _ (decode : String → Option (String × String)) (admin_token : String)
    (fingerprint : String → String) where
  -- A request is let in as the active user that a valid access token names, with the role and the
  -- organization of its row; or, with no bearer token, by the admin token, which is then not empty.
  pub current_principal_sound :
      (c : Credentials) (db : Db) (p : Principal)
      → (current_principal decode admin_token fingerprint c db).0 ≡ ok p
      → ((token : String) × (user : User) × (c.bearer ≡ some token)
          × (decode token ≡ some ("access", user.id))
          × (find (λ u. u.id == user.id) db.users ≡ some user)
          × (user.is_active ≡ true)
          × (p ≡ principal_of user))
        ⊎ ((c.bearer ≡ none) × (c.x_admin_token ≡ admin_token) × (admin_token ≢ ""))
  unfolding current_principal
  current_principal_sound c db p h = elim (Option-cases c.bearer) [
    | inl absent ↦ inr (ground (arith, eq_iff c.x_admin_token admin_token, eq_iff admin_token ""))
    | inr (token, e) ↦ elim (Option-cases (decode token)) [
      | inl bad ↦ absurd (ground arith)
      | inr ((kind, sub), valid) ↦ elim (Option-cases (find (λ u. u.id == sub) db.users)) [
        | inl gone ↦ absurd (ground arith)
        | inr (user, found) ↦
            let same : user.id ≡ sub =
              eq_of_beq user.id sub (find_test (λ u. u.id == sub) db.users found) in
            inl (
              token,
              user,
              e,
              ground (arith, eq_iff kind "access"),
              subst (λ i. find (λ u. u.id == i) db.users ≡ some user) (sym same) found,
              ground arith,
              ground arith,
            )
      ]
    ]
  ]

-- A caller that is not cross-organization sees exactly the rows of its own organization.
pub scope_query_isolates :
    {A : Type 0} (org : A → Option String) (p : Principal) (rows : List A)
    → p.cross_org ≡ false
    → All (λ row. org row ≡ p.org_id) (scope_query org p rows)
      × ((q : A → Bool)
          → count (λ row. q row && (org row == p.org_id)) rows ≡ count q (scope_query org p rows))
unfolding scope_query
scope_query_isolates org p rows h = rw h (
  All-select_test (λ row. org row == p.org_id) (λ row. org row ≡ p.org_id) rows
      (λ row e. eq_of_beq (org row) p.org_id e),
  λ q. count-select q (λ row. org row == p.org_id) rows,
)
