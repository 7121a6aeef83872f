-- ===== src/Server/Users/Rights.antt =====
-- What the management of users and groups leaves.
use mathlib.Core.Path.{subst}
use silentguard_xdr.Server.Models.{Db, User, Device, DeviceGroup, Policy}
use silentguard_xdr.Server.Exec.{ok}
use silentguard_xdr.Server.Access.{
  manage_users, has_permission, require_permission, Principal, Credentials, principal_of,
  current_principal, in_scope, owning_org, parse_role,
}
use silentguard_xdr.Server.Access.Matrix.{current_principal_sound}
use silentguard_xdr.Server.Plans.{entitlements_for}
use silentguard_xdr.Server.Users.{
  change_role, disable_user, update_role, in_group, scoped_group, delete_group,
}
use silentguard_xdr.Prelude.{
  ℕ, String, ◌≡◌, refl, sym, ap, ◌∙◌, ◌≢◌, inl, inr, true, false, Option, none, some, List, [], ◌∷◌,
  arith, ◌==◌, nat_eq, string_eq, option_eq, list_eq,
}
use silentguard_xdr.Prelude.Table.{find, count, update, delete, find-update_self}

disable_user-users :
    (now : ℕ) (p : Principal) (db : Db) (u : User)
    → find (λ v. v.id == u.id) db.users ≡ some u
    → in_scope p u.org_id ≡ true
    → (disable_user now u.id p db).1.users
      ≡ update (λ v. v.id == u.id) (λ v. record v { is_active = false }) db.users
unfolding disable_user
disable_user-users now p db u found reach = ground arith

some_injective : {A : Type 0} (a b : A) → some a ≡ some b → a ≡ b
some_injective a b e = ap (λ o. elim o [ none ↦ a | some x ↦ x ]) e

abbrev access_of : String → Option (String × String)
access_of sub = some ("access", sub)

subject_injective : (a b : String) → access_of a ≡ access_of b → a ≡ b
subject_injective a b e = ap (λ o. elim o [ none ↦ a | some pair ↦ pair.1 ]) e

-- Once a caller in whose reach a user is has disabled it, an access token of the user that is still valid
-- opens no request.
pub disabled_user_has_no_access :
    (decode : String → Option (String × String)) (admin_token : String)
    (fingerprint : String → String) (now : ℕ) (p : Principal) (c : Credentials) (token : String)
    (db : Db) (u : User)
    → find (λ v. v.id == u.id) db.users ≡ some u
    → in_scope p u.org_id ≡ true
    → c.bearer ≡ some token
    → decode token ≡ some ("access", u.id)
    → (q : Principal)
    → (current_principal decode admin_token fingerprint c (disable_user now u.id p db).1).0 ≢ ok q
disabled_user_has_no_access decode admin_token fingerprint now p c token db u found reach bearer
      valid q granted =
    let off =
      find-update_self (λ v. v.id == u.id) (λ v. record v { is_active = false }) db.users
        (λ v. refl) found in
    let rows = disable_user-users now p db u found reach in
    elim (current_principal_sound decode admin_token fingerprint c (disable_user now u.id p db).1 q
      granted) [
        | inl (t, user, presented, decoded, stored, active, _) ↦
            let same_token : t ≡ token = some_injective t token (sym presented ∙ bearer) in
            let same_id : user.id ≡ u.id =
              subject_injective user.id u.id (sym decoded ∙ (ap decode same_token ∙ valid)) in
            let row : some user ≡ some (record u { is_active = false }) =
              sym (
                subst (λ i. find (λ v. v.id == i) (disable_user now u.id p db).1.users ≡ some user)
                  same_id stored)
              ∙ (rw rows off) in
            let gone : user.is_active ≡ false =
              ap User.is_active (some_injective user (record u { is_active = false }) row) in
            cc
        | inr (no_bearer, _, _) ↦ cc
      ]

-- Where the caller's organization has role-based access, a caller who may manage users, such as the owner
-- of a tenant, can give a user in its reach the role of the platform operator, and the requests of that user
-- then reach every organization.
pub role_update_escalates :
    (now : ℕ) (p : Principal) (db : Db) (u : User)
    → has_permission p.role manage_users ≡ true
    → (entitlements_for db (some (owning_org p))).rbac ≡ true
    → find (λ v. v.id == u.id) db.users ≡ some u
    → in_scope p u.org_id ≡ true
    → let (r, db') = update_role now u.id "super_admin" p db in
      (r ≡ ok tt)
      × (find (λ v. v.id == u.id) db'.users ≡ some (record u { role = "super_admin" }))
      × ((principal_of (record u { role = "super_admin" })).cross_org ≡ true)
unfolding update_role change_role parse_role require_permission
role_update_escalates now p db u may rbac found reach =
    let set =
      find-update_self (λ v. v.id == u.id) (λ v. record v { role = "super_admin" }) db.users
        (λ v. refl) found in
    (ground arith, ground arith, unfold principal_of in refl)

none-in_group :
    (g : ℕ) (ds : List Device)
    → count (in_group g) (update (in_group g) (λ d. record d { group_id = none }) ds) ≡ 0
none-in_group g [] = refl
none-in_group g (d ∷ ds) = ground (arith, none-in_group g ds)

none_kept :
    (g : ℕ) (ps : List Policy)
    → count (λ p. p.group_id == some g) (delete (λ p. p.group_id == some g) ps) ≡ 0
none_kept g [] = refl
none_kept g (p ∷ ps) = ground (arith, none_kept g ps)

-- Deleting a group that is in the caller's reach leaves no device in it and no policy for it.
pub delete_group_detaches :
    (now : ℕ) (g : ℕ) (p : Principal) (db : Db) (row : DeviceGroup)
    → scoped_group g p db ≡ some row
    → let db' = (delete_group now g p db).1 in
      (count (in_group g) db'.devices ≡ 0) × (count (λ q. q.group_id == some g) db'.policies ≡ 0)
unfolding delete_group
delete_group_detaches now g p db row found =
    rw (found, delete_group) (none-in_group g db.devices, none_kept g db.policies)
