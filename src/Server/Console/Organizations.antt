-- ===== src/Server/Console/Organizations.antt =====
-- The organizations: server/app/routers/orgs.py, for a caller with the permission to manage them.
use silentguard_xdr.Server.Auth.Signup.{new_org}
use silentguard_xdr.Server.Users.{record_change}
use silentguard_xdr.Server.Exec.{gets, raise_if, modify, ◌>>=◌, ◌>>◌}
use silentguard_xdr.Server.Access.{Principal}
use silentguard_xdr.Server.Exec.{err, http, Exec, HttpError}
use silentguard_xdr.Server.Plans.{is_plan_name}
use silentguard_xdr.Server.Models.{Json, Db, Organization, end, field}
use silentguard_xdr.Prelude.{
  ℕ, String, Bool, true, not, Option, none, some, [], ◌∷◌, ◌++◌, if◌then◌else◌, ◌==◌, nat_eq,
  string_eq, option_eq, list_eq, any,
}
use silentguard_xdr.Prelude.Table.{find, update}
use silentguard_xdr.Prelude.Text.{Text, lower, strip}

-- `class OrganizationUpdate`
pub record OrganizationUpdate : Type 0 where
  pub name : Option Text
  pub plan : Option String
  pub max_devices : Option ℕ
  pub is_active : Option Bool

abbrev given {ℓ} : {A : Type ℓ} → Option A → A → A
given none old = old
given (some new) old = new

-- the plan of the request, where it has one
abbrev is_given_plan : Option String → Bool
is_given_plan none = true
is_given_plan (some plan) = is_plan_name plan

abbrev bad_plan : HttpError
bad_plan = http 400 "plan must be one of ['individual', 'team', 'enterprise']"

-- the assignments of `update_org`
unfoldable pub changed_org : OrganizationUpdate → Organization → Organization
changed_org body o = record o {
  plan = given body.plan o.plan;
  name = elim body.name [ none ↦ o.name | some n ↦ strip n ];
  max_devices = given body.max_devices o.max_devices;
  is_active = given body.is_active o.is_active;
}

module _ (now : ℕ) where
  -- `create_org`; the entry of the audit log is built before the organization has its id
  unfoldable pub create_org : String → Text → Text → String → ℕ → Principal → Exec Db (Unit {0})
  unfolding is_plan_name
  create_org id name presented plan max_devices principal = do
    raise_if (not (is_plan_name plan)) bad_plan
    let slug = lower (strip presented)
    taken ← gets (λ db. any (λ o. o.slug == slug) db.organizations)
    raise_if taken (http 409 "An organization with that slug exists")
    modify (λ db. record db {
      organizations =
          db.organizations
          ++ record (new_org now id (strip name) slug plan) { max_devices = max_devices } ∷ [];
    })
    modify (
        record_change now principal.actor "org_create" (Json.text slug)
          (field "plan" (Json.str plan) end) none)

  -- `update_org`
  unfoldable pub update_org : String → OrganizationUpdate → Principal → Exec Db (Unit {0})
  unfolding changed_org
  update_org org_id body principal db = elim (find (λ o. o.id == org_id) db.organizations) [
    | none ↦ (err (http 404 "Organization not found"), db)
    | some org ↦
        if is_given_plan body.plan
        then (do
          modify (λ s. record s {
            organizations = update (λ o. o.id == org_id) (changed_org body) s.organizations;
          })
          let after = changed_org body org
          modify (
              record_change now principal.actor "org_update" (Json.text org.slug)
                (field "plan" (Json.str after.plan)
                  (field "is_active" (Json.bool after.is_active) end))
                (some org.id)))
            db
        else (err bad_plan, db)
  ]
