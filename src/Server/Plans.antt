-- ===== src/Server/Plans.antt =====
-- Subscription plans and entitlements (server/app/core/plans.py).
pub mod Limits
use silentguard_xdr.Server.Models.{Db, Organization}
use silentguard_xdr.Prelude.{
  ℕ, String, Bool, true, false, ◌||◌, Option, none, some, ltb, if◌then◌else◌, ◌==◌, nat_eq,
  string_eq, option_eq, list_eq,
}
use silentguard_xdr.Prelude.Table.{find}

-- An entry of `PLANS`, with the key `plan` that `entitlements_for` adds.
pub record Entitlements : Type 0 where
  pub label : String
  pub max_devices : ℕ
  pub max_users : ℕ
  pub max_groups : ℕ
  pub rbac : Bool
  pub device_groups : Bool
  pub integrations : Bool
  pub compliance_reports : Bool
  pub sso : Bool
  pub ai_assistant : Bool
  pub plan : String

abbrev pub individual : Entitlements
individual = record {
  label = "Individual";
  max_devices = 5;
  max_users = 1;
  max_groups = 1;
  rbac = false;
  device_groups = false;
  integrations = false;
  compliance_reports = false;
  sso = false;
  ai_assistant = true;
  plan = "individual";
}

abbrev pub team : Entitlements
team = record {
  label = "Team";
  max_devices = 50;
  max_users = 15;
  max_groups = 10;
  rbac = true;
  device_groups = true;
  integrations = true;
  compliance_reports = true;
  sso = false;
  ai_assistant = true;
  plan = "team";
}

-- 0 is unlimited
abbrev pub enterprise : Entitlements
enterprise = record {
  label = "Enterprise";
  max_devices = 0;
  max_users = 0;
  max_groups = 0;
  rbac = true;
  device_groups = true;
  integrations = true;
  compliance_reports = true;
  sso = true;
  ai_assistant = true;
  plan = "enterprise";
}

-- `PLANS.get(name, PLANS["enterprise"])`
unfoldable pub get_plan : String → Entitlements
get_plan name =
    if name == "individual" then individual else if name == "team" then team else enterprise

-- `name in PLAN_NAMES`
unfoldable pub is_plan_name : String → Bool
is_plan_name name = name == "individual" || name == "team" || name == "enterprise"

-- `db.get(Organization, org_id) if org_id else None`
unfoldable pub get_org : Option String → Db → Option Organization
get_org none db = none
get_org (some id) db = if id == "" then none else find (λ o. o.id == id) db.organizations

-- `(org.plan if org and org.plan else None) or "enterprise"`
unfoldable pub plan_name : Option Organization → String
plan_name none = "enterprise"
plan_name (some org) = if org.plan == "" then "enterprise" else org.plan

-- `entitlements_for`: the cap of the organization wins over the plan's if it is not 0.
unfoldable pub entitlements_of : Option Organization → Entitlements
unfolding get_plan plan_name
entitlements_of none = record (get_plan (plan_name none)) { plan = plan_name none }
entitlements_of (some org) =
    let plan = plan_name (some org) in
    let ent = record (get_plan plan) { plan = plan } in
    if org.max_devices == 0 then ent else record ent { max_devices = org.max_devices }

unfoldable pub entitlements_for : Db → Option String → Entitlements
unfolding get_org entitlements_of
entitlements_for db org_id = entitlements_of (get_org org_id db)

-- The test of `within_limit`, on the entry of the plan that its key names.
unfoldable pub within_limit : ℕ → ℕ → Bool
within_limit limit current_count = limit == 0 || ltb current_count limit
