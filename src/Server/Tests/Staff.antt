-- ===== src/Server/Tests/Staff.antt =====
-- The theorems on users, groups and detections at samples.
use silentguard_xdr.Server.Tests.{ann, bob, laptop}
use silentguard_xdr.Server.Models.{
  Json, Fields, Db, DeviceGroup, ThreatEvent, Detection, empty_db, end, field, default_org_id,
}
use silentguard_xdr.Server.Exec.{Piece, ok}
use silentguard_xdr.Server.Access.{
  owner, in_scope, Principal, Credentials, principal_of, current_principal,
}
use silentguard_xdr.Server.Plans.{entitlements_for}
use silentguard_xdr.Server.Users.{disable_user, update_role}
use silentguard_xdr.Server.Users.Rights.{disabled_user_has_no_access, role_update_escalates}
use silentguard_xdr.Server.Detection.{context_of, evaluate_rules, dispatch_all}
use silentguard_xdr.Server.Detection.Rules.Seed.{seed_rules}
use silentguard_xdr.Server.Detection.Responses.{
  fired_ids, rule_ids, evaluate_rules_exact, outcome_of, auto_isolation_exact,
}
use silentguard_xdr.Prelude.{
  String, ◌≡◌, refl, ◌≢◌, true, Option, some, List, [], ◌∷◌, ◌++◌, ◌==◌, nat_eq, string_eq,
  option_eq, list_eq,
}
use silentguard_xdr.Prelude.Table.{find, select, All}
use silentguard_xdr.Prelude.Text.{Text}

abbrev four : DeviceGroup
four = record {
  id = 4;
  org_id = some default_org_id;
  name = "lab";
  description = "";
  created_at = 1;
}

abbrev staff : Db
staff = record empty_db {
  users = ann ∷ [];
  groups = four ∷ [];
  devices = record laptop { group_id = some 4 } ∷ [];
}

abbrev toy_decode : String → Option (String × String)
toy_decode token = some ("access", token)

abbrev request : Credentials
request = record { bearer = some "u1"; x_admin_token = "" }

disabled_user_has_no_access_example :
    (current_principal toy_decode "admin" (λ t. t) request (disable_user 5 "u1" bob staff).1).0
    ≢ ok bob
disabled_user_has_no_access_example =
    disabled_user_has_no_access toy_decode "admin" (λ t. t) 5 bob request "u1" staff ann refl refl
      refl refl bob

abbrev tenant_owner : Principal
tenant_owner = record bob { role = owner }

role_update_escalates_example :
    let (r, db') = update_role 5 "u1" "super_admin" tenant_owner staff in
    (r ≡ ok tt)
    × (find (λ v. v.id == "u1") db'.users ≡ some (record ann { role = "super_admin" }))
    × ((principal_of (record ann { role = "super_admin" })).cross_org ≡ true)
unfolding entitlements_for silentguard_xdr.Server.Access.owning_org
    silentguard_xdr.Server.Access.has_permission
role_update_escalates_example = role_update_escalates 5 tenant_owner staff ann refl refl refl refl

abbrev killed : ThreatEvent
killed = record {
  id = 3;
  device_id = "d1";
  org_id = some default_org_id;
  timestamp = 5;
  source = "port_watchdog";
  severity = "critical";
  action = "killed";
  summary = [];
  details = field "port" (Json.num 4444) end;
}

abbrev quiet : List Piece → Text
quiet message = []

abbrev unseen : Json → Text
unseen v = []

abbrev no_dump : Fields → Text
no_dump d = []

evaluate_rules_exact_example :
    let (rows, db') = evaluate_rules quiet unseen no_dump 5 laptop killed seed_rules staff in
    let ctx = context_of quiet unseen no_dump killed in
    (fired_ids rows ≡ rule_ids (select (λ r. r.matches ctx) seed_rules))
    × (db'.detections ≡ staff.detections ++ rows)
    × All (λ d. (d.org_id ≡ killed.org_id) × (d.device_id ≡ laptop.id)) rows
    × (db'.devices ≡ staff.devices)
evaluate_rules_exact_example =
    evaluate_rules_exact quiet unseen no_dump 5 laptop killed seed_rules staff

abbrev shell_found : Detection
shell_found = record {
  id = 1;
  org_id = some default_org_id;
  device_id = "d1";
  event_id = some 3;
  rule_id = "reverse_shell";
  name = "Reverse shell";
  severity = "critical";
  risk_score = 90;
  technique_id = "T1059";
  technique_name = "";
  status = "new";
  details = end;
  created_at = 5;
}

abbrev one_laptop : Db
one_laptop = record empty_db { devices = laptop ∷ [] }

auto_isolation_exact_example :
    find
      (λ e. e.id == "d1")
      (dispatch_all true "d1" (shell_found ∷ shell_found ∷ []) one_laptop).devices
    ≡ some (outcome_of true (shell_found ∷ shell_found ∷ []) laptop)
auto_isolation_exact_example =
    auto_isolation_exact true (shell_found ∷ shell_found ∷ []) one_laptop laptop refl

abbrev with_detection : Db
with_detection = record empty_db { detections = shell_found ∷ [] }
