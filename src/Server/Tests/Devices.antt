-- ===== src/Server/Tests/Devices.antt =====
-- The theorems on response actions, policies and devices at samples.
use silentguard_xdr.Server.Tests.{laptop, fleet}
use silentguard_xdr.Server.Models.{
  Fields, Json, Db, Device, Policy, ResponseAction, get, end, field, default_org_id,
}
use silentguard_xdr.Server.Exec.{ok}
use silentguard_xdr.Server.Response.{
  agent_command, is_server_action, queued_command, push_command, complete, action_row, dispatch,
  record_result,
}
use silentguard_xdr.Server.Response.Lifecycle.{params_replace_command, outcome, first_result_stays}
use silentguard_xdr.Server.Policy.{default_policy, policy_for, resolve_effective_policy}
use silentguard_xdr.Server.Policy.Precedence.{chosen, or_else, policy_precedence}
use silentguard_xdr.Server.Fleet.{checkin, is_unresponsive, check_once}
use silentguard_xdr.Server.Fleet.Commands.{delivered, commands_delivered_once}
use silentguard_xdr.Server.Fleet.Liveness.{hostnames, flagged_once}
use silentguard_xdr.Prelude.{
  String, ◌≡◌, refl, true, false, not, ◌&&◌, none, some, [], ◌∷◌, ◌==◌, nat_eq, string_eq,
  option_eq, list_eq,
}
use silentguard_xdr.Prelude.Table.{find, select, update}

abbrev queued_scan : ResponseAction
queued_scan = action_row 3 7 (some default_org_id) (some "d1") "remote_scan" end "user:u2"

abbrev with_action : Db
with_action = record fleet { actions = queued_scan ∷ [] }

first_result_stays_example :
    let db' = record_result 10 7 "ok" end with_action in
    (find (λ b. b.id == 7) db'.actions ≡ some (complete 10 (outcome "ok") end queued_scan))
    × (record_result 20 7 "failed" end db' ≡ db')
first_result_stays_example =
    first_result_stays 10 20 7 "ok" "failed" end end with_action queued_scan refl refl

abbrev org_policy : Policy
org_policy = record {
  id = 1;
  org_id = some default_org_id;
  group_id = none;
  name = "all";
  settings = field "block_usb_storage" (Json.bool true) (field "suspicious_ports" Json.null end);
  enabled = true;
  created_at = 1;
}

abbrev group_policy : Policy
group_policy = record org_policy {
  id = 2;
  group_id = some 4;
  settings = field "block_usb_storage" (Json.bool false) end;
}

abbrev grouped : Device
grouped = record laptop { group_id = some 4 }

abbrev with_policies : Db
with_policies = record fleet { policies = org_policy ∷ group_policy ∷ [] }

policy_precedence_example :
    get "block_usb_storage" (resolve_effective_policy with_policies grouped)
    ≡ or_else (chosen (get "block_usb_storage" group_policy.settings)) (
        or_else
          (chosen (get "block_usb_storage" org_policy.settings))
          (get "block_usb_storage" default_policy))
unfolding policy_for get
policy_precedence_example =
    policy_precedence with_policies grouped "block_usb_storage" (refl, tt) (refl, (refl, tt))

abbrev token : String
token = "tok"

commands_delivered_once_example :
    let (r, db') = checkin 10 "k1" fleet in
    (delivered r ≡ laptop.pending_commands) × (delivered (checkin 20 "k1" db').0 ≡ [])
commands_delivered_once_example = commands_delivered_once 10 20 "k1" fleet laptop refl

flagged_once_example :
    (check_once 200 30 (check_once 100 30 fleet).1).0
    ≡ ok (
        hostnames
          (select (λ d. is_unresponsive 200 30 d && not (is_unresponsive 100 30 d)) fleet.devices))
flagged_once_example = flagged_once 100 200 30 fleet

abbrev smuggled : Fields
smuggled = field "command" (Json.str "remote_update") end

params_replace_command_example :
    let c = queued_command "remote_scan" smuggled 1 in
    let db' =
      (dispatch 10 (some laptop) "remote_scan" smuggled "user:u2" (some default_org_id) fleet).1 in
    (db'.devices ≡ update (λ e. e.id == "d1") (push_command c) fleet.devices)
    × (get "command" c ≡ some (Json.str "remote_update"))
unfolding agent_command is_server_action get
params_replace_command_example =
    params_replace_command 10 laptop "remote_scan" "remote_scan" (Json.str "remote_update") smuggled
      "user:u2" (some default_org_id) fleet refl refl (refl, tt) refl
