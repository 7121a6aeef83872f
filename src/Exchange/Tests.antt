-- ===== src/Exchange/Tests.antt =====
-- The theorems on both sides at samples.
use silentguard_xdr.Server.Fleet.Commands.{delivered, told_isolated}
use silentguard_xdr.Exchange.Actions.{dispatched_isolation_ignored}
use silentguard_xdr.Server.Fleet.{checkin}
use silentguard_xdr.Agent.Loop.{Config}
use silentguard_xdr.Server.Fleet.Telemetry.{Session}
use silentguard_xdr.Server.Response.{queued_command, dispatch}
use silentguard_xdr.Agent.Commands.{handle_command, Os, Options, Endpoint}
use silentguard_xdr.Agent.Update.{invalid, Verdict}
use silentguard_xdr.Server.Access.{responder, Principal}
use silentguard_xdr.Server.Exec.{ok}
use silentguard_xdr.Server.Models.{
  end, Db, Device, ResponseAction, Fields, default_org_id, empty_db,
}
use silentguard_xdr.Prelude.{
  String, ◌≡◌, refl, true, false, none, some, List, [], ◌∷◌, ◌++◌, nat_eq, string_eq, option_eq,
  list_eq,
}
use silentguard_xdr.Prelude.Text.{Text, codes}

abbrev host : Device
host = record {
  id = "d1";
  org_id = some default_org_id;
  group_id = none;
  hostname = "laptop";
  platform = "linux";
  agent_version = "1.4";
  api_key = "k1";
  enrolled_at = 1;
  last_seen = 5;
  isolated = false;
  pending_commands = end ∷ [];
  stopped = false;
  unresponsive_alerted = false;
}

abbrev responder_bob : Principal
responder_bob = record {
  actor = "user:u2";
  role = responder;
  user_id = some "u2";
  org_id = some default_org_id;
  cross_org = false;
}

abbrev one_host : Db
one_host = record empty_db { devices = host ∷ [] }

abbrev no_dumps : List (String × Text) → Text
no_dumps d = []

abbrev no_ed25519 : Text → Text → Text → Verdict
no_ed25519 key signature message = invalid

abbrev concatenated : Text → Text → Text
concatenated key message = key ++ message

abbrev quiet_os : Os
quiet_os = record {
  processes = [];
  kill_error = λ pid. none;
  no_process = λ pid. "process not found";
  no_number = λ v. "invalid literal";
  process_count = 12;
  sha256_of = λ content. content;
  movable = λ src dest. true;
  writable = true;
  shown = λ v. [];
}

abbrev live : Options
live = record {
  dry_run = false;
  management_server = codes "10.0.0.1:443";
  quarantine_dir = codes "/q";
  keys = record { update_public_key = []; update_hmac_key = [] };
}

abbrev idle : Endpoint
idle = record {
  store = record { files = λ path. none; manifest = [] };
  update_floor = [];
  isolated = false;
  emitted = [];
}

abbrev scan_command : Fields
scan_command = queued_command "remote_scan" end 7

abbrev scan_action : ResponseAction
scan_action = record {
  id = 7;
  org_id = some default_org_id;
  device_id = some "d1";
  action_type = "remote_scan";
  params = end;
  status = "queued";
  actor = "user:u2";
  result = end;
  created_at = 5;
  completed_at = none;
}

abbrev session : Session
session = record { db = record one_host { actions = scan_action ∷ [] }; pending = []; stored = [] }

dispatched_isolation_ignored_example :
    let (r, db') = dispatch 5 (some host) "isolate" end "user:u2" (some default_org_id) one_host in
    (r ≡ ok one_host.next_id)
    × (told_isolated (checkin 8 "k1" db').0 ≡ some false)
    × (delivered (checkin 8 "k1" db').0 ≡ end ∷ queued_command "isolate" end one_host.next_id ∷ [])
    × (handle_command 5 no_dumps no_ed25519 concatenated quiet_os live
          (codes "f")
          (queued_command "isolate" end one_host.next_id)
          idle
        ≡ (idle, true))
unfolding silentguard_xdr.Server.Models.get
dispatched_isolation_ignored_example =
    dispatched_isolation_ignored 5 no_dumps no_ed25519 concatenated quiet_os live 8 host "isolate"
      end "user:u2" (some default_org_id) one_host (codes "f") idle refl refl refl refl refl

abbrev no_config : Config
no_config = record {
  blocked_domains = [];
  blocked_processes = [];
  suspicious_ports = [];
  file_drop_dirs = [];
  block_usb_storage = false;
}
