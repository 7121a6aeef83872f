-- ===== src/Server/Detection/Rules/Seed.antt =====
-- The earlier rules of server/app/detection/rules.py, and the whole table.
use silentguard_xdr.Server.Detection.Matchers.{
  is_powershell_abuse, is_encoded_command, is_lolbin, is_reverse_shell, is_suspicious_listener,
  is_credential_dumping, is_lsass_access, is_dll_injection, is_process_hollowing,
  is_reflective_loading, is_wmi_persistence,
}
use silentguard_xdr.Server.Detection.Rules.Pack.{
  task_persistence, registry_persistence, service_creation, privilege_escalation, lateral_movement,
  fileless_execution, ransomware_behavior, yara_match, suricata_alert, tamper_detected,
}
use silentguard_xdr.Server.Detection.Rules.{Rule, medium, high, critical}
use silentguard_xdr.Prelude.{List, [], ◌∷◌}

abbrev reverse_shell : Rule
reverse_shell = record {
  id = "reverse_shell";
  name = "Reverse shell / unauthorized listener terminated";
  severity = critical;
  technique_id = "T1059";
  technique_name = "Command and Scripting Interpreter";
  description = "A process opened a listener on a suspicious port and was killed.";
  matches = is_reverse_shell;
  responses = "alert" ∷ "isolate" ∷ [];
}

abbrev suspicious_listener : Rule
suspicious_listener = record {
  id = "suspicious_listener";
  name = "New suspicious network listener";
  severity = medium;
  technique_id = "T1571";
  technique_name = "Non-Standard Port";
  description = "A process opened an unexpected listening port.";
  matches = is_suspicious_listener;
  responses = "alert" ∷ [];
}

abbrev powershell_abuse : Rule
powershell_abuse = record {
  id = "powershell_abuse";
  name = "Suspicious PowerShell invocation";
  severity = high;
  technique_id = "T1059.001";
  technique_name = "PowerShell";
  description = "PowerShell launched with evasion/download flags.";
  matches = is_powershell_abuse;
  responses = "alert" ∷ [];
}

abbrev encoded_command : Rule
encoded_command = record {
  id = "encoded_command";
  name = "Encoded command line";
  severity = high;
  technique_id = "T1027";
  technique_name = "Obfuscated Files or Information";
  description = "A base64/encoded command was executed.";
  matches = is_encoded_command;
  responses = "alert" ∷ [];
}

abbrev lolbin_execution : Rule
lolbin_execution = record {
  id = "lolbin_execution";
  name = "Living-off-the-land binary execution";
  severity = high;
  technique_id = "T1218";
  technique_name = "System Binary Proxy Execution";
  description = "A known LOLBin was used to proxy execution.";
  matches = is_lolbin;
  responses = "alert" ∷ [];
}

abbrev credential_dumping : Rule
credential_dumping = record {
  id = "credential_dumping";
  name = "Credential dumping";
  severity = critical;
  technique_id = "T1003";
  technique_name = "OS Credential Dumping";
  description = "Tooling associated with credential theft was observed.";
  matches = is_credential_dumping;
  responses = "alert" ∷ "isolate" ∷ [];
}

abbrev lsass_access : Rule
lsass_access = record {
  id = "lsass_access";
  name = "LSASS memory access";
  severity = critical;
  technique_id = "T1003.001";
  technique_name = "LSASS Memory";
  description = "A process attempted to read/dump LSASS memory.";
  matches = is_lsass_access;
  responses = "alert" ∷ "isolate" ∷ [];
}

abbrev dll_injection : Rule
dll_injection = record {
  id = "dll_injection";
  name = "Remote process / DLL injection";
  severity = high;
  technique_id = "T1055.001";
  technique_name = "Dynamic-link Library Injection";
  description = "Injection primitives (CreateRemoteThread/WriteProcessMemory) observed.";
  matches = is_dll_injection;
  responses = "alert" ∷ [];
}

abbrev process_hollowing : Rule
process_hollowing = record {
  id = "process_hollowing";
  name = "Process hollowing";
  severity = high;
  technique_id = "T1055.012";
  technique_name = "Process Hollowing";
  description = "Section unmapping / thread-context manipulation of a target process.";
  matches = is_process_hollowing;
  responses = "alert" ∷ [];
}

abbrev reflective_loading : Rule
reflective_loading = record {
  id = "reflective_loading";
  name = "Reflective code loading";
  severity = high;
  technique_id = "T1620";
  technique_name = "Reflective Code Loading";
  description = "In-memory reflective PE/assembly loading observed.";
  matches = is_reflective_loading;
  responses = "alert" ∷ [];
}

abbrev wmi_persistence : Rule
wmi_persistence = record {
  id = "wmi_persistence";
  name = "WMI event-subscription persistence";
  severity = high;
  technique_id = "T1546.003";
  technique_name = "WMI Event Subscription";
  description = "A permanent WMI event consumer/filter was created.";
  matches = is_wmi_persistence;
  responses = "alert" ∷ [];
}

-- `SEED_RULES`
abbrev pub seed_rules : List Rule
seed_rules =
    reverse_shell ∷ suspicious_listener ∷ powershell_abuse ∷ encoded_command ∷ lolbin_execution
    ∷ credential_dumping ∷ lsass_access ∷ dll_injection ∷ process_hollowing ∷ reflective_loading
    ∷ wmi_persistence ∷ task_persistence ∷ registry_persistence ∷ service_creation
    ∷ privilege_escalation ∷ lateral_movement ∷ fileless_execution ∷ ransomware_behavior
    ∷ yara_match ∷ suricata_alert ∷ tamper_detected ∷ []
