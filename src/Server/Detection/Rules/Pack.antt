-- ===== src/Server/Detection/Rules/Pack.antt =====
-- The later rules of the table of server/app/detection/rules.py.
use silentguard_xdr.Server.Detection.Matchers.{
  is_task_persistence, is_registry_persistence, is_service_creation, is_privilege_escalation,
  is_lateral_movement, is_fileless_execution, is_ransomware_behavior,
}
use silentguard_xdr.Server.Detection.Rules.{Rule, high, critical}
use silentguard_xdr.Prelude.{◌&&◌, ◌||◌, [], ◌∷◌, ◌==◌, nat_eq, string_eq, option_eq, list_eq}

abbrev pub task_persistence : Rule
task_persistence = record {
  id = "task_persistence";
  name = "Scheduled task persistence";
  severity = high;
  technique_id = "T1053.005";
  technique_name = "Scheduled Task";
  description = "A scheduled task was created for persistence/execution.";
  matches = is_task_persistence;
  responses = "alert" ∷ [];
}

abbrev pub registry_persistence : Rule
registry_persistence = record {
  id = "registry_persistence";
  name = "Registry Run-key persistence";
  severity = high;
  technique_id = "T1547.001";
  technique_name = "Registry Run Keys / Startup Folder";
  description = "A Run/RunOnce or Userinit registry autostart was written.";
  matches = is_registry_persistence;
  responses = "alert" ∷ [];
}

abbrev pub service_creation : Rule
service_creation = record {
  id = "service_creation";
  name = "Suspicious service creation";
  severity = high;
  technique_id = "T1543.003";
  technique_name = "Windows Service";
  description = "A new Windows service was created (common persistence).";
  matches = is_service_creation;
  responses = "alert" ∷ [];
}

abbrev pub privilege_escalation : Rule
privilege_escalation = record {
  id = "privilege_escalation";
  name = "Privilege escalation attempt";
  severity = high;
  technique_id = "T1548";
  technique_name = "Abuse Elevation Control Mechanism";
  description = "A known UAC-bypass / elevation technique was observed.";
  matches = is_privilege_escalation;
  responses = "alert" ∷ "isolate" ∷ [];
}

abbrev pub lateral_movement : Rule
lateral_movement = record {
  id = "lateral_movement";
  name = "Lateral movement";
  severity = high;
  technique_id = "T1021";
  technique_name = "Remote Services";
  description = "Remote-execution tooling (PsExec/WMI/WinRM) targeting other hosts.";
  matches = is_lateral_movement;
  responses = "alert" ∷ "isolate" ∷ [];
}

abbrev pub fileless_execution : Rule
fileless_execution = record {
  id = "fileless_execution";
  name = "Fileless / in-memory execution";
  severity = high;
  technique_id = "T1055";
  technique_name = "Process Injection";
  description = "Code executed from memory without touching disk.";
  matches = is_fileless_execution;
  responses = "alert" ∷ [];
}

abbrev pub ransomware_behavior : Rule
ransomware_behavior = record {
  id = "ransomware_behavior";
  name = "Ransomware behavior (recovery inhibition)";
  severity = critical;
  technique_id = "T1490";
  technique_name = "Inhibit System Recovery";
  description =
      "Shadow copies / backups deleted or recovery disabled — a strong ransomware precursor.";
  matches = is_ransomware_behavior;
  responses = "alert" ∷ "isolate" ∷ [];
}

abbrev pub yara_match : Rule
yara_match = record {
  id = "yara_match";
  name = "YARA signature match";
  severity = critical;
  technique_id = "T1105";
  technique_name = "Ingress Tool Transfer";
  description = "A file on disk matched a YARA malware signature.";
  matches =
      λ ctx. ((ctx.source == "yara") && (ctx.action == "match" || ctx.action == "quarantined"));
  responses = "alert" ∷ [];
}

abbrev pub suricata_alert : Rule
suricata_alert = record {
  id = "suricata_alert";
  name = "Suricata IDS alert";
  severity = high;
  technique_id = "T1071";
  technique_name = "Application Layer Protocol";
  description = "The Suricata network IDS raised an alert (network-side detection).";
  matches = λ ctx. ((ctx.source == "suricata") && (ctx.action == "alert"));
  responses = "alert" ∷ [];
}

abbrev pub tamper_detected : Rule
tamper_detected = record {
  id = "tamper_detected";
  name = "Agent tamper detected";
  severity = critical;
  technique_id = "T1562.001";
  technique_name = "Impair Defenses: Disable or Modify Tools";
  description = "The agent detected tampering with its protected state file.";
  matches = λ ctx. ((ctx.source == "agent") && (ctx.action == "tamper"));
  responses = "alert" ∷ [];
}
