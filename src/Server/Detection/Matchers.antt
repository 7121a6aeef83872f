-- ===== src/Server/Detection/Matchers.antt =====
-- The matchers of server/app/detection/rules.py: signatures over the text of an event. A context carries
-- what its properties `command_line` and `haystack` compute.
use silentguard_xdr.Server.Models.{Fields, get}
use silentguard_xdr.Server.NetMatch.{starts_with, contains}
use silentguard_xdr.Prelude.{
  String, Bool, true, false, ◌&&◌, ◌||◌, Option, none, some, List, [], ◌∷◌, ◌++◌, ◌==◌, nat_eq,
  string_eq, option_eq, list_eq, any, all,
}
use silentguard_xdr.Prelude.Text.{Text, codes, strip}

-- `class EventContext`
pub record EventContext : Type 0 where
  pub source : String
  pub action : String
  pub details : Fields
  pub command_line : Text
  pub haystack : Text

abbrev is_some {ℓ} : {A : Type ℓ} → Option A → Bool
is_some none = false
is_some (some a) = true

-- `k in d`
abbrev has_key : String → Fields → Bool
has_key k d = is_some (get k d)

-- `_any`
unfoldable pub any_of : Text → List Text → Bool
unfolding contains
any_of text tokens = any (λ t. contains t text) tokens

-- `_all`
unfoldable pub all_of : Text → List Text → Bool
unfolding contains
all_of text tokens = all (λ t. contains t text) tokens

-- `_LOLBINS`
abbrev lolbins : List Text
lolbins =
    codes "certutil"
    ∷ codes "mshta"
    ∷ codes "regsvr32"
    ∷ codes "rundll32"
    ∷ codes "wmic"
    ∷ codes "bitsadmin"
    ∷ codes "msbuild"
    ∷ codes "installutil"
    ∷ codes "cscript"
    ∷ codes "wscript"
    ∷ codes "regsvcs"
    ∷ codes "regasm"
    ∷ []

-- `_PS_SUSPICIOUS`
abbrev ps_suspicious : List Text
ps_suspicious =
    codes "-nop"
    ∷ codes "-noni"
    ∷ codes "-w hidden"
    ∷ codes "-windowstyle hidden"
    ∷ codes "iex"
    ∷ codes "invoke-expression"
    ∷ codes "downloadstring"
    ∷ codes "-enc"
    ∷ codes "frombase64string"
    ∷ []

-- `_ENCODED_MARKERS`
abbrev encoded_markers : List Text
encoded_markers =
    codes "-enc" ∷ codes "-encodedcommand" ∷ codes "frombase64string" ∷ codes "-e jab" ∷ []

unfoldable pub is_powershell_abuse : EventContext → Bool
unfolding any_of contains
is_powershell_abuse ctx =
    contains (codes "powershell") ctx.command_line && any_of ctx.command_line ps_suspicious

unfoldable pub is_encoded_command : EventContext → Bool
unfolding any_of
is_encoded_command ctx = any_of ctx.command_line encoded_markers

-- the test of `_is_lolbin` for one name
unfoldable pub names_lolbin : Text → Text → Bool
unfolding contains
names_lolbin cl b =
    contains (b ++ codes ".") cl
    || contains (codes "\\" ++ b) cl
    || starts_with b (strip cl)
    || contains (codes " " ++ b ++ codes " ") cl

unfoldable pub is_lolbin : EventContext → Bool
unfolding names_lolbin
is_lolbin ctx = any (names_lolbin ctx.command_line) lolbins

unfoldable pub is_reverse_shell : EventContext → Bool
unfolding any_of all_of contains
is_reverse_shell ctx =
    ((ctx.source == "port_watchdog")
      && (ctx.action == "killed" || ctx.action == "kill_failed")
      && has_key "port" ctx.details)

unfoldable pub is_suspicious_listener : EventContext → Bool
unfolding any_of all_of contains
is_suspicious_listener ctx = ((ctx.source == "port_watchdog") && (ctx.action == "detected"))

unfoldable pub is_credential_dumping : EventContext → Bool
unfolding any_of all_of contains
is_credential_dumping ctx =
    ((any_of ctx.haystack
        (codes "mimikatz" ∷ codes "sekurlsa" ∷ codes "lsadump" ∷ codes "invoke-mimikatz" ∷ []))
      || (all_of ctx.haystack (codes "reg" ∷ codes "save" ∷ codes "hklm\\sam" ∷ []))
      || (all_of ctx.haystack (codes "comsvcs" ∷ codes "minidump" ∷ [])))

unfoldable pub is_lsass_access : EventContext → Bool
unfolding any_of all_of contains
is_lsass_access ctx =
    (contains (codes "lsass") ctx.haystack
      && (any_of ctx.haystack (
          codes "procdump"
          ∷ codes "dump"
          ∷ codes "minidump"
          ∷ codes "comsvcs"
          ∷ codes "rundll32"
          ∷ codes "taskmgr"
          ∷ [])))

unfoldable pub is_dll_injection : EventContext → Bool
unfolding any_of all_of contains
is_dll_injection ctx =
    (any_of ctx.haystack (
      codes "createremotethread"
      ∷ codes "virtualallocex"
      ∷ codes "writeprocessmemory"
      ∷ codes "ntmapviewofsection"
      ∷ codes "queueuserapc"
      ∷ []))

unfoldable pub is_process_hollowing : EventContext → Bool
unfolding any_of all_of contains
is_process_hollowing ctx =
    (contains (codes "zwunmapviewofsection") ctx.haystack
      || contains (codes "process hollow") ctx.haystack
      || contains (codes "processhollow") ctx.haystack
      || (all_of ctx.haystack (codes "setthreadcontext" ∷ codes "resumethread" ∷ [])))

unfoldable pub is_reflective_loading : EventContext → Bool
unfolding any_of all_of contains
is_reflective_loading ctx =
    (any_of ctx.haystack (
      codes "reflectivepeinjection"
      ∷ codes "reflective load"
      ∷ codes "reflectiveloader"
      ∷ codes "[reflection.assembly]::load"
      ∷ []))

unfoldable pub is_wmi_persistence : EventContext → Bool
unfolding any_of all_of contains
is_wmi_persistence ctx =
    ((any_of ctx.haystack (
        codes "commandlineeventconsumer"
        ∷ codes "__eventconsumer"
        ∷ codes "__eventfilter"
        ∷ codes "activescripteventconsumer"
        ∷ []))
      || (all_of ctx.haystack (codes "wmi" ∷ codes "subscription" ∷ [])))

unfoldable pub is_task_persistence : EventContext → Bool
unfolding any_of all_of contains
is_task_persistence ctx =
    ((all_of ctx.haystack (codes "schtasks" ∷ codes "/create" ∷ []))
      || contains (codes "new-scheduledtask") ctx.haystack
      || contains (codes "register-scheduledtask") ctx.haystack)

unfoldable pub is_registry_persistence : EventContext → Bool
unfolding any_of all_of contains
is_registry_persistence ctx =
    (contains (codes "currentversion\\run") ctx.haystack
      || (all_of ctx.haystack (codes "reg" ∷ codes "add" ∷ codes "\\run" ∷ []))
      || (contains (codes "userinit") ctx.haystack && contains (codes "reg") ctx.haystack))

unfoldable pub is_service_creation : EventContext → Bool
unfolding any_of all_of contains
is_service_creation ctx =
    ((all_of ctx.haystack (codes "sc" ∷ codes "create" ∷ []))
      || contains (codes "new-service") ctx.haystack
      || (all_of ctx.haystack (codes "sc.exe" ∷ codes "binpath" ∷ [])))

unfoldable pub is_privilege_escalation : EventContext → Bool
unfolding any_of all_of contains
is_privilege_escalation ctx =
    (any_of ctx.haystack (
      codes "bypassuac"
      ∷ codes "getsystem"
      ∷ codes "fodhelper"
      ∷ codes "eventvwr.exe"
      ∷ codes "sedebugprivilege"
      ∷ codes "token::elevate"
      ∷ codes "printnightmare"
      ∷ []))

unfoldable pub is_lateral_movement : EventContext → Bool
unfolding any_of all_of contains
is_lateral_movement ctx =
    ((any_of ctx.haystack (
        codes "psexec"
        ∷ codes "paexec"
        ∷ codes "winrs"
        ∷ codes "\\pipe\\"
        ∷ codes "smbexec"
        ∷ codes "wmiexec"
        ∷ []))
      || (all_of ctx.haystack (codes "wmic" ∷ codes "/node:" ∷ []))
      || (all_of ctx.haystack (codes "invoke-command" ∷ codes "-computername" ∷ [])))

unfoldable pub is_fileless_execution : EventContext → Bool
unfolding any_of all_of contains
is_fileless_execution ctx =
    ((any_of ctx.haystack (codes "reflection.assembly" ∷ codes "reflectivepeinjection" ∷ []))
      || (all_of ctx.haystack (codes "iex" ∷ codes "downloadstring" ∷ []))
      || (all_of ctx.haystack (codes "invoke-expression" ∷ codes "net.webclient" ∷ [])))

unfoldable pub is_ransomware_behavior : EventContext → Bool
unfolding any_of all_of contains
is_ransomware_behavior ctx =
    ((all_of ctx.haystack (codes "vssadmin" ∷ codes "delete" ∷ codes "shadows" ∷ []))
      || (all_of ctx.haystack (codes "wbadmin" ∷ codes "delete" ∷ []))
      || (all_of ctx.haystack (codes "bcdedit" ∷ codes "recoveryenabled" ∷ codes "no" ∷ []))
      || (all_of ctx.haystack (codes "wmic" ∷ codes "shadowcopy" ∷ codes "delete" ∷ [])))
