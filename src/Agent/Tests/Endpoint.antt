-- ===== src/Agent/Tests/Endpoint.antt =====
-- The theorems on the quarantine, the state file, the commands and the check-in of the agent at samples.
use silentguard_xdr.Agent.Quarantine.Restore.{restore-quarantine}
use silentguard_xdr.Agent.State.Integrity.{floor_signs_any_state}
use silentguard_xdr.Server.Fleet.{CheckinResponse}
use silentguard_xdr.Agent.Loop.{Config}
use silentguard_xdr.Agent.Commands.{Os, Options, Endpoint}
use silentguard_xdr.Agent.Update.{invalid, valid, Verdict}
use silentguard_xdr.Agent.State.{
  value_at, text_of, set_update_floor, get_update_floor, ensure_enrolled, Identity,
}
use silentguard_xdr.Server.Models.{Json, Items, text, str, put, num, field, end, Fields}
use silentguard_xdr.Agent.Quarantine.{restored, new_entry, restore, quarantine, Store, Files}
use silentguard_xdr.Prelude.{
  ℕ, String, ◌≡◌, refl, Bool, true, false, none, some, List, [], ◌∷◌, ◌++◌, if◌then◌else◌, ◌==◌,
  nat_eq, string_eq, option_eq, list_eq,
}
use silentguard_xdr.Prelude.Text.{Text, codes}

abbrev toy_sha256 : Text → Text
toy_sha256 content = content

abbrev always_movable : Text → Text → Bool
always_movable src dest = true

abbrev one_file : Files
one_file path = if path == codes "/tmp/x" then some (codes "evil") else none

abbrev empty_store : Store
empty_store = record { files = one_file; manifest = [] }

restore-quarantine_example :
    let (r, s₁) =
      quarantine toy_sha256 always_movable
        (codes "/q")
        false
        3
        (codes "a1")
        (codes "/tmp/x")
        none
        (codes "test")
        empty_store in
    let (r', s₂) = restore toy_sha256 always_movable (codes "/q") false 9 (codes "a1") s₁ in
    let entry =
      new_entry toy_sha256 always_movable
        (codes "/q")
        false
        3
        (codes "a1")
        (codes "/tmp/x")
        none
        (codes "test")
        one_file in
    (r ≡ some entry)
    × (r' ≡ some (restored toy_sha256 always_movable (codes "/q") false 9 entry))
    × (s₂.manifest ≡ restored toy_sha256 always_movable (codes "/q") false 9 entry ∷ [])
    × ((p : Text) → s₂.files p ≡ one_file p)
restore-quarantine_example =
    restore-quarantine toy_sha256 always_movable (codes "/q") 3 9 (codes "a1") (codes "/tmp/x") none
      (codes "test") (codes "evil") empty_store refl refl refl refl refl refl

abbrev toy_state_dumps : Fields → Text
toy_state_dumps d = text_of (value_at (λ e. []) (λ k m. k) "device_id" d)

abbrev toy_digest : Text → Text → Text
toy_digest key message = b'#' ∷ key ++ message

-- a state without a signature
abbrev planted : Fields
planted = field "device_id" (text (codes "d9")) (field "api_key" (text (codes "k9")) end)

abbrev new_identity : Identity
new_identity = record { device_id = str "d1"; api_key = str "k1" }

floor_signs_any_state_example :
    let run =
      ensure_enrolled toy_state_dumps toy_digest
        (codes "key")
        new_identity
        (set_update_floor toy_state_dumps toy_digest (codes "key") (codes "2.0") planted) in
    (run.tampered ≡ false)
    × (run.identity.device_id ≡ value_at toy_state_dumps toy_digest "device_id" planted)
    × (run.identity.api_key ≡ value_at toy_state_dumps toy_digest "api_key" planted)
unfolding silentguard_xdr.Agent.State.has_credentials silentguard_xdr.Server.Models.get
    silentguard_xdr.Server.Models.truthy
floor_signs_any_state_example =
    floor_signs_any_state toy_state_dumps toy_digest (codes "key") (codes "2.0") new_identity
      planted (λ k m. refl) refl

abbrev toy_dumps : List (String × Text) → Text
toy_dumps [] = []
toy_dumps ((k, v) ∷ rest) = v ++ toy_dumps rest

abbrev toy_ed25519 : Text → Text → Text → Verdict
toy_ed25519 key signature message = if signature == key ++ message then valid else invalid

abbrev toy_os : Os
toy_os = record {
  processes = (7, codes "Miner") ∷ [];
  kill_error = λ pid. none;
  no_process = λ pid. "process not found";
  no_number = λ v. "invalid literal";
  process_count = 1;
  sha256_of = toy_sha256;
  movable = always_movable;
  writable = true;
  shown = λ v. [];
}

abbrev options : Options
options = record {
  dry_run = false;
  management_server = codes "10.0.0.1:443";
  quarantine_dir = codes "/q";
  keys = record { update_public_key = codes "k"; update_hmac_key = [] };
}

abbrev endpoint : Endpoint
endpoint = record { store = empty_store; update_floor = []; isolated = false; emitted = [] }

abbrev kill_miner : Fields
kill_miner =
    field "command" (str "kill_process")
      (field "name" (text (codes "miner")) (field "action_id" (num 4) end))

abbrev config : Config
config = record {
  blocked_domains = codes "bad.example" ∷ [];
  blocked_processes = codes "miner" ∷ [];
  suspicious_ports = 4444 ∷ [];
  file_drop_dirs = [];
  block_usb_storage = false;
}

abbrev answer : CheckinResponse
answer = record {
  isolated = true;
  commands = kill_miner ∷ [];
  policy = end;
  blocklist = ("domain", codes "worse.example" ∷ []) ∷ [];
}

abbrev no_shell : String → Bool
no_shell command = false

abbrev one_id : ℕ → Text
one_id n = codes "f"

abbrev is_worse : Text → Bool
is_worse domain = domain == codes "worse.example"

-- a policy with a domain that `urlsplit` rejects
abbrev bad_answer : CheckinResponse
bad_answer = record answer {
  policy = field "blocked_domains" (Json.arr (Items.item (text (codes "[x")) Items.nil)) end;
}
