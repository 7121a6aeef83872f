-- ===== src/Server/Response.antt =====
-- Response actions: server/app/services/response.py, and `respond` of server/app/routers/responses.py.
-- A queued command is the JSON object that the agent receives.
pub mod Lifecycle
use silentguard_xdr.Server.Models.{
  Json, Fields, Db, Device, ResponseAction, AuditLogEntry, BlocklistEntry, get, put, merge, end,
  field,
}
use silentguard_xdr.Server.Models
use silentguard_xdr.Server.Exec.{
  Result, ok, err, Exec, HttpError, http, lit, pure, raise, raise_if, or_raise, gets, modify,
  atomic, ◌>>=◌, ◌>>◌,
}
use silentguard_xdr.Server.Access.{Principal, in_scope, owning_org}
use silentguard_xdr.Server.Intel.{upsert_ioc}
use silentguard_xdr.Prelude.{
  ℕ, ◌+◌, String, Bool, true, false, not, ◌&&◌, ◌||◌, Option, none, some, [], ◌∷◌, ◌++◌,
  if◌then◌else◌, ◌==◌, nat_eq, string_eq, option_eq, list_eq,
}
use silentguard_xdr.Prelude.Table.{find, update}
use silentguard_xdr.Prelude.Text.{Text, codes, strip}

-- `AGENT_ACTIONS`: the command of an action that the agent executes
unfoldable pub agent_command : String → Option String
agent_command a =
    if a == "kill_process"
    then some "kill_process"
    else if a == "delete_file"
    then some "delete_file"
    else if a == "restore_file"
    then some "restore_quarantine"
    else if a == "remote_scan"
    then some "remote_scan"
    else if a == "remote_update"
    then some "remote_update"
    else if a == "isolate"
    then some "isolate"
    else if a == "release"
    then some "release"
    else none

-- `action_type in SERVER_ACTIONS`
unfoldable pub is_server_action : String → Bool
is_server_action a = a == "block_domain" || a == "block_ip" || a == "block_hash"

-- the object that `_queue_command` appends; a parameter of that name replaces a field
unfoldable pub queued_command : String → Fields → ℕ → Fields
unfolding merge
queued_command command params action_id =
    merge (field "command" (Json.str command) (field "action_id" (Json.num action_id) end)) params

abbrev pub save_device : String → (Device → Device) → Db → Db
save_device id f db = record db { devices = update (λ d. d.id == id) f db.devices }

abbrev pub push_command : Fields → Device → Device
push_command c d = record d { pending_commands = d.pending_commands ++ c ∷ [] }

abbrev internal_error : HttpError
internal_error = http 500 "Internal server error"

abbrev strip_json : Json → Option Text
strip_json (Json.text t) = some (strip t)
strip_json (Json.str t) = some (strip (codes t))
strip_json _ = none

-- `params.get("value", "").strip()`; a value that is no text has no `strip`
unfoldable pub value_of : Fields → Option Text
value_of params = elim (get "value" params) [ none ↦ some [] | some v ↦ strip_json v ]

abbrev requires_value : String → HttpError
requires_value a = record { status_code = 400; detail = lit a ∷ lit " requires 'value'" ∷ [] }

abbrev is_some {ℓ} : {A : Type ℓ} → Option A → Bool
is_some none = false
is_some (some a) = true

abbrev pub add_action : ResponseAction → Db → Db
add_action a db = record db { actions = db.actions ++ a ∷ []; next_id = db.next_id + 1 }

abbrev pub save_action : ℕ → (ResponseAction → ResponseAction) → Db → Db
save_action id f db = record db { actions = update (λ a. a.id == id) f db.actions }

module _ (now : ℕ) where
  abbrev block_row : ℕ → Option String → Text → BlocklistEntry
  block_row id org_id value = record {
    id = id;
    org_id = org_id;
    kind = "domain";
    value = value;
    added_at = now;
  }

  -- the write of the branch `block_domain`
  unfoldable pub add_domain : Option String → Text → Db → Db
  add_domain org_id value db =
      if is_some (find (λ e. e.value == value && e.org_id == org_id) db.blocklist)
      then db
      else record db {
        blocklist = db.blocklist ++ block_row db.next_id org_id value ∷ [];
        next_id = db.next_id + 1;
      }

  abbrev block_ioc : Option String → String → Text → Exec Db (Unit {0})
  block_ioc org_id ioc_type value db =
      elim (upsert_ioc now org_id 90 "response" "" none ioc_type value db) [
        | none ↦ (err internal_error, db)
        | some db' ↦ (ok tt, db')
      ]

  -- `_apply_server_action`: the result object of the action
  unfoldable pub apply_server_action : Option String → String → Fields → Exec Db Fields
  unfolding value_of add_domain
  apply_server_action org_id action_type params = do
    value ← or_raise (value_of params) internal_error
    raise_if (value == []) (requires_value action_type)
    (if action_type == "block_domain"
        then modify (add_domain org_id value)
        else if action_type == "block_ip"
        then block_ioc org_id "ip" value
        else block_ioc org_id "sha256" value)
    pure (
        if action_type == "block_domain"
        then field "blocked" (Json.text value) end
        else if action_type == "block_ip"
        then field "blocked_ip" (Json.text value) end
        else field "blocked_hash" (Json.text value) end)

  abbrev pub action_row :
      ℕ → Option String → Option String → String → Fields → String → ResponseAction
  action_row id org_id device_id action_type params actor = record {
    id = id;
    org_id = org_id;
    device_id = device_id;
    action_type = action_type;
    params = params;
    status = "queued";
    actor = actor;
    result = end;
    created_at = now;
    completed_at = none;
  }

  -- the assignments to an action that is done
  abbrev pub complete : String → Fields → ResponseAction → ResponseAction
  complete status result a = record a { status = status; result = result; completed_at = some now }

  abbrev pub add_audit : String → String → Option String → Fields → Option String → Db → Db
  add_audit actor action target details org_id db = record db {
    audit =
        db.audit
        ++ record {
          id = db.next_id;
          org_id = org_id;
          timestamp = now;
          actor = actor;
          action = action;
          target = elim target [ none ↦ Json.str "-" | some d ↦ Json.str d ];
          details = details;
        }
          ∷ [];
    next_id = db.next_id + 1;
  }

  -- the two ways to execute, in `dispatch`
  unfoldable pub execute : Option Device → String → Fields → Option String → ℕ → Exec Db (Unit {0})
  unfolding apply_server_action
  execute device action_type params org_id action_id =
      if is_server_action action_type
      then (do
        result ← apply_server_action org_id action_type params
        modify (save_action action_id (complete "completed" result)))
      else elim device [
        | none ↦ raise (record {
          status_code = 400;
          detail = lit "action '" ∷ lit action_type ∷ lit "' requires a device" ∷ [];
        })
        | some d ↦ elim (agent_command action_type) [
          | none ↦ raise internal_error
          | some command ↦
              modify (save_device d.id (push_command (queued_command command params action_id)))
        ]
      ]

  -- `dispatch`: the key of the action that it recorded
  unfoldable pub dispatch : Option Device → String → Fields → String → Option String → Exec Db ℕ
  unfolding execute
  dispatch device action_type params actor org_id db =
      (atomic (do
        raise_if (not (is_server_action action_type || is_some (agent_command action_type)))
            (record {
              status_code = 400;
              detail = lit "unknown action '" ∷ lit action_type ∷ lit "'" ∷ [];
            })
        let id = db.next_id
        let device_id = Models.device_key device
        modify (add_action (action_row id org_id device_id action_type params actor))
        execute device action_type params org_id id
        modify (
            add_audit actor (Models.concat "response:" action_type) device_id
              (field "params" (Json.obj params) (field "action_id" (Json.num id) end)) org_id)
        pure id))
        db

  -- `record_result`
  unfoldable pub record_result : ℕ → String → Fields → Db → Db
  record_result action_id status result db = elim (find (λ a. a.id == action_id) db.actions) [
    | none ↦ db
    | some a ↦
        if not (a.status == "queued")
        then db
        else save_action action_id
            (complete
              (if status == "ok" || status == "completed" || status == "success"
                then "completed"
                else "failed")
              result)
            db
  ]

  -- `respond`
  unfoldable pub respond : String → String → Fields → String → Principal → Exec Db ℕ
  unfolding dispatch
  respond device_id action params actor principal db =
      elim (find (λ d. d.id == device_id) db.devices) [
        | none ↦ (err (http 404 "Device not found"), db)
        | some device ↦
            if in_scope principal device.org_id
            then dispatch (some device) action params actor (some (owning_org principal)) db
            else (err (http 404 "Device not found"), db)
      ]
