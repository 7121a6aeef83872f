-- ===== src/Server/Fleet.antt =====
-- The agent's endpoints (server/app/routers/agents.py), the isolation of a device
-- (server/app/routers/admin.py) and the liveness sweep (server/app/monitor.py). What a request draws at
-- random is an argument, and each request reads one time. What a handler sends to the dashboard after its
-- commit is left out.
pub mod Enrollment
pub mod Commands
pub mod Liveness
pub mod Telemetry
use silentguard_xdr.Server.Models.{
  Json, Fields, Db, Device, ThreatEvent, BlocklistEntry, get, end, field, default_org_id, concat,
}
use silentguard_xdr.Server.Exec.{
  Piece, lit, nat, Result, ok, err, Exec, HttpError, http, pure, raise, raise_if, or_raise, gets,
  modify, atomic, ◌>>=◌, ◌>>◌,
}
use silentguard_xdr.Server.Access.{Principal, in_scope}
use silentguard_xdr.Server.Plans.{Entitlements, entitlements_for}
use silentguard_xdr.Server.Policy.{resolve_effective_policy}
use silentguard_xdr.Server.Response.{save_device, push_command, add_audit}
use silentguard_xdr.Prelude.{
  ℕ, ◌+◌, ◌-◌, String, Bool, true, false, not, ◌&&◌, ◌||◌, none, some, List, [], ◌∷◌, ◌++◌, ltb,
  leb, if◌then◌else◌, ◌==◌, nat_eq, string_eq, option_eq, list_eq,
}
use silentguard_xdr.Prelude.Table.{find, select, count}
use silentguard_xdr.Prelude.Text.{Text}

-- the row that a handler adds to the timeline for a device
abbrev pub event_row : ℕ → ℕ → Device → String → String → String → List Piece → Fields → ThreatEvent
event_row id now d source severity action summary details = record {
  id = id;
  device_id = d.id;
  org_id = d.org_id;
  timestamp = now;
  source = source;
  severity = severity;
  action = action;
  summary = summary;
  details = details;
}

unfoldable pub add_event : ℕ → Device → String → String → String → List Piece → Fields → Db → Db
add_event now d source severity action summary details db = record db {
  events = db.events ++ event_row db.next_id now d source severity action summary details ∷ [];
  next_id = db.next_id + 1;
}

abbrev pub in_default_org : Device → Bool
in_default_org d = d.org_id == some default_org_id

-- `class CheckinResponse`
pub record CheckinResponse : Type 0 where
  pub isolated : Bool
  pub commands : List Fields
  pub blocklist : List (String × List Text)
  pub policy : Fields

-- `blocklist.setdefault(kind, []).append(value)`
abbrev pub push_value : String → Text → List (String × List Text) → List (String × List Text)
push_value kind value [] = (kind, value ∷ []) ∷ []
push_value kind value ((k, vs) ∷ rest) =
    if k == kind then (k, vs ++ value ∷ []) ∷ rest else (k, vs) ∷ push_value kind value rest

-- the loop over the entries
abbrev pub blocklist_of :
    List BlocklistEntry → List (String × List Text) → List (String × List Text)
blocklist_of [] lists = lists
blocklist_of (e ∷ es) lists = blocklist_of es (push_value e.kind e.value lists)

abbrev pub empty_lists : List (String × List Text)
empty_lists = ("domain", []) ∷ ("process", []) ∷ ("port", []) ∷ []

-- `device.org_id or DEFAULT_ORG_ID`
abbrev pub org_of : Device → String
org_of d = elim d.org_id [ none ↦ default_org_id | some o ↦ if o == "" then default_org_id else o ]

abbrev pub flag : Device → Device
flag d = record d { unresponsive_alerted = true }

module _ (now : ℕ) where
  abbrev pub new_device : String → String → String → String → String → Device
  new_device id api_key hostname platform agent_version = record {
    id = id;
    org_id = some default_org_id;
    group_id = none;
    hostname = hostname;
    platform = platform;
    agent_version = agent_version;
    api_key = api_key;
    enrolled_at = now;
    last_seen = now;
    isolated = false;
    pending_commands = [];
    stopped = false;
    unresponsive_alerted = false;
  }

  -- `enroll`
  unfoldable pub enroll :
      String → String → String → String → String → String → String → Exec Db (String × String)
  unfolding add_event
  enroll enroll_token presented id api_key hostname platform agent_version = do
    raise_if (not (presented == enroll_token)) (http 401 "Invalid enrollment token")
    limit ← gets (λ db. (entitlements_for db (some default_org_id)).max_devices)
    current ← gets (λ db. count in_default_org db.devices)
    raise_if (ltb 0 limit && leb limit current) (http 402 "Device limit reached for this plan")
    let device = new_device id api_key hostname platform agent_version
    modify (λ db. record db { devices = db.devices ++ device ∷ [] })
    modify (
        add_event now device "agent" "info" "enrolled"
          (lit "Device " ∷ lit hostname ∷ lit " enrolled" ∷ []) end)
    pure (id, api_key)

  -- `device.last_seen = utcnow(); device.unresponsive_alerted = False`
  abbrev pub seen : Device → Device
  seen d = record d { last_seen = now; unresponsive_alerted = false }

  -- `require_agent`, the device of the presented key, and `checkin`
  unfoldable pub checkin : String → Exec Db CheckinResponse
  unfolding resolve_effective_policy
  checkin api_key db = elim (find (λ d. d.api_key == api_key) db.devices) [
    | none ↦ (err (http 401 "Invalid agent key"), db)
    | some device ↦
        let entries = select (λ e. e.org_id == some (org_of device)) db.blocklist in
        (
          ok (record {
            isolated = device.isolated;
            commands = device.pending_commands;
            blocklist = blocklist_of entries empty_lists;
            policy = resolve_effective_policy db device;
          }),
          save_device device.id (λ d. record (seen d) { pending_commands = [] }) db,
        )
  ]

  -- `_get_device_scoped` and `_set_isolation`
  unfoldable pub set_isolation : String → Bool → Principal → Exec Db (Unit {0})
  unfolding add_event
  set_isolation device_id isolated principal db = elim (find (λ d. d.id == device_id) db.devices) [
    | none ↦ (err (http 404 "Device not found"), db)
    | some device ↦
        if in_scope principal device.org_id
        then (do
          modify (
              save_device device_id (λ d.
                push_command
                  (field "command" (Json.str (if isolated then "isolate" else "release")) end)
                  (record d { isolated = isolated })))
          modify (
              add_event now device "isolation" (if isolated then "critical" else "info")
                (if isolated then "isolation_requested" else "isolation_released")
                (lit "Admin "
                  ∷ lit (if isolated then "isolated" else "released")
                  ∷ lit " device "
                  ∷ lit device.hostname
                  ∷ [])
                end)
          modify (
              add_audit now principal.actor (if isolated then "isolate" else "release")
                (some device.id) (field "hostname" (Json.str device.hostname) end) device.org_id))
            db
        else (err (http 404 "Device not found"), db)
  ]

  -- the guard of `check_once`, on a device that was last seen in the past
  abbrev pub is_unresponsive : ℕ → Device → Bool
  is_unresponsive threshold d =
      not (leb (now - d.last_seen) threshold || d.stopped || d.unresponsive_alerted)

  abbrev pub raise_unresponsive : ℕ → Device → Db → Db
  raise_unresponsive threshold d db =
      add_event now d "agent" "critical" "device_unresponsive"
        (lit "Device "
          ∷ lit d.hostname
          ∷ lit " unresponsive for "
          ∷ nat (now - d.last_seen)
          ∷ lit "s — agent may have been killed without restarting"
          ∷ [])
        (field "last_seen" (Json.num d.last_seen)
          (field "threshold_seconds" (Json.num threshold) end))
        db

  -- the loop of `check_once` over the devices: the rows to write, the hostnames flagged, the new events
  unfoldable pub sweep : ℕ → List Device → Db → List Device × (List String × Db)
  unfolding add_event
  sweep threshold [] db = ([], ([], db))
  sweep threshold (d ∷ ds) db =
      if is_unresponsive threshold d
      then (let (ds', (names, db')) = sweep threshold ds (raise_unresponsive threshold d db) in
          (flag d ∷ ds', (d.hostname ∷ names, db')))
      else (let (ds', (names, db')) = sweep threshold ds db in (d ∷ ds', (names, db')))

  -- `check_once`
  unfoldable pub check_once : ℕ → Exec Db (List String)
  unfolding sweep
  check_once threshold db =
      let (ds, (names, db')) = sweep threshold db.devices db in
      (ok names, record db' { devices = ds })
