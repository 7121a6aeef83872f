-- ===== src/Server/Detection.antt =====
-- The detection engine: server/app/detection/engine.py on the rules of server/app/detection/rules.py.
-- A rule that raises is skipped; the matchers here are total. Evaluate has the parts of `evaluate_event`
-- on indicators, blocked domains and Sigma rules. Alerts are left out.
pub mod Matchers
pub mod Rules
pub mod Responses
pub mod Triage
pub mod Evaluate
pub mod Untouched
use silentguard_xdr.Server.Models.{
  Json, Items, Fields, Db, Device, ThreatEvent, Detection, text_or, end, field, nil, item,
}
use silentguard_xdr.Server.Exec.{Piece}
use silentguard_xdr.Server.Response.{save_device, push_command}
use silentguard_xdr.Server.Detection.Matchers.{EventContext}
use silentguard_xdr.Server.Detection.Rules.{Rule, severity_value, severity_score}
use silentguard_xdr.Server.Detection.Rules.Seed.{seed_rules}
use silentguard_xdr.Prelude.{
  ℕ, ◌+◌, String, Bool, true, not, ◌&&◌, none, some, List, [], ◌∷◌, ◌++◌, if◌then◌else◌, ◌==◌,
  nat_eq, string_eq, option_eq, list_eq, any,
}
use silentguard_xdr.Prelude.Table.{find}
use silentguard_xdr.Prelude.Text.{Text, codes, lower}

abbrev strings : List String → Items
strings [] = nil
strings (s ∷ ss) = item (Json.str s) (strings ss)

abbrev pub add_detection : Detection → Db → Db
add_detection d db = record db { detections = db.detections ++ d ∷ []; next_id = db.next_id + 1 }

-- `render` writes a message out, and `dumps` is the JSON printer.
module _ (render : List Piece → Text) (shown : Json → Text) (dumps : Fields → Text) where
  unfoldable pub command_line : Fields → Text
  command_line d =
      lower
        (text_or shown "command_line" d (text_or shown "cmdline" d (text_or shown "process" d [])))

  -- `EventContext(...)`, with its two properties
  unfoldable pub context_of : ThreatEvent → EventContext
  unfolding command_line
  context_of event = record {
    source = event.source;
    action = event.action;
    details = event.details;
    command_line = command_line event.details;
    haystack = lower (
        render event.summary
        ++ codes " "
        ++ command_line event.details
        ++ codes " "
        ++ dumps event.details);
  }

  abbrev pub detection_row : ℕ → ℕ → Device → ThreatEvent → Rule → Detection
  detection_row id now device event rule = record {
    id = id;
    org_id = event.org_id;
    device_id = device.id;
    event_id = some event.id;
    rule_id = rule.id;
    name = rule.name;
    severity = severity_value rule.severity;
    risk_score = severity_score rule.severity;
    technique_id = rule.technique_id;
    technique_name = rule.technique_name;
    status = "new";
    details =
        field "summary" (Json.text (render event.summary))
          (field "responses" (Json.arr (strings rule.responses)) end);
    created_at = now;
  }

  -- the loop of `evaluate_event` over the rules: the rows that it adds, and the database
  unfoldable pub evaluate_rules : ℕ → Device → ThreatEvent → List Rule → Db → List Detection × Db
  unfolding context_of
  evaluate_rules now device event [] db = ([], db)
  evaluate_rules now device event (rule ∷ rules) db =
      if rule.matches (context_of event)
      then (let row = detection_row db.next_id now device event rule in
          let (rows, db') = evaluate_rules now device event rules (add_detection row db) in
          (row ∷ rows, db'))
      else evaluate_rules now device event rules db

-- `RULES_BY_ID.get(det.rule_id)` and its responses
unfoldable pub responses_of : Detection → List String
responses_of det = elim (find (λ r. r.id == det.rule_id) seed_rules) [
  | none ↦ "alert" ∷ []
  | some rule ↦ rule.responses
]

-- the condition of the branch that isolates; `auto_isolate` is the setting
unfoldable pub wants_isolation : Bool → Detection → Bool
unfolding responses_of
wants_isolation auto_isolate det =
    any (λ r. r == "isolate") (responses_of det) && auto_isolate && det.severity == "critical"

abbrev pub isolate_row : Device → Device
isolate_row d =
    push_command (field "command" (Json.str "isolate") end) (record d { isolated = true })

-- `dispatch_responses`, on the row of the device
unfoldable pub dispatch_responses : Bool → String → Detection → Db → Db
unfolding wants_isolation
dispatch_responses auto_isolate device_id det db = elim (find (λ d. d.id == device_id) db.devices) [
  | none ↦ db
  | some device ↦
      if wants_isolation auto_isolate det && not device.isolated
      then save_device device_id isolate_row db
      else db
]

-- the loop of `telemetry` over the detections of a batch
unfoldable pub dispatch_all : Bool → String → List Detection → Db → Db
unfolding dispatch_responses
dispatch_all auto_isolate device_id [] db = db
dispatch_all auto_isolate device_id (det ∷ dets) db =
    dispatch_all auto_isolate device_id dets (dispatch_responses auto_isolate device_id det db)
