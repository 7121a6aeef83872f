-- ===== src/Server/Fleet/Telemetry.antt =====
-- Ingestion of events: `telemetry` and `_sync_quarantine` of server/app/routers/agents.py. The session does
-- not flush by itself, so a row that is added is not found before the commit. Integers that a device sends
-- as text are rows of digits. A value where the code expects text is empty if it is none. What is sent to
-- the dashboard, to alerts and to integrations is left out.
pub mod Ingestion
pub mod Answers
pub mod Unreadable
pub mod Results
use silentguard_xdr.Server.Models.{
  Json, null, bool, num, str, text, Fields, Db, Device, ThreatEvent, Detection, QuarantineItem, get,
  truthy,
}
use silentguard_xdr.Server.Exec.{Piece, Result, ok, err, Exec, HttpError, http}
use silentguard_xdr.Server.Sigma.Condition.{is_number, number_of}
use silentguard_xdr.Server.Response.{save_device, record_result}
use silentguard_xdr.Server.Fleet.{seen}
use silentguard_xdr.Server.Detection.{dispatch_all}
use silentguard_xdr.Server.Detection.Evaluate.{evaluate_event}
use silentguard_xdr.Prelude.{
  ℕ, ◌+◌, String, Bool, true, false, not, ◌&&◌, ◌||◌, Option, none, some, List, [], ◌∷◌, ◌++◌,
  if◌then◌else◌, ◌==◌, nat_eq, string_eq, option_eq, list_eq, length, any,
}
use silentguard_xdr.Prelude.Table.{find, update}
use silentguard_xdr.Prelude.Text.{Text, codes, string_of}

-- `class TelemetryEvent`
pub record TelemetryEvent : Type 0 where
  pub source : String
  pub severity : String
  pub action : String
  pub summary : List Piece
  pub details : Fields
  pub timestamp : Option ℕ

-- a value that is a text
unfoldable pub as_string : Json → String
unfolding string_of
as_string (str s) = s
as_string (text t) = string_of t
as_string v = ""

abbrev pub string_at : String → String → Fields → String
string_at k rest d = elim (get k d) [ none ↦ rest | some v ↦ as_string v ]

abbrev digits_value : Text → Option ℕ
digits_value t = if is_number t then some (number_of 0 t) else none

-- `int(v)`
unfoldable pub as_int : Json → Option ℕ
as_int (num n) = some n
as_int (bool b) = some (if b then 1 else 0)
as_int (str s) = digits_value (codes s)
as_int (text t) = digits_value t
as_int v = none

abbrev pub truthy_at : String → Fields → Bool
truthy_at k d = elim (get k d) [ none ↦ false | some v ↦ truthy v ]

-- What a request holds before its commit: the tables, the quarantine rows it added, and the new events.
pub record Session : Type 0 where
  pub db : Db
  pub pending : List QuarantineItem
  pub stored : List ThreatEvent

abbrev pub with_db : Session → (Db → Db) → Session
with_db s f = record s { db = f s.db }

abbrev pub internal_error : HttpError
internal_error = http 500 "Internal server error"

module _ (now : ℕ) (device : Device) where
  abbrev pub mirror_row : String → Fields → QuarantineItem
  mirror_row id d = record {
    id = id;
    device_id = device.id;
    org_id = device.org_id;
    original_path = string_at "original_path" "" d;
    sha256 = string_at "sha256" "" d;
    reason = string_at "reason" "" d;
    verdict = string_at "verdict" "unknown" d;
    status = "quarantined";
    quarantined_at = now;
    restored_at = none;
  }

  abbrev pub mark_restored : QuarantineItem → QuarantineItem
  mark_restored i = record i { status = "restored"; restored_at = some now }

  abbrev pub mark_quarantined : QuarantineItem → QuarantineItem
  mark_quarantined i = record i { status = "quarantined" }

  abbrev pub save_item : String → (QuarantineItem → QuarantineItem) → Db → Db
  save_item id f db = record db { quarantine = update (λ i. i.id == id) f db.quarantine }

  -- `_sync_quarantine`
  unfoldable pub sync_quarantine : TelemetryEvent → Session → Session
  unfolding as_string
  sync_quarantine ev s =
      let id = string_at "id" "" ev.details in
      if truthy_at "id" ev.details
      then (if ev.action == "quarantined"
          then elim (find (λ i. i.id == id) s.db.quarantine) [
            | some item ↦ s
            | none ↦ record s { pending = s.pending ++ mirror_row id ev.details ∷ [] }
          ]
          else if ev.action == "restored"
          then with_db s (save_item id mark_restored)
          else if ev.action == "restore_failed"
          then with_db s (save_item id mark_quarantined)
          else s)
      else s

  -- the device's `stopped` flag
  unfoldable pub track_agent : TelemetryEvent → Session → Session
  track_agent ev s =
      if ev.source == "agent" && ev.action == "stopped"
      then with_db s (save_device device.id (λ d. record d { stopped = true }))
      else if ev.source == "agent" && ev.action == "started"
      then with_db s (save_device device.id (λ d. record d { stopped = false }))
      else s

  abbrev pub stored_row : ℕ → TelemetryEvent → ThreatEvent
  stored_row id ev = record {
    id = id;
    device_id = device.id;
    org_id = device.org_id;
    timestamp = elim ev.timestamp [ none ↦ now | some t ↦ t ];
    source = ev.source;
    severity = ev.severity;
    action = ev.action;
    summary = ev.summary;
    details = ev.details;
  }

  abbrev pub store_event : TelemetryEvent → Session → Session
  store_event ev s =
      let row = stored_row s.db.next_id ev in
      record {
        db = record s.db { events = s.db.events ++ row ∷ []; next_id = s.db.next_id + 1 };
        pending = s.pending;
        stored = s.stored ++ row ∷ [];
      }

  abbrev pub is_result : TelemetryEvent → Bool
  is_result ev =
      ev.source == "response" && ev.action == "result" && truthy_at "action_id" ev.details

  abbrev pub action_id_of : TelemetryEvent → Option ℕ
  action_id_of ev = elim (get "action_id" ev.details) [ none ↦ none | some v ↦ as_int v ]

  -- the part of an event that is a result, none for the ValueError of `int`
  unfoldable pub take_result : TelemetryEvent → Session → Option Session
  unfolding as_string as_int
  take_result ev s =
      if is_result ev
      then elim (action_id_of ev) [
        | none ↦ none
        | some id ↦
            some (with_db s (record_result now id (string_at "status" "ok" ev.details) ev.details))
      ]
      else some s

  -- the body of the loop over the batch
  unfoldable pub ingest : TelemetryEvent → Session → Option Session
  ingest ev s =
      let s₁ = track_agent ev s in
      let s₂ =
        if ev.source == "quarantine" || ev.source == "file_drop"
        then sync_quarantine ev s₁
        else s₁ in
      elim (take_result ev s₂) [ none ↦ none | some s₃ ↦ some (store_event ev s₃) ]

  unfoldable pub ingest_all : List TelemetryEvent → Session → Option Session
  unfolding ingest
  ingest_all [] s = some s
  ingest_all (ev ∷ evs) s = elim (ingest ev s) [ none ↦ none | some s' ↦ ingest_all evs s' ]

-- the session behind the first assignments
abbrev pub opened : ℕ → Device → Db → Session
opened now device db = record {
  db = save_device device.id (seen now) db;
  pending = [];
  stored = [];
}

-- the primary key of the table
unfoldable pub has_distinct_ids : List QuarantineItem → Bool
has_distinct_ids [] = true
has_distinct_ids (i ∷ is) = not (any (λ j. j.id == i.id) is) && has_distinct_ids is

module _ (render : List Piece → Text) (dumps : Fields → Text) (shown : Json → Text)
    (search : Text → Text → Option Bool) (load : Text → Option Json) (find_urls : Text → List Text)
    (sigma_enabled : Bool) (now : ℕ) where
  -- the loop over the stored events
  unfoldable pub evaluate_all : Device → List ThreatEvent → Db → Option (List Detection × Db)
  evaluate_all device [] db = some ([], db)
  evaluate_all device (row ∷ rows) db =
      elim (evaluate_event now device row render dumps shown search load find_urls sigma_enabled
        db) [
          | none ↦ none
          | some (dets, db') ↦ elim (evaluate_all device rows db') [
            | none ↦ none
            | some (more, db'') ↦ some (dets ++ more, db'')
          ]
        ]

  -- `auto_isolate` is the setting
  module _ (auto_isolate : Bool) where
    -- behind the first commit
    unfoldable pub detect : Device → List ThreatEvent → Exec Db (ℕ × ℕ)
    unfolding evaluate_all
    detect device rows db = elim (evaluate_all device rows db) [
      | none ↦ (err internal_error, db)
      | some (dets, db') ↦
          (ok (length rows, length dets), dispatch_all auto_isolate device.id dets db')
    ]

    -- the first commit
    unfoldable pub commit : Device → Db → Session → Result (ℕ × ℕ) × Db
    unfolding detect has_distinct_ids
    commit device before s =
        if has_distinct_ids s.pending
        then detect device s.stored (record s.db { quarantine = s.db.quarantine ++ s.pending })
        else (err internal_error, before)

    -- `telemetry`: how many events it accepted, and how many detections they gave
    unfoldable pub telemetry : String → List TelemetryEvent → Exec Db (ℕ × ℕ)
    unfolding ingest_all commit
    telemetry api_key batch db = elim (find (λ d. d.api_key == api_key) db.devices) [
      | none ↦ (err (http 401 "Invalid agent key"), db)
      | some device ↦ elim (ingest_all now device batch (opened now device db)) [
        | none ↦ (err internal_error, db)
        | some s ↦ commit device db s
      ]
    ]
