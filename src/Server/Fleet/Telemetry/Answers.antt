-- ===== src/Server/Fleet/Telemetry/Answers.antt =====
-- What a batch leaves in the database, whatever its answer.
use mathlib.Core.Path.{subst}
use silentguard_xdr.Server.Fleet.Telemetry.Ingestion.{ingest_all-Stored, rows_of, Stored}
use silentguard_xdr.Server.Detection.Evaluate.{evaluate_event}
use silentguard_xdr.Server.Fleet.Telemetry.{
  ingest_all, telemetry, has_distinct_ids, opened, Session, internal_error, commit, detect,
  TelemetryEvent, evaluate_all,
}
use silentguard_xdr.Server.Detection.Untouched.{event_only, Leaves}
use silentguard_xdr.Server.Detection.{wants_isolation, dispatch_responses, dispatch_all}
use silentguard_xdr.Server.Models.{Json, Fields, Db, Device, ThreatEvent, Detection}
use silentguard_xdr.Server.Exec.{ok, err, Result, Piece}
use silentguard_xdr.Prelude.{
  ℕ, ◌+◌, String, ◌≡◌, refl, ap, ◌∙◌, ◌⊎◌, inl, inr, Bool, not, ◌&&◌, Option, none, some, List, [],
  ◌∷◌, ◌++◌, arith, ◌==◌, nat_eq, string_eq, option_eq, list_eq, Bool-cases, Option-cases, length,
}
use silentguard_xdr.Prelude.Table.{find}
use silentguard_xdr.Prelude.Text.{Text}

-- The database that a call leaves has the same events and blocked hosts.
abbrev Holds : Db → Db → Type 0
Holds db db' = (db'.events ≡ db.events) × (db'.blocklist ≡ db.blocklist)

dispatch_responses-Holds :
    (auto : Bool) (id : String) (det : Detection) (db : Db)
    → Holds db (dispatch_responses auto id det db)
unfolding dispatch_responses
dispatch_responses-Holds auto id det db = elim (Option-cases (find (λ d. d.id == id) db.devices)) [
  | inl gone ↦ rw (gone, dispatch_responses) (refl, refl)
  | inr (d, e) ↦ elim (Bool-cases (wants_isolation auto det && not d.isolated)) [
    | inl wants ↦ rw (e, wants, dispatch_responses) (refl, refl)
    | inr calm ↦ rw (e, calm, dispatch_responses) (refl, refl)
  ]
]

dispatch_all-Holds :
    (auto : Bool) (id : String) (dets : List Detection) (db : Db)
    → Holds db (dispatch_all auto id dets db)
unfolding dispatch_all
dispatch_all-Holds auto id [] db = (refl, refl)
dispatch_all-Holds auto id (det ∷ dets) db =
    let (e, l) = dispatch_responses-Holds auto id det db in
    let (e', l') = dispatch_all-Holds auto id dets (dispatch_responses auto id det db) in
    (e' ∙ e, l' ∙ l)

module _ (render : List Piece → Text) (dumps : Fields → Text) (shown : Json → Text)
    (search : Text → Text → Option Bool) (load : Text → Option Json) (find_urls : Text → List Text)
    (sigma_enabled : Bool) (now : ℕ) where
  -- where the evaluation does not raise
  HoldsAll : Db → Option (List Detection × Db) → Type 0
  HoldsAll db none = Unit
  HoldsAll db (some (dets, db')) = Holds db db'

  HoldsAll-more :
      (db db' : Db) (dets : List Detection) (o : Option (List Detection × Db))
      → Holds db db'
      → HoldsAll db' o
      → HoldsAll db (elim o [ none ↦ none | some (more, db'') ↦ some (dets ++ more, db'') ])
  unfolding HoldsAll
  HoldsAll-more db db' dets none first later = tt
  HoldsAll-more db db' dets (some (more, db'')) (e, l) (e', l') = (e' ∙ e, l' ∙ l)

  HoldsAll-step :
      (device : Device) (rows : List ThreatEvent) (db : Db) (o : Option (List Detection × Db))
      → Leaves db o
      → ((db' : Db)
          → HoldsAll db' (
              evaluate_all render dumps shown search load find_urls sigma_enabled now device rows
                db'))
      → HoldsAll db (elim o [
        | none ↦ none
        | some (dets, db') ↦
            elim (evaluate_all render dumps shown search load find_urls sigma_enabled now device
              rows db') [ none ↦ none | some (more, db'') ↦ some (dets ++ more, db'') ]
      ])
  unfolding HoldsAll
  HoldsAll-step device rows db none first later = tt
  HoldsAll-step device rows db (some (dets, db')) (ds, n, e) later =
      HoldsAll-more db db' dets
        (evaluate_all render dumps shown search load find_urls sigma_enabled now device rows db')
        (ap (λ d. d.events) e, ap (λ d. d.blocklist) e) (later db')

  evaluate_all-Holds :
      (device : Device) (rows : List ThreatEvent) (db : Db)
      → HoldsAll db
          (evaluate_all render dumps shown search load find_urls sigma_enabled now device rows db)
  unfolding evaluate_all HoldsAll
  evaluate_all-Holds device [] db = (refl, refl)
  evaluate_all-Holds device (row ∷ rows) db =
      HoldsAll-step device rows db
        (evaluate_event now device row render dumps shown search load find_urls sigma_enabled db)
        (event_only now device row render dumps shown search load find_urls sigma_enabled db)
        (evaluate_all-Holds device rows)

  -- the number of events that an answer reports
  abbrev pub Accepts : ℕ → Result (ℕ × ℕ) → Type 0
  Accepts n (ok (accepted, dets)) = accepted ≡ n
  Accepts n (err e) = e ≡ internal_error

  length-rows_of :
      (device : Device) (n : ℕ) (evs : List TelemetryEvent)
      → length (rows_of now device n evs) ≡ length evs
  length-rows_of device n [] = refl
  length-rows_of device n (ev ∷ evs) = omega (arith, length-rows_of device (n + 1) evs)

  module _ (auto_isolate : Bool) (device : Device) where
    DetectHolds : List ThreatEvent → Db → Result (ℕ × ℕ) × Db → Type 0
    DetectHolds rows db (r, db') = Holds db db' × Accepts (length rows) r

    detect_result :
        (rows : List ThreatEvent) (db : Db) (o : Option (List Detection × Db))
        → HoldsAll db o
        → DetectHolds rows db (elim o [
          | none ↦ (err internal_error, db)
          | some (dets, db') ↦
              (ok (length rows, length dets), dispatch_all auto_isolate device.id dets db')
        ])
    unfolding HoldsAll DetectHolds
    detect_result rows db none h = ((refl, refl), refl)
    detect_result rows db (some (dets, db')) (e, l) =
        let (e', l') = dispatch_all-Holds auto_isolate device.id dets db' in
        ((e' ∙ e, l' ∙ l), refl)

    detect-Holds :
        (rows : List ThreatEvent) (db : Db)
        → DetectHolds rows db (
            detect render dumps shown search load find_urls sigma_enabled now auto_isolate device
              rows db)
    unfolding detect
    detect-Holds rows db =
        detect_result rows db
          (evaluate_all render dumps shown search load find_urls sigma_enabled now device rows db)
          (evaluate_all-Holds device rows db)

    -- All of the batch, or nothing
    abbrev pub AllOrNothing : List TelemetryEvent → Db → Result (ℕ × ℕ) × Db → Type 0
    AllOrNothing batch db (r, db') =
        ((r ≡ err internal_error) × (db' ≡ db))
        ⊎ ((db'.events ≡ db.events ++ rows_of now device db.next_id batch)
            × Accepts (length batch) r)

    ingested :
        (batch : List TelemetryEvent) (db : Db) (o : Option Session)
        → Stored now device (opened now device db) batch o
        → AllOrNothing batch db (elim o [
          | none ↦ (err internal_error, db)
          | some s ↦
              commit render dumps shown search load find_urls sigma_enabled now auto_isolate device
                db s
        ])
    unfolding Stored commit DetectHolds
    ingested batch db none h = inl (refl, refl)
    ingested batch db (some s) (events, rows, keys, hosts) =
        elim (Bool-cases (has_distinct_ids s.pending)) [
          | inr twice ↦ rw twice (inl (refl, refl))
          | inl distinct ↦
              let after : Db = record s.db { quarantine = s.db.quarantine ++ s.pending } in
              let run = detect-Holds s.stored after in
              let size : length s.stored ≡ length batch =
                rw rows (length-rows_of device db.next_id batch) in
              rw distinct (
                inr (
                  run.0.0 ∙ events,
                  subst
                      (λ n.
                        Accepts n
                          (detect render dumps shown search load find_urls sigma_enabled now
                            auto_isolate device s.stored after).0)
                      size run.1,
                ))
        ]

  -- A batch of a known device is stored whole or not at all: its events are appended in their order, as rows
  -- of the device and its organization with consecutive keys, or the answer is an internal error and the
  -- database is as before. The number of events that an answer reports is that of the batch; any other
  -- answer is an internal error.
  pub telemetry-AllOrNothing :
      (auto_isolate : Bool) (api_key : String) (batch : List TelemetryEvent) (db : Db) (d : Device)
      → find (λ e. e.api_key == api_key) db.devices ≡ some d
      → AllOrNothing auto_isolate d batch db (
          telemetry render dumps shown search load find_urls sigma_enabled now auto_isolate api_key
            batch db)
  unfolding telemetry
  telemetry-AllOrNothing auto_isolate api_key batch db d found =
      rw (found, telemetry)
        (ingested auto_isolate d batch db (ingest_all now d batch (opened now d db))
          (ingest_all-Stored now d batch (opened now d db)))
