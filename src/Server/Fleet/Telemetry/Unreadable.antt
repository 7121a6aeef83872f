-- ===== src/Server/Fleet/Telemetry/Unreadable.antt =====
-- A host that cannot be read, in the indicators of an event.
use silentguard_xdr.Server.Fleet.Telemetry.Ingestion.{ingest_all-Stored, rows_of, Stored}
use silentguard_xdr.Server.Fleet.Telemetry.{
  has_distinct_ids, opened, Session, stored_row, ingest_all, detect, internal_error, commit,
  telemetry, evaluate_all, TelemetryEvent,
}
use silentguard_xdr.Server.Detection.Untouched.{
  event_only, iocs_only, rules_only, only_trans, Leaves,
}
use silentguard_xdr.Server.Detection.Rules.Seed.{seed_rules}
use silentguard_xdr.Server.Intel.Indicators.{extract_indicators}
use silentguard_xdr.Server.Detection.{evaluate_rules, add_detection}
use silentguard_xdr.Server.Detection.Evaluate.{
  evaluate_iocs, domain_row, blocked_domains, evaluate_event, evaluate_domains,
  evaluate_blocklist_domains,
}
use silentguard_xdr.Server.NetMatch.{host_matches_any}
use silentguard_xdr.Server.Models.{Json, Fields, Db, Device, ThreatEvent, Detection}
use silentguard_xdr.Server.Exec.{Piece, Result, err}
use silentguard_xdr.Prelude.{
  ℕ, ◌+◌, String, ◌≡◌, refl, ap, inl, inr, Bool, true, false, ◌&&◌, ◌||◌, Option, none, some, List,
  [], ◌∷◌, ◌++◌, ◌==◌, nat_eq, string_eq, option_eq, list_eq, Bool-cases, Option-cases, any,
}
use silentguard_xdr.Prelude.Table.{find}
use silentguard_xdr.Prelude.Text.{Text}

abbrev is_missing {ℓ} : {A : Type ℓ} → Option A → Bool
is_missing none = true
is_missing (some a) = false

is_missing-none : {A : Type 0} (o : Option A) → is_missing o ≡ true → o ≡ none
is_missing-none none h = refl
is_missing-none (some a) h = cc

-- an indicator that is matched against the blocked domains, and makes the match raise
abbrev pub is_unreadable : List Text → String × Text → Bool
is_unreadable blocked (t, v) =
    (t == "domain" || t == "url") && is_missing (host_matches_any v blocked)

module _ (now : ℕ) (device : Device) (event : ThreatEvent) where
  domains_raise :
      (blocked seen : List Text) (is : List (String × Text)) (db : Db)
      → any (is_unreadable blocked) is ≡ true
      → evaluate_domains now device event blocked seen is db ≡ none
  unfolding evaluate_domains
  domains_raise blocked seen [] db h = cc
  domains_raise blocked seen ((t, v) ∷ is) db h = elim (Bool-cases (t == "domain" || t == "url")) [
    | inr other ↦ rw (other, evaluate_domains) (domains_raise blocked seen is db (rw other at h))
    | inl web ↦ elim (Option-cases (host_matches_any v blocked)) [
      | inl bad ↦ rw (web, bad, evaluate_domains) refl
      | inr (found, e) ↦
          let later : any (is_unreadable blocked) is ≡ true = rw e at (rw web at h) in
          elim (Option-cases found) [
            | inl miss ↦
                rw (web, e, miss, evaluate_domains) (domains_raise blocked seen is db later)
            | inr (m, e') ↦ elim (Bool-cases (m == [] || any (λ s. s == m) seen)) [
              | inl known ↦
                  rw (web, e, e', known, evaluate_domains) (domains_raise blocked seen is db later)
              | inr fresh ↦
                  rw (web, e, e', fresh, evaluate_domains)
                    (rw
                      (domains_raise blocked (m ∷ seen) is
                        (add_detection (domain_row now device event m v db.next_id) db) later)
                      refl)
            ]
          ]
    ]
  ]

  blocklist_raises :
      (is : List (String × Text)) (db : Db)
      → (blocked_domains event.org_id db == []) ≡ false
      → any (is_unreadable (blocked_domains event.org_id db)) is ≡ true
      → evaluate_blocklist_domains now device event is db ≡ none
  unfolding evaluate_blocklist_domains
  blocklist_raises is db some_blocked h =
      rw some_blocked (domains_raise (blocked_domains event.org_id db) [] is db h)

  module _ (render : List Piece → Text) (dumps : Fields → Text) (shown : Json → Text)
      (search : Text → Text → Option Bool) (load : Text → Option Json)
      (find_urls : Text → List Text) where
    event_raises :
        (sigma_enabled : Bool) (db : Db)
        → (blocked_domains event.org_id db == []) ≡ false
        → any
            (is_unreadable (blocked_domains event.org_id db))
            (extract_indicators shown find_urls event.details)
          ≡ true
        → evaluate_event now device event render dumps shown search load find_urls sigma_enabled db
          ≡ none
    unfolding evaluate_event
    event_raises sigma_enabled db some_blocked h =
        let is = extract_indicators shown find_urls event.details in
        let db₁ = (evaluate_rules render shown dumps now device event seed_rules db).1 in
        let db₂ = (evaluate_iocs now device event is db₁).1 in
        let same : db₂.blocklist ≡ db.blocklist =
          let (_, _, e) =
            only_trans db db₁ db₂ (rules_only now device event render shown dumps seed_rules db)
              (iocs_only now device event is db₁) in
          ap (λ d. d.blocklist) e in
        rw (blocklist_raises is db₂ (rw same some_blocked) (rw same h), evaluate_event) refl

module _ (render : List Piece → Text) (dumps : Fields → Text) (shown : Json → Text)
    (search : Text → Text → Option Bool) (load : Text → Option Json) (find_urls : Text → List Text)
    (sigma_enabled : Bool) (now : ℕ) (device : Device) where
  -- an event whose indicators make the match raise
  abbrev pub IsUnreadable : Db → TelemetryEvent → Type 0
  IsUnreadable db ev =
      any (is_unreadable (blocked_domains device.org_id db))
        (extract_indicators shown find_urls ev.details)
      ≡ true

  Raises : Option (List Detection × Db) → Type 0
  Raises o = o ≡ none

  Fails : Result (ℕ × ℕ) × Db → Type 0
  Fails r = r.0 ≡ err internal_error

  rest-Raises :
      (db db' : Db) (dets : List Detection) (o : Option (List Detection × Db))
      → o ≡ none
      → Raises (elim o [ none ↦ none | some (more, db'') ↦ some (dets ++ more, db'') ])
  unfolding Raises
  rest-Raises db db' dets none h = refl
  rest-Raises db db' dets (some r) h = cc

  step-Raises :
      (rows : List ThreatEvent) (db : Db) (o : Option (List Detection × Db))
      → Leaves db o
      → ((db' : Db)
          → db'.blocklist ≡ db.blocklist
          → evaluate_all render dumps shown search load find_urls sigma_enabled now device rows db'
            ≡ none)
      → Raises (elim o [
        | none ↦ none
        | some (dets, db') ↦
            elim (evaluate_all render dumps shown search load find_urls sigma_enabled now device
              rows db') [ none ↦ none | some (more, db'') ↦ some (dets ++ more, db'') ]
      ])
  unfolding Raises
  step-Raises rows db none h later = refl
  step-Raises rows db (some (dets, db')) (ds, n, e) later =
      rest-Raises db db' dets
        (evaluate_all render dumps shown search load find_urls sigma_enabled now device rows db')
        (later db' (ap (λ d. d.blocklist) e))

  all_raise :
      (n : ℕ) (pre post : List TelemetryEvent) (bad : TelemetryEvent) (db : Db)
      → (blocked_domains device.org_id db == []) ≡ false
      → IsUnreadable db bad
      → evaluate_all render dumps shown search load find_urls sigma_enabled now device
          (rows_of now device n (pre ++ bad ∷ post))
          db
        ≡ none
  unfolding evaluate_all Raises
  all_raise n [] post bad db some_blocked h =
      rw
        (
          event_raises now device (stored_row now device n bad) render dumps shown search load
              find_urls sigma_enabled db some_blocked h,
          evaluate_all,
        )
        refl
  all_raise n (ev ∷ pre) post bad db some_blocked h =
      let row = stored_row now device n ev in
      step-Raises (rows_of now device (n + 1) (pre ++ bad ∷ post)) db
        (evaluate_event now device row render dumps shown search load find_urls sigma_enabled db)
        (event_only now device row render dumps shown search load find_urls sigma_enabled db)
        (λ db' same. all_raise (n + 1) pre post bad db' (rw same some_blocked) (rw same h))

  ingested_raises :
      (auto_isolate : Bool) (pre post : List TelemetryEvent) (bad : TelemetryEvent) (db : Db)
      (o : Option Session)
      → Stored now device (opened now device db) (pre ++ bad ∷ post) o
      → (blocked_domains device.org_id db == []) ≡ false
      → IsUnreadable db bad
      → Fails (elim o [
        | none ↦ (err internal_error, db)
        | some s ↦
            commit render dumps shown search load find_urls sigma_enabled now auto_isolate device db
              s
      ])
  unfolding Stored commit detect Fails
  ingested_raises auto_isolate pre post bad db none h some_blocked unreadable = refl
  ingested_raises auto_isolate pre post bad db (some s) (_, rows, _, hosts) some_blocked
        unreadable =
      elim (Bool-cases (has_distinct_ids s.pending)) [
        | inr twice ↦ rw twice refl
        | inl distinct ↦
            let after : Db = record s.db { quarantine = s.db.quarantine ++ s.pending } in
            let raises =
              all_raise db.next_id pre post bad after (rw hosts some_blocked)
                (rw hosts unreadable) in
            let stored_raise : evaluate_all render dumps shown search load find_urls sigma_enabled
                  now device s.stored after
                ≡ none =
              rw rows raises in
            rw distinct (rw (stored_raise, detect) refl)
      ]

  -- A batch with an event whose indicators include a host that cannot be read is answered with an internal
  -- error, wherever the event stands, if the device is known and a domain is blocked for its organization.
  pub unreadable_host_fails_batch :
      (auto_isolate : Bool) (pre post : List TelemetryEvent) (bad : TelemetryEvent) (db : Db)
      → find (λ e. e.api_key == device.api_key) db.devices ≡ some device
      → (blocked_domains device.org_id db == []) ≡ false
      → IsUnreadable db bad
      → (telemetry render dumps shown search load find_urls sigma_enabled now auto_isolate
          device.api_key
          (pre ++ bad ∷ post)
          db).0
        ≡ err internal_error
  unfolding telemetry Fails
  unreadable_host_fails_batch auto_isolate pre post bad db found some_blocked unreadable =
      let batch = pre ++ bad ∷ post in
      rw (found, telemetry)
        (ingested_raises auto_isolate pre post bad db
          (ingest_all now device batch (opened now device db))
          (ingest_all-Stored now device batch (opened now device db)) some_blocked unreadable)
