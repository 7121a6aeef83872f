-- ===== src/Server/Fleet/Telemetry/Results.antt =====
-- The results of response actions that a device reports.
use silentguard_xdr.Server.Response.Lifecycle.{first_result_stays, outcome}
use silentguard_xdr.Server.Response.{complete, record_result}
use silentguard_xdr.Server.Fleet.Telemetry.{
  truthy_at, with_db, store_event, action_id_of, take_result, is_result, as_int, track_agent,
  string_at, TelemetryEvent, ingest, Session,
}
use silentguard_xdr.Server.Models.{truthy, num, Fields, Db, Device, ResponseAction, get}
use silentguard_xdr.Prelude.{
  ℕ, suc, String, ◌≡◌, refl, true, false, ◌||◌, Option, none, some, arith, ◌==◌, nat_eq, string_eq,
  option_eq, list_eq,
}
use silentguard_xdr.Prelude.Table.{find}

-- the session behind a result
abbrev pub Completes : Option Session → ℕ → ResponseAction → Type 0
Completes none id a = true ≡ false
Completes (some s) id a = find (λ b. b.id == id) s.db.actions ≡ some a

module _ (now : ℕ) (device : Device) where
  record_result-first :
      (id : ℕ) (status : String) (result : Fields) (db : Db) (a : ResponseAction)
      → find (λ b. b.id == id) db.actions ≡ some a
      → a.status ≡ "queued"
      → find (λ b. b.id == id) (record_result now id status result db).actions
        ≡ some (complete now (outcome status) result a)
  record_result-first id status result db a found queued =
      rw (first_result_stays now now id status status result result db a found queued).0 refl

  truthy_at-some :
      (ev : TelemetryEvent) (id : ℕ)
      → get "action_id" ev.details ≡ some (num (suc id))
      → truthy_at "action_id" ev.details ≡ truthy (num (suc id))
  truthy_at-some ev id names = rw (names, truthy_at) refl

  take_result-some :
      (ev : TelemetryEvent) (id : ℕ) (s : Session)
      → is_result now device ev ≡ true
      → action_id_of now device ev ≡ some id
      → take_result now device ev s
        ≡ some (with_db s (record_result now id (string_at "status" "ok" ev.details) ev.details))
  unfolding take_result
  take_result-some ev id s result names = rw (result, names, take_result) refl

  ingest-some :
      (ev : TelemetryEvent) (s s' : Session)
      → track_agent now device ev s ≡ s
      → (ev.source == "quarantine" || ev.source == "file_drop") ≡ false
      → take_result now device ev s ≡ some s'
      → ingest now device ev s ≡ some (store_event now device ev s')
  unfolding ingest
  ingest-some ev s s' untracked other taken = rw (untracked, other, ingest) (rw taken refl)

  -- The first result that names a queued action completes it, whichever device reports it: neither the
  -- device of the action nor its organization is compared with the reporting device.
  pub result_of_any_device :
      (ev : TelemetryEvent) (id : ℕ) (s : Session) (a : ResponseAction)
      → ev.source ≡ "response"
      → ev.action ≡ "result"
      → get "action_id" ev.details ≡ some (num (suc id))
      → find (λ b. b.id == suc id) s.db.actions ≡ some a
      → a.status ≡ "queued"
      → Completes
          (ingest now device ev s)
          (suc id)
          (complete now (outcome (string_at "status" "ok" ev.details)) ev.details a)
  result_of_any_device ev id s a source action names found queued =
      let truth : truthy (num (suc id)) ≡ true = unfold truthy in ground arith in
      let read : as_int (num (suc id)) ≡ some (suc id) = unfold as_int in refl in
      let result : is_result now device ev ≡ true =
        rw (source, action) (rw (truthy_at-some ev id names) truth) in
      let named : action_id_of now device ev ≡ some (suc id) = rw (names, action_id_of) read in
      let other : (ev.source == "quarantine" || ev.source == "file_drop") ≡ false =
        rw source refl in
      let untracked : track_agent now device ev s ≡ s = unfold track_agent in rw source refl in
      let run = ingest-some ev s _ untracked other (take_result-some ev (suc id) s result named) in
      rw run (
        record_result-first (suc id) (string_at "status" "ok" ev.details) ev.details s.db a found
          queued)
