-- ===== src/Server/Fleet/Telemetry/Ingestion.antt =====
-- What ingestion stores, and when it stores nothing.
use mathlib.Core.List.{append_assoc, append-nil}
use silentguard_xdr.Server.Models.{Fields, Db, Device, ThreatEvent}
use silentguard_xdr.Server.Fleet.Telemetry.{
  store_event, action_id_of, string_at, is_result, TelemetryEvent, Session, sync_quarantine,
  track_agent, take_result, stored_row, ingest, ingest_all, truthy_at,
}
use silentguard_xdr.Server.Response.{record_result}
use silentguard_xdr.Prelude.{
  ℕ, ◌+◌, String, ◌≡◌, refl, sym, ◌∙◌, inl, inr, Bool, true, false, ◌||◌, Option, none, some, List,
  [], ◌∷◌, ◌++◌, arith, if◌then◌else◌, ◌==◌, nat_eq, string_eq, option_eq, list_eq, Bool-cases,
  Option-cases, length,
}
use silentguard_xdr.Prelude.Table.{find}

-- A step that changes no event, no key counter and no blocked host.
abbrev Same : Session → Session → Type 0
Same s s' =
    (s'.db.events ≡ s.db.events)
    × (s'.db.next_id ≡ s.db.next_id)
    × (s'.stored ≡ s.stored)
    × (s'.db.blocklist ≡ s.db.blocklist)

Same-trans : (a b c : Session) → Same a b → Same b c → Same a c
Same-trans a b c (e, n, s, l) (e', n', s', l') = (e' ∙ e, n' ∙ n, s' ∙ s, l' ∙ l)

Same-if :
    (s : Session) (b : Bool) (x y : Session) → Same s x → Same s y → Same s (if b then x else y)
Same-if s true x y hx hy = hx
Same-if s false x y hx hy = hy

Same-find :
    {A : Type 0} (s : Session) (o : Option A) (x y : Session)
    → Same s x
    → Same s y
    → Same s (elim o [ some a ↦ x | none ↦ y ])
Same-find s none x y hx hy = hy
Same-find s (some a) x y hx hy = hx

Same-refl : (s : Session) → Same s s
Same-refl s = (refl, refl, refl, refl)

-- the same for tables
abbrev Keeps : Db → Db → Type 0
Keeps db db' =
    (db'.events ≡ db.events) × (db'.next_id ≡ db.next_id) × (db'.blocklist ≡ db.blocklist)

record_result-Keeps :
    (now id : ℕ) (status : String) (result : Fields) (db : Db)
    → Keeps db (record_result now id status result db)
unfolding record_result
record_result-Keeps now id status result db =
    elim (Option-cases (find (λ a. a.id == id) db.actions)) [
      | inl gone ↦ rw (gone, record_result) (refl, refl, refl)
      | inr (a, e) ↦ elim (Bool-cases (a.status == "queued")) [
        | inl queued ↦ rw (e, queued, record_result) (refl, refl, refl)
        | inr done ↦ rw (e, done, record_result) (refl, refl, refl)
      ]
    ]

module _ (now : ℕ) (device : Device) where
  track_agent-Same : (ev : TelemetryEvent) (s : Session) → Same s (track_agent now device ev s)
  unfolding track_agent
  track_agent-Same ev s = ground arith

  sync_quarantine-Same :
      (ev : TelemetryEvent) (s : Session) → Same s (sync_quarantine now device ev s)
  unfolding sync_quarantine
  sync_quarantine-Same ev s =
      let id = string_at "id" "" ev.details in
      let same = Same-refl s in
      Same-if s (truthy_at "id" ev.details) _ s
        (Same-if s (ev.action == "quarantined") _ _
          (Same-find s (find (λ i. i.id == id) s.db.quarantine) s _ same (refl, refl, refl, refl))
          (Same-if s (ev.action == "restored") _ _ (refl, refl, refl, refl)
            (Same-if s (ev.action == "restore_failed") _ s (refl, refl, refl, refl) same)))
        same

  -- what a step that may raise does
  SomeSame : Session → Option Session → Type 0
  SomeSame s none = Unit
  SomeSame s (some s') = Same s s'

  take_result-Same : (ev : TelemetryEvent) (s : Session) → SomeSame s (take_result now device ev s)
  unfolding take_result SomeSame
  take_result-Same ev s = elim (Bool-cases (is_result now device ev)) [
    | inr other ↦ rw (other, take_result) (Same-refl s)
    | inl result ↦ elim (Option-cases (action_id_of now device ev)) [
      | inl bad ↦ rw (result, bad, take_result) tt
      | inr (id, e) ↦
          let (events, keys, hosts) =
            record_result-Keeps now id (string_at "status" "ok" ev.details) ev.details s.db in
          rw (result, e, take_result) (events, keys, refl, hosts)
    ]
  ]

  -- the rows of a batch
  abbrev pub rows_of : ℕ → List TelemetryEvent → List ThreatEvent
  rows_of n [] = []
  rows_of n (ev ∷ evs) = stored_row now device n ev ∷ rows_of (n + 1) evs

  unfoldable pub Stored : Session → List TelemetryEvent → Option Session → Type 0
  Stored s evs none = Unit
  Stored s evs (some s') =
      (s'.db.events ≡ s.db.events ++ rows_of s.db.next_id evs)
      × (s'.stored ≡ s.stored ++ rows_of s.db.next_id evs)
      × (s'.db.next_id ≡ s.db.next_id + length evs)
      × (s'.db.blocklist ≡ s.db.blocklist)

  store_result :
      (ev : TelemetryEvent) (s s₂ : Session) (o : Option Session)
      → Same s s₂
      → SomeSame s₂ o
      → Stored s (ev ∷ []) (elim o [ none ↦ none | some s₃ ↦ some (store_event now device ev s₃) ])
  unfolding SomeSame Stored
  store_result ev s s₂ none before after = tt
  store_result ev s s₂ (some s₃) before after =
      let (events, keys, rows, hosts) = Same-trans s s₂ s₃ before after in
      rw (events, keys, rows) (refl, refl, refl, hosts)

  ingest-Stored : (ev : TelemetryEvent) (s : Session) → Stored s (ev ∷ []) (ingest now device ev s)
  unfolding ingest
  ingest-Stored ev s =
      let s₁ = track_agent now device ev s in
      let mirrored = sync_quarantine now device ev s₁ in
      let is_file = ev.source == "quarantine" || ev.source == "file_drop" in
      let s₂ = if is_file then mirrored else s₁ in
      store_result ev s s₂ (take_result now device ev s₂)
        (Same-trans s s₁ s₂ (track_agent-Same ev s)
          (Same-if s₁ is_file mirrored s₁ (sync_quarantine-Same ev s₁) (Same-refl s₁)))
        (take_result-Same ev s₂)

  Stored-trans :
      (ev : TelemetryEvent) (evs : List TelemetryEvent) (s s' : Session) (o : Option Session)
      → Stored s (ev ∷ []) (some s')
      → Stored s' evs o
      → Stored s (ev ∷ evs) o
  unfolding Stored
  Stored-trans ev evs s s' none first later = tt
  Stored-trans ev evs s s' (some t) (events, rows, keys, hosts) (events', rows', keys', hosts') =
      let row = stored_row now device s.db.next_id ev in
      let rest = rows_of (s.db.next_id + 1) evs in
      (
        rw (events', events, keys) (append_assoc s.db.events (row ∷ []) rest),
        rw (rows', rows, keys) (append_assoc s.stored (row ∷ []) rest),
        omega (arith, keys, keys'),
        hosts' ∙ hosts,
      )

  Stored-cons :
      (ev : TelemetryEvent) (evs : List TelemetryEvent) (s : Session) (o : Option Session)
      → Stored s (ev ∷ []) o
      → ((s' : Session) → Stored s' evs (ingest_all now device evs s'))
      → Stored s (ev ∷ evs) (elim o [ none ↦ none | some s' ↦ ingest_all now device evs s' ])
  unfolding Stored
  Stored-cons ev evs s none first later = tt
  Stored-cons ev evs s (some s') first later =
      Stored-trans ev evs s s' (ingest_all now device evs s') first (later s')

  pub ingest_all-Stored :
      (evs : List TelemetryEvent) (s : Session) → Stored s evs (ingest_all now device evs s)
  unfolding ingest_all Stored
  ingest_all-Stored [] s =
      (sym (append-nil s.db.events), sym (append-nil s.stored), omega arith, refl)
  ingest_all-Stored (ev ∷ evs) s =
      Stored-cons ev evs s (ingest now device ev s) (ingest-Stored ev s) (ingest_all-Stored evs)
