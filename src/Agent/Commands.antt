-- ===== src/Agent/Commands.antt =====
-- The commands of the agent: `handle_command` of agent/silentguard_agent/main.py, with the handlers of
-- response_handlers.py, and isolation.py. A command is the JSON object that the server queued. What the
-- operating system does is the record `Os`; `shell` is a firewall command that succeeds or fails. Of an
-- update's event only the version and the verification are kept. The digits of a version are those of ASCII.
-- A handler whose exception leaves `handle_command` is `raised`.
pub mod Ending
pub mod Answers
use silentguard_xdr.Server.Models.{
  Json, Items, Fields, null, num, str, text, bool, arr, obj, nil, item, end, field, get, truthy,
  merge,
}
use silentguard_xdr.Server.Exec.{Piece, lit, nat}
use silentguard_xdr.Server.Fleet.Telemetry.{truthy_at, TelemetryEvent, as_int}
use silentguard_xdr.Agent.Quarantine.{Entry, Store, quarantine, restore}
use silentguard_xdr.Agent.State.{text_of}
use silentguard_xdr.Agent.Update.{
  valid, invalid, target_of, acknowledged, signed_update, canonical_manifest, bare_signature,
  UpdateCommand, TrustKeys, Verdict, Outcome, remote_update,
}
use silentguard_xdr.Prelude.{
  ℕ, String, Bool, true, false, not, ◌&&◌, ◌||◌, Option, none, some, List, [], ◌∷◌, ◌++◌, ltb,
  if◌then◌else◌, ◌==◌, nat_eq, string_eq, option_eq, list_eq, length, all,
}
use silentguard_xdr.Prelude.Table.{find, select, count}
use silentguard_xdr.Prelude.Text.{Text, codes, lower, string_of}

-- What the handlers ask the system: the processes, the error of a kill, the error for a process that is not
-- there and for a pid that is no number, and the number of processes; whether the agent can write its own
-- directory, and `str` of a value.
pub record Os : Type 0 where
  pub processes : List (ℕ × Text)
  pub kill_error : ℕ → Option String
  pub no_process : ℕ → String
  pub no_number : Json → String
  pub process_count : ℕ
  pub sha256_of : Text → Text
  pub movable : Text → Text → Bool
  pub writable : Bool
  pub shown : Json → Text

-- What a command may change: the files, the update floor, and the events that were emitted
pub record Endpoint : Type 0 where
  pub store : Store
  pub update_floor : Text
  pub isolated : Bool
  pub emitted : List TelemetryEvent

-- what a handler leaves, and whether it ended without an exception
abbrev pub Handled : Type 0
Handled = Endpoint × Bool

abbrev pub ended : Endpoint → Handled
ended e = (e, true)

abbrev pub raised : Endpoint → Handled
raised e = (e, false)

-- the settings of the agent
pub record Options : Type 0 where
  pub dry_run : Bool
  pub management_server : Text
  pub quarantine_dir : Text
  pub keys : TrustKeys

-- a value that is a text
abbrev pub as_text : Json → Option Text
as_text (text t) = some t
as_text (str s) = some (codes s)
as_text v = none

-- `v or ""`, none where that is no text
abbrev pub read_text : Json → Option Text
read_text (text t) = some t
read_text (str s) = some (codes s)
read_text v = if truthy v then none else some []

-- `cmd.get(k) or ""`
abbrev pub read_at : String → Fields → Option Text
read_at k d = elim (get k d) [ none ↦ some [] | some v ↦ read_text v ]

-- the values that `int` does not take and that have no hash
abbrev pub is_container : Json → Bool
is_container (arr vs) = true
is_container (obj d) = true
is_container v = false

abbrev pub pid_raises : Fields → Bool
pid_raises cmd = elim (get "pid" cmd) [ none ↦ false | some v ↦ is_container v ]

abbrev pub is_ascii : Text → Bool
is_ascii t = all (λ c. ltb c 128) t

-- `cmd.get("command") == name`
unfoldable pub is_command : String → Fields → Bool
is_command name cmd = elim (get "command" cmd) [ none ↦ false | some v ↦ text_of v == codes name ]

-- the commands that `handle_command` has a branch for
abbrev pub is_handled : Fields → Bool
is_handled cmd =
    is_command "restore_quarantine" cmd
    || is_command "kill_process" cmd
    || is_command "delete_file" cmd
    || is_command "remote_scan" cmd
    || is_command "remote_update" cmd

abbrev pub is_given {ℓ} : {A : Type ℓ} → Option A → Bool
is_given none = false
is_given (some a) = true

-- A command with values of the types that its handler reads: the name and the path are texts or empty, the
-- pid is no list and no object, the signature is an ASCII text.
abbrev pub is_sound_command : Fields → Bool
is_sound_command cmd =
    (not (is_command "kill_process" cmd) || (is_given (read_at "name" cmd) && not (pid_raises cmd)))
    && (not (is_command "delete_file" cmd) || is_given (read_at "path" cmd))
    && (not (is_command "remote_update" cmd)
        || elim (read_at "signature" cmd) [ none ↦ false | some t ↦ is_ascii (bare_signature t) ])

abbrev numbers : List ℕ → Items
numbers [] = nil
numbers (n ∷ ns) = item (num n) (numbers ns)

-- the manifest entry as the agent reports it
abbrev pub entry_fields : Entry → Fields
entry_fields e = field "id" (text e.id) (
    field "original_path" (text e.original_path) (
      field "sha256" (elim e.sha256 [ none ↦ null | some h ↦ text h ])
        (field "stored_name" (text e.stored_name) (
          field "reason" (text e.reason) (
            field "quarantined_at" (num e.quarantined_at) (
              field "status" (str e.status)
                (elim e.restored_at [ none ↦ end | some t ↦ field "restored_at" (num t) end ])))))))

abbrev piece_of : Json → Piece
piece_of (num n) = nat n
piece_of (str s) = lit s
piece_of (text t) = lit (string_of t)
piece_of v = lit ""

abbrev pub not_null : Json → Bool
not_null null = false
not_null v = true

module _ (now : ℕ) where
  abbrev pub new_event : String → String → List Piece → String → Fields → TelemetryEvent
  new_event source action summary severity details = record {
    source = source;
    severity = severity;
    action = action;
    summary = summary;
    details = details;
    timestamp = some now;
  }

  -- `telemetry.emit`
  abbrev pub emit : String → String → List Piece → String → Fields → Endpoint → Endpoint
  emit source action summary severity details e = record e {
    emitted = e.emitted ++ new_event source action summary severity details ∷ [];
  }

  abbrev pub result_event : Json → String → Fields → TelemetryEvent
  result_event id status extra =
      new_event "response" "result"
        (lit "Response action " ∷ piece_of id ∷ lit " " ∷ lit status ∷ []) "info"
        (field "action_id" id (field "status" (str status) extra))

  -- `_report_result`
  unfoldable pub report_result : Option Json → String → Fields → Endpoint → Endpoint
  report_result none status extra e = e
  report_result (some id) status extra e =
      if not_null id
      then record e { emitted = e.emitted ++ result_event id status extra ∷ [] }
      else e

  -- what the kills did: the processes that were killed, and the error that ended them
  abbrev pub kill_all : Os → Bool → List (ℕ × Text) → List ℕ × Option String
  kill_all os dry [] = ([], none)
  kill_all os dry ((pid, n) ∷ ps) =
      let (killed, error) = kill_all os dry ps in
      if dry
      then (pid ∷ killed, error)
      else elim (os.kill_error pid) [ some e ↦ ([], some e) | none ↦ (pid ∷ killed, error) ]

  -- the targets of `kill_process`, or the error that finding them raises
  abbrev pub targets : Os → Option Json → Text → List (ℕ × Text) × Option String
  targets os pid name = elim pid [
    | some v ↦
        if not_null v
        then elim (as_int v) [
          | none ↦ ([], some (os.no_number v))
          | some n ↦ elim (find (λ p. p.0 == n) os.processes) [
            | none ↦ ([], some (os.no_process n))
            | some p ↦ (p ∷ [], none)
          ]
        ]
        else if name == []
        then ([], none)
        else (select (λ p. lower p.1 == name) os.processes, none)
    | none ↦ if name == [] then ([], none) else (select (λ p. lower p.1 == name) os.processes, none)
  ]

  abbrev pub kill_result :
      Fields → Text → Option Json → List ℕ → Option String → Endpoint → Endpoint
  kill_result cmd name id killed (some error) e =
      report_result id "failed" (field "error" (str error) end) (
        emit "response" "kill_failed" (lit "kill_process failed: " ∷ lit error ∷ []) "warning"
          (field "pid" (elim (get "pid" cmd) [ none ↦ null | some v ↦ v ])
            (field "name" (text name) end))
          e)
  kill_result cmd name id killed none e =
      report_result id "ok" (field "killed" (arr (numbers killed)) end) (
        emit "response" "process_killed"
          (lit "Killed " ∷ nat (length killed) ∷ lit " process(es)" ∷ []) "critical"
          (field "killed" (arr (numbers killed)) end) e)

  -- `kill_process`; a name that is no text and a pid that `int` does not take raise
  unfoldable pub kill_process : Os → Options → Fields → Endpoint → Handled
  unfolding report_result
  kill_process os o cmd e = elim (read_at "name" cmd) [
    | none ↦ raised e
    | some name ↦
        let (ps, missing) = targets os (get "pid" cmd) (lower name) in
        let (killed, error) = kill_all os o.dry_run ps in
        if pid_raises cmd
        then raised e
        else ended (
            kill_result cmd (lower name) (get "action_id" cmd) killed
              (elim missing [ some m ↦ some m | none ↦ error ]) e)
  ]

  abbrev pub delete_result : Text → Option Json → Option Entry → Endpoint → Endpoint
  delete_result path id none e = report_result id "failed" (field "path" (text path) end) e
  delete_result path id (some entry) e =
      report_result id "ok" (field "quarantined" (text entry.id) end) (
        emit "response" "file_deleted"
          (lit "File " ∷ lit (string_of path) ∷ lit " quarantined for deletion" ∷ []) "critical"
          (entry_fields entry) e)

  -- where the manifest cannot be written, the file has been moved
  abbrev pub unsaved : Store → Endpoint → Handled
  unsaved store e = raised (record e { store = record store { manifest = e.store.manifest } })

  -- `delete_file`, with the id that the quarantine draws; a path that is no text raises
  unfoldable pub delete_file : Os → Options → Text → Fields → Endpoint → Handled
  unfolding report_result
  delete_file os o fresh cmd e =
      let id = get "action_id" cmd in
      elim (read_at "path" cmd) [
        | none ↦ raised e
        | some path ↦
            let (r, store) =
              quarantine os.sha256_of os.movable o.quarantine_dir o.dry_run now fresh path none
                (codes "response:delete_file") e.store in
            if path == []
            then ended (report_result id "failed" (field "error" (str "no path") end) e)
            else if is_given r && not os.writable
            then unsaved store e
            else ended (delete_result path id r (record e { store = store }))
      ]

  -- `remote_scan`
  unfoldable pub remote_scan : Os → Fields → Endpoint → Handled
  unfolding report_result
  remote_scan os cmd e =
      let count = field "process_count" (num os.process_count) end in
      ended (
        report_result (get "action_id" cmd) "ok" count (
          emit "response" "scan_complete"
            (lit "Remote scan complete (" ∷ nat os.process_count ∷ lit " processes)" ∷ []) "info"
            count e))

  abbrev pub restore_result : Json → Option Json → Option Entry → Endpoint → Endpoint
  restore_result qid id none e = report_result id "failed" (field "id" qid end) (
      emit "quarantine" "restore_failed"
        (lit "Failed to restore quarantine item " ∷ piece_of qid ∷ []) "warning"
        (field "id" qid end) e)
  restore_result qid id (some entry) e =
      report_result id "ok" (field "restored" (text entry.original_path) end) (
        emit "quarantine" "restored"
          (lit "Quarantined file restored to " ∷ lit (string_of entry.original_path) ∷ []) "info"
          (entry_fields entry) e)

  -- `cmd.get("id", "")`
  abbrev pub qid_of : Fields → Json
  qid_of cmd = elim (get "id" cmd) [ none ↦ str "" | some v ↦ v ]

  -- the branch `restore_quarantine`; an id that is no text is that of no entry
  unfoldable pub restore_quarantine : Os → Options → Fields → Endpoint → Handled
  unfolding report_result
  restore_quarantine os o cmd e =
      let qid = qid_of cmd in
      let id = get "action_id" cmd in
      elim (as_text qid) [
        | none ↦ ended (restore_result qid id none e)
        | some t ↦
            let (r, store) =
              restore os.sha256_of os.movable o.quarantine_dir o.dry_run now t e.store in
            if is_given r && not os.writable
            then unsaved store e
            else ended (restore_result qid id r (record e { store = store }))
      ]

  module _ (dumps : List (String × Text) → Text) (ed25519 : Text → Text → Text → Verdict)
      (hmac_sha256 : Text → Text → Text) where
    -- `str` of the value at a key
    abbrev pub shown_at : Os → String → Fields → Text
    shown_at os k cmd = elim (get k cmd) [
      | none ↦ []
      | some v ↦ elim (as_text v) [ none ↦ os.shown v | some t ↦ t ]
    ]

    abbrev pub update_command : Os → Fields → UpdateCommand
    update_command os cmd = record {
      version = elim (get "version" cmd) [
        | none ↦ none
        | some v ↦ some (shown_at os "version" cmd)
      ];
      url = shown_at os "url" cmd;
      sha256 = shown_at os "sha256" cmd;
      signature = if truthy_at "signature" cmd then shown_at os "signature" cmd else [];
      allow_rollback = shown_at os "allow_rollback" cmd;
    }

    -- `url or sha256 or signature`
    abbrev pub has_manifest : Fields → Bool
    has_manifest cmd = truthy_at "url" cmd || truthy_at "sha256" cmd || truthy_at "signature" cmd

    -- whether a public key can be used, as the empty signature is then read and refused
    abbrev pub uses_key : Verdict → Bool
    uses_key valid = true
    uses_key invalid = true
    uses_key v = false

    -- whether `verify_update` raises: `strip` of a signature that is no text, and `compare_digest` of one
    -- that is not ASCII
    unfoldable pub signature_raises : Os → TrustKeys → Fields → Bool
    signature_raises os keys cmd =
        let c = update_command os cmd in
        let message = canonical_manifest dumps ed25519 hmac_sha256 c in
        elim (read_at "signature" cmd) [
          | none ↦
              if not (keys.update_public_key == [])
              then uses_key (ed25519 keys.update_public_key [] message)
              else not (keys.update_hmac_key == [])
          | some t ↦
              not (t == [])
              && keys.update_public_key == []
              && not (keys.update_hmac_key == [])
              && not (is_ascii (bare_signature t))
        ]

    -- the outcome and the floor of `remote_update`
    abbrev pub update_outcome : Os → Options → Fields → Endpoint → Outcome × Text
    update_outcome os o cmd e =
        let c = update_command os cmd in
        if has_manifest cmd
        then signed_update dumps ed25519 hmac_sha256 o.keys c e.update_floor
        else (
          acknowledged dumps ed25519 hmac_sha256 "update_requested" (target_of c) false,
          e.update_floor,
        )

    abbrev pub version_of : Fields → Json
    version_of cmd = elim (get "version" cmd) [ none ↦ str "latest" | some v ↦ v ]

    -- the call of `remote_update`: its event, its report and the floor
    unfoldable pub run_update : Os → Options → Fields → Endpoint → Handled
    unfolding report_result signature_raises
    run_update os o cmd e =
        let (out, floor) = update_outcome os o cmd e in
        let version = version_of cmd in
        if has_manifest cmd && signature_raises os o.keys cmd
        then raised e
        else if not (floor == e.update_floor) && not os.writable
        then raised e
        else ended (
            report_result (get "action_id" cmd) out.status (field "version" version end) (
              emit "response" out.event (lit "Agent update" ∷ []) out.severity
                (field "version" version (field "verified" (bool out.verified) end))
                (record e { update_floor = floor })))

    -- `handle_command`
    unfoldable pub handle_command : Os → Options → Text → Fields → Endpoint → Handled
    handle_command os o fresh cmd e =
        if is_command "restore_quarantine" cmd
        then restore_quarantine os o cmd e
        else if is_command "kill_process" cmd
        then kill_process os o cmd e
        else if is_command "delete_file" cmd
        then delete_file os o fresh cmd e
        else if is_command "remote_scan" cmd
        then remote_scan os cmd e
        else if is_command "remote_update" cmd
        then run_update os o cmd e
        else ended e

  -- the six commands of `isolate`, or the two of Windows; a system of another name has none
  module _ (shell : String → Bool) where
    unfoldable pub firewall : String → Bool
    firewall system =
        if system == "Linux"
        then shell "iptables -N"
          && shell "iptables -A lo"
          && shell "iptables -A server"
          && shell "iptables -A dns"
          && shell "iptables -A DROP"
          && shell "iptables -I OUTPUT"
        else if system == "Windows"
        then shell "netsh add rule" && shell "netsh block"
        else false

    -- `IsolationController.isolate`
    unfoldable pub isolate : String → Options → Endpoint → Endpoint
    unfolding firewall
    isolate system o e =
        if e.isolated
        then e
        else let ok = o.dry_run || firewall system in
          emit "isolation" (if ok then "isolated" else "isolation_partial")
            (lit "Device isolated: network restricted to management server"
              ∷ lit (if ok then "" else " (some firewall rules could not be applied)")
              ∷ [])
            "critical" (field "management_server" (text o.management_server) end)
            (record e { isolated = true })

    -- `IsolationController.release`; what its commands answer is not read
    unfoldable pub release : Endpoint → Endpoint
    release e =
        if e.isolated
        then emit "isolation" "released"
            (lit "Device isolation released: normal network access restored" ∷ []) "info" end
            (record e { isolated = false })
        else e
