-- ===== src/Exchange/Actions.antt =====
-- The actions that an agent completes, and those that it leaves.
use mathlib.Core.Path.{subst}
use silentguard_xdr.Server.Fleet.{checkin}
use silentguard_xdr.Server.Fleet.Commands.{checkin-found, delivered, told_isolated}
use silentguard_xdr.Server.Exec.{ok}
use silentguard_xdr.Server.Models.{str, Fields, Db, Device, ResponseAction, get}
use silentguard_xdr.Server.Response.{
  push_command, agent_command, is_server_action, dispatch, complete, queued_command,
}
use silentguard_xdr.Server.Response.Lifecycle.{dispatch_queues, outcome}
use silentguard_xdr.Server.Fleet.Telemetry.{TelemetryEvent, Session, ingest, string_at}
use silentguard_xdr.Server.Fleet.Telemetry.Results.{Completes}
use silentguard_xdr.Agent.Update.{Verdict}
use silentguard_xdr.Agent.Commands.{is_handled, Os, Endpoint, Options, is_command, handle_command}
use silentguard_xdr.Prelude.{
  ℕ, String, ◌≡◌, refl, sym, inl, inr, Bool, true, false, ◌||◌, Option, none, some, List, [], ◌∷◌,
  ◌++◌, arith, ◌==◌, nat_eq, string_eq, option_eq, list_eq, beq_refl, eq_of_beq, Bool-cases,
}
use silentguard_xdr.Prelude.Table.{find, find-update}
use silentguard_xdr.Prelude.Text.{Text}

-- the event that ends the agent's answer to a command, once the server has taken it
abbrev pub Closes : ℕ → Device → ℕ → Session → ResponseAction → TelemetryEvent → Type 0
Closes later device id s a ev =
    Completes (ingest later device ev s) id
      (complete later (outcome (string_at "status" "ok" ev.details)) ev.details a)

-- the two actions on the network of a device
abbrev on_network : String → Bool
on_network action = action == "isolate" || action == "release"

Queued : String → Type 0
Queued action =
    (is_server_action action ≡ false)
    × (agent_command action ≡ some action)
    × ((cmd : Fields) → get "command" cmd ≡ some (str action) → is_handled cmd ≡ false)

isolate-Queued : Queued "isolate"
unfolding Queued is_server_action agent_command is_command
isolate-Queued = (refl, refl, λ cmd named. rw (named, is_command) refl)

release-Queued : Queued "release"
unfolding Queued is_server_action agent_command is_command
release-Queued = (refl, refl, λ cmd named. rw (named, is_command) refl)

network-Queued : (action : String) → on_network action ≡ true → Queued action
network-Queued action h = elim (Bool-cases (action == "isolate")) [
  | inl first ↦ subst Queued (sym (eq_of_beq action "isolate" first)) isolate-Queued
  | inr other ↦
      let second : (action == "release") ≡ true = ground (arith, h, other) in
      subst Queued (sym (eq_of_beq action "release" second)) release-Queued
]

module _ (now : ℕ) (dumps : List (String × Text) → Text) (ed25519 : Text → Text → Text → Verdict)
    (hmac_sha256 : Text → Text → Text) (os : Os) (o : Options) where
  unknown_command_left :
      (fresh : Text) (cmd : Fields) (e : Endpoint)
      → is_handled cmd ≡ false
      → handle_command now dumps ed25519 hmac_sha256 os o fresh cmd e ≡ (e, true)
  unfolding handle_command
  unknown_command_left fresh cmd e unknown = ground (arith, unknown)

  -- An isolation or release that is dispatched as a response action is queued, but the agent has no branch for
  -- its command: nothing is reported for the action, and the next check-in tells the agent the isolation
  -- state that the device had before.
  pub dispatched_isolation_ignored :
      (later : ℕ) (d : Device) (action : String) (params : Fields) (actor : String)
      (org_id : Option String) (db : Db) (fresh : Text) (e : Endpoint)
      → (action == "isolate" || action == "release") ≡ true
      → get "command" params ≡ none
      → get "action_id" params ≡ none
      → find (λ x. x.id == d.id) db.devices ≡ some d
      → find (λ x. x.api_key == d.api_key) db.devices ≡ some d
      → let (r, db') = dispatch now (some d) action params actor org_id db in
        (r ≡ ok db.next_id)
        × (told_isolated (checkin later d.api_key db').0 ≡ some d.isolated)
        × (delivered (checkin later d.api_key db').0
            ≡ d.pending_commands ++ queued_command action params db.next_id ∷ [])
        × (handle_command now dumps ed25519 hmac_sha256 os o fresh
              (queued_command action params db.next_id)
              e
            ≡ (e, true))
  dispatched_isolation_ignored later d action params actor org_id db fresh e either_one nc na by_id
        by_key =
      unfold Queued in
      let (server, agent, silent) = network-Queued action either_one in
      let (answer, devices, named, _) =
        dispatch_queues now d action action params actor org_id db server agent nc na in
      let c = queued_command action params db.next_id in
      let moved =
        find-update (λ x. x.api_key == d.api_key) (λ x. x.id == d.id) (push_command c) db.devices
          (λ x. refl) by_key in
      let (commands, told, _) =
        checkin-found later d.api_key (dispatch now (some d) action params actor org_id db).1
          (push_command c d) (rw devices (rw moved (rw (beq_refl d.id) refl))) in
      (answer, told, commands, unknown_command_left fresh c e (silent c named))
