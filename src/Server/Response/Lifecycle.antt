-- ===== src/Server/Response/Lifecycle.antt =====
-- The life of a response action: queued once, completed once, and only inside the caller's reach.
use silentguard_xdr.Server.Models.{Json, Fields, Db, Device, ResponseAction, get, end, field}
use silentguard_xdr.Server.Objects.{Distinct, get-merge, get-merge-some}
use silentguard_xdr.Server.Exec.{ok, err, http}
use silentguard_xdr.Server.Access.{Principal, in_scope}
use silentguard_xdr.Server.Response.{
  agent_command, is_server_action, queued_command, push_command, complete, save_action, dispatch,
  record_result, respond,
}
use silentguard_xdr.Prelude.{
  ℕ, String, ◌≡◌, refl, inl, inr, false, ◌||◌, Option, none, some, arith, if◌then◌else◌, ◌==◌,
  nat_eq, string_eq, option_eq, list_eq, Bool-cases,
}
use silentguard_xdr.Prelude.Table.{find, update, find-update_self}

-- the outcome that is stored for a reported status
abbrev pub outcome : String → String
outcome status =
    if status == "ok" || status == "completed" || status == "success" then "completed" else "failed"

outcome_final : (status : String) → (outcome status == "queued") ≡ false
outcome_final status =
    elim (Bool-cases (status == "ok" || status == "completed" || status == "success")) [
      | inl success ↦ rw success
      | inr failure ↦ rw failure
    ]

module _ (now : ℕ) where
  record_result-eq :
      (id : ℕ) (status : String) (result : Fields) (db : Db) (a : ResponseAction)
      → find (λ b. b.id == id) db.actions ≡ some a
      → record_result now id status result db ≡ (
          if a.status == "queued"
          then save_action id (complete now (outcome status) result) db
          else db)
  unfolding record_result
  record_result-eq id status result db a found = ground arith

-- A queued action takes the first result that is reported for it, and no later one: what the first
-- report stored stays, whatever is reported afterwards.
pub first_result_stays :
    (now later : ℕ) (id : ℕ) (status again : String) (result other : Fields) (db : Db)
    (a : ResponseAction)
    → find (λ b. b.id == id) db.actions ≡ some a
    → a.status ≡ "queued"
    → let db' = record_result now id status result db in
      (find (λ b. b.id == id) db'.actions ≡ some (complete now (outcome status) result a))
      × (record_result later id again other db' ≡ db')
first_result_stays now later id status again result other db a found queued =
    let done = complete now (outcome status) result in
    let first : record_result now id status result db ≡ save_action id done db =
      rw (record_result-eq now id status result db a found, queued) in
    let stored : find (λ b. b.id == id) (save_action id done db).actions ≡ some (done a) =
      find-update_self (λ b. b.id == id) done db.actions (λ b. refl) found in
    rw first (
      stored,
      rw (record_result-eq later id again other (save_action id done db) (done a) stored)
          (rw (outcome_final status)),
    )

-- A caller cannot dispatch to a device outside its reach: the answer is 404 and nothing changes.
pub respond_out_of_reach :
    (now : ℕ) (device_id action : String) (params : Fields) (actor : String) (p : Principal)
    (db : Db) (d : Device)
    → find (λ e. e.id == device_id) db.devices ≡ some d
    → in_scope p d.org_id ≡ false
    → respond now device_id action params actor p db ≡ (err (http 404 "Device not found"), db)
unfolding respond
respond_out_of_reach now device_id action params actor p db d found apart = ground arith

-- Dispatching an action that the agent executes records it as queued and appends one command to the
-- device, with the name of the command and the key of the action, if the parameters name neither.
pub dispatch_queues :
    (now : ℕ) (d : Device) (action command : String) (params : Fields) (actor : String)
    (org_id : Option String) (db : Db)
    → is_server_action action ≡ false
    → agent_command action ≡ some command
    → get "command" params ≡ none
    → get "action_id" params ≡ none
    → let (r, db') = dispatch now (some d) action params actor org_id db in
      let c = queued_command command params db.next_id in
      (r ≡ ok db.next_id)
      × (db'.devices ≡ update (λ e. e.id == d.id) (push_command c) db.devices)
      × (get "command" c ≡ some (Json.str command))
      × (get "action_id" c ≡ some (Json.num db.next_id))
unfolding dispatch
dispatch_queues now d action command params actor org_id db server agent nc na =
    let base = field "command" (Json.str command) (field "action_id" (Json.num db.next_id) end) in
    (
      ground arith,
      ground arith,
      unfold queued_command get in get-merge "command" base params nc,
      unfold queued_command get in get-merge "action_id" base params na,
    )

-- A parameter named `command` of an action that the agent executes replaces the command: what is queued
-- is the parameter's, whatever the action that was authorized.
pub params_replace_command :
    (now : ℕ) (d : Device) (action command : String) (v : Json) (params : Fields) (actor : String)
    (org_id : Option String) (db : Db)
    → is_server_action action ≡ false
    → agent_command action ≡ some command
    → Distinct params
    → get "command" params ≡ some v
    → let db' = (dispatch now (some d) action params actor org_id db).1 in
      let c = queued_command command params db.next_id in
      (db'.devices ≡ update (λ e. e.id == d.id) (push_command c) db.devices)
      × (get "command" c ≡ some v)
unfolding dispatch
params_replace_command now d action command v params actor org_id db server agent once named =
    let base = field "command" (Json.str command) (field "action_id" (Json.num db.next_id) end) in
    (ground arith, unfold queued_command in get-merge-some "command" v base params once named)
