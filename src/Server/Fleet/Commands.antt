-- ===== src/Server/Fleet/Commands.antt =====
-- The commands of a device reach it once.
use silentguard_xdr.Server.Models.{Json, Fields, Db, Device, end, field}
use silentguard_xdr.Server.Exec.{Result, ok, err}
use silentguard_xdr.Server.Access.{Principal, in_scope}
use silentguard_xdr.Server.Fleet.{CheckinResponse, checkin, set_isolation, seen}
use text.Mathlib.TextEquality.{eq_iff}
use silentguard_xdr.Server.Response.{push_command}
use silentguard_xdr.Prelude.{
  ℕ, String, ◌≡◌, refl, Bool, true, Option, none, some, List, [], ◌∷◌, ◌++◌, arith, if◌then◌else◌,
  ◌==◌, nat_eq, string_eq, option_eq, list_eq,
}
use silentguard_xdr.Prelude.Table.{find, update, find-update}

-- the commands of an answer, and the isolation that it tells the agent
abbrev pub delivered : Result CheckinResponse → List Fields
delivered (ok r) = r.commands
delivered (err e) = []

abbrev pub told_isolated : Result CheckinResponse → Option Bool
told_isolated (ok r) = some r.isolated
told_isolated (err e) = none

pub checkin-found :
    (now : ℕ) (key : String) (db : Db) (d : Device)
    → find (λ e. e.api_key == key) db.devices ≡ some d
    → let (r, db') = checkin now key db in
      (delivered r ≡ d.pending_commands)
      × (told_isolated r ≡ some d.isolated)
      × (db'.devices
          ≡ update
              (λ e. e.id == d.id)
              (λ e. record (seen now e) { pending_commands = [] })
              db.devices)
unfolding checkin
checkin-found now key db d found = ground arith

-- A check-in delivers all commands that wait for the device, in their order, and the next one delivers
-- none of them again.
pub commands_delivered_once :
    (now later : ℕ) (key : String) (db : Db) (d : Device)
    → find (λ e. e.api_key == key) db.devices ≡ some d
    → let (r, db') = checkin now key db in
      (delivered r ≡ d.pending_commands) × (delivered (checkin later key db').0 ≡ [])
commands_delivered_once now later key db d found =
    let (first, _, rows) = checkin-found now key db d found in
    let again =
      find-update (λ e. e.api_key == key) (λ e. e.id == d.id)
        (λ e. record (seen now e) { pending_commands = [] }) db.devices (λ e. refl) found in
    let (second, _, _) =
      checkin-found later key (checkin now key db).1 (record (seen now d) { pending_commands = [] })
        (rw rows (rw again (ground (arith, eq_iff d.id d.id)))) in
    (first, second)

abbrev command_of : Bool → Fields
command_of isolated = field "command" (Json.str (if isolated then "isolate" else "release")) end

set_isolation-devices :
    (now : ℕ) (isolated : Bool) (p : Principal) (db : Db) (d : Device)
    → find (λ e. e.id == d.id) db.devices ≡ some d
    → in_scope p d.org_id ≡ true
    → (set_isolation now d.id isolated p db).1.devices
      ≡ update
          (λ e. e.id == d.id)
          (λ e. push_command (command_of isolated) (record e { isolated = isolated }))
          db.devices
unfolding set_isolation
set_isolation-devices now isolated p db d by_id reach = ground arith

-- When a caller in whose reach the device is isolates or releases it, the next check-in of the device
-- tells it so and delivers that command after those that already wait.
pub isolation_reaches_agent :
    (now later : ℕ) (isolated : Bool) (p : Principal) (db : Db) (d : Device)
    → find (λ e. e.id == d.id) db.devices ≡ some d
    → find (λ e. e.api_key == d.api_key) db.devices ≡ some d
    → in_scope p d.org_id ≡ true
    → let (r, db') = set_isolation now d.id isolated p db in
      let answer = (checkin later d.api_key db').0 in
      (told_isolated answer ≡ some isolated)
      × (delivered answer
          ≡ d.pending_commands
            ++ field "command" (Json.str (if isolated then "isolate" else "release")) end ∷ [])
isolation_reaches_agent now later isolated p db d by_id by_key reach =
    let moved =
      find-update (λ e. e.api_key == d.api_key) (λ e. e.id == d.id)
        (λ e. push_command (command_of isolated) (record e { isolated = isolated })) db.devices
        (λ e. refl) by_key in
    let (commands, told, _) =
      checkin-found later d.api_key (set_isolation now d.id isolated p db).1
        (push_command (command_of isolated) (record d { isolated = isolated }))
        (rw (set_isolation-devices now isolated p db d by_id reach)
          (rw moved (ground (arith, eq_iff d.id d.id)))) in
    (told, commands)
