-- ===== src/Server/Fleet/Liveness.antt =====
-- The liveness sweep flags the silent devices, each once.
use silentguard_xdr.Server.Models.{Db, Device}
use silentguard_xdr.Server.Exec.{ok}
use silentguard_xdr.Server.Fleet.{
  add_event, is_unresponsive, flag, sweep, raise_unresponsive, check_once,
}
use silentguard_xdr.Prelude.{
  ℕ, ◌+◌, String, ◌≡◌, refl, ◌∙◌, inl, inr, not, ◌&&◌, List, [], ◌∷◌, arith, Bool-cases, length,
  length-append,
}
use silentguard_xdr.Prelude.Table.{select, count, update}

abbrev pub hostnames : List Device → List String
hostnames [] = []
hostnames (d ∷ ds) = d.hostname ∷ hostnames ds

sweep-devices :
    (now threshold : ℕ) (ds : List Device) (db : Db)
    → (sweep now threshold ds db).0 ≡ update (is_unresponsive now threshold) flag ds
unfolding sweep
sweep-devices now threshold [] db = refl
sweep-devices now threshold (d ∷ ds) db =
    let yes = sweep-devices now threshold ds (raise_unresponsive now threshold d db) in
    let no = sweep-devices now threshold ds db in
    elim (Bool-cases (is_unresponsive now threshold d)) [
      | inl silent ↦ rw (silent, yes)
      | inr fine ↦ rw (fine, no)
    ]

sweep-names :
    (now threshold : ℕ) (ds : List Device) (db : Db)
    → (sweep now threshold ds db).1.0 ≡ hostnames (select (is_unresponsive now threshold) ds)
unfolding sweep
sweep-names now threshold [] db = refl
sweep-names now threshold (d ∷ ds) db =
    let yes = sweep-names now threshold ds (raise_unresponsive now threshold d db) in
    let no = sweep-names now threshold ds db in
    elim (Bool-cases (is_unresponsive now threshold d)) [
      | inl silent ↦ rw (silent, yes)
      | inr fine ↦ rw (fine, no)
    ]

sweep-events :
    (now threshold : ℕ) (ds : List Device) (db : Db)
    → length (sweep now threshold ds db).1.1.events
      ≡ length db.events + count (is_unresponsive now threshold) ds
unfolding sweep add_event
sweep-events now threshold [] db = omega arith
sweep-events now threshold (d ∷ ds) db =
    let yes = sweep-events now threshold ds (raise_unresponsive now threshold d db) in
    let no = sweep-events now threshold ds db in
    let one = length-append db.events in
    elim (Bool-cases (is_unresponsive now threshold d)) [
      | inl silent ↦ rw (silent, yes, one) (omega arith)
      | inr fine ↦ rw (fine, no)
    ]

-- A sweep flags exactly the devices that were silent for longer than the threshold, did not stop and
-- are not flagged yet, reports their hostnames and adds one event for each.
pub sweep_flags_silent :
    (now threshold : ℕ) (db : Db)
    → let silent = is_unresponsive now threshold in
      let (r, db') = check_once now threshold db in
      (r ≡ ok (hostnames (select silent db.devices)))
      × (db'.devices ≡ update silent flag db.devices)
      × (length db'.events ≡ length db.events + count silent db.devices)
unfolding check_once
sweep_flags_silent now threshold db = (
  rw (sweep-names now threshold db.devices db),
  sweep-devices now threshold db.devices db,
  sweep-events now threshold db.devices db,
)

select-flagged :
    (now later threshold : ℕ) (ds : List Device)
    → hostnames
        (select (is_unresponsive later threshold) (update (is_unresponsive now threshold) flag ds))
      ≡ hostnames (
          select
            (λ d. is_unresponsive later threshold d && not (is_unresponsive now threshold d))
            ds)
select-flagged now later threshold [] = refl
select-flagged now later threshold (d ∷ ds) = ground (arith, select-flagged now later threshold ds)

-- A device that a sweep flagged is not reported by a later sweep, whenever this runs, until the agent
-- makes contact.
pub flagged_once :
    (now later threshold : ℕ) (db : Db)
    → let db' = (check_once now threshold db).1 in
      (check_once later threshold db').0
      ≡ ok (
          hostnames (
            select
              (λ d. is_unresponsive later threshold d && not (is_unresponsive now threshold d))
              db.devices))
flagged_once now later threshold db =
    let (_, rows, _) = sweep_flags_silent now threshold db in
    let (names, _, _) = sweep_flags_silent later threshold (check_once now threshold db).1 in
    names ∙ rw rows (rw (select-flagged now later threshold db.devices))
