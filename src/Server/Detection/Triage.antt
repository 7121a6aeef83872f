-- ===== src/Server/Detection/Triage.antt =====
-- The triage of detections, server/app/routers/detections.py.
use silentguard_xdr.Server.Models.{Json, Db, Detection, end, field}
use silentguard_xdr.Server.Exec.{ok, err, Exec, http, modify, ◌>>◌}
use silentguard_xdr.Server.Access.{Principal, in_scope}
use silentguard_xdr.Server.Users.{record_change}
use silentguard_xdr.Prelude.{
  ℕ, String, ◌≡◌, ◌⊎◌, inl, inr, true, false, Option, none, some, arith, if◌then◌else◌, ◌==◌,
  nat_eq, string_eq, option_eq, list_eq, Bool-cases,
}
use silentguard_xdr.Prelude.Table.{find, update}

-- `_get_scoped`
unfoldable pub scoped_detection : ℕ → Principal → Db → Option Detection
scoped_detection id principal db = elim (find (λ d. d.id == id) db.detections) [
  | none ↦ none
  | some d ↦ if in_scope principal d.org_id then some d else none
]

module _ (now : ℕ) where
  -- `_transition`; the audit target `str(det.id)` is kept as the number
  unfoldable pub transition : ℕ → Principal → String → String → Exec Db (Unit {0})
  unfolding scoped_detection
  transition id principal new_status action db = elim (scoped_detection id principal db) [
    | none ↦ (err (http 404 "Detection not found"), db)
    | some det ↦
        (do
          modify (λ v. record v {
            detections =
                update (λ d. d.id == id) (λ d. record d { status = new_status }) v.detections;
          })
          modify (
              record_change now principal.actor action (Json.num det.id)
                (field "rule_id" (Json.str det.rule_id) end) det.org_id))
          db
  ]

  -- `acknowledge` and `resolve`
  unfoldable pub acknowledge : ℕ → Principal → Exec Db (Unit {0})
  unfolding transition
  acknowledge id principal = transition id principal "acknowledged" "detection_ack"

  unfoldable pub resolve : ℕ → Principal → Exec Db (Unit {0})
  unfolding transition
  resolve id principal = transition id principal "resolved" "detection_resolve"

  -- A caller who cannot reach a detection changes nothing by a change of its status. One who can sets the
  -- status of this detection alone, and leaves an audit row that names the caller, in the organization of
  -- the detection.
  pub triage_scoped :
      (id : ℕ) (p : Principal) (status action : String) (db : Db) (d : Detection)
      → find (λ e. e.id == id) db.detections ≡ some d
      → let (r, db') = transition id p status action db in
        (((in_scope p d.org_id ≡ false) × (r ≡ err (http 404 "Detection not found")) × (db' ≡ db))
          ⊎ ((in_scope p d.org_id ≡ true)
              × (r ≡ ok tt)
              × (db'.detections
                  ≡ update (λ e. e.id == id) (λ e. record e { status = status }) db.detections)
              × (db'.audit
                  ≡ (record_change now p.actor action
                      (Json.num d.id)
                      (field "rule_id" (Json.str d.rule_id) end)
                      d.org_id
                      db).audit)))
  unfolding transition scoped_detection
  triage_scoped id p status action db d found = elim (Bool-cases (in_scope p d.org_id)) [
    | inl reach ↦ inr (reach, ground arith, ground arith, ground arith)
    | inr apart ↦ inl (apart, ground arith, ground arith)
  ]
