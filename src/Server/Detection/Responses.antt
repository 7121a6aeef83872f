-- ===== src/Server/Detection/Responses.antt =====
-- What the rules find, and what the engine does about it.
use silentguard_xdr.Server.Models.{Json, Fields, Db, Device, ThreatEvent, Detection}
use silentguard_xdr.Server.Exec.{Piece}
use silentguard_xdr.Server.Response.{save_device}
use silentguard_xdr.Server.Detection.Rules.{Rule}
use silentguard_xdr.Server.Detection.{
  responses_of, context_of, evaluate_rules, wants_isolation, isolate_row, dispatch_responses,
  dispatch_all, detection_row, add_detection,
}
use mathlib.Core.List.{append_assoc, append-nil}
use silentguard_xdr.Prelude.{
  ℕ, String, ◌≡◌, refl, sym, ap, ◌∙◌, inl, inr, Bool, true, false, not, ◌&&◌, ◌||◌, some, List, [],
  ◌∷◌, ◌++◌, arith, if◌then◌else◌, ◌==◌, nat_eq, string_eq, option_eq, list_eq, Bool-cases,
  Option-cases, any,
}
use silentguard_xdr.Prelude.Table.{find, select, All, find-update_self}
use silentguard_xdr.Prelude.Text.{Text}

abbrev pub fired_ids : List Detection → List String
fired_ids [] = []
fired_ids (d ∷ ds) = d.rule_id ∷ fired_ids ds

abbrev pub rule_ids : List Rule → List String
rule_ids [] = []
rule_ids (r ∷ rs) = r.id ∷ rule_ids rs

module _ (render : List Piece → Text) (shown : Json → Text) (dumps : Fields → Text) where
  -- Evaluating an event against the rules adds one detection for each rule that matches it and none for
  -- another, in the order of the table. All belong to the organization of the event, and are appended to
  -- the detections that the database has.
  pub evaluate_rules_exact :
      (now : ℕ) (device : Device) (event : ThreatEvent) (rules : List Rule) (db : Db)
      → let (rows, db') = evaluate_rules render shown dumps now device event rules db in
        let ctx = context_of render shown dumps event in
        (fired_ids rows ≡ rule_ids (select (λ r. r.matches ctx) rules))
        × (db'.detections ≡ db.detections ++ rows)
        × All (λ d. (d.org_id ≡ event.org_id) × (d.device_id ≡ device.id)) rows
        × (db'.devices ≡ db.devices)
  unfolding evaluate_rules
  evaluate_rules_exact now device event [] db = (refl, sym (append-nil db.detections), tt, refl)
  evaluate_rules_exact now device event (rule ∷ rules) db =
      let row = detection_row render shown dumps db.next_id now device event rule in
      let (ids, stored, owned, kept) =
        evaluate_rules_exact now device event rules (add_detection row db) in
      let (ids', stored', owned', kept') = evaluate_rules_exact now device event rules db in
      elim (Bool-cases (rule.matches (context_of render shown dumps event))) [
        | inl fires ↦ rw fires (
          rw ids,
          stored
              ∙ append_assoc db.detections (row ∷ [])
                  (evaluate_rules render shown dumps now device event rules
                    (add_detection row db)).0,
          ((refl, refl), owned),
          kept,
        )
        | inr silent ↦ rw silent (ids', stored', owned', kept')
      ]

-- the device after the detections of a batch
abbrev steps_outcome : Bool → List Detection → Device → Device
steps_outcome auto dets d =
    if not d.isolated && any (wants_isolation auto) dets then isolate_row d else d

dispatch_responses-found :
    (auto : Bool) (det : Detection) (db : Db) (d : Device)
    → find (λ e. e.id == d.id) db.devices ≡ some d
    → dispatch_responses auto d.id det db
      ≡ (if wants_isolation auto det && not d.isolated then save_device d.id isolate_row db else db)
unfolding dispatch_responses
dispatch_responses-found auto det db d found = rw (found, dispatch_responses)

auto_isolation_steps :
    (auto : Bool) (dets : List Detection) (db : Db) (d : Device)
    → find (λ e. e.id == d.id) db.devices ≡ some d
    → find (λ e. e.id == d.id) (dispatch_all auto d.id dets db).devices
      ≡ some (steps_outcome auto dets d)
unfolding dispatch_all
auto_isolation_steps auto [] db d found = ground arith
auto_isolation_steps auto (det ∷ dets) db d found =
    let isolated = find-update_self (λ e. e.id == d.id) isolate_row db.devices (λ e. refl) found in
    let next =
      auto_isolation_steps auto dets (save_device d.id isolate_row db) (isolate_row d) isolated in
    let same = auto_isolation_steps auto dets db d found in
    let first = dispatch_responses-found auto det db d found in
    elim (Bool-cases (wants_isolation auto det)) [
      | inl wants ↦ elim (Bool-cases d.isolated) [
        | inl already ↦ rw (first, dispatch_all) (rw (wants, already) (same ∙ ground arith))
        | inr free ↦ rw (first, dispatch_all) (rw (wants, free) (next ∙ ground arith))
      ]
      | inr calm ↦ rw (first, dispatch_all) (rw calm (same ∙ ground arith))
    ]

-- a critical detection whose rule isolates
abbrev pub isolates : Detection → Bool
isolates det = any (λ r. r == "isolate") (responses_of det) && det.severity == "critical"

abbrev pub outcome_of : Bool → List Detection → Device → Device
outcome_of auto dets d = if auto && (not d.isolated && any isolates dets) then isolate_row d else d

and_mid : (a b c : Bool) → ((a && b) && c) ≡ (b && (a && c))
and_mid a b c = ground arith

wants-isolates : (auto : Bool) (det : Detection) → wants_isolation auto det ≡ (auto && isolates det)
unfolding wants_isolation
wants-isolates auto det =
    and_mid (any (λ r. r == "isolate") (responses_of det)) auto (det.severity == "critical")

or_step : (a b c : Bool) → ((a && b) || (a && c)) ≡ (a && (b || c))
or_step a b c = ground arith

any-wants :
    (auto : Bool) (dets : List Detection)
    → any (wants_isolation auto) dets ≡ (auto && any isolates dets)
any-wants auto [] = ground arith
any-wants auto (det ∷ dets) =
    rw (wants-isolates auto det, any-wants auto dets)
      (or_step auto (isolates det) (any isolates dets))

swap_tests :
    {A : Type 0} (a b c : Bool) (x y : A)
    → (if a && (b && c) then x else y) ≡ (if b && (a && c) then x else y)
swap_tests true true c x y = refl
swap_tests true false c x y = refl
swap_tests false true c x y = refl
swap_tests false false c x y = refl

same_outcome :
    (auto : Bool) (dets : List Detection) (d : Device)
    → steps_outcome auto dets d ≡ outcome_of auto dets d
same_outcome auto dets d =
    rw (any-wants auto dets)
      (swap_tests (not d.isolated) auto (any isolates dets) (isolate_row d) d)

-- After the detections of a batch, the device is isolated with one more command if automatic isolation is
-- on, one of them is critical with a rule that isolates, and the device was not isolated before.
-- Otherwise it is as it was.
pub auto_isolation_exact :
    (auto : Bool) (dets : List Detection) (db : Db) (d : Device)
    → find (λ e. e.id == d.id) db.devices ≡ some d
    → find (λ e. e.id == d.id) (dispatch_all auto d.id dets db).devices
      ≡ some (outcome_of auto dets d)
auto_isolation_exact auto dets db d found =
    auto_isolation_steps auto dets db d found ∙ ap some (same_outcome auto dets d)

and_off : (a b : Bool) → ((a && false) && b) ≡ false
and_off true b = refl
and_off false b = refl

unwanted : (det : Detection) → wants_isolation false det ≡ false
unfolding wants_isolation
unwanted det = and_off (any (λ r. r == "isolate") (responses_of det)) (det.severity == "critical")

-- While automatic isolation is off, no detection changes anything.
pub no_auto_isolation :
    (device_id : String) (dets : List Detection) (db : Db)
    → dispatch_all false device_id dets db ≡ db
unfolding dispatch_all
no_auto_isolation device_id [] db = refl
no_auto_isolation device_id (det ∷ dets) db =
    let first : dispatch_responses false device_id det db ≡ db =
      unfold dispatch_responses in
      elim (Option-cases (find (λ e. e.id == device_id) db.devices)) [
        | inl gone ↦ rw (gone, dispatch_responses)
        | inr (d, found) ↦ rw (found, dispatch_responses) (rw (unwanted det))
      ] in
    rw (first, dispatch_all) (no_auto_isolation device_id dets db)
