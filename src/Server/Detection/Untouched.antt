-- ===== src/Server/Detection/Untouched.antt =====
-- What the evaluation of an event leaves as it was.
use silentguard_xdr.Server.Intel.Indicators.{extract_indicators}
use silentguard_xdr.Server.Models.{Json, Fields, Db, Device, ThreatEvent, Detection, IntelRule}
use silentguard_xdr.Server.Exec.{Piece}
use silentguard_xdr.Server.NetMatch.{host_matches_any}
use silentguard_xdr.Server.Intel.{lookup}
use silentguard_xdr.Server.Detection.Matchers.{EventContext}
use silentguard_xdr.Server.Detection.Rules.{Rule}
use silentguard_xdr.Server.Detection.{
  seed_rules, context_of, evaluate_rules, add_detection, detection_row,
}
use silentguard_xdr.Server.Detection.Evaluate.{
  is_sigma_rule, blocked_domains, evaluate_sigma_rules, evaluate_event, evaluate_blocklist_domains,
  evaluate_iocs, evaluate_domains, evaluate_sigma, ioc_row, domain_row, sigma_row, fires,
}
use silentguard_xdr.Prelude.{
  ℕ, ◌+◌, String, ◌≡◌, refl, ap, ◌∙◌, inl, inr, Bool, true, false, ◌||◌, Option, none, some, List,
  [], ◌∷◌, ◌++◌, ◌==◌, nat_eq, string_eq, option_eq, list_eq, Bool-cases, Option-cases, any,
}
use silentguard_xdr.Prelude.Table.{select}
use silentguard_xdr.Prelude.Text.{Text}

-- The database differs in its detections and the next key at most.
abbrev pub OnlyDetections : Db → Db → Type 0
OnlyDetections db db' =
    (ds : List Detection) × (n : ℕ) × (db' ≡ record db { detections = ds; next_id = n })

-- the database behind a run that may raise
abbrev pub Leaves : Db → Option (List Detection × Db) → Type 0
Leaves db none = Unit
Leaves db (some (rows, db')) = OnlyDetections db db'

only_refl : (db : Db) → OnlyDetections db db
only_refl db = (db.detections, db.next_id, refl)

pub only_trans : (a b c : Db) → OnlyDetections a b → OnlyDetections b c → OnlyDetections a c
only_trans a b c (ds, n, e) (ds', n', e') =
    (ds', n', e' ∙ ap {A = Db} (λ db. record db { detections = ds'; next_id = n' }) e)

only-add : (row : Detection) (db : Db) → OnlyDetections db (add_detection row db)
only-add row db = (db.detections ++ row ∷ [], db.next_id + 1, refl)

module _ (now : ℕ) (device : Device) (event : ThreatEvent) where
  module _ (render : List Piece → Text) (shown : Json → Text) (dumps : Fields → Text) where
    pub rules_only :
        (rules : List Rule) (db : Db)
        → OnlyDetections db (evaluate_rules render shown dumps now device event rules db).1
    unfolding evaluate_rules
    rules_only [] db = only_refl db
    rules_only (rule ∷ rules) db =
        let row = detection_row render shown dumps db.next_id now device event rule in
        elim (Bool-cases (rule.matches (context_of render shown dumps event))) [
          | inl hit ↦ rw hit (
              only_trans db (add_detection row db)
                (evaluate_rules render shown dumps now device event rules (add_detection row db)).1
                (only-add row db) (rules_only rules (add_detection row db)))
          | inr miss ↦ rw miss (rules_only rules db)
        ]

  pub iocs_only :
      (is : List (String × Text)) (db : Db)
      → OnlyDetections db (evaluate_iocs now device event is db).1
  unfolding evaluate_iocs
  iocs_only [] db = only_refl db
  iocs_only ((t, v) ∷ is) db = elim (Option-cases (lookup now event.org_id t v db)) [
    | inl bad ↦ rw (bad, evaluate_iocs) (iocs_only is db)
    | inr (found, e) ↦ elim (Option-cases found) [
      | inl miss ↦ rw (e, miss, evaluate_iocs) (iocs_only is db)
      | inr (hit, e') ↦
          let row = ioc_row now device event t hit db.next_id in
          rw (e, e', evaluate_iocs)
            (only_trans db (add_detection row db)
              (evaluate_iocs now device event is (add_detection row db)).1 (only-add row db)
              (iocs_only is (add_detection row db)))
    ]
  ]

  Leaves-step :
      (db : Db) (row : Detection) (r : Option (List Detection × Db))
      → Leaves (add_detection row db) r
      → Leaves db (elim r [ none ↦ none | some (rows, db') ↦ some (row ∷ rows, db') ])
  Leaves-step db row none h = tt
  Leaves-step db row (some (rows, db')) h =
      only_trans db (add_detection row db) db' (only-add row db) h

  domains_only :
      (blocked seen : List Text) (is : List (String × Text)) (db : Db)
      → Leaves db (evaluate_domains now device event blocked seen is db)
  unfolding evaluate_domains
  domains_only blocked seen [] db = only_refl db
  domains_only blocked seen ((t, v) ∷ is) db = elim (Bool-cases (t == "domain" || t == "url")) [
    | inr other ↦ rw (other, evaluate_domains) (domains_only blocked seen is db)
    | inl web ↦ elim (Option-cases (host_matches_any v blocked)) [
      | inl bad ↦ rw (web, bad, evaluate_domains) tt
      | inr (found, e) ↦ elim (Option-cases found) [
        | inl miss ↦ rw (web, e, miss, evaluate_domains) (domains_only blocked seen is db)
        | inr (m, e') ↦ elim (Bool-cases (m == [] || any (λ s. s == m) seen)) [
          | inl known ↦ rw (web, e, e', known, evaluate_domains) (domains_only blocked seen is db)
          | inr fresh ↦
              let row = domain_row now device event m v db.next_id in
              rw (web, e, e', fresh, evaluate_domains)
                (Leaves-step db row
                  (evaluate_domains now device event blocked (m ∷ seen) is (add_detection row db))
                  (domains_only blocked (m ∷ seen) is (add_detection row db)))
        ]
      ]
    ]
  ]

  blocklist_only :
      (is : List (String × Text)) (db : Db)
      → Leaves db (evaluate_blocklist_domains now device event is db)
  unfolding evaluate_blocklist_domains
  blocklist_only is db = elim (Bool-cases (blocked_domains event.org_id db == [])) [
    | inl free ↦ rw free (only_refl db)
    | inr closed ↦ rw closed (domains_only (blocked_domains event.org_id db) [] is db)
  ]

  Leaves-finish :
      (a b : Db) (r : Option (List Detection × Db)) (xs ys : List Detection)
      (k : Db → List Detection × Db)
      → OnlyDetections a b
      → Leaves b r
      → ((db : Db) → OnlyDetections db (k db).1)
      → Leaves a (elim r [
        | none ↦ none
        | some (ds, db) ↦ let (zs, db') = k db in some (xs ++ ys ++ ds ++ zs, db')
      ])
  Leaves-finish a b none xs ys k first h last = tt
  Leaves-finish a b (some (ds, db)) xs ys k first h last =
      only_trans a db (k db).1 (only_trans a b db first h) (last db)

  module _ (render : List Piece → Text) (dumps : Fields → Text) (shown : Json → Text)
      (search : Text → Text → Option Bool) (load : Text → Option Json)
      (find_urls : Text → List Text) where
    sigma_only :
        (ctx : EventContext) (rules : List IntelRule) (db : Db)
        → OnlyDetections db
            (evaluate_sigma now device event render dumps shown search load find_urls ctx rules
              db).1
    unfolding evaluate_sigma
    sigma_only ctx [] db = only_refl db
    sigma_only ctx (rule ∷ rules) db =
        elim (Option-cases
          (fires now device event render dumps shown search load find_urls ctx rule)) [
            | inl silent ↦ rw (silent, evaluate_sigma) (sigma_only ctx rules db)
            | inr (c, e) ↦
                let row = sigma_row now device event (render event.summary) rule c db.next_id in
                rw (e, evaluate_sigma)
                  (only_trans db (add_detection row db)
                    (evaluate_sigma now device event render dumps shown search load find_urls ctx
                      rules (add_detection row db)).1
                    (only-add row db) (sigma_only ctx rules (add_detection row db)))
          ]

    sigma_rules_only :
        (on : Bool) (ctx : EventContext) (db : Db)
        → OnlyDetections db
            (evaluate_sigma_rules now device event render dumps shown search load find_urls on ctx
              db).1
    unfolding evaluate_sigma_rules
    sigma_rules_only false ctx db = only_refl db
    sigma_rules_only true ctx db =
        sigma_only ctx (select (is_sigma_rule now device event) db.intel_rules) db

    -- Evaluating an event changes the detections only.
    pub event_only :
        (sigma_enabled : Bool) (db : Db)
        → Leaves db (
            evaluate_event now device event render dumps shown search load find_urls sigma_enabled
              db)
    unfolding evaluate_event
    event_only sigma_enabled db =
        let is = extract_indicators shown find_urls event.details in
        let ctx = context_of render shown dumps event in
        let db₁ = (evaluate_rules render shown dumps now device event seed_rules db).1 in
        let db₂ = (evaluate_iocs now device event is db₁).1 in
        Leaves-finish db db₂ (evaluate_blocklist_domains now device event is db₂)
          (evaluate_rules render shown dumps now device event seed_rules db).0
          (evaluate_iocs now device event is db₁).0
          (evaluate_sigma_rules now device event render dumps shown search load find_urls
            sigma_enabled ctx)
          (only_trans db db₁ db₂ (rules_only render shown dumps seed_rules db) (iocs_only is db₁))
          (blocklist_only is db₂) (sigma_rules_only sigma_enabled ctx)
