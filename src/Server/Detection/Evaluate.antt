-- ===== src/Server/Detection/Evaluate.antt =====
-- The rest of `evaluate_event` of server/app/detection/engine.py: indicators, blocked domains and the
-- Sigma rules. `none` is a ValueError of `host_matches_any`, the one exception that leaves it.
use silentguard_xdr.Server.Models.{
  Json, nil, item, Fields, Db, Device, ThreatEvent, Detection, Ioc, BlocklistEntry, IntelRule, end,
  field, concat,
}
use silentguard_xdr.Server.Exec.{Piece}
use silentguard_xdr.Server.NetMatch.{host_matches_any}
use silentguard_xdr.Server.Intel.{lookup}
use silentguard_xdr.Server.Intel.Indicators.{extract_indicators}
use silentguard_xdr.Server.Sigma.{CompiledSigma, compiled, sigma_error, uncaught, compile_sigma}
use silentguard_xdr.Server.Detection.Matchers.{EventContext}
use silentguard_xdr.Server.Detection.Rules.Seed.{seed_rules}
use silentguard_xdr.Server.Detection.{context_of, evaluate_rules, add_detection}
use silentguard_xdr.Prelude.{
  ℕ, String, Bool, true, false, ◌&&◌, ◌||◌, Option, none, some, List, [], ◌∷◌, ◌++◌, leb,
  if◌then◌else◌, ◌==◌, nat_eq, string_eq, option_eq, list_eq, any,
}
use silentguard_xdr.Prelude.Table.{select}
use silentguard_xdr.Prelude.Text.{Text, string_of}

abbrev alert_only : Json
alert_only = Json.arr (item (Json.str "alert") nil)

abbrev values : List BlocklistEntry → List Text
values [] = []
values (e ∷ es) = e.value ∷ values es

-- the query of `_evaluate_blocklist_domains` for the organization of an event
abbrev pub blocked_domains : Option String → Db → List Text
blocked_domains org_id db =
    values
      (select (λ e. e.kind == "domain" && (e.org_id == org_id || e.org_id == none)) db.blocklist)

-- the columns that every detection of an event has
module _ (now : ℕ) (device : Device) (event : ThreatEvent) where
  abbrev pub row_of : String → String → String → ℕ → String → String → Fields → ℕ → Detection
  row_of rule_id name severity risk_score technique_id technique_name details id = record {
    id = id;
    org_id = event.org_id;
    device_id = device.id;
    event_id = some event.id;
    rule_id = rule_id;
    name = name;
    severity = severity;
    risk_score = risk_score;
    technique_id = technique_id;
    technique_name = technique_name;
    status = "new";
    details = details;
    created_at = now;
  }

  -- `IOC_TECHNIQUE.get(ioc_type, ...)`
  unfoldable pub ioc_technique : String → String × String
  ioc_technique t =
      if t == "domain"
      then ("T1071.004", "Application Layer Protocol: DNS")
      else if t == "url"
      then ("T1071.001", "Application Layer Protocol: Web")
      else if t == "sha256"
      then ("T1105", "Ingress Tool Transfer")
      else if t == "certificate"
      then ("T1587.002", "Digital Certificates")
      else ("T1071", "Application Layer Protocol")

  unfoldable pub confidence_severity : ℕ → String
  confidence_severity confidence =
      if leb 80 confidence then "critical" else if leb 50 confidence then "high" else "medium"

  abbrev pub ioc_row : String → Ioc → ℕ → Detection
  ioc_row ioc_type hit =
      row_of "ioc_match" (concat "Known-bad " (concat ioc_type " indicator"))
        (confidence_severity hit.confidence)
        (if leb 100 hit.confidence then 100 else hit.confidence) (ioc_technique ioc_type).0
        (ioc_technique ioc_type).1
        (field "ioc_type" (Json.str ioc_type) (
          field "value" (Json.text hit.value) (
            field "source" (Json.str hit.source)
              (field "confidence" (Json.num hit.confidence) (field "responses" alert_only end)))))

  -- the loop of `_evaluate_iocs`
  unfoldable pub evaluate_iocs : List (String × Text) → Db → List Detection × Db
  unfolding confidence_severity ioc_technique
  evaluate_iocs [] db = ([], db)
  evaluate_iocs ((t, v) ∷ is) db = elim (lookup now event.org_id t v db) [
    | none ↦ evaluate_iocs is db
    | some none ↦ evaluate_iocs is db
    | some (some hit) ↦
        let row = ioc_row t hit db.next_id in
        let (rows, db') = evaluate_iocs is (add_detection row db) in (row ∷ rows, db')
  ]

  abbrev pub domain_row : Text → Text → ℕ → Detection
  domain_row matched value =
      row_of "blocklist_domain" (concat "Blocked domain contacted: " (string_of matched)) "high" 60
        "T1071" "Application Layer Protocol"
        (field "blocked_domain" (Json.text matched)
          (field "observed" (Json.text value) (field "responses" alert_only end)))

  -- the loop of `_evaluate_blocklist_domains`
  unfoldable pub evaluate_domains :
      List Text → List Text → List (String × Text) → Db → Option (List Detection × Db)
  evaluate_domains blocked seen [] db = some ([], db)
  evaluate_domains blocked seen ((t, v) ∷ is) db =
      if t == "domain" || t == "url"
      then elim (host_matches_any v blocked) [
        | none ↦ none
        | some none ↦ evaluate_domains blocked seen is db
        | some (some matched) ↦
            if matched == [] || any (λ s. s == matched) seen
            then evaluate_domains blocked seen is db
            else let row = domain_row matched v db.next_id in
              elim (evaluate_domains blocked (matched ∷ seen) is (add_detection row db)) [
                | none ↦ none
                | some (rows, db') ↦ some (row ∷ rows, db')
              ]
      ]
      else evaluate_domains blocked seen is db

  -- `_evaluate_blocklist_domains`
  unfoldable pub evaluate_blocklist_domains :
      List (String × Text) → Db → Option (List Detection × Db)
  unfolding evaluate_domains
  evaluate_blocklist_domains indicators db =
      let blocked = blocked_domains event.org_id db in
      if blocked == [] then some ([], db) else evaluate_domains blocked [] indicators db

  -- `SEVERITY_SCORE[Severity(severity)]` of a compiled rule
  unfoldable pub score_of : String → ℕ
  score_of severity =
      if severity == "low"
      then 10
      else if severity == "medium"
      then 30
      else if severity == "high"
      then 60
      else 90

  abbrev pub sigma_row : Text → IntelRule → CompiledSigma → ℕ → Detection
  sigma_row summary rule c =
      row_of (concat "sigma:" (string_of c.rule_id)) (string_of c.name) c.severity
        (score_of c.severity) (string_of c.technique_id) ""
        (field "summary" (Json.text summary)
          (field "sigma" (Json.str rule.name) (field "responses" alert_only end)))

  -- the query of `_evaluate_sigma`
  unfoldable pub is_sigma_rule : IntelRule → Bool
  is_sigma_rule r = r.kind == "sigma" && r.enabled && (r.org_id == event.org_id || r.org_id == none)

  -- `render` writes a message out, `dumps` is the JSON printer, `shown` is `str`, `search` is `re.search`,
  -- `load` is `yaml.safe_load` and `find_urls` is `_URL_RE.findall`.
  module _ (render : List Piece → Text) (dumps : Fields → Text) (shown : Json → Text)
      (search : Text → Text → Option Bool) (load : Text → Option Json)
      (find_urls : Text → List Text) where
    -- a rule that compiles, and matches
    unfoldable pub fires : EventContext → IntelRule → Option CompiledSigma
    fires ctx rule = elim (compile_sigma shown search load rule.content) [
      | compiled c ↦ if c.matches ctx then some c else none
      | sigma_error e ↦ none
      | uncaught ↦ none
    ]

    -- the loop of `_evaluate_sigma`
    unfoldable pub evaluate_sigma : EventContext → List IntelRule → Db → List Detection × Db
    unfolding score_of
    evaluate_sigma ctx [] db = ([], db)
    evaluate_sigma ctx (rule ∷ rules) db = elim (fires ctx rule) [
      | none ↦ evaluate_sigma ctx rules db
      | some c ↦
          let row = sigma_row (render event.summary) rule c db.next_id in
          let (rows, db') = evaluate_sigma ctx rules (add_detection row db) in (row ∷ rows, db')
    ]

    -- `_evaluate_sigma`; `sigma_enabled` is the setting
    unfoldable pub evaluate_sigma_rules : Bool → EventContext → Db → List Detection × Db
    unfolding evaluate_sigma is_sigma_rule
    evaluate_sigma_rules false ctx db = ([], db)
    evaluate_sigma_rules true ctx db = evaluate_sigma ctx (select is_sigma_rule db.intel_rules) db

    -- `evaluate_event`
    unfoldable pub evaluate_event : Bool → Db → Option (List Detection × Db)
    unfolding evaluate_blocklist_domains evaluate_sigma_rules evaluate_iocs
    evaluate_event sigma_enabled db =
        let ctx = context_of render shown dumps event in
        let indicators = extract_indicators shown find_urls event.details in
        let (seeds, db₁) = evaluate_rules render shown dumps now device event seed_rules db in
        let (iocs, db₂) = evaluate_iocs indicators db₁ in
        elim (evaluate_blocklist_domains indicators db₂) [
          | none ↦ none
          | some (domains, db₃) ↦
              let (sigmas, db₄) = evaluate_sigma_rules sigma_enabled ctx db₃ in
              some (seeds ++ iocs ++ domains ++ sigmas, db₄)
        ]
