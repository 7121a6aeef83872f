-- ===== src/Server/Sigma.antt =====
-- Sigma rules: server/app/detection/sigma.py. `compile_sigma` reads a document that the YAML library
-- parsed; the compiled rule is what `compile_cached` keeps, since it depends on the text only.
pub mod Condition
pub mod Selection
use silentguard_xdr.Server.Models.{
  Json, Items, Fields, null, str, text, arr, obj, end, field, get, truthy, text_or,
}
use silentguard_xdr.Server.NetMatch.{starts_with, after}
use silentguard_xdr.Server.Detection.Matchers.{EventContext}
use silentguard_xdr.Server.Sigma.Condition.{
  Results, Node, parsed, index_error, out_of_fuel, compile_condition, any_condition,
}
use silentguard_xdr.Server.Sigma.Selection.{compile_selection, items_of}
use silentguard_xdr.Prelude.{
  String, Bool, false, ◌||◌, Option, none, some, List, [], ◌∷◌, map, if◌then◌else◌, ◌==◌, nat_eq,
  string_eq, option_eq, list_eq,
}
use silentguard_xdr.Prelude.Text.{Text, codes, lower, upper}

-- `class CompiledSigma`
pub record CompiledSigma : Type 0 where
  pub rule_id : Text
  pub name : Text
  pub severity : String
  pub technique_id : Text
  pub matches : EventContext → Bool

-- The outcome of `compile_sigma`: a SigmaError, or another exception that leaves it.
pub data Compilation : Type 0 where
  compiled : CompiledSigma → Compilation
  sigma_error : String → Compilation
  uncaught : Compilation

-- `_LEVEL_SEVERITY.get(level, "medium")`
unfoldable pub severity_of_level : Text → String
severity_of_level level =
    if level == codes "informational" || level == codes "info" || level == codes "low"
    then "low"
    else if level == codes "high"
    then "high"
    else if level == codes "critical"
    then "critical"
    else "medium"

-- `tag.lower().startswith("attack.t")`, of a tag that is a text
unfoldable pub technique_of_tag : Json → Option Text
unfolding starts_with after
technique_of_tag (text t) =
    if starts_with (codes "attack.t") (lower t)
    then some (upper (after (λ c. c == b'.') t))
    else none
technique_of_tag (str s) =
    let t = codes s in
    if starts_with (codes "attack.t") (lower t)
    then some (upper (after (λ c. c == b'.') t))
    else none
technique_of_tag v = none

abbrev pub first_technique : List Json → Text
first_technique [] = []
first_technique (tag ∷ tags) = elim (technique_of_tag tag) [
  | some t ↦ t
  | none ↦ first_technique tags
]

abbrev pub keys_of : Fields → List Json
keys_of end = []
keys_of (field k v d) = str k ∷ keys_of d

-- what the loop over `tags or []` runs over, none where it is no iterable; no character is a tag
abbrev pub tags_of : Json → Option (List Json)
tags_of (arr vs) = some (items_of vs)
tags_of (obj d) = some (keys_of d)
tags_of (text t) = some []
tags_of (str s) = some []
tags_of v = if truthy v then none else some []

-- `_technique_from_tags`
unfoldable pub technique_from_tags : Option Json → Option Text
unfolding technique_of_tag
technique_from_tags none = some []
technique_from_tags (some tags) = elim (tags_of tags) [
  | none ↦ none
  | some ts ↦ some (first_technique ts)
]

-- the selections: every key but `condition`
unfoldable pub selections_of : Fields → List (Text × Json)
selections_of end = []
selections_of (field k v d) =
    let rest = selections_of d in if k == "condition" then rest else (codes k, v) ∷ rest

abbrev pub names_of : List (Text × Json) → List Text
names_of [] = []
names_of ((n, v) ∷ ss) = n ∷ names_of ss

-- `shown` is `str`, `search` is `re.search`, and `load` is `yaml.safe_load`, none for a YAMLError.
module _ (shown : Json → Text) (search : Text → Text → Option Bool)
    (load : Text → Option Json) where
  -- `str(condition or ...)`, empty where the condition is
  unfoldable pub condition_text : Option Json → Text
  condition_text none = []
  condition_text (some (arr cs)) = any_condition (map shown (items_of cs))
  condition_text (some v) = if truthy v then shown v else []

  -- `results.get(name)` where the results are those of the selections
  unfoldable pub results : List (Text × Json) → EventContext → Results
  results [] ctx name = false
  results ((n, spec) ∷ ss) ctx name =
      let rest = results ss ctx name in
      if n == name then compile_selection shown search spec ctx else rest

  abbrev pub compiled_rule : Fields → Text → Node → List (Text × Json) → Compilation
  compiled_rule doc technique node selections =
      let title = text_or shown "title" doc (codes "Sigma rule") in
      compiled (record {
        rule_id = text_or shown "id" doc title;
        name = title;
        severity =
            severity_of_level (elim (get "level" doc) [ none ↦ [] | some v ↦ lower (shown v) ]);
        technique_id = technique;
        matches = λ ctx. node (results selections ctx);
      })

  -- what follows the checks of the document
  unfoldable pub compile_selections : Fields → Fields → List (Text × Json) → Compilation
  unfolding condition_text results
  compile_selections doc detection [] = sigma_error "Sigma 'detection' block has no selections"
  compile_selections doc detection (s ∷ ss) =
      elim (compile_condition (names_of (s ∷ ss)) (condition_text (get "condition" detection))) [
        | parsed node rest ↦ elim (technique_from_tags (get "tags" doc)) [
          | none ↦ uncaught
          | some technique ↦ compiled_rule doc technique node (s ∷ ss)
        ]
        | index_error ↦ uncaught
        | out_of_fuel ↦ uncaught
      ]

  -- `compile_sigma`
  unfoldable pub compile_document : Json → Compilation
  unfolding compile_selections selections_of
  compile_document (obj doc) = elim (get "detection" doc) [
    | some (obj (field k v d)) ↦ compile_selections doc (field k v d) (selections_of (field k v d))
    | _ ↦ sigma_error "Sigma rule needs a non-empty 'detection' block"
  ]
  compile_document v = sigma_error "Sigma rule must be a mapping"

  unfoldable pub compile_sigma : Text → Compilation
  unfolding compile_document
  compile_sigma content = elim (load content) [
    | none ↦ sigma_error "invalid YAML"
    | some doc ↦ compile_document doc
  ]
