-- ===== src/Server/Sigma/Selection.antt =====
-- The selections of a Sigma rule: `_field_value`, `_match_value` and `_compile_selection` of
-- server/app/detection/sigma.py. What YAML reads is a JSON value whose keys are texts.
use silentguard_xdr.Server.Models.{Json, Items, Fields, null, arr, obj, nil, item, end, field}
use silentguard_xdr.Server.NetMatch.{starts_with, ends_with, contains}
use silentguard_xdr.Server.Detection.Matchers.{EventContext}
use silentguard_xdr.Prelude.{
  String, Bool, true, false, ◌&&◌, Option, none, some, List, [], ◌∷◌, if◌then◌else◌, ◌==◌, nat_eq,
  string_eq, option_eq, list_eq, any, all,
}
use silentguard_xdr.Prelude.Text.{Text, codes, lower, split_on}

-- `_COMMAND_FIELDS`
abbrev pub command_fields : List Text
command_fields =
    codes "commandline"
    ∷ codes "cmdline"
    ∷ codes "image"
    ∷ codes "process"
    ∷ codes "processpath"
    ∷ codes "originalfilename"
    ∷ codes "targetobject"
    ∷ codes "targetfilename"
    ∷ []

-- `_NAME_FIELDS`
abbrev pub name_fields : List Text
name_fields = codes "processname" ∷ codes "name" ∷ codes "imagename" ∷ []

-- `x in xs`
abbrev pub elem : Text → List Text → Bool
elem x xs = any (λ y. y == x) xs

-- `lowered.get(key)`: of the keys that differ in case only the last one counts
unfoldable pub get_lowered : Text → Fields → Option Json
get_lowered key end = none
get_lowered key (field k v d) = elim (get_lowered key d) [
  | some w ↦ some w
  | none ↦ if lower (codes k) == key then some v else none
]

-- a value that is neither missing nor None
abbrev pub present : Option Json → Option Json
present none = none
present (some null) = none
present (some v) = some v

abbrev pub items_of : Items → List Json
items_of nil = []
items_of (item v vs) = v ∷ items_of vs

-- `parts[0]` and `parts[1:]`
abbrev pub head_of : List Text → Text
head_of [] = []
head_of (p ∷ ps) = p

abbrev pub tail_of : List Text → List Text
tail_of [] = []
tail_of (p ∷ ps) = ps

-- `values if isinstance(values, list) else [values]`
abbrev pub values_of : Json → List Json
values_of (arr vs) = items_of vs
values_of v = v ∷ []

-- `shown` is `str`, and `search` is `re.search` without regard to case, none for a pattern that it refuses.
module _ (shown : Json → Text) (search : Text → Text → Option Bool) where
  -- `_field_value`
  unfoldable pub field_value : EventContext → Text → Text
  unfolding get_lowered
  field_value ctx name =
      let key = lower name in
      elim (present (get_lowered key ctx.details)) [
        | some v ↦ shown v
        | none ↦
            if elem key command_fields
            then ctx.command_line
            else if elem key name_fields
            then elim (get_lowered (codes "name") ctx.details) [ none ↦ [] | some v ↦ shown v ]
            else []
      ]

  -- `_match_value`
  unfoldable pub match_value : List Text → Text → Json → EventContext → Bool
  unfolding field_value contains starts_with ends_with
  match_value modifiers name value ctx =
      let raw = field_value ctx name in
      let fv = lower raw in
      let v = lower (shown value) in
      if elem (codes "re") modifiers
      then elim (search (shown value) raw) [ none ↦ false | some hit ↦ hit ]
      else if elem (codes "contains") modifiers
      then contains v fv
      else if elem (codes "startswith") modifiers
      then starts_with v fv
      else if elem (codes "endswith") modifiers
      then ends_with v fv
      else fv == v

  -- the test of one key of a mapping
  unfoldable pub match_field : String → Json → EventContext → Bool
  unfolding match_value
  match_field key values ctx =
      let parts = split_on b'|' (codes key) in
      let modifiers = tail_of parts in
      let test : Json → Bool = λ v. match_value modifiers (head_of parts) v ctx in
      if elem (codes "all") modifiers
      then all test (values_of values)
      else any test (values_of values)

  abbrev pub match_mapping : Fields → EventContext → Bool
  match_mapping end ctx = true
  match_mapping (field key values spec) ctx = match_field key values ctx && match_mapping spec ctx

  -- `_compile_selection`
  unfoldable pub compile_selection : Json → EventContext → Bool
  unfolding match_field
  compile_selection (obj spec) ctx = match_mapping spec ctx
  compile_selection (arr keywords) ctx =
      any (λ k. contains (lower (shown k)) ctx.haystack) (items_of keywords)
  compile_selection keyword ctx = contains (lower (shown keyword)) ctx.haystack
