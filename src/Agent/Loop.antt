-- ===== src/Agent/Loop.antt =====
-- What the agent does with the answer to a check-in: the check-in branch of `run` and `apply_policy` of
-- agent/silentguard_agent/main.py. The sets of the configuration are lists. `fresh` gives the id that the
-- quarantine draws at a command.
pub mod Protection
pub mod Stall
use silentguard_xdr.Server.Sigma.{keys_of}
use silentguard_xdr.Server.Models.{str, text, obj, Json, Fields, arr, get, truthy}
use silentguard_xdr.Server.Fleet.{CheckinResponse}
use silentguard_xdr.Server.Fleet.Telemetry.{as_int}
use silentguard_xdr.Server.Sigma.Condition.{is_number, number_of}
use silentguard_xdr.Server.Sigma.Selection.{items_of}
use silentguard_xdr.Agent.State.{text_of}
use silentguard_xdr.Agent.Update.{Verdict}
use silentguard_xdr.Agent.Commands.{
  raised, ended, is_sound_command, is_given, is_container, as_text, Handled, Os, Endpoint, Options,
  handle_command, isolate, release,
}
use silentguard_xdr.Prelude.{
  ℕ, ◌+◌, String, Bool, true, false, not, ◌&&◌, Option, none, some, List, [], ◌∷◌, ◌++◌, map,
  if◌then◌else◌, Equality, ◌==◌, nat_eq, string_eq, option_eq, list_eq, any, all,
}
use silentguard_xdr.Prelude.Text.{Text, codes}

-- the part of `AgentConfig` that the server extends
pub record Config : Type 0 where
  pub blocked_domains : List Text
  pub blocked_processes : List Text
  pub suspicious_ports : List ℕ
  pub file_drop_dirs : List Text
  pub block_usb_storage : Bool

-- `s.add(x)`
abbrev pub insert {ℓ} : {A : Type ℓ} ⦃e : Equality A⦄ → A → List A → List A
insert x xs = if any (λ y. y == x) xs then xs else xs ++ x ∷ []

-- `s.update(xs)`
abbrev pub insert_all {ℓ} : {A : Type ℓ} ⦃e : Equality A⦄ → List A → List A → List A
insert_all [] ys = ys
insert_all (x ∷ xs) ys = insert_all xs (insert x ys)

-- what a loop over a value runs over, none for the TypeError of a value that is not iterable
abbrev pub iterated : Json → Option (List Json)
iterated (arr vs) = some (items_of vs)
iterated (obj d) = some (keys_of d)
iterated (text t) = some (map (λ c. text (c ∷ [])) t)
iterated (str s) = some (map (λ c. text (c ∷ [])) (codes s))
iterated v = none

-- `policy.get(k, [])`
abbrev pub setting : String → Fields → Option (List Json)
setting k policy = elim (get k policy) [ none ↦ some [] | some v ↦ iterated v ]

-- `int(port)` of each, where it is a number
abbrev pub ports_of : List Json → List ℕ
ports_of [] = []
ports_of (v ∷ vs) = let rest = ports_of vs in elim (as_int v) [ none ↦ rest | some n ↦ n ∷ rest ]

abbrev pub port_numbers : List Text → List ℕ
port_numbers [] = []
port_numbers (t ∷ ts) =
    let rest = port_numbers ts in if is_number t then number_of 0 t ∷ rest else rest

-- The values of a policy are read as `extract_host` reads them: a text, nothing for a value that is false, and
-- else `str` of the value, which is `shown`.
module _ (shown : Json → Text) where
  abbrev pub element_of : Json → Text
  element_of v = elim (as_text v) [ none ↦ if truthy v then shown v else [] | some t ↦ t ]

  abbrev pub elements_of : List Json → List Text
  elements_of = map element_of

  -- `s.update(vs)`, and whether it ended: a list or an object has no hash
  abbrev pub update_set : List Json → List Text → List Text × Bool
  update_set [] ys = (ys, true)
  update_set (v ∷ vs) ys = elim (is_container v) [
    | true ↦ (ys, false)
    | false ↦ update_set vs (insert (element_of v) ys)
  ]

  -- `s.update(value)`
  abbrev pub update_from : Option (List Json) → List Text → List Text × Bool
  update_from none ys = (ys, false)
  update_from (some vs) ys = update_set vs ys

  -- the end of `apply_policy`, on the directories that the policy names
  abbrev pub apply_dirs : Fields → Option (List Json) → Config → Config × Bool
  apply_dirs policy none c = (c, false)
  apply_dirs policy (some vs) c = (
    record c {
      file_drop_dirs = insert_all (elements_of vs) c.file_drop_dirs;
      block_usb_storage = elim (get "block_usb_storage" policy) [
        | none ↦ c.block_usb_storage
        | some v ↦ truthy v
      ];
    },
    true,
  )

  -- from the update of the domains on, and from that of the processes on, with what the updates gave
  abbrev pub apply_domains : Fields → List Text × Bool → Config → Config × Bool
  apply_domains policy (domains, false) c = (record c { blocked_domains = domains }, false)
  apply_domains policy (domains, true) c =
      apply_dirs policy (setting "file_drop_dirs" policy) (record c { blocked_domains = domains })

  abbrev pub apply_processes : Fields → List Text × Bool → Config → Config × Bool
  apply_processes policy (processes, false) c = (record c { blocked_processes = processes }, false)
  apply_processes policy (processes, true) c =
      apply_domains policy (update_from (setting "blocked_domains" policy) c.blocked_domains)
        (record c { blocked_processes = processes })

  abbrev pub apply_ports : Fields → Option (List Json) → Config → Config × Bool
  apply_ports policy none c = (c, false)
  apply_ports policy (some vs) c =
      apply_processes policy (update_from (setting "blocked_processes" policy) c.blocked_processes)
        (record c { suspicious_ports = insert_all (ports_of vs) c.suspicious_ports })

  -- `apply_policy`, and whether it ended
  unfoldable pub apply_policy : Fields → Config → Config × Bool
  apply_policy policy = apply_ports policy (setting "suspicious_ports" policy)

-- `bl.get(kind, [])`
abbrev pub listed : String → List (String × List Text) → List Text
listed kind [] = []
listed kind ((k, vs) ∷ rest) = if k == kind then vs else listed kind rest

-- the merge of the blocklist
unfoldable pub merge_blocklist : List (String × List Text) → Config → Config
merge_blocklist bl c = record c {
  blocked_domains = insert_all (listed "domain" bl) c.blocked_domains;
  blocked_processes = insert_all (listed "process" bl) c.blocked_processes;
  suspicious_ports = insert_all (port_numbers (listed "port" bl)) c.suspicious_ports;
}

module _ (now : ℕ) (dumps : List (String × Text) → Text) (ed25519 : Text → Text → Text → Verdict)
    (hmac_sha256 : Text → Text → Text) (os : Os) (o : Options) (shell : String → Bool)
    (system : String) (fresh : ℕ → Text) where
  -- the loop over the commands, and whether all of them ended
  unfoldable pub handle_all : ℕ → List Fields → Endpoint → Handled
  handle_all n [] e = ended e
  handle_all n (cmd ∷ cmds) e =
      let (e', done) = handle_command now dumps ed25519 hmac_sha256 os o (fresh n) cmd e in
      elim done [ true ↦ handle_all (n + 1) cmds e' | false ↦ raised e' ]

  -- the last step of a check-in
  unfoldable pub set_network : Bool → Endpoint → Endpoint
  set_network true e = isolate now shell system o e
  set_network false e = release now shell e

  -- a check-in behind its commands
  unfoldable pub apply_answer : CheckinResponse → Config → Endpoint → Config × Endpoint × Bool
  unfolding set_network apply_policy merge_blocklist
  apply_answer state c e =
      let (c', applied) = apply_policy os.shown state.policy (merge_blocklist state.blocklist c) in
      elim applied [ true ↦ (c', set_network state.isolated e, true) | false ↦ (c', e, false) ]

  -- the check-in branch of `run`, and whether it ended without an exception: one of a command or of the policy
  -- leaves the rest of the branch out
  unfoldable pub apply_checkin : CheckinResponse → Config × Endpoint → Config × Endpoint × Bool
  unfolding handle_all apply_answer
  apply_checkin state (c, e) =
      let (e', done) = handle_all 0 state.commands e in
      elim done [ true ↦ apply_answer state c e' | false ↦ (c, e', false) ]

-- An answer with values of the types that the agent reads: the commands are sound, and the settings of the
-- policy are lists of values that have a hash, or texts.
abbrev pub is_set_of : Option (List Json) → Bool
is_set_of none = false
is_set_of (some vs) = all (λ v. not (is_container v)) vs

abbrev pub is_sound_policy : Fields → Bool
is_sound_policy policy =
    is_given (setting "suspicious_ports" policy)
    && is_set_of (setting "blocked_processes" policy)
    && is_set_of (setting "blocked_domains" policy)
    && is_given (setting "file_drop_dirs" policy)

abbrev pub is_sound_answer : CheckinResponse → Bool
is_sound_answer state = all is_sound_command state.commands && is_sound_policy state.policy

-- the values of a setting
abbrev pub values_in : Option (List Json) → List Json
values_in none = []
values_in (some vs) = vs

abbrev pub values_at : String → Fields → List Json
values_at k policy = values_in (setting k policy)
