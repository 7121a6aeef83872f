-- ===== src/Agent/FileDrop.antt =====
-- The hook on new files: agent/silentguard_agent/monitors/file_drop.py. The paths that a scan lists and
-- whether a file may be run are what the system answers; `fresh` gives the ids that the quarantine draws.
pub mod Dropped
use silentguard_xdr.Agent.Quarantine.{quarantine, verdict, Entry}
use silentguard_xdr.Agent.Commands.{entry_fields, emit, Endpoint, Options, Os}
use silentguard_xdr.Server.Exec.{lit}
use silentguard_xdr.Server.Models.{Json, Fields, text, str, end, field, put}
use silentguard_xdr.Prelude.{
  ℕ, ◌+◌, String, Bool, true, Option, none, some, List, [], ◌∷◌, ◌++◌, if◌then◌else◌, ◌==◌, nat_eq,
  string_eq, option_eq, list_eq, any,
}
use silentguard_xdr.Prelude.Text.{Text, codes, split_on, string_of}

-- `class FileDropMonitor`
pub record FileDrop : Type 0 where
  pub seen : List Text
  pub baselined : Bool

-- the lists of hashes, and the marks of the files that may be run
pub record Reputation : Type 0 where
  pub allowlisted_hashes : List Text
  pub known_bad_hashes : List Text
  pub executable : Text → Bool

abbrev last_part : List Text → Text
last_part [] = []
last_part (p ∷ []) = p
last_part (p ∷ q ∷ ps) = last_part (q ∷ ps)

abbrev parts_before : List Text → Text
parts_before [] = []
parts_before (p ∷ []) = []
parts_before (p ∷ q ∷ []) = p
parts_before (p ∷ q ∷ r ∷ ps) = p ++ b'/' ∷ parts_before (q ∷ r ∷ ps)

-- `path.name` and `path.parent`
abbrev pub name_of : Text → String
name_of path = string_of (last_part (split_on b'/' path))

abbrev pub parent_of : Text → String
parent_of path =
    let parent = parts_before (split_on b'/' path) in
    string_of (if parent == [] then codes "/" else parent)

module _ (now : ℕ) (os : Os) (o : Options) (rep : Reputation) where
  abbrev pub drop_fields : Text → Text → Option Entry → Fields
  drop_fields path digest entry = put "verdict" (str "known_bad") (
      put "sha256" (text digest)
        (elim entry [ none ↦ field "original_path" (text path) end | some e ↦ entry_fields e ]))

  -- what `_handle_new_file` reports of a known-bad file
  abbrev pub report_drop : Text → Text → Option Entry → Endpoint → Endpoint
  report_drop path digest entry e =
      emit now "file_drop" (elim entry [ none ↦ "quarantine_failed" | some x ↦ "quarantined" ])
        (lit "Known-bad file '"
          ∷ lit (name_of path)
          ∷ lit "' dropped in "
          ∷ lit (parent_of path)
          ∷ lit " "
          ∷ lit (elim entry [ none ↦ "but quarantine failed" | some x ↦ "and quarantined" ])
          ∷ [])
        "critical" (drop_fields path digest entry) e

  -- `_handle_new_file`, of a file with a digest
  unfoldable pub handle_digest : Text → Text → Text → Endpoint → Endpoint
  handle_digest fresh path digest e =
      let v = verdict rep.allowlisted_hashes rep.known_bad_hashes (some digest) in
      let (entry, store) =
        quarantine os.sha256_of os.movable o.quarantine_dir o.dry_run now fresh path (some digest)
          (codes "known-bad hash dropped on disk") e.store in
      if v == "allowlisted"
      then e
      else if v == "known_bad"
      then report_drop path digest entry (record e { store = store })
      else if rep.executable path
      then emit now "file_drop" "detected"
          (lit "New executable file '"
            ∷ lit (name_of path)
            ∷ lit "' dropped in "
            ∷ lit (parent_of path)
            ∷ [])
          "warning"
          (field "path" (text path) (field "sha256" (text digest) (field "verdict" (str v) end))) e
      else e

  -- `_handle_new_file`; a file that cannot be read has no digest
  unfoldable pub handle_new_file : Text → Text → Endpoint → Endpoint
  unfolding handle_digest
  handle_new_file fresh path e = elim (e.store.files path) [
    | none ↦ e
    | some content ↦ handle_digest fresh path (os.sha256_of content) e
  ]

  -- the loop of `scan`
  unfoldable pub handle_files : (ℕ → Text) → ℕ → List Text → List Text → Endpoint → Endpoint
  unfolding handle_new_file
  handle_files fresh n seen [] e = e
  handle_files fresh n seen (p ∷ ps) e =
      handle_files fresh (n + 1) seen ps
        (if any (λ q. q == p) seen then e else handle_new_file (fresh n) p e)

  -- `scan` of the files that it lists
  unfoldable pub scan_drops : (ℕ → Text) → List Text → FileDrop × Endpoint → FileDrop × Endpoint
  unfolding handle_files
  scan_drops fresh files (m, e) =
      if m.baselined
      then (record m { seen = files }, handle_files fresh 0 m.seen files e)
      else (record { seen = files; baselined = true }, e)
