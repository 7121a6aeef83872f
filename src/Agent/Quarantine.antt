-- ===== src/Agent/Quarantine.antt =====
-- The quarantine of files: agent/silentguard_agent/quarantine.py. The files are a map from paths to
-- contents. Whether the system lets a file be moved is an argument, and so are the id and the digests;
-- permissions are left out, as the agent owns what it moves.
pub mod Restore
use silentguard_xdr.Prelude.{
  ℕ, String, Bool, true, false, not, ◌&&◌, Option, none, some, List, [], ◌∷◌, ◌++◌, if◌then◌else◌,
  ◌==◌, nat_eq, string_eq, option_eq, list_eq, any,
}
use silentguard_xdr.Prelude.Table.{find}
use silentguard_xdr.Prelude.Text.{Text, codes}

-- an entry of the manifest
pub record Entry : Type 0 where
  pub id : Text
  pub original_path : Text
  pub sha256 : Option Text
  pub stored_name : Text
  pub reason : Text
  pub quarantined_at : ℕ
  pub status : String
  pub restored_at : Option ℕ

abbrev pub Files : Type 0
Files = Text → Option Text

-- the quarantine directory's manifest and the files of the device
pub record Store : Type 0 where
  pub files : Files
  pub manifest : List Entry

-- `shutil.move`
unfoldable pub move_file : Text → Text → Files → Files
move_file src dest files path =
    if path == dest then files src else if path == src then none else files path

-- `f"{qid}.quarantined"`, and the path of that name in the directory
abbrev pub stored_name_of : Text → Text
stored_name_of id = id ++ codes ".quarantined"

abbrev pub stored_path : Text → Text → Text
stored_path dir name = dir ++ b'/' ∷ name

-- `verdict`
unfoldable pub verdict : List Text → List Text → Option Text → String
verdict allowlisted known_bad none = "unknown"
verdict allowlisted known_bad (some h) =
    if h == []
    then "unknown"
    else if any (λ a. a == h) allowlisted
    then "allowlisted"
    else if any (λ k. k == h) known_bad
    then "known_bad"
    else "unknown"

abbrev is_present {ℓ} : {A : Type ℓ} → Option A → Bool
is_present none = false
is_present (some a) = true

-- `sha256 or sha256_of(src)`
abbrev digest_or : Option Text → Option Text → Option Text
digest_or none later = later
digest_or (some []) later = later
digest_or (some (c ∷ s)) later = some (c ∷ s)

module _ (sha256_of : Text → Text) (movable : Text → Text → Bool) (dir : Text)
    (dry_run : Bool) where
  abbrev pub new_entry : ℕ → Text → Text → Option Text → Text → Files → Entry
  new_entry now id path sha256 reason files = record {
    id = id;
    original_path = path;
    sha256 = digest_or sha256 (elim (files path) [ none ↦ none | some c ↦ some (sha256_of c) ]);
    stored_name = stored_name_of id;
    reason = reason;
    quarantined_at = now;
    status = "quarantined";
    restored_at = none;
  }

  -- `quarantine`, with the id that it draws
  unfoldable pub quarantine : ℕ → Text → Text → Option Text → Text → Store → Option Entry × Store
  unfolding move_file
  quarantine now id path sha256 reason s =
      let entry = new_entry now id path sha256 reason s.files in
      let dest = stored_path dir (stored_name_of id) in
      if dry_run
      then (some entry, record s { manifest = s.manifest ++ entry ∷ [] })
      else if not (is_present (s.files path) && movable path dest)
      then (none, s)
      else (
        some entry,
        record { files = move_file path dest s.files; manifest = s.manifest ++ entry ∷ [] },
      )

  -- the test of the loop in `restore`
  abbrev pub is_held : Text → Entry → Bool
  is_held id e = e.id == id && e.status == "quarantined"

  abbrev pub restored : ℕ → Entry → Entry
  restored now e = record e { status = "restored"; restored_at = some now }

  -- the assignment to the entry that the loop stopped at
  abbrev pub mark_first : (Entry → Bool) → (Entry → Entry) → List Entry → List Entry
  mark_first p f [] = []
  mark_first p f (e ∷ es) = let rest = mark_first p f es in if p e then f e ∷ es else e ∷ rest

  -- `restore`
  unfoldable pub restore : ℕ → Text → Store → Option Entry × Store
  unfolding move_file
  restore now id s = elim (find (is_held id) s.manifest) [
    | none ↦ (none, s)
    | some e ↦
        let stored = stored_path dir e.stored_name in
        let marked = mark_first (is_held id) (restored now) s.manifest in
        if dry_run
        then (some (restored now e), record s { manifest = marked })
        else if not (is_present (s.files stored) && movable stored e.original_path)
        then (none, s)
        else (
          some (restored now e),
          record { files = move_file stored e.original_path s.files; manifest = marked },
        )
  ]
