-- ===== src/Agent/Tests/Drops.antt =====
-- The theorem on dropped files at a sample.
use silentguard_xdr.Agent.FileDrop.Dropped.{known_bad_drop, Quarantined}
use silentguard_xdr.Agent.FileDrop.{scan_drops, Reputation}
use silentguard_xdr.Agent.Commands.{Os, Options, Endpoint}
use silentguard_xdr.Agent.Quarantine.{quarantine, Files}
use silentguard_xdr.Prelude.{
  ℕ, ◌+◌, ◌≡◌, refl, true, false, none, some, [], ◌∷◌, ◌++◌, if◌then◌else◌, ◌==◌, nat_eq, string_eq,
  option_eq, list_eq,
}
use silentguard_xdr.Prelude.Text.{Text, codes}

abbrev two_files : Files
two_files path =
    if path == codes "/d/new"
    then some (codes "evil")
    else if path == codes "/d/old"
    then some (codes "ok")
    else none

abbrev drop_os : Os
drop_os = record {
  processes = [];
  kill_error = λ pid. none;
  no_process = λ pid. "process not found";
  no_number = λ v. "invalid literal";
  process_count = 1;
  sha256_of = λ content. content;
  movable = λ src dest. true;
  writable = true;
  shown = λ v. [];
}

abbrev drop_options : Options
drop_options = record {
  dry_run = false;
  management_server = codes "10.0.0.1:443";
  quarantine_dir = codes "/q";
  keys = record { update_public_key = []; update_hmac_key = [] };
}

abbrev reputation : Reputation
reputation = record {
  allowlisted_hashes = [];
  known_bad_hashes = codes "evil" ∷ [];
  executable = λ path. true;
}

abbrev watched : Endpoint
watched = record {
  store = record { files = two_files; manifest = [] };
  update_floor = [];
  isolated = false;
  emitted = [];
}

abbrev drawn : ℕ → Text
drawn n = codes "a" ++ (b'0' + n) ∷ []

known_bad_drop_example :
    let (m', e') =
      scan_drops 5 drop_os drop_options reputation drawn
        (codes "/d/old" ∷ codes "/d/new" ∷ [])
        (record { seen = codes "/d/old" ∷ []; baselined = true }, watched) in
    Quarantined (codes "/d/new") (codes "/q/a1.quarantined") (codes "evil") watched e'
    × (m'.seen ≡ codes "/d/old" ∷ codes "/d/new" ∷ [])
unfolding silentguard_xdr.Agent.Quarantine.verdict
known_bad_drop_example =
    known_bad_drop 5 drop_os drop_options reputation drawn (codes "/d/old" ∷ [])
      (codes "/d/old" ∷ []) [] (codes "/d/new") (codes "evil") watched (refl, tt) tt refl refl refl
      refl refl refl
