-- ===== src/Agent/Tests/Names.antt =====
-- The theorems on the DNS sinkhole at samples.
use silentguard_xdr.Agent.Sinkhole.Syncing.{sync_settles}
use silentguard_xdr.Agent.Sinkhole.{sinkholed, new_content, sync, Sinkhole}
use silentguard_xdr.Prelude.{◌≡◌, refl, true, false, some, List, [], ◌∷◌}
use silentguard_xdr.Prelude.Text.{Text, codes}

abbrev clean_hosts : Sinkhole
clean_hosts = record { applied = []; hosts = some (codes "127.0.0.1 localhost\n"); emitted = [] }

abbrev one_domain : List Text
one_domain = codes "bad.example" ∷ []

abbrev one_synced : Sinkhole
one_synced = record {
  applied =
      codes "bad.example"
      ∷ codes "m.bad.example"
      ∷ codes "mobile.bad.example"
      ∷ codes "www.bad.example"
      ∷ [];
  hosts = some (
      new_content (codes "127.0.0.1 localhost\n") (
        codes "bad.example"
        ∷ codes "m.bad.example"
        ∷ codes "mobile.bad.example"
        ∷ codes "www.bad.example"
        ∷ []));
  emitted = sinkholed 5 false true (codes "bad.example") ∷ [];
}

sync_settles_example : sync 5 false true one_domain one_synced ≡ some one_synced
unfolding sync silentguard_xdr.Server.NetMatch.extract_host silentguard_xdr.Prelude.Text.rstrip_by
    silentguard_xdr.Prelude.Text.lower silentguard_xdr.Prelude.Text.strip mathlib.Core.Bool.xor
sync_settles_example = sync_settles 5 false true one_domain clean_hosts one_synced refl
