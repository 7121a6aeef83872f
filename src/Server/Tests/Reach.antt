-- ===== src/Server/Tests/Reach.antt =====
-- The theorems on callers, tenants, plans, host names and indicators at samples.
use silentguard_xdr.Server.Tests.{ann, laptop}
use silentguard_xdr.Server.Models.{Db, User, Device, Ioc, empty_db, default_org_id}
use silentguard_xdr.Server.Access.{Credentials, principal_of, current_principal}
use silentguard_xdr.Server.Access.Matrix.{current_principal_sound}
use silentguard_xdr.Server.NetMatch.{
  extract_host, blocked_hosts, host_matches_any, host_matches_domain,
}
use silentguard_xdr.Server.NetMatch.Suffixes.{hits, host_matches_any-eq-none_iff}
use silentguard_xdr.Prelude.{
  String, ◌≡◌, refl, ◌≢◌, ◌↔◌, ◌⊎◌, true, false, Option, none, some, List, [], ◌∷◌, if◌then◌else◌,
  ◌==◌, nat_eq, string_eq, option_eq, list_eq, any,
}
use silentguard_xdr.Prelude.Table.{find}
use silentguard_xdr.Prelude.Text.{Text, codes}

abbrev toy_decode : String → Option (String × String)
toy_decode token = if token == "jwt" then some ("access", "u1") else none

abbrev annes_request : Credentials
annes_request = record { bearer = some "jwt"; x_admin_token = "" }

abbrev admin_token_set : String
admin_token_set = "admin"

abbrev with_ann : Db
with_ann = record empty_db { users = ann ∷ [] }

current_principal_sound_example :
    ((token : String) × (user : User) × (annes_request.bearer ≡ some token)
      × (toy_decode token ≡ some ("access", user.id))
      × (find (λ u. u.id == user.id) (ann ∷ []) ≡ some user)
      × (user.is_active ≡ true)
      × (principal_of ann ≡ principal_of user))
    ⊎ ((annes_request.bearer ≡ none)
        × (annes_request.x_admin_token ≡ admin_token_set)
        × (admin_token_set ≢ ""))
unfolding current_principal
current_principal_sound_example =
    current_principal_sound toy_decode admin_token_set (λ token. token) annes_request with_ann
      (principal_of ann) refl

abbrev two_devices : List Device
two_devices = laptop ∷ record laptop { id = "d2"; org_id = some "other" } ∷ []

abbrev visited : Text
visited = codes "http://a.evil.com:8080/x"

abbrev blocked : List Text
blocked = codes "evil.com" ∷ []

host_matches_any-eq-none_iff_example :
    (host_matches_any visited blocked ≡ some none)
    ↔ (any (λ b. hits (host_matches_domain visited b)) blocked ≡ false)
unfolding extract_host blocked_hosts silentguard_xdr.Prelude.Text.rstrip_by
    silentguard_xdr.Prelude.Text.lower silentguard_xdr.Prelude.Text.strip mathlib.Core.Bool.xor
host_matches_any-eq-none_iff_example =
    host_matches_any-eq-none_iff visited (codes "a.evil.com") blocked blocked refl refl

abbrev bad_domain : Ioc
bad_domain = record {
  id = 1;
  org_id = some default_org_id;
  ioc_type = "domain";
  value = codes "evil.com";
  confidence = 80;
  source = "feed";
  description = "";
  expires_at = some 100;
  created_at = 1;
}

abbrev with_ioc : Db
with_ioc = record empty_db {
  iocs = bad_domain ∷ record bad_domain { id = 2; expires_at = some 3 } ∷ [];
}
