-- ===== src/Server/Tests.antt =====
-- Sample rows for the tests of the server.
mod Accounts
mod Tokens
mod Reach
mod Staff
mod Devices
mod Rules
mod Ingestion
mod Codes
use silentguard_xdr.Server.Models.{Db, User, Device, Organization, default_org_id, empty_db, end}
use silentguard_xdr.Server.Auth.Settings.{Settings, default_settings}
use silentguard_xdr.Server.Auth.Login.{World}
use silentguard_xdr.Server.Access.{Principal, responder}
use silentguard_xdr.Server.Auth.Password.{hash_password}
use silentguard_xdr.Prelude.{ℕ, ◌+◌, ◌%◌, String, true, false, none, some, [], ◌∷◌, ◌++◌, map}
use silentguard_xdr.Prelude.Text.{Text, codes}

-- a key derivation with short digests
abbrev pub toy_pbkdf2 : Text → Text → ℕ → Text
toy_pbkdf2 password salt rounds = map (λ c. b'a' + c % 6) password ++ salt

abbrev pub toy_digest : String → String
toy_digest raw = raw

abbrev pub some_salt : Text
some_salt = codes "0a1b"

abbrev pub right_password : Text
right_password = codes "Correct-Horse-7"

abbrev pub wrong_password : Text
wrong_password = codes "guess"

abbrev pub ann : User
ann = record {
  id = "u1";
  org_id = some default_org_id;
  email = codes "ann@example.org";
  hashed_password = hash_password toy_pbkdf2 some_salt right_password;
  role = "analyst";
  is_active = true;
  email_verified = false;
  mfa_enabled = false;
  mfa_secret = none;
  failed_login_count = 0;
  locked_until = none;
  last_login_at = none;
  created_at = 1;
}

abbrev pub tired_ann : User
tired_ann = record ann { failed_login_count = 4 }

abbrev pub world_of : User → World
world_of u = record { db = record empty_db { users = u ∷ [] }; attempts = [] }

abbrev pub laptop : Device
laptop = record {
  id = "d1";
  org_id = some default_org_id;
  group_id = none;
  hostname = "laptop";
  platform = "linux";
  agent_version = "1.4";
  api_key = "k1";
  enrolled_at = 1;
  last_seen = 5;
  isolated = false;
  pending_commands = end ∷ [];
  stopped = false;
  unresponsive_alerted = false;
}

abbrev pub fleet : Db
fleet = record empty_db { devices = laptop ∷ [] }

-- a responder of the default organization, and one of another
abbrev pub bob : Principal
bob = record {
  actor = "user:u2";
  role = responder;
  user_id = some "u2";
  org_id = some default_org_id;
  cross_org = false;
}

abbrev pub eve : Principal
eve = record bob { org_id = some "other" }
