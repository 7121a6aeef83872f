-- ===== src/Server/Tests/Codes.antt =====
-- The theorems on registration and on multi-factor codes at samples.
use silentguard_xdr.Server.Tests.{toy_pbkdf2, right_password, ann, world_of}
use silentguard_xdr.Server.Models.{Db, Organization, User, empty_db}
use silentguard_xdr.Server.Exec.{ok}
use silentguard_xdr.Server.Auth.Settings.{default_settings}
use silentguard_xdr.Server.Auth.Login.{World}
use silentguard_xdr.Server.Auth.Sessions.{Jwt, Tokens}
use silentguard_xdr.Server.Auth.Signup.{new_org, unique_slug}
use silentguard_xdr.Server.Auth.Signup.Slugs.{FindsFree, unique_slug_ends}
use silentguard_xdr.Server.Auth.Mfa.{
  hotp, verify, is_digits, secret_of, enforce_mfa, mfa_begin_setup, login,
}
use silentguard_xdr.Server.Auth.Mfa.Codes.{verify_iff}
use silentguard_xdr.Server.Auth.Mfa.Rights.{login_needs_code, setup_turns_off}
use silentguard_xdr.Prelude.{
  ℕ, ◌+◌, ◌≤◌, ◌≡◌, refl, ◌↔◌, true, false, none, some, List, [], ◌∷◌, ◌==◌, nat_eq, string_eq,
  option_eq, list_eq,
}
use silentguard_xdr.Prelude.Table.{find}
use silentguard_xdr.Prelude.Text.{Text, codes, strip}

abbrev acme : Organization
acme = new_org 1 "o1" (codes "Acme") (codes "acme") "team"

abbrev with_acme : Db
with_acme = record empty_db { organizations = acme ∷ record acme { slug = codes "acme-2" } ∷ [] }

unique_slug_ends_example : FindsFree with_acme (unique_slug with_acme (codes " Acme! "))
unique_slug_ends_example = unique_slug_ends with_acme (codes " Acme! ")

abbrev toy_b32decode : Text → List ℕ
toy_b32decode secret = secret

-- a digest whose code is 000005 at every step
abbrev toy_sha1 : List ℕ → List ℕ → List ℕ
toy_sha1 key message = 0 ∷ 0 ∷ 0 ∷ 5 ∷ 0 ∷ []

abbrev good_code : Text
good_code = codes "000005"

abbrev a_secret : Text
a_secret = codes "GEZDGNBV"

verify_iff_example : verify toy_b32decode toy_sha1 a_secret good_code 61 ≡ true ↔ (
    ((a_secret == []) ≡ false)
    × ((good_code == []) ≡ false)
    × (is_digits (strip good_code) ≡ true)
    × ((step : ℕ) × (2 ≤ step + 1)
        × (step ≤ 2 + 1)
        × (hotp toy_b32decode toy_sha1 a_secret step ≡ strip good_code)))
verify_iff_example = verify_iff toy_b32decode toy_sha1 a_secret good_code 61

abbrev guarded_ann : User
guarded_ann = record ann { mfa_enabled = true; mfa_secret = some a_secret }

abbrev toy_jwt : Jwt
toy_jwt = record { encode = λ c. c.sub; decode = λ t. none }

abbrev annes_tokens : Tokens
annes_tokens = record {
  access_token = "u1";
  refresh_token = "u1";
  token_type = "bearer";
  expires_in = default_settings.access_token_ttl_seconds;
}

login_needs_code_example : verify toy_b32decode toy_sha1 a_secret good_code 61 ≡ true
unfolding silentguard_xdr.Server.Auth.Login.find_user silentguard_xdr.Server.Auth.Login.authenticate
    silentguard_xdr.Server.Auth.Login.check_rate silentguard_xdr.Server.Auth.Login.is_locked
    silentguard_xdr.Server.Auth.Login.check_user silentguard_xdr.Server.Auth.Login.record_success
    silentguard_xdr.Prelude.Text.lower silentguard_xdr.Prelude.Text.split_on
    silentguard_xdr.Prelude.Text.lower_char silentguard_xdr.Prelude.Text.lstrip_by
    silentguard_xdr.Prelude.Text.rstrip_by silentguard_xdr.Prelude.Text.upper
    silentguard_xdr.Prelude.Text.upper_char strip login enforce_mfa verify hotp
    silentguard_xdr.Server.Auth.RateLimit.rate_limited_deque
    silentguard_xdr.Server.Auth.RateLimit.expire silentguard_xdr.Server.Auth.RateLimit.deque_of
    silentguard_xdr.Server.Auth.RateLimit.admit silentguard_xdr.Server.Auth.RateLimit.rate_limited
    silentguard_xdr.Server.Auth.RateLimit.set_deque
    silentguard_xdr.Server.Auth.Password.verify_password
    silentguard_xdr.Server.Auth.Password.hash_password
    silentguard_xdr.Server.Auth.Password.parse_int silentguard_xdr.Server.Auth.Password.is_hex_text
    silentguard_xdr.Server.Auth.Password.digits_from silentguard_xdr.Server.Auth.Mfa.finish_login
    silentguard_xdr.Server.Auth.Mfa.pack_u64 silentguard_xdr.Server.Auth.Mfa.pad
    silentguard_xdr.Server.Auth.Mfa.signed_in
    silentguard_xdr.Server.Auth.Sessions.create_access_token
    silentguard_xdr.Server.Auth.Sessions.create_refresh_token
    silentguard_xdr.Server.Auth.Sessions.issue_tokens
login_needs_code_example =
    login_needs_code toy_b32decode toy_sha1 toy_pbkdf2 toy_jwt default_settings 61 ann.email
      right_password good_code [] "j1" (world_of guarded_ann) guarded_ann annes_tokens refl refl
      refl

setup_turns_off_example :
    let (secret, db') =
      mfa_begin_setup toy_b32decode toy_sha1 guarded_ann (codes "NEW") (world_of guarded_ann).db in
    (u : User) × (find (λ v. v.id == guarded_ann.id) db'.users ≡ some u)
    × (u.mfa_enabled ≡ false)
    × ((now : ℕ) (w : World) → enforce_mfa toy_b32decode toy_sha1 now u [] w ≡ (ok tt, w))
setup_turns_off_example =
    setup_turns_off toy_b32decode toy_sha1 guarded_ann (codes "NEW") (world_of guarded_ann).db refl
      refl
