-- ===== src/Server/Tests/Accounts.antt =====
-- The theorems on accounts at sample accounts.
use silentguard_xdr.Server.Tests.{
  toy_pbkdf2, right_password, wrong_password, ann, tired_ann, world_of,
}
use silentguard_xdr.Server.Models.{User}
use silentguard_xdr.Server.Exec.{ok}
use silentguard_xdr.Server.Auth.Settings.{default_settings}
use silentguard_xdr.Server.Auth.RateLimit.Window.{admitted, in_window, admitted_window_bound}
use silentguard_xdr.Server.Auth.Password.{
  rounds, hash_password, verify_password, validate_password, is_hex_text,
}
use silentguard_xdr.Server.Auth.Login.{
  check_rate, find_user, is_locked, record_success, authenticate,
}
use silentguard_xdr.Server.Auth.Login.Lockout.{authenticate_iff, locked_out_until}
use silentguard_xdr.Prelude.{◌≤◌, ◌≡◌, refl, ◌≢◌, ◌↔◌, true, false, some, [], ◌∷◌, arith}
use silentguard_xdr.Prelude.Table.{count}

admitted_window_bound_example : count (in_window 10 12) (admitted 2 10 (1 ∷ 2 ∷ 3 ∷ 12 ∷ []) []) ≤ 2
admitted_window_bound_example =
    admitted_window_bound 2 10 12 (1 ∷ 2 ∷ 3 ∷ 12 ∷ [])
      (omega arith, (omega arith, (omega arith, (omega arith, tt))))

authenticate_iff_example :
    (authenticate toy_pbkdf2 default_settings 7 ann.email right_password [] (world_of ann)).0
      ≡ ok (record_success 7 ann)
    ↔ (((check_rate default_settings 7 ann.email (world_of ann)).0 ≡ false)
        × (((user : User) × (find_user ann.email (ann ∷ []) ≡ some user)
            × (user.is_active ≡ true)
            × (is_locked 7 user ≡ false)
            × (verify_password toy_pbkdf2 right_password user.hashed_password ≡ true)
            × (record_success 7 ann ≡ record_success 7 user))))
authenticate_iff_example =
    authenticate_iff toy_pbkdf2 default_settings 7 ann.email right_password [] (world_of ann)
      (record_success 7 ann)

locked_out_until_example :
    (authenticate toy_pbkdf2 default_settings 900 ann.email right_password []
      (authenticate toy_pbkdf2 default_settings 7 ann.email wrong_password []
        (world_of tired_ann)).1).0
    ≢ ok ann
unfolding check_rate find_user is_locked verify_password
    silentguard_xdr.Server.Auth.RateLimit.rate_limited_deque
    silentguard_xdr.Server.Auth.RateLimit.expire silentguard_xdr.Server.Auth.RateLimit.deque_of
    silentguard_xdr.Prelude.Text.lower silentguard_xdr.Prelude.Text.strip
    silentguard_xdr.Prelude.Text.split_on hash_password
    silentguard_xdr.Server.Auth.Password.parse_int is_hex_text
locked_out_until_example =
    locked_out_until toy_pbkdf2 default_settings 7 900 ann.email wrong_password [] right_password []
      (world_of tired_ann) tired_ann refl refl refl refl refl (omega arith) (omega arith) ann
