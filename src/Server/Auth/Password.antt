-- ===== src/Server/Auth/Password.antt =====
-- The password policy and the stored form of a password: `validate_password` of
-- server/app/services/auth_service.py, and `hash_password` and `verify_password` of
-- server/app/core/security.py. `pbkdf2` is `hashlib.pbkdf2_hmac("sha256", password, salt, rounds).hex()`.
-- A salt with blanks and a round count that is not plain digits are taken as malformed.
pub mod Laws
use silentguard_xdr.Server.Exec.{HttpError, lit, nat, http}
use silentguard_xdr.Server.Auth.Settings.{Settings}
use silentguard_xdr.Prelude.{
  ℕ, ◌+◌, ◌-◌, ◌*◌, ◌%◌, Bool, false, ◌&&◌, ◌||◌, Option, none, some, List, [], ◌∷◌, ◌++◌, ltb, leb,
  if◌then◌else◌, ◌==◌, nat_eq, string_eq, option_eq, list_eq, length, all,
}
use silentguard_xdr.Prelude.Text.{Text, codes, is_digit, lower, upper, is_alpha_text, split_on}

-- `_PBKDF2_ALGO`, `_PBKDF2_ROUNDS`, and its digits
abbrev pub algo : Text
algo = codes "pbkdf2_sha256"

abbrev pub rounds : ℕ
rounds = 210000

abbrev pub rounds_text : Text
rounds_text = codes "210000"

-- `validate_password`: none, or what it raises
unfoldable pub validate_password : Settings → Text → Option HttpError
validate_password s password =
    if ltb (length password) s.password_min_length
    then some (record {
      status_code = 400;
      detail =
          lit "Password must be at least " ∷ nat s.password_min_length ∷ lit " characters" ∷ [];
    })
    else if lower password == password || upper password == password || is_alpha_text password
    then some (http 400 "Password must mix upper/lower case and include a non-letter")
    else none

-- `int(s)` on plain digits
unfoldable pub digits_from : ℕ → Text → Option ℕ
digits_from n [] = some n
digits_from n (c ∷ s) =
    let rest = digits_from (n * 10 + (c - 48)) s in if is_digit c then rest else none

unfoldable pub parse_int : Text → Option ℕ
unfolding digits_from
parse_int [] = none
parse_int (c ∷ s) = digits_from 0 (c ∷ s)

abbrev is_hex : ℕ → Bool
is_hex c = is_digit c || (leb b'a' c && leb c b'f') || (leb b'A' c && leb c b'F')

-- `bytes.fromhex(s)` succeeds
unfoldable pub is_hex_text : Text → Bool
is_hex_text s = all is_hex s && length s % 2 == 0

module _ (pbkdf2 : Text → Text → ℕ → Text) where
  -- `hash_password`, with the salt that it drew
  unfoldable pub hash_password : Text → Text → Text
  hash_password salt password =
      algo ++ b'$' ∷ (rounds_text ++ b'$' ∷ (salt ++ b'$' ∷ pbkdf2 password salt rounds))

  abbrev verify_parts : Text → List Text → Bool
  verify_parts password (name ∷ rounds_s ∷ salt ∷ expected ∷ []) = elim (parse_int rounds_s) [
    | none ↦ false
    | some n ↦ name == algo && (is_hex_text salt && pbkdf2 password salt n == expected)
  ]
  verify_parts password _ = false

  -- `verify_password`: false on what is malformed
  unfoldable pub verify_password : Text → Text → Bool
  verify_password password encoded = verify_parts password (split_on b'$' encoded)
