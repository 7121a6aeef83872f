-- ===== src/Agent/Update.antt =====
-- Signed agent updates: agent/silentguard_agent/update_verifier.py, `remote_update` of
-- agent/silentguard_agent/response_handlers.py, and the update floor of agent/silentguard_agent/config.py.
-- The fields of a command are texts. JSON, the cryptography package and HMAC are parameters.
pub mod Versions
pub mod Trust
use silentguard_xdr.Server.NetMatch.{starts_with}
use silentguard_xdr.Prelude.{
  ℕ, zero, suc, ◌+◌, ◌-◌, ◌*◌, String, Bool, true, false, not, ◌&&◌, ◌||◌, Option, none, some, List,
  [], ◌∷◌, map, ltb, leb, if◌then◌else◌, ◌==◌, nat_eq, string_eq, option_eq, list_eq, length, drop,
  any,
}
use silentguard_xdr.Prelude.Text.{Text, codes, is_digit, lower, strip, split_on}

unfoldable pub digits : Text → ℕ → ℕ
digits [] n = n
digits (c ∷ s) n = let rest = digits s (n * 10 + (c - b'0')) in if is_digit c then rest else n

-- `parse_version`: the leading digits of each piece; `split` returns at least one
unfoldable pub parse_version : Text → List ℕ
unfolding digits
parse_version value = map (λ chunk. digits chunk 0) (split_on b'.' value)

abbrev pub pad : ℕ → List ℕ → List ℕ
pad zero xs = xs
pad (suc n) [] = 0 ∷ pad n []
pad (suc n) (x ∷ xs) = x ∷ pad n xs

abbrev pub longer : List ℕ → List ℕ → ℕ
longer a b = if leb (length a) (length b) then length b else length a

-- `a < b` on tuples
abbrev pub lt : List ℕ → List ℕ → Bool
lt [] [] = false
lt [] (y ∷ ys) = true
lt (x ∷ xs) [] = false
lt (x ∷ xs) (y ∷ ys) =
    let rest = lt xs ys in if ltb x y then true else if ltb y x then false else rest

-- `_padded` and the comparison
unfoldable pub padded_lt : List ℕ → List ℕ → Bool
padded_lt a b = lt (pad (longer a b) a) (pad (longer a b) b)

unfoldable pub is_numeric_version : Text → Bool
is_numeric_version value = any is_digit value

unfoldable pub version_gt : Text → Text → Bool
unfolding padded_lt parse_version
version_gt target floor = padded_lt (parse_version floor) (parse_version target)

unfoldable pub is_rollback : Text → Text → Bool
unfolding padded_lt parse_version
is_rollback target floor = padded_lt (parse_version target) (parse_version floor)

-- the fields that a command may carry; one that is absent is empty, as `cmd.get(k, "")` has it
pub record UpdateCommand : Type 0 where
  pub version : Option Text
  pub url : Text
  pub sha256 : Text
  pub signature : Text
  pub allow_rollback : Text

pub record TrustKeys : Type 0 where
  pub update_public_key : Text
  pub update_hmac_key : Text

-- what the cryptography package answers: it is not installed, or it accepts, refuses or cannot read
pub data Verdict : Type 0 where
  not_installed : Verdict
  valid : Verdict
  invalid : Verdict
  malformed : Verdict

-- the event that the handler emits and the result that it reports
pub record Outcome : Type 0 where
  pub event : String
  pub severity : String
  pub status : String
  pub error : String
  pub version : Text
  pub verified : Bool

abbrev is_empty : Text → Bool
is_empty s = s == []

-- `cmd.get("version", "latest")`
abbrev pub target_of : UpdateCommand → Text
target_of cmd = elim cmd.version [ none ↦ codes "latest" | some v ↦ v ]

abbrev pub is_manifest : UpdateCommand → Bool
is_manifest cmd =
    not (is_empty cmd.url) || not (is_empty cmd.sha256) || not (is_empty cmd.signature)

unfoldable pub allows_rollback : UpdateCommand → Bool
allows_rollback cmd =
    let flag = lower cmd.allow_rollback in
    flag == codes "1" || flag == codes "true" || flag == codes "yes"

-- `provided[7:]` behind `sha256=`
abbrev pub bare_signature : Text → Text
bare_signature signature =
    let provided = lower (strip signature) in
    if starts_with (codes "sha256=") provided then drop 7 provided else provided

-- the floor after a target is accepted
abbrev pub raised_floor : Text → Text → Text
raised_floor target floor =
    if is_numeric_version target && (is_empty floor || version_gt target floor)
    then target
    else floor

-- a target that the floor blocks
abbrev pub is_blocked : UpdateCommand → Text → Bool
is_blocked cmd floor =
    is_numeric_version (target_of cmd)
    && not (is_empty floor)
    && is_rollback (target_of cmd) floor
    && not (allows_rollback cmd)

module _ (dumps : List (String × Text) → Text) (ed25519 : Text → Text → Text → Verdict)
    (hmac_sha256 : Text → Text → Text) where
  -- `canonical_manifest`, the keys in order
  unfoldable pub canonical_manifest : UpdateCommand → Text
  canonical_manifest cmd = dumps (
      ("allow_rollback", cmd.allow_rollback)
      ∷ ("sha256", cmd.sha256)
      ∷ ("url", cmd.url)
      ∷ ("version", elim cmd.version [ none ↦ [] | some v ↦ v ])
      ∷ [])

  unfoldable pub verify_ed25519 : Text → Text → Text → Bool × String
  verify_ed25519 public_key signature message = elim (ed25519 public_key signature message) [
    | not_installed ↦ (false, "cryptography package not installed for ed25519 verification")
    | valid ↦ (true, "ed25519 signature ok")
    | invalid ↦ (false, "invalid ed25519 signature")
    | malformed ↦ (false, "ed25519 verification error")
  ]

  unfoldable pub verify_hmac : Text → Text → Text → Bool × String
  verify_hmac secret signature message =
      if hmac_sha256 secret message == bare_signature signature
      then (true, "hmac signature ok")
      else (false, "invalid hmac signature")

  unfoldable pub verify_update : UpdateCommand → TrustKeys → Bool × String
  unfolding canonical_manifest verify_ed25519 verify_hmac
  verify_update cmd config =
      let message = canonical_manifest cmd in
      if is_empty cmd.signature
      then (false, "missing signature")
      else if not (is_empty config.update_public_key)
      then verify_ed25519 config.update_public_key cmd.signature message
      else if not (is_empty config.update_hmac_key)
      then verify_hmac config.update_hmac_key cmd.signature message
      else (false, "no update trust key configured")

  abbrev pub rejected : String → Text → Outcome
  rejected reason target = record {
    event = "update_rejected";
    severity = "warning";
    status = "failed";
    error = reason;
    version = target;
    verified = false;
  }

  abbrev pub acknowledged : String → Text → Bool → Outcome
  acknowledged event target verified = record {
    event = event;
    severity = "info";
    status = "ok";
    error = "";
    version = target;
    verified = verified;
  }

  -- `remote_update` of a manifest, on the floor that `get_update_floor` reads and `set_update_floor` writes
  unfoldable pub signed_update : TrustKeys → UpdateCommand → Text → Outcome × Text
  unfolding verify_update
  signed_update config cmd floor =
      let target = target_of cmd in
      let (ok, reason) = verify_update cmd config in
      if not ok
      then (rejected reason target, floor)
      else if is_blocked cmd floor
      then (rejected "rollback_blocked" target, floor)
      else (acknowledged "update_verified" target true, raised_floor target floor)

  -- `remote_update`, of a command whose signature `verify_update` reads
  unfoldable pub remote_update : TrustKeys → UpdateCommand → Text → Outcome × Text
  unfolding signed_update
  remote_update config cmd floor =
      if is_manifest cmd
      then signed_update config cmd floor
      else (acknowledged "update_requested" (target_of cmd) false, floor)

  -- the floor after several commands
  unfoldable pub floor_after : TrustKeys → List UpdateCommand → Text → Text
  unfolding remote_update
  floor_after config [] floor = floor
  floor_after config (cmd ∷ cmds) floor = floor_after config cmds (remote_update config cmd floor).1
