-- ===== src/Agent/State.antt =====
-- The state file of the agent: agent/silentguard_agent/tamper.py, the state functions of config.py, and
-- `ensure_enrolled` of telemetry.py. `dumps` is the JSON printer, which sorts the keys, and `hmac_sha256` the
-- hexadecimal digest. A file that cannot be read is the empty state.
pub mod Integrity
use silentguard_xdr.Server.Models.{Json, str, text, Fields, end, field, get, put, truthy}
use silentguard_xdr.Server.Fleet.Telemetry.{as_string, truthy_at, string_at}
use silentguard_xdr.Prelude.{
  String, Bool, true, false, ◌&&◌, none, some, [], if◌then◌else◌, ◌==◌, nat_eq, string_eq,
  option_eq, list_eq,
}
use silentguard_xdr.Prelude.Text.{Text, codes}

-- the fields but one
unfoldable pub without : String → Fields → Fields
without k end = end
without k (field j v d) = let rest = without k d in if j == k then rest else field j v rest

-- a text of a JSON value, as `str` writes it for a text
abbrev pub text_of : Json → Text
text_of (text t) = t
text_of (str s) = codes s
text_of v = []

-- `has_credentials`
unfoldable pub has_credentials : Fields → Bool
has_credentials state = truthy_at "device_id" state && truthy_at "api_key" state

-- `get_update_floor`
unfoldable pub get_update_floor : Fields → Text
get_update_floor state = elim (get "update_floor" state) [ none ↦ [] | some v ↦ text_of v ]

-- What the agent runs as, and its state file
pub record Identity : Type 0 where
  pub device_id : Json
  pub api_key : Json

-- the outcome of `ensure_enrolled`: whether it reported a tampered file
pub record Enrolled : Type 0 where
  pub identity : Identity
  pub state : Fields
  pub tampered : Bool

module _ (dumps : Fields → Text) (hmac_sha256 : Text → Text → Text) where
  -- `compute_mac` and `_payload_bytes`
  unfoldable pub compute_mac : Fields → Text → Text
  compute_mac state key = hmac_sha256 key (dumps (without "_integrity" state))

  -- `sign`
  unfoldable pub sign : Fields → Text → Fields
  sign state key =
      let signed = without "_integrity" state in
      put "_integrity" (text (compute_mac signed key)) signed

  -- `is_authentic`
  unfoldable pub is_authentic : Fields → Text → Bool
  is_authentic state key = elim (get "_integrity" state) [
    | none ↦ false
    | some provided ↦ truthy provided && text_of provided == compute_mac state key
  ]

  -- `set_update_floor`, on the state that `load_state` reads
  unfoldable pub set_update_floor : Text → Text → Fields → Fields
  set_update_floor key version state = sign (put "update_floor" (text version) state) key

  abbrev pub value_at : String → Fields → Json
  value_at k d = elim (get k d) [ none ↦ Json.null | some v ↦ v ]

  abbrev pub fresh_state : Identity → Fields
  fresh_state i = field "device_id" i.device_id (field "api_key" i.api_key end)

  -- `ensure_enrolled`; `answer` is what the server gives a new device
  unfoldable pub ensure_enrolled : Text → Identity → Fields → Enrolled
  ensure_enrolled key answer state =
      if has_credentials state
      then (if is_authentic state key
          then record {
            identity = record {
              device_id = value_at "device_id" state;
              api_key = value_at "api_key" state;
            };
            state = state;
            tampered = false;
          }
          else record { identity = answer; state = sign (fresh_state answer) key; tampered = true })
      else record { identity = answer; state = sign (fresh_state answer) key; tampered = false }
