-- ===== src/Server/Policy.antt =====
-- The effective policy of a device: server/app/services/policy.py.
pub mod Precedence
use silentguard_xdr.Server.Models.{
  Json, Items, Fields, Db, Device, Policy, get, put, end, field, nil, item,
}
use silentguard_xdr.Prelude.{
  ℕ, String, Bool, true, false, ◌&&◌, Option, none, some, List, [], ◌∷◌, leb, if◌then◌else◌, ◌==◌,
  nat_eq, string_eq, option_eq, list_eq,
}
use silentguard_xdr.Prelude.Table.{select}

abbrev num_list : List ℕ → Items
num_list [] = nil
num_list (n ∷ ns) = item (Json.num n) (num_list ns)

abbrev str_list : List String → Items
str_list [] = nil
str_list (s ∷ ss) = item (Json.str s) (str_list ss)

-- `DEFAULT_POLICY`
abbrev pub default_policy : Fields
default_policy =
    field "suspicious_ports" (Json.arr (num_list (4444 ∷ 5555 ∷ 6666 ∷ 1337 ∷ 31337 ∷ []))) (
      field "blocked_processes"
        (Json.arr (str_list ("mimikatz.exe" ∷ "nc.exe" ∷ "ncat.exe" ∷ "meterpreter" ∷ [])))
        (field "blocked_domains" (Json.arr nil) (
          field "block_usb_storage" (Json.bool false) (
            field "file_drop_dirs" (Json.arr nil)
              (field "detection_auto_isolate" (Json.bool false) end)))))

abbrev pub is_null : Json → Bool
is_null Json.null = true
is_null _ = false

-- `_apply`: the settings that are not null replace those of the base
unfoldable pub apply_settings : Fields → Fields → Fields
apply_settings base end = base
apply_settings base (field k v rest) =
    apply_settings (if is_null v then base else put k v base) rest

-- `.order_by(Policy.id).first()`: the row with the lowest key
unfoldable pub lowest : List Policy → Option Policy
lowest [] = none
lowest (p ∷ ps) = elim (lowest ps) [
  | none ↦ some p
  | some q ↦ some (if leb p.id q.id then p else q)
]

-- the query for the policy of an organization, or of one of its groups
unfoldable pub policy_for : Option String → Option ℕ → Db → Option Policy
unfolding lowest
policy_for org_id group_id db =
    lowest (select (λ p. p.org_id == org_id && p.group_id == group_id && p.enabled) db.policies)

abbrev pub settings_of : Option Policy → Fields
settings_of none = end
settings_of (some p) = p.settings

abbrev pub group_settings : Option String → Option ℕ → Db → Fields
group_settings org_id none db = end
group_settings org_id (some g) db = settings_of (policy_for org_id (some g) db)

-- `resolve_effective_policy`
unfoldable pub resolve_effective_policy : Db → Device → Fields
unfolding apply_settings policy_for
resolve_effective_policy db device =
    apply_settings (apply_settings default_policy (settings_of (policy_for device.org_id none db)))
      (group_settings device.org_id device.group_id db)
