-- ===== src/Server/Plans/Limits.antt =====
-- What the caps of a plan promise.
use text.Mathlib.TextEquality.{eq_iff}
use silentguard_xdr.Server.Models.{Db, Organization}
use silentguard_xdr.Server.Plans.{get_plan, get_org, entitlements_for, within_limit}
use silentguard_xdr.Prelude.{
  ℕ, ◌+◌, ◌≤◌, String, ◌≡◌, ◌≢◌, true, Option, some, arith, if◌then◌else◌, ◌==◌, nat_eq, string_eq,
  option_eq, list_eq,
}

-- Adding a row where `within_limit` allows it keeps the count at or below a cap that is set.
pub within_limit-le : (limit n : ℕ) → within_limit limit n ≡ true → limit ≢ 0 → n + 1 ≤ limit
unfolding within_limit
within_limit-le limit n h c = ground arith

-- An organization that is not found has every feature and no cap; one that is found has its own
-- device cap if it sets one, and otherwise its plan's.
pub device_cap :
    (db : Db) (org_id : Option String) (org : Organization)
    → get_org org_id db ≡ some org
    → org.plan ≢ ""
    → (entitlements_for db org_id).max_devices
      ≡ (if org.max_devices == 0 then (get_plan org.plan).max_devices else org.max_devices)
unfolding entitlements_for
device_cap db org_id org found named =
    rw (found, entitlements_for) (ground (arith, eq_iff org.plan ""))
