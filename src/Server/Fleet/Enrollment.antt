-- ===== src/Server/Fleet/Enrollment.antt =====
-- The device cap at enrollment.
use silentguard_xdr.Server.Models.{Db, default_org_id}
use silentguard_xdr.Server.Exec.{ok}
use silentguard_xdr.Server.Plans.{entitlements_for}
use silentguard_xdr.Server.Fleet.{in_default_org, new_device, enroll}
use text.Mathlib.TextEquality.{eq_iff}
use silentguard_xdr.Prelude.{ℕ, ◌≤◌, ◌<◌, String, ◌≡◌, ◌≢◌, ◌⊎◌, some, [], ◌∷◌, ◌++◌, arith}
use silentguard_xdr.Prelude.Table.{count, count-append}

-- An enrollment that succeeds presented the enrollment token, adds one device at the end of the table
-- and leaves the number of devices of the default organization at or below its cap, if it has one.
pub enroll_within_cap :
    (now : ℕ) (token presented id api_key hostname platform version : String) (db : Db)
    (out : String × String)
    → let (r, db') = enroll now token presented id api_key hostname platform version db in
      let cap = (entitlements_for db (some default_org_id)).max_devices in
      r ≡ ok out
      → (presented ≡ token)
        × (db'.devices ≡ db.devices ++ new_device now id api_key hostname platform version ∷ [])
        × ((cap ≡ 0) ⊎ (count in_default_org db'.devices ≤ cap))
unfolding enroll
enroll_within_cap now token presented id api_key hostname platform version db out h = ground (
  arith,
  count-append in_default_org db.devices (new_device now id api_key hostname platform version ∷ []),
  eq_iff presented token,
)

-- An enrollment that is refused changes nothing.
pub enroll_refused :
    (now : ℕ) (token presented id api_key hostname platform version : String) (db : Db)
    → let cap = (entitlements_for db (some default_org_id)).max_devices in
      (presented ≢ token) ⊎ ((0 < cap) × (cap ≤ count in_default_org db.devices))
      → (enroll now token presented id api_key hostname platform version db).1 ≡ db
unfolding enroll
enroll_refused now token presented id api_key hostname platform version db h =
    ground (arith, eq_iff presented token)
