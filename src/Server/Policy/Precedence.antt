-- ===== src/Server/Policy/Precedence.antt =====
-- Which of the three sources decides a setting.
use text.Mathlib.TextEquality.{eq_iff}
use silentguard_xdr.Server.Models.{Json, Fields, Db, Device, get, put, end, field}
use silentguard_xdr.Server.Objects.{Distinct, get-put}
use silentguard_xdr.Server.Policy.{
  default_policy, is_null, apply_settings, policy_for, settings_of, group_settings,
  resolve_effective_policy,
}
use silentguard_xdr.Prelude.{
  String, ◌≡◌, refl, ◌∙◌, inl, inr, Option, none, some, arith, if◌then◌else◌, Bool-cases,
}

-- the setting of a source, if it has one that is not null
abbrev pub chosen : Option Json → Option Json
chosen none = none
chosen (some v) = if is_null v then none else some v

abbrev pub or_else : Option Json → Option Json → Option Json
or_else none b = b
or_else (some a) b = some a

get-apply_settings :
    (k : String) (base settings : Fields)
    → Distinct settings
    → get k (apply_settings base settings) ≡ or_else (chosen (get k settings)) (get k base)
unfolding apply_settings get
get-apply_settings k base end h = refl
get-apply_settings k base (field j v rest) (fresh, h) =
    get-apply_settings k (if is_null v then base else put j v base) rest h
    ∙ elim (Bool-cases (is_null v)) [
      | inl null ↦ ground (arith, eq_iff j k)
      | inr kept ↦ ground (arith, eq_iff j k, get-put k j v base)
    ]

-- Every setting of a device is that of the policy of its group if this has one that is not null, else
-- that of the policy of its organization, else the built-in default.
pub policy_precedence :
    (db : Db) (d : Device) (k : String)
    → Distinct (group_settings d.org_id d.group_id db)
    → Distinct (settings_of (policy_for d.org_id none db))
    → get k (resolve_effective_policy db d)
      ≡ or_else (chosen (get k (group_settings d.org_id d.group_id db))) (
          or_else
            (chosen (get k (settings_of (policy_for d.org_id none db))))
            (get k default_policy))
unfolding resolve_effective_policy
policy_precedence db d k hg ho =
    let own = settings_of (policy_for d.org_id none db) in
    rw (
      get-apply_settings k (apply_settings default_policy own)
          (group_settings d.org_id d.group_id db) hg,
      get-apply_settings k default_policy own ho,
    )
