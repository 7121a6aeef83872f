-- ===== src/Server/Console.antt =====
-- The endpoints of the console that change the fleet: the blocklist and the quarantine of
-- server/app/routers/admin.py, and the policies of server/app/routers/policies.py, behind the check of the
-- caller's permission.
pub mod Organizations
use silentguard_xdr.Server.Exec.{or_raise, raise_if, modify, gets, ◌>>=◌, ◌>>◌}
use silentguard_xdr.Server.Users.{record_change}
use silentguard_xdr.Server.Response.{push_command, save_device}
use silentguard_xdr.Server.Fleet.{add_event}
use silentguard_xdr.Server.Access.{in_scope, owning_org, Principal}
use silentguard_xdr.Server.Exec.{ok, lit, err, http, Exec, HttpError}
use silentguard_xdr.Server.NetMatch.{extract_host}
use silentguard_xdr.Server.Models.{
  Json, Fields, Db, Device, QuarantineItem, BlocklistEntry, Policy, DeviceGroup, end, field,
}
use silentguard_xdr.Prelude.{
  ℕ, ◌+◌, String, Bool, true, false, not, ◌&&◌, ◌||◌, Option, none, some, [], ◌∷◌, ◌++◌,
  if◌then◌else◌, ◌==◌, nat_eq, string_eq, option_eq, list_eq, any,
}
use silentguard_xdr.Prelude.Table.{find, update, delete}
use silentguard_xdr.Prelude.Text.{Text, lower, strip}

abbrev is_listed_kind : String → Bool
is_listed_kind kind = kind == "domain" || kind == "process" || kind == "port"

-- `extract_host(value) or value.lower()`; none is its ValueError
unfoldable pub listed_value : String → Text → Option Text
listed_value kind value =
    let v = strip value in
    if kind == "domain"
    then elim (extract_host v) [ none ↦ none | some h ↦ some (if h == [] then lower v else h) ]
    else some v

abbrev pub internal_error : HttpError
internal_error = http 500 "Internal server error"

module _ (now : ℕ) where
  abbrev pub listed_row : ℕ → String → String → Text → BlocklistEntry
  listed_row id org_id kind value = record {
    id = id;
    org_id = some org_id;
    kind = kind;
    value = value;
    added_at = now;
  }

  abbrev pub list_value : String → String → Text → Db → Db
  list_value org_id kind value db = record db {
    blocklist = db.blocklist ++ listed_row db.next_id org_id kind value ∷ [];
    next_id = db.next_id + 1;
  }

  -- `add_blocklist`
  unfoldable pub add_blocklist : String → Text → Principal → Exec Db (Unit {0})
  unfolding listed_value
  add_blocklist kind presented principal = do
    let org_id = owning_org principal
    raise_if (not (is_listed_kind kind)) (http 400 "kind must be domain, process or port")
    value ← or_raise (listed_value kind presented) internal_error
    raise_if (kind == "domain" && value == []) (http 400 "invalid domain")
    taken ← gets (λ db. any (λ e. e.value == value && e.org_id == some org_id) db.blocklist)
    raise_if taken (http 409 "Entry already exists")
    modify (list_value org_id kind value)
    modify (
        record_change now principal.actor "blocklist_add" (Json.text value)
          (field "kind" (Json.str kind) end) (some org_id))

  -- `delete_blocklist`
  unfoldable pub delete_blocklist : ℕ → Principal → Exec Db (Unit {0})
  delete_blocklist entry_id principal db = elim (find (λ e. e.id == entry_id) db.blocklist) [
    | none ↦ (err (http 404 "Entry not found"), db)
    | some e ↦
        if in_scope principal e.org_id
        then (do
          modify (λ s. record s { blocklist = delete (λ x. x.id == entry_id) s.blocklist })
          modify (
              record_change now principal.actor "blocklist_remove" (Json.text e.value)
                (field "kind" (Json.str e.kind) (field "entry_id" (Json.num entry_id) end))
                e.org_id))
            db
        else (err (http 404 "Entry not found"), db)
  ]

  abbrev pub restore_command : QuarantineItem → Fields
  restore_command item =
      field "command" (Json.str "restore_quarantine") (field "id" (Json.str item.id) end)

  -- what `restore_quarantine` does with an item of a device
  unfoldable pub request_restore : QuarantineItem → Device → String → Db → Db
  unfolding add_event
  request_restore item device actor db =
      let queued = save_device device.id (push_command (restore_command item)) db in
      let marked : Db = record queued {
        quarantine =
            update (λ i. i.id == item.id) (λ i. record i { status = "restore_requested" })
              queued.quarantine;
      } in
      let told =
        add_event now device "quarantine" "info" "restore_requested"
          (lit "Admin requested restore of "
            ∷ lit item.original_path
            ∷ lit " on "
            ∷ lit device.hostname
            ∷ [])
          (field "id" (Json.str item.id) (field "sha256" (Json.str item.sha256) end)) marked in
      record_change now actor "quarantine_restore" (Json.str item.id)
        (field "device_id" (Json.str device.id) (
          field "original_path" (Json.str item.original_path)
            (field "sha256" (Json.str item.sha256) end)))
        item.org_id told

  -- `restore_quarantine`
  unfoldable pub restore_item : String → Principal → Exec Db (Unit {0})
  unfolding request_restore
  restore_item item_id principal db = elim (find (λ i. i.id == item_id) db.quarantine) [
    | none ↦ (err (http 404 "Quarantine item not found"), db)
    | some item ↦
        if not (in_scope principal item.org_id)
        then (err (http 404 "Quarantine item not found"), db)
        else if item.status == "restored"
        then (err (http 409 "Item already restored"), db)
        else elim (find (λ d. d.id == item.device_id) db.devices) [
          | none ↦ (err (http 404 "Device not found"), db)
          | some device ↦ (ok tt, request_restore item device principal.actor db)
        ]
  ]

  abbrev pub is_group_of : Option ℕ → String → Db → Bool
  is_group_of none org_id db = true
  is_group_of (some id) org_id db = elim (find (λ g. g.id == id) db.groups) [
    | none ↦ false
    | some g ↦ g.org_id == some org_id
  ]

  abbrev pub group_id_json : Option ℕ → Json
  group_id_json none = Json.null
  group_id_json (some id) = Json.num id

  abbrev pub policy_row : ℕ → String → Option ℕ → String → Fields → Bool → Policy
  policy_row id org_id group_id name settings enabled = record {
    id = id;
    org_id = some org_id;
    group_id = group_id;
    name = name;
    settings = settings;
    enabled = enabled;
    created_at = now;
  }

  -- `create_policy`
  unfoldable pub create_policy : String → Option ℕ → Fields → Bool → Principal → Exec Db (Unit {0})
  create_policy name group_id settings enabled principal = do
    let org_id = owning_org principal
    known ← gets (is_group_of group_id org_id)
    raise_if (not known) (http 400 "Group not in your organization")
    modify (λ db. record db {
      policies = db.policies ++ policy_row db.next_id org_id group_id name settings enabled ∷ [];
      next_id = db.next_id + 1;
    })
    modify (
        record_change now principal.actor "policy_create" (Json.str name)
          (field "group_id" (group_id_json group_id) end) (some org_id))

  -- `delete_policy`
  unfoldable pub delete_policy : ℕ → Principal → Exec Db (Unit {0})
  delete_policy policy_id principal db = elim (find (λ p. p.id == policy_id) db.policies) [
    | none ↦ (err (http 404 "Policy not found"), db)
    | some p ↦
        if in_scope principal p.org_id
        then (ok tt, record db { policies = delete (λ q. q.id == policy_id) db.policies })
        else (err (http 404 "Policy not found"), db)
  ]
