-- ===== src/Server/Intel.antt =====
-- The store of indicators: server/app/services/threat_intel.py. `none` is a ValueError, raised on an
-- unknown type or by the parse of an address.
pub mod Matching
pub mod Indicators
use silentguard_xdr.Server.Models.{Db, Ioc}
use silentguard_xdr.Server.NetMatch.{extract_host, parent_domains}
use silentguard_xdr.Prelude.{
  ℕ, ◌+◌, String, Bool, true, false, not, ◌&&◌, ◌||◌, Option, none, some, [], ◌∷◌, ◌++◌, ltb,
  if◌then◌else◌, ◌==◌, nat_eq, string_eq, option_eq, list_eq, any,
}
use silentguard_xdr.Prelude.Table.{find, count, update, delete}
use silentguard_xdr.Prelude.Text.{Text, lower, strip}

-- `ioc_type in IOC_TYPES`
unfoldable pub is_ioc_type : String → Bool
is_ioc_type t = t == "domain" || t == "ip" || t == "url" || t == "sha256" || t == "certificate"

-- `normalize`
unfoldable pub normalize : String → Text → Option Text
normalize ioc_type value =
    let v = strip value in
    if ioc_type == "domain"
    then elim (extract_host v) [ none ↦ none | some h ↦ some (if h == [] then lower v else h) ]
    else if ioc_type == "url" || ioc_type == "sha256" || ioc_type == "certificate"
    then some (lower v)
    else some v

-- the key that the table keeps unique
abbrev pub same_key : Option String → String → Text → Ioc → Bool
same_key org_id ioc_type value i = i.org_id == org_id && i.ioc_type == ioc_type && i.value == value

abbrev is_some {ℓ} : {A : Type ℓ} → Option A → Bool
is_some none = false
is_some (some a) = true

module _ (now : ℕ) (org_id : Option String) (confidence : ℕ) (source description : String)
    (expires_at : Option ℕ) where
  abbrev pub refreshed : Ioc → Ioc
  refreshed i = record i {
    confidence = confidence;
    source = source;
    description = description;
    expires_at = expires_at;
  }

  abbrev pub new_ioc : ℕ → String → Text → Ioc
  new_ioc id ioc_type value = record {
    id = id;
    org_id = org_id;
    ioc_type = ioc_type;
    value = value;
    confidence = confidence;
    source = source;
    description = description;
    expires_at = expires_at;
    created_at = now;
  }

  -- the query and the write of `upsert_ioc`, on a normalized value
  unfoldable pub write_ioc : String → Text → Db → Db
  write_ioc ioc_type value db =
      if is_some (find (same_key org_id ioc_type value) db.iocs)
      then record db { iocs = update (same_key org_id ioc_type value) refreshed db.iocs }
      else record db {
        iocs = db.iocs ++ new_ioc db.next_id ioc_type value ∷ [];
        next_id = db.next_id + 1;
      }

  -- `upsert_ioc`
  unfoldable pub upsert_ioc : String → Text → Db → Option Db
  upsert_ioc ioc_type value db =
      if is_ioc_type ioc_type
      then elim (normalize ioc_type value) [ none ↦ none | some v ↦ some (write_ioc ioc_type v db) ]
      else none

-- the filter of `_active`
unfoldable pub is_active : ℕ → Ioc → Bool
is_active now i = elim i.expires_at [ none ↦ true | some t ↦ ltb now t ]

-- `lookup`
unfoldable pub lookup : ℕ → Option String → String → Text → Db → Option (Option Ioc)
lookup now org_id ioc_type value db =
    if ioc_type == "domain" || ioc_type == "url"
    then elim (parent_domains value) [
      | none ↦ none
      | some candidates ↦ some (
          find
            (λ i.
              i.org_id == org_id
              && i.ioc_type == "domain"
              && any (λ c. c == i.value) candidates
              && is_active now i)
            db.iocs)
    ]
    else elim (normalize ioc_type value) [
      | none ↦ none
      | some v ↦ some (find (λ i. same_key org_id ioc_type v i && is_active now i) db.iocs)
    ]

-- `prune_expired`
unfoldable pub prune_expired : ℕ → Db → ℕ × Db
prune_expired now db = (
  count (λ i. not (is_active now i)) db.iocs,
  record db { iocs = delete (λ i. not (is_active now i)) db.iocs },
)
