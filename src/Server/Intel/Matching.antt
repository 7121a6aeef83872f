-- ===== src/Server/Intel/Matching.antt =====
-- What a lookup finds.
use text.Mathlib.TextEquality.{eq_iff}
use silentguard_xdr.Server.Models.{Db, Ioc}
use silentguard_xdr.Server.NetMatch.{extract_host, parent_domains, suffixes, falls_under}
use silentguard_xdr.Server.NetMatch.Suffixes.{any-suffixes}
use silentguard_xdr.Server.Intel.{lookup, is_active, prune_expired, normalize, same_key}
use silentguard_xdr.Prelude.{
  ℕ, String, ◌≡◌, sym, ap, ◌∙◌, ◌≢◌, inl, inr, true, not, ◌&&◌, ◌||◌, Option, some, [], arith, ◌==◌,
  nat_eq, string_eq, option_eq, list_eq, option_eqb_iff, Bool-cases, Option-cases, any,
}
use silentguard_xdr.Prelude.Table.{find, find_test, find-delete}
use silentguard_xdr.Prelude.Text.{Text}

-- For a domain or a URL, a lookup finds only an indicator of the organization that has not expired,
-- of type domain, under which the host of the value falls.
pub lookup_sound :
    (now : ℕ) (org_id : Option String) (value h : Text) (db : Db) (i : Ioc)
    → extract_host value ≡ some h
    → i.value ≢ []
    → lookup now org_id "url" value db ≡ some (some i)
    → (i.org_id ≡ org_id)
      × (i.ioc_type ≡ "domain")
      × (is_active now i ≡ true)
      × (falls_under h i.value ≡ true)
unfolding lookup parent_domains
lookup_sound now org_id value h db i parsed full e =
    let p = λ (j : Ioc).
      j.org_id == org_id
      && j.ioc_type == "domain"
      && any (λ c. c == j.value) (suffixes h)
      && is_active now j in
    let found : find p db.iocs ≡ some i = ground arith in
    let t : p i ≡ true = find_test p db.iocs found in
    (
      ground (arith, option_eqb_iff i.org_id org_id),
      ground (arith, eq_iff i.ioc_type "domain"),
      ground arith,
      sym (any-suffixes i.value h full) ∙ ground arith,
    )

-- Pruning takes out exactly the expired indicators, so no lookup changes by it.
pub lookup-prune :
    (now : ℕ) (org_id : Option String) (ioc_type : String) (value : Text) (db : Db)
    → lookup now org_id ioc_type value (prune_expired now db).1
      ≡ lookup now org_id ioc_type value db
unfolding lookup prune_expired
lookup-prune now org_id ioc_type value db =
    elim (Bool-cases (ioc_type == "domain" || ioc_type == "url")) [
      | inl host ↦ elim (Option-cases (parent_domains value)) [
        | inl bad ↦ rw (host, bad)
        | inr (candidates, e) ↦
            rw (host, e)
              (ap some (
                find-delete
                  (λ i.
                    i.org_id == org_id
                    && i.ioc_type == "domain"
                    && any (λ c. c == i.value) candidates
                    && is_active now i)
                  (λ i. not (is_active now i)) db.iocs (λ i h. ground arith)))
      ]
      | inr other ↦ elim (Option-cases (normalize ioc_type value)) [
        | inl bad ↦ rw (other, bad)
        | inr (v, e) ↦
            rw (other, e)
              (ap some (
                find-delete (λ i. same_key org_id ioc_type v i && is_active now i)
                  (λ i. not (is_active now i)) db.iocs (λ i h. ground arith)))
      ]
    ]
