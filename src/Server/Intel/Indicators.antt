-- ===== src/Server/Intel/Indicators.antt =====
-- The indicators of an event: `extract_indicators` of server/app/services/threat_intel.py.
use silentguard_xdr.Server.Models.{Json, Fields, get, truthy}
use silentguard_xdr.Prelude.{String, none, some, List, [], ◌∷◌, ◌++◌, if◌then◌else◌}
use silentguard_xdr.Prelude.Text.{Text}

-- `shown` is `str`, and `find_urls` is `_URL_RE.findall`.
module _ (shown : Json → Text) (find_urls : Text → List Text) where
  -- the indicator of one key of the details
  abbrev pub of_key : Fields → String → String → List (String × Text)
  of_key d key ioc_type = elim (get key d) [
    | none ↦ []
    | some v ↦ if truthy v then (ioc_type, shown v) ∷ [] else []
  ]

  abbrev pub as_urls : List Text → List (String × Text)
  as_urls [] = []
  as_urls (u ∷ us) = ("url", u) ∷ as_urls us

  -- the URLs in the text of one key
  abbrev pub mined : Fields → String → List (String × Text)
  mined d key = elim (get key d) [
    | none ↦ []
    | some v ↦ if truthy v then as_urls (find_urls (shown v)) else []
  ]

  -- `extract_indicators`
  unfoldable pub extract_indicators : Fields → List (String × Text)
  extract_indicators d =
      of_key d "domain" "domain"
      ++ of_key d "url" "url"
      ++ of_key d "sha256" "sha256"
      ++ of_key d "hash" "sha256"
      ++ of_key d "ip" "ip"
      ++ of_key d "remote_ip" "ip"
      ++ of_key d "dest_ip" "ip"
      ++ of_key d "gateway" "ip"
      ++ mined d "command_line"
      ++ mined d "cmdline"
      ++ mined d "process"
