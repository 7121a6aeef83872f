-- ===== src/Server/Tests/Ingestion.antt =====
-- The theorems on ingestion at samples.
use silentguard_xdr.Server.Tests.{laptop, fleet}
use silentguard_xdr.Server.Models.{
  Json, num, text, Fields, Db, Device, BlocklistEntry, ResponseAction, end, field, default_org_id,
}
use silentguard_xdr.Server.Exec.{Piece, err, lit}
use silentguard_xdr.Server.Response.{action_row}
use silentguard_xdr.Server.Fleet.Telemetry.{TelemetryEvent, Session, telemetry, internal_error}
use silentguard_xdr.Server.Fleet.Telemetry.Answers.{AllOrNothing, telemetry-AllOrNothing}
use silentguard_xdr.Server.Fleet.Telemetry.Unreadable.{unreadable_host_fails_batch}
use silentguard_xdr.Prelude.{◌≡◌, refl, Bool, true, false, Option, none, some, List, [], ◌∷◌}
use silentguard_xdr.Prelude.Text.{Text, codes}

abbrev no_text : List Piece → Text
no_text message = []

abbrev no_json : Fields → Text
no_json d = []

abbrev as_text : Json → Text
as_text (text t) = t
as_text v = []

abbrev no_search : Text → Text → Option Bool
no_search pattern value = some false

abbrev no_yaml : Text → Option Json
no_yaml content = none

abbrev no_urls : Text → List Text
no_urls content = []

abbrev visit : TelemetryEvent
visit = record {
  source = "process_monitor";
  severity = "info";
  action = "started";
  summary = lit "curl" ∷ [];
  details = field "url" (text (codes "http://[x")) end;
  timestamp = none;
}

abbrev evil : BlocklistEntry
evil = record {
  id = 1;
  org_id = some default_org_id;
  kind = "domain";
  value = codes "evil.com";
  added_at = 1;
}

abbrev with_block : Db
with_block = record fleet { blocklist = evil ∷ [] }

telemetry-AllOrNothing_example :
    AllOrNothing no_text no_json as_text no_search no_yaml no_urls true 10 false laptop
      (visit ∷ [])
      fleet
      (telemetry no_text no_json as_text no_search no_yaml no_urls true 10 false "k1"
        (visit ∷ [])
        fleet)
telemetry-AllOrNothing_example =
    telemetry-AllOrNothing no_text no_json as_text no_search no_yaml no_urls true 10 false "k1"
      (visit ∷ []) fleet laptop refl

unreadable_host_fails_batch_example :
    (telemetry no_text no_json as_text no_search no_yaml no_urls true 10 false "k1"
      (visit ∷ [])
      with_block).0
    ≡ err internal_error
unfolding silentguard_xdr.Server.Intel.Indicators.extract_indicators
    silentguard_xdr.Server.Models.get silentguard_xdr.Server.Models.truthy
    silentguard_xdr.Server.NetMatch.host_matches_any silentguard_xdr.Server.NetMatch.extract_host
    silentguard_xdr.Prelude.Text.rstrip_by silentguard_xdr.Prelude.Text.lower
    silentguard_xdr.Prelude.Text.strip mathlib.Core.Bool.xor
unreadable_host_fails_batch_example =
    unreadable_host_fails_batch no_text no_json as_text no_search no_yaml no_urls true 10 laptop
      false [] [] visit with_block refl refl refl

abbrev queued_elsewhere : ResponseAction
queued_elsewhere = action_row 3 7 (some "other") (some "d9") "kill_process" end "user:u9"

abbrev claim : TelemetryEvent
claim = record visit {
  source = "response";
  action = "result";
  details = field "action_id" (num 7) end;
}

abbrev open_session : Session
open_session = record {
  db = record fleet { actions = queued_elsewhere ∷ [] };
  pending = [];
  stored = [];
}
