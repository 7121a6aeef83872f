-- ===== src/Exchange/Blocklist.antt =====
-- A blocked domain: from the blocklist of the console to the agents of the organization.

use silentguard_xdr.Prelude.{nat_eq, string_eq, option_eq, list_eq}
use silentguard_xdr.Prelude.Text.{Text}
