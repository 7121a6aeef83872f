-- ===== src/Agent/Tests/Gateway.antt =====
-- The theorem on the guard of the gateway at a sample.
use silentguard_xdr.Agent.ArpGuard.Spoofing.{every_spoof_reported, pinned, Reports}
use silentguard_xdr.Agent.ArpGuard.{scan_all, Neighbours}
use silentguard_xdr.Prelude.{ℕ, String, refl, Bool, false, some, List, [], ◌∷◌}
use silentguard_xdr.Prelude.Text.{Text, codes}

abbrev router : Text
router = codes "10.0.0.1"

abbrev router_mac : Text
router_mac = codes "aa:aa"

abbrev answering : Text → Neighbours
answering mac = record { gateway = some router; arp_table = λ ip. some mac }

-- the router, an attacker, the router again, the attacker again
abbrev observed : List (ℕ × Neighbours)
observed =
    (1, answering router_mac)
    ∷ (2, answering (codes "bb:bb"))
    ∷ (3, answering router_mac)
    ∷ (4, answering (codes "bb:bb"))
    ∷ []

abbrev no_firewall : String → Bool
no_firewall command = false

every_spoof_reported_example :
    Reports router router_mac
      (codes "bb:bb" ∷ codes "bb:bb" ∷ [])
      (scan_all false "Linux" no_firewall observed (pinned router router_mac []))
every_spoof_reported_example =
    every_spoof_reported false "Linux" no_firewall router router_mac observed []
      (refl, (refl, (refl, (refl, tt))))
