-- ===== src/Agent/ArpGuard.antt =====
-- The guard against a spoofed gateway: agent/silentguard_agent/monitors/arp_guard.py. What the system tells
-- about the gateway and the addresses of its neighbours is the record `Neighbours`; `shell` tells whether a
-- firewall command runs.
pub mod Spoofing
use silentguard_xdr.Agent.Commands.{new_event}
use silentguard_xdr.Server.Fleet.Telemetry.{TelemetryEvent}
use silentguard_xdr.Server.Exec.{lit, Piece}
use silentguard_xdr.Server.Models.{Json, Fields, text, null, end, field}
use silentguard_xdr.Prelude.{
  ℕ, String, Bool, true, false, not, ◌&&◌, ◌||◌, Option, none, some, List, [], ◌∷◌, ◌++◌,
  if◌then◌else◌, ◌==◌, nat_eq, string_eq, option_eq, list_eq, any,
}
use silentguard_xdr.Prelude.Text.{Text, string_of}

-- `default_gateway` and `arp_table` at one scan
pub record Neighbours : Type 0 where
  pub gateway : Option Text
  pub arp_table : Text → Option Text

-- `class ArpGuard`
pub record ArpGuard : Type 0 where
  pub gateway_ip : Option Text
  pub trusted_mac : Option Text
  pub blocked_macs : List Text

abbrev pub fresh_guard : ArpGuard
fresh_guard = record { gateway_ip = none; trusted_mac = none; blocked_macs = [] }

abbrev is_given : Option Text → Bool
is_given none = false
is_given (some t) = not (t == [])

abbrev shown : Option Text → Piece
shown none = lit "None"
shown (some t) = lit (string_of t)

abbrev mac_json : Option Text → Json
mac_json none = null
mac_json (some mac) = text mac

module _ (dry_run : Bool) (system : String) (shell : String → Bool) where
  -- whether the command of the system for a MAC ran, or none was needed
  unfoldable pub drops_mac : ArpGuard → Bool
  drops_mac g =
      if system == "Linux"
      then shell "iptables -A INPUT -m mac"
      else if system == "Windows"
      then not (is_given g.gateway_ip && is_given g.trusted_mac) || shell "netsh add neighbors"
      else false

  -- `_block_mac`
  unfoldable pub block_mac : Text → ArpGuard → Bool × ArpGuard
  unfolding drops_mac
  block_mac mac g =
      if any (λ m. m == mac) g.blocked_macs
      then (true, g)
      else if dry_run || drops_mac g
      then (true, record g { blocked_macs = mac ∷ g.blocked_macs })
      else (false, g)

  -- the event of a spoofed gateway
  abbrev pub spoof_event : ℕ → Text → Text → Bool → ArpGuard → TelemetryEvent
  spoof_event now gw mac blocked g =
      new_event now "arp_guard" (if blocked then "dropped" else "detected")
        (lit "ARP spoofing detected: gateway "
          ∷ lit (string_of gw)
          ∷ lit " changed MAC "
          ∷ shown g.trusted_mac
          ∷ lit " -> "
          ∷ lit (string_of mac)
          ∷ lit "; attacker traffic "
          ∷ lit (if blocked then "blocked" else "NOT blocked (insufficient privileges)")
          ∷ [])
        "critical"
        (field "gateway" (text gw)
          (field "trusted_mac" (mac_json g.trusted_mac) (field "spoofed_mac" (text mac) end)))

  -- the rest of `scan`, where the gateway answers from an address
  unfoldable pub scan_mac : ℕ → Text → Text → ArpGuard → List TelemetryEvent × ArpGuard
  unfolding block_mac
  scan_mac now gw mac g =
      if not (g.gateway_ip == some gw)
      then ([], record g { gateway_ip = some gw; trusted_mac = some mac })
      else if not (some mac == g.trusted_mac)
      then (let (blocked, g') = block_mac mac g in (spoof_event now gw mac blocked g ∷ [], g'))
      else ([], g)

  -- `scan`
  unfoldable pub scan : ℕ → Neighbours → ArpGuard → List TelemetryEvent × ArpGuard
  unfolding scan_mac
  scan now n g = elim n.gateway [
    | none ↦ ([], g)
    | some gw ↦ elim (n.arp_table gw) [ none ↦ ([], g) | some mac ↦ scan_mac now gw mac g ]
  ]

  -- scans one after the other, at times of their own
  unfoldable pub scan_all : List (ℕ × Neighbours) → ArpGuard → List TelemetryEvent × ArpGuard
  scan_all [] g = ([], g)
  scan_all ((now, n) ∷ ns) g =
      let (events, g₁) = scan now n g in let (later, g₂) = scan_all ns g₁ in (events ++ later, g₂)
