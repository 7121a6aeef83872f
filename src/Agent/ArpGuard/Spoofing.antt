-- ===== src/Agent/ArpGuard/Spoofing.antt =====
-- What the guard reports while the gateway keeps its address.
use mathlib.Core.List.{map-append}
use silentguard_xdr.Server.Fleet.Telemetry.{TelemetryEvent}
use silentguard_xdr.Agent.ArpGuard.{
  scan, drops_mac, scan_mac, scan_all, block_mac, Neighbours, ArpGuard,
}
use silentguard_xdr.Server.Models.{Json, text, get}
use silentguard_xdr.Prelude.{
  ℕ, String, ◌≡◌, refl, sym, ap, ◌∙◌, inl, inr, Bool, ◌||◌, Option, none, some, List, [], ◌∷◌, ◌++◌,
  map, if◌then◌else◌, ◌==◌, nat_eq, string_eq, option_eq, list_eq, beq_refl, Bool-cases,
  Option-cases, any,
}
use silentguard_xdr.Prelude.Table.{All}
use silentguard_xdr.Prelude.Text.{Text}

-- the addresses other than the trusted one from which the gateway answered
abbrev pub spoofed : Text → Text → List (ℕ × Neighbours) → List Text
spoofed gw mac [] = []
spoofed gw mac ((now, n) ∷ ns) =
    let rest = spoofed gw mac ns in
    elim (n.arp_table gw) [ none ↦ rest | some m ↦ if m == mac then rest else m ∷ rest ]

-- a guard that trusts a MAC for a gateway
abbrev pub pinned : Text → Text → List Text → ArpGuard
pinned gw mac bs = record { gateway_ip = some gw; trusted_mac = some mac; blocked_macs = bs }

abbrev pub named_macs : List TelemetryEvent → List (Option Json)
named_macs = map (λ ev. get "spoofed_mac" ev.details)

-- The events name these MACs, and the guard still trusts the same one.
abbrev pub Reports : Text → Text → List Text → List TelemetryEvent × ArpGuard → Type 0
Reports gw mac macs (events, g) =
    (named_macs events ≡ map (λ m. some (text m)) macs) × (bs : List Text) × (g ≡ pinned gw mac bs)

spoofed_first :
    (gw mac : Text) (now : ℕ) (n : Neighbours) (ns : List (ℕ × Neighbours))
    → spoofed gw mac ((now, n) ∷ ns) ≡ spoofed gw mac ((now, n) ∷ []) ++ spoofed gw mac ns
spoofed_first gw mac now n ns = elim (Option-cases (n.arp_table gw)) [
  | inl silent ↦ rw silent refl
  | inr (m, answers) ↦ elim (Bool-cases (m == mac)) [
    | inl same ↦ rw (answers, same) refl
    | inr other ↦ rw (answers, other) refl
  ]
]

module _ (dry_run : Bool) (system : String) (shell : String → Bool) where
  block_mac-pinned :
      (gw mac m : Text) (bs : List Text)
      → (cs : List Text) × ((block_mac dry_run system shell m (pinned gw mac bs)).1
          ≡ pinned gw mac cs)
  unfolding block_mac
  block_mac-pinned gw mac m bs = elim (Bool-cases (any (λ x. x == m) bs)) [
    | inl held ↦ rw held (bs, refl)
    | inr new ↦ elim (Bool-cases (dry_run || drops_mac dry_run system shell (pinned gw mac bs))) [
      | inl out ↦ rw (new, out) (m ∷ bs, refl)
      | inr failed ↦ rw (new, failed) (bs, refl)
    ]
  ]

  -- one scan of a gateway that answers
  scan_mac-Reports :
      (now : ℕ) (gw mac m : Text) (bs : List Text)
      → Reports gw mac
          (if m == mac then [] else m ∷ [])
          (scan_mac dry_run system shell now gw m (pinned gw mac bs))
  unfolding scan_mac get
  scan_mac-Reports now gw mac m bs = elim (Bool-cases (m == mac)) [
    | inl same ↦ rw (same, beq_refl gw) (refl, bs, refl)
    | inr other ↦
        let (cs, kept) = block_mac-pinned gw mac m bs in rw (other, beq_refl gw) (refl, cs, kept)
  ]

  scan-Reports :
      (now : ℕ) (gw mac : Text) (n : Neighbours) (bs : List Text)
      → n.gateway ≡ some gw
      → Reports gw mac
          (spoofed gw mac ((now, n) ∷ []))
          (scan dry_run system shell now n (pinned gw mac bs))
  unfolding scan
  scan-Reports now gw mac n bs there = elim (Option-cases (n.arp_table gw)) [
    | inl silent ↦ rw (there, scan) (rw silent (refl, bs, refl))
    | inr (m, answers) ↦ rw (there, scan) (rw answers (scan_mac-Reports now gw mac m bs))
  ]

  -- While the default gateway keeps its address, the MAC that was pinned for it stays the trusted one, and the
  -- guard reports exactly the scans in which the gateway answers from another MAC, in their order and with
  -- that MAC, whether it was blocked before or not and whether blocking succeeds or not.
  pub every_spoof_reported :
      (gw mac : Text) (ns : List (ℕ × Neighbours)) (bs : List Text)
      → All (λ n. n.1.gateway ≡ some gw) ns
      → Reports gw mac (spoofed gw mac ns) (scan_all dry_run system shell ns (pinned gw mac bs))
  unfolding scan_all
  every_spoof_reported gw mac [] bs same = (refl, bs, refl)
  every_spoof_reported gw mac ((now, n) ∷ ns) bs (first, same) =
      let (one, cs, still) = scan-Reports now gw mac n bs first in
      let (rest, ds, ends) = every_spoof_reported gw mac ns cs same in
      let macs = λ (ev : TelemetryEvent). get "spoofed_mac" ev.details in
      let named = λ (m : Text). some (text m) in
      let here = scan dry_run system shell now n (pinned gw mac bs) in
      let later = scan_all dry_run system shell ns (pinned gw mac cs) in
      rw (spoofed_first gw mac now n ns, still)
        (
          map-append macs here.0 later.0
              ∙ ap (λ l. l ++ named_macs later.0) one
              ∙ ap (λ l. map named (spoofed gw mac ((now, n) ∷ [])) ++ l) rest
              ∙ sym (map-append named (spoofed gw mac ((now, n) ∷ [])) (spoofed gw mac ns)),
          ds,
          ends,
        )
