-- ===== src/Agent/Sinkhole.antt =====
-- The DNS sinkhole: agent/silentguard_agent/monitors/dns_sinkhole.py. A set that the code sorts is a list in
-- order without repetitions. The hosts file is its text, none where it cannot be read. A result of none is a
-- ValueError that leaves `sync`.
pub mod Syncing
use mathlib.Core.Option
use silentguard_xdr.Server.Exec.{lit}
use silentguard_xdr.Agent.Commands.{new_event}
use silentguard_xdr.Server.Fleet.Telemetry.{TelemetryEvent}
use silentguard_xdr.Server.NetMatch.{starts_with, extract_host}
use silentguard_xdr.Server.Models.{Json, Fields, text, end, field}
use silentguard_xdr.Prelude.{
  ℕ, Bool, true, false, not, ◌&&◌, Option, none, some, List, [], ◌∷◌, ◌++◌, map, ltb, if◌then◌else◌,
  ◌==◌, nat_eq, string_eq, option_eq, list_eq, length, drop, any,
}
use silentguard_xdr.Prelude.Table.{select, count}
use silentguard_xdr.Prelude.Text.{Text, codes, rstrip_by, string_of}

-- the order of texts by their code points
unfoldable pub text_lt : Text → Text → Bool
text_lt [] [] = false
text_lt [] (d ∷ t) = true
text_lt (c ∷ s) [] = false
text_lt (c ∷ s) (d ∷ t) = let rest = text_lt s t in if c == d then rest else ltb c d

unfoldable pub insert_sorted : Text → List Text → List Text
unfolding text_lt
insert_sorted x [] = x ∷ []
insert_sorted x (y ∷ ys) =
    let rest = insert_sorted x ys in
    if x == y then y ∷ ys else if text_lt x y then x ∷ y ∷ ys else y ∷ rest

-- `sorted(set(xs))`
unfoldable pub sorted_set : List Text → List Text
unfolding insert_sorted
sorted_set [] = []
sorted_set (x ∷ xs) = insert_sorted x (sorted_set xs)

abbrev pub common_subdomains : List Text
common_subdomains = codes "www" ∷ codes "m" ∷ codes "mobile" ∷ []

abbrev pub dots : Text → ℕ
dots h = count (λ c. c == b'.') h

-- the hosts that one blocked host stands for
abbrev pub variants : Text → List Text
variants h =
    if h == []
    then []
    else h ∷ (if dots h == 1 then map (λ prefix. prefix ++ b'.' ∷ h) common_subdomains else [])

-- `expand_hosts`
unfoldable pub expand_hosts : List Text → List Text
expand_hosts [] = []
expand_hosts (h ∷ hs) = variants h ++ expand_hosts hs

-- the set `configured`
unfoldable pub configured : List Text → Option (List Text)
configured [] = some []
configured (d ∷ ds) =
    let rest = configured ds in
    elim (extract_host d) [
      | none ↦ none
      | some h ↦ Option.map (λ hs. if h == [] then hs else h ∷ hs) rest
    ]

abbrev pub mark_begin : Text
mark_begin = codes "# >>> SilentGuard XDR sinkhole >>>"

abbrev pub mark_end : Text
mark_end = codes "# <<< SilentGuard XDR sinkhole <<<"

-- `content.split(mark, 1)`, none where there is no mark
unfoldable pub split_once : Text → Text → Option (Text × Text)
split_once mark [] = none
split_once mark (c ∷ t) =
    let rest = split_once mark t in
    if starts_with mark (c ∷ t)
    then some ([], drop (length mark) (c ∷ t))
    else elim rest [ none ↦ none | some (before, after_mark) ↦ some (c ∷ before, after_mark) ]

-- the content without the block of an earlier sync
unfoldable pub strip_block : Text → Option Text
unfolding split_once
strip_block content = elim (split_once mark_begin content) [
  | none ↦ some content
  | some (head, rest) ↦ elim (split_once mark_end content) [
    | none ↦ some content
    | some before_end ↦ elim (split_once mark_end rest) [
      | none ↦ none
      | some (skipped, tail) ↦ some (head ++ tail)
    ]
  ]
]

-- `"\n".join([MARK_BEGIN] + [f"0.0.0.0 {d}" for d in domains] + [MARK_END])`
abbrev pub block_of : List Text → Text
block_of domains = mark_begin ++ lines domains
  where
    lines : List Text → Text
    lines [] = b'\n' ∷ mark_end
    lines (d ∷ ds) = b'\n' ∷ codes "0.0.0.0 " ++ d ++ lines ds

-- what `sync` writes
abbrev pub new_content : Text → List Text → Text
new_content content domains =
    rstrip_by (λ c. c == b'\n') content ++ b'\n' ∷ block_of domains ++ b'\n' ∷ []

-- `class DnsSinkhole`, the hosts file and the events that were emitted
pub record Sinkhole : Type 0 where
  pub applied : List Text
  pub hosts : Option Text
  pub emitted : List TelemetryEvent

module _ (now : ℕ) (dry_run writable : Bool) where
  -- the event of a domain that is newly blocked
  abbrev pub sinkholed : Text → TelemetryEvent
  sinkholed d =
      new_event now "dns_sinkhole" "blocked"
        (lit "Domain '"
          ∷ lit (string_of d)
          ∷ lit "' (and common subdomains) sinkholed to 0.0.0.0"
          ∷ [])
        "warning" (field "domain" (text d) end)

  abbrev pub newly : List Text → List Text → List Text → List Text
  newly applied hosts domains =
      select (λ d. any (λ h. h == d) hosts && not (any (λ a. a == d) applied)) domains

  -- the rest of `sync`, where the set of domains has changed
  unfoldable pub write_hosts : List Text → List Text → Sinkhole → Option Sinkhole
  unfolding strip_block
  write_hosts hosts domains s =
      if dry_run then some (record s { applied = domains }) else elim s.hosts [
        | none ↦ some s
        | some content ↦ elim (strip_block content) [
          | none ↦ none
          | some rest ↦
              if writable
              then some (record {
                applied = domains;
                hosts = some (new_content rest domains);
                emitted = s.emitted ++ map sinkholed (newly s.applied hosts domains);
              })
              else some s
        ]
      ]

  -- `sync` of the blocked domains
  unfoldable pub sync : List Text → Sinkhole → Option Sinkhole
  unfolding configured expand_hosts sorted_set write_hosts
  sync blocked s = elim (configured blocked) [
    | none ↦ none
    | some hosts ↦
        let domains = sorted_set (expand_hosts hosts) in
        if domains == s.applied then some s else write_hosts hosts domains s
  ]
