-- ===== src/Server/NetMatch.antt =====
-- Subdomain-aware matching of hosts: server/app/core/netmatch.py, and agent/silentguard_agent/net_match.py,
-- which is its copy. `none` is the ValueError that `urlsplit` raises on an address with one bracket.
-- Text is ASCII, and the check of an address that stands in brackets is left out.
pub mod Labels
pub mod Suffixes
use mathlib.Core.Option
use silentguard_xdr.Prelude.{
  ℕ, xor, Bool, true, false, ◌&&◌, ◌||◌, Option, none, some, List, [], ◌∷◌, ◌++◌, if◌then◌else◌,
  ◌==◌, nat_eq, string_eq, option_eq, list_eq, any, all,
}
use silentguard_xdr.Prelude.Table.{find}
use silentguard_xdr.Prelude.Text.{
  Text, codes, is_digit, is_alpha, lower, rstrip_by, strip, split_on,
}

abbrev dot : ℕ
dot = b'.'

abbrev colon : ℕ
colon = b':'

-- `s.startswith(p)`
unfoldable pub starts_with : Text → Text → Bool
starts_with [] s = true
starts_with (c ∷ p) [] = false
starts_with (c ∷ p) (d ∷ s) = c == d && starts_with p s

-- `s.endswith(p)`: some end of the text is `p`
unfoldable pub ends_with : Text → Text → Bool
ends_with p [] = [] == p
ends_with p (c ∷ s) = c ∷ s == p || ends_with p s

-- `p in s`
unfoldable pub contains : Text → Text → Bool
unfolding starts_with
contains p [] = starts_with p []
contains p (c ∷ s) = starts_with p (c ∷ s) || contains p s

-- the text before the first character that passes, or all of it
unfoldable pub before : (ℕ → Bool) → Text → Text
before p [] = []
before p (c ∷ s) = let rest = before p s in if p c then [] else c ∷ rest

-- the text after the first character that passes, or nothing
unfoldable pub after : (ℕ → Bool) → Text → Text
after p [] = []
after p (c ∷ s) = let rest = after p s in if p c then s else rest

-- `s.rpartition("@")[2]`
unfoldable pub after_last : ℕ → Text → Text
after_last c [] = []
after_last c (d ∷ s) =
    let rest = after_last c s in
    if any (λ e. e == c) (d ∷ s) then (if any (λ e. e == c) s then rest else s) else d ∷ s

abbrev is_scheme_char : ℕ → Bool
is_scheme_char c = is_alpha c || is_digit c || c == b'+' || c == b'-' || c == dot

abbrev starts_alpha : Text → Bool
starts_alpha [] = false
starts_alpha (c ∷ s) = is_alpha c

-- what `urlsplit` leaves after it has taken the scheme off
unfoldable pub without_scheme : Text → Text
unfolding before after
without_scheme url =
    let scheme = before (λ c. c == colon) url in
    if any (λ c. c == colon) url && starts_alpha scheme && all is_scheme_char scheme
    then after (λ c. c == colon) url
    else url

abbrev ends_netloc : ℕ → Bool
ends_netloc c = c == b'/' || c == b'?' || c == b'#'

abbrev netloc_of : Text → Text
netloc_of (a ∷ b ∷ s) = if a == b'/' && b == b'/' then before ends_netloc s else []
netloc_of s = []

-- `SplitResult.hostname` of an address, the empty text for None
unfoldable pub hostname : Text → Option Text
unfolding before after after_last
hostname netloc =
    let opened = any (λ c. c == b'[') netloc in
    let closed = any (λ c. c == b']') netloc in
    if xor opened closed
    then none
    else let info = after_last b'@' netloc in
      if any (λ c. c == b'[') info
      then some (before (λ c. c == b']') (after (λ c. c == b'[') info))
      else some (before (λ c. c == colon) info)

-- `extract_host`
unfoldable pub extract_host : Text → Option Text
unfolding contains without_scheme hostname
extract_host value =
    let v = rstrip_by (λ c. c == dot) (lower (strip value)) in
    if v == []
    then some []
    else let url = if contains (codes "://") v then v else b'/' ∷ b'/' ∷ v in
      hostname (netloc_of (without_scheme url))

-- `".".join(labels)`
unfoldable pub join_dots : List Text → Text
join_dots [] = []
join_dots (l ∷ []) = l
join_dots (l ∷ m ∷ ls) = l ++ dot ∷ join_dots (m ∷ ls)

-- `[".".join(labels[i:]) for i in range(len(labels))]`
unfoldable pub ends_of : List Text → List Text
unfolding join_dots
ends_of [] = []
ends_of (l ∷ ls) = join_dots (l ∷ ls) ∷ ends_of ls

-- `parent_domains` of a host that `extract_host` gave
unfoldable pub suffixes : Text → List Text
unfolding ends_of
suffixes host = if host == [] then [] else ends_of (split_on dot host)

unfoldable pub parent_domains : Text → Option (List Text)
unfolding suffixes
parent_domains value = Option.map suffixes (extract_host value)

-- the test of `host_matches_domain` on two hosts
unfoldable pub falls_under : Text → Text → Bool
unfolding ends_with
falls_under host blocked =
    if host == [] || blocked == [] then false else host == blocked || ends_with (dot ∷ blocked) host

-- `host_matches_domain`
unfoldable pub host_matches_domain : Text → Text → Option Bool
unfolding falls_under
host_matches_domain host blocked = elim (extract_host host) [
  | none ↦ none
  | some h ↦ Option.map (falls_under h) (extract_host blocked)
]

-- `{extract_host(b) for b in blocked if b}` without the empty text
unfoldable pub blocked_hosts : List Text → Option (List Text)
blocked_hosts [] = some []
blocked_hosts (b ∷ bs) =
    let rest = blocked_hosts bs in
    if b == [] then rest else elim (extract_host b) [
      | none ↦ none
      | some h ↦ Option.map (λ hs. if h == [] then hs else h ∷ hs) rest
    ]

-- the loop of `host_matches_any`
unfoldable pub first_blocked : List Text → Text → Option Text
unfolding suffixes
first_blocked blocked host = find (λ s. any (λ b. s == b) blocked) (suffixes host)

-- `host_matches_any`; the outer `none` is a ValueError
unfoldable pub host_matches_any : Text → List Text → Option (Option Text)
unfolding blocked_hosts first_blocked
host_matches_any host blocked = elim (blocked_hosts blocked) [
  | none ↦ none
  | some hosts ↦ Option.map (first_blocked hosts) (extract_host host)
]
