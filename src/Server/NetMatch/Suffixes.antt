-- ===== src/Server/NetMatch/Suffixes.antt =====
-- Matching by the set of a host's parent domains is matching against each blocked domain.
use silentguard_xdr.Server.NetMatch.{
  join_dots, ends_of, suffixes, falls_under, extract_host, host_matches_domain, blocked_hosts,
  first_blocked, host_matches_any,
}
use silentguard_xdr.Server.NetMatch.Labels.{split-cons, join-split, any-ends_of}
use silentguard_xdr.Prelude.{
  ◌≡◌, refl, sym, ap, ◌∙◌, ◌≢◌, ◌↔◌, ◌⊎◌, inl, inr, Bool, true, false, ◌||◌, Option, none, some,
  List, [], ◌∷◌, arith, if◌then◌else◌, ◌==◌, nat_eq, string_eq, option_eq, list_eq, list_eqb_iff,
  beq_refl, eq_of_beq, Bool-cases, Option-cases, any,
}
use silentguard_xdr.Prelude.Table.{find, All, find_test}
use silentguard_xdr.Prelude.Text.{Text, lower, strip}

-- A host falls under a domain exactly if the domain is one of the host's parent domains: the host
-- itself, or what follows one of its dots.
pub any-suffixes : (b h : Text) → b ≢ [] → any (λ e. e == b) (suffixes h) ≡ falls_under h b
unfolding suffixes falls_under ends_of
any-suffixes b h nonempty =
    let (p, ps, e) = split-cons h in
    let whole : join_dots (p ∷ ps) ≡ h = ap join_dots (sym e) ∙ join-split h in
    rw e (ground (arith, any-ends_of b h p ps e, list_eqb_iff b []))

find-any {ℓ} : {A : Type ℓ} (p : A → Bool) (xs : List A) → (find p xs ≡ none) ↔ (any p xs ≡ false)
find-any p [] = ((λ _. refl), (λ _. refl))
find-any p (x ∷ xs) =
    let rest = find-any p xs in ((λ h. ground (arith, rest)), (λ h. ground (arith, rest)))

any-or {ℓ} :
    {A : Type ℓ} (p q : A → Bool) (xs : List A) → any (λ x. p x || q x) xs ≡ (any p xs || any q xs)
any-or p q [] = refl
any-or p q (x ∷ xs) = ground (arith, any-or p q xs)

any-none {ℓ} : {A : Type ℓ} (xs : List A) → any (λ _. false) xs ≡ false
any-none [] = refl
any-none (x ∷ xs) = any-none xs

-- some end is one of the hosts: some host is one of the ends
any-suffixes-any :
    (h : Text) (hosts : List Text)
    → All (λ b. b ≢ []) hosts
    → any (λ s. any (λ b. s == b) hosts) (suffixes h) ≡ any (falls_under h) hosts
any-suffixes-any h [] ok = any-none (suffixes h)
any-suffixes-any h (b ∷ hosts) ok =
    any-or (λ s. s == b) (λ s. any (λ c. s == c) hosts) (suffixes h)
    ∙ ground (arith, any-suffixes b h ok.0, any-suffixes-any h hosts ok.1)

-- what a set that was built holds for one more entry
Entry : Text → List Text → List Text → Type 0
Entry b rest hosts =
    ((b ≡ []) × (hosts ≡ rest))
    ⊎ ((h : Text) × (extract_host b ≡ some h) × (hosts ≡ (if h == [] then rest else h ∷ rest)))

blocked_hosts-cons :
    (b : Text) (bs hosts : List Text)
    → blocked_hosts (b ∷ bs) ≡ some hosts
    → (rest : List Text) × (blocked_hosts bs ≡ some rest) × Entry b rest hosts
unfolding blocked_hosts Entry
blocked_hosts-cons b bs hosts e = elim (Bool-cases (b == [])) [
  | inl empty ↦ (hosts, ground arith, inl (eq_of_beq b [] empty, refl))
  | inr full ↦ elim (Option-cases (extract_host b)) [
    | inl bad ↦ absurd (ground arith)
    | inr (h, good) ↦ elim (Option-cases (blocked_hosts bs)) [
      | inl bad ↦ absurd (ground arith)
      | inr (rest, r) ↦ (rest, r, inr (h, good, ground arith))
    ]
  ]
]

Entry-nonempty :
    (b : Text) (rest hosts : List Text)
    → Entry b rest hosts
    → All (λ c. c ≢ []) rest
    → All (λ c. c ≢ []) hosts
unfolding Entry
Entry-nonempty b rest hosts (inl (_, same)) ih = rw same ih
Entry-nonempty b rest hosts (inr (h, _, same)) ih = elim (Bool-cases (h == [])) [
  | inl empty ↦ rw (same, empty) ih
  | inr full ↦ rw (same, full) ((λ z. cc (full, (list_eqb_iff h []).1 z)), ih)
]

blocked_hosts-nonempty :
    (blocked hosts : List Text) → blocked_hosts blocked ≡ some hosts → All (λ b. b ≢ []) hosts
unfolding blocked_hosts
blocked_hosts-nonempty [] hosts e = let f : hosts ≡ [] = cc in rw f tt
blocked_hosts-nonempty (b ∷ bs) hosts e =
    let (rest, r, entry) = blocked_hosts-cons b bs hosts e in
    Entry-nonempty b rest hosts entry (blocked_hosts-nonempty bs rest r)

abbrev pub hits : Option Bool → Bool
hits none = false
hits (some b) = b

extract_host-empty : extract_host [] ≡ some []
unfolding extract_host strip lower
extract_host-empty = refl

match-empty :
    (value h b : Text)
    → extract_host value ≡ some h
    → b ≡ []
    → hits (host_matches_domain value b) ≡ false
unfolding host_matches_domain falls_under
match-empty value h b e empty = rw empty (ground (arith, extract_host-empty))

match-host :
    (value h b g : Text)
    → extract_host value ≡ some h
    → extract_host b ≡ some g
    → hits (host_matches_domain value b) ≡ falls_under h g
unfolding host_matches_domain
match-host value h b g e f = ground arith

under :
    (h g : Text) (rest : List Text)
    → (falls_under h g || any (falls_under h) rest)
      ≡ any (falls_under h) (if g == [] then rest else g ∷ rest)
unfolding falls_under
under h g rest = ground arith

run_any :
    (value h : Text) (blocked hosts : List Text)
    → extract_host value ≡ some h
    → blocked_hosts blocked ≡ some hosts
    → host_matches_any value blocked ≡ some (first_blocked hosts h)
unfolding host_matches_any
run_any value h blocked hosts e f = ground arith

any-blocked :
    (value h : Text) (blocked hosts : List Text)
    → extract_host value ≡ some h
    → blocked_hosts blocked ≡ some hosts
    → any (λ b. hits (host_matches_domain value b)) blocked ≡ any (falls_under h) hosts
unfolding blocked_hosts Entry
any-blocked value h [] hosts e f = let g : hosts ≡ [] = cc in rw g
any-blocked value h (b ∷ bs) hosts e f =
    let (rest, r, entry) = blocked_hosts-cons b bs hosts f in
    let ih = any-blocked value h bs rest e r in
    elim entry [
      | inl (empty, same) ↦ rw (same, ih, match-empty value h b e empty)
      | inr (g, good, same) ↦ rw (same, ih, match-host value h b g e good) (under h g rest)
    ]

-- The set-based search finds no blocked domain exactly if the value matches none of the blocked
-- domains one by one, wherever every address can be parsed.
pub host_matches_any-eq-none_iff :
    (value h : Text) (blocked hosts : List Text)
    → extract_host value ≡ some h
    → blocked_hosts blocked ≡ some hosts
    → (host_matches_any value blocked ≡ some none)
      ↔ (any (λ b. hits (host_matches_domain value b)) blocked ≡ false)
host_matches_any-eq-none_iff value h blocked hosts e f =
    rw
      (
        any-blocked value h blocked hosts e f,
        ← any-suffixes-any h hosts (blocked_hosts-nonempty blocked hosts f),
      )
      (let found = find-any (λ s. any (λ b. s == b) hosts) (suffixes h) in
        let run : host_matches_any value blocked ≡ some (first_blocked hosts h) =
          run_any value h blocked hosts e f in
        unfold first_blocked in rw run ((λ p. found.0 (cc p)), (λ p. cc (found.1 p))))

any_of_find :
    (p : Text → Bool) (xs : List Text) (a : Text) → find p xs ≡ some a → any (λ e. e == a) xs ≡ true
any_of_find p [] a h = cc
any_of_find p (x ∷ xs) a h = ground (arith, beq_refl a, any_of_find p xs a)

nonempty_of_any :
    (s : Text) (hosts : List Text)
    → All (λ b. b ≢ []) hosts
    → any (λ b. s == b) hosts ≡ true
    → s ≢ []
nonempty_of_any s [] full h e = cc
nonempty_of_any s (b ∷ hosts) full h e =
    ground (arith, full.0, list_eqb_iff s b, nonempty_of_any s hosts full.1)

-- What the search returns is a blocked domain that the host falls under.
pub host_matches_any_sound :
    (value h s : Text) (blocked hosts : List Text)
    → extract_host value ≡ some h
    → blocked_hosts blocked ≡ some hosts
    → host_matches_any value blocked ≡ some (some s)
    → (any (λ b. s == b) hosts ≡ true) × (falls_under h s ≡ true)
unfolding first_blocked
host_matches_any_sound value h s blocked hosts e f g =
    let run : host_matches_any value blocked ≡ some (first_blocked hosts h) =
      run_any value h blocked hosts e f in
    let found : find (λ t. any (λ b. t == b) hosts) (suffixes h) ≡ some s = cc in
    let listed = find_test (λ t. any (λ b. t == b) hosts) (suffixes h) found in
    let full = nonempty_of_any s hosts (blocked_hosts-nonempty blocked hosts f) listed in
    (
      listed,
      sym (any-suffixes s h full) ∙ any_of_find (λ t. any (λ b. t == b) hosts) (suffixes h) s found,
    )
