-- ===== src/Server/Auth/Signup/Slugs.antt =====
-- The search for a slug ends, with one that is free.
use silentguard_xdr.Server.Models.{Db, Organization}
use silentguard_xdr.Server.NetMatch.{after_last}
use silentguard_xdr.Server.Sigma.Condition.{number_of}
use silentguard_xdr.Server.Auth.Signup.{
  decimal, numbered, next_slug, unique_slug, slug_taken, slug_base,
}
use silentguard_xdr.Prelude.{
  ℕ, zero, suc, ◌+◌, ◌-◌, ◌*◌, ◌/◌, ◌%◌, ◌≤◌, ◌<◌, ◌≡◌, refl, ap, ◌∙◌, inl, inr, Bool, true, false,
  Option, some, List, [], ◌∷◌, ◌++◌, arith, ltb, ◌==◌, nat_eq, string_eq, option_eq, list_eq,
  eq_of_beq, Bool-cases, length, any,
}
use silentguard_xdr.Prelude.Table.{count}
use silentguard_xdr.Prelude.Text.{Text}

-- the digits stand for the number
decimal_value :
    (fuel n : ℕ) (rest : Text) → n < fuel → number_of 0 (decimal fuel n rest) ≡ number_of n rest
unfolding decimal
decimal_value zero n rest h = absurd (omega (arith, h))
decimal_value (suc fuel) n rest h = elim (Bool-cases (ltb n 10)) [
  | inl small ↦
      let e : 0 * 10 + ((b'0' + n) - b'0') ≡ n = omega arith in
      rw small (ap (λ m. number_of m rest) e)
  | inr large ↦
      let big : 10 ≤ n = ground (arith, large) in
      let e : n / 10 * 10 + ((b'0' + n % 10) - b'0') ≡ n = omega arith in
      rw large (
        decimal_value fuel (n / 10) ((b'0' + n % 10) ∷ rest) (omega (arith, h, big))
        ∙ ap (λ m. number_of m rest) e)
]

abbrev has_dash : Text → Bool
has_dash = any (λ c. c == b'-')

decimal_plain :
    (fuel n : ℕ) (rest : Text) → has_dash rest ≡ false → has_dash (decimal fuel n rest) ≡ false
unfolding decimal
decimal_plain zero n rest h = h
decimal_plain (suc fuel) n rest h = elim (Bool-cases (ltb n 10)) [
  | inl small ↦ rw small (ground (arith, h))
  | inr large ↦ rw large (decimal_plain fuel (n / 10) ((b'0' + n % 10) ∷ rest) (ground (arith, h)))
]

has_dash-append : (base ds : Text) → has_dash (base ++ b'-' ∷ ds) ≡ true
has_dash-append [] ds = refl
has_dash-append (c ∷ base) ds = ground (arith, has_dash-append base ds)

after_last-append :
    (base ds : Text) → has_dash ds ≡ false → after_last b'-' (base ++ b'-' ∷ ds) ≡ ds
unfolding after_last
after_last-append [] ds h = rw h refl
after_last-append (c ∷ base) ds h =
    ground (arith, has_dash-append base ds, after_last-append base ds h)

-- the number at the end of a slug
abbrev number_at_end : Text → ℕ
number_at_end slug = number_of 0 (after_last b'-' slug)

number_at_end-numbered : (base : Text) (i : ℕ) → number_at_end (numbered base i) ≡ i
unfolding numbered
number_at_end-numbered base i =
    rw (after_last-append base (decimal (suc i) i []) (decimal_plain (suc i) i [] refl))
      (decimal_value (suc i) i [] (omega arith))

-- an organization whose slug ends with a number beyond `i`
abbrev beyond : ℕ → Organization → Bool
beyond i o = ltb i (number_at_end o.slug)

count_falls : (i : ℕ) (os : List Organization) → count (beyond (i + 1)) os ≤ count (beyond i) os
count_falls i [] = omega arith
count_falls i (o ∷ os) = ground (arith, count_falls i os)

count_falls_taken :
    (i : ℕ) (slug : Text) (os : List Organization)
    → number_at_end slug ≡ i + 1
    → any (λ o. o.slug == slug) os ≡ true
    → count (beyond (i + 1)) os + 1 ≤ count (beyond i) os
count_falls_taken i slug [] e h = cc
count_falls_taken i slug (o ∷ os) e h = elim (Bool-cases (o.slug == slug)) [
  | inl same ↦
      let at_end : number_at_end o.slug ≡ i + 1 =
        ap number_at_end (eq_of_beq o.slug slug same) ∙ e in
      ground (arith, at_end, count_falls i os)
  | inr other ↦
      let later : any (λ o. o.slug == slug) os ≡ true = rw other at h in
      ground (arith, count_falls_taken i slug os e later)
]

-- A search that finds a slug of no organization
abbrev pub FindsFree : Db → Option Text → Type 0
FindsFree db found = (slug : Text) × (found ≡ some slug) × (slug_taken db slug ≡ false)

next_slug_ends :
    (fuel : ℕ) (db : Db) (base : Text) (i : ℕ)
    → count (beyond i) db.organizations + 1 ≤ fuel
    → FindsFree db (next_slug fuel db base (numbered base (i + 1)) (i + 1))
unfolding next_slug
next_slug_ends zero db base i h = absurd (omega (arith, h))
next_slug_ends (suc fuel) db base i h =
    let slug = numbered base (i + 1) in
    elim (Bool-cases (slug_taken db slug)) [
      | inr free ↦ rw (free, next_slug) (slug, refl, free)
      | inl taken ↦
          let fewer =
            count_falls_taken i slug db.organizations (number_at_end-numbered base (i + 1)) taken in
          rw (taken, next_slug) (next_slug_ends fuel db base (i + 1) (omega (arith, h, fewer)))
    ]

count_le : {A : Type 0} (p : A → Bool) (xs : List A) → count p xs ≤ length xs
count_le p [] = omega arith
count_le p (x ∷ xs) = ground (arith, count_le p xs)

search_ends :
    (fuel : ℕ) (db : Db) (base : Text)
    → length db.organizations + 2 ≤ fuel
    → FindsFree db (next_slug fuel db base base 1)
unfolding next_slug
search_ends zero db base h = absurd (omega (arith, h))
search_ends (suc fuel) db base h = elim (Bool-cases (slug_taken db base)) [
  | inr free ↦ rw (free, next_slug) (base, refl, free)
  | inl taken ↦
      rw (taken, next_slug)
        (next_slug_ends fuel db base 1 (omega (arith, h, count_le (beyond 1) db.organizations)))
]

-- The search for a slug always ends, with a slug that no organization has, whatever slugs are taken.
pub unique_slug_ends : (db : Db) (name : Text) → FindsFree db (unique_slug db name)
unfolding unique_slug
unique_slug_ends db name =
    search_ends (length db.organizations + 2) db (slug_base name) (omega arith)
