-- ===== src/Server/Auth/Mfa/Codes.antt =====
-- Which codes are accepted.
use mathlib.Core.Path.{subst}
use silentguard_xdr.Server.Auth.Mfa.{hotp, verify, steps_around, is_digits, period}
use silentguard_xdr.Prelude.{
  ℕ, zero, suc, ◌+◌, ◌/◌, ◌≤◌, ◌≡◌, refl, ◌↔◌, ◌⊎◌, inl, inr, Bool, true, false, not, ◌||◌, List,
  [], arith, ◌==◌, nat_eq, string_eq, option_eq, list_eq, beq_refl, eq_of_beq, Bool-cases, any,
}
use silentguard_xdr.Prelude.Text.{Text, strip}

or_cases : (a b : Bool) → (a || b) ≡ true → (a ≡ true) ⊎ (b ≡ true)
or_cases true b h = inl refl
or_cases false b h = inr h

-- A step that passes the test, and is the counter or next to it
abbrev Around : (ℕ → Bool) → ℕ → Type 0
Around p counter = (step : ℕ) × (counter ≤ step + 1) × (step ≤ counter + 1) × (p step ≡ true)

any-Around : (p : ℕ → Bool) (counter : ℕ) → any p (steps_around counter) ≡ true → Around p counter
any-Around p zero h = elim (or_cases (p 0) (p 1 || false) h) [
  | inl a ↦ (0, omega arith, omega arith, a)
  | inr b ↦ (1, omega arith, omega arith, ground (arith, b))
]
any-Around p (suc n) h = elim (or_cases (p n) (p (n + 1) || (p (n + 2) || false)) h) [
  | inl a ↦ (n, omega arith, omega arith, a)
  | inr b ↦ elim (or_cases (p (n + 1)) (p (n + 2) || false) b) [
    | inl c ↦ (n + 1, omega arith, omega arith, c)
    | inr d ↦ (n + 2, omega arith, omega arith, ground (arith, d))
  ]
]

moved : (p : ℕ → Bool) (a b : ℕ) → a ≡ b → p a ≡ true → p b ≡ true
moved p a b e h = subst (λ n. p n ≡ true) e h

Around-any :
    (p : ℕ → Bool) (counter step : ℕ)
    → counter ≤ step + 1
    → step ≤ counter + 1
    → p step ≡ true
    → any p (steps_around counter) ≡ true
Around-any p zero zero low high h = ground (arith, h)
Around-any p zero (suc k) low high h =
    let there = moved p (suc k) 1 (omega (arith, high)) h in ground (arith, there)
Around-any p (suc n) step low high h = elim (Bool-cases (step == n)) [
  | inl a ↦ let there = moved p step n (ground (arith, a)) h in ground (arith, there)
  | inr b ↦ elim (Bool-cases (step == n + 1)) [
    | inl c ↦ let there = moved p step (n + 1) (ground (arith, c)) h in ground (arith, there)
    | inr d ↦
        let there = moved p step (n + 2) (ground (arith, b, d, low, high)) h in
        ground (arith, there)
  ]
]

module _ (b32decode : Text → List ℕ) (hmac_sha1 : List ℕ → List ℕ → List ℕ) where
  -- A code is accepted exactly if the account has a secret, the code is of digits, and it is, without blanks
  -- around it, the code of the current step of 30 seconds or of a step next to it.
  pub verify_iff :
      (secret code : Text) (now : ℕ)
      → verify b32decode hmac_sha1 secret code now ≡ true ↔ (
          ((secret == []) ≡ false)
          × ((code == []) ≡ false)
          × (is_digits (strip code) ≡ true)
          × ((step : ℕ) × (now / 30 ≤ step + 1)
              × (step ≤ now / 30 + 1)
              × (hotp b32decode hmac_sha1 secret step ≡ strip code)))
  unfolding verify
  verify_iff secret code now =
      let p : ℕ → Bool = λ step. hotp b32decode hmac_sha1 secret step == strip code in
      (
        λ h. elim (Bool-cases (secret == [] || code == [] || not (is_digits (strip code)))) [
          | inl refused ↦ absurd (ground (arith, h, refused))
          | inr open_ ↦
              let found : any p (steps_around (now / period)) ≡ true = rw open_ at h in
              let (step, low, high, same) = any-Around p (now / period) found in
              (
                ground (arith, open_),
                ground (arith, open_),
                ground (arith, open_),
                (
                  step,
                  low,
                  high,
                  eq_of_beq (hotp b32decode hmac_sha1 secret step) (strip code) same,
                ),
              )
        ],
        λ (a, b, c, (step, low, high, same)).
            let hit : p step ≡ true = rw same (beq_refl (strip code)) in
            rw (a, b, c) (Around-any p (now / period) step low high hit),
      )
