-- ===== src/Server/Auth/Password/Laws.antt =====
-- What the policy demands, and that a stored password is recognised.
use silentguard_xdr.Server.Auth.Settings.{Settings}
use silentguard_xdr.Server.Auth.Password.{
  algo, rounds, rounds_text, validate_password, parse_int, is_hex_text, hash_password,
  verify_password,
}
use silentguard_xdr.Prelude.{
  ℕ, ◌≤◌, ◌≡◌, refl, ◌⊎◌, inl, inr, true, false, none, [], ◌∷◌, ◌++◌, arith, nat_eqb, ◌==◌, nat_eq,
  string_eq, option_eq, list_eq, beq_refl, Bool-cases, length, any, all,
}
use silentguard_xdr.Prelude.Text.{
  Text, is_upper, is_lower, is_alpha, lower, upper, is_alpha_text, split_on,
}

-- no character of the text is `c`
abbrev pub Lacks : ℕ → Text → Type 0
Lacks c s = any (λ d. nat_eqb d c) s ≡ false

split_on_self : (c : ℕ) (s : Text) → Lacks c s → split_on c s ≡ s ∷ []
unfolding split_on
split_on_self c [] h = refl
split_on_self c (d ∷ s) h = ground (arith, split_on_self c s)

-- the first piece ends at the first separator
split_on-append :
    (c : ℕ) (s rest : Text) → Lacks c s → split_on c (s ++ c ∷ rest) ≡ s ∷ split_on c rest
unfolding split_on
split_on-append c [] rest h = ground arith
split_on-append c (d ∷ s) rest h = ground (arith, split_on-append c s rest)

lower_id : (s : Text) → any is_upper s ≡ false → lower s ≡ s
unfolding lower
lower_id [] h = refl
lower_id (c ∷ s) h = ground (arith, lower_id s)

upper_id : (s : Text) → any is_lower s ≡ false → upper s ≡ s
unfolding upper
upper_id [] h = refl
upper_id (c ∷ s) h = ground (arith, upper_id s)

alpha_text : (s : Text) → all is_alpha s ≡ true → (is_alpha_text s ≡ true) ⊎ ((lower s == s) ≡ true)
unfolding is_alpha_text lower
alpha_text [] h = inr refl
alpha_text (c ∷ s) h = inl h

beq_of_eq : (s t : Text) → s ≡ t → (s == t) ≡ true
beq_of_eq s t e = rw e (beq_refl t)

-- An accepted password has the length asked for, a capital, a small letter and a character that is
-- no letter.
pub validate_password_sound :
    (s : Settings) (password : Text)
    → validate_password s password ≡ none
    → (s.password_min_length ≤ length password)
      × (any is_upper password ≡ true)
      × (any is_lower password ≡ true)
      × (all is_alpha password ≡ false)
unfolding validate_password
validate_password_sound s password h =
    let e : any is_upper password ≡ false → lower password ≡ password = lower_id password in
    let f : any is_lower password ≡ false → upper password ≡ password = upper_id password in
    let g = beq_of_eq (lower password) password in
    let k = beq_of_eq (upper password) password in
    (
      ground arith,
      ground (arith, e, g, Bool-cases (any is_upper password)),
      ground (arith, f, k, Bool-cases (any is_lower password)),
      ground (arith, g, alpha_text password, Bool-cases (all is_alpha password)),
    )

-- A hash made from a password verifies with that password, and with another one only if the two
-- have the same digest under its salt.
pub verify-hash :
    (pbkdf2 : Text → Text → ℕ → Text) (salt password other : Text)
    → is_hex_text salt ≡ true
    → Lacks b'$' salt
    → Lacks b'$' (pbkdf2 password salt rounds)
    → verify_password pbkdf2 other (hash_password pbkdf2 salt password)
      ≡ (pbkdf2 other salt rounds == pbkdf2 password salt rounds)
unfolding hash_password verify_password parse_int
verify-hash pbkdf2 salt password other hex clean digest =
    let d = pbkdf2 password salt rounds in
    rw (
      split_on-append b'$' algo (rounds_text ++ b'$' ∷ (salt ++ b'$' ∷ d)) refl,
      split_on-append b'$' rounds_text (salt ++ b'$' ∷ d) refl,
      split_on-append b'$' salt d clean,
      split_on_self b'$' d digest,
      hex,
    )
