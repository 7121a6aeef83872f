-- ===== src/Server/Sigma/Condition/Tokens.antt =====
-- The tokens of a condition that is written with blanks.
use silentguard_xdr.Server.Sigma.Condition.Reading.{
  Expr, IsExpr, print_expr, mean_expr, expr_longer, compile_tokens-print,
}
use silentguard_xdr.Server.Sigma.Condition.{
  parsed, compile_condition, words, space_out, tokenize, push_char, starts_blank,
}
use silentguard_xdr.Prelude.{
  ℕ, ◌≤◌, ◌≡◌, refl, ap, ◌⊎◌, inl, inr, Bool, true, false, not, ◌||◌, List, [], ◌∷◌, ◌++◌, arith,
  ◌==◌, nat_eq, string_eq, option_eq, list_eq, length, all,
}
use silentguard_xdr.Prelude.Table.{All}
use silentguard_xdr.Prelude.Text.{Text, is_space}

-- a character of a word: no blank and no parenthesis
abbrev pub is_plain_char : ℕ → Bool
is_plain_char c = not (is_space c || c == b'(' || c == b')')

-- a token as it can be written: a parenthesis, or characters of a word
abbrev pub IsToken : Text → Type 0
IsToken [] = true ≡ false
IsToken (c ∷ s) = ((c == b'(' || c == b')') ≡ true) × (s ≡ []) ⊎ (all is_plain_char (c ∷ s) ≡ true)

-- every token with a blank behind it
abbrev pub spaced : List Text → Text
spaced [] = []
spaced (t ∷ ts) = t ++ 32 ∷ spaced ts

-- what the walk does at a character of a word
plain_cases :
    (c : ℕ) → is_plain_char c ≡ true → (is_space c ≡ false) × ((c == b'(' || c == b')') ≡ false)
plain_cases c h = ground arith

space_out_plain :
    (c : ℕ) (s : Text) → (c == b'(' || c == b')') ≡ false → space_out (c ∷ s) ≡ c ∷ space_out s
unfolding space_out
space_out_plain c s h = rw h refl

words_plain :
    (c : ℕ) (s : Text) → is_space c ≡ false → words (c ∷ s) ≡ push_char c (starts_blank s) (words s)
unfolding words
words_plain c s h = rw h refl

words_blank : (s : Text) → words (space_out (32 ∷ s)) ≡ words (space_out s)
unfolding words space_out
words_blank s = refl

starts_blank_space : (s : Text) → starts_blank (space_out (32 ∷ s)) ≡ true
unfolding space_out
starts_blank_space s = refl

-- a word before a blank
words_word :
    (c : ℕ) (s rest : Text)
    → all is_plain_char (c ∷ s) ≡ true
    → words (space_out ((c ∷ s) ++ 32 ∷ rest)) ≡ (c ∷ s) ∷ words (space_out rest)
unfolding push_char
words_word c [] rest h =
    let (a, b) = plain_cases c (ground (arith, h)) in
    rw
      (
        space_out_plain c (32 ∷ rest) b,
        words_plain c (space_out (32 ∷ rest)) a,
        starts_blank_space rest,
        words_blank rest,
      )
      refl
words_word c (d ∷ s) rest h =
    let (a, b) = plain_cases c (ground (arith, h)) in
    let (a', b') = plain_cases d (ground (arith, h)) in
    let later : words (space_out ((d ∷ s) ++ 32 ∷ rest)) ≡ (d ∷ s) ∷ words (space_out rest) =
      words_word d s rest (ground (arith, h)) in
    rw
      (
        space_out_plain c (d ∷ s ++ 32 ∷ rest) b,
        words_plain c (space_out (d ∷ s ++ 32 ∷ rest)) a,
        later,
        space_out_plain d (s ++ 32 ∷ rest) b',
        a',
      )
      refl

-- a parenthesis before a blank
words_paren :
    (c : ℕ) (rest : Text)
    → (c == b'(' || c == b')') ≡ true
    → words (space_out (c ∷ 32 ∷ rest)) ≡ (c ∷ []) ∷ words (space_out rest)
unfolding words space_out push_char
words_paren c rest h = ground (arith, h)

-- Writing tokens with blanks and reading them again gives the tokens.
pub tokenize-spaced : (ts : List Text) → All IsToken ts → tokenize (spaced ts) ≡ ts
unfolding tokenize words space_out
tokenize-spaced [] h = refl
tokenize-spaced ([] ∷ ts) h = cc
tokenize-spaced ((c ∷ s) ∷ ts) (inl (paren, alone), h) =
    rw (alone, words_paren c (spaced ts) paren) (ap (λ r. (c ∷ []) ∷ r) (tokenize-spaced ts h))
tokenize-spaced ((c ∷ s) ∷ ts) (inr plain, h) =
    rw (words_word c s (spaced ts) plain) (ap (λ r. (c ∷ s) ∷ r) (tokenize-spaced ts h))

spaced_some : (ts : List Text) → All IsToken ts → 1 ≤ length ts → (spaced ts == []) ≡ false
spaced_some [] h long = absurd (omega (arith, long))
spaced_some ([] ∷ ts) (token, h) long = cc
spaced_some ((c ∷ s) ∷ ts) h long = refl

module _ (names : List Text) where
  -- Compiling a condition written with a blank behind each token gives its meaning: `not` binds tightest, then
  -- `and`, then `or`, parentheses group, and an aggregate counts the selections of its group. The
  -- selections are plain names, no keyword, count or parenthesis, and each token is a parenthesis or a
  -- word without blanks and parentheses.
  pub compile_condition-print :
      (e : Expr)
      → IsExpr e
      → All IsToken (print_expr e [])
      → compile_condition names (spaced (print_expr e [])) ≡ parsed (mean_expr names e) []
  unfolding compile_condition
  compile_condition-print e w tokens =
      rw
        (
          spaced_some (print_expr e []) tokens (omega (arith, expr_longer e [])),
          tokenize-spaced (print_expr e []) tokens,
        )
        (compile_tokens-print names e w)
