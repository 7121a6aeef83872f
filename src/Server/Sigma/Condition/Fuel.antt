-- ===== src/Server/Sigma/Condition/Fuel.antt =====
-- The fuel of the condition parser always suffices.
use mathlib.Core.Path.{subst}
use silentguard_xdr.Server.Sigma.Condition.{
  Lead, either, both, negate, Node, Parse, parsed, index_error, out_of_fuel, bind, next_is, tail,
  skip_close, lead_of, negation, parenthesis, aggregate, selection, read_group, parse_expr,
  expr_loop, parse_term, term_loop, parse_factor, fuel_for, compile_tokens, word_and, word_or,
}
use silentguard_xdr.Prelude.{
  ℕ, zero, suc, ◌+◌, ◌*◌, ◌≤◌, ◌≡◌, refl, ◌≢◌, Bool, true, false, List, [], ◌∷◌, arith, length,
}
use silentguard_xdr.Prelude.Text.{Text}

-- The run kept within its fuel and left at most `n` tokens.
abbrev pub Ends : ℕ → Parse → Type 0
Ends n (parsed node rest) = length rest ≤ n
Ends n index_error = Unit
Ends n out_of_fuel = true ≡ false

Ends-bind :
    (m n : ℕ) (r : Parse) (k : Node → List Text → Parse)
    → Ends m r
    → ((node : Node) (rest : List Text) → length rest ≤ m → Ends n (k node rest))
    → Ends n (bind r k)
Ends-bind m n (parsed node rest) k h next = next node rest h
Ends-bind m n index_error k h next = tt
Ends-bind m n out_of_fuel k h next = h

Ends-weaken : (m n : ℕ) (r : Parse) → m ≤ n → Ends m r → Ends n r
Ends-weaken m n (parsed node rest) h e = omega (arith, h, e)
Ends-weaken m n index_error h e = tt
Ends-weaken m n out_of_fuel h e = e

Ends-if :
    (n : ℕ) (b : Bool) (x y : Parse)
    → (b ≡ true → Ends n x)
    → Ends n y
    → Ends n (elim b [ true ↦ x | false ↦ y ])
Ends-if n true x y hx hy = hx refl
Ends-if n false x y hx hy = hy

Ends-lead :
    (n : ℕ) (l : Lead) (x y z w : Parse)
    → Ends n x
    → Ends n y
    → Ends n z
    → Ends n w
    → Ends n (elim l [ negation ↦ x | parenthesis ↦ y | aggregate ↦ z | selection ↦ w ])
Ends-lead n negation x y z w hx hy hz hw = hx
Ends-lead n parenthesis x y z w hx hy hz hw = hy
Ends-lead n aggregate x y z w hx hy hz hw = hz
Ends-lead n selection x y z w hx hy hz hw = hw

skip_close-le : (ts : List Text) → length (skip_close ts) ≤ length ts
skip_close-le [] = omega arith
skip_close-le (t ∷ ts) = ground arith

-- a test for a word succeeds only where there is a token
next_is-tail :
    (word : Text) (ts : List Text) → next_is word ts ≡ true → length ts ≡ length (tail ts) + 1
next_is-tail word [] h = cc
next_is-tail word (t ∷ ts) h = omega arith

read_group-Ends :
    (names : List Text) (t : Text) (ts : List Text) → Ends (length ts) (read_group names t ts)
unfolding read_group
read_group-Ends names t [] = tt
read_group-Ends names t (o ∷ []) = tt
read_group-Ends names t (o ∷ g ∷ ts) = omega arith

true-false : ¬ (true ≡ false)
true-false e = cc

module _ (names : List Text) where
  mutual
    unfolding parse_expr

    expr-Ends :
        (f : ℕ) (ts : List Text) → 4 * length ts + 3 ≤ f → Ends (length ts) (parse_expr names f ts)
    expr-Ends zero ts h = absurd (omega (arith, h))
    expr-Ends (suc f) ts h =
        Ends-bind (length ts) (length ts) (parse_term names f ts)
          (λ node rest. expr_loop names f node rest) (term-Ends f ts (omega (arith, h)))
          λ node rest le.
            Ends-weaken (length rest) (length ts) (expr_loop names f node rest) le
              (expr_loop-Ends f node rest (omega (arith, h, le)))

    expr_loop-Ends :
        (f : ℕ) (node : Node) (ts : List Text)
        → 4 * length ts + 1 ≤ f
        → Ends (length ts) (expr_loop names f node ts)
    expr_loop-Ends zero node ts h = absurd (omega (arith, h))
    expr_loop-Ends (suc f) node ts h =
        Ends-if (length ts) (next_is word_or ts)
          (bind (parse_term names f (tail ts))
            (λ rhs rest. expr_loop names f (either node rhs) rest))
          (parsed node ts)
          (λ more.
            let shorter = next_is-tail word_or ts more in
            Ends-bind (length (tail ts)) (length ts) (parse_term names f (tail ts))
              (λ rhs rest. expr_loop names f (either node rhs) rest)
              (term-Ends f (tail ts) (omega (arith, h, shorter)))
              λ rhs rest le.
                Ends-weaken (length rest) (length ts) (expr_loop names f (either node rhs) rest)
                  (omega (arith, le, shorter))
                  (expr_loop-Ends f (either node rhs) rest (omega (arith, h, le, shorter))))
          (omega arith)

    term-Ends :
        (f : ℕ) (ts : List Text) → 4 * length ts + 2 ≤ f → Ends (length ts) (parse_term names f ts)
    term-Ends zero ts h = absurd (omega (arith, h))
    term-Ends (suc f) ts h =
        Ends-bind (length ts) (length ts) (parse_factor names f ts)
          (λ node rest. term_loop names f node rest) (factor-Ends f ts (omega (arith, h)))
          λ node rest le.
            Ends-weaken (length rest) (length ts) (term_loop names f node rest) le
              (term_loop-Ends f node rest (omega (arith, h, le)))

    term_loop-Ends :
        (f : ℕ) (node : Node) (ts : List Text)
        → 4 * length ts + 1 ≤ f
        → Ends (length ts) (term_loop names f node ts)
    term_loop-Ends zero node ts h = absurd (omega (arith, h))
    term_loop-Ends (suc f) node ts h =
        Ends-if (length ts) (next_is word_and ts)
          (bind (parse_factor names f (tail ts))
            (λ rhs rest. term_loop names f (both node rhs) rest))
          (parsed node ts)
          (λ more.
            let shorter = next_is-tail word_and ts more in
            Ends-bind (length (tail ts)) (length ts) (parse_factor names f (tail ts))
              (λ rhs rest. term_loop names f (both node rhs) rest)
              (factor-Ends f (tail ts) (omega (arith, h, shorter)))
              λ rhs rest le.
                Ends-weaken (length rest) (length ts) (term_loop names f (both node rhs) rest)
                  (omega (arith, le, shorter))
                  (term_loop-Ends f (both node rhs) rest (omega (arith, h, le, shorter))))
          (omega arith)

    factor-Ends :
        (f : ℕ) (ts : List Text)
        → 4 * length ts + 1 ≤ f
        → Ends (length ts) (parse_factor names f ts)
    factor-Ends zero ts h = absurd (omega (arith, h))
    factor-Ends (suc f) [] h = omega arith
    factor-Ends (suc f) (t ∷ ts) h =
        Ends-lead (suc (length ts)) (lead_of t ts)
          (bind (parse_factor names f ts) (λ operand rest. parsed (negate operand) rest))
          (bind (parse_expr names f ts) (λ node rest. parsed node (skip_close rest)))
          (read_group names t ts) (parsed (λ r. r t) ts)
          (Ends-bind (length ts) (suc (length ts)) (parse_factor names f ts)
            (λ operand rest. parsed (negate operand) rest) (factor-Ends f ts (omega (arith, h)))
            λ operand rest le. omega (arith, le))
          (Ends-bind (length ts) (suc (length ts)) (parse_expr names f ts)
            (λ node rest. parsed node (skip_close rest)) (expr-Ends f ts (omega (arith, h)))
            λ node rest le. omega (arith, le, skip_close-le rest))
          (Ends-weaken (length ts) (suc (length ts)) (read_group names t ts) (omega arith)
            (read_group-Ends names t ts))
          (omega arith)

  -- Compiling a condition ends, on every list of tokens: the parser returns a test and leaves some of the
  -- tokens, or runs past their end and raises, and never runs out of its fuel.
  pub compile_tokens_ends : (ts : List Text) → compile_tokens names ts ≢ out_of_fuel
  unfolding compile_tokens
  compile_tokens_ends ts spent =
      let ends = expr-Ends (fuel_for names ts) ts (omega arith) in
      true-false (subst (λ r. Ends (length ts) r) spent ends)
