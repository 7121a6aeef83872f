-- ===== src/Server/Sigma/Condition/Reading.antt =====
-- The grammar of conditions, and that the parser reads it: `and` binds tighter than `or`, `not` tightest,
-- and an aggregate takes three tokens.
use silentguard_xdr.Server.Sigma.Condition.{
  Node, parsed, bind, next_is, skip_close, lead_of, aggregate, selection, is_count, read_group,
  compile_of, parse_expr, expr_loop, parse_term, term_loop, parse_factor, fuel_for, compile_tokens,
  both, either, negate, word_and, word_or, word_not, word_of, open_paren, close_paren,
}
use silentguard_xdr.Prelude.{
  ℕ, zero, suc, ◌+◌, ◌*◌, ◌≤◌, ◌≡◌, refl, true, false, List, [], ◌∷◌, arith, ◌==◌, nat_eq,
  string_eq, option_eq, list_eq, length,
}
use silentguard_xdr.Prelude.Text.{Text, lower}

mutual
  -- alternatives: a first term, and those behind `or`
  pub data Expr : Type 0 where
    expr : Term → Terms → Expr

  pub data Terms : Type 0 where
    no_terms : Terms
    or_term : Term → Terms → Terms

  -- conjuncts: a first factor, and those behind `and`
  pub data Term : Type 0 where
    term : Factor → Factors → Term

  pub data Factors : Type 0 where
    no_factors : Factors
    and_factor : Factor → Factors → Factors

  pub data Factor : Type 0 where
    name : Text → Factor
    inverse : Factor → Factor
    group : Expr → Factor
    some_of : Text → Text → Factor

-- the tokens of a condition, before others
unfoldable mutual
  pub print_expr : Expr → List Text → List Text
  print_expr (expr t ts) rest = print_term t (print_terms ts rest)

  pub print_terms : Terms → List Text → List Text
  print_terms no_terms rest = rest
  print_terms (or_term t ts) rest = word_or ∷ print_term t (print_terms ts rest)

  pub print_term : Term → List Text → List Text
  print_term (term f fs) rest = print_factor f (print_factors fs rest)

  pub print_factors : Factors → List Text → List Text
  print_factors no_factors rest = rest
  print_factors (and_factor f fs) rest = word_and ∷ print_factor f (print_factors fs rest)

  pub print_factor : Factor → List Text → List Text
  print_factor (name n) rest = n ∷ rest
  print_factor (inverse f) rest = word_not ∷ print_factor f rest
  print_factor (group e) rest = open_paren ∷ print_expr e (close_paren ∷ rest)
  print_factor (some_of c g) rest = c ∷ word_of ∷ g ∷ rest

-- what a condition means
module _ (names : List Text) where
  unfoldable mutual
    pub mean_expr : Expr → Node
    mean_expr (expr t ts) = mean_terms ts (mean_term t)

    pub mean_terms : Terms → Node → Node
    mean_terms no_terms node = node
    mean_terms (or_term t ts) node = mean_terms ts (either node (mean_term t))

    pub mean_term : Term → Node
    mean_term (term f fs) = mean_factors fs (mean_factor f)

    pub mean_factors : Factors → Node → Node
    mean_factors no_factors node = node
    mean_factors (and_factor f fs) node = mean_factors fs (both node (mean_factor f))

    pub mean_factor : Factor → Node
    mean_factor (name n) = λ r. r n
    mean_factor (inverse f) = negate (mean_factor f)
    mean_factor (group e) = mean_expr e
    mean_factor (some_of c g) = compile_of c g names

-- a selection that is no keyword, and a count
abbrev pub IsPlain : Text → Type 0
IsPlain n = (is_count n ≡ false) × ((lower n == word_not) ≡ false) × ((n == open_paren) ≡ false)

abbrev pub Counts : Text → Type 0
Counts c = (is_count c ≡ true) × ((lower c == word_not) ≡ false) × ((c == open_paren) ≡ false)

-- Every selection that a condition names is plain, and every aggregate has a count.
unfoldable mutual
  pub IsExpr : Expr → Type 0
  IsExpr (expr t ts) = IsTerm t × AreTerms ts

  pub AreTerms : Terms → Type 0
  AreTerms no_terms = Unit
  AreTerms (or_term t ts) = IsTerm t × AreTerms ts

  pub IsTerm : Term → Type 0
  IsTerm (term f fs) = IsFactor f × AreFactors fs

  pub AreFactors : Factors → Type 0
  AreFactors no_factors = Unit
  AreFactors (and_factor f fs) = IsFactor f × AreFactors fs

  pub IsFactor : Factor → Type 0
  IsFactor (name n) = IsPlain n
  IsFactor (inverse f) = IsFactor f
  IsFactor (group e) = IsExpr e
  IsFactor (some_of c g) = Counts c

-- A condition's tokens are at least one more than what follows.
mutual
  unfolding print_expr

  pub expr_longer : (e : Expr) (rest : List Text) → length rest + 1 ≤ length (print_expr e rest)
  expr_longer (expr t ts) rest =
      omega (arith, term_longer t (print_terms ts rest), terms_longer ts rest)

  terms_longer : (ts : Terms) (rest : List Text) → length rest ≤ length (print_terms ts rest)
  terms_longer no_terms rest = omega arith
  terms_longer (or_term t ts) rest =
      omega (arith, term_longer t (print_terms ts rest), terms_longer ts rest)

  term_longer : (t : Term) (rest : List Text) → length rest + 1 ≤ length (print_term t rest)
  term_longer (term f fs) rest =
      omega (arith, factor_longer f (print_factors fs rest), factors_longer fs rest)

  factors_longer : (fs : Factors) (rest : List Text) → length rest ≤ length (print_factors fs rest)
  factors_longer no_factors rest = omega arith
  factors_longer (and_factor f fs) rest =
      omega (arith, factor_longer f (print_factors fs rest), factors_longer fs rest)

  factor_longer : (f : Factor) (rest : List Text) → length rest + 1 ≤ length (print_factor f rest)
  factor_longer (name n) rest = omega arith
  factor_longer (inverse f) rest = omega (arith, factor_longer f rest)
  factor_longer (group e) rest = omega (arith, expr_longer e (close_paren ∷ rest))
  factor_longer (some_of c g) rest = omega arith

-- where the loops stop
no_or :
    (ts : Terms) (rest : List Text)
    → next_is word_and rest ≡ false
    → next_is word_and (print_terms ts rest) ≡ false
unfolding print_expr lower
no_or no_terms rest h = h
no_or (or_term t ts) rest h = refl

lead_plain : (n : Text) (rest : List Text) → IsPlain n → lead_of n rest ≡ selection
unfolding lead_of
lead_plain n rest (a, b, c) = rw (b, c, a)

lead_count : (c g : Text) (rest : List Text) → Counts c → lead_of c (word_of ∷ g ∷ rest) ≡ aggregate
unfolding lead_of lower
lead_count c g rest (a, b, d) = rw (b, d, a)

module _ (names : List Text) (f : ℕ) (node : Node) (ts : List Text) where
  expr_loop_or :
      expr_loop names (suc f) node (word_or ∷ ts)
      ≡ bind (parse_term names f ts) (λ rhs rest. expr_loop names f (either node rhs) rest)
  unfolding parse_expr lower
  expr_loop_or = refl

  term_loop_and :
      term_loop names (suc f) node (word_and ∷ ts)
      ≡ bind (parse_factor names f ts) (λ rhs rest. term_loop names f (both node rhs) rest)
  unfolding parse_expr lower
  term_loop_and = refl

module _ (names : List Text) (f : ℕ) (ts : List Text) where
  parse_factor_name :
      (n : Text) → IsPlain n → parse_factor names (suc f) (n ∷ ts) ≡ parsed (λ r. r n) ts
  unfolding parse_expr
  parse_factor_name n plain = rw (lead_plain n ts plain, parse_factor) refl

  parse_factor_not :
      parse_factor names (suc f) (word_not ∷ ts)
      ≡ bind (parse_factor names f ts) (λ operand rest. parsed (negate operand) rest)
  unfolding parse_expr lead_of lower
  parse_factor_not = refl

  parse_factor_open :
      parse_factor names (suc f) (open_paren ∷ ts)
      ≡ bind (parse_expr names f ts) (λ node rest. parsed node (skip_close rest))
  unfolding parse_expr lead_of lower
  parse_factor_open = refl

  parse_factor_count :
      (c g : Text)
      → Counts c
      → parse_factor names (suc f) (c ∷ word_of ∷ g ∷ ts) ≡ parsed (compile_of c g names) ts
  unfolding parse_expr read_group
  parse_factor_count c g counts = rw (lead_count c g ts counts, parse_factor) refl

lead_close :
    (rest : List Text)
    → (next_is word_and (close_paren ∷ rest) ≡ false)
      × (next_is word_or (close_paren ∷ rest) ≡ false)
unfolding lower
lead_close rest = (refl, refl)

module _ (names : List Text) where
  mutual
    unfolding print_expr mean_expr IsExpr parse_expr read_group

    read_expr :
        (f : ℕ) (e : Expr) (rest : List Text)
        → 4 * length (print_expr e rest) + 3 ≤ f
        → next_is word_and rest ≡ false
        → next_is word_or rest ≡ false
        → IsExpr e
        → parse_expr names f (print_expr e rest) ≡ parsed (mean_expr names e) rest
    read_expr zero (expr t ts) rest h na nor w = absurd (omega (arith, h))
    read_expr (suc f) (expr t ts) rest h na nor (wt, wts) =
        let whole = term_longer t (print_terms ts rest) in
        rw (read_term f t (print_terms ts rest) (omega (arith, h)) (no_or ts rest na) wt)
          (read_terms f ts (mean_term names t) rest (omega (arith, h, whole)) na nor wts)

    read_terms :
        (f : ℕ) (ts : Terms) (node : Node) (rest : List Text)
        → 4 * length (print_terms ts rest) + 1 ≤ f
        → next_is word_and rest ≡ false
        → next_is word_or rest ≡ false
        → AreTerms ts
        → expr_loop names f node (print_terms ts rest) ≡ parsed (mean_terms names ts node) rest
    read_terms zero ts node rest h na nor w = absurd (omega (arith, h))
    read_terms (suc f) no_terms node rest h na nor w = rw (nor, expr_loop) refl
    read_terms (suc f) (or_term t ts) node rest h na nor (wt, wts) =
        let whole = term_longer t (print_terms ts rest) in
        rw
          (
            expr_loop_or names f node (print_term t (print_terms ts rest)),
            read_term f t (print_terms ts rest) (omega (arith, h)) (no_or ts rest na) wt,
          )
          (read_terms f ts (either node (mean_term names t)) rest (omega (arith, h, whole)) na nor
            wts)

    read_term :
        (f : ℕ) (t : Term) (rest : List Text)
        → 4 * length (print_term t rest) + 2 ≤ f
        → next_is word_and rest ≡ false
        → IsTerm t
        → parse_term names f (print_term t rest) ≡ parsed (mean_term names t) rest
    read_term zero (term g gs) rest h na w = absurd (omega (arith, h))
    read_term (suc f) (term g gs) rest h na (wg, wgs) =
        let whole = factor_longer g (print_factors gs rest) in
        rw (read_factor f g (print_factors gs rest) (omega (arith, h)) wg)
          (read_factors f gs (mean_factor names g) rest (omega (arith, h, whole)) na wgs)

    read_factors :
        (f : ℕ) (gs : Factors) (node : Node) (rest : List Text)
        → 4 * length (print_factors gs rest) + 1 ≤ f
        → next_is word_and rest ≡ false
        → AreFactors gs
        → term_loop names f node (print_factors gs rest) ≡ parsed (mean_factors names gs node) rest
    read_factors zero gs node rest h na w = absurd (omega (arith, h))
    read_factors (suc f) no_factors node rest h na w = rw (na, term_loop) refl
    read_factors (suc f) (and_factor g gs) node rest h na (wg, wgs) =
        let whole = factor_longer g (print_factors gs rest) in
        rw
          (
            term_loop_and names f node (print_factor g (print_factors gs rest)),
            read_factor f g (print_factors gs rest) (omega (arith, h)) wg,
          )
          (read_factors f gs (both node (mean_factor names g)) rest (omega (arith, h, whole)) na
            wgs)

    read_factor :
        (f : ℕ) (g : Factor) (rest : List Text)
        → 4 * length (print_factor g rest) + 1 ≤ f
        → IsFactor g
        → parse_factor names f (print_factor g rest) ≡ parsed (mean_factor names g) rest
    read_factor zero g rest h w = absurd (omega (arith, h))
    read_factor (suc f) (name n) rest h w = parse_factor_name names f rest n w
    read_factor (suc f) (inverse g) rest h w =
        rw (
          parse_factor_not names f (print_factor g rest),
          read_factor f g rest (omega (arith, h)) w,
        )
    read_factor (suc f) (group e) rest h w =
        let (na, nor) = lead_close rest in
        rw (
          parse_factor_open names f (print_expr e (close_paren ∷ rest)),
          read_expr f e (close_paren ∷ rest) (omega (arith, h)) na nor w,
        )
    read_factor (suc f) (some_of c k) rest h w = parse_factor_count names f rest c k w

  -- The parser gives the meaning of a printed condition and leaves no token.
  pub compile_tokens-print :
      (e : Expr) → IsExpr e → compile_tokens names (print_expr e []) ≡ parsed (mean_expr names e) []
  unfolding compile_tokens
  compile_tokens-print e w =
      read_expr (fuel_for names (print_expr e [])) e [] (omega arith) refl refl w
