-- ===== src/Server/Tests/Rules.antt =====
-- The theorems on the conditions of Sigma rules at a sample.
use silentguard_xdr.Server.Sigma.Condition.{compile_tokens, compile_condition, parsed, out_of_fuel}
use silentguard_xdr.Server.Sigma.Condition.Reading.{
  Expr, expr, term, name, inverse, some_of, and_factor, no_factors, or_term, no_terms, print_expr,
  mean_expr, IsExpr,
}
use silentguard_xdr.Server.Sigma.Condition.Fuel.{compile_tokens_ends}
use silentguard_xdr.Server.Sigma.Condition.Tokens.{spaced, compile_condition-print}
use silentguard_xdr.Prelude.{◌≡◌, refl, ◌≢◌, inr, List, [], ◌∷◌}
use silentguard_xdr.Prelude.Text.{Text, codes}

-- `sel and not filter or all of them`
abbrev sample : Expr
sample =
    expr (term (name (codes "sel")) (and_factor (inverse (name (codes "filter"))) no_factors))
      (or_term (term (some_of (codes "all") (codes "them")) no_factors) no_terms)

abbrev selection_names : List Text
selection_names = codes "sel" ∷ codes "filter" ∷ []

compile_condition-print_example :
    compile_condition selection_names (spaced (print_expr sample []))
    ≡ parsed (mean_expr selection_names sample) []
unfolding IsExpr silentguard_xdr.Prelude.Text.lower print_expr
compile_condition-print_example =
    compile_condition-print selection_names sample
      ((((refl, refl, refl), ((refl, refl, refl), tt)), (((refl, refl, refl), tt), tt)))
      (
        inr refl,
        (inr refl, (inr refl, (inr refl, (inr refl, (inr refl, (inr refl, (inr refl, tt))))))),
      )

compile_tokens_ends_example :
    compile_tokens selection_names (codes "1" ∷ codes "of" ∷ []) ≢ out_of_fuel
compile_tokens_ends_example = compile_tokens_ends selection_names (codes "1" ∷ codes "of" ∷ [])
