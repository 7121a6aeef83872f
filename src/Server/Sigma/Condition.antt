-- ===== src/Server/Sigma/Condition.antt =====
-- The condition of a Sigma rule: `_tokenize`, `_compile_condition` and `_compile_of` of
-- server/app/detection/sigma.py. The parser builds the test directly, as the code's closures do. What a
-- call leaves of the tokens is no structural part of them, so each call costs a unit of fuel.
pub mod Fuel
pub mod Reading
pub mod Tokens
use mathlib.Core.Option
use silentguard_xdr.Server.NetMatch.{starts_with}
use silentguard_xdr.Prelude.{
  ℕ, zero, suc, ◌+◌, ◌-◌, ◌*◌, Bool, true, false, not, ◌&&◌, ◌||◌, Option, none, some, List, [],
  ◌∷◌, ◌++◌, ltb, leb, if◌then◌else◌, ◌==◌, nat_eq, string_eq, option_eq, list_eq, length, all,
}
use silentguard_xdr.Prelude.Table.{select, count}
use silentguard_xdr.Prelude.Text.{Text, codes, is_digit, is_space, lower}

-- `results.get(name)`, and the test that a condition compiles to
abbrev pub Results : Type 0
Results = Text → Bool

abbrev pub Node : Type 0
Node = Results → Bool

-- The outcome of a call: a node with the tokens that are left, or the IndexError of `advance`.
pub data Parse : Type 0 where
  parsed : Node → List Text → Parse
  index_error : Parse
  out_of_fuel : Parse

abbrev pub bind : Parse → (Node → List Text → Parse) → Parse
bind (parsed n rest) k = k n rest
bind index_error k = index_error
bind out_of_fuel k = out_of_fuel

-- `s.split()`: the pieces between blanks
unfoldable pub push_char : ℕ → Bool → List Text → List Text
push_char c true pieces = (c ∷ []) ∷ pieces
push_char c false [] = (c ∷ []) ∷ []
push_char c false (p ∷ pieces) = (c ∷ p) ∷ pieces

abbrev pub starts_blank : Text → Bool
starts_blank [] = true
starts_blank (c ∷ s) = is_space c

unfoldable pub words : Text → List Text
unfolding push_char
words [] = []
words (c ∷ s) = let rest = words s in if is_space c then rest else push_char c (starts_blank s) rest

-- `.replace("(", " ( ").replace(")", " ) ")`
unfoldable pub space_out : Text → Text
space_out [] = []
space_out (c ∷ s) =
    let rest = space_out s in if c == b'(' || c == b')' then 32 ∷ c ∷ 32 ∷ rest else c ∷ rest

-- `_tokenize`
unfoldable pub tokenize : Text → List Text
unfolding words space_out
tokenize condition = words (space_out condition)

-- `(peek() or "").lower() == word`
abbrev pub next_is : Text → List Text → Bool
next_is word [] = false
next_is word (t ∷ ts) = lower t == word

abbrev pub tail : List Text → List Text
tail [] = []
tail (t ∷ ts) = ts

abbrev pub is_number : Text → Bool
is_number [] = false
is_number (c ∷ s) = all is_digit (c ∷ s)

-- `(low in ("all", "any", "1") or low.isdigit())`
abbrev pub is_count : Text → Bool
is_count t =
    lower t == codes "all" || lower t == codes "any" || lower t == codes "1" || is_number (lower t)

abbrev pub number_of : ℕ → Text → ℕ
number_of n [] = n
number_of n (c ∷ s) = number_of (n * 10 + (c - b'0')) s

-- `g[:-1]` of a text that ends with `*`
abbrev pub stem : Text → Option Text
stem [] = none
stem (c ∷ []) = if c == b'*' then some [] else none
stem (c ∷ d ∷ s) = Option.map (λ t. c ∷ t) (stem (d ∷ s))

-- the targets of a group
unfoldable pub targets_of : Text → List Text → List Text
unfolding starts_with
targets_of group names =
    let g = lower group in
    if g == codes "them" then names else elim (stem g) [
      | some prefix ↦ select (λ n. starts_with prefix (lower n)) names
      | none ↦ select (λ n. lower n == g) names
    ]

-- `_compile_of`
unfoldable pub compile_of : Text → Text → List Text → Node
unfolding targets_of
compile_of count_word group names results =
    let targets = targets_of group names in
    let hits = count results targets in
    if lower count_word == codes "all"
    then ltb 0 (length targets) && hits == length targets
    else if lower count_word == codes "any" || lower count_word == codes "1"
    then leb 1 hits
    else leb (number_of 0 count_word) hits

abbrev pub word_and : Text
word_and = codes "and"

abbrev pub word_or : Text
word_or = codes "or"

abbrev pub word_not : Text
word_not = codes "not"

abbrev pub word_of : Text
word_of = codes "of"

abbrev pub open_paren : Text
open_paren = codes "("

abbrev pub close_paren : Text
close_paren = codes ")"

abbrev pub both : Node → Node → Node
both a b r = a r && b r

abbrev pub either : Node → Node → Node
either a b r = a r || b r

abbrev pub negate : Node → Node
negate a r = not (a r)

-- `if peek() == ")": advance()`
abbrev pub skip_close : List Text → List Text
skip_close [] = []
skip_close (t ∷ ts) = if t == close_paren then ts else t ∷ ts

-- the kinds of a factor's first token
pub data Lead : Type 0 where
  negation parenthesis aggregate selection : Lead

unfoldable pub lead_of : Text → List Text → Lead
lead_of t ts =
    if lower t == word_not
    then negation
    else if t == open_paren
    then parenthesis
    else if is_count t && next_is word_of ts
    then aggregate
    else selection

-- the branch of an aggregate behind its count: `of`, then the group
unfoldable pub read_group : List Text → Text → List Text → Parse
unfolding compile_of
read_group names t (of ∷ group ∷ ts) = parsed (compile_of t group names) ts
read_group names t ts = index_error

module _ (names : List Text) where
  unfoldable mutual
    unfolding lead_of read_group

    -- `parse_expr`, and its loop
    pub parse_expr : ℕ → List Text → Parse
    parse_expr zero ts = out_of_fuel
    parse_expr (suc f) ts = bind (parse_term f ts) (λ node rest. expr_loop f node rest)

    pub expr_loop : ℕ → Node → List Text → Parse
    expr_loop zero node ts = out_of_fuel
    expr_loop (suc f) node ts = elim (next_is word_or ts) [
      | true ↦ bind (parse_term f (tail ts)) (λ rhs rest. expr_loop f (either node rhs) rest)
      | false ↦ parsed node ts
    ]

    -- `parse_term`, and its loop
    pub parse_term : ℕ → List Text → Parse
    parse_term zero ts = out_of_fuel
    parse_term (suc f) ts = bind (parse_factor f ts) (λ node rest. term_loop f node rest)

    pub term_loop : ℕ → Node → List Text → Parse
    term_loop zero node ts = out_of_fuel
    term_loop (suc f) node ts = elim (next_is word_and ts) [
      | true ↦ bind (parse_factor f (tail ts)) (λ rhs rest. term_loop f (both node rhs) rest)
      | false ↦ parsed node ts
    ]

    -- `parse_factor`
    pub parse_factor : ℕ → List Text → Parse
    parse_factor zero ts = out_of_fuel
    parse_factor (suc f) [] = parsed (λ r. false) []
    parse_factor (suc f) (t ∷ ts) = elim (lead_of t ts) [
      | negation ↦ bind (parse_factor f ts) (λ operand rest. parsed (negate operand) rest)
      | parenthesis ↦ bind (parse_expr f ts) (λ node rest. parsed node (skip_close rest))
      | aggregate ↦ read_group names t ts
      | selection ↦ parsed (λ r. r t) ts
    ]

  -- the fuel that is enough for a list of tokens
  abbrev pub fuel_for : List Text → ℕ
  fuel_for ts = 4 * length ts + 3

  -- `_compile_condition` on the tokens: what `parse_expr` returns
  unfoldable pub compile_tokens : List Text → Parse
  compile_tokens ts = parse_expr (fuel_for ts) ts

  -- `" and ".join(names)`, where the rule has no condition
  abbrev pub joined : List Text → Text
  joined [] = []
  joined (n ∷ []) = n
  joined (n ∷ m ∷ ns) = n ++ codes " and " ++ joined (m ∷ ns)

  -- `_compile_condition`
  unfoldable pub compile_condition : Text → Parse
  unfolding compile_tokens tokenize
  compile_condition condition =
      compile_tokens (tokenize (if condition == [] then joined names else condition))

-- a list of conditions, `" or ".join(f"( {c} )" for c in condition)`
abbrev pub any_condition : List Text → Text
any_condition [] = []
any_condition (c ∷ []) = codes "( " ++ c ++ codes " )"
any_condition (c ∷ d ∷ cs) = codes "( " ++ c ++ codes " ) or " ++ any_condition (d ∷ cs)
