-- ===== src/Prelude/Text.antt =====
-- Text as the list of its code points, where the program walks it. Case and blanks are ASCII's.
use Prim.Native.Nat.{ℕ, ◌+◌, ◌-◌, Ordering, compare}
use mathlib.Core.Path.{◌≡◌, refl}
use Prim.Native.Char.{Char, char, code, nul}
use Prim.Native.String.{String}
use mathlib.Core.Bool.{Bool, true, false, ◌&&◌, ◌||◌}
use mathlib.Core.List.{List, [], ◌∷◌, map, reverse}
use silentguard_xdr.Prelude.Tests.{leb, nat_eqb, if◌then◌else◌}
use silentguard_xdr.Prelude.Lists.{all}

abbrev pub Text : Type 0
Text = List ℕ

abbrev pub codes : String → Text
codes String.[] = []
codes (String.◌∷◌ c s) = code c ∷ codes s

abbrev scalar_or_nul : (n : ℕ) (o : Ordering) → compare n 55296 ≡ o → Char
scalar_or_nul n Ordering.lt below = char n (rw below tt)
scalar_or_nul n _ below = nul

-- the native text, of code points below U+D800
unfoldable pub string_of : Text → String
string_of [] = String.[]
string_of (c ∷ s) = String.◌∷◌ (scalar_or_nul c (compare c 55296) refl) (string_of s)

abbrev pub is_upper : ℕ → Bool
is_upper c = leb b'A' c && leb c b'Z'

abbrev pub is_lower : ℕ → Bool
is_lower c = leb b'a' c && leb c b'z'

abbrev pub is_digit : ℕ → Bool
is_digit c = leb b'0' c && leb c b'9'

abbrev pub is_alpha : ℕ → Bool
is_alpha c = is_upper c || is_lower c

-- the blanks that `str.strip` and `str.split` take off
abbrev pub is_space : ℕ → Bool
is_space c = nat_eqb c 32 || (leb 9 c && leb c 13) || (leb 28 c && leb c 31)

unfoldable pub lower_char : ℕ → ℕ
lower_char c = if is_upper c then c + 32 else c

unfoldable pub upper_char : ℕ → ℕ
upper_char c = if is_lower c then c - 32 else c

-- `s.lower()`, `s.upper()`
unfoldable pub lower : Text → Text
unfolding lower_char
lower = map lower_char

unfoldable pub upper : Text → Text
unfolding upper_char
upper = map upper_char

pub drop_while : (ℕ → Bool) → Text → Text
drop_while p [] = []
drop_while p (c ∷ s) = let rest = drop_while p s in if p c then rest else c ∷ s

-- `s.lstrip(...)`, `s.rstrip(...)`, `s.strip()`
unfoldable pub lstrip_by : (ℕ → Bool) → Text → Text
unfolding drop_while
lstrip_by = drop_while

unfoldable pub rstrip_by : (ℕ → Bool) → Text → Text
unfolding drop_while
rstrip_by p s = reverse (drop_while p (reverse s))

unfoldable pub strip : Text → Text
unfolding lstrip_by rstrip_by
strip s = rstrip_by is_space (lstrip_by is_space s)

-- `s.isalpha()`
unfoldable pub is_alpha_text : Text → Bool
is_alpha_text [] = false
is_alpha_text (c ∷ s) = all is_alpha (c ∷ s)

-- one character before pieces that are already split
abbrev pub split_step : Bool → ℕ → List Text → List Text
split_step true d pieces = [] ∷ pieces
split_step false d [] = (d ∷ []) ∷ []
split_step false d (p ∷ pieces) = (d ∷ p) ∷ pieces

-- `s.split(c)`: the text up to the first `c`, and the pieces after it
unfoldable pub split_on : ℕ → Text → List Text
split_on c [] = [] ∷ []
split_on c (d ∷ s) = split_step (nat_eqb d c) d (split_on c s)
