-- ===== src/Server/NetMatch/Labels.antt =====
-- The ends of a host at its dots are the host and what follows each dot.
use silentguard_xdr.Server.NetMatch.{dot, ends_with, join_dots, ends_of}
use silentguard_xdr.Prelude.{
  ℕ, ◌≡◌, refl, sym, ap, ◌∙◌, inl, inr, List, [], ◌∷◌, arith, ◌==◌, nat_eq, string_eq, option_eq,
  list_eq, Bool-cases, any,
}
use silentguard_xdr.Prelude.Text.{Text, split_on}

-- a split has a first piece
pub split-cons : (s : Text) → (p : Text) × (ps : List Text) × (split_on dot s ≡ p ∷ ps)
unfolding split_on
split-cons [] = ([], [], refl)
split-cons (c ∷ s) =
    let (p, ps, e) = split-cons s in
    elim (Bool-cases (c == dot)) [
      | inl hit ↦ ([], split_on dot s, rw hit)
      | inr miss ↦ (c ∷ p, ps, rw (miss, e))
    ]

-- one more character at the front of the first piece
join-cons : (c : ℕ) (p : Text) (ps : List Text) → join_dots ((c ∷ p) ∷ ps) ≡ c ∷ join_dots (p ∷ ps)
unfolding join_dots
join-cons c p [] = refl
join-cons c p (q ∷ qs) = refl

join-empty : (p : Text) (ps : List Text) → join_dots ([] ∷ (p ∷ ps)) ≡ dot ∷ join_dots (p ∷ ps)
unfolding join_dots
join-empty p ps = refl

-- Joining what was split gives the text back.
pub join-split : (s : Text) → join_dots (split_on dot s) ≡ s
unfolding split_on
join-split [] = unfold join_dots in refl
join-split (c ∷ s) =
    let (p, ps, e) = split-cons s in
    let ih : join_dots (p ∷ ps) ≡ s = ap join_dots (sym e) ∙ join-split s in
    elim (Bool-cases (c == dot)) [
      | inl hit ↦ rw (hit, e, join-empty, ih) (ground arith)
      | inr miss ↦ rw (miss, e, join-cons, ih)
    ]

-- A host has the end `b` after a dot exactly if `b` is one of the ends after the first.
pub any-ends_of :
    (b s p : Text) (ps : List Text)
    → split_on dot s ≡ p ∷ ps
    → any (λ e. e == b) (ends_of ps) ≡ ends_with (dot ∷ b) s
unfolding split_on ends_with ends_of
any-ends_of b [] p ps e = ground arith
any-ends_of b (c ∷ s) p ps e =
    let (q, qs, f) = split-cons s in
    let ih = any-ends_of b s q qs f in
    let whole : join_dots (q ∷ qs) ≡ s = ap join_dots (sym f) ∙ join-split s in
    elim (Bool-cases (c == dot)) [
      | inl hit ↦ let e1 : ps ≡ q ∷ qs = ground arith in rw e1 (ground arith)
      | inr miss ↦ let e1 : ps ≡ qs = ground arith in rw e1 (ground arith)
    ]
