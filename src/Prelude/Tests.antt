-- ===== src/Prelude/Tests.antt =====
-- Boolean tests, the conditional, and equality tests as an interface.
use Prim.Native.Nat.{ℕ, compare, Ordering}
use Prim.Native.String.{String}
use mathlib.Core.Path.{◌≡◌, refl, ap}
use mathlib.Core.Logic.{◌↔◌, ◌⊎◌, inl, inr}
use mathlib.Core.Bool.{Bool, true, false, ◌&&◌}
use mathlib.Core.Option.{Option, none, some}
use mathlib.Core.List.{List, [], ◌∷◌}
use native.Mathlib.Omega.{arith}
use text.Mathlib.Text.{◌==◌ as str_eq}
use text.Mathlib.TextEquality.{eq_iff}

abbrev pub ltb : ℕ → ℕ → Bool
ltb a b = elim (compare a b) [ Ordering.lt ↦ true | _ ↦ false ]

abbrev pub leb : ℕ → ℕ → Bool
leb a b = elim (compare a b) [ Ordering.gt ↦ false | _ ↦ true ]

abbrev pub nat_eqb : ℕ → ℕ → Bool
nat_eqb a b = elim (compare a b) [ Ordering.eq ↦ true | _ ↦ false ]

infix 1 if◌then◌else◌
abbrev pub if◌then◌else◌ {ℓ} : {A : Type ℓ} → Bool → A → A → A
if true then x else y = x
if false then x else y = y

pub nat_eqb_iff : (a b : ℕ) → (nat_eqb a b ≡ true) ↔ (a ≡ b)
nat_eqb_iff a b = ground arith

-- A test of equality that decides it.
pub record Equality {ℓ} (A : Type ℓ) : Type ℓ where
  pub test : A → A → Bool
  pub decides : (a b : A) → (test a b ≡ true) ↔ (a ≡ b)

infix 50 ◌==◌
abbrev pub ◌==◌ {ℓ} : {A : Type ℓ} ⦃e : Equality A⦄ → A → A → Bool
◌==◌ ⦃e⦄ = e.test

-- To split on a computed value and keep the equation.
pub Bool-cases : (b : Bool) → (b ≡ true) ⊎ (b ≡ false)
Bool-cases true = inl refl
Bool-cases false = inr refl

pub Option-cases {ℓ} : {A : Type ℓ} (o : Option A) → (o ≡ none) ⊎ ((a : A) × (o ≡ some a))
Option-cases none = inl refl
Option-cases (some a) = inr (a, refl)

instance abbrev pub string_eq : Equality String
string_eq = record { test = str_eq; decides = eq_iff }

instance abbrev pub nat_eq : Equality ℕ
nat_eq = record { test = nat_eqb; decides = nat_eqb_iff }

abbrev pub option_eqb {ℓ} : {A : Type ℓ} ⦃e : Equality A⦄ → Option A → Option A → Bool
option_eqb none none = true
option_eqb none (some b) = false
option_eqb (some a) none = false
option_eqb (some a) (some b) = a == b

pub option_eqb_iff {ℓ} :
    {A : Type ℓ} ⦃e : Equality A⦄ (a b : Option A) → (option_eqb a b ≡ true) ↔ (a ≡ b)
option_eqb_iff none none = ((λ _. refl), (λ _. refl))
option_eqb_iff none (some b) = ((λ h. cc), (λ h. cc))
option_eqb_iff (some a) none = ((λ h. cc), (λ h. cc))
option_eqb_iff ⦃e⦄ (some a) (some b) =
    ((λ h. ap some ((e.decides a b).0 h)), (λ h. (e.decides a b).1 (cc h)))

instance abbrev pub option_eq {ℓ} : {A : Type ℓ} ⦃e : Equality A⦄ → Equality (Option A)
option_eq = record { test = option_eqb; decides = option_eqb_iff }

abbrev pub list_eqb {ℓ} : {A : Type ℓ} ⦃e : Equality A⦄ → List A → List A → Bool
list_eqb [] [] = true
list_eqb [] (y ∷ ys) = false
list_eqb (x ∷ xs) [] = false
list_eqb (x ∷ xs) (y ∷ ys) = x == y && list_eqb xs ys

pub list_eqb_iff {ℓ} :
    {A : Type ℓ} ⦃e : Equality A⦄ (a b : List A) → (list_eqb a b ≡ true) ↔ (a ≡ b)
list_eqb_iff [] [] = ((λ _. refl), (λ _. refl))
list_eqb_iff [] (y ∷ ys) = ((λ h. cc), (λ h. cc))
list_eqb_iff (x ∷ xs) [] = ((λ h. cc), (λ h. cc))
list_eqb_iff ⦃e⦄ (x ∷ xs) (y ∷ ys) =
    let head = e.decides x y in
    let rest = list_eqb_iff xs ys in
    ((λ h. ground (arith, head, rest)), (λ h. ground (arith, head, rest)))

instance abbrev pub list_eq {ℓ} : {A : Type ℓ} ⦃e : Equality A⦄ → Equality (List A)
list_eq = record { test = list_eqb; decides = list_eqb_iff }

pub beq_refl {ℓ} : {A : Type ℓ} ⦃e : Equality A⦄ (a : A) → (a == a) ≡ true
beq_refl ⦃e⦄ a = (e.decides a a).1 refl

pub eq_of_beq {ℓ} : {A : Type ℓ} ⦃e : Equality A⦄ (a b : A) → (a == b) ≡ true → a ≡ b
eq_of_beq ⦃e⦄ a b = (e.decides a b).0
