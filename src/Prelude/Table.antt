-- ===== src/Prelude/Table.antt =====
-- A database table as the list of its rows, and the queries that the services make.
use Prim.Native.Nat.{ℕ, suc, ◌+◌}
use mathlib.Core.Path.{◌≡◌, refl}
use mathlib.Core.Bool.{Bool, true, false, ◌&&◌}
use mathlib.Core.Logic.{inl, inr}
use mathlib.Core.Option.{Option, none, some}
use mathlib.Core.List.{List, [], ◌∷◌, ◌++◌}
use native.Mathlib.Omega.{arith}
use silentguard_xdr.Prelude.Tests.{if◌then◌else◌, Bool-cases}
use silentguard_xdr.Prelude.{◌≤◌}

module _ {ℓ} {A : Type ℓ} where
  -- `db.query(A).filter(p).first()`
  abbrev pub find : (A → Bool) → List A → Option A
  find p [] = none
  find p (x ∷ xs) = if p x then some x else find p xs

  -- `db.query(A).filter(p).all()`
  abbrev pub select : (A → Bool) → List A → List A
  select p [] = []
  select p (x ∷ xs) = let rest = select p xs in if p x then x ∷ rest else rest

  -- `db.query(A).filter(p).count()`
  abbrev pub count : (A → Bool) → List A → ℕ
  count p [] = 0
  count p (x ∷ xs) = let rest = count p xs in if p x then suc rest else rest

  -- `UPDATE ... WHERE p`: an assignment to the loaded rows
  abbrev pub update : (A → Bool) → (A → A) → List A → List A
  update p f [] = []
  update p f (x ∷ xs) = (if p x then f x else x) ∷ update p f xs

  -- `DELETE ... WHERE p`
  abbrev pub delete : (A → Bool) → List A → List A
  delete p [] = []
  delete p (x ∷ xs) = let rest = delete p xs in if p x then rest else x ∷ rest

module _ {ℓ} {A : Type ℓ} where
  -- Every row satisfies `P`.
  abbrev pub All {κ} : (A → Type κ) → List A → Type κ
  All P [] = Unit
  All P (x ∷ xs) = P x × All P xs

  pub All-select {κ} :
      (P : A → Type κ) (p : A → Bool) (xs : List A) → All P xs → All P (select p xs)
  All-select P p [] h = tt
  All-select P p (x ∷ xs) h = elim (Bool-cases (p x)) [
    | inl hit ↦ rw hit (h.0, All-select P p xs h.1)
    | inr miss ↦ rw miss (All-select P p xs h.1)
  ]

  pub All-update {κ} :
      {P : A → Type κ} (p : A → Bool) (f : A → A) (xs : List A)
      → ((x : A) → P x → p x ≡ true → P (f x))
      → All P xs
      → All P (update p f xs)
  All-update p f [] keep h = tt
  All-update p f (x ∷ xs) keep h = elim (Bool-cases (p x)) [
    | inl hit ↦ rw hit (keep x h.0 hit, All-update p f xs keep h.1)
    | inr miss ↦ rw miss (h.0, All-update p f xs keep h.1)
  ]

  pub All-append {κ} : (P : A → Type κ) (xs ys : List A) → All P xs → All P ys → All P (xs ++ ys)
  All-append P [] ys hx hy = hy
  All-append P (x ∷ xs) ys hx hy = (hx.0, All-append P xs ys hx.1 hy)

  -- What a search finds satisfies its test, and what all rows satisfy.
  pub find_test : (p : A → Bool) (xs : List A) {a : A} → find p xs ≡ some a → p a ≡ true
  find_test p [] h = cc
  find_test p (x ∷ xs) {a} h = elim (Bool-cases (p x)) [
    | inl hit ↦ let e : some x ≡ some a = rw hit at h in ground (arith, e, hit)
    | inr miss ↦ find_test p xs (rw miss at h)
  ]

  -- An update that keeps the test and is applied to the row found.
  pub find-update_self :
      (p : A → Bool) (f : A → A) (xs : List A) {a : A}
      → ((x : A) → p (f x) ≡ p x)
      → find p xs ≡ some a
      → find p (update p f xs) ≡ some (f a)
  find-update_self p f [] keep h = cc
  find-update_self p f (x ∷ xs) keep h = elim (Bool-cases (p x)) [
    | inl hit ↦ ground (arith, keep x, hit)
    | inr miss ↦ rw miss (rw miss (find-update_self p f xs keep (rw miss at h)))
  ]

  -- An update of rows that changes no test and no row that the search accepts.
  pub find-update_other :
      (p q : A → Bool) (f : A → A) (xs : List A)
      → ((x : A) → q (f x) ≡ q x)
      → ((x : A) → q x ≡ true → p x ≡ false)
      → find q (update p f xs) ≡ find q xs
  find-update_other p q f [] keep apart = refl
  find-update_other p q f (x ∷ xs) keep apart =
      ground (arith, keep x, apart x, find-update_other p q f xs keep apart)

  pub find-append :
      (p : A → Bool) (xs ys : List A) {a : A} → find p xs ≡ some a → find p (xs ++ ys) ≡ some a
  find-append p [] ys h = cc
  find-append p (x ∷ xs) ys {a} h = ground (arith, find-append p xs ys {a = a})

  pub count-append : (p : A → Bool) (xs ys : List A) → count p (xs ++ ys) ≡ count p xs + count p ys
  count-append p [] ys = omega arith
  count-append p (x ∷ xs) ys = ground (arith, count-append p xs ys)

  pub count-update :
      (p q : A → Bool) (f : A → A) (xs : List A)
      → ((x : A) → q (f x) ≡ q x)
      → count q (update p f xs) ≡ count q xs
  count-update p q f [] keep = refl
  count-update p q f (x ∷ xs) keep = ground (arith, keep x, count-update p q f xs keep)

  pub All-select_test {κ} :
      (p : A → Bool) (P : A → Type κ) (xs : List A)
      → ((x : A) → p x ≡ true → P x)
      → All P (select p xs)
  All-select_test p P [] h = tt
  All-select_test p P (x ∷ xs) h = elim (Bool-cases (p x)) [
    | inl hit ↦ rw hit (h x hit, All-select_test p P xs h)
    | inr miss ↦ rw miss (All-select_test p P xs h)
  ]

  -- Counting in what was selected is counting by both tests.
  pub count-select :
      (q p : A → Bool) (xs : List A) → count (λ x. q x && p x) xs ≡ count q (select p xs)
  count-select q p [] = refl
  count-select q p (x ∷ xs) = ground (arith, count-select q p xs)

  -- A search by a test that an update keeps finds the same row, updated if it was to be.
  pub find-update :
      (p q : A → Bool) (f : A → A) (xs : List A) {a : A}
      → ((x : A) → p (f x) ≡ p x)
      → find p xs ≡ some a
      → find p (update q f xs) ≡ some (if q a then f a else a)
  find-update p q f [] keep h = cc
  find-update p q f (x ∷ xs) {a} keep h = ground (arith, keep x, find-update p q f xs {a = a} keep)

  pub find-update-none :
      (p q : A → Bool) (f : A → A) (xs : List A)
      → ((x : A) → p (f x) ≡ p x)
      → find p xs ≡ none
      → find p (update q f xs) ≡ none
  find-update-none p q f [] keep h = refl
  find-update-none p q f (x ∷ xs) keep h = ground (arith, keep x, find-update-none p q f xs keep)

  pub find-none_append :
      (p : A → Bool) (xs ys : List A) → find p xs ≡ none → find p (xs ++ ys) ≡ find p ys
  find-none_append p [] ys h = refl
  find-none_append p (x ∷ xs) ys h = ground (arith, find-none_append p xs ys)

  -- an update that makes no row pass the test
  pub find-update_fewer :
      (p q : A → Bool) (f : A → A) (xs : List A)
      → ((x : A) → p x ≡ false → p (f x) ≡ false)
      → find p xs ≡ none
      → find p (update q f xs) ≡ none
  find-update_fewer p q f [] keep h = refl
  find-update_fewer p q f (x ∷ xs) keep h = ground (arith, keep x, find-update_fewer p q f xs keep)

  pub find-count_zero : (p : A → Bool) (xs : List A) → count p xs ≡ 0 → find p xs ≡ none
  find-count_zero p [] h = refl
  find-count_zero p (x ∷ xs) h = ground (arith, find-count_zero p xs)

  pub count-update_le :
      (p q : A → Bool) (f : A → A) (xs : List A)
      → ((x : A) → p (f x) ≡ false)
      → count p (update q f xs) ≤ count p xs
  count-update_le p q f [] off = omega arith
  count-update_le p q f (x ∷ xs) off = ground (arith, off x, count-update_le p q f xs off)

  -- switching the row found off leaves one row fewer that passes
  pub count-update_off :
      (p q : A → Bool) (f : A → A) (xs : List A) {a : A}
      → ((x : A) → p (f x) ≡ false)
      → find p xs ≡ some a
      → q a ≡ true
      → count p (update q f xs) + 1 ≤ count p xs
  count-update_off p q f [] off h r = cc
  count-update_off p q f (x ∷ xs) {a} off h r =
      ground (arith, off x, count-update_le p q f xs off, count-update_off p q f xs {a = a} off)

  -- deleting rows that the search does not want
  pub find-delete :
      (p q : A → Bool) (xs : List A)
      → ((x : A) → p x ≡ true → q x ≡ false)
      → find p (delete q xs) ≡ find p xs
  find-delete p q [] apart = refl
  find-delete p q (x ∷ xs) apart = ground (arith, apart x, find-delete p q xs apart)
