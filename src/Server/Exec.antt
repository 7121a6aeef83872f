-- ===== src/Server/Exec.antt =====
-- A request handler or service call: it changes the state, and returns or raises. What was committed
-- before a raise stays; `atomic` is a call that commits only at its end.
use silentguard_xdr.Prelude.{ℕ, String, Bool, Option, none, some, List, [], ◌∷◌, if◌then◌else◌}

-- A message as an f-string: its texts and the values between them.
pub data Piece : Type 0 where
  lit : String → Piece
  nat : ℕ → Piece

-- `AuthError`, `ResponseError` and `HTTPException` carry the same two fields.
pub record HttpError : Type 0 where
  pub status_code : ℕ
  pub detail : List Piece

pub data Result (A : Type 0) : Type 0 where
  ok : A → Result A
  err : HttpError → Result A

abbrev pub Exec : Type 0 → Type 0 → Type 0
Exec S A = S → Result A × S

abbrev pub http : ℕ → String → HttpError
http code message = record { status_code = code; detail = lit message ∷ [] }

module _ {S A : Type 0} where
  abbrev pub pure : A → Exec S A
  pure a s = (ok a, s)

  abbrev pub raise : HttpError → Exec S A
  raise e s = (err e, s)

  abbrev pub gets : (S → A) → Exec S A
  gets f s = (ok (f s), s)

  abbrev pub or_raise : Option A → HttpError → Exec S A
  or_raise none e = raise e
  or_raise (some a) e = pure a

  -- The session is closed without a commit if the call raises.
  abbrev pub atomic : Exec S A → Exec S A
  atomic m s = let (r, t) = m s in elim r [ ok a ↦ (ok a, t) | err e ↦ (err e, s) ]

infixl 5 ◌>>=◌ ◌>>◌
abbrev pub ◌>>=◌ : {S A B : Type 0} → Exec S A → (A → Exec S B) → Exec S B
◌>>=◌ m f s = let (r, t) = m s in elim r [ ok a ↦ f a t | err e ↦ (err e, t) ]

abbrev pub ◌>>◌ : {S A B : Type 0} → Exec S A → Exec S B → Exec S B
m >> k = m >>= λ _. k

-- `if c: raise e`
abbrev pub raise_if : {S : Type 0} → Bool → HttpError → Exec S (Unit {0})
raise_if c e s = (if c then err e else ok tt, s)

abbrev pub modify : {S : Type 0} → (S → S) → Exec S (Unit {0})
modify f s = (ok tt, f s)
