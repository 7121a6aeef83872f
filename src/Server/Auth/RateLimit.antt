-- ===== src/Server/Auth/RateLimit.antt =====
-- The sliding window of `_rate_limited`. Times are in seconds; the lock of the module makes a call
-- one step.
pub mod Window
use silentguard_xdr.Prelude.{
  ℕ, ◌-◌, Bool, true, false, List, [], ◌∷◌, ◌++◌, ltb, leb, if◌then◌else◌, ◌==◌, nat_eq, string_eq,
  option_eq, list_eq, length,
}
use silentguard_xdr.Prelude.Text.{Text}

-- `while dq and now - dq[0] > window: dq.popleft()`
unfoldable pub expire : ℕ → ℕ → List ℕ → List ℕ
expire window now [] = []
expire window now (t ∷ dq) =
    let rest = expire window now dq in if ltb window (now - t) then rest else t ∷ dq

-- the rest of the call, on the deque of its key: whether it is refused, and the deque afterwards
unfoldable pub admit : ℕ → ℕ → List ℕ → Bool × List ℕ
admit limit now dq = if leb limit (length dq) then (true, dq) else (false, dq ++ now ∷ [])

unfoldable pub rate_limited_deque : ℕ → ℕ → ℕ → List ℕ → Bool × List ℕ
unfolding admit
rate_limited_deque limit window now dq = admit limit now (expire window now dq)

-- `_attempts`, a `defaultdict` of deques
abbrev pub Attempts : Type 0
Attempts = List (Text × List ℕ)

unfoldable pub deque_of : Text → Attempts → List ℕ
deque_of key [] = []
deque_of key ((k, dq) ∷ rest) = if k == key then dq else deque_of key rest

unfoldable pub set_deque : Text → List ℕ → Attempts → Attempts
set_deque key dq [] = (key, dq) ∷ []
set_deque key dq ((k, old) ∷ rest) =
    if k == key then (k, dq) ∷ rest else (k, old) ∷ set_deque key dq rest

-- `_rate_limited(key)`
unfoldable pub rate_limited : ℕ → ℕ → ℕ → Text → Attempts → Bool × Attempts
rate_limited limit window now key attempts =
    let (refused, dq) = rate_limited_deque limit window now (deque_of key attempts) in
    (refused, set_deque key dq attempts)
