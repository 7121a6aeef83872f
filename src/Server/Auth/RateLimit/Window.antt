-- ===== src/Server/Auth/RateLimit/Window.antt =====
-- No window of the configured length ever holds more admitted calls than the limit.
use silentguard_xdr.Server.Auth.RateLimit.{expire, rate_limited_deque}
use silentguard_xdr.Prelude.{
  ℕ, ◌+◌, ◌≤◌, ◌<◌, ◌≡◌, refl, inl, inr, Bool, ◌&&◌, List, [], ◌∷◌, ◌++◌, arith, leb, if◌then◌else◌,
  Bool-cases, length, length-append,
}
use silentguard_xdr.Prelude.Table.{count, count-append}

-- The times of the calls that were let through, of calls made at the given times.
pub admitted : ℕ → ℕ → List ℕ → List ℕ → List ℕ
admitted limit window [] dq = []
admitted limit window (t ∷ ts) dq =
    let (refused, dq') = rate_limited_deque limit window t dq in
    let rest = admitted limit window ts dq' in if refused then rest else t ∷ rest

-- The times do not go back.
abbrev pub Ordered : ℕ → List ℕ → Type 0
Ordered lo [] = Unit
Ordered lo (t ∷ ts) = (lo ≤ t) × Ordered t ts

-- `t` lies in the window that ends at `e`.
abbrev pub in_window : ℕ → ℕ → ℕ → Bool
in_window window e t = leb t e && leb e (t + window)

count-le-length : (p : ℕ → Bool) (xs : List ℕ) → count p xs ≤ length xs
count-le-length p [] = omega arith
count-le-length p (x ∷ xs) = ground (arith, count-le-length p xs)

length-expire : (w now : ℕ) (dq : List ℕ) → length (expire w now dq) ≤ length dq
unfolding expire
length-expire w now [] = omega arith
length-expire w now (t ∷ dq) = ground (arith, length-expire w now dq)

-- what `expire` drops lies in no later window
count-expire :
    (w now e : ℕ) (dq : List ℕ)
    → now ≤ e
    → count (in_window w e) (expire w now dq) ≡ count (in_window w e) dq
unfolding expire
count-expire w now e [] h = refl
count-expire w now e (t ∷ dq) h = ground (arith, count-expire w now e dq h)

-- calls after `e` are in no window that ends at `e`
count-admitted_later :
    (limit w e lo : ℕ) (ts dq : List ℕ)
    → e < lo
    → Ordered lo ts
    → count (in_window w e) (admitted limit w ts dq) ≡ 0
unfolding admitted rate_limited_deque
count-admitted_later limit w e lo [] dq h o = refl
count-admitted_later limit w e lo (t ∷ ts) dq h (lt, o) = ground (
  arith,
  count-admitted_later limit w e t ts (expire w t dq) (omega arith) o,
  count-admitted_later limit w e t ts (expire w t dq ++ t ∷ []) (omega arith) o,
)

count-window :
    (limit w e lo : ℕ) (ts dq : List ℕ)
    → Ordered lo ts
    → length dq ≤ limit
    → count (in_window w e) (dq ++ admitted limit w ts dq) ≤ limit
unfolding admitted rate_limited_deque
count-window limit w e lo [] dq o h =
    omega (arith, count-append (in_window w e) dq [], count-le-length (in_window w e) dq)
count-window limit w e lo (t ∷ ts) dq (lt, o) h =
    let kept = expire w t dq in
    let p = in_window w e in
    elim (Bool-cases (leb t e)) [
      | inl past ↦ ground (
        arith,
        count-expire w t e dq,
        length-expire w t dq,
        length-append kept (t ∷ []),
        count-append p kept (admitted limit w ts kept),
        count-append p dq (admitted limit w ts kept),
        count-append p dq (t ∷ admitted limit w ts (kept ++ t ∷ [])),
        count-append p kept (t ∷ []),
        count-append p (kept ++ t ∷ []) (admitted limit w ts (kept ++ t ∷ [])),
        count-window limit w e t ts kept o,
        count-window limit w e t ts (kept ++ t ∷ []) o,
      )
      | inr later ↦ ground (
        arith,
        count-le-length p dq,
        count-append p dq (admitted limit w ts kept),
        count-append p dq (t ∷ admitted limit w ts (kept ++ t ∷ [])),
        count-admitted_later limit w e t ts kept,
        count-admitted_later limit w e t ts (kept ++ t ∷ []),
        o,
      )
    ]

-- Of calls made in the order of their times, at most `limit` are admitted in any window.
pub admitted_window_bound :
    (limit window e : ℕ) (ts : List ℕ)
    → Ordered 0 ts
    → count (in_window window e) (admitted limit window ts []) ≤ limit
admitted_window_bound limit window e ts o = count-window limit window e 0 ts [] o (omega arith)
