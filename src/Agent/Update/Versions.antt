-- ===== src/Agent/Update/Versions.antt =====
-- The order of versions, and the floor that updates leave.
use silentguard_xdr.Agent.Update.{
  target_of, parse_version, digits, pad, longer, lt, padded_lt, is_rollback, version_gt,
  UpdateCommand, TrustKeys, Verdict, remote_update, raised_floor, floor_after,
}
use silentguard_xdr.Prelude.{
  ℕ, zero, suc, ◌≤◌, String, ◌≡◌, refl, sym, ◌∙◌, Bool, true, false, not, ◌&&◌, ◌||◌, List, [], ◌∷◌,
  arith, ltb, length,
}
use silentguard_xdr.Prelude.Text.{Text, split_on}

-- the comparison that reads a piece that is missing as 0
unfoldable below : List ℕ → List ℕ → Bool
below [] [] = false
below [] (y ∷ ys) = ltb 0 y || below [] ys
below (x ∷ xs) [] = false
below (x ∷ xs) (y ∷ ys) = ltb x y || (not (ltb y x) && below xs ys)

lt-zeros : (n : ℕ) (xs : List ℕ) → length xs ≤ n → lt (pad n []) (pad n xs) ≡ below [] xs
unfolding below
lt-zeros zero [] h = refl
lt-zeros zero (x ∷ xs) h = ground arith
lt-zeros (suc n) [] h = ground (arith, lt-zeros n [])
lt-zeros (suc n) (x ∷ xs) h = ground (arith, lt-zeros n xs)

lt-pad_zeros : (n : ℕ) (xs : List ℕ) → length xs ≤ n → lt (pad n xs) (pad n []) ≡ false
lt-pad_zeros zero [] h = refl
lt-pad_zeros zero (x ∷ xs) h = ground arith
lt-pad_zeros (suc n) [] h = ground (arith, lt-pad_zeros n [])
lt-pad_zeros (suc n) (x ∷ xs) h = ground (arith, lt-pad_zeros n xs)

lt-pad :
    (n : ℕ) (xs ys : List ℕ)
    → length xs ≤ n
    → length ys ≤ n
    → lt (pad n xs) (pad n ys) ≡ below xs ys
unfolding below
lt-pad n [] ys hx hy = lt-zeros n ys hy
lt-pad n (x ∷ xs) [] hx hy = lt-pad_zeros n (x ∷ xs) hx
lt-pad zero (x ∷ xs) (y ∷ ys) hx hy = ground arith
lt-pad (suc n) (x ∷ xs) (y ∷ ys) hx hy = ground (arith, lt-pad n xs ys)

padded_lt-below : (xs ys : List ℕ) → padded_lt xs ys ≡ below xs ys
unfolding padded_lt
padded_lt-below xs ys = lt-pad (longer xs ys) xs ys (ground arith) (ground arith)

below_irrefl : (xs : List ℕ) → below xs xs ≡ false
unfolding below
below_irrefl [] = refl
below_irrefl (x ∷ xs) = ground (arith, below_irrefl xs)

below_asymm : (xs ys : List ℕ) → below xs ys ≡ true → below ys xs ≡ false
unfolding below
below_asymm [] [] h = refl
below_asymm [] (y ∷ ys) h = refl
below_asymm (x ∷ xs) [] h = ground arith
below_asymm (x ∷ xs) (y ∷ ys) h = ground (arith, below_asymm xs ys)

below_nil : (ys zs : List ℕ) → below [] ys ≡ false → below ys zs ≡ false → below [] zs ≡ false
unfolding below
below_nil [] zs hy hz = hz
below_nil (y ∷ ys) [] hy hz = refl
below_nil (y ∷ ys) (z ∷ zs) hy hz = ground (arith, below_nil ys zs)

below-nil : (xs : List ℕ) → below xs [] ≡ false
unfolding below
below-nil [] = refl
below-nil (x ∷ xs) = refl

-- not older is transitive
below_trans : (xs ys zs : List ℕ) → below xs ys ≡ false → below ys zs ≡ false → below xs zs ≡ false
unfolding below
below_trans [] ys zs hy hz = below_nil ys zs hy hz
below_trans (x ∷ xs) ys [] hy hz = refl
below_trans (x ∷ xs) [] (z ∷ zs) hy hz = ground (arith, below-nil xs, below_trans xs [] zs)
below_trans (x ∷ xs) (y ∷ ys) (z ∷ zs) hy hz = ground (arith, below_trans xs ys zs)

-- Of two versions, at most one is newer than the other, and a version is neither newer nor older than
-- itself.
pub version_order :
    (a b : Text)
    → (version_gt a b ≡ is_rollback b a)
      × (is_rollback a a ≡ false)
      × (is_rollback a b && version_gt a b ≡ false)
unfolding version_gt is_rollback
version_order a b =
    let ver = parse_version in
    let older = padded_lt-below (ver a) (ver b) in
    let newer = padded_lt-below (ver b) (ver a) in
    let apart = below_asymm (ver b) (ver a) in
    (refl, padded_lt-below (ver a) (ver a) ∙ below_irrefl (ver a), ground arith)

not_older_trans :
    (a b c : Text) → is_rollback a b ≡ false → is_rollback b c ≡ false → is_rollback a c ≡ false
unfolding is_rollback
not_older_trans a b c ab bc =
    let ver = parse_version in
    padded_lt-below (ver a) (ver c)
    ∙ below_trans (ver a) (ver b) (ver c) (sym (padded_lt-below (ver a) (ver b)) ∙ ab)
        (sym (padded_lt-below (ver b) (ver c)) ∙ bc)

below-zero : (xs : List ℕ) → below xs (0 ∷ []) ≡ false
unfolding below
below-zero [] = refl
below-zero (x ∷ xs) = ground (arith, below-nil xs)

not_older_empty : (a : Text) → is_rollback a [] ≡ false
unfolding is_rollback parse_version digits split_on
not_older_empty a = padded_lt-below (parse_version a) (0 ∷ []) ∙ below-zero (parse_version a)

raised_floor_not_older :
    (target floor : Text) → is_rollback (raised_floor target floor) floor ≡ false
raised_floor_not_older target [] = not_older_empty (raised_floor target [])
raised_floor_not_older target (c ∷ s) =
    let (_, same, _) = version_order (c ∷ s) (c ∷ s) in
    let (_, _, apart) = version_order target (c ∷ s) in ground arith

module _ (dumps : List (String × Text) → Text) (ed25519 : Text → Text → Text → Verdict)
    (hmac_sha256 : Text → Text → Text) where
  step_floor :
      (config : TrustKeys) (cmd : UpdateCommand) (floor : Text)
      → is_rollback (remote_update dumps ed25519 hmac_sha256 config cmd floor).1 floor ≡ false
  unfolding remote_update
  step_floor config cmd floor =
      let (_, same, _) = version_order floor floor in
      let raised = raised_floor_not_older (target_of cmd) floor in ground arith

  -- However many updates an agent handles, signed or not and with rollbacks allowed or not, the update
  -- floor that it ends with is not older than the one it started with.
  pub floor_never_falls :
      (config : TrustKeys) (cmds : List UpdateCommand) (floor : Text)
      → is_rollback (floor_after dumps ed25519 hmac_sha256 config cmds floor) floor ≡ false
  unfolding floor_after
  floor_never_falls config [] floor = let (_, same, _) = version_order floor floor in same
  floor_never_falls config (cmd ∷ cmds) floor =
      let next = (remote_update dumps ed25519 hmac_sha256 config cmd floor).1 in
      not_older_trans (floor_after dumps ed25519 hmac_sha256 config cmds next) next floor
        (floor_never_falls config cmds next) (step_floor config cmd floor)
