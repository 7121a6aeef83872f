-- ===== src/Agent/Update/Trust.antt =====
-- Which updates the agent honors.
use silentguard_xdr.Agent.Update.{
  UpdateCommand, TrustKeys, Verdict, valid, is_manifest, is_blocked, bare_signature,
  canonical_manifest, verify_ed25519, verify_hmac, verify_update, remote_update,
}
use silentguard_xdr.Prelude.{
  String, ◌≡◌, refl, sym, ◌∙◌, ◌≢◌, ◌⊎◌, inl, inr, Bool, true, false, not, ◌&&◌, List, [], arith,
  nat_eq, list_eqb_iff,
}
use silentguard_xdr.Prelude.Text.{Text}

all_three : (a b c : Bool) → (a && (b && not c)) ≡ true → (a ≡ true) × (b ≡ true) × (c ≡ false)
all_three a b c h = ground arith

module _ (dumps : List (String × Text) → Text) (ed25519 : Text → Text → Text → Verdict)
    (hmac_sha256 : Text → Text → Text) where
  -- An update command with a manifest that has no signature, or that reaches an agent without a trust
  -- key, is rejected as failed and leaves the update floor.
  pub update_fails_closed :
      (config : TrustKeys) (cmd : UpdateCommand) (floor : Text)
      → is_manifest cmd ≡ true
      → (cmd.signature ≡ []) ⊎ ((config.update_public_key ≡ []) × (config.update_hmac_key ≡ []))
      → let (out, floor') = remote_update dumps ed25519 hmac_sha256 config cmd floor in
        (out.status ≡ "failed") × (out.verified ≡ false) × (floor' ≡ floor)
  unfolding remote_update verify_update
  update_fails_closed config cmd floor manifest (inl unsigned) =
      rw (manifest, unsigned) (refl, refl, refl)
  update_fails_closed config cmd floor manifest (inr (no_public, no_secret)) = ground arith

  verified-eq :
      (config : TrustKeys) (cmd : UpdateCommand) (floor : Text)
      → (remote_update dumps ed25519 hmac_sha256 config cmd floor).0.verified ≡ (
          is_manifest cmd
          && ((verify_update dumps ed25519 hmac_sha256 cmd config).0 && not (is_blocked cmd floor)))
  unfolding remote_update
  verified-eq config cmd floor = ground arith

  signature_of_true :
      (config : TrustKeys) (cmd : UpdateCommand)
      → (verify_update dumps ed25519 hmac_sha256 cmd config).0 ≡ true
      → let message = canonical_manifest dumps ed25519 hmac_sha256 cmd in
        (ed25519 config.update_public_key cmd.signature message ≡ valid)
        ⊎ ((config.update_public_key ≡ [])
            × (config.update_hmac_key ≢ [])
            × (bare_signature cmd.signature ≡ hmac_sha256 config.update_hmac_key message))
  unfolding verify_update verify_ed25519 verify_hmac
  signature_of_true config cmd h =
      let message = canonical_manifest dumps ed25519 hmac_sha256 cmd in
      ground (
        arith,
        list_eqb_iff ⦃e = nat_eq⦄ config.update_public_key [],
        list_eqb_iff ⦃e = nat_eq⦄ config.update_hmac_key [],
        list_eqb_iff ⦃e = nat_eq⦄ (hmac_sha256 config.update_hmac_key message)
            (bare_signature cmd.signature),
      )

  -- An update is acknowledged as verified only if its manifest is signed under the public key, or, where
  -- there is none, carries the HMAC of the shared secret, and if it is not blocked: a numeric version that
  -- is older than a floor that is set, without a signed permission to roll back.
  pub verified_update_sound :
      (config : TrustKeys) (cmd : UpdateCommand) (floor : Text)
      → let out = (remote_update dumps ed25519 hmac_sha256 config cmd floor).0 in
        let message = canonical_manifest dumps ed25519 hmac_sha256 cmd in
        out.verified ≡ true
        → ((ed25519 config.update_public_key cmd.signature message ≡ valid)
            ⊎ ((config.update_public_key ≡ [])
                × (config.update_hmac_key ≢ [])
                × (bare_signature cmd.signature ≡ hmac_sha256 config.update_hmac_key message)))
          × (is_blocked cmd floor ≡ false)
  verified_update_sound config cmd floor honored =
      let (_, signed, free) =
        all_three (is_manifest cmd) (verify_update dumps ed25519 hmac_sha256 cmd config).0
          (is_blocked cmd floor) (sym (verified-eq config cmd floor) ∙ honored) in
      (signature_of_true config cmd signed, free)
