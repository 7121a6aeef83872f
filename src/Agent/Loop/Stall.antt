-- ===== src/Agent/Loop/Stall.antt =====
-- A domain that cannot be read stops the loop of the agent at the sinkhole.
use silentguard_xdr.Agent.Loop.{apply_checkin, Config}
use silentguard_xdr.Server.Fleet.{CheckinResponse}
use silentguard_xdr.Agent.Commands.{Endpoint, Options, Os}
use silentguard_xdr.Agent.Update.{Verdict}
use silentguard_xdr.Agent.Sinkhole.{Sinkhole}
use silentguard_xdr.Prelude.{ℕ, String, Bool, List, [], ◌∷◌}
use silentguard_xdr.Prelude.Text.{Text}

module _ (now : ℕ) (dumps : List (String × Text) → Text) (ed25519 : Text → Text → Text → Verdict)
    (hmac_sha256 : Text → Text → Text) (os : Os) (o : Options) (shell : String → Bool)
    (system : String) (fresh : ℕ → Text) where
  -- check-ins one after the other, each of which may end in an exception that the loop of `run` catches
  unfoldable pub apply_all : List CheckinResponse → Config × Endpoint → Config × Endpoint
  apply_all [] a = a
  apply_all (answer ∷ answers) a =
      let (c, e, done) =
        apply_checkin now dumps ed25519 hmac_sha256 os o shell system fresh answer a in
      apply_all answers (c, e)
