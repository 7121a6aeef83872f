-- ===== src/Agent/Tests.antt =====
-- The theorems on the agent at samples.
mod Endpoint
mod Gateway
mod Drops
mod Names
use silentguard_xdr.Agent.Buffer.{
  undelivered, succeeded, unconfirmed, spooled, Client, Input, emitting, flushing, answered,
  restarting, run, events_of, fresh, roomy,
}
use silentguard_xdr.Agent.Buffer.Delivery.{no_event_lost, full_flush_loses_event}
use silentguard_xdr.Agent.Update.{
  UpdateCommand, TrustKeys, Verdict, valid, invalid, is_blocked, bare_signature, canonical_manifest,
  remote_update, floor_after, is_rollback, is_numeric_version,
}
use silentguard_xdr.Agent.Update.Versions.{floor_never_falls}
use silentguard_xdr.Agent.Update.Trust.{verified_update_sound}
use silentguard_xdr.Prelude.{
  ℕ, String, ◌≡◌, refl, ◌≢◌, ◌⊎◌, Bool, false, ◌||◌, none, some, List, [], ◌∷◌, ◌++◌, arith,
  if◌then◌else◌, ◌==◌, nat_eq, string_eq, option_eq, list_eq, any,
}
use silentguard_xdr.Prelude.Text.{Text, codes}

-- a batch that is stored twice, an event that comes while it is under way, and a restart before the next
abbrev busy_run : List (Input ℕ)
busy_run =
    emitting spooled 1
    ∷ emitting spooled 2
    ∷ flushing
    ∷ answered unconfirmed
    ∷ flushing
    ∷ emitting spooled 3
    ∷ answered (succeeded spooled)
    ∷ flushing
    ∷ answered undelivered
    ∷ restarting false
    ∷ emitting spooled 4
    ∷ []

no_event_lost_example :
    let c = run 3 busy_run fresh in
    (c.confirmed ++ c.buffer ≡ events_of busy_run)
    × ((p : ℕ → Bool) → any p c.accepted || any p c.buffer ≡ any p (events_of busy_run))
unfolding roomy silentguard_xdr.Agent.Buffer.step
no_event_lost_example = no_event_lost 3 busy_run refl refl

abbrev full_client : Client ℕ
full_client = record {
  buffer = 1 ∷ 2 ∷ [];
  spool = 1 ∷ 2 ∷ [];
  posting = none;
  accepted = [];
  confirmed = [];
}

abbrev full_run : List (Input ℕ)
full_run = flushing ∷ emitting spooled 3 ∷ answered (succeeded spooled) ∷ []

full_flush_loses_event_example :
    ((run 2 full_run full_client).buffer ≡ [])
    × ((run 2 full_run full_client).accepted ≡ 1 ∷ 2 ∷ [])
full_flush_loses_event_example =
    full_flush_loses_event 2 full_client 3 spooled spooled refl refl (omega arith)

abbrev toy_dumps : List (String × Text) → Text
toy_dumps [] = []
toy_dumps ((k, v) ∷ rest) = v ++ toy_dumps rest

abbrev toy_ed25519 : Text → Text → Text → Verdict
toy_ed25519 key signature message = if signature == key ++ message then valid else invalid

abbrev toy_hmac : Text → Text → Text
toy_hmac secret message = secret ++ message

abbrev keys : TrustKeys
keys = record { update_public_key = codes "k"; update_hmac_key = [] }

abbrev signed_update : UpdateCommand
signed_update = record {
  version = some (codes "2.0");
  url = [];
  sha256 = codes "ff";
  signature = codes "kff2.0";
  allow_rollback = [];
}

floor_never_falls_example :
    is_rollback
      (floor_after toy_dumps toy_ed25519 toy_hmac keys (signed_update ∷ []) (codes "1.9"))
      (codes "1.9")
    ≡ false
floor_never_falls_example =
    floor_never_falls toy_dumps toy_ed25519 toy_hmac keys (signed_update ∷ []) (codes "1.9")

verified_update_sound_example :
    let message = canonical_manifest toy_dumps toy_ed25519 toy_hmac signed_update in
    ((toy_ed25519 keys.update_public_key signed_update.signature message ≡ valid)
      ⊎ ((keys.update_public_key ≡ [])
          × (keys.update_hmac_key ≢ [])
          × (bare_signature signed_update.signature ≡ toy_hmac keys.update_hmac_key message)))
    × (is_blocked signed_update (codes "1.9") ≡ false)
unfolding remote_update is_numeric_version is_rollback silentguard_xdr.Prelude.Text.split_on
verified_update_sound_example =
    verified_update_sound toy_dumps toy_ed25519 toy_hmac keys signed_update (codes "1.9") refl
