-- ===== src/Exchange/Network.antt =====
-- The isolation of a device: from the endpoint of the administrator to the agent's network state.
use silentguard_xdr.Server.Exec.{Result, ok, err}
use silentguard_xdr.Server.Fleet.{CheckinResponse}
use silentguard_xdr.Agent.Loop.{is_sound_answer}
use silentguard_xdr.Prelude.{Bool, true, nat_eq, string_eq, option_eq, list_eq}
use silentguard_xdr.Prelude.Text.{Text}

-- what the agent is told has values of the types that it reads
abbrev pub is_sound_reply : Result CheckinResponse → Bool
is_sound_reply (ok answer) = is_sound_answer answer
is_sound_reply (err e) = true
