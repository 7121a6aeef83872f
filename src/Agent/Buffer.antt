-- ===== src/Agent/Buffer.antt =====
-- The event buffer of the telemetry client, agent/silentguard_agent/telemetry.py, and its spool,
-- agent/silentguard_agent/config.py. `max` is `MAX_BUFFER`. One flush runs at a time; other threads emit
-- while its request is under way. The write of the spool is best-effort, and a request that fails may
-- have reached the server all the same.
pub mod Delivery
use silentguard_xdr.Prelude.{
  ℕ, ◌-◌, Bool, true, false, ◌&&◌, Option, none, some, List, [], ◌∷◌, ◌++◌, ltb, leb, if◌then◌else◌,
  length, drop,
}

-- the shorter of two lengths
unfoldable pub min : ℕ → ℕ → ℕ
min m n = if leb m n then m else n

-- `xs[-n:]`
abbrev pub last {ℓ} : {A : Type ℓ} → ℕ → List A → List A
last n xs = drop (length xs - n) xs

-- What becomes of the file of a `save_queue`, which swallows an `OSError`: all was written, the error
-- came before the file was opened, or it came after, so that the file holds no JSON
pub data Write : Type 0 where
  spooled unspooled torn : Write

-- what `load_queue` reads after `save_queue`, given what it would have read before
unfoldable pub save_queue {ℓ} : {A : Type ℓ} → Write → List A → List A → List A
save_queue spooled events spool = events
save_queue unspooled events spool = spool
save_queue torn events spool = []

-- How a request ends: with a success, after which the spool is written; in a failure although the server
-- has stored the batch, as after a timeout; or in a failure with nothing stored
pub data Answer : Type 0 where
  succeeded : Write → Answer
  unconfirmed undelivered : Answer

-- What the client keeps: the deque, the spool on disk and the batch of a flush under way. `accepted` is what
-- the server stored, request by request, and `confirmed` is the batches whose request succeeded.
pub record Client (E : Type 0) : Type 0 where
  pub buffer : List E
  pub spool : List E
  pub posting : Option (List E)
  pub accepted : List E
  pub confirmed : List E

-- What happens to the client: an event of a monitor, the first half of `flush`, the answer of the
-- server or its failure, and a restart of the agent, where the server may still store a batch under way.
pub data Input (E : Type 0) : Type 0 where
  emitting : Write → E → Input E
  flushing : Input E
  answered : Answer → Input E
  restarting : Bool → Input E

abbrev pub under_way {ℓ} : {A : Type ℓ} → Option (List A) → List A
under_way none = []
under_way (some batch) = batch

module _ {E : Type 0} (max : ℕ) where
  -- `deque.append` with `maxlen`
  abbrev pub append : E → List E → List E
  append e xs = last max (xs ++ e ∷ [])

  -- `emit`
  unfoldable pub emit : Write → E → Client E → Client E
  unfolding save_queue
  emit w e c =
      let buffer = append e c.buffer in
      record c { buffer = buffer; spool = save_queue w buffer c.spool }

  -- `__init__`, on the spool that `load_queue` returns; `deque.extend` of at most `maxlen` events
  unfoldable pub recover : Bool → Client E → Client E
  recover stored c = record c {
    buffer = last max c.spool;
    posting = none;
    accepted = if stored then c.accepted ++ under_way c.posting else c.accepted;
  }

-- `flush`, up to the request
unfoldable pub begin_flush : {E : Type 0} → Client E → Client E
begin_flush {E} c = elim c.buffer [ [] ↦ c | e ∷ es ↦ record c { posting = some (e ∷ es) } ]

-- `flush`, from the answer on
unfoldable pub end_flush : {E : Type 0} → Answer → Client E → Client E
unfolding min save_queue
end_flush {E} answer c = elim c.posting [
  | none ↦ c
  | some batch ↦
      let rest = drop (min (length batch) (length c.buffer)) c.buffer in
      elim answer [
        | succeeded w ↦ record c {
          buffer = rest;
          spool = save_queue w rest c.spool;
          posting = none;
          accepted = c.accepted ++ batch;
          confirmed = c.confirmed ++ batch;
        }
        | unconfirmed ↦ record c { posting = none; accepted = c.accepted ++ batch }
        | undelivered ↦ record c { posting = none }
      ]
]

module _ {E : Type 0} (max : ℕ) where
  -- a flush begins when no other is under way
  unfoldable pub step : Input E → Client E → Client E
  unfolding emit recover begin_flush end_flush
  step (emitting w e) c = emit max w e c
  step flushing c = elim c.posting [ none ↦ begin_flush c | some batch ↦ c ]
  step (answered answer) c = end_flush answer c
  step (restarting stored) c = recover max stored c

  unfoldable pub run : List (Input E) → Client E → Client E
  unfolding step
  run [] c = c
  run (i ∷ is) c = run is (step i c)

  abbrev pub has_room : Input E → Client E → Bool
  has_room (emitting w e) c = ltb (length c.buffer) max
  has_room _ c = true

  -- whether the buffer had room for each event of a run
  unfoldable pub roomy : List (Input E) → Client E → Bool
  roomy [] c = true
  roomy (i ∷ is) c = has_room i c && roomy is (step i c)

abbrev pub event_of : {E : Type 0} → Input E → List E
event_of (emitting w e) = e ∷ []
event_of _ = []

-- the events that a run emits
abbrev pub events_of : {E : Type 0} → List (Input E) → List E
events_of [] = []
events_of (i ∷ is) = event_of i ++ events_of is

abbrev pub is_spooled : Write → Bool
is_spooled spooled = true
is_spooled _ = false

-- whether the write of the spool succeeds, where a step has one
abbrev pub spools : {E : Type 0} → Input E → Bool
spools (emitting w e) = is_spooled w
spools (answered (succeeded w)) = is_spooled w
spools _ = true

-- the client of a first start
abbrev pub fresh : {E : Type 0} → Client E
fresh = record { buffer = []; spool = []; posting = none; accepted = []; confirmed = [] }
