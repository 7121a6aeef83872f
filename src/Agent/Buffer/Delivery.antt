-- ===== src/Agent/Buffer/Delivery.antt =====
-- What becomes of the events of a run.
use mathlib.Core.Path.{subst}
use mathlib.Core.List.{append_assoc, append-nil}
use silentguard_xdr.Agent.Buffer.{
  save_queue, under_way, spooled, unspooled, torn, succeeded, unconfirmed, undelivered, spools,
  Write, Answer, min, last, Client, Input, emitting, flushing, answered, restarting, append, emit,
  recover, begin_flush, end_flush, step, run, has_room, roomy, event_of, events_of, fresh,
}
use silentguard_xdr.Prelude.{
  ℕ, ◌+◌, ◌-◌, ◌≤◌, ◌<◌, ◌≡◌, refl, sym, ap, ◌∙◌, inl, inr, Bool, true, ◌&&◌, ◌||◌, Option, none,
  some, List, [], ◌∷◌, ◌++◌, arith, Bool-cases, Option-cases, length, drop, any, all, length-append,
  length-drop, drop-append, any-append,
}

last_all {ℓ} : {A : Type ℓ} → (n : ℕ) (xs : List A) → length xs ≤ n → last n xs ≡ xs
last_all n xs small = let fits : length xs - n ≡ 0 = omega arith in rw fits

and_true : (a b : Bool) → a && b ≡ true → (a ≡ true) × (b ≡ true)
and_true a b h = ground arith

drop_all : {A : Type 0} → (xs : List A) → drop (length xs) xs ≡ []
drop_all [] = refl
drop_all (x ∷ xs) = drop_all xs

module _ {E : Type 0} (max : ℕ) where
  -- the spool is the buffer, and both are bounded
  abbrev Spooled : Client E → Type 0
  Spooled c = (c.spool ≡ c.buffer) × (length c.buffer ≤ max)

  step-Spooled : (i : Input E) (c : Client E) → spools i ≡ true → Spooled c → Spooled (step max i c)
  unfolding step
  step-Spooled (emitting spooled e) c safe (same, small) =
      unfold emit save_queue in
      (refl, omega (arith, length-drop (length (c.buffer ++ e ∷ []) - max) (c.buffer ++ e ∷ [])))
  step-Spooled (emitting unspooled e) c safe same_spool = absurd (ground arith)
  step-Spooled (emitting torn e) c safe same_spool = absurd (ground arith)
  step-Spooled flushing c safe (same, small) = unfold begin_flush in ground arith
  step-Spooled (answered (succeeded spooled)) c safe (same, small) =
      let shorter : (b : List E)
          → length (drop (min (length b) (length c.buffer)) c.buffer)
            ≡ length c.buffer - min (length b) (length c.buffer) =
        λ b. length-drop (min (length b) (length c.buffer)) c.buffer in
      unfold end_flush save_queue in
      elim (Option-cases c.posting) [
        | inl idle ↦ ground arith
        | inr (batch, sent) ↦ ground (arith, shorter batch)
      ]
  step-Spooled (answered (succeeded unspooled)) c safe same_spool = absurd (ground arith)
  step-Spooled (answered (succeeded torn)) c safe same_spool = absurd (ground arith)
  step-Spooled (answered unconfirmed) c safe (same, small) = unfold end_flush in ground arith
  step-Spooled (answered undelivered) c safe (same, small) = unfold end_flush in ground arith
  step-Spooled (restarting stored) c safe (same, small) =
      unfold recover in
      let kept : last max c.spool ≡ c.spool = last_all max c.spool (rw same small) in
      (sym kept, rw (kept, same) small)

  -- the batch of a flush under way is the front of the buffer
  abbrev Ahead : Option (List E) → List E → Type 0
  Ahead none buffer = Unit {0}
  Ahead (some batch) buffer = batch ++ drop (length batch) buffer ≡ buffer

  -- the events so far are those confirmed and then those in the buffer, and each of them is on the server or
  -- in the buffer
  abbrev Ordered : List E → Client E → Type 0
  Ordered sent c =
      (c.confirmed ++ c.buffer ≡ sent)
      × Ahead c.posting c.buffer
      × ((p : E → Bool) → any p c.accepted || any p c.buffer ≡ any p sent)

  Ahead-append :
      (posting : Option (List E)) (buffer more : List E)
      → Ahead posting buffer
      → Ahead posting (buffer ++ more)
  Ahead-append none buffer more h = tt
  Ahead-append (some batch) buffer more h =
      subst (λ b. batch ++ drop (length batch) (b ++ more) ≡ b ++ more) h
        (rw (
          append_assoc batch (drop (length batch) buffer) more,
          drop-append batch (drop (length batch) buffer ++ more),
        ))

  min_front :
      (batch buffer : List E)
      → batch ++ drop (length batch) buffer ≡ buffer
      → min (length batch) (length buffer) ≡ length batch
  unfolding min
  min_front batch buffer ahead =
      let sum = length-append batch (drop (length batch) buffer) in
      let whole : length buffer ≡ length batch + length (drop (length batch) buffer) =
        rw (ap length ahead) at sum in
      ground arith

  any-under_way :
      (p : E → Bool) (posting : Option (List E)) (buffer : List E)
      → Ahead posting buffer
      → any p buffer || any p (under_way posting) ≡ any p buffer
  any-under_way p none buffer h = ground arith
  any-under_way p (some batch) buffer h =
      let sum = any-append p batch (drop (length batch) buffer) in
      let whole : any p buffer ≡ any p batch || any p (drop (length batch) buffer) = rw h at sum in
      ground arith

  -- a batch more that is at the front of the buffer
  any-more :
      (p : E → Bool) (sent accepted buffer : List E) (posting : Option (List E))
      → Ahead posting buffer
      → any p accepted || any p buffer ≡ any p sent
      → any p (accepted ++ under_way posting) || any p buffer ≡ any p sent
  any-more p sent accepted buffer posting front held =
      ground
        (arith, any-append p accepted (under_way posting), any-under_way p posting buffer front)

  -- what each answer leaves of a batch that is the front of the buffer
  ended_Ordered :
      (answer : Answer) (sent : List E) (c : Client E) (batch : List E)
      → Ordered sent (record c { posting = some batch })
      → Ordered sent (end_flush answer (record c { posting = some batch }))
  unfolding end_flush
  ended_Ordered undelivered sent c batch (order, front, held) = (order, tt, held)
  ended_Ordered unconfirmed sent c batch (order, front, held) =
      (order, tt, λ p. any-more p sent c.accepted c.buffer (some batch) front (held p))
  ended_Ordered (succeeded w) sent c batch (order, front, held) =
      let rest = drop (length batch) c.buffer in
      rw (min_front batch c.buffer front) (
        append_assoc c.confirmed batch rest ∙ rw front order,
        tt,
        λ p. ground (
          arith,
          held p,
          any-append p c.accepted batch,
          any-append p batch rest,
          ap (any p) front,
        ),
      )

  end_flush-Ordered :
      (answer : Answer) (sent : List E) (c : Client E)
      → Ordered sent c
      → Ordered sent (end_flush answer c)
  unfolding end_flush
  end_flush-Ordered answer sent c (order, front, held) = elim (Option-cases c.posting) [
    | inl idle ↦ rw (idle, end_flush) (order, front, held)
    | inr (batch, busy) ↦
        let ahead = subst (λ p. Ahead p c.buffer) busy front in
        rw (busy, end_flush) (ended_Ordered answer sent c batch (order, ahead, held))
  ]

  step-Ordered :
      (i : Input E) (sent : List E) (c : Client E)
      → has_room max i c ≡ true
      → Spooled c
      → Ordered sent c
      → Ordered (sent ++ event_of i) (step max i c)
  unfolding step
  step-Ordered (emitting w e) sent c room same_spool (order, front, held) =
      unfold emit in
      let fits : append max e c.buffer ≡ c.buffer ++ e ∷ [] =
        last_all max (c.buffer ++ e ∷ []) (ground (arith, length-append c.buffer (e ∷ []))) in
      rw fits (
        sym (append_assoc c.confirmed c.buffer (e ∷ [])) ∙ rw order,
        Ahead-append c.posting c.buffer (e ∷ []) front,
        λ p. ground (arith, any-append p c.buffer (e ∷ []), any-append p sent (e ∷ []), held p),
      )
  step-Ordered flushing sent c room same_spool (order, front, held) =
      unfold begin_flush in
      (
        ground (arith, append-nil sent, order),
        ground (arith, front, append-nil c.buffer, drop_all c.buffer),
        λ p. ground (arith, append-nil sent, held p),
      )
  step-Ordered (answered answer) sent c room same_spool ordered =
      rw (append-nil sent) (end_flush-Ordered answer sent c ordered)
  step-Ordered (restarting stored) sent c room (same, small) (order, front, held) =
      unfold recover in
      let kept : last max c.spool ≡ c.buffer = last_all max c.spool (rw same small) ∙ same in
      rw (kept, append-nil sent)
        (
          order,
          tt,
          λ p. elim (Bool-cases stored) [
            | inl late ↦ rw late (any-more p sent c.accepted c.buffer c.posting front (held p))
            | inr lost ↦ rw lost (held p)
          ],
        )

  run-Ordered :
      (is : List (Input E)) (sent : List E) (c : Client E)
      → roomy max is c ≡ true
      → all spools is ≡ true
      → Spooled c
      → Ordered sent c
      → Ordered (sent ++ events_of is) (run max is c)
  unfolding run roomy
  run-Ordered [] sent c room safe same_spool order = rw (append-nil sent) order
  run-Ordered (i ∷ is) sent c room safe same_spool order =
      let (now, then) = and_true (has_room max i c) (roomy max is (step max i c)) room in
      let (saved, later) = and_true (spools i) (all spools is) safe in
      rw⁻¹ (append_assoc sent (event_of i) (events_of is)) (
        run-Ordered is (sent ++ event_of i) (step max i c) then later
          (step-Spooled i c saved same_spool) (step-Ordered i sent c now same_spool order))

  -- If the buffer has room whenever an event is emitted and the writes of the spool succeed, then no event is
  -- lost over flushes, which may fail before or after the server stored the batch, and over restarts: the
  -- batches that were confirmed, and after them the buffer, are the events emitted, each once and in order;
  -- and what the server stored and what is in the buffer are together the events emitted and no others,
  -- where the server may have stored a batch that was not confirmed several times. The sets are given by
  -- their tests.
  pub no_event_lost :
      (is : List (Input E))
      → roomy max is fresh ≡ true
      → all spools is ≡ true
      → let c = run max is fresh in
        (c.confirmed ++ c.buffer ≡ events_of is)
        × ((p : E → Bool) → any p c.accepted || any p c.buffer ≡ any p (events_of is))
  no_event_lost is room safe =
      let (order, _, held) =
        run-Ordered is [] fresh room safe (refl, omega arith) (refl, tt, λ p. refl) in
      (order, held)

  -- An event emitted while a flush of a full buffer is under way is lost when the server accepts the
  -- batch: it is neither in the buffer nor in what the server accepted.
  pub full_flush_loses_event :
      (c : Client E) (e : E) (w w' : Write)
      → c.posting ≡ none
      → length c.buffer ≡ max
      → 0 < max
      → let c' = run max (flushing ∷ emitting w e ∷ answered (succeeded w') ∷ []) c in
        (c'.buffer ≡ []) × (c'.accepted ≡ c.accepted ++ c.buffer)
  unfolding run
  full_flush_loses_event c e w w' idle full some_room =
      let begun : step max flushing c ≡ record c { posting = some c.buffer } =
        unfold step begin_flush in ground arith in
      let later = append max e c.buffer in
      let bounded : length later ≡ max = ground (
        arith,
        length-append c.buffer (e ∷ []),
        length-drop (length (c.buffer ++ e ∷ []) - max) (c.buffer ++ e ∷ []),
      ) in
      let gone = drop_all later in unfold step emit end_flush min in rw begun (ground arith, refl)
