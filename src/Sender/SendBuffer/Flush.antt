-- ===== src/Sender/SendBuffer/Flush.antt =====
-- `flush_retransmits` and `enqueue_rto_retransmits` of src/sender/yisync_sender_app.cpp, on the send
-- buffer. `network` is what `network_.send` returns for a request: the line and the bytes, if it is
-- sent. The sender has neither failed nor ended.
use yisync.Common.{
  ℕ, zero, suc, ◌-◌, ◌≤◌, ◌≡◌, refl, ap, subst, List, [], ◌∷◌, Option, none, some, false, arith,
  Bool-cases, inl, inr, leb, if◌then◌else◌, All, length,
}
use yisync.Network.Line.{SendRequest, SendGrant}
use yisync.Sender.SendBuffer.{
  SendBufferKey, same_key, BufferedSend, Slot, SendBuffer, find, lookup, assign, retransmitted,
  mark_retransmitted, without, erase_retransmit, enqueue_retransmit, expired_keys,
}

-- How the loop ends: behind the last key, at a message that the network does not take, or with a
-- message that was sent too often, for which the sender starts anew with a manifest.
pub data Outcome : Type 0 where
  finished waits : Outcome
  exhausts : SendBufferKey → Outcome

-- A message that was sent again, and its line, for `mark_task_retransmitted`.
pub record Resent : Type 0 where
  pub request : SendRequest
  pub line_id : ℕ

pub record Flushed : Type 0 where
  pub buffer : SendBuffer
  pub resent : List Resent
  pub outcome : Outcome

abbrev pub front : List SendBufferKey → Option SendBufferKey
front [] = none
front (key ∷ keys) = some key

abbrev pub stopped : SendBuffer → Outcome → Flushed
stopped b outcome = record { buffer = b; resent = []; outcome = outcome }

abbrev pub resent_before : Resent → Flushed → Flushed
resent_before r f = record f { resent = r ∷ f.resent }

module _ (network : SendRequest → Option SendGrant) (max_retries current_tick : ℕ) where
  -- A message that the network takes is marked, and its key leaves the queue.
  abbrev pub after_send :
      SendBuffer
      → SendBufferKey
      → BufferedSend
      → Option SendGrant
      → (SendBuffer → Flushed)
      → Flushed
  after_send b key send none rest = stopped b waits
  after_send b key send (some result) rest =
      resent_before (record { request = send.request; line_id = result.line_id })
        (rest (erase_retransmit (mark_retransmitted b key result.bytes current_tick).0 0))

  abbrev pub after_find :
      SendBuffer → SendBufferKey → Option BufferedSend → (SendBuffer → Flushed) → Flushed
  after_find b key none rest = rest (erase_retransmit b 0)
  after_find b key (some send) rest =
      if leb max_retries send.nack_retries
      then stopped (erase_retransmit b 0) (exhausts key)
      else after_send b key send (network send.request) rest

  abbrev pub after_front : SendBuffer → Option SendBufferKey → (SendBuffer → Flushed) → Flushed
  after_front b none rest = stopped b finished
  after_front b (some key) rest = after_find b key (find b key) rest

  -- The loop, whose index stays 0. Every round takes a key out of the queue, so as many rounds as it
  -- has keys, and a last one, are enough.
  unfoldable pub flush_rounds : ℕ → SendBuffer → Flushed
  flush_rounds zero b = stopped b finished
  flush_rounds (suc fuel) b =
      after_front b (front b.retransmit_queue) (λ next. flush_rounds fuel next)

  unfoldable pub flush_retransmits : SendBuffer → Flushed
  flush_retransmits b = flush_rounds (length b.retransmit_queue) b

  -- The loop of `enqueue_rto_retransmits`: `false` where a message was sent too often.
  abbrev pub after_expired :
      SendBuffer
      → SendBufferKey
      → Option BufferedSend
      → (SendBuffer → SendBuffer × Outcome)
      → SendBuffer × Outcome
  after_expired b key none rest = rest b
  after_expired b key (some send) rest =
      if leb max_retries send.nack_retries
      then (b, exhausts key)
      else rest (enqueue_retransmit b key).0

  unfoldable pub enqueue_expired : List SendBufferKey → SendBuffer → SendBuffer × Outcome
  enqueue_expired [] b = (b, finished)
  enqueue_expired (key ∷ keys) b =
      after_expired b key (find b key) (λ next. enqueue_expired keys next)

  unfoldable pub enqueue_rto_retransmits : ℕ → SendBuffer → SendBuffer × Outcome
  enqueue_rto_retransmits rto_ticks b = enqueue_expired (expired_keys b current_tick rto_ticks 32) b

  -- No message was sent again more often than the limit.
  abbrev pub Limited : Slot → Type 0
  Limited s = s.send.nack_retries ≤ max_retries

  lookup-Limited :
      (key : SendBufferKey) (slots : List Slot) (send : BufferedSend)
      → All Limited slots
      → lookup key slots ≡ some send
      → send.nack_retries ≤ max_retries
  unfolding lookup
  lookup-Limited key [] send h e = cc e
  lookup-Limited key (s ∷ slots) send h e = elim (Bool-cases (same_key s.key key)) [
    | inl hit ↦
        let same : s.send ≡ send = cc (hit, e) in
        subst (λ (x : BufferedSend). x.nack_retries ≤ max_retries) same h.0
    | inr miss ↦ lookup-Limited key slots send h.1 (cc (miss, e))
  ]

  assign-Limited :
      (key : SendBufferKey) (slots : List Slot) (send : BufferedSend)
      → All Limited slots
      → send.nack_retries ≤ max_retries
      → All Limited (assign key send slots)
  unfolding assign
  assign-Limited key [] send h p = (p, tt)
  assign-Limited key (s ∷ slots) send h p = elim (Bool-cases (same_key s.key key)) [
    | inl hit ↦ rw hit (p, h.1)
    | inr miss ↦ rw miss (h.0, assign-Limited key slots send h.1 p)
  ]

  -- Why the loop has ended.
  abbrev pub Ended : Outcome → SendBuffer → Type 0
  Ended finished b = b.retransmit_queue ≡ []
  Ended waits b =
      (key : SendBufferKey) × (send : BufferedSend) × (front b.retransmit_queue ≡ some key)
      × (find b key ≡ some send)
      × (network send.request ≡ none)
  Ended (exhausts key) b =
      (send : BufferedSend) × (find b key ≡ some send) × (max_retries ≤ send.nack_retries)

  abbrev Good : ℕ → SendBuffer → Flushed → Type 0
  Good fuel b f =
      All Limited b.entries
      → length b.retransmit_queue ≤ fuel
      → All Limited f.buffer.entries × Ended f.outcome f.buffer

  none_left : (keys : List SendBufferKey) → length keys ≤ 0 → keys ≡ []
  none_left [] n = refl
  none_left (key ∷ keys) n = absurd (omega arith)

  without_first-length : (keys : List SendBufferKey) → length (without keys 0) ≡ length keys - 1
  without_first-length [] = omega arith
  without_first-length (key ∷ keys) = omega arith

  mark_retransmitted-Limited :
      (b : SendBuffer) (key : SendBufferKey) (bytes : ℕ) (send : BufferedSend)
      → All Limited b.entries
      → find b key ≡ some send
      → leb max_retries send.nack_retries ≡ false
      → All Limited (mark_retransmitted b key bytes current_tick).0.entries
        × ((mark_retransmitted b key bytes current_tick).0.retransmit_queue ≡ b.retransmit_queue)
  unfolding mark_retransmitted
  mark_retransmitted-Limited b key bytes send h found less =
      rw found (
        assign-Limited key b.entries (retransmitted send bytes current_tick) h (ground arith),
        refl,
      )

  module _ (fuel : ℕ) (rest : SendBuffer → Flushed)
      (ih : (b : SendBuffer) → Good fuel b (rest b)) where
    after_send-Good :
        (b : SendBuffer) (key : SendBufferKey) (send : BufferedSend) (sent : Option SendGrant)
        → network send.request ≡ sent
        → front b.retransmit_queue ≡ some key
        → find b key ≡ some send
        → leb max_retries send.nack_retries ≡ false
        → Good (suc fuel) b (after_send b key send sent rest)
    unfolding erase_retransmit
    after_send-Good b key send none refused first found less h n =
        (h, (key, send, first, found, refused))
    after_send-Good b key send (some result) sent first found less h n =
        let marked = mark_retransmitted-Limited b key result.bytes send h found less in
        let fewer = without_first-length b.retransmit_queue in
        ih _ marked.0 (rw marked.1 (omega arith))

    after_find-Good :
        (b : SendBuffer) (key : SendBufferKey) (found : Option BufferedSend)
        → front b.retransmit_queue ≡ some key
        → find b key ≡ found
        → Good (suc fuel) b (after_find b key found rest)
    unfolding erase_retransmit
    after_find-Good b key none first found h n =
        let fewer = without_first-length b.retransmit_queue in ih _ h (omega arith)
    after_find-Good b key (some send) first found h n =
        elim (Bool-cases (leb max_retries send.nack_retries)) [
          | inl often ↦ rw often (h, (send, found, ground arith))
          | inr less ↦
              rw less (after_send-Good b key send (network send.request) refl first found less h n)
        ]

    after_front-Good :
        (b : SendBuffer) (queue : List SendBufferKey)
        → b.retransmit_queue ≡ queue
        → Good (suc fuel) b (after_front b (front queue) rest)
    after_front-Good b [] e h n = (h, e)
    after_front-Good b (key ∷ keys) e h n = after_find-Good b key (find b key) (ap front e) refl h n

  flush_rounds-Good : (fuel : ℕ) (b : SendBuffer) → Good fuel b (flush_rounds fuel b)
  unfolding flush_rounds
  flush_rounds-Good zero b h n = (h, none_left b.retransmit_queue n)
  flush_rounds-Good (suc fuel) b h n =
      after_front-Good fuel (flush_rounds fuel) (flush_rounds-Good fuel) b b.retransmit_queue refl h
        n

  -- If no buffered message was sent again more often than the limit, then after
  -- `flush_retransmits` none was, and the loop has ended for its reason: the queue is empty, or
  -- the network refused the message of its first key, or a message has reached the limit.
  pub flush_retransmits-ends :
      (b : SendBuffer)
      → All Limited b.entries
      → All Limited (flush_retransmits b).buffer.entries
        × Ended (flush_retransmits b).outcome (flush_retransmits b).buffer
  unfolding flush_retransmits
  flush_retransmits-ends b h = flush_rounds-Good (length b.retransmit_queue) b h (omega arith)
