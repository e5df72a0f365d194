-- ===== src/Sender/ChunkResend/Marks.antt =====
-- How the marks of src/sender/yisync_chunk_resend.cpp change over the messages of a transfer.
use yisync.Common.{
  ℕ, ◌<◌, ◌≡◌, ◌≢◌, refl, sym, ap, ◌∙◌, subst, inl, inr, List, [], ◌∷◌, Option, none, some, Bool,
  true, false, arith, get_or, get_or-set_self,
}
use yisync.Protocol.Message.{MissingChunkRange}
use yisync.Sender.ChunkResend.{
  ChunkResendState, next_chunk_to_send, mark_chunk_sent, acknowledge_chunk, mark_chunk_lost,
  apply_missing_hints,
}
use yisync.Sender.ChunkResend.Invariant.{
  IsValid, mark_chunk_sent-IsValid, acknowledge_chunk-IsValid, mark_chunk_lost-IsValid,
  apply_missing_hints-IsValid,
}
use yisync.Sender.ChunkResend.Hints.{get_or-set, apply_missing_hints-Hinted}
use yisync.Sender.ChunkResend.Selection.{
  Sendable, HasPriority, Contains, Answer, next_chunk_to_send-Answer,
}

-- The calls during the transfer of one file; `initialize` and `reset` begin a new one.
pub data Call : Type 0 where
  sends : ℕ → ℕ → ℕ → Call
  acknowledges : ℕ → Call
  loses : ℕ → Call
  hints : ℕ → ℕ → List MissingChunkRange → Call

unfoldable pub step : ChunkResendState → Call → ChunkResendState
step s (sends index line_id tick) = (mark_chunk_sent s index line_id tick).0
step s (acknowledges index) = (acknowledge_chunk s index).0
step s (loses index) = (mark_chunk_lost s index).0
step s (hints seq file_id ranges) = (apply_missing_hints s seq file_id ranges).0

unfoldable pub run : ChunkResendState → List Call → ChunkResendState
run s [] = s
run s (call ∷ calls) = run (step s call) calls

-- Every call of a transfer keeps a well-formed state well-formed: each list has an entry for
-- each chunk.
pub step-IsValid : (s : ChunkResendState) (c : Call) → IsValid s → IsValid (step s c)
unfolding step
step-IsValid s (sends index line_id tick) v = mark_chunk_sent-IsValid s index line_id tick v
step-IsValid s (acknowledges index) v = acknowledge_chunk-IsValid s index v
step-IsValid s (loses index) v = mark_chunk_lost-IsValid s index v
step-IsValid s (hints seq file_id ranges) v = apply_missing_hints-IsValid s seq file_id ranges v

-- A well-formed state whose order has every chunk.
pub record IsReady (s : ChunkResendState) : Type 0 where
  pub valid : IsValid s
  pub covered : (i : ℕ) → i < s.chunk_count → Contains i s.order

-- What no call changes: the number of chunks, their order, and the acknowledgements so far.
record Keeps (s t : ChunkResendState) (i : ℕ) : Type 0 where
  count : t.chunk_count ≡ s.chunk_count
  order : t.order ≡ s.order
  acked : get_or s.acked i false ≡ true → get_or t.acked i false ≡ true

step-Keeps : (s : ChunkResendState) (c : Call) (i : ℕ) → IsValid s → Keeps s (step s c) i
unfolding step mark_chunk_sent acknowledge_chunk mark_chunk_lost
step-Keeps s (sends index line_id tick) i v = ground arith
step-Keeps s (acknowledges index) i v = ground (arith, get_or-set s.acked index i true false)
step-Keeps s (loses index) i v = ground arith
step-Keeps s (hints seq file_id ranges) i v =
    let h = apply_missing_hints-Hinted s seq file_id ranges i v in
    record {
      count = h.count;
      order = h.order;
      acked = λ e. ap (λ (xs : List Bool). get_or xs i false) h.acked ∙ e;
    }

pub step-IsReady : (s : ChunkResendState) (c : Call) → IsReady s → IsReady (step s c)
step-IsReady s c r = record {
  valid = step-IsValid s c r.valid;
  covered = λ i h.
      let k = step-Keeps s c i r.valid in
      subst (Contains i) (sym k.order) (r.covered i (subst (λ n. i < n) k.count h));
}

-- No call takes back an acknowledgement, nor makes the state ill-formed.
run-acked :
    (s : ChunkResendState) (calls : List Call) (i : ℕ)
    → IsReady s
    → get_or s.acked i false ≡ true
    → IsReady (run s calls) × (get_or (run s calls).acked i false ≡ true)
unfolding run
run-acked s [] i r e = (r, e)
run-acked s (c ∷ calls) i r e =
    run-acked (step s c) calls i (step-IsReady s c r) ((step-Keeps s c i r.valid).acked e)

offered→Sendable :
    (s : ChunkResendState) (tick ticks c : ℕ)
    → IsReady s
    → next_chunk_to_send s tick ticks ≡ some c
    → Sendable s tick ticks c
offered→Sendable s tick ticks c r e =
    (subst (Answer s tick ticks) e (next_chunk_to_send-Answer s r.valid tick ticks r.covered)).0

acknowledges-acked :
    (s : ChunkResendState) (c : ℕ)
    → IsValid s
    → c < s.chunk_count
    → get_or (step s (acknowledges c)).acked c false ≡ true
unfolding step acknowledge_chunk
acknowledges-acked s c v h = ground (arith, get_or-set_self s.acked c true false, v.acked)

-- In a transfer that is well-formed and orders every chunk, a chunk that is acknowledged is
-- never offered for sending again, whatever is sent, acknowledged, lost or hinted after that.
pub acknowledged_not_sent_again :
    (s : ChunkResendState) (c : ℕ) (calls : List Call) (tick ticks : ℕ)
    → IsReady s
    → c < s.chunk_count
    → next_chunk_to_send (run s (acknowledges c ∷ calls)) tick ticks ≢ some c
unfolding run
acknowledged_not_sent_again s c calls tick ticks r h e =
    let (ready, acked) =
      run-acked (step s (acknowledges c)) calls c (step-IsReady s (acknowledges c) r)
        (acknowledges-acked s c r.valid h) in
    cc (acked, (offered→Sendable _ tick ticks c ready e).unacked)

sends-marks :
    (s : ChunkResendState) (c line_id tick : ℕ)
    → IsValid s
    → c < s.chunk_count
    → (get_or (step s (sends c line_id tick)).sent c false ≡ true)
      × (get_or (step s (sends c line_id tick)).priority c false ≡ false)
unfolding step mark_chunk_sent
sends-marks s c line_id tick v h = ground (
  arith,
  get_or-set_self s.sent c true false,
  get_or-set_self s.priority c false false,
  v.acked,
  v.sent,
  v.priority,
)

loses-marks :
    (s : ChunkResendState) (c : ℕ)
    → IsValid s
    → c < s.chunk_count
    → get_or s.sent c false ≡ true
    → get_or s.acked c false ≡ false
    → let t = step s (loses c) in
      (get_or t.sent c false ≡ false)
      × (get_or t.priority c false ≡ true)
      × (get_or t.acked c false ≡ false)
      × (c < t.chunk_count)
unfolding step mark_chunk_lost
loses-marks s c v h sent unacked = ground (
  arith,
  get_or-set_self s.sent c false false,
  get_or-set_self s.priority c true false,
  v.acked,
  v.sent,
  v.priority,
)

-- Where a chunk with priority is wanted, the answer has priority.
with_priority :
    (t : ChunkResendState) (tick ticks c : ℕ)
    → HasPriority t c
    → Sendable t tick ticks c
    → (found : Option ℕ) → next_chunk_to_send t tick ticks ≡ found
    → Answer t tick ticks found
    → (d : ℕ) × (next_chunk_to_send t tick ticks ≡ some d) × HasPriority t d
with_priority t tick ticks c p wanted none e a = absurd (a c wanted)
with_priority t tick ticks c p wanted (some d) e (can, inl prio) = (d, e, prio)
with_priority t tick ticks c p wanted (some d) e (can, inr others) = absurd (others c p wanted)

-- In a well-formed transfer that orders every chunk, a chunk that was just marked as sent is
-- not offered again, whatever the time, before a hint or a loss asks for it.
pub sent_not_offered :
    (s : ChunkResendState) (c line_id sent_tick tick ticks : ℕ)
    → IsReady s
    → c < s.chunk_count
    → next_chunk_to_send (step s (sends c line_id sent_tick)) tick ticks ≢ some c
sent_not_offered s c line_id sent_tick tick ticks r h e =
    let (sent, plain) = sends-marks s c line_id sent_tick r.valid h in
    let ready = step-IsReady s (sends c line_id sent_tick) r in
    elim (offered→Sendable _ tick ticks c ready e).due [
      | inl unsent ↦ cc (sent, unsent)
      | inr (hinted, late) ↦ cc (plain, hinted)
    ]

-- In a well-formed transfer that orders every chunk, once a chunk that was sent and is not
-- acknowledged is marked lost, the next answer, whatever the time, is a chunk with priority.
pub lost_is_offered :
    (s : ChunkResendState) (c tick ticks : ℕ)
    → IsReady s
    → c < s.chunk_count
    → get_or s.sent c false ≡ true
    → get_or s.acked c false ≡ false
    → (d : ℕ) × (next_chunk_to_send (step s (loses c)) tick ticks ≡ some d)
      × HasPriority (step s (loses c)) d
lost_is_offered s c tick ticks r h sent unacked =
    let (unsent, hinted, open_chunk, count) = loses-marks s c r.valid h sent unacked in
    let t = step s (loses c) in
    let ready = step-IsReady s (loses c) r in
    let wanted : Sendable t tick ticks c = record {
      exists = count;
      unacked = open_chunk;
      due = inl unsent;
    } in
    with_priority t tick ticks c hinted wanted (next_chunk_to_send t tick ticks) refl
      (next_chunk_to_send-Answer t ready.valid tick ticks ready.covered)
