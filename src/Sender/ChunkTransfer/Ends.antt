-- ===== src/Sender/ChunkTransfer/Ends.antt =====
-- The loop of `schedule_chunk_work` of src/sender/yisync_sender_app.cpp ends, and why.
use yisync.Common.{
  ℕ, zero, suc, ◌+◌, ◌≤◌, ◌<◌, ◌≡◌, refl, inl, inr, Option, none, some, arith, leb, Bool-cases,
  Result, ok, err,
}
use yisync.Protocol.Message.{Bytes, Message}
use yisync.Network.Line.{SendKind, SendRequest, SendGrant}
use yisync.Sender.ChunkResend.{mark_chunk_sent, chunk_attempts}
use yisync.Sender.ChunkResend.Selection.{Sendable, Answer, next_chunk_to_send-Answer}
use yisync.Sender.ChunkResend.Marks.{IsReady, step, sends, step-IsReady}
use yisync.Sender.Plan.{FileSendTask, PlanError, read_chunk_payload}
use yisync.Sender.ChunkTransfer.{
  Link, Work, ChunkOutcome, finished, waits, unfinished, exhausts, throws, max_chunk_attempts,
  after_chunk, after_read, after_next, chunk_rounds, send_buffered, make_chunk_from_payload,
  request_of,
}
use yisync.Sender.ChunkTransfer.Wanted.{
  count, count-le, count-without, wanted, Sendable-wanted, mark_chunk_sent-wanted,
  mark_chunk_sent-count,
}

module _ {N : Type 0} (network : N → Message → SendRequest → N × Option SendGrant) (crc : Bytes → ℕ)
    (chunk_size max_retries current_tick rto_ticks : ℕ) where
  abbrev pub Wanted : FileSendTask → ℕ → Type 0
  Wanted task c = Sendable task.chunk_resend current_tick rto_ticks c

  -- The network does not take the chunk.
  abbrev pub Refused : FileSendTask → ℕ → Type 0
  Refused task c =
      (l : Link N) × (payload : Bytes) × (read_chunk_payload task c chunk_size ≡ ok payload)
      × (let message =
            Message.chunk (make_chunk_from_payload task c payload chunk_size (crc payload)) in
          (send_buffered network crc chunk_size max_retries current_tick rto_ticks l message
            (request_of task SendKind.chunk c message)).1
          ≡ none)

  -- Why the loop has ended, at a task.
  abbrev pub Reason : FileSendTask → ChunkOutcome → Type 0
  Reason task finished = (c : ℕ) → ¬ Wanted task c
  Reason task waits = (c : ℕ) × Wanted task c × Refused task c
  Reason task (exhausts c) =
      Wanted task c × (max_chunk_attempts max_retries ≤ chunk_attempts task.chunk_resend c)
  Reason task (throws e) = (c : ℕ) × Wanted task c × (read_chunk_payload task c chunk_size ≡ err e)
  Reason task unfinished = ⊥

  abbrev pub Ends : Work N → Type 0
  Ends w = Reason w.task w.outcome

  abbrev pub mark : FileSendTask → ℕ → ℕ → FileSendTask
  mark task c line_id = record task {
    chunk_resend = (mark_chunk_sent task.chunk_resend c line_id current_tick).0;
  }

  module _ (task : FileSendTask) (rest : Link N → FileSendTask → Work N) where
    after_chunk-Ends :
        (c : ℕ) (sent : Link N × Option SendGrant)
        → Wanted task c
        → (sent.1 ≡ none → Refused task c)
        → ((l : Link N) (line_id : ℕ) → Ends (rest l (mark task c line_id)))
        → Ends
            (after_chunk network crc chunk_size max_retries current_tick rto_ticks task c sent rest)
    after_chunk-Ends c (l, none) can refused h = (c, can, refused refl)
    after_chunk-Ends c (l, some result) can refused h = h l result.line_id

    after_read-Ends :
        (l : Link N) (c : ℕ) (read : Result PlanError Bytes)
        → read_chunk_payload task c chunk_size ≡ read
        → Wanted task c
        → ((l : Link N) (line_id : ℕ) → Ends (rest l (mark task c line_id)))
        → Ends (
            after_read network crc chunk_size max_retries current_tick rto_ticks l task c read rest)
    after_read-Ends l c (err e) same can h = (c, can, same)
    after_read-Ends l c (ok payload) same can h =
        after_chunk-Ends c _ can (λ e. (l, payload, same, e)) h

    after_next-Ends :
        (l : Link N) (found : Option ℕ)
        → Answer task.chunk_resend current_tick rto_ticks found
        → ((c : ℕ)
            → Wanted task c
            → (l : Link N) (line_id : ℕ) → Ends (rest l (mark task c line_id)))
        → Ends
            (after_next network crc chunk_size max_retries current_tick rto_ticks l task found rest)
    after_next-Ends l none answer h = answer
    after_next-Ends l (some c) answer h =
        elim (Bool-cases
          (leb (max_chunk_attempts max_retries) (chunk_attempts task.chunk_resend c))) [
            | inl many ↦ rw many (answer.0, ground arith)
            | inr few ↦ rw few (after_read-Ends l c _ refl answer.0 (h c answer.0))
          ]

  mark-IsReady :
      (task : FileSendTask) (c line_id : ℕ)
      → IsReady task.chunk_resend
      → IsReady (mark task c line_id).chunk_resend
  unfolding step
  mark-IsReady task c line_id r = step-IsReady task.chunk_resend (sends c line_id current_tick) r

  mark-count :
      (task : FileSendTask) (c line_id : ℕ)
      → IsReady task.chunk_resend
      → Wanted task c
      → (let s = (mark task c line_id).chunk_resend in count (wanted s) s.chunk_count + 1)
        ≡ count (wanted task.chunk_resend) task.chunk_resend.chunk_count
  mark-count task c line_id r can =
      let s = task.chunk_resend in
      rw (mark_chunk_sent-count s c line_id current_tick) (
        count-without (wanted s) _ c
          (λ i. mark_chunk_sent-wanted s c line_id current_tick i r.valid can.exists) s.chunk_count
          can.exists (Sendable-wanted s current_tick rto_ticks c can))

  chunk_rounds-Ends :
      (fuel : ℕ) (l : Link N) (task : FileSendTask)
      → IsReady task.chunk_resend
      → count (wanted task.chunk_resend) task.chunk_resend.chunk_count < fuel
      → Ends (chunk_rounds network crc chunk_size max_retries current_tick rto_ticks fuel l task)
  unfolding chunk_rounds
  chunk_rounds-Ends zero l task r h = absurd (omega arith)
  chunk_rounds-Ends (suc fuel) l task r h =
      after_next-Ends task _ l _
        (next_chunk_to_send-Answer task.chunk_resend r.valid current_tick rto_ticks r.covered)
        (λ c can l' line_id.
          chunk_rounds-Ends fuel l' (mark task c line_id) (mark-IsReady task c line_id r)
            (omega (arith, mark-count task c line_id r can)))

  -- As many rounds as `schedule_chunk_work` has.
  pub all_rounds-Ends :
      (l : Link N) (task : FileSendTask)
      → IsReady task.chunk_resend
      → Ends (
          chunk_rounds network crc chunk_size max_retries current_tick rto_ticks
            (suc task.chunk_resend.chunk_count)
            l
            task)
  all_rounds-Ends l task r =
      chunk_rounds-Ends (suc task.chunk_resend.chunk_count) l task r
        (omega (arith, count-le (wanted task.chunk_resend) task.chunk_resend.chunk_count))
