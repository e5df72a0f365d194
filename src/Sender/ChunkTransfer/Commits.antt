-- ===== src/Sender/ChunkTransfer/Commits.antt =====
-- `schedule_chunk_work` of src/sender/yisync_sender_app.cpp and the commit behind its loop.
use yisync.Common.{
  ℕ, zero, suc, ◌≡◌, ◌⊎◌, refl, sym, ap, ◌∙◌, subst, inl, inr, Option, none, some, Bool, true, not,
  arith, leb, if_elim, Bool-cases, Result, ok, err,
}
use yisync.Protocol.Message.{Bytes, Message}
use yisync.Network.Line.{SendKind, SendRequest, SendGrant}
use yisync.Sender.ChunkResend.{mark_chunk_sent, chunk_attempts, all_chunks_acked, all_of}
use yisync.Sender.ChunkResend.Selection.{Sendable}
use yisync.Sender.ChunkResend.Marks.{IsReady}
use yisync.Sender.Plan.{FileSendTask, PlanError, read_chunk_payload}
use yisync.Sender.ChunkTransfer.{
  Link, Work, ChunkOutcome, finished, waits, unfinished, exhausts, throws, max_chunk_attempts,
  send_buffered, after_chunk, after_read, after_next, chunk_rounds, commit_after,
  make_chunk_from_payload, request_of, schedule_chunk_work, send_commit_if_possible, committed,
}
use yisync.Sender.ChunkTransfer.Ends.{Reason, mark, all_rounds-Ends}

module _ {N : Type 0} (network : N → Message → SendRequest → N × Option SendGrant) (crc : Bytes → ℕ)
    (chunk_size max_retries current_tick rto_ticks : ℕ) where
  -- The loop changes the marks of chunks, and takes none for acknowledged.
  record Kept (task : FileSendTask) (w : Work N) : Type 0 where
    rest : w.task ≡ record task { chunk_resend = w.task.chunk_resend }
    acked : w.task.chunk_resend.acked ≡ task.chunk_resend.acked

  at_once :
      (l : Link N) (task : FileSendTask) (outcome : ChunkOutcome)
      → Kept task (record { link = l; task = task; outcome = outcome })
  at_once l task outcome = record { rest = refl; acked = refl }

  mark-Kept :
      (task : FileSendTask) (c line_id : ℕ) (w : Work N)
      → Kept (mark network crc chunk_size max_retries current_tick rto_ticks task c line_id) w
      → Kept task w
  unfolding mark_chunk_sent
  mark-Kept task c line_id w k = record { rest = k.rest; acked = ground (arith, k.acked) }

  module _ (task : FileSendTask) (rest : Link N → FileSendTask → Work N)
      (h : (c : ℕ) (l : Link N) (line_id : ℕ)
        → Kept task (
            rest l (
              mark network crc chunk_size max_retries current_tick rto_ticks task c line_id))) where
    after_chunk-Kept :
        (c : ℕ) (sent : Link N × Option SendGrant)
        → Kept task
            (after_chunk network crc chunk_size max_retries current_tick rto_ticks task c sent rest)
    after_chunk-Kept c (l, none) = at_once l task waits
    after_chunk-Kept c (l, some result) = h c l result.line_id

    after_read-Kept :
        (l : Link N) (c : ℕ) (read : Result PlanError Bytes)
        → Kept task (
            after_read network crc chunk_size max_retries current_tick rto_ticks l task c read rest)
    after_read-Kept l c (err e) = at_once l task (throws e)
    after_read-Kept l c (ok payload) =
        let message =
          Message.chunk (make_chunk_from_payload task c payload chunk_size (crc payload)) in
        after_chunk-Kept c (
          send_buffered network crc chunk_size max_retries current_tick rto_ticks l message
            (request_of task SendKind.chunk c message))

    after_next-Kept :
        (l : Link N) (found : Option ℕ)
        → Kept task
            (after_next network crc chunk_size max_retries current_tick rto_ticks l task found rest)
    after_next-Kept l none = at_once l task finished
    after_next-Kept l (some c) =
        elim (Bool-cases
          (leb (max_chunk_attempts max_retries) (chunk_attempts task.chunk_resend c))) [
            | inl many ↦ rw many (at_once l task (exhausts c))
            | inr few ↦ rw few (after_read-Kept l c (read_chunk_payload task c chunk_size))
          ]

  chunk_rounds-Kept :
      (fuel : ℕ) (l : Link N) (task : FileSendTask)
      → Kept task
          (chunk_rounds network crc chunk_size max_retries current_tick rto_ticks fuel l task)
  unfolding chunk_rounds
  chunk_rounds-Kept zero l task = at_once l task unfinished
  chunk_rounds-Kept (suc fuel) l task =
      after_next-Kept task _
        (λ c l' line_id. mark-Kept task c line_id _ (
          chunk_rounds-Kept fuel l'
            (mark network crc chunk_size max_retries current_tick rto_ticks task c line_id)))
        l _

  abbrev commit : Link N → FileSendTask → Link N × FileSendTask
  commit l task =
      send_commit_if_possible network crc chunk_size max_retries current_tick rto_ticks l task

  committed-resend :
      (task : FileSendTask) (sent : Link N × Option SendGrant)
      → (committed network crc chunk_size max_retries current_tick rto_ticks task
          sent).1.chunk_resend
        ≡ task.chunk_resend
  committed-resend task (l, none) = refl
  committed-resend task (l, some result) = refl

  commit-resend :
      (l : Link N) (task : FileSendTask) → (commit l task).1.chunk_resend ≡ task.chunk_resend
  unfolding send_commit_if_possible
  commit-resend l task =
      if_elim (λ (r : Link N × FileSendTask). r.1.chunk_resend ≡ task.chunk_resend) task.commit_sent
        (λ before. refl) (λ not_yet. committed-resend task _)

  -- The part behind the loop.
  -- A call has ended for a reason, and has sent no commit, or all chunks were acknowledged before.
  abbrev pub Done : FileSendTask → Work N → Type 0
  Done task w =
      Reason network crc chunk_size max_retries current_tick rto_ticks w.task w.outcome
      × ((w.task.commit_sent ≡ task.commit_sent) ⊎ (all_chunks_acked task.chunk_resend ≡ true))

  unchanged :
      (w : Work N) (outcome : ChunkOutcome)
      → w.outcome ≡ outcome
      → Reason network crc chunk_size max_retries current_tick rto_ticks w.task outcome
      → Done w.task w
  unchanged w outcome e reason = (
    subst (Reason network crc chunk_size max_retries current_tick rto_ticks w.task) (sym e) reason,
    inl refl,
  )

  commit_after-Done :
      (w : Work N) (outcome : ChunkOutcome)
      → w.outcome ≡ outcome
      → Reason network crc chunk_size max_retries current_tick rto_ticks w.task outcome
      → Done w.task
          (commit_after network crc chunk_size max_retries current_tick rto_ticks w outcome)
  commit_after-Done w finished e reason =
      if_elim (Done w.task) (all_chunks_acked w.task.chunk_resend)
        (λ all. (
          subst
              (Reason network crc chunk_size max_retries current_tick rto_ticks
                (commit w.link w.task).1)
              (sym e)
              (λ c can. reason c (
                subst (λ s. Sendable s current_tick rto_ticks c) (commit-resend w.link w.task)
                  can)),
          inr all,
        ))
        (λ some_left. unchanged w finished e reason)
  commit_after-Done w waits e reason = unchanged w waits e reason
  commit_after-Done w unfinished e reason = absurd reason
  commit_after-Done w (exhausts c) e reason = unchanged w (exhausts c) e reason
  commit_after-Done w (throws error) e reason = unchanged w (throws error) e reason

  Done-before :
      (task : FileSendTask) (w : Work N)
      → Kept task w
      → (w' : Work N) → Done w.task w'
      → Done task w'
  unfolding all_chunks_acked
  Done-before task w k w' (reason, inl same) =
      (reason, inl (same ∙ ap (λ (t : FileSendTask). t.commit_sent) k.rest))
  Done-before task w k w' (reason, inr all) = (reason, inr (ap all_of (sym k.acked) ∙ all))

  -- If the marks of a task are well-formed, its order has every chunk and the receiver is ready
  -- for the file, then `schedule_chunk_work` ends for a reason: no chunk is left to send now,
  -- or the network refuses one that is, or one was sent as often as allowed, or the reader has
  -- no bytes of one. It sends a commit only if all chunks were acknowledged before the call.
  pub schedule_chunk_work-Done :
      (l : Link N) (manifest_applied : Bool) (task : FileSendTask)
      → IsReady task.chunk_resend
      → task.begin_ready ≡ true
      → Done task (
          schedule_chunk_work network crc chunk_size max_retries current_tick rto_ticks l
            manifest_applied task)
  unfolding schedule_chunk_work
  schedule_chunk_work-Done l manifest_applied task r begin =
      let fuel = suc task.chunk_resend.chunk_count in
      let w = chunk_rounds network crc chunk_size max_retries current_tick rto_ticks fuel l task in
      if_elim (Done task) (not task.begin_ready) (λ not_ready. cc (begin, not_ready))
        (λ ready.
          Done-before task w (chunk_rounds-Kept fuel l task)
            (commit_after network crc chunk_size max_retries current_tick rto_ticks w w.outcome)
            (commit_after-Done w w.outcome refl
              (all_rounds-Ends network crc chunk_size max_retries current_tick rto_ticks l task r)))
