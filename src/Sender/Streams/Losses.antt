-- ===== src/Sender/Streams/Losses.antt =====
-- Lost sends in src/sender/yisync_sender_app.cpp: none is forgotten.
use yisync.Common.{
  ◌≡◌, refl, sym, subst, ◌⊎◌, inl, inr, List, [], ◌∷◌, ◌++◌, Option, none, some, Bool, true, false,
  not, ◌&&◌, arith, ◌==◌, if◌then◌else◌, get_or, get_or-set_self, get_elem?-set, if_elim,
}
use yisync.Network.Line.{SendKind, LostSend}
use yisync.Sender.ChunkResend.{chunk_index_valid, mark_chunk_lost}
use yisync.Sender.ChunkResend.Invariant.{IsValid}
use yisync.Sender.AppendState.{append_lost_matches, reset_append_inflight}
use yisync.Sender.SendBuffer.{
  SendBufferKey, SendBuffer, BufferedSend, key_for_lost_send, find, queued, enqueue_retransmit,
  is_found,
}
use yisync.Sender.SendBuffer.Keys.{same_key_refl}
use yisync.Sender.Plan.{FileSendTask, StreamSendState, active_task}
use yisync.Sender.Streams.{lose_chunked, lose_unbuffered, lose_task, lose_of_stream, Lost}

-- Whether the sender takes the message for sent and not acknowledged.
abbrev pub chunk_in_flight : FileSendTask → LostSend → SendKind → Bool
chunk_in_flight task lost SendKind.file_begin = task.begin_sent && not task.begin_ready
chunk_in_flight task lost SendKind.chunk =
    chunk_index_valid task.chunk_resend lost.send.chunk_index
    && get_or task.chunk_resend.sent lost.send.chunk_index false
    && not (get_or task.chunk_resend.acked lost.send.chunk_index false)
chunk_in_flight task lost SendKind.file_commit = task.commit_sent
chunk_in_flight task lost kind = false

abbrev pub in_flight : FileSendTask → LostSend → Bool
in_flight task lost =
    if not task.chunk_mode
    then append_lost_matches task.append lost
    else lost.send.seq == task.seq && chunk_in_flight task lost lost.send.kind

queued-last :
    (key : SendBufferKey) (keys : List SendBufferKey) → queued key (keys ++ key ∷ []) ≡ true
unfolding queued
queued-last key [] = ground (arith, same_key_refl key)
queued-last key (k ∷ keys) = ground (arith, queued-last key keys)

lose_chunked-not_in_flight :
    (task : FileSendTask) (lost : LostSend) (kind : SendKind)
    → IsValid task.chunk_resend
    → chunk_in_flight (lose_chunked task lost kind).0 lost kind ≡ false
unfolding mark_chunk_lost
lose_chunked-not_in_flight task lost SendKind.create v = refl
lose_chunked-not_in_flight task lost SendKind.data_send v = refl
lose_chunked-not_in_flight task lost SendKind.file_begin v = ground arith
lose_chunked-not_in_flight task lost SendKind.chunk v = ground (
  arith,
  v.sent,
  v.acked,
  get_or-set_self task.chunk_resend.sent lost.send.chunk_index false false,
)
lose_chunked-not_in_flight task lost SendKind.file_commit v = ground arith

reset-not_matches :
    (task : FileSendTask) (lost : LostSend)
    → append_lost_matches (reset_append_inflight task.append) lost ≡ false
unfolding append_lost_matches reset_append_inflight
reset-not_matches task lost = ground arith

lose_chunked-keeps :
    (task : FileSendTask) (lost : LostSend) (kind : SendKind)
    → ((lose_chunked task lost kind).0.chunk_mode ≡ task.chunk_mode)
      × ((lose_chunked task lost kind).0.seq ≡ task.seq)
lose_chunked-keeps task lost SendKind.create = (refl, refl)
lose_chunked-keeps task lost SendKind.data_send = (refl, refl)
lose_chunked-keeps task lost SendKind.file_begin = ground arith
lose_chunked-keeps task lost SendKind.chunk = (refl, refl)
lose_chunked-keeps task lost SendKind.file_commit = ground arith

second_false : (a b : Bool) → b ≡ false → (a && b) ≡ false
second_false true b h = h
second_false false b h = refl

is_found-none : (found : Option BufferedSend) → is_found found ≡ false → found ≡ none
is_found-none none h = refl
is_found-none (some send) h = cc h

enqueue_retransmit-queued :
    (b : SendBuffer) (key : SendBufferKey)
    → (enqueue_retransmit b key).1 ≡ true
    → queued key (enqueue_retransmit b key).0.retransmit_queue ≡ true
unfolding enqueue_retransmit
enqueue_retransmit-queued b key h = ground (arith, queued-last key b.retransmit_queue)

enqueue_retransmit-none :
    (b : SendBuffer) (key : SendBufferKey)
    → (enqueue_retransmit b key).1 ≡ false
    → find b key ≡ none
unfolding enqueue_retransmit
enqueue_retransmit-none b key h = is_found-none (find b key) (ground (arith, h))

not_in_flight :
    (task : FileSendTask) (lost : LostSend)
    → (not task.chunk_mode ≡ true → append_lost_matches task.append lost ≡ false)
    → (not task.chunk_mode ≡ false
        → (lost.send.seq == task.seq && chunk_in_flight task lost lost.send.kind) ≡ false)
    → in_flight task lost ≡ false
not_in_flight task lost append chunks = if_elim (λ b. b ≡ false) (not task.chunk_mode) append chunks

-- What has become of a lost send: its message is in the buffer and queued to be sent again, and the
-- stream is as it was; or it is not in the buffer, and the task no longer takes it for in flight, so
-- that it is due again.
abbrev pub Handled : SendBuffer → StreamSendState → LostSend → Lost → Type 0
Handled b s lost r =
    (queued (key_for_lost_send lost) r.buffer.retransmit_queue ≡ true) × (r.stream ≡ s)
    ⊎ (task' : FileSendTask) × (find b (key_for_lost_send lost) ≡ none)
      × (active_task r.stream ≡ some task')
      × (in_flight task' lost ≡ false)

module _ (b : SendBuffer) (s : StreamSendState) (task : FileSendTask) (lost : LostSend) where
  lose_unbuffered-Handled :
      active_task s ≡ some task
      → IsValid task.chunk_resend
      → (task' : FileSendTask) × (active_task (lose_unbuffered s task lost).0 ≡ some task')
        × (in_flight task' lost ≡ false)
  unfolding lose_unbuffered
  lose_unbuffered-Handled active v =
      let P = λ (r : StreamSendState × Bool).
        (task' : FileSendTask) × (active_task r.0 ≡ some task') × (in_flight task' lost ≡ false) in
      let reset = record task { append = reset_append_inflight task.append } in
      let other = (lose_chunked task lost lost.send.kind).0 in
      let keeps = lose_chunked-keeps task lost lost.send.kind in
      if_elim P (not task.chunk_mode)
        (λ appends.
          if_elim P (append_lost_matches task.append lost)
            (λ matches. (
              reset,
              get_elem?-set s.tasks s.current_task task reset active,
              not_in_flight reset lost (λ mode. reset-not_matches task lost)
                  (λ mode. cc (appends, mode)),
            ))
            (λ matches_not. (
              task,
              active,
              not_in_flight task lost (λ mode. matches_not) (λ mode. cc (appends, mode)),
            )))
        (λ chunks.
          if_elim P (lost.send.seq == task.seq)
            (λ current. (
              other,
              get_elem?-set s.tasks s.current_task task other active,
              not_in_flight other lost (λ mode. cc (chunks, mode, keeps.0))
                  (λ mode.
                    second_false _ _ (lose_chunked-not_in_flight task lost lost.send.kind v)),
            ))
            (λ stale. (
              task,
              active,
              not_in_flight task lost (λ mode. cc (chunks, mode)) (λ mode. rw stale refl),
            )))

  lose_task-Handled :
      active_task s ≡ some task
      → task.file_id ≡ lost.send.file_id
      → IsValid task.chunk_resend
      → Handled b s lost (lose_task b s lost (some task))
  lose_task-Handled active same v =
      let key = key_for_lost_send lost in
      if_elim (Handled b s lost) (not (task.file_id == lost.send.file_id))
        (λ other. absurd (ground arith))
        (λ this.
          if_elim (Handled b s lost) (enqueue_retransmit b key).1
            (λ buffered. inl (enqueue_retransmit-queued b key buffered, refl))
            (λ unbuffered.
              let (task', now, gone) = lose_unbuffered-Handled active v in
              inr (task', enqueue_retransmit-none b key unbuffered, now, gone)))

  -- A send that a line has lost, of the file that an incomplete stream is at, with well-formed
  -- marks: either its message is queued to be sent again and the stream does not change; or its
  -- message is not in the buffer, and then the task no longer takes it for in flight.
  pub lose_of_stream-Handled :
      s.complete ≡ false
      → active_task s ≡ some task
      → task.file_id ≡ lost.send.file_id
      → IsValid task.chunk_resend
      → Handled b s lost (lose_of_stream b s lost)
  unfolding lose_of_stream
  lose_of_stream-Handled going active same v =
      if_elim (Handled b s lost) s.complete (λ done. cc (going, done))
        (λ still.
          subst (λ found. Handled b s lost (lose_task b s lost found)) (sym active)
            (lose_task-Handled active same v))
