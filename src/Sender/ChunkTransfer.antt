-- ===== src/Sender/ChunkTransfer.antt =====
-- The transfer of a file by chunks in src/sender/yisync_sender_app.cpp: `send_buffered`,
-- `send_file_begin`, `schedule_chunk_work`, `send_commit_if_possible`. The sender has neither failed
-- nor ended, and `drop_line_once`, an option for tests, is 0.
pub mod Wanted
pub mod Ends
pub mod Commits
pub mod Examples
use yisync.Common.{
  ℕ, zero, suc, ◌+◌, ◌*◌, ◌%◌, Option, none, some, Bool, true, false, not, ◌||◌, leb, ◌==◌,
  if◌then◌else◌, length, Result, ok, err, u32_mod, u64_mod,
}
use yisync.Protocol.Codes.{Compression, ChecksumAlgo}
use yisync.Protocol.Message.{Bytes, Message, FileBegin, Chunk, FileCommit}
use yisync.Protocol.Frame.{crc32c_bytes, encode_frame}
use yisync.Network.Line.{SendKind, SendRequest, SendGrant}
use yisync.Sender.ChunkResend.{
  mark_chunk_sent, chunk_attempts, all_chunks_acked, next_chunk_to_send,
}
use yisync.Sender.SendBuffer.{SendBuffer, remember}
use yisync.Sender.Plan.{FileSendTask, PlanError, no_checksum, read_chunk_payload}

-- The network and what was sent over it.
pub record Link (N : Type 0) : Type 0 where
  pub net : N
  pub buffer : SendBuffer

-- How `schedule_chunk_work` ends: no chunk is left to send now, the network does not take a message,
-- a chunk was sent too often, or its range cannot be read. No run is `unfinished`.
pub data ChunkOutcome : Type 0 where
  finished waits unfinished : ChunkOutcome
  exhausts : ℕ → ChunkOutcome
  throws : PlanError → ChunkOutcome

pub record Work (N : Type 0) : Type 0 where
  pub link : Link N
  pub task : FileSendTask
  pub outcome : ChunkOutcome

abbrev pub encoded_message_size : Message → ℕ
encoded_message_size m = length (encode_frame m)

-- `crc` is the result of the library's function on the payload.
unfoldable pub make_chunk_from_payload : FileSendTask → ℕ → Bytes → ℕ → ℕ → Chunk
make_chunk_from_payload task chunk_index payload chunk_size crc = record {
  stream_id = task.stream_id;
  seq = task.seq;
  file_id = task.file_id;
  chunk_index = chunk_index;
  offset = chunk_index * chunk_size % u64_mod;
  raw_len = length payload % u32_mod;
  compression = Compression.none;
  checksum_algo = ChecksumAlgo.crc32c;
  checksum = crc32c_bytes crc;
  payload = payload;
}

abbrev pub request_of : FileSendTask → SendKind → ℕ → Message → SendRequest
request_of task kind chunk_index message = record {
  stream_id = task.stream_id;
  file_id = task.file_id;
  seq = task.seq;
  offset = 0;
  end_offset = 0;
  bytes = encoded_message_size message;
  split_allowed = false;
  kind = kind;
  chunk_index = chunk_index;
}

abbrev pub begin_of : FileSendTask → ℕ → Message
begin_of task chunk_size = Message.file_begin (record {
  stream_id = task.stream_id;
  seq = task.seq;
  file_id = task.file_id;
  name = task.name;
  final_size = task.source_size;
  chunk_size = chunk_size;
  chunk_count = task.chunk_count;
  file_checksum = task.source_checksum;
  prev_file_id = 0;
  prev_final_size = 0;
  prev_checksum = no_checksum;
})

abbrev pub commit_of : FileSendTask → Message
commit_of task =
    Message.file_commit
      (record { stream_id = task.stream_id; seq = task.seq; file_id = task.file_id })

-- `max_retransmit_retries` and one more, where 64 bits have room for it.
abbrev pub max_chunk_attempts : ℕ → ℕ
max_chunk_attempts retries = if retries + 1 == u64_mod then retries else retries + 1

-- `network` is `network_.send`: the line and the bytes, if the message is sent. `crc` is the library's
-- function.
module _ {N : Type 0} (network : N → Message → SendRequest → N × Option SendGrant) (crc : Bytes → ℕ)
    (chunk_size max_retries current_tick rto_ticks : ℕ) where
  abbrev pub after_network :
      SendBuffer → Message → SendRequest → N × Option SendGrant → Link N × Option SendGrant
  after_network b message request (n, none) = (record { net = n; buffer = b }, none)
  after_network b message request (n, some result) = (
    record {
      net = n;
      buffer = remember b message (record request { bytes = result.bytes }) current_tick;
    },
    some result,
  )

  unfoldable pub send_buffered : Link N → Message → SendRequest → Link N × Option SendGrant
  send_buffered l message request =
      after_network l.buffer message request (network l.net message request)

  abbrev pub begun : FileSendTask → Link N × Option SendGrant → Link N × FileSendTask
  begun task (l, none) = (l, task)
  begun task (l, some result) =
      (l, record task { begin_sent = true; begin_line_id = result.line_id })

  unfoldable pub send_file_begin : Link N → Bool → FileSendTask → Link N × FileSendTask
  send_file_begin l manifest_applied task =
      let message = begin_of task chunk_size in
      if not task.chunk_mode || task.begin_sent || not manifest_applied
      then (l, task)
      else begun task (send_buffered l message (request_of task SendKind.file_begin 0 message))

  abbrev pub committed : FileSendTask → Link N × Option SendGrant → Link N × FileSendTask
  committed task (l, none) = (l, task)
  committed task (l, some result) =
      (l, record task { commit_sent = true; commit_line_id = result.line_id })

  unfoldable pub send_commit_if_possible : Link N → FileSendTask → Link N × FileSendTask
  send_commit_if_possible l task =
      let message = commit_of task in
      if task.commit_sent
      then (l, task)
      else committed task (send_buffered l message (request_of task SendKind.file_commit 0 message))

  abbrev pub ended : Link N → FileSendTask → ChunkOutcome → Work N
  ended l task outcome = record { link = l; task = task; outcome = outcome }

  abbrev pub after_chunk :
      FileSendTask → ℕ → Link N × Option SendGrant → (Link N → FileSendTask → Work N) → Work N
  after_chunk task index (l, none) rest = ended l task waits
  after_chunk task index (l, some result) rest = rest l (record task {
    chunk_resend = (mark_chunk_sent task.chunk_resend index result.line_id current_tick).0;
  })

  abbrev pub after_read :
      Link N → FileSendTask → ℕ → Result PlanError Bytes → (Link N → FileSendTask → Work N) → Work N
  after_read l task index (err e) rest = ended l task (throws e)
  after_read l task index (ok payload) rest =
      let message =
        Message.chunk (make_chunk_from_payload task index payload chunk_size (crc payload)) in
      after_chunk task index
        (send_buffered l message (request_of task SendKind.chunk index message)) rest

  abbrev pub after_next :
      Link N → FileSendTask → Option ℕ → (Link N → FileSendTask → Work N) → Work N
  after_next l task none rest = ended l task finished
  after_next l task (some index) rest =
      if leb (max_chunk_attempts max_retries) (chunk_attempts task.chunk_resend index)
      then ended l task (exhausts index)
      else after_read l task index (read_chunk_payload task index chunk_size) rest

  -- The loop. A chunk that was sent is not offered again in it, so as many rounds as there are
  -- chunks, and a last one, are enough.
  unfoldable pub chunk_rounds : ℕ → Link N → FileSendTask → Work N
  chunk_rounds zero l task = ended l task unfinished
  chunk_rounds (suc fuel) l task =
      after_next l task (next_chunk_to_send task.chunk_resend current_tick rto_ticks)
        (λ l' t. chunk_rounds fuel l' t)

  abbrev pub commit_after : Work N → ChunkOutcome → Work N
  commit_after w finished =
      let (l, t) = send_commit_if_possible w.link w.task in
      if all_chunks_acked w.task.chunk_resend then record w { link = l; task = t } else w
  commit_after w other = w

  abbrev pub only_begin : Link N × FileSendTask → Work N
  only_begin (l, task) = ended l task finished

  unfoldable pub schedule_chunk_work : Link N → Bool → FileSendTask → Work N
  schedule_chunk_work l manifest_applied task =
      let w = chunk_rounds (suc task.chunk_resend.chunk_count) l task in
      if not task.begin_ready
      then only_begin (send_file_begin l manifest_applied task)
      else commit_after w w.outcome
