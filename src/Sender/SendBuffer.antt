-- ===== src/Sender/SendBuffer.antt =====
-- src/sender/yisync_send_buffer.cpp: the messages that are sent and not acknowledged, and the queue of
-- those to send again. The hash map is a list of its entries, in the order of an iteration.
pub mod Keys
pub mod Refine
pub mod Nacks
pub mod Flush
pub mod Examples
use yisync.Common.{
  ℕ, zero, suc, ◌+◌, ◌-◌, ◌/◌, ◌%◌, List, [], ◌∷◌, ◌++◌, Option, none, some, Bool, true, false, not,
  ◌&&◌, ◌||◌, ltb, leb, ◌==◌, if◌then◌else◌, length, u64_mod,
}
use yisync.Protocol.Codes.{NackReason}
use yisync.Protocol.Message.{Message, Heartbeat, Nack, ReceivedChunk}
use yisync.Network.Line.{SendKind, SendRequest, LostSend}

pub record SendBufferKey : Type 0 where
  pub kind : SendKind
  pub stream_id : ℕ
  pub file_id : ℕ
  pub seq : ℕ
  pub offset : ℕ
  pub chunk_index : ℕ

abbrev pub kind_code : SendKind → ℕ
kind_code SendKind.create = 1
kind_code SendKind.data_send = 2
kind_code SendKind.file_begin = 3
kind_code SendKind.chunk = 4
kind_code SendKind.file_commit = 5

-- `operator==`.
unfoldable pub same_key : SendBufferKey → SendBufferKey → Bool
same_key a b =
    kind_code a.kind == kind_code b.kind
    && a.stream_id == b.stream_id
    && a.file_id == b.file_id
    && a.seq == b.seq
    && a.offset == b.offset
    && a.chunk_index == b.chunk_index

pub record BufferedSend : Type 0 where
  pub message : Message
  pub request : SendRequest
  pub last_sent_tick : ℕ
  pub nack_retries : ℕ

pub record AckedSendSample : Type 0 where
  pub key : SendBufferKey
  pub request : SendRequest
  pub rtt_ticks : ℕ

-- An entry of the map.
pub record Slot : Type 0 where
  pub key : SendBufferKey
  pub send : BufferedSend

pub record SendBuffer : Type 0 where
  pub entries : List Slot
  pub retransmit_queue : List SendBufferKey

abbrev pub clear : SendBuffer
clear = record { entries = []; retransmit_queue = [] }

abbrev pub key_for_request : SendRequest → SendBufferKey
key_for_request r = record {
  kind = r.kind;
  stream_id = r.stream_id;
  file_id = r.file_id;
  seq = r.seq;
  offset = r.offset;
  chunk_index = r.chunk_index;
}

abbrev pub key_for_lost_send : LostSend → SendBufferKey
key_for_lost_send lost = record {
  kind = lost.send.kind;
  stream_id = lost.send.stream_id;
  file_id = lost.send.file_id;
  seq = lost.send.seq;
  offset = lost.send.offset;
  chunk_index = lost.send.chunk_index;
}

unfoldable pub lookup : SendBufferKey → List Slot → Option BufferedSend
lookup key [] = none
lookup key (s ∷ slots) =
    let rest = lookup key slots in if same_key s.key key then some s.send else rest

-- An assignment to the entry of a key, which makes it where there is none.
unfoldable pub assign : SendBufferKey → BufferedSend → List Slot → List Slot
assign key send [] = record { key = key; send = send } ∷ []
assign key send (s ∷ slots) =
    let rest = assign key send slots in
    if same_key s.key key then record { key = s.key; send = send } ∷ slots else s ∷ rest

unfoldable pub erase_key : SendBufferKey → List Slot → List Slot
erase_key key [] = []
erase_key key (s ∷ slots) =
    let rest = erase_key key slots in if same_key s.key key then slots else s ∷ rest

abbrev pub find : SendBuffer → SendBufferKey → Option BufferedSend
find b key = lookup key b.entries

unfoldable pub remember : SendBuffer → Message → SendRequest → ℕ → SendBuffer
remember b message request sent_tick = record b {
  entries =
      assign (key_for_request request)
        (record {
          message = message;
          request = request;
          last_sent_tick = sent_tick;
          nack_retries = 0;
        })
        b.entries;
}

abbrev pub sample_for : SendBufferKey → BufferedSend → ℕ → AckedSendSample
sample_for key send current_tick = record {
  key = key;
  request = send.request;
  rtt_ticks =
      if leb send.last_sent_tick current_tick then current_tick - send.last_sent_tick else 0;
}

abbrev pub is_data : SendKind → Bool
is_data SendKind.data_send = true
is_data kind = false

-- The test of `erase_completed` on one entry.
unfoldable pub acked : Heartbeat → SendBufferKey → BufferedSend → Bool
acked hb key send =
    (key.stream_id == hb.stream_id && ltb key.seq hb.next_seq)
    || (key.stream_id == hb.stream_id
        && key.file_id == hb.file_id
        && is_data key.kind
        && not (send.request.end_offset == 0)
        && (leb send.request.end_offset hb.offset || leb send.request.end_offset hb.durable_offset))

unfoldable pub erase_acked : Heartbeat → ℕ → List Slot → List Slot × List AckedSendSample
erase_acked hb current_tick [] = ([], [])
erase_acked hb current_tick (s ∷ slots) =
    let rest = erase_acked hb current_tick slots in
    if acked hb s.key s.send
    then (rest.0, sample_for s.key s.send current_tick ∷ rest.1)
    else (s ∷ rest.0, rest.1)

unfoldable pub erase_completed : SendBuffer → Heartbeat → ℕ → SendBuffer × List AckedSendSample
erase_completed b hb current_tick =
    let erased = erase_acked hb current_tick b.entries in
    if hb.next_seq == 0 then (b, []) else (record b { entries = erased.0 }, erased.1)

abbrev pub erase_found :
    SendBuffer → SendBufferKey → ℕ → Option BufferedSend → SendBuffer × Option AckedSendSample
erase_found b key current_tick none = (b, none)
erase_found b key current_tick (some send) =
    (record b { entries = erase_key key b.entries }, some (sample_for key send current_tick))

abbrev pub key_of : SendKind → ℕ → ℕ → ℕ → ℕ → ℕ → SendBufferKey
key_of kind stream_id file_id seq offset chunk_index = record {
  kind = kind;
  stream_id = stream_id;
  file_id = file_id;
  seq = seq;
  offset = offset;
  chunk_index = chunk_index;
}

unfoldable pub erase_file_begin : SendBuffer → ℕ → ℕ → ℕ → ℕ → SendBuffer × Option AckedSendSample
erase_file_begin b stream_id file_id seq current_tick =
    let key = key_of SendKind.file_begin stream_id file_id seq 0 0 in
    erase_found b key current_tick (find b key)

unfoldable pub erase_chunk :
    SendBuffer → ReceivedChunk → ℕ → ℕ → SendBuffer × Option AckedSendSample
erase_chunk b chunk stream_id current_tick =
    let key = key_of SendKind.chunk stream_id chunk.file_id chunk.seq 0 chunk.chunk_index in
    erase_found b key current_tick (find b key)

abbrev pub is_found : Option BufferedSend → Bool
is_found none = false
is_found (some send) = true

-- The key, if the map has it.
unfoldable pub present : SendBuffer → SendBufferKey → Option SendBufferKey
present b key = if is_found (find b key) then some key else none

abbrev pub or_else : Option SendBufferKey → Option SendBufferKey → Option SendBufferKey
or_else none other = other
or_else (some key) other = some key

unfoldable pub unless_zero : ℕ → Option SendBufferKey → Option SendBufferKey
unless_zero seq key = if seq == 0 then none else key

module _ (b : SendBuffer) (nack : Nack) (chunk_size : ℕ) where
  abbrev pub nack_key : SendKind → ℕ → ℕ → ℕ → SendBufferKey
  nack_key kind seq offset chunk_index =
      key_of kind nack.stream_id nack.file_id seq offset chunk_index

  abbrev pub nack_chunk_index : ℕ
  nack_chunk_index = if chunk_size == 0 then 0 else nack.offset / chunk_size

  abbrev pub find_ordered : ℕ → Option SendBufferKey
  find_ordered seq = unless_zero seq (
      or_else (present b (nack_key SendKind.create seq 0 0))
        (present b (nack_key SendKind.data_send seq nack.offset 0)))

  abbrev pub find_file_begin : ℕ → Option SendBufferKey
  find_file_begin seq = unless_zero seq (present b (nack_key SendKind.file_begin seq 0 0))

  abbrev pub find_file_commit : ℕ → Option SendBufferKey
  find_file_commit seq = unless_zero seq (present b (nack_key SendKind.file_commit seq 0 0))

  abbrev pub find_chunk : ℕ → Option SendBufferKey
  find_chunk seq = unless_zero seq (present b (nack_key SendKind.chunk seq 0 nack_chunk_index))

  -- The tests of `nack.reason`.
  abbrev pub by_reason : NackReason → Option SendBufferKey
  by_reason NackReason.bad_seq = or_else (find_ordered nack.expected_seq) (
      or_else (find_file_begin nack.expected_seq)
        (or_else (find_file_commit nack.expected_seq) (find_chunk nack.expected_seq)))
  by_reason NackReason.bad_checksum = or_else (find_chunk nack.got_seq) (find_ordered nack.got_seq)
  by_reason NackReason.bad_offset = or_else (find_chunk nack.got_seq) (find_ordered nack.got_seq)
  by_reason NackReason.bad_chunk = or_else (find_file_begin nack.got_seq) (find_chunk nack.got_seq)
  by_reason NackReason.bad_commit = find_file_commit nack.got_seq
  by_reason reason = none

  -- What the code tries last, for any reason.
  abbrev pub by_got_seq : Option SendBufferKey
  by_got_seq = or_else (present b (nack_key SendKind.create nack.got_seq 0 0)) (
      or_else (present b (nack_key SendKind.data_send nack.got_seq nack.offset 0)) (
        or_else (present b (nack_key SendKind.file_begin nack.got_seq 0 0)) (
          or_else (present b (nack_key SendKind.file_commit nack.got_seq 0 0))
            (find_chunk nack.got_seq))))

  unfoldable pub key_for_nack : Option SendBufferKey
  key_for_nack = if nack.file_id == 0 then none else or_else (by_reason nack.reason) by_got_seq

unfoldable pub queued : SendBufferKey → List SendBufferKey → Bool
queued key [] = false
queued key (k ∷ keys) = same_key k key || queued key keys

unfoldable pub enqueue_retransmit : SendBuffer → SendBufferKey → SendBuffer × Bool
enqueue_retransmit b key =
    if not (is_found (find b key))
    then (b, false)
    else (if queued key b.retransmit_queue
        then (b, true)
        else (record b { retransmit_queue = b.retransmit_queue ++ key ∷ [] }, true))

abbrev pub enqueue_key : SendBuffer → Option SendBufferKey → SendBuffer × Bool
enqueue_key b none = (b, false)
enqueue_key b (some key) = enqueue_retransmit b key

unfoldable pub enqueue_nack_retransmit : SendBuffer → Nack → ℕ → SendBuffer × Bool
enqueue_nack_retransmit b nack chunk_size = enqueue_key b (key_for_nack b nack chunk_size)

abbrev pub retransmitted : BufferedSend → ℕ → ℕ → BufferedSend
retransmitted send bytes sent_tick = record send {
  request = record (send.request) { bytes = bytes };
  last_sent_tick = sent_tick;
  nack_retries = (send.nack_retries + 1) % u64_mod;
}

abbrev pub mark_found : SendBuffer → SendBufferKey → ℕ → ℕ → Option BufferedSend → SendBuffer × Bool
mark_found b key bytes sent_tick none = (b, false)
mark_found b key bytes sent_tick (some send) =
    (record b { entries = assign key (retransmitted send bytes sent_tick) b.entries }, true)

unfoldable pub mark_retransmitted : SendBuffer → SendBufferKey → ℕ → ℕ → SendBuffer × Bool
mark_retransmitted b key bytes sent_tick = mark_found b key bytes sent_tick (find b key)

-- The test of `expired_keys` on one entry.
abbrev pub expired : ℕ → ℕ → BufferedSend → Bool
expired current_tick rto_ticks send =
    if ltb current_tick send.last_sent_tick
    then false
    else leb rto_ticks (current_tick - send.last_sent_tick)

-- The loop, with `room` for more keys below `max_keys`.
unfoldable pub expired_within : ℕ → ℕ → ℕ → List Slot → List SendBufferKey
expired_within current_tick rto_ticks room [] = []
expired_within current_tick rto_ticks zero (s ∷ slots) = []
expired_within current_tick rto_ticks (suc room) (s ∷ slots) =
    if expired current_tick rto_ticks s.send
    then s.key ∷ expired_within current_tick rto_ticks room slots
    else expired_within current_tick rto_ticks (suc room) slots

unfoldable pub expired_keys : SendBuffer → ℕ → ℕ → ℕ → List SendBufferKey
expired_keys b current_tick rto_ticks max_keys =
    if rto_ticks == 0 then [] else expired_within current_tick rto_ticks max_keys b.entries

abbrev pub without : List SendBufferKey → ℕ → List SendBufferKey
without [] index = []
without (k ∷ keys) zero = keys
without (k ∷ keys) (suc index) = k ∷ without keys index

unfoldable pub erase_retransmit : SendBuffer → ℕ → SendBuffer
erase_retransmit b index = record b { retransmit_queue = without b.retransmit_queue index }
