-- ===== src/Network/Line.antt =====
-- The state of one line in include/network/yisync_scheduler.hpp, and the functions of
-- src/network/yisync_scheduler.cpp that work on one line.
pub mod Accounting
use yisync.Common.{
  ℕ, suc, ◌+◌, ◌-◌, ◌*◌, ◌/◌, ◌%◌, min, List, [], ◌∷◌, ◌++◌, map, Bool, true, false, not, ◌&&◌,
  ◌||◌, ltb, leb, ◌==◌, if◌then◌else◌, is_empty, u64_mod, u64_max,
}
use yisync.Protocol.Message.{Bytes, Heartbeat, ReceivedChunk}
use yisync.Network.TokenBucket.{TokenBucket, TokenBucketConfig, can_consume}
use yisync.Network.TokenBucket

pub data SendKind : Type 0 where
  create data_send file_begin chunk file_commit : SendKind

pub record SendRequest : Type 0 where
  pub stream_id : ℕ
  pub file_id : ℕ
  pub seq : ℕ
  pub offset : ℕ
  pub end_offset : ℕ
  pub bytes : ℕ
  pub split_allowed : Bool
  pub kind : SendKind
  pub chunk_index : ℕ

pub record SendGrant : Type 0 where
  pub line_id : ℕ
  pub bytes : ℕ

pub record PendingSend : Type 0 where
  pub kind : SendKind
  pub stream_id : ℕ
  pub file_id : ℕ
  pub seq : ℕ
  pub offset : ℕ
  pub end_offset : ℕ
  pub chunk_index : ℕ
  pub bytes : ℕ

-- `T_LostSend`: the line, and the fields of the pending send.
pub record LostSend : Type 0 where
  pub line_id : ℕ
  pub send : PendingSend

pub record LineConfig : Type 0 where
  pub id : ℕ
  pub name : Bytes
  pub limiter : TokenBucketConfig
  pub initial_recv_window_bytes : ℕ
  pub heartbeat_timeout_ticks : ℕ
  pub initially_connected : Bool

pub record LineState : Type 0 where
  pub config : LineConfig
  pub bucket : TokenBucket
  pub inflight_bytes : ℕ
  pub recv_window_bytes : ℕ
  pub missed_heartbeat_ticks : ℕ
  pub consecutive_failures : ℕ
  pub last_completed_bytes : ℕ
  pub connected : Bool
  pub negotiated : Bool
  pub healthy : Bool
  pub stale : Bool
  pub pending : List PendingSend

-- The test at the head of the loops of `try_acquire` and `choose_control_line`.
abbrev pub usable : LineState → Bool
usable line = line.connected && line.negotiated && line.healthy && not line.stale

-- `none` of the `continue`s of `try_acquire` is taken.
unfoldable pub eligible : SendRequest → LineState → Bool
eligible request line =
    usable line
    && ltb line.inflight_bytes line.recv_window_bytes
    && leb request.bytes (line.recv_window_bytes - line.inflight_bytes)
    && can_consume line.bucket request.bytes

-- On an eligible line the two differences do not go below 0. The sums are those of `uint64_t`.
unfoldable pub score_line : LineState → SendRequest → ℕ
score_line line request =
    let window_headroom = line.recv_window_bytes - line.inflight_bytes in
    let token_headroom = line.bucket.tokens - request.bytes in
    let failure_penalty = min line.consecutive_failures 16 * 1024 * 1024 in
    let inflight_penalty = line.inflight_bytes / 2 in
    let stale_penalty = line.missed_heartbeat_ticks * 1024 % u64_mod in
    let completed_bonus = min line.last_completed_bytes (1024 * 1024) in
    let raw_score = (window_headroom + token_headroom + completed_bonus) % u64_mod in
    let penalty = (failure_penalty + inflight_penalty + stale_penalty) % u64_mod in
    if ltb penalty raw_score then raw_score - penalty else 1

abbrev pub pending_of : SendRequest → PendingSend
pending_of request = record {
  kind = request.kind;
  stream_id = request.stream_id;
  file_id = request.file_id;
  seq = request.seq;
  offset = request.offset;
  end_offset = request.end_offset;
  chunk_index = request.chunk_index;
  bytes = request.bytes;
}

-- What `try_acquire` does to the line that it chose, after `try_consume`.
unfoldable pub charge : SendRequest → TokenBucket → LineState → LineState
charge request bucket line = record line {
  bucket = bucket;
  missed_heartbeat_ticks = if is_empty line.pending then 0 else line.missed_heartbeat_ticks;
  stale = if is_empty line.pending then false else line.stale;
  inflight_bytes = (line.inflight_bytes + request.bytes) % u64_mod;
  pending = line.pending ++ (pending_of request ∷ []);
}

-- One round of the loop of `refill_ticks`.
unfoldable pub refill : ℕ → LineState → LineState
refill ticks line =
    let missed =
      if ltb (u64_max - ticks) line.missed_heartbeat_ticks
      then u64_max
      else line.missed_heartbeat_ticks + ticks in
    let late =
      not (is_empty line.pending)
      && ltb 0 line.config.heartbeat_timeout_ticks
      && ltb line.config.heartbeat_timeout_ticks missed in
    let refilled = record line { bucket = TokenBucket.refill_ticks line.bucket ticks } in
    if not line.connected || ticks == 0 then refilled else record refilled {
      missed_heartbeat_ticks = missed;
      stale = if late then true else line.stale;
    }

-- `clear_inflight`: the line, and what it appends to `lost_sends_`.
unfoldable pub clear_inflight : LineState → LineState
clear_inflight line = record line { inflight_bytes = 0; last_completed_bytes = 0; pending = [] }

unfoldable pub lost_from : LineState → List LostSend
lost_from line = map (λ send. record { line_id = line.config.id; send = send }) line.pending

-- A chunk that the heartbeat lists as received.
unfoldable pub chunk_completed : ℕ → PendingSend → List ReceivedChunk → Bool
chunk_completed stream_id send [] = false
chunk_completed stream_id send (received ∷ more) =
    (send.stream_id == stream_id
      && send.file_id == received.file_id
      && send.seq == received.seq
      && send.chunk_index == received.chunk_index)
    || chunk_completed stream_id send more

-- The predicate of `on_heartbeat`'s `remove_if`.
unfoldable pub completed : Heartbeat → SendKind → PendingSend → Bool
completed hb SendKind.chunk send = chunk_completed hb.stream_id send hb.received_chunks
completed hb SendKind.data_send send =
    send.stream_id == hb.stream_id
    && send.file_id == hb.file_id
    && (ltb send.seq hb.next_seq
        || leb send.end_offset hb.offset
        || leb send.end_offset hb.durable_offset)
completed hb kind send =
    send.stream_id == hb.stream_id && send.file_id == hb.file_id && ltb send.seq hb.next_seq

-- The sends that stay pending, and `completed_bytes` over the ones that do not.
unfoldable pub still_pending : Heartbeat → List PendingSend → List PendingSend
still_pending hb [] = []
still_pending hb (send ∷ sends) =
    if completed hb send.kind send then still_pending hb sends else send ∷ still_pending hb sends

unfoldable pub completed_bytes : Heartbeat → ℕ → List PendingSend → ℕ
completed_bytes hb sum [] = sum
completed_bytes hb sum (send ∷ sends) =
    completed_bytes hb (if completed hb send.kind send then (sum + send.bytes) % u64_mod else sum)
      sends

-- `on_heartbeat` on its line.
unfoldable pub heartbeat : Heartbeat → LineState → LineState
heartbeat hb line =
    let bytes = completed_bytes hb 0 line.pending in
    record line {
      pending = still_pending hb line.pending;
      inflight_bytes = if leb line.inflight_bytes bytes then 0 else line.inflight_bytes - bytes;
      recv_window_bytes = hb.recv_window_bytes;
      missed_heartbeat_ticks = 0;
      consecutive_failures = 0;
      last_completed_bytes = bytes;
      connected = true;
      negotiated = true;
      healthy = true;
      stale = false;
    }

-- The other handlers on their line, up to the `clear_inflight` that ends all but the second.
unfoldable pub connected : LineState → LineState
connected line = record line {
  connected = true;
  negotiated = false;
  healthy = false;
  stale = false;
  missed_heartbeat_ticks = 0;
  last_completed_bytes = 0;
  recv_window_bytes = line.config.initial_recv_window_bytes;
}

unfoldable pub negotiated : ℕ → LineState → LineState
negotiated window line = record line {
  connected = true;
  negotiated = true;
  healthy = true;
  stale = false;
  missed_heartbeat_ticks = 0;
  consecutive_failures = 0;
  last_completed_bytes = 0;
  recv_window_bytes = if window == 0 then line.config.initial_recv_window_bytes else window;
}

-- `on_line_disconnected`, and the same in `on_line_protocol_error`.
unfoldable pub disconnected : LineState → LineState
disconnected line = record line {
  connected = false;
  negotiated = false;
  healthy = false;
  stale = true;
  consecutive_failures = (line.consecutive_failures + 1) % u64_mod;
}

-- `on_line_failure`, and the same in `on_nack`.
unfoldable pub failed : LineState → LineState
failed line = record line {
  healthy = false;
  stale = true;
  consecutive_failures = (line.consecutive_failures + 1) % u64_mod;
}
