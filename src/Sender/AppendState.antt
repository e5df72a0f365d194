-- ===== src/Sender/AppendState.antt =====
-- src/sender/yisync_append_state.cpp: the sender's state while it appends to one file.
pub mod Transfer
use yisync.Common.{
  ℕ, ◌+◌, ◌-◌, ◌%◌, Bool, true, false, not, ◌&&◌, ◌||◌, ltb, leb, ◌==◌, if◌then◌else◌, u64_mod,
}
use yisync.Protocol.Codes.{EntryKind}
use yisync.Protocol.Message.{Heartbeat}
use yisync.Network.Line.{SendKind, LostSend}
use yisync.Sync.{SyncStart, StartAction}

pub record AppendSendState : Type 0 where
  pub needs_create : Bool
  pub data_needed : Bool
  pub create_sent : Bool
  pub create_ready : Bool
  pub data_sent : Bool
  pub create_line_id : ℕ
  pub data_line_id : ℕ
  pub offset : ℕ
  pub next_offset : ℕ
  pub current_data_len : ℕ
  pub seq : ℕ
  pub done_next_seq : ℕ

-- `T_AppendSendState{}`, which `reset_append_state` assigns.
abbrev pub reset_append_state : AppendSendState
reset_append_state = record {
  needs_create = false;
  data_needed = false;
  create_sent = false;
  create_ready = false;
  data_sent = false;
  create_line_id = 0;
  data_line_id = 0;
  offset = 0;
  next_offset = 0;
  current_data_len = 0;
  seq = 0;
  done_next_seq = 0;
}

unfoldable pub reset_append_inflight : AppendSendState → AppendSendState
reset_append_inflight s = record s {
  create_sent = false;
  create_ready = false;
  data_sent = false;
  create_line_id = 0;
  data_line_id = 0;
  current_data_len = 0;
}

abbrev pub append_inflight : AppendSendState → Bool
append_inflight s = s.create_sent || s.data_sent

abbrev pub is_create : StartAction → Bool
is_create StartAction.create_missing = true
is_create StartAction.resume_existing = false

unfoldable pub start_append_plan : AppendSendState → SyncStart → ℕ → ℕ → AppendSendState
start_append_plan s diff task_seq source_size = record s {
  needs_create = is_create diff.start_action;
  offset = diff.start_offset;
  next_offset = diff.start_offset;
  data_needed = ltb diff.start_offset source_size;
  seq = task_seq;
  done_next_seq = (task_seq + 1) % u64_mod;
  create_ready = not (is_create diff.start_action);
  create_sent = false;
  data_sent = false;
  create_line_id = 0;
  data_line_id = 0;
  current_data_len = 0;
}

-- The same as `mark_append_create_retransmitted`.
unfoldable pub mark_append_create_sent : AppendSendState → ℕ → AppendSendState
mark_append_create_sent s line_id = record s { create_sent = true; create_line_id = line_id }

unfoldable pub mark_append_data_sent : AppendSendState → ℕ → ℕ → AppendSendState
mark_append_data_sent s line_id data_len = record s {
  data_sent = true;
  data_line_id = line_id;
  current_data_len = data_len;
}

unfoldable pub mark_append_create_ready_from_heartbeat :
    AppendSendState → Heartbeat → AppendSendState × Bool
mark_append_create_ready_from_heartbeat s hb =
    if not s.needs_create || not s.create_sent || s.create_ready
    then (s, false)
    else (if leb hb.next_seq s.seq && not (hb.offset == 0)
        then (s, false)
        else (record s { create_ready = true }, true))

abbrev pub target_offset : AppendSendState → ℕ
target_offset s = (s.next_offset + s.current_data_len) % u64_mod

unfoldable pub mark_append_data_ready_from_heartbeat :
    AppendSendState → Heartbeat → AppendSendState × Bool
mark_append_data_ready_from_heartbeat s hb =
    let target = target_offset s in
    if not s.data_sent
    then (s, false)
    else (if leb hb.next_seq s.seq && ltb hb.offset target && ltb hb.durable_offset target
        then (s, false)
        else (
          record s {
            next_offset = target;
            data_sent = false;
            data_line_id = 0;
            current_data_len = 0;
          },
          true,
        ))

abbrev pub is_regular_file : EntryKind → Bool
is_regular_file EntryKind.regular_file = true
is_regular_file kind = false

unfoldable pub append_complete_by_heartbeat : AppendSendState → Heartbeat → EntryKind → ℕ → Bool
append_complete_by_heartbeat s hb kind source_size =
    if s.data_sent || ltb s.next_offset source_size || ltb hb.next_seq s.done_next_seq
    then false
    else not (is_regular_file kind) || leb source_size hb.durable_offset

unfoldable pub mark_append_create_retransmitted : AppendSendState → ℕ → AppendSendState
mark_append_create_retransmitted s line_id = record s {
  create_sent = true;
  create_line_id = line_id;
}

unfoldable pub mark_append_data_retransmitted : AppendSendState → ℕ → ℕ → ℕ → AppendSendState
mark_append_data_retransmitted s line_id offset end_offset = record s {
  data_sent = true;
  data_line_id = line_id;
  current_data_len = if ltb offset end_offset then end_offset - offset else s.current_data_len;
}

abbrev pub is_create_kind : SendKind → Bool
is_create_kind SendKind.create = true
is_create_kind kind = false

abbrev pub is_data_kind : SendKind → Bool
is_data_kind SendKind.data_send = true
is_data_kind kind = false

unfoldable pub append_lost_matches : AppendSendState → LostSend → Bool
append_lost_matches s lost =
    (is_create_kind lost.send.kind && s.create_sent && lost.send.seq == s.seq)
    || (is_data_kind lost.send.kind
        && s.data_sent
        && lost.send.seq == s.seq
        && lost.send.offset == s.next_offset)
