-- ===== src/Sender/AppendState/Transfer.antt =====
-- The transfer of one file by appends: `send_append_if_possible` and the append branch of
-- `on_heartbeat` in src/sender/yisync_sender_app.cpp, on the state of
-- src/sender/yisync_append_state.cpp.
use yisync.Common.{
  ℕ, ◌+◌, ◌-◌, ◌≤◌, ◌<◌, min, ◌≡◌, List, [], ◌∷◌, Bool, true, false, not, ◌&&◌, arith, ltb, ◌==◌,
  if◌then◌else◌, ◌⊎◌, IsU64,
}
use yisync.Protocol.Codes.{EntryKind}
use yisync.Protocol.Message.{Heartbeat}
use yisync.Sync.{SyncStart}
use yisync.Sender.AppendState.{
  AppendSendState, start_append_plan, reset_append_inflight, mark_append_create_sent,
  mark_append_data_sent, mark_append_create_ready_from_heartbeat,
  mark_append_data_ready_from_heartbeat, append_complete_by_heartbeat,
  mark_append_create_retransmitted, mark_append_data_retransmitted, is_regular_file, target_offset,
}

-- What a call hands to the network.
pub data Sent : Type 0 where
  nothing create : Sent
  data_range : ℕ → ℕ → Sent

-- The task's size and id, and the configured size of a chunk.
pub record Task : Type 0 where
  pub file_id : ℕ
  pub source_size : ℕ
  pub chunk_size : ℕ

abbrev pub data_len : Task → AppendSendState → ℕ
data_len task s = min task.chunk_size (task.source_size - s.next_offset)

-- `taken` is what `try_send_buffered_kind` returns, and `line_id` the line that it stores.
unfoldable pub send_append_if_possible : Task → Bool → ℕ → AppendSendState → AppendSendState × Sent
send_append_if_possible task taken line_id s =
    let len = data_len task s in
    if s.needs_create && not s.create_sent
    then (if taken then (mark_append_create_sent s line_id, create) else (s, nothing))
    else (if s.needs_create && not s.create_ready
        then (s, nothing)
        else (if s.data_sent
            then (s, nothing)
            else (if ltb s.next_offset task.source_size && taken
                then (mark_append_data_sent s line_id len, data_range s.next_offset len)
                else (s, nothing))))

-- The two marks of the heartbeat's branch, for a heartbeat about this file.
unfoldable pub on_heartbeat : Task → Heartbeat → AppendSendState → AppendSendState
on_heartbeat task hb s =
    if hb.file_id == task.file_id
    then (mark_append_data_ready_from_heartbeat (mark_append_create_ready_from_heartbeat s hb).0
        hb).0
    else s

-- The calls during one transfer. A retransmission of data has the line and the range of its request.
pub data Call : Type 0 where
  sends : Bool → ℕ → Call
  heartbeats : Heartbeat → Call
  retransmits_create : ℕ → Call
  retransmits_data : ℕ → ℕ → ℕ → Call
  loses : Call

unfoldable pub step : Task → AppendSendState → Call → AppendSendState
step task s (sends taken line_id) = (send_append_if_possible task taken line_id s).0
step task s (heartbeats hb) = on_heartbeat task hb s
step task s (retransmits_create line_id) = mark_append_create_retransmitted s line_id
step task s (retransmits_data line_id offset end_offset) =
    mark_append_data_retransmitted s line_id offset end_offset
step task s loses = reset_append_inflight s

unfoldable pub run : Task → AppendSendState → List Call → AppendSendState
run task s [] = s
run task s (call ∷ calls) = run task (step task s call) calls

-- A retransmission of data is of the range behind the acknowledged part, where it was sent, and within
-- the file.
abbrev pub Repeats : Task → AppendSendState → Call → Type 0
Repeats task s (retransmits_data line_id offset end_offset) =
    (offset ≡ s.next_offset) × (offset < end_offset) × (end_offset ≤ task.source_size)
Repeats task s call = Unit {0}

abbrev pub AllRepeat : Task → AppendSendState → List Call → Type 0
AllRepeat task s [] = Unit {0}
AllRepeat task s (call ∷ calls) = Repeats task s call × AllRepeat task (step task s call) calls

-- What is acknowledged and what is in flight lie within the file.
pub record Within (task : Task) (s : AppendSendState) : Type 0 where
  pub size : IsU64 task.source_size
  pub acknowledged : s.next_offset ≤ task.source_size
  pub in_flight : s.data_sent ≡ true → s.next_offset + s.current_data_len ≤ task.source_size

start-Within :
    (task : Task) (s : AppendSendState) (diff : SyncStart) (seq : ℕ)
    → IsU64 task.source_size
    → diff.start_offset ≤ task.source_size
    → Within task (start_append_plan s diff seq task.source_size)
unfolding start_append_plan
start-Within task s diff seq u h = ground arith

-- If `send_append_if_possible` sends data, then none was in flight, a CREATE that is needed was
-- acknowledged, and the data is the next range behind the acknowledged part, one chunk at most,
-- within the file.
pub send_append_if_possible_lem :
    (task : Task) (line_id : ℕ) (s : AppendSendState) (offset len : ℕ)
    → (send_append_if_possible task true line_id s).1 ≡ data_range offset len
    → (offset ≡ s.next_offset)
      × (len ≡ min task.chunk_size (task.source_size - s.next_offset))
      × (offset < task.source_size)
      × (s.data_sent ≡ false)
      × ((s.needs_create ≡ false) ⊎ (s.create_ready ≡ true))
unfolding send_append_if_possible
send_append_if_possible_lem task line_id s offset len h = ground arith

-- A heartbeat moves the acknowledged part by the range in flight or not at all.
on_heartbeat-cases :
    (task : Task) (hb : Heartbeat) (s : AppendSendState)
    → ((on_heartbeat task hb s).next_offset ≡ s.next_offset)
        × ((on_heartbeat task hb s).data_sent ≡ s.data_sent)
        × ((on_heartbeat task hb s).current_data_len ≡ s.current_data_len)
      ⊎ (s.data_sent ≡ true)
        × ((on_heartbeat task hb s).next_offset ≡ target_offset s)
        × ((on_heartbeat task hb s).data_sent ≡ false)
unfolding on_heartbeat mark_append_data_ready_from_heartbeat mark_append_create_ready_from_heartbeat
on_heartbeat-cases task hb s = ground arith

step-Within :
    (task : Task) (s : AppendSendState) (c : Call)
    → Repeats task s c
    → Within task s
    → Within task (step task s c) × (s.next_offset ≤ (step task s c).next_offset)
unfolding step send_append_if_possible mark_append_create_sent mark_append_data_sent
    mark_append_create_retransmitted mark_append_data_retransmitted reset_append_inflight
step-Within task s (sends taken line_id) r w = ground arith
step-Within task s (heartbeats hb) r w = ground (arith, on_heartbeat-cases task hb s)
step-Within task s (retransmits_create line_id) r w = ground arith
step-Within task s (retransmits_data line_id offset end_offset) r w = ground arith
step-Within task s loses r w = ground arith

run-Within :
    (task : Task) (s : AppendSendState) (calls : List Call)
    → AllRepeat task s calls
    → Within task s
    → Within task (run task s calls) × (s.next_offset ≤ (run task s calls).next_offset)
unfolding run
run-Within task s [] r w = (w, omega arith)
run-Within task s (c ∷ calls) r w =
    let (w1, le) = step-Within task s c r.0 w in
    let (w2, le2) = run-Within task (step task s c) calls r.1 w1 in (w2, omega arith)

module _ (task : Task) (s : AppendSendState) (diff : SyncStart) (seq : ℕ) (calls : List Call) where
  -- Over any calls from a start within a file of 64-bit size, where each retransmission of data
  -- is of a range that starts at the end of the acknowledged part and ends within the file: the
  -- acknowledged part only grows from the start offset and stays within the file, and so does
  -- the range in flight.
  pub transfer-Within :
      IsU64 task.source_size
      → diff.start_offset ≤ task.source_size
      → AllRepeat task (start_append_plan s diff seq task.source_size) calls
      → Within task (run task (start_append_plan s diff seq task.source_size) calls)
        × (diff.start_offset
            ≤ (run task (start_append_plan s diff seq task.source_size) calls).next_offset)
  unfolding start_append_plan
  transfer-Within u h r = run-Within task _ calls r (start-Within task s diff seq u h)

  -- Over such calls, where the sender takes an append for complete on a heartbeat, the acknowledged
  -- part is exactly the file, no data is in flight, and of a regular file all bytes are durable at the
  -- receiver.
  pub append_complete-whole :
      (hb : Heartbeat) (kind : EntryKind)
      → IsU64 task.source_size
      → diff.start_offset ≤ task.source_size
      → AllRepeat task (start_append_plan s diff seq task.source_size) calls
      → append_complete_by_heartbeat
          (run task (start_append_plan s diff seq task.source_size) calls)
          hb
          kind
          task.source_size
        ≡ true
      → ((run task (start_append_plan s diff seq task.source_size) calls).next_offset
          ≡ task.source_size)
        × ((run task (start_append_plan s diff seq task.source_size) calls).data_sent ≡ false)
        × ((is_regular_file kind ≡ false) ⊎ (task.source_size ≤ hb.durable_offset))
  unfolding append_complete_by_heartbeat
  append_complete-whole hb kind u h r e = ground (arith, transfer-Within u h r)
