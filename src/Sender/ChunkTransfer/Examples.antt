-- ===== src/Sender/ChunkTransfer/Examples.antt =====
-- A file of two chunks of which one is acknowledged, and the theorems of the transfer at it.
use yisync.Common.{ℕ, zero, suc, refl, [], ◌∷◌, Option, some, none, true}
use yisync.Protocol.Codes.{EntryKind}
use yisync.Protocol.Message.{Bytes, Message, ManifestEntry}
use yisync.Network.Line.{SendRequest, SendGrant}
use yisync.Sender.ChunkResend.{ChunkResendState, initialize_chunk_resend_state}
use yisync.Sender.ChunkResend.Invariant.{initialize-IsValid}
use yisync.Sender.ChunkResend.Selection.{initialize-Contains}
use yisync.Sender.ChunkResend.Marks.{IsReady}
use yisync.Sender.SendBuffer.{clear}
use yisync.Sender.Plan.{FileSendTask, Reader, task_of, no_checksum}
use yisync.Sender.ChunkTransfer.{Link, schedule_chunk_work}
use yisync.Sender.ChunkTransfer.Commits.{Done, schedule_chunk_work-Done}

-- A network that takes as many messages as its number says.
abbrev network : ℕ → Message → SendRequest → ℕ × Option SendGrant
network zero message request = (0, none)
network (suc n) message request = (n, some (record { line_id = 7; bytes = request.bytes }))

abbrev entry : ManifestEntry
entry = record {
  file_id = 5;
  seq = 1;
  kind = EntryKind.regular_file;
  name = 65 ∷ [];
  link_target = [];
  size = 8;
  checksum = no_checksum;
}

abbrev reader : Reader
reader file_id offset len = offset ∷ []

abbrev marks : ChunkResendState
marks = initialize_chunk_resend_state 2 []

abbrev task : FileSendTask
task = record (task_of 9 entry no_checksum (some reader)) {
  chunk_mode = true;
  begin_sent = true;
  begin_ready = true;
  chunk_count = 2;
  chunk_resend = marks;
}

abbrev link : ℕ → Link ℕ
link n = record { net = n; buffer = clear }

abbrev crc : Bytes → ℕ
crc bytes = 0

ready : IsReady task.chunk_resend
unfolding initialize_chunk_resend_state
ready = record { valid = initialize-IsValid 2 []; covered = initialize-Contains 2 }

schedule_chunk_work-Done_example :
    Done network crc 4 3 1 1 task (schedule_chunk_work network crc 4 3 1 1 (link 1) true task)
schedule_chunk_work-Done_example =
    schedule_chunk_work-Done network crc 4 3 1 1 (link 1) true task ready refl
