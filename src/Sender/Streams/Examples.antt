-- ===== src/Sender/Streams/Examples.antt =====
-- A line that is lost with the FILE_COMMIT of a file, and estimates over three samples.
use yisync.Common.{
  ℕ, refl, inl, inr, List, [], ◌∷◌, none, true, false, ◌≤◌, min, max, ◌+◌, ◌*◌, ◌/◌, arith,
}
use yisync.Protocol.Codes.{EntryKind}
use yisync.Protocol.Message.{ManifestEntry}
use yisync.Network.Line.{SendKind, LostSend}
use yisync.Sender.ChunkResend.Invariant.{initialize-IsValid}
use yisync.Sender.SendBuffer.{clear}
use yisync.Sender.Plan.{FileSendTask, StreamSendState, task_of, no_checksum}
use yisync.Sender.Rto.{
  new_estimator, rto_ticks, observe_ack_samples, Between, observe_ack_samples-Between,
}
use yisync.Sender.Streams.{lose_of_stream}
use yisync.Sender.Streams.Losses.{Handled, lose_of_stream-Handled}

abbrev entry : ManifestEntry
entry = record {
  file_id = 5;
  seq = 1;
  kind = EntryKind.regular_file;
  name = 65 ∷ [];
  link_target = [];
  size = 8;
  checksum = no_checksum;
}

abbrev task : FileSendTask
task = record (task_of 9 entry no_checksum none) {
  chunk_mode = true;
  begin_sent = true;
  begin_ready = true;
  commit_sent = true;
}

abbrev stream : StreamSendState
stream = record {
  stream_id = 9;
  source_manifest = record { stream_id = 9; root = []; entries = entry ∷ [] };
  tasks = task ∷ [];
  current_task = 0;
  manifest_applied = true;
  complete = false;
  has_pending_changes = true;
}

abbrev lost : LostSend
lost = record {
  line_id = 7;
  send = record {
    kind = SendKind.file_commit;
    stream_id = 9;
    file_id = 5;
    seq = 1;
    offset = 0;
    end_offset = 0;
    chunk_index = 0;
    bytes = 60;
  };
}

lose_of_stream-Handled_example : Handled clear stream lost (lose_of_stream clear stream lost)
lose_of_stream-Handled_example =
    lose_of_stream-Handled clear stream task lost refl refl refl (initialize-IsValid 0 [])

abbrev samples : List ℕ
samples = 0 ∷ 40 ∷ []

observe_ack_samples-Between_example :
    Between 12 40 (observe_ack_samples new_estimator (12 ∷ samples))
    × (min (12 + 1) (max 1 (20 * 8))
        ≤ rto_ticks (observe_ack_samples new_estimator (12 ∷ samples)) 20)
    × (rto_ticks (observe_ack_samples new_estimator (12 ∷ samples)) 20
        ≤ max (40 * 5) (max 1 (20 / 2)))
    × (max 1 (20 / 2) ≤ rto_ticks (observe_ack_samples new_estimator (12 ∷ samples)) 20)
    × (rto_ticks (observe_ack_samples new_estimator (12 ∷ samples)) 20 ≤ max 1 (20 * 8))
observe_ack_samples-Between_example =
    observe_ack_samples-Between 12 40 (omega arith) (omega arith) 12 20 samples (omega arith)
      (omega arith) (inl refl, (inr (omega arith, omega arith), tt)) (omega arith)
