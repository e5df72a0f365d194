-- ===== src/Receiver/Events.antt =====
-- Histories of a `T_ChunkedReceiverStream` (src/receiver/yisync_receiver.cpp): one event is one call
-- of a method that changes its state, with what the file system answers to it.
use yisync.Common.{ℕ, List, [], ◌∷◌, Option, Result, ok, err}
use yisync.Protocol.Message.{FileBegin, Chunk, FileCommit, ManifestEntry}
use yisync.Receiver.Files.{Disk, Stream}
use yisync.Receiver.Chunked.{apply_file_begin, apply_chunk}
use yisync.Receiver.Commit.{
  CommitDisk, ChunkCommitResult, Failure, prepare_commit, abort_commit, finish_commit,
  apply_file_commit, refresh_committed_from_disk,
}

pub data Event : Type 0 where
  begins : Disk → FileBegin → Event
  chunks : Disk → Chunk → Event
  commits : Disk → CommitDisk → FileCommit → Event
  prepares : Disk → FileCommit → Event
  aborts : ℕ → Event
  finishes : ChunkCommitResult → Event
  refreshes : Option ManifestEntry → Event

abbrev pub after : Stream → Result Failure Stream → Stream
after s (ok s') = s'
after s (err e) = s

unfoldable pub step : Stream → Event → Stream
step s (begins disk begin) = (apply_file_begin disk s begin).0
step s (chunks disk chunk) = (apply_chunk disk s chunk).0
step s (commits disk commit_disk commit) = (apply_file_commit disk commit_disk s commit).0
step s (prepares disk commit) = (prepare_commit disk s commit).0
step s (aborts seq) = abort_commit s seq
step s (finishes result) = after s (finish_commit s result)
step s (refreshes latest) = refresh_committed_from_disk s latest

unfoldable pub run : Stream → List Event → Stream
run s [] = s
run s (event ∷ events) = run (step s event) events
