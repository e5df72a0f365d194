-- ===== src/Receiver/Order.antt =====
-- The sequence numbers of the files that a stream expects (src/receiver/yisync_receiver.cpp).
use yisync.Common.{
  ℕ, ◌≤◌, ◌≡◌, refl, ap, inl, inr, List, [], ◌∷◌, Option, none, some, not, arith, ◌==◌, Bool-cases,
  Result, ok, err,
}
use yisync.Protocol.Message.{FileCommit}
use yisync.Receiver.Files.{ActiveFile, Stream, Refusal, find_active}
use yisync.Receiver.Commit.{
  ChunkCommitTask, ChunkCommitResult, Failure, CommitDisk, prepare_commit, abort_active,
  abort_commit, finish_active, finish_commit, write_commit_task, finish_written, or_abort,
  after_prepare, apply_file_commit, refresh_committed_from_disk,
}
use yisync.Receiver.Active.{apply_file_begin-same_seq}
use yisync.Receiver.ActiveChunks.{apply_chunk-same_seq}
use yisync.Receiver.Commits.{Prepared, prepare_commit-Prepared}
use yisync.Receiver.Events.{
  Event, begins, chunks, commits, prepares, aborts, finishes, refreshes, after, step, run,
}

-- The expected number has not gone back.
abbrev Forward : ℕ → Result Failure Stream → Type 0
Forward n (ok t) = n ≤ t.expected_seq
Forward n (err e) = Unit {0}

finish_active-Forward :
    (s : Stream) (result : ChunkCommitResult) (found : Option ActiveFile)
    → Forward s.expected_seq (finish_active s result found)
finish_active-Forward s result none = tt
finish_active-Forward s result (some f) = elim (Bool-cases (not (result.file_id == f.file_id))) [
  | inl other ↦ rw other tt
  | inr same ↦ rw same (omega arith)
]

finish_commit-Forward :
    (s : Stream) (result : ChunkCommitResult) → Forward s.expected_seq (finish_commit s result)
unfolding finish_commit
finish_commit-Forward s result = elim (Bool-cases (not (result.stream_id == s.stream_id))) [
  | inl other ↦ rw other tt
  | inr same ↦ rw same (finish_active-Forward s result (find_active result.seq s.active))
]

written-Forward :
    (s : Stream) (r : Result Failure ChunkCommitResult)
    → Forward s.expected_seq (finish_written s r)
written-Forward s (ok result) = finish_commit-Forward s result
written-Forward s (err e) = tt

after-Forward :
    (s : Stream) (r : Result Failure Stream)
    → Forward s.expected_seq r
    → s.expected_seq ≤ (after s r).expected_seq
after-Forward s (ok t) h = h
after-Forward s (err e) h = omega arith

abort-same :
    (s : Stream) (seq : ℕ) (found : Option ActiveFile)
    → (abort_active s seq found).expected_seq ≡ s.expected_seq
abort-same s seq none = refl
abort-same s seq (some f) = refl

or_abort-le :
    (s : Stream) (commit : FileCommit) (r : Result Failure Stream)
    → Forward s.expected_seq r
    → s.expected_seq ≤ (or_abort s commit r).0.expected_seq
unfolding abort_commit
or_abort-le s commit (ok t) h = h
or_abort-le s commit (err e) h =
    omega (arith, abort-same s commit.seq (find_active commit.seq s.active))

Prepared-same :
    (s : Stream) (commit : FileCommit) (r : Stream × Option Refusal × ChunkCommitTask)
    → Prepared s commit r
    → r.0.expected_seq ≡ s.expected_seq
Prepared-same s commit r (inl (same, idle)) = ap (λ (t : Stream). t.expected_seq) same
Prepared-same s commit r (inr (f, found, all, eq)) =
    ap (λ (x : Stream × Option Refusal × ChunkCommitTask). x.0.expected_seq) eq

after_prepare-le :
    (disk : CommitDisk) (commit : FileCommit) (r : Stream × Option Refusal × ChunkCommitTask)
    → r.0.expected_seq ≤ (after_prepare disk commit r).0.expected_seq
after_prepare-le disk commit (s, some refusal, task) = omega arith
after_prepare-le disk commit (s, none, task) = elim (Bool-cases (task.seq == 0)) [
  | inl idle ↦ rw idle (omega arith)
  | inr busy ↦ rw busy (
      or_abort-le s commit (finish_written s (write_commit_task disk task))
        (written-Forward s (write_commit_task disk task)))
]

step-le : (s : Stream) (e : Event) → s.expected_seq ≤ (step s e).expected_seq
unfolding step apply_file_commit abort_commit refresh_committed_from_disk
step-le s (begins disk begin) = omega (arith, apply_file_begin-same_seq disk s begin)
step-le s (chunks disk chunk) = omega (arith, apply_chunk-same_seq disk s chunk)
step-le s (commits disk commit_disk commit) = omega (
  arith,
  Prepared-same s commit _ (prepare_commit-Prepared disk s commit),
  after_prepare-le commit_disk commit (prepare_commit disk s commit),
)
step-le s (prepares disk commit) =
    omega (arith, Prepared-same s commit _ (prepare_commit-Prepared disk s commit))
step-le s (aborts seq) = omega (arith, abort-same s seq (find_active seq s.active))
step-le s (finishes result) = after-Forward s _ (finish_commit-Forward s result)
step-le s (refreshes none) = omega arith
step-le s (refreshes (some latest)) = omega arith

-- Over any history of calls the expected sequence number never goes back.
pub run-expected_seq_le :
    (s : Stream) (events : List Event) → s.expected_seq ≤ (run s events).expected_seq
unfolding run
run-expected_seq_le s [] = omega arith
run-expected_seq_le s (e ∷ es) = omega (arith, step-le s e, run-expected_seq_le (step s e) es)
