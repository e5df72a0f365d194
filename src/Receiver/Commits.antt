-- ===== src/Receiver/Commits.antt =====
-- Commits in src/receiver/yisync_receiver.cpp: what they keep, and that the order of the files is
-- that of their sequence numbers.
use yisync.Common.{
  ℕ, ◌≡◌, refl, sym, subst, ◌⊎◌, inl, inr, List, [], ◌∷◌, Option, none, some, Bool, true, false,
  not, arith, ◌==◌, Bool-cases, All, Result, ok, err,
}
use yisync.Protocol.Message.{FileCommit}
use yisync.Receiver.Files.{Disk, FinalPath, ActiveFile, Stream, Refusal, find_active, update_active}
use yisync.Receiver.Chunked.{new_active, with_chunk, with_bytes}
use yisync.Common.{take}
use yisync.Receiver.Commit.{
  ChunkCommitTask, no_task, make_commit_task, pending, prepare_active, prepare_commit, abort_active,
  abort_commit, ChunkCommitResult, Failure, finish_active, finish_commit, CommitDisk,
  write_commit_task, finish_written, or_abort, after_prepare, apply_file_commit,
  refresh_committed_from_disk,
}
use yisync.Receiver.Active.{
  Accepted, Fitting, find_active-All, update_active-All, erase_active-All, apply_file_begin-All,
}
use yisync.Receiver.ActiveChunks.{apply_chunk-All}
use yisync.Receiver.Events.{
  Event, begins, chunks, commits, prepares, aborts, finishes, refreshes, after, step, run,
}

-- `prepare_commit` changes nothing and fills in no task, or takes an active file of which all chunks
-- are counted.
abbrev pub Prepared : Stream → FileCommit → Stream × Option Refusal × ChunkCommitTask → Type 0
Prepared s commit r =
    ((r.0 ≡ s) × (r.2 ≡ no_task))
    ⊎ ((f : ActiveFile) × (find_active commit.seq s.active ≡ some f)
        × (f.received_count ≡ f.chunk_count)
        × (r ≡ (
          record s { active = update_active commit.seq (pending f) s.active },
          none,
          make_commit_task s f,
        )))

module _ (disk : Disk) (s : Stream) (commit : FileCommit) where
  takes_or_not :
      (f : ActiveFile)
      → ((prepare_active disk s commit (some f)).0 ≡ s)
          × ((prepare_active disk s commit (some f)).2 ≡ no_task)
        ⊎ (f.received_count ≡ f.chunk_count)
          × (prepare_active disk s commit (some f) ≡ (
            record s { active = update_active commit.seq (pending f) s.active },
            none,
            make_commit_task s f,
          ))
  unfolding prepare_active
  takes_or_not f = ground arith

  prepare_active-Prepared :
      (found : Option ActiveFile)
      → find_active commit.seq s.active ≡ found
      → Prepared s commit (prepare_active disk s commit found)
  unfolding prepare_active
  prepare_active-Prepared none e = inl (refl, refl)
  prepare_active-Prepared (some f) e = elim (takes_or_not f) [
    | inl same ↦ inl same
    | inr (all, eq) ↦ inr (f, e, all, eq)
  ]

  looks_up :
      ((prepare_commit disk s commit).0 ≡ s) × ((prepare_commit disk s commit).2 ≡ no_task)
      ⊎ (prepare_commit disk s commit
          ≡ prepare_active disk s commit (find_active commit.seq s.active))
  unfolding prepare_commit
  looks_up = ground arith

  pub prepare_commit-Prepared : Prepared s commit (prepare_commit disk s commit)
  prepare_commit-Prepared = elim looks_up [
    | inl same ↦ inl same
    | inr goes ↦ rw goes (prepare_active-Prepared (find_active commit.seq s.active) refl)
  ]

module _ {ℓ} (P : ActiveFile → Type ℓ)
    (keep : (f : ActiveFile) (b : Bool) → P f → P (record f { commit_pending = b })) where
  prepared-All :
      (s : Stream) (commit : FileCommit) (r : Stream × Option Refusal × ChunkCommitTask)
      → Prepared s commit r
      → All P s.active
      → All P r.0.active
  prepared-All s commit r (inl (same, untouched)) h =
      subst (λ (t : Stream). All P t.active) (sym same) h
  prepared-All s commit r (inr (f, e, all, eq)) h =
      subst (λ (x : Stream × Option Refusal × ChunkCommitTask). All P x.0.active) (sym eq)
        (update_active-All P commit.seq (pending f) s.active h
          (keep f true (find_active-All P commit.seq s.active f h e).0))

  abort_active-All :
      (s : Stream) (seq : ℕ) (found : Option ActiveFile)
      → find_active seq s.active ≡ found
      → All P s.active
      → All P (abort_active s seq found).active
  abort_active-All s seq none e h = h
  abort_active-All s seq (some f) e h =
      update_active-All P seq _ s.active h (keep f false (find_active-All P seq s.active f h e).0)

  pub abort_commit-All : (s : Stream) (seq : ℕ) → All P s.active → All P (abort_commit s seq).active
  unfolding abort_commit
  abort_commit-All s seq h = abort_active-All s seq (find_active seq s.active) refl h

  -- A result that is a new stream has kept the property.
  abbrev Ends : Result Failure Stream → Type ℓ
  Ends (ok t) = All P t.active
  Ends (err e) = Unit {ℓ}

  finish_active-Ends :
      (s : Stream) (result : ChunkCommitResult) (found : Option ActiveFile)
      → All P s.active
      → Ends (finish_active s result found)
  finish_active-Ends s result none h = tt
  finish_active-Ends s result (some f) h = elim (Bool-cases (not (result.file_id == f.file_id))) [
    | inl other ↦ rw other tt
    | inr same ↦ rw same (erase_active-All P result.seq s.active h)
  ]

  finish_commit-Ends :
      (s : Stream) (result : ChunkCommitResult) → All P s.active → Ends (finish_commit s result)
  unfolding finish_commit
  finish_commit-Ends s result h = elim (Bool-cases (not (result.stream_id == s.stream_id))) [
    | inl other ↦ rw other tt
    | inr same ↦ rw same (finish_active-Ends s result (find_active result.seq s.active) h)
  ]

  after-All :
      (s : Stream) (r : Result Failure Stream) → All P s.active → Ends r → All P (after s r).active
  after-All s (ok t) h e = e
  after-All s (err x) h e = h

  written-Ends :
      (s : Stream) (r : Result Failure ChunkCommitResult)
      → All P s.active
      → Ends (finish_written s r)
  written-Ends s (ok result) h = finish_commit-Ends s result h
  written-Ends s (err e) h = tt

  or_abort-All :
      (s : Stream) (commit : FileCommit) (r : Result Failure Stream)
      → All P s.active
      → Ends r
      → All P (or_abort s commit r).0.active
  or_abort-All s commit (ok t) h e = e
  or_abort-All s commit (err x) h e = abort_commit-All s commit.seq h

  after_prepare-All :
      (disk : CommitDisk) (commit : FileCommit) (r : Stream × Option Refusal × ChunkCommitTask)
      → All P r.0.active
      → All P (after_prepare disk commit r).0.active
  after_prepare-All disk commit (s, some refusal, task) h = h
  after_prepare-All disk commit (s, none, task) h = elim (Bool-cases (task.seq == 0)) [
    | inl idle ↦ rw idle h
    | inr busy ↦ rw busy (
        or_abort-All s commit (finish_written s (write_commit_task disk task)) h
          (written-Ends s (write_commit_task disk task) h))
  ]

  -- What an event must keep of the files that it opens or writes to.
  abbrev pub Keeps : Event → Type ℓ
  Keeps (begins disk begin) = Accepted begin → (path : FinalPath) → P (new_active begin path)
  Keeps (chunks disk chunk) =
      (f : ActiveFile)
      → f.seq ≡ chunk.seq
      → Fitting f chunk
      → P f
      → P (with_chunk f chunk chunk.payload)
        × ((n : ℕ) → P (with_bytes f chunk (take n chunk.payload)))
  Keeps e = Unit {ℓ}

  -- A property of the active files that every event keeps holds after any history.
  pub step-All : (s : Stream) (e : Event) → Keeps e → All P s.active → All P (step s e).active
  unfolding step apply_file_commit refresh_committed_from_disk
  step-All s (begins disk begin) k h = apply_file_begin-All disk s begin P k h
  step-All s (chunks disk chunk) k h = apply_chunk-All disk s chunk P k h
  step-All s (commits disk commit_disk commit) k h =
      after_prepare-All commit_disk commit (prepare_commit disk s commit)
        (prepared-All s commit _ (prepare_commit-Prepared disk s commit) h)
  step-All s (prepares disk commit) k h =
      prepared-All s commit _ (prepare_commit-Prepared disk s commit) h
  step-All s (aborts seq) k h = abort_commit-All s seq h
  step-All s (finishes result) k h = after-All s _ h (finish_commit-Ends s result h)
  step-All s (refreshes none) k h = h
  step-All s (refreshes (some latest)) k h = h

  pub run-All :
      (s : Stream) (events : List Event)
      → All Keeps events
      → All P s.active
      → All P (run s events).active
  unfolding run
  run-All s [] k h = h
  run-All s (e ∷ es) k h = run-All (step s e) es k.1 (step-All s e k.0 h)
