-- ===== src/Receiver/Ready.antt =====
-- When `prepare_commit` of src/receiver/yisync_receiver.cpp accepts a commit.
use yisync.Common.{
  ℕ, suc, ◌<◌, ◌≡◌, refl, ap, ◌∙◌, subst, List, [], ◌∷◌, none, some, Bool, true, false, arith,
  length, get_or, All,
}
use yisync.Protocol.Message.{FileCommit}
use yisync.Receiver.Files.{Disk, ActiveFile, Stream, find_active, update_active}
use yisync.Receiver.Commit.{prepare_active, prepare_commit, pending, make_commit_task}
use yisync.Receiver.Active.{find_active-All}
use yisync.Receiver.Accounting.{IsCounted, AllReceived, ones}

all-ones :
    (bs : List Bool) → ((i : ℕ) → i < length bs → get_or bs i false ≡ true) → ones bs ≡ length bs
unfolding ones
all-ones [] h = refl
all-ones (b ∷ bs) h =
    ground (arith, h 0 (omega arith), all-ones bs (λ i lt. h (suc i) (omega arith)))

AllReceived-full : (f : ActiveFile) → IsCounted f → AllReceived f → f.received_count ≡ f.chunk_count
AllReceived-full f c all =
    c.counter ∙ all-ones f.received (λ i h. all i (subst (λ n. i < n) c.marks h)) ∙ c.marks

prepare_active-accepts :
    (disk : Disk) (s : Stream) (commit : FileCommit) (f : ActiveFile)
    → commit.file_id ≡ f.file_id
    → f.commit_pending ≡ false
    → f.received_count ≡ f.chunk_count
    → disk.exists f.final_path ≡ false
    → prepare_active disk s commit (some f) ≡ (
      record s { active = update_active commit.seq (pending f) s.active },
      none,
      make_commit_task s f,
    )
unfolding prepare_active
prepare_active-accepts disk s commit f id idle full fresh = ground arith

looks_up :
    (disk : Disk) (s : Stream) (commit : FileCommit)
    → commit.stream_id ≡ s.stream_id
    → commit.seq ≡ s.expected_seq
    → prepare_commit disk s commit ≡ prepare_active disk s commit (find_active commit.seq s.active)
unfolding prepare_commit
looks_up disk s commit stream now = ground arith

-- Where the marks and counters of the active files agree, a FILE_COMMIT of the stream and of
-- the expected number, for an active file with its id that has no commit pending, of which
-- every chunk is received, and whose final path does not exist, is accepted: the task is filled
-- in and the commit is pending.
pub prepare_commit-accepts :
    (disk : Disk) (s : Stream) (commit : FileCommit) (f : ActiveFile)
    → All IsCounted s.active
    → commit.stream_id ≡ s.stream_id
    → commit.seq ≡ s.expected_seq
    → find_active commit.seq s.active ≡ some f
    → commit.file_id ≡ f.file_id
    → f.commit_pending ≡ false
    → AllReceived f
    → disk.exists f.final_path ≡ false
    → prepare_commit disk s commit ≡ (
      record s { active = update_active commit.seq (pending f) s.active },
      none,
      make_commit_task s f,
    )
prepare_commit-accepts disk s commit f counted stream now found id idle all fresh =
    let c = (find_active-All IsCounted commit.seq s.active f counted found).0 in
    looks_up disk s commit stream now
    ∙ ap (prepare_active disk s commit) found
    ∙ prepare_active-accepts disk s commit f id idle (AllReceived-full f c all) fresh
