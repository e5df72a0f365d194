-- ===== src/Receiver/Accounting.antt =====
-- The marks and the counter of received chunks in src/receiver/yisync_receiver.cpp.
use yisync.Common.{
  ℕ, zero, suc, ◌+◌, ◌-◌, ◌/◌, ◌%◌, ◌≤◌, ◌<◌, ◌≡◌, ◌≢◌, refl, sym, ap, ◌∙◌, subst, inl, inr, List,
  [], ◌∷◌, Option, some, Bool, true, false, arith, ◌==◌, if◌then◌else◌, length, take, get_or, set,
  replicate, All, ok, length-set, length-replicate, Bool-cases, u64_mod,
}
use yisync.Protocol.Message.{FileBegin, Chunk, FileCommit}
use yisync.Sync.{chunk_count_for_size}
use yisync.Receiver.Files.{Disk, FinalPath, ActiveFile, Stream, Refusal, find_active}
use yisync.Receiver.Chunked.{new_active, with_chunk, with_bytes}
use yisync.Receiver.Commit.{ChunkCommitTask, prepare_commit, no_task, make_commit_task}
use yisync.Receiver.Active.{Accepted, Fitting, find_active-All}
use yisync.Receiver.Commits.{Keeps, prepare_commit-Prepared, run-All}
use yisync.Receiver.Events.{
  Event, begins, chunks, commits, prepares, aborts, finishes, refreshes, run,
}

-- How many marks are set.
unfoldable pub ones : List Bool → ℕ
ones [] = 0
ones (b ∷ bs) = (if b then 1 else 0) + ones bs

ones-le : (bs : List Bool) → ones bs ≤ length bs
unfolding ones
ones-le [] = omega arith
ones-le (b ∷ bs) = ground (arith, ones-le bs)

ones-replicate : (n : ℕ) → ones (replicate n false) ≡ 0
unfolding ones
ones-replicate zero = refl
ones-replicate (suc n) = ground (arith, ones-replicate n)

ones-set :
    (bs : List Bool) (i : ℕ)
    → i < length bs
    → get_or bs i false ≡ false
    → ones (set bs i true) ≡ ones bs + 1
unfolding ones
ones-set [] i h e = absurd (omega arith)
ones-set (b ∷ bs) zero h e = ground (arith, e)
ones-set (b ∷ bs) (suc i) h e = omega (arith, ones-set bs i (omega arith) e)

-- A new mark leaves room for its count.
ones-lt : (bs : List Bool) (i : ℕ) → i < length bs → get_or bs i false ≡ false → ones bs < length bs
ones-lt bs i h e = omega (arith, ones-set bs i h e, ones-le (set bs i true), length-set bs i true)

-- All marks are set where as many are set as there are.
ones-full :
    (bs : List Bool) (i : ℕ) → ones bs ≡ length bs → i < length bs → get_or bs i false ≡ true
ones-full bs i full h = elim (Bool-cases (get_or bs i false)) [
  | inl set_already ↦ set_already
  | inr open_mark ↦ absurd (omega (arith, ones-lt bs i h open_mark))
]

-- There is a mark for each chunk, and the counter is the number of marks that are set.
pub record IsCounted (f : ActiveFile) : Type 0 where
  pub marks : length f.received ≡ f.chunk_count
  pub counter : f.received_count ≡ ones f.received
  pub range : f.chunk_count < u64_mod

quotient_le : (n d : ℕ) → 0 < d → n / d ≤ n
quotient_le n d h = grind arith

count_in_range :
    (size chunk_size count : ℕ) → chunk_count_for_size size chunk_size ≡ ok count → count < u64_mod
unfolding chunk_count_for_size
count_in_range size chunk_size count e = elim (Bool-cases (chunk_size == 0)) [
  | inl zero_size ↦ ground arith
  | inr positive ↦
      let top = (size + chunk_size + u64_mod - 1) % u64_mod in
      let le : top / chunk_size ≤ top = quotient_le top chunk_size (ground arith) in
      ground (arith, le)
]

new-IsCounted :
    (begin : FileBegin) → Accepted begin → (path : FinalPath) → IsCounted (new_active begin path)
new-IsCounted begin a path = record {
  marks = length-replicate begin.chunk_count false;
  counter = sym (ones-replicate begin.chunk_count);
  range = count_in_range begin.final_size begin.chunk_size begin.chunk_count a.count;
}

chunk-IsCounted :
    (f : ActiveFile) (chunk : Chunk)
    → Fitting f chunk
    → IsCounted f
    → IsCounted (with_chunk f chunk chunk.payload)
      × ((n : ℕ) → IsCounted (with_bytes f chunk (take n chunk.payload)))
chunk-IsCounted f chunk fits c =
    let i = chunk.chunk_index in
    let inside : i < length f.received = omega (arith, c.marks, fits.index) in
    (
      record {
        marks = length-set f.received i true ∙ c.marks;
        counter = omega (
          arith,
          c.counter,
          c.marks,
          c.range,
          ones-set f.received i inside fits.fresh,
          ones-lt f.received i inside fits.fresh,
        );
        range = c.range;
      },
      λ n. record { marks = c.marks; counter = c.counter; range = c.range },
    )

abbrev pub keep_counted :
    (f : ActiveFile) (b : Bool) → IsCounted f → IsCounted (record f { commit_pending = b })
keep_counted f b c = record { marks = c.marks; counter = c.counter; range = c.range }

event-Keeps : (e : Event) → Keeps IsCounted keep_counted e
event-Keeps (begins disk begin) = λ a path. new-IsCounted begin a path
event-Keeps (chunks disk chunk) = λ f same fits c. chunk-IsCounted f chunk fits c
event-Keeps (commits disk commit_disk commit) = tt
event-Keeps (prepares disk commit) = tt
event-Keeps (aborts seq) = tt
event-Keeps (finishes result) = tt
event-Keeps (refreshes latest) = tt

all-Keeps : (events : List Event) → All (Keeps IsCounted keep_counted) events
all-Keeps [] = tt
all-Keeps (e ∷ es) = (event-Keeps e, all-Keeps es)

-- Over any history of calls, if it holds at the start: each active file has a mark for each
-- chunk, and its counter is the number of marks that are set.
pub run-IsCounted :
    (s : Stream) (events : List Event)
    → All IsCounted s.active
    → All IsCounted (run s events).active
run-IsCounted s events h = run-All IsCounted keep_counted s events (all-Keeps events) h

-- Every chunk of the file is received.
abbrev pub AllReceived : ActiveFile → Type 0
AllReceived f = (i : ℕ) → i < f.chunk_count → get_or f.received i false ≡ true

full-AllReceived : (f : ActiveFile) → IsCounted f → f.received_count ≡ f.chunk_count → AllReceived f
full-AllReceived f c full i h =
    ones-full f.received i (sym c.counter ∙ full ∙ sym c.marks) (subst (λ n. i < n) (sym c.marks) h)

-- The file of the task that was prepared.
abbrev pub TakesWhole : Stream → FileCommit → ChunkCommitTask → Type 0
TakesWhole s commit task =
    (f : ActiveFile) × (find_active commit.seq s.active ≡ some f)
    × AllReceived f
    × (task ≡ make_commit_task s f)

-- Where the marks and the counter of every active file agree, `prepare_commit` fills in a task
-- only for an active file of which every chunk is received.
pub prepare_commit-TakesWhole :
    (disk : Disk) (s : Stream) (commit : FileCommit)
    → All IsCounted s.active
    → (prepare_commit disk s commit).2 ≢ no_task
    → TakesWhole s commit (prepare_commit disk s commit).2
prepare_commit-TakesWhole disk s commit h some_task = elim (prepare_commit-Prepared disk s commit) [
  | inl (same, idle) ↦ absurd (some_task idle)
  | inr (f, found, full, eq) ↦ (
    f,
    found,
    full-AllReceived f (find_active-All IsCounted commit.seq s.active f h found).0 full,
    ap (λ (r : Stream × Option Refusal × ChunkCommitTask). r.2) eq,
  )
]
