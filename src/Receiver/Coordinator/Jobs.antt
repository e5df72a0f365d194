-- ===== src/Receiver/Coordinator/Jobs.antt =====
-- Which jobs the coordinator of src/receiver/yisync_receiver_coordinator.cpp gives to the disk writer,
-- and what their results are taken for.
use yisync.Common.{
  ℕ, ◌<◌, ◌≡◌, ◌≢◌, refl, sym, ap, ◌∙◌, subst, List, [], ◌∷◌, ◌++◌, Option, none, some, Bool, true,
  false, ltb, ◌==◌, if◌then◌else◌, max, arith, Bool-cases, inl, inr, ◌⊎◌,
}
use yisync.Protocol.Message.{FileCommit}
use yisync.Receiver.Files.{Stream, Refusal}
use yisync.Receiver.Commit.{ChunkCommitTask, prepare_commit}
use yisync.Receiver.Append.{TreePath}
use yisync.Receiver.DiskWriter.{DiskWriter, enqueue}
use yisync.Receiver.Context.{Env, Context, context_for, put_context, chunk_receiver_for}
use yisync.Receiver.Coordinator.{
  Job, HeartbeatAction, fsync_append, commit_chunk, ActionBatch, Coordinator,
  reset_append_durable_context, fsync_enqueued, enqueue_fsync, maybe_enqueue_append_fsync,
  with_target,
}
use yisync.Receiver.Coordinator.Commits.{
  commit_while_queued, queued_context, commit_enqueued, commit_prepared, on_commit, JobDisk,
  run_job, poll_append_fsync, with_durable, with_idle_fsync, enqueue_rest, polled_rest,
  append_heartbeats, Polled,
}

pub context_for-put :
    (ctx : Context) (contexts : List Context)
    → context_for ctx.stream_id (put_context ctx contexts) ≡ ctx
unfolding context_for put_context
context_for-put ctx [] = ground arith
context_for-put ctx (d ∷ contexts) = elim (Bool-cases (d.stream_id == ctx.stream_id)) [
  | inl hit ↦ rw hit (ground arith)
  | inr miss ↦ rw (miss, miss) (context_for-put ctx contexts)
]

pub context_for-stream_id :
    (stream_id : ℕ) (contexts : List Context)
    → (context_for stream_id contexts).stream_id ≡ stream_id
unfolding context_for
context_for-stream_id stream_id [] = refl
context_for-stream_id stream_id (c ∷ contexts) =
    ground (arith, context_for-stream_id stream_id contexts)

enqueue-accepted :
    (w : DiskWriter Job) (job : Job)
    → (enqueue w job ≡ (w, false))
      ⊎ ((enqueue w job).1 ≡ true) × ((enqueue w job).0.accepted ≡ w.accepted ++ job ∷ [])
unfolding enqueue
enqueue-accepted w job = ground arith

-- A context with this commit queued: a poll asks for the completion with this id, which has neither
-- completed nor failed, and answers on the line, with the number, the file, the size and the path.
pub record Waits (task : ChunkCommitTask) (line_id id : ℕ) (ctx : Context) : Type 0 where
  pub queued : ctx.chunk_commit_queued ≡ true
  pub line : ctx.chunk_commit_line_id ≡ line_id
  pub seq : ctx.chunk_commit_seq ≡ task.seq
  pub file_id : ctx.chunk_commit_file_id ≡ task.file_id
  pub final_size : ctx.chunk_commit_final_size ≡ task.final_size
  pub final_path : ctx.chunk_commit_final_path ≡ some task.final_path
  pub completion :
      ctx.chunk_commit_completion ≡ some (record { id = id; completed = false; failed = none })

-- The commit is with the writer: there was none for the stream, the receiver has prepared this one,
-- and the context waits for the completion that the job was given, which no later one is given.
pub record Queued (env : Env) (c : Coordinator) (line_id : ℕ) (commit : FileCommit)
    (d : Coordinator) : Type 0 where
  pub receiver : Stream
  pub task : ChunkCommitTask
  pub idle : (context_for commit.stream_id c.contexts).chunk_commit_queued ≡ false
  pub prepared :
      prepare_commit env.disk
        (chunk_receiver_for env (context_for commit.stream_id c.contexts))
        commit
      ≡ (receiver, none, task)
  pub real : task.seq ≢ 0
  pub job :
      d.writer.accepted
      ≡ c.writer.accepted ++ commit_chunk commit.stream_id c.next_completion task ∷ []
  pub waits : Waits task line_id c.next_completion (context_for commit.stream_id d.contexts)
  pub fresh : c.next_completion < d.next_completion
  pub kept : (context_for commit.stream_id d.contexts).chunk ≡ some receiver

module _ (env : Env) (c : Coordinator) (line_id : ℕ) (commit : FileCommit) where
  abbrev pub Outcome : Coordinator × ActionBatch → Type 0
  Outcome r =
      (r.0.writer ≡ c.writer) × (r.1.schedule_commit_poll ≡ false)
      ⊎ Queued env c line_id commit r.0 × (r.1.schedule_commit_poll ≡ true)

  while_queued-writer :
      (ctx : Context)
      → ((commit_while_queued c ctx line_id commit).0.writer ≡ c.writer)
        × ((commit_while_queued c ctx line_id commit).1.schedule_commit_poll ≡ false)
  while_queued-writer ctx = ground arith

  abbrev stream_context : Context
  stream_context = context_for commit.stream_id c.contexts

  enqueued-Outcome :
      (s : Stream) (task : ChunkCommitTask) (r : DiskWriter Job × Bool)
      → stream_context.chunk_commit_queued ≡ false
      → prepare_commit env.disk (chunk_receiver_for env stream_context) commit ≡ (s, none, task)
      → task.seq ≢ 0
      → (r ≡ (c.writer, false))
        ⊎ (r.1 ≡ true)
          × (r.0.accepted
              ≡ c.writer.accepted ++ commit_chunk commit.stream_id c.next_completion task ∷ [])
      → Outcome (commit_enqueued c stream_context s line_id commit task r)
  enqueued-Outcome s task (w, false) idle prepared real (inl same) = inl (ap (λ r. r.0) same, refl)
  enqueued-Outcome s task (w, true) idle prepared real (inl same) = cc (ap (λ r. r.1) same)
  enqueued-Outcome s task (w, false) idle prepared real (inr (e, job)) = cc e
  enqueued-Outcome s task (w, true) idle prepared real (inr (e, job)) =
      let next = queued_context stream_context s line_id task c.next_completion in
      let put =
        subst (λ n. context_for n (put_context next c.contexts) ≡ next)
          (context_for-stream_id commit.stream_id c.contexts) (context_for-put next c.contexts) in
      inr (
        record {
          receiver = s;
          task = task;
          idle = idle;
          prepared = prepared;
          real = real;
          job = job;
          waits = subst (Waits task line_id c.next_completion) (sym put) (record {
            queued = refl;
            line = refl;
            seq = refl;
            file_id = refl;
            final_size = refl;
            final_path = refl;
            completion = refl;
          });
          fresh = omega arith;
          kept = ap (λ (x : Context). x.chunk) put;
        },
        refl,
      )

  prepared-Outcome :
      (p : Stream × Option Refusal × ChunkCommitTask)
      → stream_context.chunk_commit_queued ≡ false
      → prepare_commit env.disk (chunk_receiver_for env stream_context) commit ≡ p
      → Outcome (commit_prepared env c stream_context line_id commit p)
  prepared-Outcome (s, some refusal, task) idle e = inl (refl, refl)
  prepared-Outcome (s, none, task) idle e = elim (Bool-cases (task.seq == 0)) [
    | inl nought ↦ rw nought (inl (refl, ground arith))
    | inr real ↦
        let job : Job = commit_chunk stream_context.stream_id c.next_completion task in
        let id = context_for-stream_id commit.stream_id c.contexts in
        let taken =
          subst
            (λ n.
              (enqueue c.writer job ≡ (c.writer, false))
              ⊎ ((enqueue c.writer job).1 ≡ true)
                × ((enqueue c.writer job).0.accepted
                    ≡ c.writer.accepted ++ commit_chunk n c.next_completion task ∷ []))
            id (enqueue-accepted c.writer job) in
        rw real (enqueued-Outcome s task (enqueue c.writer job) idle e (ground (arith, real)) taken)
  ]

  either_branch :
      (b : Bool) (x y : Coordinator × ActionBatch)
      → (b ≡ true → Outcome x)
      → (b ≡ false → Outcome y)
      → Outcome (if b then x else y)
  either_branch true x y f g = f refl
  either_branch false x y f g = g refl

  -- A FILE_COMMIT leaves the disk writer as it is and schedules no poll; or there was no commit
  -- queued for the stream, the receiver has prepared this one, the writer has accepted exactly
  -- its job, the context is marked as queued with the line, the number, the file, the size and
  -- the path of this commit and with the completion that the job was given, which has neither
  -- completed nor failed and is given to no later job, and a poll is scheduled.
  pub on_commit-Outcome : Outcome (on_commit env c line_id commit)
  unfolding on_commit
  on_commit-Outcome =
      either_branch stream_context.chunk_commit_queued _ _
        (λ queued. inl (while_queued-writer stream_context))
        (λ idle.
          prepared-Outcome (prepare_commit env.disk (chunk_receiver_for env stream_context) commit)
            idle refl)

fsync_enqueued-durable :
    (ctx : Context) (target : ℕ) (r : DiskWriter Job × Bool)
    → (fsync_enqueued ctx target r).0.append_durable_offset ≡ ctx.append_durable_offset
fsync_enqueued-durable ctx target (w, true) = refl
fsync_enqueued-durable ctx target (w, false) = refl

enqueue_fsync-durable :
    (ctx : Context) (w : DiskWriter Job) (path : Option TreePath)
    → (enqueue_fsync ctx w path).0.append_durable_offset ≡ ctx.append_durable_offset
enqueue_fsync-durable ctx w none = refl
enqueue_fsync-durable ctx w (some path) = fsync_enqueued-durable _ _ _

maybe_enqueue-durable :
    (ctx : Context) (w : DiskWriter Job) (target : ℕ)
    → (maybe_enqueue_append_fsync ctx w target).0.append_durable_offset ≡ ctx.append_durable_offset
unfolding maybe_enqueue_append_fsync
maybe_enqueue-durable ctx w target =
    ground (arith, enqueue_fsync-durable (with_target ctx target) w ctx.append_durable_path)

enqueue_rest-durable :
    (ctx : Context) (w : DiskWriter Job)
    → (enqueue_rest ctx w).0.append_durable_offset ≡ ctx.append_durable_offset
enqueue_rest-durable ctx w = ground (arith, maybe_enqueue-durable ctx w ctx.append_durable_target)

polled_rest-context :
    (heartbeats : List HeartbeatAction) (r : Context × DiskWriter Job)
    → (polled_rest heartbeats r).context ≡ r.0
polled_rest-context heartbeats (ctx, w) = refl

else_of {ℓ} : {A : Type ℓ} (b : Bool) (x y : A) → b ≡ false → (if b then x else y) ≡ y
else_of false x y fine = refl
else_of true x y fine = cc fine

-- A poll takes the counter for what is durable, if it is more than was known.
poll_append_fsync-durable :
    (window : ℕ) (ctx : Context) (w : DiskWriter Job)
    → ctx.append_fsync_failed ≡ false
    → (poll_append_fsync window ctx w).context.append_durable_offset
      ≡ max ctx.append_durable_offset ctx.append_fsync_completed
unfolding poll_append_fsync
poll_append_fsync-durable window ctx w fine =
    let completed = ctx.append_fsync_completed in
    let durable = with_durable ctx completed in
    let heartbeats =
      if ltb ctx.append_durable_offset completed
      then append_heartbeats durable window durable.append
      else [] in
    let next = enqueue_rest (with_idle_fsync durable completed) w in
    let kept = enqueue_rest-durable (with_idle_fsync durable completed) w in
    let idle : (with_idle_fsync durable completed).append_durable_offset
        ≡ durable.append_durable_offset =
      ground arith in
    let most : durable.append_durable_offset ≡ max ctx.append_durable_offset completed =
      ground arith in
    ap (λ (p : Polled). p.context.append_durable_offset) (else_of ctx.append_fsync_failed _ _ fine)
    ∙ ap (λ (x : Context). x.append_durable_offset) (polled_rest-context heartbeats next)
    ∙ kept
    ∙ idle
    ∙ most

-- The job of a file that is no longer current.
run_job-completed :
    (c : Coordinator) (disk : JobDisk) (stream_id : ℕ) (path : TreePath) (target : ℕ)
    → disk.syncs ≡ true
    → context_for stream_id (run_job disk (fsync_append stream_id path target) c).contexts
      ≡ record (context_for stream_id c.contexts) { append_fsync_completed = target }
unfolding run_job
run_job-completed c disk stream_id path target syncs =
    let ctx = context_for stream_id c.contexts in
    let next : Context = record ctx { append_fsync_completed = target } in
    let id = context_for-stream_id stream_id c.contexts in
    let put =
      subst (λ n. context_for n (put_context next c.contexts) ≡ next) id
        (context_for-put next c.contexts) in
    rw syncs put

-- If the context was reset for another file and then an `fsync` job of before ends, the next
-- poll takes the offset of that job for the durable offset of the new file.
pub stale_fsync-durable :
    (c : Coordinator) (disk : JobDisk) (ctx : Context) (w : DiskWriter Job)
    (window file_id target : ℕ) (old : TreePath) (path : Option TreePath)
    → ctx.append_durable_file_id ≢ file_id
    → disk.syncs ≡ true
    → context_for ctx.stream_id c.contexts ≡ reset_append_durable_context ctx file_id path 0
    → (poll_append_fsync window
        (context_for ctx.stream_id
          (run_job disk (fsync_append ctx.stream_id old target) c).contexts)
        w).context.append_durable_offset
      ≡ target
unfolding reset_append_durable_context
stale_fsync-durable c disk ctx w window file_id target old path other syncs here =
    let reset = reset_append_durable_context ctx file_id path 0 in
    let late : Context = record reset { append_fsync_completed = target } in
    let finished =
      run_job-completed c disk ctx.stream_id old target syncs
      ∙ ap (λ (x : Context). record x { append_fsync_completed = target }) here in
    let fine : late.append_fsync_failed ≡ false = ground (arith, other) in
    let nothing : late.append_durable_offset ≡ 0 = ground (arith, other) in
    ap (λ (x : Context). (poll_append_fsync window x w).context.append_durable_offset) finished
    ∙ poll_append_fsync-durable window late w fine
    ∙ omega (arith, nothing)
