-- ===== src/Sender/Plan/Start.antt =====
-- From the comparison of the manifests (src/core/yisync_sync.cpp) to the task that the sender starts with
-- (src/sender/yisync_sender_plan.cpp).
use yisync.Common.{
  ℕ, suc, ◌+◌, ◌≡◌, refl, sym, ap, ◌∙◌, subst, List, [], ◌∷◌, Option, none, some, Bool, true, false,
  not, ◌&&◌, ◌||◌, ◌==◌, ==_iff, if◌then◌else◌, length, get_elem?, get_elem?-set, Result, ok, arith,
  Bool-cases, inl, inr, ◌⊎◌,
}
use yisync.Protocol.Message.{ManifestEntry, Manifest2Stream}
use yisync.Sync.Diff.{Verdict, Resumes, compare_entries-Verdict}
use yisync.Sync.{
  Conflict, SyncStart, StartAction, Round, next, start, throws, compare_entries, after_round,
  diff_stream, make_manifest2_stream,
}
use yisync.Sender.AppendState.{is_create}
use yisync.Sender.Plan.{
  FileSendTask, StreamSendState, Manifest2ApplyResult, find_plan, find_task, active_task,
  start_task, start_at, apply_plan, apply_manifest2_to_stream, Applied,
}

-- The ids of the tasks are those of the entries, in their order.
abbrev pub SameIds : List FileSendTask → List ManifestEntry → Type 0
SameIds [] [] = Unit {0}
SameIds (t ∷ tasks) (e ∷ entries) = (t.file_id ≡ e.file_id) × SameIds tasks entries
SameIds [] (e ∷ entries) = ⊥
SameIds (t ∷ tasks) [] = ⊥

-- A task of the list has the id.
abbrev pub HasId : ℕ → List FileSendTask → Type 0
HasId id [] = ⊥
HasId id (t ∷ tasks) = (t.file_id ≡ id) ⊎ HasId id tasks

round_start :
    (stream_id : ℕ) (a b : ManifestEntry) (st : SyncStart)
    → compare_entries stream_id a b ≡ start st
    → st.start_file_id ≡ a.file_id
round_start stream_id a b st h =
    let verdict : Resumes stream_id st a b =
      subst (Verdict stream_id a b) h (compare_entries-Verdict stream_id a b) in
    ap (λ (s : SyncStart). s.start_file_id) verdict.3

by_round :
    (stream_id : ℕ) (a b : ManifestEntry) (rest : Result Conflict (Option SyncStart)) (id : ℕ)
    (tasks : List FileSendTask) (st : SyncStart) (r : Round)
    → compare_entries stream_id a b ≡ r
    → (compare_entries stream_id a b ≡ start st → id ≡ st.start_file_id)
    → (rest ≡ ok (some st) → HasId st.start_file_id tasks)
    → after_round r rest ≡ ok (some st)
    → (id ≡ st.start_file_id) ⊎ HasId st.start_file_id tasks
by_round stream_id a b rest id tasks st next e here there h = inr (there h)
by_round stream_id a b rest id tasks st (start s) e here there h =
    let same : s ≡ st = cc h in inl (here (e ∙ ap start same))
by_round stream_id a b rest id tasks st (throws c) e here there h = cc h

-- A start of `diff_stream` is at an entry of the sender, so at a task.
diff_start-HasId :
    (stream_id : ℕ) (senders receivers : List ManifestEntry) (tasks : List FileSendTask)
    (st : SyncStart)
    → SameIds tasks senders
    → diff_stream stream_id senders receivers ≡ ok (some st)
    → HasId st.start_file_id tasks
unfolding diff_stream
diff_start-HasId stream_id [] receivers tasks st same h = cc h
diff_start-HasId stream_id (a ∷ senders) receivers [] st same h = absurd same
diff_start-HasId stream_id (a ∷ senders) [] (t ∷ tasks) st same h =
    let first : a.file_id ≡ st.start_file_id = cc h in inl (same.0 ∙ first)
diff_start-HasId stream_id (a ∷ senders) (b ∷ receivers) (t ∷ tasks) st same h =
    by_round stream_id a b (diff_stream stream_id senders receivers) t.file_id tasks st
      (compare_entries stream_id a b) refl (λ e. same.0 ∙ sym (round_start stream_id a b st e))
      (diff_start-HasId stream_id senders receivers tasks st same.1) h

find_task-HasId :
    (id : ℕ) (tasks : List FileSendTask) (index : ℕ)
    → HasId id tasks
    → (n : ℕ) × (task : FileSendTask) × (find_task id tasks index ≡ some (index + n))
      × (get_elem? tasks n ≡ some task)
      × (task.file_id ≡ id)
unfolding find_task
find_task-HasId id [] index has = absurd has
find_task-HasId id (t ∷ tasks) index has = elim (Bool-cases (t.file_id == id)) [
  | inl hit ↦ (0, t, rw hit (ap some (omega arith)), refl, (==_iff t.file_id id).0 hit)
  | inr miss ↦ elim has [
    | inl same ↦ cc (miss, (==_iff t.file_id id).1 same)
    | inr more ↦
        let (n, task, found, there, same) = find_task-HasId id tasks (index + 1) more in
        (suc n, task, rw miss (found ∙ ap some (omega arith)), there, same)
  ]
]

-- What the sender does with the receiver's answer to a comparison.
abbrev pub Starts : StreamSendState → Option SyncStart → Applied → Type 0
Starts s none applied =
    (t : StreamSendState) × (r : Manifest2ApplyResult) × (applied ≡ ok (t, some r))
    × (r.in_sync ≡ true)
    × (t.complete ≡ true)
    × (t.current_task ≡ length s.tasks)
Starts s (some st) applied =
    (t : StreamSendState) × (task : FileSendTask) × (before : FileSendTask)
    × (r : Manifest2ApplyResult) × (applied ≡ ok (t, some r))
    × (active_task t ≡ some task)
    × (task.file_id ≡ st.start_file_id)
    × (get_elem? s.tasks t.current_task ≡ some before)
    × (task ≡ record before { chunk_mode = is_create st.start_action && before.chunk_mode })
    × (t.manifest_applied ≡ true)
    × (r.in_sync ≡ false)
    × (r.start ≡ record st { stream_id = s.stream_id })
    × (r.should_start_append ≡ not task.chunk_mode)
    × (r.should_start_chunk ≡ task.chunk_mode)

module _ (s : StreamSendState) (id offset : ℕ) where
  abbrev begin : StartAction → SyncStart
  begin action = record {
    stream_id = s.stream_id;
    start_file_id = id;
    start_offset = offset;
    start_action = action;
  }

  start_at-Starts :
      (action : StartAction)
      → HasId id s.tasks
      → Starts s
          (some (begin action))
          (apply_plan s (some (make_manifest2_stream s.stream_id (some (begin action)))))
  unfolding make_manifest2_stream
  start_at-Starts StartAction.resume_existing has =
      let (n, task, found, there, same) = find_task-HasId id s.tasks 0 has in
      let plan = make_manifest2_stream s.stream_id (some (begin StartAction.resume_existing)) in
      let at_n : find_task id s.tasks 0 ≡ some n = found ∙ ap some (omega arith) in
      let next : StreamSendState = record s { current_task = n; manifest_applied = true } in
      (
        _,
        record task { chunk_mode = false },
        task,
        _,
        ap (start_at s plan) at_n ∙ ap (start_task next plan) there,
        get_elem?-set s.tasks n task (record task { chunk_mode = false }) there,
        same,
        there,
        refl,
        refl,
        refl,
        refl,
        refl,
        refl,
      )
  start_at-Starts StartAction.create_missing has =
      let (n, task, found, there, same) = find_task-HasId id s.tasks 0 has in
      let plan = make_manifest2_stream s.stream_id (some (begin StartAction.create_missing)) in
      let at_n : find_task id s.tasks 0 ≡ some n = found ∙ ap some (omega arith) in
      let next : StreamSendState = record s { current_task = n; manifest_applied = true } in
      (
        _,
        task,
        task,
        _,
        ap (start_at s plan) at_n ∙ ap (start_task next plan) there,
        get_elem?-set s.tasks n task task there,
        same,
        there,
        refl,
        refl,
        refl,
        refl,
        refl,
        refl,
      )

not_taken {ℓ} : {A : Type ℓ} (b : Bool) (x y : A) → b ≡ false → (if b then x else y) ≡ y
not_taken false x y e = refl
not_taken true x y e = cc e

-- A MANIFEST2 of one stream is applied to that stream.
apply-goes :
    (s : StreamSendState) (manifest_id : ℕ) (p : Manifest2Stream)
    → p.stream_id ≡ s.stream_id
    → s.manifest_applied ≡ false
    → s.complete ≡ false
    → apply_manifest2_to_stream (record { manifest_id = manifest_id; streams = p ∷ [] }) s
      ≡ apply_plan s (some p)
unfolding apply_manifest2_to_stream find_plan
apply-goes s manifest_id p same fresh going =
    let new : s.manifest_applied || s.complete ≡ false = ground arith in
    let mine : p.stream_id == s.stream_id ≡ true = (==_iff p.stream_id s.stream_id).1 same in
    not_taken (s.manifest_applied || s.complete) _ _ new
    ∙ ap (apply_plan s) (ap (λ b. if b then some p else none) mine)

-- Where the tasks have the ids of the sender's entries in their order and the stream is neither
-- started nor complete: applying the answer that is made from the comparison completes a stream
-- that is in sync, and else starts it at a task with the id, the offset and the action that the
-- comparison reports. That task is as before, but in the mode by chunks only if the action
-- creates it and it was in that mode; a chunk transfer is asked for exactly in that mode, and
-- else an append.
pub apply_manifest2-Starts :
    (s : StreamSendState) (manifest_id : ℕ) (senders receivers : List ManifestEntry)
    (start : Option SyncStart)
    → SameIds s.tasks senders
    → s.manifest_applied ≡ false
    → s.complete ≡ false
    → diff_stream s.stream_id senders receivers ≡ ok start
    → Starts s start (
        apply_manifest2_to_stream
          (record {
            manifest_id = manifest_id;
            streams = make_manifest2_stream s.stream_id start ∷ [];
          })
          s)
unfolding make_manifest2_stream
apply_manifest2-Starts s manifest_id senders receivers none same fresh going diff =
    let applied =
      apply-goes s manifest_id (make_manifest2_stream s.stream_id none) refl fresh going in
    (_, _, applied, refl, refl, refl)
apply_manifest2-Starts s manifest_id senders receivers (some st) same fresh going diff =
    let plan = make_manifest2_stream s.stream_id (some st) in
    let has = diff_start-HasId s.stream_id senders receivers s.tasks st same diff in
    let b = start_at-Starts s st.start_file_id st.start_offset st.start_action has in
    (
      b.0,
      b.1,
      b.2,
      b.3,
      apply-goes s manifest_id plan refl fresh going ∙ b.4,
      b.5,
      b.6,
      b.7,
      b.8,
      b.9,
      b.10,
      b.11,
      b.12,
      b.13,
    )
