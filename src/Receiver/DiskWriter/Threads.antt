-- ===== src/Receiver/DiskWriter/Threads.antt =====
-- Interleavings of the two threads of src/receiver/yisync_disk_writer.cpp: what is run, and how the
-- writer ends after `stop`.
use yisync.Common.{
  ◌<◌, ◌≡◌, refl, sym, ap, ◌∙◌, subst, List, [], ◌∷◌, ◌++◌, Bool, true, length, arith, inl, inr,
}
use yisync.Receiver.DiskWriter.{
  exited, DiskWriter, make, begin_enqueue, produce, stop, work, advance,
}
use yisync.Receiver.DiskWriter.Fifo.{
  Queues, make-Queues, begin_at-Queues, produce_at-Queues, stop-Queues, in_hand,
}
use yisync.Receiver.DiskWriter.Works.{work-Worked, left, lost_at}

-- A step of the receiver's thread, or one of the writer's.
pub data Event {ℓ} (Task : Type ℓ) : Type ℓ where
  begins : Task → Event Task
  produces stops : Event Task
  works : Bool → Event Task

module _ {ℓ} {Task : Type ℓ} where
  abbrev pub step : DiskWriter Task → Event Task → DiskWriter Task
  step w (begins task) = begin_enqueue w task
  step w produces = produce w
  step w stops = stop w
  step w (works throws) = work w throws

  unfoldable pub run : DiskWriter Task → List (Event Task) → DiskWriter Task
  run w [] = w
  run w (e ∷ es) = run (step w e) es

  -- Steps of the writer alone.
  unfoldable pub run_worker : DiskWriter Task → List Bool → DiskWriter Task
  run_worker w [] = w
  run_worker w (throws ∷ more) = run_worker (work w throws) more

  abbrev Some : DiskWriter Task → Type ℓ
  Some w = (xs : List Task) × Queues w xs

  step-Queues :
      (w : DiskWriter Task) (xs : List Task) (e : Event Task) → Queues w xs → Some (step w e)
  unfolding begin_enqueue produce
  step-Queues w xs (begins task) q = (xs, begin_at-Queues w xs task w.producer q)
  step-Queues w xs produces q = produce_at-Queues w xs w.producer q refl
  step-Queues w xs stops q = (xs, stop-Queues w xs q)
  step-Queues w xs (works throws) q =
      let worked = work-Worked w xs throws q in (worked.ys, worked.queues)

  run-Some : (w : DiskWriter Task) (es : List (Event Task)) → Some w → Some (run w es)
  unfolding run
  run-Some w [] some = some
  run-Some w (e ∷ es) some = run-Some (step w e) es (step-Queues w some.0 e some.1)

  -- After any interleaving of the steps of the receiver's thread and of the writer's, from the
  -- start, each a load or a store of an atomic or a write to a slot: the slots of the ring hold
  -- a queue of at most 128 tasks, and the tasks that were accepted are, in their order, those
  -- that were run, the one in the writer's hand and those of the queue.
  pub run-Queues : (es : List (Event Task)) → (xs : List Task) × Queues (run make es) xs
  run-Queues es = run-Some make es ([], make-Queues)

  exited-stays :
      (w : DiskWriter Task) (throws : List Bool) → w.worker ≡ exited → run_worker w throws ≡ w
  unfolding run_worker work
  exited-stays w [] gone = refl
  exited-stays w (t ∷ throws) gone =
      let stays : work w t ≡ w = ap (advance w t) gone in
      ap (λ v. run_worker v throws) stays ∙ exited-stays w throws gone

  exited-order :
      (w : DiskWriter Task) (xs : List Task)
      → Queues w xs
      → w.worker ≡ exited
      → w.done ++ lost_at w.worker xs ≡ w.accepted
  exited-order w xs q gone =
      ap (λ k. w.done ++ lost_at k xs) gone
      ∙ subst (λ k. w.done ++ (in_hand k ++ xs) ≡ w.accepted) gone q.order

  -- Once the writer is to stop, as many of its steps as its place and the queue ask for end its
  -- thread. Then it has run the tasks that were accepted, in their order, all but those that
  -- waited when it had found the queue empty and had not asked yet whether to stop, or when it
  -- had ended: these are never run.
  pub stop-ends :
      (w : DiskWriter Task) (xs : List Task) (throws : List Bool)
      → Queues w xs
      → w.stopping ≡ true
      → left w xs < length throws
      → ((run_worker w throws).worker ≡ exited)
        × ((run_worker w throws).done ++ lost_at w.worker xs ≡ w.accepted)
  unfolding run_worker
  stop-ends w xs [] q stopped enough = absurd (omega arith)
  stop-ends w xs (t ∷ throws) q stopped enough =
      let worked = work-Worked w xs t q in
      elim worked.ends [
        | inl going ↦ cc (stopped, going)
        | inr (lost, inl closer) ↦
            let ends =
              stop-ends (work w t) worked.ys throws worked.queues (worked.stopping ∙ stopped)
                (omega (arith, closer)) in
            (
              ends.0,
              ap (λ r. (run_worker (work w t) throws).done ++ r) (sym lost)
                  ∙ ends.1
                  ∙ worked.accepted,
            )
        | inr (lost, inr (gone, now)) ↦
            let stays = exited-stays (work w t) throws now in
            (
              ap (λ v. v.worker) stays ∙ now,
              ap (λ (v : DiskWriter Task). v.done ++ lost_at w.worker xs) stays
                  ∙ ap (λ r. (work w t).done ++ r) (sym lost)
                  ∙ exited-order (work w t) worked.ys worked.queues now
                  ∙ worked.accepted,
            )
      ]
