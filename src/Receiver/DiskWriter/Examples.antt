-- ===== src/Receiver/DiskWriter/Examples.antt =====
-- A writer that takes two tasks while the receiver goes on, one that is stopped between two of its
-- loads, and the theorems at these runs.
use yisync.Common.{
  ℕ, ◌≡◌, ◌<◌, ◌++◌, refl, List, [], ◌∷◌, true, false, replicate, length, length-replicate, arith,
}
use yisync.Receiver.DiskWriter.{empty, exited, make, begin_enqueue, produce, increment, stop, work}
use yisync.Receiver.DiskWriter.Fifo.{Queues}
use yisync.Receiver.DiskWriter.Works.{left, rest_of, lost_at}
use yisync.Receiver.DiskWriter.Threads.{
  Event, begins, produces, stops, works, run, run_worker, run-Queues, stop-ends,
}

abbrev events : List (Event ℕ)
events =
    begins 7
    ∷ works false
    ∷ produces
    ∷ produces
    ∷ works false
    ∷ produces
    ∷ works false
    ∷ works false
    ∷ begins 8
    ∷ works false
    ∷ produces
    ∷ works false
    ∷ produces
    ∷ works true
    ∷ produces
    ∷ []

run-Queues_example : (xs : List ℕ) × Queues (run make events) xs
run-Queues_example = run-Queues events

run_accepted : (run make events).accepted ≡ 7 ∷ 8 ∷ []
unfolding run begin_enqueue produce increment work
run_accepted = refl

-- The writer has found the queue empty; then a task is accepted, and the writer is to stop.
abbrev stopped : List (Event ℕ)
stopped = works false ∷ begins 7 ∷ produces ∷ produces ∷ produces ∷ stops ∷ []

stopped_state :
    ((run make stopped).stopping ≡ true)
    × ((run make stopped).worker ≡ empty)
    × ((run make stopped).accepted ≡ 7 ∷ [])
    × (rest_of (run make stopped).worker ≡ 1)
unfolding run begin_enqueue produce increment work stop
stopped_state = (refl, refl, refl, refl)

-- The task is never run.
stopped_loses :
    ((run_worker (run make stopped) (false ∷ false ∷ [])).worker ≡ exited)
    × ((run_worker (run make stopped) (false ∷ false ∷ [])).done ≡ [])
unfolding run run_worker begin_enqueue produce increment work stop
stopped_loses = (refl, refl)

-- No more tasks wait than there are slots.
soon : left (run make stopped) (run-Queues stopped).0 < length (replicate 1000 false)
soon = omega (arith, stopped_state.3, (run-Queues stopped).1.space, length-replicate 1000 false)

stop-ends_example :
    ((run_worker (run make stopped) (replicate 1000 false)).worker ≡ exited)
    × ((run_worker (run make stopped) (replicate 1000 false)).done
          ++ lost_at (run make stopped).worker (run-Queues stopped).0
        ≡ (run make stopped).accepted)
stop-ends_example =
    stop-ends (run make stopped) (run-Queues stopped).0 (replicate 1000 false)
      (run-Queues stopped).1 stopped_state.0 soon
