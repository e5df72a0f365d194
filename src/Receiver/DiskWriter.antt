-- ===== src/Receiver/DiskWriter.antt =====
-- src/receiver/yisync_disk_writer.cpp: the queue between the receiver's thread, which enqueues, and
-- the writer's, which runs. A step is one operation of one of the two on what they share: a load or a
-- store of an atomic, or a write to a slot; taking a task out of its slot and clearing the slot is one,
-- as no other thread reaches that slot then. `enqueue` is all of its steps without one of the writer's
-- between them, as the coordinator calls it.
pub mod Ring
pub mod Fifo
pub mod Works
pub mod Threads
pub mod Examples
use yisync.Common.{
  ℕ, ◌+◌, ◌-◌, ◌%◌, List, [], ◌∷◌, ◌++◌, Option, none, some, Bool, true, false, ◌==◌, if◌then◌else◌,
  set, get_or, replicate,
}

-- One slot stays empty.
abbrev pub capacity : ℕ
capacity = 128 + 1

unfoldable pub increment : ℕ → ℕ
increment value = (value + 1) % capacity

module _ {ℓ} (Task : Type ℓ) where
  -- Where the writer's loop stands: before the load of the tail, where it has found the queue empty and
  -- not asked yet whether to stop, where it has found a task, with `busy` set, with the task out of its
  -- slot, with the head behind it, where the task has thrown, and where it is done.
  pub data Worker : Type ℓ where
    idle empty found taking failing finishing exited : Worker
    holding running : Task → Worker

  -- Where `enqueue` stands: not called, where it is not to stop, where there is room, and with the task
  -- in its slot.
  pub data Producer : Type ℓ where
    free : Producer
    checked room placed : Task → Producer

  -- `accepted` has the tasks that `enqueue` took, and `done` those that were run, in their orders.
  pub record DiskWriter : Type ℓ where
    pub queue : List (Option Task)
    pub head : ℕ
    pub tail : ℕ
    pub busy : Bool
    pub stopping : Bool
    pub failed : Bool
    pub worker : Worker
    pub producer : Producer
    pub accepted : List Task
    pub done : List Task

module _ {ℓ} {Task : Type ℓ} where
  abbrev pub make : DiskWriter Task
  make = record {
    queue = replicate capacity none;
    head = 0;
    tail = 0;
    busy = false;
    stopping = false;
    failed = false;
    worker = idle;
    producer = free;
    accepted = [];
    done = [];
  }

  -- The task in its slot, and the tail behind it.
  abbrev pub accept : DiskWriter Task → Task → DiskWriter Task
  accept w task = record w {
    queue = set w.queue w.tail (some task);
    tail = increment w.tail;
    accepted = w.accepted ++ task ∷ [];
  }

  unfoldable pub enqueue : DiskWriter Task → Task → DiskWriter Task × Bool
  enqueue w task =
      if w.stopping
      then (w, false)
      else (if increment w.tail == w.head then (w, false) else (accept w task, true))

  -- The steps of `enqueue`: its first is the load of `stopping`. One thread calls it.
  abbrev pub begin_at : DiskWriter Task → Task → Producer Task → DiskWriter Task
  begin_at w task free = if w.stopping then w else record w { producer = checked task }
  begin_at w task other = w

  unfoldable pub begin_enqueue : DiskWriter Task → Task → DiskWriter Task
  begin_enqueue w task = begin_at w task w.producer

  abbrev pub produce_at : DiskWriter Task → Producer Task → DiskWriter Task
  produce_at w free = w
  produce_at w (checked task) =
      if increment w.tail == w.head
      then record w { producer = free }
      else record w { producer = room task }
  produce_at w (room task) = record w {
    queue = set w.queue w.tail (some task);
    producer = placed task;
  }
  produce_at w (placed task) = record w {
    tail = increment w.tail;
    producer = free;
    accepted = w.accepted ++ task ∷ [];
  }

  unfoldable pub produce : DiskWriter Task → DiskWriter Task
  produce w = produce_at w w.producer

  -- `stop` sets the flag, and waits for the writer's thread.
  unfoldable pub stop : DiskWriter Task → DiskWriter Task
  stop w = record w { stopping = true }

  abbrev pub take_task : DiskWriter Task → Option Task → DiskWriter Task
  take_task w none = w
  take_task w (some task) = record w { queue = set w.queue w.head none; worker = holding task }

  -- The next step of `run`, where `throws` is whether the task of this step throws.
  abbrev pub advance : DiskWriter Task → Bool → Worker Task → DiskWriter Task
  advance w throws idle =
      if w.head == w.tail then record w { worker = empty } else record w { worker = found }
  advance w throws empty =
      if w.stopping then record w { worker = exited } else record w { worker = idle }
  advance w throws found = record w { busy = true; worker = taking }
  advance w throws taking = take_task w (get_or w.queue w.head none)
  advance w throws (holding task) = record w { head = increment w.head; worker = running task }
  advance w throws (running task) = record w {
    worker = if throws then failing else finishing;
    done = w.done ++ task ∷ [];
  }
  advance w throws failing = record w { failed = true; worker = finishing }
  advance w throws finishing = record w { busy = false; worker = idle }
  advance w throws exited = w

  unfoldable pub work : DiskWriter Task → Bool → DiskWriter Task
  work w throws = advance w throws w.worker
