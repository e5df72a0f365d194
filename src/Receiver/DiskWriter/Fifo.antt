-- ===== src/Receiver/DiskWriter/Fifo.antt =====
-- The disk writer of src/receiver/yisync_disk_writer.cpp is a queue: what it accepts is run once, in
-- order, whatever the interleaving of the two threads.
use yisync.Common.{
  ℕ, ◌+◌, ◌%◌, ◌≤◌, ◌<◌, ◌≡◌, ◌≢◌, refl, sym, ap, ◌∙◌, subst, List, [], ◌∷◌, ◌++◌, Option, none,
  some, Bool, true, false, ◌==◌, get_or, length, arith, get_or-set_self, length-set,
  length-replicate, length-append, append_assoc, if_elim,
}
use yisync.Receiver.DiskWriter.Ring.{increment-lt, increment-tail, Holds, Holds-set, Holds-append}
use yisync.Receiver.DiskWriter.{
  capacity, increment, Worker, idle, empty, found, taking, holding, running, failing, finishing,
  exited, DiskWriter, make, stop, begin_at, produce_at, Producer, free, checked, room, placed,
}

module _ {ℓ} {Task : Type ℓ} where
  -- The task that the writer has taken and not run.
  abbrev pub in_hand : Worker Task → List Task
  in_hand (holding task) = task ∷ []
  in_hand (running task) = task ∷ []
  in_hand worker = []

  -- The slot of the first task that waits, and the slots before it that are taken.
  abbrev pub first : Worker Task → ℕ → ℕ
  first (holding task) head = increment head
  first worker head = head

  abbrev pub held : Worker Task → ℕ
  held (holding task) = 1
  held worker = 0

  -- What the writer's place says of its flag and of the number of tasks that wait.
  abbrev pub Placed : Worker Task → Bool → ℕ → Type 0
  Placed idle busy waiting = busy ≡ false
  Placed empty busy waiting = busy ≡ false
  Placed found busy waiting = (busy ≡ false) × (0 < waiting)
  Placed taking busy waiting = (busy ≡ true) × (0 < waiting)
  Placed (holding task) busy waiting = busy ≡ true
  Placed (running task) busy waiting = busy ≡ true
  Placed failing busy waiting = busy ≡ true
  Placed finishing busy waiting = busy ≡ true
  Placed exited busy waiting = busy ≡ false

  -- What the place of `enqueue` says of the slots in use and of the slot at the tail.
  abbrev pub Producing : Producer Task → ℕ → Option Task → Type ℓ
  Producing free used slot = Unit {ℓ}
  Producing (checked task) used slot = Unit {ℓ}
  Producing (room task) used slot = (used < 128) × Unit {ℓ}
  Producing (placed task) used slot = (used < 128) × (slot ≡ some task)

  -- The slots from the first one on to the tail are the abstract queue `xs`; every task that was
  -- accepted was run, is in the writer's hand, or waits, in this order.
  pub record Queues (w : DiskWriter Task) (xs : List Task) : Type ℓ where
    pub slots : length w.queue ≡ capacity
    pub head : w.head < capacity
    pub tail : w.tail ≡ (first w.worker w.head + length xs) % capacity
    pub space : held w.worker + length xs < capacity
    pub holds : Holds w.queue (first w.worker w.head) xs
    pub placing : Placed w.worker w.busy (length xs)
    pub producing : Producing w.producer (held w.worker + length xs) (get_or w.queue w.tail none)
    pub order : w.done ++ (in_hand w.worker ++ xs) ≡ w.accepted

  pub make-Queues : Queues (make {Task = Task}) []
  make-Queues = record {
    slots = length-replicate {A = Option Task} capacity none;
    head = omega arith;
    tail = refl;
    space = omega arith;
    holds = tt;
    placing = refl;
    producing = tt;
    order = refl;
  }

  first-lt : (k : Worker Task) (head : ℕ) → head < capacity → first k head < capacity
  first-lt idle head h = h
  first-lt empty head h = h
  first-lt found head h = h
  first-lt taking head h = h
  first-lt (holding task) head h = increment-lt head
  first-lt (running task) head h = h
  first-lt failing head h = h
  first-lt finishing head h = h
  first-lt exited head h = h

  -- The first slot is the head, with what the writer holds between them.
  first-held :
      (k : Worker Task) (head : ℕ) → head < capacity → first k head ≡ (head + held k) % capacity
  unfolding increment
  first-held idle head h = omega arith
  first-held empty head h = omega arith
  first-held found head h = omega arith
  first-held taking head h = omega arith
  first-held (holding task) head h = omega arith
  first-held (running task) head h = omega arith
  first-held failing head h = omega arith
  first-held finishing head h = omega arith
  first-held exited head h = omega arith

  still_Placed :
      (k : Worker Task) (busy : Bool) (n m : ℕ) → Placed k busy n → n ≤ m → Placed k busy m
  still_Placed idle busy n m p l = p
  still_Placed empty busy n m p l = p
  still_Placed found busy n m p l = (p.0, omega arith)
  still_Placed taking busy n m p l = (p.0, omega arith)
  still_Placed (holding task) busy n m p l = p
  still_Placed (running task) busy n m p l = p
  still_Placed failing busy n m p l = p
  still_Placed finishing busy n m p l = p
  still_Placed exited busy n m p l = p

  -- `enqueue` moves on without touching the ring.
  produced :
      (w : DiskWriter Task) (xs : List Task) (p : Producer Task)
      → Queues w xs
      → Producing p (held w.worker + length xs) (get_or w.queue w.tail none)
      → Queues (record w { producer = p }) xs
  produced w xs p q h = record {
    slots = q.slots;
    head = q.head;
    tail = q.tail;
    space = q.space;
    holds = q.holds;
    placing = q.placing;
    producing = h;
    order = q.order;
  }

  -- Where the slot behind the tail is not the head, a slot is free.
  has_room :
      (w : DiskWriter Task) (xs : List Task)
      → Queues w xs
      → increment w.tail ≢ w.head
      → held w.worker + length xs < 128
  unfolding increment
  has_room w xs q other =
      omega (arith, q.head, q.tail, q.space, other, first-held w.worker w.head q.head)

  pub begin_at-Queues :
      (w : DiskWriter Task) (xs : List Task) (task : Task) (p : Producer Task)
      → Queues w xs
      → Queues (begin_at w task p) xs
  begin_at-Queues w xs task free q =
      if_elim (λ v. Queues v xs) w.stopping (λ stops. q)
        (λ going. produced w xs (checked task) q tt)
  begin_at-Queues w xs task (checked t) q = q
  begin_at-Queues w xs task (room t) q = q
  begin_at-Queues w xs task (placed t) q = q

  pub produce_at-Queues :
      (w : DiskWriter Task) (xs : List Task) (p : Producer Task)
      → Queues w xs
      → w.producer ≡ p
      → (ys : List Task) × Queues (produce_at w p) ys
  produce_at-Queues w xs free q here = (xs, q)
  produce_at-Queues w xs (checked task) q here = (
    xs,
    if_elim (λ v. Queues v xs) (increment w.tail == w.head) (λ full. produced w xs free q tt)
        (λ other. produced w xs (room task) q (has_room w xs q (ground (arith, other)), tt)),
  )
  produce_at-Queues w xs (room task) q here =
      let roomy =
        subst (λ p. Producing p (held w.worker + length xs) (get_or w.queue w.tail none)) here
          q.producing in
      let used : held w.worker + length xs < 128 = roomy.0 in
      (
        xs,
        record {
          slots = length-set w.queue w.tail (some task) ∙ q.slots;
          head = q.head;
          tail = q.tail;
          space = q.space;
          holds =
              Holds-set w.queue (first w.worker w.head) w.tail (length xs) (some task) xs
                (first-lt w.worker w.head q.head) q.tail (omega arith) (omega (arith, used))
                q.holds;
          placing = q.placing;
          producing = (
            used,
            get_or-set_self w.queue w.tail (some task) none (omega (arith, q.slots, q.tail)),
          );
          order = q.order;
        },
      )
  produce_at-Queues w xs (placed task) q here =
      let roomy =
        subst (λ p. Producing p (held w.worker + length xs) (get_or w.queue w.tail none)) here
          q.producing in
      let used : held w.worker + length xs < 128 = roomy.0 in
      let more = length-append xs (task ∷ []) in
      (
        xs ++ task ∷ [],
        record {
          slots = q.slots;
          head = q.head;
          tail = increment-tail w.tail (first w.worker w.head) (length xs) _ q.tail more;
          space = omega (arith, more, used);
          holds =
              Holds-append w.queue (first w.worker w.head) task xs (first-lt w.worker w.head q.head)
                q.holds (ap (λ j. get_or w.queue j none) (sym q.tail) ∙ roomy.1);
          placing =
              still_Placed w.worker w.busy (length xs) (length (xs ++ task ∷ [])) q.placing
                (omega (arith, more));
          producing = tt;
          order =
              ap (λ r. w.done ++ r) (sym (append_assoc (in_hand w.worker) xs (task ∷ [])))
              ∙ sym (append_assoc w.done (in_hand w.worker ++ xs) (task ∷ []))
              ∙ ap (λ r. r ++ task ∷ []) q.order;
        },
      )

  pub stop-Queues : (w : DiskWriter Task) (xs : List Task) → Queues w xs → Queues (stop w) xs
  unfolding stop
  stop-Queues w xs q = record {
    slots = q.slots;
    head = q.head;
    tail = q.tail;
    space = q.space;
    holds = q.holds;
    placing = q.placing;
    producing = q.producing;
    order = q.order;
  }
