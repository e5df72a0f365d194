-- ===== src/Receiver/DiskWriter/Works.antt =====
-- The steps of the writer's thread of src/receiver/yisync_disk_writer.cpp: each keeps the order of the
-- tasks and, once the writer is to stop, brings its end closer.
use yisync.Common.{
  ℕ, suc, ◌+◌, ◌*◌, ◌%◌, ◌≤◌, ◌<◌, ◌≡◌, ◌≢◌, refl, sym, ap, ◌∙◌, subst, List, [], ◌∷◌, ◌++◌, Option,
  none, some, Bool, true, false, ◌==◌, set, get_or, length, arith, inl, inr, ◌⊎◌, ◌↔◌,
  get_or-set_ne, length-set, append_assoc, ==_iff, if_elim,
}
use yisync.Receiver.DiskWriter.{
  capacity, increment, Worker, idle, empty, found, taking, holding, running, failing, finishing,
  exited, Producer, free, checked, room, placed, DiskWriter, advance, work,
}
use yisync.Receiver.DiskWriter.Ring.{increment-lt, Holds, Holds-set}
use yisync.Receiver.DiskWriter.Fifo.{Queues, in_hand, first, held, Placed, Producing}

module _ {ℓ} {Task : Type ℓ} where
  -- Where the writer finds no task waiting.
  pub empty_iff :
      (w : DiskWriter Task) (xs : List Task)
      → Queues w xs
      → held w.worker ≡ 0
      → first w.worker w.head ≡ w.head
      → (w.head ≡ w.tail) ↔ (length xs ≡ 0)
  empty_iff w xs q none_held here = omega (arith, q.head, q.tail, q.space, none_held, here)

  -- How much the writer has still to do before it ends, where it is to stop.
  abbrev pub rest_of : Worker Task → ℕ
  rest_of idle = 2
  rest_of empty = 1
  rest_of found = 1
  rest_of taking = 0
  rest_of (holding task) = 6
  rest_of (running task) = 5
  rest_of failing = 4
  rest_of finishing = 3
  rest_of exited = 0

  abbrev pub left : DiskWriter Task → List Task → ℕ
  left w xs = rest_of w.worker + 7 * length xs

  -- The tasks that a writer which is to stop does not run any more: those that were accepted after it
  -- has found the queue empty.
  abbrev pub lost_at : Worker Task → List Task → List Task
  lost_at empty xs = xs
  lost_at exited xs = xs
  lost_at worker xs = []

  -- A step of the writer keeps the order and changes neither what was accepted nor the flag.
  pub record Worked (w : DiskWriter Task) (xs : List Task) (v : DiskWriter Task) : Type ℓ where
    pub ys : List Task
    pub queues : Queues v ys
    pub accepted : v.accepted ≡ w.accepted
    pub stopping : v.stopping ≡ w.stopping
    pub ends :
        (w.stopping ≡ false)
        ⊎ (lost_at v.worker ys ≡ lost_at w.worker xs)
          × ((left v ys < left w xs) ⊎ (w.worker ≡ exited) × (v.worker ≡ exited))

  -- No more slots are in use, and a slot that waits for the tail stays as it is.
  less_used :
      (p : Producer Task) (n m : ℕ) (before after : Option Task)
      → Producing p n before
      → m ≤ n
      → (n < 128 → after ≡ before)
      → Producing p m after
  less_used free n m before after p l same = tt
  less_used (checked task) n m before after p l same = tt
  less_used (room task) n m before after p l same = (omega (arith, p.0), tt)
  less_used (placed task) n m before after p l same = (omega (arith, p.0), same p.0 ∙ p.1)

  -- A step that leaves the ring and what is in the writer's hand, which holds no slot.
  module _ (w : DiskWriter Task) (xs : List Task) (j k : Worker Task) (busy : Bool)
      (q : Queues w xs) (here : w.worker ≡ j) where
    moved :
        held j ≡ 0
        → held k ≡ 0
        → first j w.head ≡ w.head
        → first k w.head ≡ w.head
        → in_hand k ≡ in_hand j
        → Placed k busy (length xs)
        → Queues (record w { busy = busy; worker = k }) xs
    moved hj hk fj fk hand p =
        let first_same : first w.worker w.head ≡ first k w.head =
          ap (λ i. first i w.head) here ∙ fj ∙ sym fk in
        let held_same : held w.worker ≡ held k = ap held here ∙ hj ∙ sym hk in
        record {
          slots = q.slots;
          head = q.head;
          tail = subst (λ i. w.tail ≡ (i + length xs) % capacity) first_same q.tail;
          space = omega (arith, q.space, held_same);
          holds = subst (λ i. Holds w.queue i xs) first_same q.holds;
          placing = p;
          producing =
              subst (λ n. Producing w.producer (n + length xs) (get_or w.queue w.tail none))
                held_same q.producing;
          order = ap (λ h. w.done ++ (h ++ xs)) (hand ∙ sym (ap in_hand here)) ∙ q.order;
        }

  no_tasks : (xs : List Task) → length xs ≡ 0 → xs ≡ []
  no_tasks [] h = refl
  no_tasks (x ∷ xs) h = absurd (omega arith)

  module _ (w : DiskWriter Task) (xs : List Task) (q : Queues w xs) where
    idle-Worked : (throws : Bool) → w.worker ≡ idle → Worked w xs (advance w throws idle)
    idle-Worked throws here =
        let calm = subst (λ k. Placed k w.busy (length xs)) here q.placing in
        let weight : rest_of w.worker ≡ 2 = ap rest_of here in
        let lost : lost_at w.worker xs ≡ [] = ap (λ k. lost_at k xs) here in
        let at_head : first w.worker w.head ≡ w.head = ap (λ k. first k w.head) here in
        let iff = empty_iff w xs q (ap held here) at_head in
        if_elim (Worked w xs) (w.head == w.tail)
          (λ same. record {
            ys = xs;
            queues = moved w xs idle empty w.busy q here refl refl refl refl refl calm;
            accepted = refl;
            stopping = refl;
            ends = inr (
              no_tasks xs (iff.0 ((==_iff w.head w.tail).0 same)) ∙ sym lost,
              inl (omega (arith, weight)),
            );
          })
          (λ other.
            let some_left : length xs ≢ 0 =
              λ gone. cc (other, (==_iff w.head w.tail).1 (iff.1 gone)) in
            record {
              ys = xs;
              queues =
                  moved w xs idle found w.busy q here refl refl refl refl refl
                    (calm, omega (arith, some_left));
              accepted = refl;
              stopping = refl;
              ends = inr (sym lost, inl (omega (arith, weight)));
            })

    empty-Worked : (throws : Bool) → w.worker ≡ empty → Worked w xs (advance w throws empty)
    empty-Worked throws here =
        let calm = subst (λ k. Placed k w.busy (length xs)) here q.placing in
        let weight : rest_of w.worker ≡ 1 = ap rest_of here in
        if_elim (Worked w xs) w.stopping
          (λ stops. record {
            ys = xs;
            queues = moved w xs empty exited w.busy q here refl refl refl refl refl calm;
            accepted = refl;
            stopping = refl;
            ends = inr (sym (ap (λ k. lost_at k xs) here), inl (omega (arith, weight)));
          })
          (λ going. record {
            ys = xs;
            queues = moved w xs empty idle w.busy q here refl refl refl refl refl calm;
            accepted = refl;
            stopping = refl;
            ends = inl going;
          })

    found-Worked : (throws : Bool) → w.worker ≡ found → Worked w xs (advance w throws found)
    found-Worked throws here =
        let calm = subst (λ k. Placed k w.busy (length xs)) here q.placing in
        let weight : rest_of w.worker ≡ 1 = ap rest_of here in
        record {
          ys = xs;
          queues = moved w xs found taking true q here refl refl refl refl refl (refl, calm.1);
          accepted = refl;
          stopping = refl;
          ends = inr (sym (ap (λ k. lost_at k xs) here), inl (omega (arith, weight)));
        }

    running-Queues :
        (task : Task) (k : Worker Task)
        → w.worker ≡ running task
        → in_hand k ≡ []
        → held k ≡ 0
        → first k w.head ≡ w.head
        → Placed k w.busy (length xs)
        → Queues (record w { worker = k; done = w.done ++ task ∷ [] }) xs
    running-Queues task k here hand hk fk p =
        let first_same : first w.worker w.head ≡ first k w.head =
          ap (λ i. first i w.head) here ∙ sym fk in
        let held_same : held w.worker ≡ held k = ap held here ∙ sym hk in
        record {
          slots = q.slots;
          head = q.head;
          tail = subst (λ i. w.tail ≡ (i + length xs) % capacity) first_same q.tail;
          space = omega (arith, q.space, held_same);
          holds = subst (λ i. Holds w.queue i xs) first_same q.holds;
          placing = p;
          producing =
              subst (λ n. Producing w.producer (n + length xs) (get_or w.queue w.tail none))
                held_same q.producing;
          order =
              ap (λ h. (w.done ++ task ∷ []) ++ (h ++ xs)) hand
              ∙ append_assoc w.done (task ∷ []) xs
              ∙ subst (λ k. w.done ++ (in_hand k ++ xs) ≡ w.accepted) here q.order;
        }

    running-Worked :
        (throws : Bool) (task : Task)
        → w.worker ≡ running task
        → Worked w xs (advance w throws (running task))
    running-Worked true task here = record {
      ys = xs;
      queues =
          running-Queues task failing here refl refl refl
            (subst (λ k. Placed k w.busy (length xs)) here q.placing);
      accepted = refl;
      stopping = refl;
      ends = inr (sym (ap (λ k. lost_at k xs) here), inl (omega (arith, ap rest_of here)));
    }
    running-Worked false task here = record {
      ys = xs;
      queues =
          running-Queues task finishing here refl refl refl
            (subst (λ k. Placed k w.busy (length xs)) here q.placing);
      accepted = refl;
      stopping = refl;
      ends = inr (sym (ap (λ k. lost_at k xs) here), inl (omega (arith, ap rest_of here)));
    }

    with_failed : Queues (record w { failed = true }) xs
    with_failed = record {
      slots = q.slots;
      head = q.head;
      tail = q.tail;
      space = q.space;
      holds = q.holds;
      placing = q.placing;
      producing = q.producing;
      order = q.order;
    }

    failing-Worked : (throws : Bool) → w.worker ≡ failing → Worked w xs (advance w throws failing)
    failing-Worked throws here = record {
      ys = xs;
      queues =
          moved (record w { failed = true }) xs failing finishing w.busy with_failed here refl refl
            refl refl refl (subst (λ k. Placed k w.busy (length xs)) here q.placing);
      accepted = refl;
      stopping = refl;
      ends = inr (sym (ap (λ k. lost_at k xs) here), inl (omega (arith, ap rest_of here)));
    }

    finishing-Worked :
        (throws : Bool) → w.worker ≡ finishing → Worked w xs (advance w throws finishing)
    finishing-Worked throws here = record {
      ys = xs;
      queues = moved w xs finishing idle false q here refl refl refl refl refl refl;
      accepted = refl;
      stopping = refl;
      ends = inr (sym (ap (λ k. lost_at k xs) here), inl (omega (arith, ap rest_of here)));
    }

    exited-Worked : (throws : Bool) → w.worker ≡ exited → Worked w xs (advance w throws exited)
    exited-Worked throws here = record {
      ys = xs;
      queues = q;
      accepted = refl;
      stopping = refl;
      ends = inr (refl, inr (here, here));
    }

    holding-Worked :
        (throws : Bool) (task : Task)
        → w.worker ≡ holding task
        → Worked w xs (advance w throws (holding task))
    holding-Worked throws task here =
        let first_same : first w.worker w.head ≡ increment w.head = ap (λ k. first k w.head) here in
        let held_same : held w.worker ≡ 1 = ap held here in
        record {
          ys = xs;
          queues = record {
            slots = q.slots;
            head = increment-lt w.head;
            tail = subst (λ i. w.tail ≡ (i + length xs) % capacity) first_same q.tail;
            space = omega (arith, q.space);
            holds = subst (λ i. Holds w.queue i xs) first_same q.holds;
            placing = subst (λ k. Placed k w.busy (length xs)) here q.placing;
            producing =
                less_used w.producer (held w.worker + length xs) (0 + length xs) _ _ q.producing
                  (omega arith) (λ used. refl);
            order = subst (λ k. w.done ++ (in_hand k ++ xs) ≡ w.accepted) here q.order;
          };
          accepted = refl;
          stopping = refl;
          ends = inr (sym (ap (λ k. lost_at k xs) here), inl (omega (arith, ap rest_of here)));
        }

  taking-Worked :
      (w : DiskWriter Task) (xs : List Task) (throws : Bool)
      → Queues w xs
      → w.worker ≡ taking
      → Worked w xs (advance w throws taking)
  unfolding increment
  taking-Worked w [] throws q here =
      absurd (omega (arith, (subst (λ k. Placed k w.busy 0) here q.placing).1))
  taking-Worked w (x ∷ xs) throws q here =
      let at_head : first w.worker w.head ≡ w.head = ap (λ k. first k w.head) here in
      let none_held : held w.worker ≡ 0 = ap held here in
      let holds = subst (λ i. Holds w.queue i (x ∷ xs)) at_head q.holds in
      let there : get_or w.queue w.head none ≡ some x = holds.0 in
      let tail : w.tail ≡ (w.head + suc (length xs)) % capacity =
        subst (λ i. w.tail ≡ (i + suc (length xs)) % capacity) at_head q.tail in
      let emptied : DiskWriter Task = record w {
        queue = set w.queue w.head none;
        worker = holding x;
      } in
      let step : advance w throws taking ≡ emptied = rw there refl in
      subst (Worked w (x ∷ xs)) (sym step) (record {
        ys = xs;
        queues = record {
          slots = length-set w.queue w.head none ∙ q.slots;
          head = q.head;
          tail = omega (arith, tail, q.head);
          space = omega (arith, q.space, none_held);
          holds =
              Holds-set w.queue (increment w.head) w.head 128 none xs (omega arith)
                (omega (arith, q.head)) (omega (arith, q.space, none_held)) (omega arith) holds.1;
          placing = (subst (λ k. Placed k w.busy (suc (length xs))) here q.placing).0;
          producing =
              less_used w.producer (held w.worker + suc (length xs)) (1 + length xs) _ _ q.producing
                (omega (arith, none_held))
                (λ used.
                  get_or-set_ne w.queue w.head w.tail none none
                    (λ same. omega (arith, same, tail, used, q.head, none_held)));
          order = subst (λ k. w.done ++ (in_hand k ++ (x ∷ xs)) ≡ w.accepted) here q.order;
        };
        accepted = refl;
        stopping = refl;
        ends = inr (sym (ap (λ k. lost_at k (x ∷ xs)) here), inl (omega (arith, ap rest_of here)));
      })

  advance-Worked :
      (w : DiskWriter Task) (xs : List Task) (throws : Bool) (k : Worker Task)
      → Queues w xs
      → w.worker ≡ k
      → Worked w xs (advance w throws k)
  advance-Worked w xs throws idle q here = idle-Worked w xs q throws here
  advance-Worked w xs throws empty q here = empty-Worked w xs q throws here
  advance-Worked w xs throws found q here = found-Worked w xs q throws here
  advance-Worked w xs throws taking q here = taking-Worked w xs throws q here
  advance-Worked w xs throws (holding task) q here = holding-Worked w xs q throws task here
  advance-Worked w xs throws (running task) q here = running-Worked w xs q throws task here
  advance-Worked w xs throws failing q here = failing-Worked w xs q throws here
  advance-Worked w xs throws finishing q here = finishing-Worked w xs q throws here
  advance-Worked w xs throws exited q here = exited-Worked w xs q throws here

  pub work-Worked :
      (w : DiskWriter Task) (xs : List Task) (throws : Bool)
      → Queues w xs
      → Worked w xs (work w throws)
  unfolding work
  work-Worked w xs throws q = advance-Worked w xs throws w.worker q refl
