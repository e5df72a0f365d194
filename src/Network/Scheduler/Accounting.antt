-- ===== src/Network/Scheduler/Accounting.antt =====
-- The counters of all lines of the scheduler agree with the sends that are in flight.
use yisync.Common.{
  ℕ, ◌≡◌, refl, subst, sym, inl, inr, List, [], ◌∷◌, map, Option, none, some, arith, Result, ok,
  err, IsU64, All, All-set, All-get, All-append, ok-injective, ◌==◌, Bool-cases,
}
use yisync.Network.TokenBucket.{TokenBucket, Invalid}
use yisync.Network.TokenBucket
use yisync.Network.Line.{LineState, LineConfig, LostSend, SendRequest, SendGrant, refill, lost_from}
use yisync.Network.Line.Accounting.{
  IsValid, refill-IsValid, charge-IsValid, heartbeat-IsValid, negotiated-IsValid, connected-IsValid,
  disconnected-IsValid, failed-IsValid,
}
use yisync.Network.Scheduler.{
  Scheduler, make, make_lines, has_line, initial_line, add_line, then_lines, with_lines,
  refill_ticks, try_acquire, on_line, handle, no_lost, on_line_connected, on_line_negotiated,
  on_line_disconnected, on_line_protocol_error, on_line_failure, on_heartbeat, on_nack,
  take_lost_sends,
}
use yisync.Network.Scheduler.Acquire.{try_acquire_lem, Outcome}
use yisync.Network.Scheduler.Events.{
  Event, refills, acquires, connects, negotiates, disconnects, protocol_errors, fails, heartbeats,
  nacks, takes_lost, after, step, run, InRange,
}

abbrev pub Accounted : Scheduler → Type 0
Accounted s = All IsValid s.lines

module _ (change : LineState → LineState) (lost : LineState → List LostSend)
    (keep : (line : LineState) → IsValid line → IsValid (change line)) where
  on_line-All :
      (id : ℕ) (lines : List LineState)
      → All IsValid lines
      → All IsValid (on_line id change lost lines).0
  unfolding on_line
  on_line-All id [] h = tt
  on_line-All id (line ∷ lines) h = elim (Bool-cases (line.config.id == id)) [
    | inl hit ↦ rw hit (keep line h.0, h.1)
    | inr miss ↦ rw miss (h.0, on_line-All id lines h.1)
  ]

  handle-Accounted :
      (s : Scheduler) (id : ℕ) → Accounted s → Accounted (after s (handle s id change lost))
  unfolding handle
  handle-Accounted s id h = elim (Bool-cases (has_line id s.lines)) [
    | inl there ↦ rw there (on_line-All id s.lines h)
    | inr missing ↦ rw missing h
  ]

map-All :
    (ticks : ℕ) (lines : List LineState)
    → All IsValid lines
    → All IsValid (map (refill ticks) lines)
map-All ticks [] h = tt
map-All ticks (line ∷ lines) h = (refill-IsValid ticks line h.0, map-All ticks lines h.1)

Outcome-Accounted :
    (s : Scheduler) (request : SendRequest) (r : Scheduler × Option SendGrant)
    → Outcome s request r
    → Accounted s
    → Accounted r.0
Outcome-Accounted s request (s', none) (same, why) h = subst Accounted (sym same) h
Outcome-Accounted s request (s', some g) (i, line, at, can, best, grant, e) h =
    subst Accounted (sym e) (
      All-set IsValid s.lines i _ h
        (charge-IsValid request line can.window can.tokens (All-get IsValid s.lines i line h at)))

-- Every event keeps each line's counter equal to the sum of the bytes of its pending sends, within
-- 64 bits, and its tokens within the capacity, where the windows announced are 64-bit.
pub step-Accounted : (s : Scheduler) (e : Event) → InRange e → Accounted s → Accounted (step s e)
unfolding step refill_ticks on_line_connected on_line_negotiated on_line_disconnected
    on_line_protocol_error on_line_failure on_heartbeat on_nack take_lost_sends
step-Accounted s (refills ticks) r h = map-All ticks s.lines h
step-Accounted s (acquires request) r h =
    Outcome-Accounted s request (try_acquire s request) (try_acquire_lem s request) h
step-Accounted s (connects id) r h = handle-Accounted _ lost_from connected-IsValid s id h
step-Accounted s (negotiates id window) r h =
    handle-Accounted _ no_lost (λ line. negotiated-IsValid window line r) s id h
step-Accounted s (disconnects id) r h = handle-Accounted _ lost_from disconnected-IsValid s id h
step-Accounted s (protocol_errors id) r h = handle-Accounted _ lost_from disconnected-IsValid s id h
step-Accounted s (fails id) r h = handle-Accounted _ lost_from failed-IsValid s id h
step-Accounted s (heartbeats id hb) r h =
    handle-Accounted _ no_lost (λ line. heartbeat-IsValid hb line r) s id h
step-Accounted s (nacks id) r h = handle-Accounted _ lost_from failed-IsValid s id h
step-Accounted s takes_lost r h = h

run-Accounted :
    (s : Scheduler) (events : List Event)
    → All InRange events
    → Accounted s
    → Accounted (run s events)
unfolding run
run-Accounted s [] r h = h
run-Accounted s (e ∷ es) r h = run-Accounted (step s e) es r.1 (step-Accounted s e r.0 h)

abbrev pub ConfigInRange : LineConfig → Type 0
ConfigInRange config = IsU64 config.initial_recv_window_bytes × IsU64 config.limiter.capacity

initial_line-IsValid :
    (config : LineConfig) (bucket : TokenBucket)
    → ConfigInRange config
    → TokenBucket.make config.limiter ≡ ok bucket
    → IsValid (initial_line config bucket)
initial_line-IsValid config bucket r e = record {
  counted = refl;
  inflight = omega arith;
  window = r.0;
  initial = r.0;
  bucket = TokenBucket.make-IsValid config.limiter bucket r.1 e;
}

make_lines-All :
    (configs : List LineConfig) (lines lines' : List LineState)
    → All ConfigInRange configs
    → All IsValid lines
    → make_lines configs lines ≡ ok lines'
    → All IsValid lines'
unfolding make_lines
make_lines-All [] lines lines' r h e = subst (All IsValid) (ok-injective e) h
make_lines-All (config ∷ configs) lines lines' r h e =
    added (TokenBucket.make config.limiter) refl
      (λ more all p. make_lines-All configs more lines' r.1 all p) (ground arith)
  where
    added :
        (made : Result Invalid TokenBucket)
        → TokenBucket.make config.limiter ≡ made
        → ((more : List LineState)
            → All IsValid more
            → make_lines configs more ≡ ok lines'
            → All IsValid lines')
        → then_lines (make_lines configs) (add_line config lines made) ≡ ok lines'
        → All IsValid lines'
    added (ok bucket) m rest p =
        rest _ (All-append IsValid lines _ h (initial_line-IsValid config bucket r.0 m, tt)) p
    added (err x) m rest p = cc

make-Accounted :
    (configs : List LineConfig) (s : Scheduler)
    → All ConfigInRange configs
    → make configs ≡ ok s
    → Accounted s
unfolding make
make-Accounted [] s r e = cc
make-Accounted (config ∷ configs) s r e = from (make_lines (config ∷ configs) []) refl e
  where
    from :
        (made : Result Invalid (List LineState))
        → make_lines (config ∷ configs) [] ≡ made
        → with_lines made ≡ ok s
        → Accounted s
    from (ok lines) m p =
        subst Accounted (ok-injective p) (make_lines-All (config ∷ configs) [] lines r tt m)
    from (err x) m p = cc

-- From the constructor on, after any history of calls, where the configured and the announced
-- windows and the capacities are 64-bit: each line's counter of bytes in flight is the sum of
-- the bytes of its pending sends and fits 64 bits, and its tokens stay within its capacity.
pub run-make-Accounted :
    (configs : List LineConfig) (s : Scheduler) (events : List Event)
    → All ConfigInRange configs
    → All InRange events
    → make configs ≡ ok s
    → Accounted (run s events)
run-make-Accounted configs s events r q e = run-Accounted s events q (make-Accounted configs s r e)
