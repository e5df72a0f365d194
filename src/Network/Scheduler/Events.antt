-- ===== src/Network/Scheduler/Events.antt =====
-- Histories of the scheduler of src/network/yisync_scheduler.cpp: one event is one call of a method
-- that changes its state. A call that throws leaves the state as it was.
use yisync.Common.{ℕ, List, [], ◌∷◌, Result, ok, err, IsU64}
use yisync.Protocol.Message.{Heartbeat}
use yisync.Network.TokenBucket.{Invalid}
use yisync.Network.Line.{SendRequest}
use yisync.Network.Scheduler.{Scheduler}
use yisync.Network.Scheduler

pub data Event : Type 0 where
  refills : ℕ → Event
  acquires : SendRequest → Event
  connects : ℕ → Event
  negotiates : ℕ → ℕ → Event
  disconnects : ℕ → Event
  protocol_errors : ℕ → Event
  fails : ℕ → Event
  heartbeats : ℕ → Heartbeat → Event
  nacks : ℕ → Event
  takes_lost : Event

abbrev pub after : Scheduler → Result Invalid Scheduler → Scheduler
after s (ok s') = s'
after s (err e) = s

unfoldable pub step : Scheduler → Event → Scheduler
step s (refills ticks) = Scheduler.refill_ticks s ticks
step s (acquires request) = (Scheduler.try_acquire s request).0
step s (connects id) = after s (Scheduler.on_line_connected s id)
step s (negotiates id window) = after s (Scheduler.on_line_negotiated s id window)
step s (disconnects id) = after s (Scheduler.on_line_disconnected s id)
step s (protocol_errors id) = after s (Scheduler.on_line_protocol_error s id)
step s (fails id) = after s (Scheduler.on_line_failure s id)
step s (heartbeats id hb) = after s (Scheduler.on_heartbeat s id hb)
step s (nacks id) = after s (Scheduler.on_nack s id)
step s takes_lost = (Scheduler.take_lost_sends s).0

unfoldable pub run : Scheduler → List Event → Scheduler
run s [] = s
run s (event ∷ events) = run (step s event) events

-- The windows that an event announces are 64-bit integers.
abbrev pub InRange : Event → Type 0
InRange (refills ticks) = Unit {0}
InRange (acquires request) = Unit {0}
InRange (connects id) = Unit {0}
InRange (negotiates id window) = IsU64 window
InRange (disconnects id) = Unit {0}
InRange (protocol_errors id) = Unit {0}
InRange (fails id) = Unit {0}
InRange (heartbeats id hb) = IsU64 hb.recv_window_bytes
InRange (nacks id) = Unit {0}
InRange takes_lost = Unit {0}
