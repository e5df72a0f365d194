-- ===== src/Network/Examples.antt =====
-- Runs of the token bucket and of the scheduler, and their theorems at these.
use yisync.Common.{ℕ, ◌+◌, ◌*◌, ◌≤◌, ◌≡◌, refl, List, [], ◌∷◌, true, false, some, arith, ok, min}
use yisync.Protocol.Message.{Heartbeat}
use yisync.Common.{◌≢◌}
use yisync.Network.Line.{SendGrant, clear_inflight, lost_from}
use yisync.Network.Line
use yisync.Network.Scheduler.{on_line_disconnected, on_line_connected, handle, on_line}
use yisync.Network.Scheduler.Events.{connects}
use yisync.Network.Scheduler.Failure.{IsDown, down_not_granted}
use yisync.Network.TokenBucket.{TokenBucket, TokenBucketConfig}
use yisync.Network.TokenBucket
use yisync.Network.Line.{LineConfig, SendKind, SendRequest, eligible, score_line, PendingSend}
use yisync.Network.Line.Accounting.{weigh}
use yisync.Network.Scheduler.{
  Scheduler, make, make_lines, has_line, initial_line, try_acquire, best_line, grant,
}
use yisync.Network.Scheduler.Choice.{better}
use yisync.Network.Scheduler.Acquire.{Outcome, try_acquire_lem}
use yisync.Network.Scheduler.Events.{
  Event, acquires, heartbeats, disconnects, takes_lost, step, run,
}
use yisync.Network.Scheduler.Accounting.{Accounted, run-make-Accounted}
use yisync.Network.Scheduler.Conservation.{total, entering, leaving, step-total}

abbrev limiter : TokenBucketConfig
limiter = record { tokens_per_tick = 20480; capacity = 20480; tick_positive = true }

abbrev bucket : TokenBucket
bucket = record { config = limiter; tokens = 1000 }

bucket-IsValid : TokenBucket.IsValid bucket
bucket-IsValid = omega arith

abbrev bucket_calls : List TokenBucket.Call
bucket_calls = TokenBucket.consumes 600 ∷ TokenBucket.refills 1 ∷ TokenBucket.consumes 30000 ∷ []

run-le_example :
    (TokenBucket.run bucket bucket_calls).1 + (TokenBucket.run bucket bucket_calls).0.tokens
    ≤ 1000 + (TokenBucket.run bucket bucket_calls).2 * 20480
run-le_example = TokenBucket.run-le bucket bucket_calls bucket-IsValid

refill_ticks-eq_example :
    TokenBucket.refill_ticks bucket 3 ≡ record bucket { tokens = min 20480 (1000 + 3 * 20480) }
refill_ticks-eq_example = TokenBucket.refill_ticks-eq bucket 3 bucket-IsValid

abbrev config : ℕ → LineConfig
config id = record {
  id = id;
  name = [];
  limiter = limiter;
  initial_recv_window_bytes = 65536;
  heartbeat_timeout_ticks = 300;
  initially_connected = true;
}

abbrev two_lines : Scheduler
two_lines = record {
  lines =
      initial_line (config 1) (record { config = limiter; tokens = 20480 })
      ∷ initial_line (config 2) (record { config = limiter; tokens = 20480 })
      ∷ [];
  lost_sends = [];
}

abbrev request : SendRequest
request = record {
  stream_id = 9001;
  file_id = 3;
  seq = 1;
  offset = 0;
  end_offset = 4096;
  bytes = 4200;
  split_allowed = false;
  kind = SendKind.data_send;
  chunk_index = 0;
}

-- The first of two equal lines is chosen.
grants_first : (try_acquire two_lines request).1 ≡ some (record { line_id = 1; bytes = 4200 })
unfolding try_acquire best_line grant better eligible score_line TokenBucket.try_consume
grants_first = refl

two_lines_made : make (config 1 ∷ config 2 ∷ []) ≡ ok two_lines
unfolding make make_lines has_line TokenBucket.make
two_lines_made = refl

abbrev beat : Heartbeat
beat = record {
  stream_id = 9001;
  next_seq = 2;
  file_id = 3;
  offset = 4096;
  durable_offset = 4096;
  recv_window_bytes = 65536;
  received_chunks = [];
  missing_ranges = [];
}

abbrev history : List Event
history = acquires request ∷ heartbeats 1 beat ∷ acquires request ∷ disconnects 2 ∷ takes_lost ∷ []

run-make-Accounted_example : Accounted (run two_lines history)
run-make-Accounted_example =
    run-make-Accounted (config 1 ∷ config 2 ∷ []) two_lines history (omega arith) (omega arith)
      two_lines_made

try_acquire_lem_example : Outcome two_lines request (try_acquire two_lines request)
try_acquire_lem_example = try_acquire_lem two_lines request

abbrev bytes_of : PendingSend → ℕ
bytes_of send = send.bytes

step-total_example :
    total bytes_of (step two_lines (acquires request))
      + weigh bytes_of (leaving two_lines (acquires request))
    ≡ total bytes_of two_lines + weigh bytes_of (entering two_lines (acquires request))
step-total_example = step-total bytes_of two_lines (acquires request)

-- Line 1 is disconnected, so line 2 takes the request.
abbrev one_down : Scheduler
one_down = record two_lines {
  lines =
      clear_inflight
        (Line.disconnected (initial_line (config 1) (record { config = limiter; tokens = 20480 })))
      ∷ initial_line (config 2) (record { config = limiter; tokens = 20480 })
      ∷ [];
}

disconnected_one : step two_lines (disconnects 1) ≡ one_down
unfolding step on_line_disconnected handle on_line has_line clear_inflight Line.disconnected
    lost_from
disconnected_one = refl

one_down-IsDown : IsDown 1 one_down
unfolding clear_inflight Line.disconnected
one_down-IsDown = (λ e. refl, (λ e. absurd (omega (arith, e)), tt))

abbrev second : SendGrant
second = record { line_id = 2; bytes = 4200 }

grants_second : (try_acquire (run one_down (connects 1 ∷ [])) request).1 ≡ some second
unfolding run step on_line_connected handle on_line has_line clear_inflight Line.disconnected
    Line.connected lost_from try_acquire best_line grant better eligible score_line
    TokenBucket.try_consume
grants_second = refl

down_not_granted_example : second.line_id ≢ 1
down_not_granted_example =
    down_not_granted 1 one_down (connects 1 ∷ []) request second one_down-IsDown (tt, tt)
      grants_second
