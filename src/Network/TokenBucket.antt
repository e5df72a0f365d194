-- ===== src/Network/TokenBucket.antt =====
-- The class `TokenBucket` of src/network/yisync_scheduler.cpp: the rate limiter of a line.
use yisync.Common.{
  ℕ, ◌+◌, ◌-◌, ◌*◌, ◌/◌, ◌≤◌, ◌<◌, min, ◌≡◌, refl, ap, List, [], ◌∷◌, Bool, true, false, Result, ok,
  err, arith, ltb, leb, ◌==◌, if◌then◌else◌, u64_max, IsU64,
}

-- The tick's length is not used in the arithmetic; `tick_positive` is the test `tick.count() > 0`.
pub record TokenBucketConfig : Type 0 where
  pub tokens_per_tick : ℕ
  pub capacity : ℕ
  pub tick_positive : Bool

pub record TokenBucket : Type 0 where
  pub config : TokenBucketConfig
  pub tokens : ℕ

-- The exceptions of this file's two classes, all `std::invalid_argument`.
pub data Invalid : Type 0 where
  tick_not_positive capacity_zero tokens_per_tick_zero : Invalid
  no_lines zero_line_id duplicate_line_id unknown_line_id : Invalid

unfoldable pub make : TokenBucketConfig → Result Invalid TokenBucket
make config =
    if config.tick_positive
    then (if config.capacity == 0
        then err capacity_zero
        else (if config.tokens_per_tick == 0
            then err tokens_per_tick_zero
            else ok (record { config = config; tokens = config.capacity })))
    else err tick_not_positive

-- Both sums stop at UINT64_MAX instead of wrapping.
unfoldable pub refill_ticks : TokenBucket → ℕ → TokenBucket
refill_ticks b ticks =
    let rate = b.config.tokens_per_tick in
    let added = if ltb (u64_max / rate) ticks then u64_max else ticks * rate in
    let full = if ltb (u64_max - added) b.tokens then u64_max else b.tokens + added in
    if ticks == 0 then b else record b { tokens = min b.config.capacity full }

abbrev pub can_consume : TokenBucket → ℕ → Bool
can_consume b bytes = leb bytes b.tokens

unfoldable pub try_consume : TokenBucket → ℕ → TokenBucket × Bool
try_consume b bytes =
    if can_consume b bytes then (record b { tokens = b.tokens - bytes }, true) else (b, false)

-- The values that the constructor can leave behind, and that every call keeps.
pub record IsValid (b : TokenBucket) : Type 0 where
  pub rate : 0 < b.config.tokens_per_tick
  pub bounded : b.tokens ≤ b.config.capacity
  pub range : IsU64 b.config.capacity

pub make-IsValid :
    (config : TokenBucketConfig) (b : TokenBucket)
    → IsU64 config.capacity
    → make config ≡ ok b
    → IsValid b
unfolding make
make-IsValid config b h e = ground arith

-- What the test `ticks > UINT64_MAX / rate` says of the product.
over_quotient : (m rate ticks : ℕ) → 0 < rate → m / rate < ticks → m < ticks * rate
over_quotient m rate ticks h lt = grind arith

under_quotient : (m rate ticks : ℕ) → 0 < rate → ticks ≤ m / rate → ticks * rate ≤ m
under_quotient m rate ticks h le = grind arith

-- On a valid bucket the saturating arithmetic of `refill_ticks` is exact: a refill adds the
-- rate times the ticks, up to the capacity.
pub refill_ticks-eq :
    (b : TokenBucket) (ticks : ℕ)
    → IsValid b
    → refill_ticks b ticks
      ≡ record b { tokens = min b.config.capacity (b.tokens + ticks * b.config.tokens_per_tick) }
unfolding refill_ticks
refill_ticks-eq b ticks v = ground (
  arith,
  over_quotient u64_max b.config.tokens_per_tick ticks,
  under_quotient u64_max b.config.tokens_per_tick ticks,
)

pub refill_ticks-IsValid :
    (b : TokenBucket) (ticks : ℕ) → IsValid b → IsValid (refill_ticks b ticks)
unfolding refill_ticks
refill_ticks-IsValid b ticks v = ground arith

pub try_consume-IsValid :
    (b : TokenBucket) (bytes : ℕ) → IsValid b → IsValid (try_consume b bytes).0
unfolding try_consume
try_consume-IsValid b bytes v = ground arith

refill_ticks-le :
    (b : TokenBucket) (ticks : ℕ)
    → IsValid b
    → ((refill_ticks b ticks).config ≡ b.config)
      × ((refill_ticks b ticks).tokens ≤ b.tokens + ticks * b.config.tokens_per_tick)
refill_ticks-le b ticks v = rw (refill_ticks-eq b ticks v) (refl, omega arith)

try_consume-eq :
    (b : TokenBucket) (bytes : ℕ)
    → ((try_consume b bytes).0.config ≡ b.config)
      × ((try_consume b bytes).0.tokens + (if (try_consume b bytes).1 then bytes else 0) ≡ b.tokens)
unfolding try_consume
try_consume-eq b bytes = ground arith

-- A history of a bucket: time that passes, and requests.
pub data Call : Type 0 where
  refills consumes : ℕ → Call

-- The bucket after a history, the bytes that were let through, and the ticks that passed.
pub run : TokenBucket → List Call → TokenBucket × ℕ × ℕ
run b [] = (b, 0, 0)
run b (refills ticks ∷ calls) =
    let (b', sent, time) = run (refill_ticks b ticks) calls in (b', sent, time + ticks)
run b (consumes bytes ∷ calls) =
    let (b1, done) = try_consume b bytes in
    let (b', sent, time) = run b1 calls in (b', (if done then sent + bytes else sent), time)

-- Over any history of a valid bucket, the bytes let through, with the tokens left, are no more
-- than the tokens at the start and the rate times the ticks that passed.
pub run-le :
    (b : TokenBucket) (calls : List Call)
    → IsValid b
    → let (b', sent, time) = run b calls in
      sent + b'.tokens ≤ b.tokens + time * b.config.tokens_per_tick
unfolding run
run-le b [] v = omega arith
run-le b (refills ticks ∷ calls) v =
    let (same, le) = refill_ticks-le b ticks v in
    let rate = ap (λ (c : TokenBucketConfig). c.tokens_per_tick) same in
    let b1 = refill_ticks b ticks in
    omega (
      arith,
      le,
      run-le b1 calls (refill_ticks-IsValid b ticks v),
      ap (λ (r : ℕ). (run b1 calls).2 * r) rate,
    )
run-le b (consumes bytes ∷ calls) v =
    let (same, eq) = try_consume-eq b bytes in
    let rate = ap (λ (c : TokenBucketConfig). c.tokens_per_tick) same in
    let b1 = (try_consume b bytes).0 in
    ground (
      arith,
      eq,
      run-le b1 calls (try_consume-IsValid b bytes v),
      ap (λ (r : ℕ). (run b1 calls).2 * r) rate,
    )
