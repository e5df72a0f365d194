-- ===== src/Receiver/DiskWriter/Ring.antt =====
-- The slots of the queue of src/receiver/yisync_disk_writer.cpp.
use yisync.Common.{
  ℕ, ◌+◌, ◌-◌, ◌%◌, ◌≤◌, ◌<◌, ◌≡◌, ap, ◌∙◌, List, [], ◌∷◌, ◌++◌, Option, none, some, set, get_or,
  length, arith, get_or-set_ne,
}
use yisync.Receiver.DiskWriter.{capacity, increment}

pub increment-lt : (i : ℕ) → increment i < capacity
unfolding increment
increment-lt i = omega arith

pub increment-tail :
    (tail first n m : ℕ)
    → tail ≡ (first + n) % capacity
    → m ≡ n + 1
    → increment tail ≡ (first + m) % capacity
unfolding increment
increment-tail tail first n m at more = omega (arith, at, more)

module _ {ℓ} {Task : Type ℓ} where
  -- From an index on, the slots hold these tasks.
  abbrev pub Holds : List (Option Task) → ℕ → List Task → Type ℓ
  Holds queue i [] = Unit {ℓ}
  Holds queue i (x ∷ xs) = (get_or queue i none ≡ some x) × Holds queue (increment i) xs

  -- A write behind the tasks, `d` slots on, leaves them as they are.
  pub Holds-set :
      (queue : List (Option Task)) (i t d : ℕ) (v : Option Task) (xs : List Task)
      → i < capacity
      → t ≡ (i + d) % capacity
      → length xs ≤ d
      → d < capacity
      → Holds queue i xs
      → Holds (set queue t v) i xs
  unfolding increment
  Holds-set queue i t d v [] b e l u h = tt
  Holds-set queue i t d v (x ∷ xs) b e l u h = (
    get_or-set_ne queue t i v none (λ same. omega arith) ∙ h.0,
    Holds-set queue ((i + 1) % capacity) t (d - 1) v xs (omega arith) (omega arith) (omega arith)
        (omega arith) h.1,
  )

  pub Holds-append :
      (queue : List (Option Task)) (i : ℕ) (x : Task) (xs : List Task)
      → i < capacity
      → Holds queue i xs
      → get_or queue ((i + length xs) % capacity) none ≡ some x
      → Holds queue i (xs ++ x ∷ [])
  unfolding increment
  Holds-append queue i x [] b h e = (ap (λ j. get_or queue j none) (omega arith) ∙ e, tt)
  Holds-append queue i x (y ∷ xs) b h e = (
    h.0,
    Holds-append queue ((i + 1) % capacity) x xs (omega arith) h.1
        (ap (λ j. get_or queue j none) (omega arith) ∙ e),
  )
