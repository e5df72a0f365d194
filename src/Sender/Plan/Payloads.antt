-- ===== src/Sender/Plan/Payloads.antt =====
-- The payloads that `read_chunk_payload` of src/sender/yisync_sender_plan.cpp cuts a file into.
use yisync.Common.{
  ℕ, zero, suc, ◌+◌, ◌-◌, ◌*◌, ◌%◌, ◌≤◌, ◌<◌, ◌≡◌, refl, sym, ap, ◌∙◌, subst, [], ◌∷◌, ◌++◌, some,
  min, length, take, drop, Result, ok, err, arith, u64_mod, length-drop, ok-injective, drop-drop,
  drop-all,
}
use yisync.Protocol.Message.{Bytes}
use yisync.Sync.{chunk_count_for_size}
use yisync.Sync.Chunks.{chunk_count_for_size_lem}
use yisync.Sender.Plan.{Reader, FileSendTask, PlanError, read_task_range, read_chunk_payload}

abbrev pub append_ok : Result PlanError Bytes → Result PlanError Bytes → Result PlanError Bytes
append_ok (ok xs) (ok ys) = ok (xs ++ ys)
append_ok (err e) rest = err e
append_ok (ok xs) (err e) = err e

-- The payloads of `n` chunks from an index on, one behind the other.
unfoldable pub payloads : FileSendTask → ℕ → ℕ → ℕ → Result PlanError Bytes
payloads task chunk_size zero index = ok []
payloads task chunk_size (suc n) index =
    append_ok (read_chunk_payload task index chunk_size) (payloads task chunk_size n (index + 1))

-- The reader of a file that holds `content`.
abbrev pub reads : Bytes → Reader
reads content = λ file_id offset len. take len (drop offset content)

small_mod : (p : ℕ) → p < u64_mod → p % u64_mod ≡ p
small_mod p h = omega arith

rest_mod : (a p : ℕ) → p ≤ a → a < u64_mod → (a + u64_mod - p) % u64_mod ≡ a - p
rest_mod a p h k = omega arith

part_and_rest : (d k : ℕ) (ys : Bytes) → k ≡ min d (length ys) → take k ys ++ drop d ys ≡ ys
part_and_rest zero zero ys h = refl
part_and_rest zero (suc k) ys h = absurd (omega arith)
part_and_rest (suc d) zero [] h = refl
part_and_rest (suc d) (suc k) [] h = refl
part_and_rest (suc d) zero (y ∷ ys) h = absurd (omega arith)
part_and_rest (suc d) (suc k) (y ∷ ys) h = ap (◌∷◌ y) (part_and_rest d k ys (omega arith))

times : (index n d : ℕ) → (index + suc n) * d ≡ index * d + d + n * d
times index n d = grind arith

module _ (task : FileSendTask) (content : Bytes) (chunk_size : ℕ)
    (reader : task.reader ≡ some (reads content)) (size : task.source_size ≡ length content)
    (fits : length content + chunk_size ≤ u64_mod) (positive : 0 < chunk_size) where
  payload :
      (index : ℕ)
      → index * chunk_size < length content
      → read_chunk_payload task index chunk_size
        ≡ ok (
            take
              (min chunk_size (length content - index * chunk_size))
              (drop (index * chunk_size) content))
  unfolding read_chunk_payload read_task_range
  payload index below =
      let p = index * chunk_size in
      let offset = small_mod p (omega (arith, below, fits)) in
      let rest =
        rest_mod (length content) p (omega (arith, below)) (omega (arith, fits, positive)) in
      rw (reader, size, offset, rest) refl

  payloads-drop :
      (n index : ℕ)
      → length content ≤ (index + n) * chunk_size
      → (index + n) * chunk_size < length content + chunk_size
      → payloads task chunk_size n index ≡ ok (drop (index * chunk_size) content)
  unfolding payloads
  payloads-drop zero index enough least =
      let done : index * chunk_size ≡ (index + 0) * chunk_size =
        ap (λ i. i * chunk_size) (omega arith) in
      ap ok (sym (drop-all (index * chunk_size) content (omega (arith, done, enough))))
  payloads-drop (suc n) index enough least =
      let p = index * chunk_size in
      let split = times index n chunk_size in
      let one = times index 0 chunk_size in
      let below : p < length content = omega (arith, split, least) in
      let k = min chunk_size (length content - p) in
      let rest =
        payloads-drop n (index + 1)
          (subst (λ j. length content ≤ j * chunk_size) (omega arith) enough)
          (subst (λ j. j * chunk_size < length content + chunk_size) (omega arith) least) in
      let behind = drop-drop p chunk_size ((index + 1) * chunk_size) content (omega (arith, one)) in
      let whole =
        part_and_rest chunk_size k (drop p content) (omega (arith, length-drop p content)) in
      rw (payload index below, rest)
        (ap ok (ap (λ r. take k (drop p content) ++ r) (sym behind) ∙ whole))

  -- For a task whose reader reads a file of the task's size, a chunk size above 0 and a sum of
  -- the sizes that fits 64 bits: the payloads of as many chunks as `chunk_count_for_size`
  -- counts are, one behind the other, the file.
  pub payloads-content :
      (count : ℕ)
      → chunk_count_for_size task.source_size chunk_size ≡ ok count
      → payloads task chunk_size count 0 ≡ ok content
  payloads-content count counted =
      let (n, is_n, enough, least) =
        chunk_count_for_size_lem task.source_size chunk_size positive (omega (arith, size, fits)) in
      let same : n ≡ count = ok-injective (sym is_n ∙ counted) in
      let j : n ≡ 0 + count = omega (arith, same) in
      let start : 0 * chunk_size ≡ 0 = omega arith in
      payloads-drop count 0
        (subst (λ m. length content ≤ m * chunk_size) j (omega (arith, enough, size)))
        (subst (λ m. m * chunk_size < length content + chunk_size) j (omega (arith, least, size)))
      ∙ ap (λ k. ok (drop k content)) start
