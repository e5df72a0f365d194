-- ===== src/Receiver/Reassembly.antt =====
-- The content of a file that is put together from chunks (src/receiver/yisync_receiver.cpp), where
-- all its chunks are cut from one source.
pub mod Whole
use yisync.Common.{
  ℕ, zero, suc, ◌+◌, ◌-◌, ◌*◌, ◌/◌, ◌%◌, ◌^◌, ◌≤◌, ◌<◌, min, ◌≡◌, ◌≢◌, refl, sym, ap, ◌∙◌, subst,
  ◌⊎◌, inl, inr, List, [], ◌∷◌, Option, none, some, Bool, true, false, arith, ltb, ◌==◌, length,
  take, drop, get_elem?, get_or, set, replicate, length-replicate, length-set, get_or-set_self, All,
  Bool-cases, ==_iff, u64_mod, u32_mod, ok, get_or-set_ne, Result,
}
use yisync.Protocol.Message.{Bytes, FileBegin, Chunk, FileCommit}
use yisync.Sync.{chunk_count_for_size}
use yisync.Sync.Chunks.{chunk_count_for_size_lem}
use yisync.Receiver.Files.{Disk, FinalPath, ActiveFile, Stream, find_active}
use yisync.Receiver.Chunked.{
  new_active, with_chunk, with_bytes, write_file, expected_len, expected_offset,
}
use yisync.Receiver.Commit.{prepare_commit, no_task, make_commit_task, ChunkCommitTask}
use yisync.Receiver.Active.{Accepted, Fitting, find_active-All}
use yisync.Receiver.Commits.{Keeps, run-All}
use yisync.Receiver.Accounting.{
  IsCounted, AllReceived, TakesWhole, keep_counted, run-IsCounted, prepare_commit-TakesWhole,
}
use yisync.Receiver.Events.{
  Event, begins, chunks, commits, prepares, aborts, finishes, refreshes, run,
}
use yisync.Receiver.Writes.{
  elem-write_file_inside, elem-write_file_outside, length-write_file, elem-slice, same_bytes,
  elem-lt, length-take_le,
}

pub mul_step : (a b c : ℕ) → a < b → a * c + c ≤ b * c
mul_step a b c h = grind arith

pub quotient : (p d : ℕ) → 0 < d → (p / d * d ≤ p) × (p < p / d * d + d)
quotient p d h = grind arith

-- The part of the source in chunk `i`: its offset does not wrap, and its length is not cut.
module _ (final_size count chunk_size i : ℕ) (h : i < count) (small : chunk_size < u32_mod)
    (least : count * chunk_size < final_size + chunk_size)
    (fits : final_size + u32_mod ≤ u64_mod) where
  chunk_begins : i * chunk_size < final_size
  chunk_begins = omega (arith, mul_step i count chunk_size h)

  offset_exact : i * chunk_size % u64_mod ≡ i * chunk_size
  offset_exact = omega (arith, chunk_begins)

  len_exact :
      min chunk_size ((final_size + u64_mod - i * chunk_size) % u64_mod) % u32_mod
      ≡ min chunk_size (final_size - i * chunk_size)
  len_exact = omega (arith, chunk_begins)

-- A position outside chunk `i` lies before it or behind it.
other_chunk : (p d i : ℕ) → 0 < d → (p / d == i) ≡ false → (p < i * d) ⊎ (i * d + d ≤ p)
other_chunk p d i h ne = elim (Bool-cases (ltb (p / d) i)) [
  | inl before ↦ inl (omega (arith, quotient p d h, mul_step (p / d) i d (ground arith)))
  | inr behind ↦ inr (omega (arith, quotient p d h, mul_step i (p / d) d (ground arith)))
]

-- The file has the source's size, and in each chunk that is received the source's bytes.
pub record Built (source : Bytes) (f : ActiveFile) : Type 0 where
  pub size : f.final_size ≡ length source
  pub positive : 0 < f.chunk_size
  pub small : f.chunk_size < u32_mod
  pub enough : f.final_size ≤ f.chunk_count * f.chunk_size
  pub least : f.chunk_count * f.chunk_size < f.final_size + f.chunk_size
  pub bounded : length f.temp ≤ length source
  pub marks : length f.received ≡ f.chunk_count
  pub content :
      (p x : ℕ)
      → get_or f.received (p / f.chunk_size) false ≡ true
      → get_elem? source p ≡ some x
      → get_elem? f.temp p ≡ some x

module _ (source : Bytes) (fits : length source + u32_mod ≤ u64_mod) where
  get_or-replicate : (n i : ℕ) → get_or (replicate n false) i false ≡ false
  get_or-replicate zero i = refl
  get_or-replicate (suc n) zero = refl
  get_or-replicate (suc n) (suc i) = get_or-replicate n i

  pub new-Built :
      (begin : FileBegin) (path : FinalPath)
      → Accepted begin
      → begin.final_size ≡ length source
      → begin.chunk_size < u32_mod
      → Built source (new_active begin path)
  new-Built begin path a size small =
      let (count, eq, enough, least) =
        chunk_count_for_size_lem begin.final_size begin.chunk_size a.positive (omega arith) in
      let same : count ≡ begin.chunk_count = cc (eq, a.count) in
      record {
        size = size;
        positive = a.positive;
        small = small;
        enough = subst (λ n. begin.final_size ≤ n * begin.chunk_size) same enough;
        least = subst (λ n. n * begin.chunk_size < begin.final_size + begin.chunk_size) same least;
        bounded = omega arith;
        marks = length-replicate begin.chunk_count false;
        content = λ p x e h. cc (e, get_or-replicate begin.chunk_count (p / begin.chunk_size));
      }

  module _ (f : ActiveFile) (chunk : Chunk) (fit : Fitting f chunk) (b : Built source f)
      (honest : chunk.payload ≡ take chunk.raw_len (drop chunk.offset source)) where
    final_fits : f.final_size + u32_mod ≤ u64_mod
    final_fits = omega (arith, fits, b.size)

    begins_within : chunk.chunk_index * f.chunk_size < f.final_size
    begins_within =
        chunk_begins f.final_size f.chunk_count f.chunk_size chunk.chunk_index fit.index b.small
          b.least final_fits

    offset : chunk.offset ≡ chunk.chunk_index * f.chunk_size
    offset =
        fit.offset
        ∙ offset_exact f.final_size f.chunk_count f.chunk_size chunk.chunk_index fit.index b.small
            b.least final_fits

    len : chunk.raw_len ≡ min f.chunk_size (f.final_size - chunk.offset)
    len =
        fit.len
        ∙ rw offset (
            len_exact f.final_size f.chunk_count f.chunk_size chunk.chunk_index fit.index b.small
              b.least final_fits)

    -- A write of a part of the chunk keeps the file within its size and the other chunks.
    write_bounded :
        (bs : Bytes)
        → length bs ≤ chunk.raw_len
        → length (write_file chunk.offset bs f.temp) ≤ length source
    write_bounded bs h = omega (
      arith,
      h,
      len,
      offset,
      begins_within,
      b.size,
      b.bounded,
      length-write_file chunk.offset bs f.temp,
    )

    write_outside :
        (bs : Bytes) (p x : ℕ)
        → length bs ≤ chunk.raw_len
        → (p / f.chunk_size == chunk.chunk_index) ≡ false
        → get_elem? f.temp p ≡ some x
        → get_elem? (write_file chunk.offset bs f.temp) p ≡ some x
    write_outside bs p x h ne e =
        elem-write_file_outside chunk.offset bs f.temp p x
          (ground
            (arith, other_chunk p f.chunk_size chunk.chunk_index b.positive ne, h, len, offset))
          e

    pub part-Built : (n : ℕ) → Built source (with_bytes f chunk (take n chunk.payload))
    part-Built n =
        let short : length (take n chunk.payload) ≤ chunk.raw_len =
          omega (arith, length-take_le n chunk.payload, fit.payload) in
        record {
          size = b.size;
          positive = b.positive;
          small = b.small;
          enough = b.enough;
          least = b.least;
          bounded = write_bounded _ short;
          marks = b.marks;
          content = λ p x got e. elim (Bool-cases (p / f.chunk_size == chunk.chunk_index)) [
            | inl here ↦
                let same : p / f.chunk_size ≡ chunk.chunk_index = (==_iff _ _).0 here in
                cc (same, got, fit.fresh)
            | inr other ↦ write_outside _ p x short other (b.content p x got e)
          ];
        }

    inside :
        (p x : ℕ)
        → (p / f.chunk_size == chunk.chunk_index) ≡ true
        → get_elem? source p ≡ some x
        → get_elem? (write_file chunk.offset chunk.payload f.temp) p ≡ some x
    inside p x here e =
        let same : p / f.chunk_size ≡ chunk.chunk_index = (==_iff _ _).0 here in
        let at : p / f.chunk_size * f.chunk_size ≡ chunk.offset =
          ap (λ i. i * f.chunk_size) same ∙ sym offset in
        let (lo, hi) = quotient p f.chunk_size b.positive in
        let from : chunk.offset ≤ p = omega (arith, at, lo) in
        let below : p < chunk.offset + chunk.raw_len =
          omega (arith, at, hi, len, b.size, elem-lt source p x e) in
        elem-write_file_inside chunk.offset chunk.payload f.temp p x from
          (rw honest (elem-slice chunk.offset chunk.raw_len source p x from below e))

    pub whole-Built : Built source (with_chunk f chunk chunk.payload)
    whole-Built =
        let short : length chunk.payload ≤ chunk.raw_len = omega (arith, fit.payload) in
        record {
          size = b.size;
          positive = b.positive;
          small = b.small;
          enough = b.enough;
          least = b.least;
          bounded = write_bounded _ short;
          marks = length-set f.received chunk.chunk_index true ∙ b.marks;
          content = λ p x got e. elim (Bool-cases (p / f.chunk_size == chunk.chunk_index)) [
            | inl here ↦ inside p x here e
            | inr other ↦
                let kept =
                  get_or-set_ne f.received chunk.chunk_index (p / f.chunk_size) true false
                    (λ same. ground (arith, same, other)) in
                write_outside _ p x short other (b.content p x (sym kept ∙ got) e)
          ];
        }
