-- ===== src/Receiver/Active.antt =====
-- Properties of all active files of a stream (src/receiver/yisync_receiver.cpp), kept by its methods.
use yisync.Common.{
  ℕ, ◌<◌, ◌≡◌, refl, sym, ap, subst, ◌⊎◌, inl, inr, List, [], ◌∷◌, Option, none, some, true, false,
  arith, ◌==◌, length, get_or, Bool-cases, ==_iff, All, Result, ok, err,
}
use yisync.Protocol.Message.{FileBegin, Chunk}
use yisync.Protocol.Codes.{NackReason, checksum_algo_enum}
use yisync.Sync.{Conflict, chunk_count_for_size}
use yisync.Receiver.Files.{
  Disk, FinalPath, ActiveFile, Stream, find_active, update_active, erase_active, final_path_for,
}
use yisync.Receiver.Chunked.{
  new_active, open_active, after_prev, unless_active, check_prev, count_matches, apply_file_begin,
  expected_len, expected_offset,
}

module _ {ℓ} (P : ActiveFile → Type ℓ) where
  pub find_active-All :
      (seq : ℕ) (fs : List ActiveFile) (f : ActiveFile)
      → All P fs
      → find_active seq fs ≡ some f
      → P f × (f.seq ≡ seq)
  unfolding find_active
  find_active-All seq [] f h e = cc e
  find_active-All seq (g ∷ fs) f h e = elim (Bool-cases (g.seq == seq)) [
    | inl hit ↦
        let same : g ≡ f = cc (hit, e) in
        (subst P same h.0, subst (λ k. k.seq ≡ seq) same ((==_iff g.seq seq).0 hit))
    | inr miss ↦ find_active-All seq fs f h.1 (cc (miss, e))
  ]

  pub update_active-All :
      (seq : ℕ) (f : ActiveFile) (fs : List ActiveFile)
      → All P fs
      → P f
      → All P (update_active seq f fs)
  unfolding update_active
  update_active-All seq f [] h p = tt
  update_active-All seq f (g ∷ fs) h p = elim (Bool-cases (g.seq == seq)) [
    | inl hit ↦ rw hit (p, h.1)
    | inr miss ↦ rw miss (h.0, update_active-All seq f fs h.1 p)
  ]

  pub erase_active-All : (seq : ℕ) (fs : List ActiveFile) → All P fs → All P (erase_active seq fs)
  unfolding erase_active
  erase_active-All seq [] h = tt
  erase_active-All seq (g ∷ fs) h = elim (Bool-cases (g.seq == seq)) [
    | inl hit ↦ rw hit h.1
    | inr miss ↦ rw miss (h.0, erase_active-All seq fs h.1)
  ]

-- What `apply(FILE_BEGIN)` has established of a message that it accepts.
pub record Accepted (begin : FileBegin) : Type 0 where
  pub positive : 0 < begin.chunk_size
  pub count : chunk_count_for_size begin.final_size begin.chunk_size ≡ ok begin.chunk_count

-- What `apply(CHUNK)` has established of a chunk whose bytes it writes.
pub record Fitting (f : ActiveFile) (chunk : Chunk) : Type 0 where
  pub index : chunk.chunk_index < f.chunk_count
  pub offset : chunk.offset ≡ expected_offset f chunk
  pub len : chunk.raw_len ≡ expected_len f chunk
  pub fresh : get_or f.received chunk.chunk_index false ≡ false
  pub payload : length chunk.payload ≡ chunk.raw_len

-- The state after `apply(FILE_BEGIN)`: as before, or with one more active file.
abbrev Began : Stream → FileBegin → Stream → Type 0
Began s begin t =
    (t ≡ s) ⊎ ((path : FinalPath) × (t ≡ record s { active = new_active begin path ∷ s.active }))

module _ (disk : Disk) (s : Stream) (begin : FileBegin) where
  open_active-Began : (path : Option FinalPath) → Began s begin (open_active disk s begin path).0
  open_active-Began none = inl refl
  open_active-Began (some path) = elim (Bool-cases (disk.exists path)) [
    | inl there ↦ rw there (inl refl)
    | inr fresh ↦ elim (Bool-cases disk.creates) [
      | inl made ↦ rw (fresh, made) (inr (path, refl))
      | inr failed ↦ rw (fresh, failed) (inl refl)
    ]
  ]

  after_prev-Began : (reason : Option NackReason) → Began s begin (after_prev disk s begin reason).0
  after_prev-Began none = open_active-Began (final_path_for begin.file_id begin.name)
  after_prev-Began (some reason) = inl refl

  unless_active-Began :
      (found : Option ActiveFile) → Began s begin (unless_active disk s begin found).0
  unless_active-Began none = after_prev-Began (check_prev disk begin)
  unless_active-Began (some f) = inl refl

  counted :
      (r : Result Conflict ℕ) → count_matches begin.chunk_count r ≡ true → r ≡ ok begin.chunk_count
  counted (ok n) e = ap ok (sym ((==_iff begin.chunk_count n).0 e))
  counted (err x) e = cc e

  -- A message passes all tests before the map is looked at, or changes nothing.
  passes :
      ((apply_file_begin disk s begin).0 ≡ s)
      ⊎ ((0 < begin.chunk_size)
          × (count_matches begin.chunk_count
                (chunk_count_for_size begin.final_size begin.chunk_size)
              ≡ true)
          × (apply_file_begin disk s begin
              ≡ unless_active disk s begin (find_active begin.seq s.active)))
  unfolding apply_file_begin
  passes = ground arith

  pub apply_file_begin-All {ℓ} :
      (P : ActiveFile → Type ℓ)
      → (Accepted begin → (path : FinalPath) → P (new_active begin path))
      → All P s.active
      → All P (apply_file_begin disk s begin).0.active
  apply_file_begin-All P keep h = elim passes [
    | inl same ↦ rw same h
    | inr (positive, count, goes) ↦ elim (unless_active-Began (find_active begin.seq s.active)) [
      | inl same ↦ rw (goes, same) h
      | inr (path, more) ↦
          rw (goes, more) (keep (record { positive = positive; count = counted _ count }) path, h)
    ]
  ]

  pub apply_file_begin-same_seq : (apply_file_begin disk s begin).0.expected_seq ≡ s.expected_seq
  apply_file_begin-same_seq = elim passes [
    | inl same ↦ rw same refl
    | inr (positive, count, goes) ↦ elim (unless_active-Began (find_active begin.seq s.active)) [
      | inl same ↦ rw (goes, same) refl
      | inr (path, more) ↦ rw (goes, more) refl
    ]
  ]
