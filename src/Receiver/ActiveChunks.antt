-- ===== src/Receiver/ActiveChunks.antt =====
-- Properties of all active files of a stream, kept by `apply(CHUNK)` of
-- src/receiver/yisync_receiver.cpp.
use yisync.Common.{
  ℕ, ◌<◌, ◌≡◌, refl, ◌⊎◌, inl, inr, Option, none, some, false, not, arith, ◌==◌, length, take,
  get_or, Bool-cases, All,
}
use yisync.Protocol.Message.{Chunk}
use yisync.Protocol.Codes.{NackReason, ChecksumAlgo, checksum_algo_enum}
use yisync.Protocol.Codes
use yisync.Protocol.Frame.{crc32c_bytes}
use yisync.Sync.{bytes_equal}
use yisync.Receiver.Files.{Disk, ActiveFile, Stream, find_active}
use yisync.Receiver.Chunked.{
  raw_data_for_chunk_message, with_file, with_chunk, with_bytes, store_chunk, expected_len,
  expected_offset, check_chunk, apply_chunk,
}
use yisync.Receiver.Active.{Fitting, find_active-All, update_active-All}

-- The state after `apply(CHUNK)` on an active file: as before, with the chunk in the file and marked,
-- or with a part of its bytes in the file.
abbrev Stored : Stream → ActiveFile → Chunk → Stream → Type 0
Stored s f chunk t =
    (t ≡ with_file s chunk.seq (with_chunk f chunk chunk.payload))
    ⊎ ((n : ℕ) × (t ≡ with_file s chunk.seq (with_bytes f chunk (take n chunk.payload))))

module _ (disk : Disk) (s : Stream) (chunk : Chunk) where
  store_payload :
      (f : ActiveFile)
      → ((store_chunk disk s f chunk (some chunk.payload)).0 ≡ s)
        ⊎ Stored s f chunk (store_chunk disk s f chunk (some chunk.payload)).0
  unfolding store_chunk
  store_payload f =
      elim (Bool-cases (not (Codes.to_u8 chunk.checksum_algo == Codes.to_u8 ChecksumAlgo.crc32c))) [
        | inl other ↦ rw other (inl refl)
        | inr crc ↦
            elim (Bool-cases
              (not (bytes_equal (crc32c_bytes (disk.crc chunk.payload)) chunk.checksum))) [
                | inl differs ↦ rw (crc, differs) (inl refl)
                | inr same ↦ elim (Bool-cases (not disk.opens)) [
                  | inl closed ↦ rw (crc, same, closed) (inl refl)
                  | inr opened ↦ elim (Bool-cases (not disk.writes)) [
                    | inl failed ↦ rw (crc, same, opened, failed) (inr (inr (disk.written, refl)))
                    | inr written ↦ rw (crc, same, opened, written) (inr (inl refl))
                  ]
                ]
              ]
      ]

  raw_data-cases :
      (raw_data_for_chunk_message chunk ≡ none)
      ⊎ ((raw_data_for_chunk_message chunk ≡ some chunk.payload)
          × (length chunk.payload ≡ chunk.raw_len))
  unfolding raw_data_for_chunk_message
  raw_data-cases = ground arith

  -- A chunk passes all tests of its file, or changes nothing.
  fits_or_not :
      (f : ActiveFile)
      → ((check_chunk disk s chunk (some f)).0 ≡ s)
        ⊎ ((chunk.chunk_index < f.chunk_count)
            × (chunk.offset ≡ expected_offset f chunk)
            × (chunk.raw_len ≡ expected_len f chunk)
            × (get_or f.received chunk.chunk_index false ≡ false)
            × (check_chunk disk s chunk (some f)
                ≡ store_chunk disk s f chunk (raw_data_for_chunk_message chunk)))
  unfolding check_chunk
  fits_or_not f = ground arith

  check_chunk-cases :
      (f : ActiveFile)
      → ((check_chunk disk s chunk (some f)).0 ≡ s)
        ⊎ (Fitting f chunk × Stored s f chunk (check_chunk disk s chunk (some f)).0)
  unfolding store_chunk
  check_chunk-cases f = elim (fits_or_not f) [
    | inl same ↦ inl same
    | inr (index, offset, len, fresh, goes) ↦ elim raw_data-cases [
      | inl bad ↦ rw (goes, bad) (inl refl)
      | inr (good, payload) ↦ elim (store_payload f) [
        | inl same ↦ rw (goes, good) (inl same)
        | inr stored ↦
            rw (goes, good)
              (inr (
                record {
                  index = index;
                  offset = offset;
                  len = len;
                  fresh = fresh;
                  payload = payload;
                },
                stored,
              ))
      ]
    ]
  ]

  looks_up :
      ((apply_chunk disk s chunk).0 ≡ s)
      ⊎ (apply_chunk disk s chunk ≡ check_chunk disk s chunk (find_active chunk.seq s.active))
  unfolding apply_chunk
  looks_up = ground arith

  found-same_seq :
      (found : Option ActiveFile) → (check_chunk disk s chunk found).0.expected_seq ≡ s.expected_seq
  unfolding check_chunk
  found-same_seq none = refl
  found-same_seq (some f) = elim (check_chunk-cases f) [
    | inl same ↦ rw same refl
    | inr (fits, stored) ↦ elim stored [ inl whole ↦ rw whole refl | inr (n, part) ↦ rw part refl ]
  ]

  pub apply_chunk-same_seq : (apply_chunk disk s chunk).0.expected_seq ≡ s.expected_seq
  apply_chunk-same_seq = elim looks_up [
    | inl same ↦ rw same refl
    | inr goes ↦ rw goes (found-same_seq (find_active chunk.seq s.active))
  ]

  module _ {ℓ} (P : ActiveFile → Type ℓ)
      (keep : (f : ActiveFile)
        → f.seq ≡ chunk.seq
        → Fitting f chunk
        → P f
        → P (with_chunk f chunk chunk.payload)
          × ((n : ℕ) → P (with_bytes f chunk (take n chunk.payload)))) where
    found-All :
        All P s.active
        → (found : Option ActiveFile) → find_active chunk.seq s.active ≡ found
        → All P (check_chunk disk s chunk found).0.active
    unfolding check_chunk
    found-All h none e = h
    found-All h (some f) e =
        let (p, seq) = find_active-All P chunk.seq s.active f h e in
        elim (check_chunk-cases f) [
          | inl same ↦ rw same h
          | inr (fits, stored) ↦ elim stored [
            | inl whole ↦
                rw whole (update_active-All P chunk.seq _ s.active h (keep f seq fits p).0)
            | inr (n, part) ↦
                rw part (update_active-All P chunk.seq _ s.active h ((keep f seq fits p).1 n))
          ]
        ]

    pub apply_chunk-All : All P s.active → All P (apply_chunk disk s chunk).0.active
    apply_chunk-All h = elim looks_up [
      | inl same ↦ rw same h
      | inr goes ↦ rw goes (found-All h (find_active chunk.seq s.active) refl)
    ]
