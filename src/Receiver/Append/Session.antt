-- ===== src/Receiver/Append/Session.antt =====
-- What the calls of `T_ReceiverStream` (src/receiver/yisync_receiver.cpp) change, and histories of
-- them.
use yisync.Common.{
  ◌+◌, ◌%◌, ◌≤◌, ◌<◌, ◌≡◌, refl, ap, ◌∙◌, List, [], ◌∷◌, Option, none, some, false, Option-cases,
  arith, inl, inr, ◌⊎◌, length, take, u64_mod,
}
use yisync.Protocol.Codes.{compression_enum, checksum_algo_enum}
use yisync.Protocol.Message.{Bytes, ManifestEntry, Create, Data}
use yisync.Receiver.Append.{
  TreePath, Answers, AppendStream, path_for_file, file_size_or_zero, exists, with_created,
  create_entry, prev_refusal, apply_create, raw_data_for_data_message, append_at, with_appended,
  append_raw, check_file, current_or, apply_data, refresh_committed_from_disk, parts_of,
}

pub data Event : Type 0 where
  creates : Answers → Create → Event
  appends : Answers → Data → Event
  refreshes : Option ManifestEntry → Event

abbrev pub step : AppendStream → Event → AppendStream
step s (creates a create) = (apply_create a s create).0
step s (appends a m) = (apply_data a s m).0
step s (refreshes latest) = refresh_committed_from_disk s latest

unfoldable pub run : AppendStream → List Event → AppendStream
run s [] = s
run s (e ∷ es) = run (step s e) es

abbrev pub data_path : Answers → AppendStream → Data → TreePath
data_path a s m = current_or s.current_path (path_for_file a m.file_id)

-- What DATA has passed before its bytes are decoded.
pub record Fitting (a : Answers) (s : AppendStream) (m : Data) : Type 0 where
  pub id : m.file_id ≡ s.current_file_id
  pub offset : m.offset ≡ file_size_or_zero a (s.tree (data_path a s m))
  pub some_bytes : 0 < m.raw_len
  pub bound : (m.offset + m.raw_len) % u64_mod ≤ m.final_size

module _ (a : Answers) (s : AppendStream) where
  check_file-passes :
      (m : Data) (path : TreePath)
      → ((check_file a s m path).0 ≡ s)
        ⊎ (m.offset ≡ file_size_or_zero a (s.tree path))
          × (0 < m.raw_len)
          × ((m.offset + m.raw_len) % u64_mod ≤ m.final_size)
          × (check_file a s m path ≡ append_raw a s m path (raw_data_for_data_message m))
  unfolding check_file
  check_file-passes m path = ground arith

  apply_data-passes :
      (m : Data)
      → ((apply_data a s m).0 ≡ s)
        ⊎ Fitting a s m
          × (apply_data a s m ≡ append_raw a s m (data_path a s m) (raw_data_for_data_message m))
  unfolding apply_data
  apply_data-passes m =
      let path = data_path a s m in
      elim (check_file-passes m path) [
        | inl same ↦ ground arith
        | inr (offset, some_bytes, bound, goes) ↦ ground arith
      ]

  -- Either nothing is created, or all that `with_created` changes.
  pub apply_create-cases :
      (create : Create)
      → ((apply_create a s create).0 ≡ s)
        ⊎ (exists a (s.tree (parts_of create.name)) ≡ false)
          × (create.seq ≡ s.expected_seq)
          × ((apply_create a s create).0 ≡ with_created s create (parts_of create.name))
  unfolding apply_create create_entry
  apply_create-cases create = elim (Option-cases (prev_refusal a s create)) [
    | inl fine ↦ rw fine (ground arith)
    | inr (reason, bad) ↦ rw bad (ground arith)
  ]

  append_some-cases :
      (m : Data) (path : TreePath) (bs : Bytes)
      → ((append_raw a s m path (some bs)).0 ≡ s)
        ⊎ (((append_raw a s m path (some bs)).0
              ≡ record s { tree = append_at s.tree path (take a.written bs) })
            ⊎ (append_raw a s m path (some bs) ≡ (with_appended s m path bs, none)))
  unfolding append_raw
  append_some-cases m path bs = ground arith

  -- The end of DATA: nothing, a part of the bytes, or all that `with_appended` changes.
  append_raw-cases :
      (m : Data) (path : TreePath) (raw : Option Bytes)
      → ((append_raw a s m path raw).0 ≡ s)
        ⊎ (bs : Bytes) × (raw ≡ some bs)
          × (((append_raw a s m path raw).0
                ≡ record s { tree = append_at s.tree path (take a.written bs) })
              ⊎ (append_raw a s m path raw ≡ (with_appended s m path bs, none)))
  unfolding append_raw
  append_raw-cases m path none = inl refl
  append_raw-cases m path (some bs) = elim (append_some-cases m path bs) [
    | inl same ↦ inl same
    | inr more ↦ inr (bs, refl, more)
  ]

  pub raw_data-cases :
      (m : Data) (bs : Bytes)
      → raw_data_for_data_message m ≡ some bs
      → (bs ≡ m.payload) × (length m.payload ≡ m.raw_len)
  unfolding raw_data_for_data_message
  raw_data-cases m bs h = ground arith

  -- DATA changes nothing, or writes some of its bytes, or all with the session's progress.
  pub apply_data-cases :
      (m : Data)
      → ((apply_data a s m).0 ≡ s)
        ⊎ Fitting a s m
          × (length m.payload ≡ m.raw_len)
          × (((apply_data a s m).0
                ≡ record s { tree = append_at s.tree (data_path a s m) (take a.written m.payload) })
              ⊎ (apply_data a s m ≡ (with_appended s m (data_path a s m) m.payload, none)))
  apply_data-cases m =
      let path = data_path a s m in
      elim (apply_data-passes m) [
        | inl same ↦ inl same
        | inr (fit, goes) ↦ elim (append_raw-cases m path (raw_data_for_data_message m)) [
          | inl same ↦ inl (rw goes same)
          | inr (bs, decoded, more) ↦
              let (payload, len) = raw_data-cases m bs decoded in
              inr (
                fit,
                len,
                rw goes (elim more [
                  | inl part ↦ inl (
                      part
                      ∙ ap (λ b. record s { tree = append_at s.tree path (take a.written b) })
                          payload)
                  | inr whole ↦ inr (whole ∙ ap (λ b. (with_appended s m path b, none)) payload)
                ]),
              )
        ]
      ]

  pub with_appended-advances :
      (m : Data) (path : TreePath) (bs : Bytes)
      → s.expected_seq < (with_appended s m path bs).expected_seq
      → m.final_size ≤ (m.offset + m.raw_len) % u64_mod
  with_appended-advances m path bs h = ground arith
