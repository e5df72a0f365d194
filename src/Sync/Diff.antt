-- ===== src/Sync/Diff.antt =====
-- What `diff_stream` of src/core/yisync_sync.cpp reports, against a specification by propositions.
use yisync.Common.{
  ℕ, ◌<◌, ◌≡◌, ◌≢◌, refl, sym, ap, subst, inl, inr, List, [], ◌∷◌, ◌++◌, Option, none, some, true,
  false, arith, ltb, if◌then◌else◌, ==_iff, Bool-cases, Result, ok, err,
}
use yisync.Protocol.Codes.{EntryKind, entry_kind_enum, checksum_algo_enum}
use yisync.Protocol.Codes
use yisync.Protocol.Message.{Bytes, FileChecksum, ManifestEntry}
use yisync.Sync.{
  SyncStart, StartAction, Conflict, identity_conflict, content_conflict, receiver_larger,
  checksum_conflict, bytes_equal, same_kind, checksums_equal, manifest_entries_same_identity,
  manifest_entries_same_content, same_content_of, Round, next, start, throws,
  is_directory_or_symlink, compare_files, compare_entries, after_round, diff_stream,
}

pub bytes_equal→eq : (xs ys : Bytes) → bytes_equal xs ys ≡ true → xs ≡ ys
unfolding bytes_equal
bytes_equal→eq [] [] h = refl
bytes_equal→eq [] (y ∷ ys) h = cc
bytes_equal→eq (x ∷ xs) [] h = cc
bytes_equal→eq (x ∷ xs) (y ∷ ys) h = ground (arith, bytes_equal→eq xs ys)

pub bytes_equal_refl : (xs : Bytes) → bytes_equal xs xs ≡ true
unfolding bytes_equal
bytes_equal_refl [] = refl
bytes_equal_refl (x ∷ xs) = ground (arith, bytes_equal_refl xs)

pub bytes_equal-false : (xs ys : Bytes) → bytes_equal xs ys ≡ false → xs ≢ ys
bytes_equal-false xs ys h e = cc (bytes_equal_refl xs, ap (bytes_equal xs) e)

-- The same entry of the tree: id, kind and name.
pub record SameIdentity (a b : ManifestEntry) : Type 0 where
  pub id : a.file_id ≡ b.file_id
  pub kind : Codes.to_u8 a.kind ≡ Codes.to_u8 b.kind
  pub name : a.name ≡ b.name

pub record SameChecksum (a b : FileChecksum) : Type 0 where
  pub algo : Codes.to_u8 a.algo ≡ Codes.to_u8 b.algo
  pub offset : a.offset ≡ b.offset
  pub len : a.len ≡ b.len
  pub value : a.value ≡ b.value

abbrev pub ContentOf : EntryKind → ManifestEntry → ManifestEntry → Type 0
ContentOf EntryKind.directory a b = Unit {0}
ContentOf EntryKind.symlink a b = a.link_target ≡ b.link_target
ContentOf kind a b = (a.size ≡ b.size) × SameChecksum a.checksum b.checksum

-- The receiver's entry needs nothing.
pub record Same (a b : ManifestEntry) : Type 0 where
  pub identity : SameIdentity a b
  pub content : ContentOf a.kind a b

-- A conflict that stops the comparison.
abbrev pub Clash : Conflict → ManifestEntry → ManifestEntry → Type 0
Clash identity_conflict a b = ¬ SameIdentity a b
Clash content_conflict a b =
    SameIdentity a b × (a.kind ≡ EntryKind.symlink) × (a.link_target ≢ b.link_target)
Clash receiver_larger a b =
    SameIdentity a b × (is_directory_or_symlink a.kind ≡ false) × (a.size < b.size)
Clash checksum_conflict a b =
    SameIdentity a b
    × (is_directory_or_symlink a.kind ≡ false)
    × (a.size ≡ b.size)
    × ¬ SameChecksum a.checksum b.checksum
Clash Conflict.chunk_size_zero a b = ⊥

abbrev pub Resumes : ℕ → SyncStart → ManifestEntry → ManifestEntry → Type 0
Resumes stream_id st a b =
    SameIdentity a b
    × (is_directory_or_symlink a.kind ≡ false)
    × (b.size < a.size)
    × (st ≡ record {
      stream_id = stream_id;
      start_file_id = a.file_id;
      start_offset = b.size;
      start_action = StartAction.resume_existing;
    })

-- The verdict on one pair of entries.
abbrev pub Verdict : ℕ → ManifestEntry → ManifestEntry → Round → Type 0
Verdict stream_id a b next = Same a b
Verdict stream_id a b (start st) = Resumes stream_id st a b
Verdict stream_id a b (throws c) = Clash c a b

identity→SameIdentity :
    (a b : ManifestEntry) → manifest_entries_same_identity a b ≡ true → SameIdentity a b
unfolding manifest_entries_same_identity
identity→SameIdentity a b h = ground (arith, bytes_equal→eq a.name b.name)

not_identity→¬SameIdentity :
    (a b : ManifestEntry) → manifest_entries_same_identity a b ≡ false → ¬ SameIdentity a b
unfolding manifest_entries_same_identity
not_identity→¬SameIdentity a b h s = ground (arith, bytes_equal-false a.name b.name)

equal→SameChecksum : (a b : FileChecksum) → checksums_equal a b ≡ true → SameChecksum a b
unfolding checksums_equal
equal→SameChecksum a b h = ground (arith, bytes_equal→eq a.value b.value)

not_equal→¬SameChecksum : (a b : FileChecksum) → checksums_equal a b ≡ false → ¬ SameChecksum a b
unfolding checksums_equal
not_equal→¬SameChecksum a b h s = ground (arith, bytes_equal-false a.value b.value)

module _ (stream_id : ℕ) (a b : ManifestEntry) (same : SameIdentity a b) where
  compare_files-Verdict :
      is_directory_or_symlink a.kind ≡ false
      → ((a.size ≡ b.size) → SameChecksum a.checksum b.checksum → ContentOf a.kind a b)
      → Verdict stream_id a b (compare_files stream_id a b)
  unfolding compare_files
  compare_files-Verdict file content = elim (Bool-cases (ltb a.size b.size)) [
    | inl larger ↦ rw larger (same, file, ground arith)
    | inr le ↦ elim (Bool-cases (ltb b.size a.size)) [
      | inl smaller ↦ rw (le, smaller) (same, file, ground arith, refl)
      | inr ge ↦ elim (Bool-cases (checksums_equal a.checksum b.checksum)) [
        | inl eq ↦
            rw (le, ge, eq)
              (record {
                identity = same;
                content = content (ground arith) (equal→SameChecksum a.checksum b.checksum eq);
              })
        | inr ne ↦
            rw (le, ge, ne)
              (same, file, ground arith, not_equal→¬SameChecksum a.checksum b.checksum ne)
      ]
    ]
  ]

  same_content_is :
      (kind : EntryKind)
      → a.kind ≡ kind
      → manifest_entries_same_content a b ≡ same_content_of kind a b
  unfolding manifest_entries_same_content
  same_content_is kind e =
      let k : same_kind a.kind b.kind ≡ true = (==_iff _ _).1 same.kind in
      rw k (ap (λ (k : EntryKind). same_content_of k a b) e)

  content_of : (kind : EntryKind) → a.kind ≡ kind → ContentOf kind a b → Same a b
  content_of kind e c = record { identity = same; content = subst (λ k. ContentOf k a b) (sym e) c }

  rest-Verdict :
      (kind : EntryKind)
      → a.kind ≡ kind
      → Verdict stream_id a b (
          if is_directory_or_symlink kind
          then (if manifest_entries_same_content a b then next else throws content_conflict)
          else compare_files stream_id a b)
  rest-Verdict EntryKind.directory e =
      rw (same_content_is EntryKind.directory e) (content_of EntryKind.directory e tt)
  rest-Verdict EntryKind.symlink e = elim (Bool-cases (bytes_equal a.link_target b.link_target)) [
    | inl eq ↦
        rw (same_content_is EntryKind.symlink e, eq)
          (content_of EntryKind.symlink e (bytes_equal→eq _ _ eq))
    | inr ne ↦ rw (same_content_is EntryKind.symlink e, ne) (same, e, bytes_equal-false _ _ ne)
  ]
  rest-Verdict EntryKind.regular_file e =
      compare_files-Verdict (ap is_directory_or_symlink e)
        (λ p q. subst (λ k. ContentOf k a b) (sym e) (p, q))
  rest-Verdict (EntryKind.unnamed n) e =
      compare_files-Verdict (ap is_directory_or_symlink e)
        (λ p q. subst (λ k. ContentOf k a b) (sym e) (p, q))

pub compare_entries-Verdict :
    (stream_id : ℕ) (a b : ManifestEntry) → Verdict stream_id a b (compare_entries stream_id a b)
unfolding compare_entries
compare_entries-Verdict stream_id a b = elim (Bool-cases (manifest_entries_same_identity a b)) [
  | inl same ↦ rw same (rest-Verdict stream_id a b (identity→SameIdentity a b same) a.kind refl)
  | inr other ↦ rw other (not_identity→¬SameIdentity a b other)
]

-- The receiver has these entries, and needs nothing for them.
abbrev pub AllSame : List ManifestEntry → List ManifestEntry → Type 0
AllSame [] [] = Unit {0}
AllSame (a ∷ xs) (b ∷ ys) = Same a b × AllSame xs ys
AllSame xs ys = ⊥

-- Where the comparison stopped: both lists begin with entries that are the same, and `P` holds of
-- the sender's next entry and what the receiver has from there on.
abbrev pub StopsAt :
    (ManifestEntry → List ManifestEntry → Type 0) → List ManifestEntry → List ManifestEntry → Type 0
StopsAt P sender receiver =
    (front : List ManifestEntry) × (entry : ManifestEntry) × (back : List ManifestEntry)
    × (front' : List ManifestEntry) × (rest : List ManifestEntry) × (sender
        ≡ front ++ (entry ∷ back))
    × (receiver ≡ front' ++ rest)
    × AllSame front front'
    × P entry rest

abbrev pub StartsAt : ℕ → SyncStart → ManifestEntry → List ManifestEntry → Type 0
StartsAt stream_id st entry [] = st ≡ record {
  stream_id = stream_id;
  start_file_id = entry.file_id;
  start_offset = 0;
  start_action = StartAction.create_missing;
}
StartsAt stream_id st entry (b ∷ rest) = Resumes stream_id st entry b

abbrev pub ClashesAt : Conflict → ManifestEntry → List ManifestEntry → Type 0
ClashesAt c entry [] = ⊥
ClashesAt c entry (b ∷ rest) = Clash c entry b

-- The three outcomes of a comparison.
abbrev pub Report :
    ℕ → List ManifestEntry → List ManifestEntry → Result Conflict (Option SyncStart) → Type 0
Report stream_id sender receiver (ok none) =
    (front' : List ManifestEntry) × (extra : List ManifestEntry) × (receiver ≡ front' ++ extra)
    × AllSame sender front'
Report stream_id sender receiver (ok (some st)) = StopsAt (StartsAt stream_id st) sender receiver
Report stream_id sender receiver (err c) = StopsAt (ClashesAt c) sender receiver

module _ (a b : ManifestEntry) (same : Same a b) where
  StopsAt-cons :
      (P : ManifestEntry → List ManifestEntry → Type 0) (sender receiver : List ManifestEntry)
      → StopsAt P sender receiver
      → StopsAt P (a ∷ sender) (b ∷ receiver)
  StopsAt-cons P sender receiver (front, entry, back, front', rest, p, q, all, h) =
      (a ∷ front, entry, back, b ∷ front', rest, ap (◌∷◌ a) p, ap (◌∷◌ b) q, (same, all), h)

  Report-cons :
      (stream_id : ℕ) (sender receiver : List ManifestEntry)
      (r : Result Conflict (Option SyncStart))
      → Report stream_id sender receiver r
      → Report stream_id (a ∷ sender) (b ∷ receiver) r
  Report-cons stream_id sender receiver (ok none) (front', extra, q, all) =
      (b ∷ front', extra, ap (◌∷◌ b) q, (same, all))
  Report-cons stream_id sender receiver (ok (some st)) h = StopsAt-cons _ sender receiver h
  Report-cons stream_id sender receiver (err c) h = StopsAt-cons _ sender receiver h

Round-Report :
    (stream_id : ℕ) (a b : ManifestEntry) (sender receiver : List ManifestEntry) (round : Round)
    (r : Result Conflict (Option SyncStart))
    → Verdict stream_id a b round
    → Report stream_id sender receiver r
    → Report stream_id (a ∷ sender) (b ∷ receiver) (after_round round r)
Round-Report stream_id a b sender receiver next r v h =
    Report-cons a b v stream_id sender receiver r h
Round-Report stream_id a b sender receiver (start st) r v h =
    ([], a, sender, [], b ∷ receiver, refl, refl, tt, v)
Round-Report stream_id a b sender receiver (throws c) r v h =
    ([], a, sender, [], b ∷ receiver, refl, refl, tt, v)

-- `diff_stream` reports no start only where the receiver has all of the sender's entries with
-- the same content; a start only at the first entry that is missing or, for a file, shorter on
-- the receiver's side, where all before it are the same; an error only at the first entry that
-- conflicts, of the kind that it names.
pub diff_stream-Report :
    (stream_id : ℕ) (sender receiver : List ManifestEntry)
    → Report stream_id sender receiver (diff_stream stream_id sender receiver)
unfolding diff_stream
diff_stream-Report stream_id [] receiver = ([], receiver, refl, tt)
diff_stream-Report stream_id (a ∷ sender) [] = ([], a, sender, [], [], refl, refl, tt, refl)
diff_stream-Report stream_id (a ∷ sender) (b ∷ receiver) =
    Round-Report stream_id a b sender receiver (compare_entries stream_id a b) _
      (compare_entries-Verdict stream_id a b) (diff_stream-Report stream_id sender receiver)
