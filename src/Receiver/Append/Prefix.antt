-- ===== src/Receiver/Append/Prefix.antt =====
-- What the files that `T_ReceiverStream` (src/receiver/yisync_receiver.cpp) writes hold.
use yisync.Common.{
  ℕ, ◌≡◌, refl, sym, ap, ◌∙◌, subst, List, [], ◌∷◌, ◌++◌, Option, none, some, true, false,
  Bool-cases, Option-cases, arith, inl, inr, length, take, drop, All, drop-append, append_assoc,
  zero, suc,
}
use yisync.Protocol.Message.{Bytes, ManifestEntry, Create, Data}
use yisync.Sync.Diff.{bytes_equal→eq, bytes_equal_refl}
use yisync.Sync.{bytes_equal}
use yisync.Receiver.Append.{
  TreePath, Entry, file, directory, link, same_path, Answers, AppendStream, path_for_file,
  file_size_or_zero, exists, created, parts_of, append_at, appended, apply_data, apply_create,
  refresh_committed_from_disk,
}
use yisync.Receiver.Append.Session.{
  Event, creates, appends, refreshes, step, run, data_path, apply_data-cases, apply_create-cases,
}

-- The first bytes of a list.
abbrev pub IsPrefix : Bytes → Bytes → Type 0
IsPrefix xs ys = (rest : Bytes) × (xs ++ rest ≡ ys)

take-drop_whole : (n : ℕ) (xs : Bytes) → take n xs ++ drop n xs ≡ xs
take-drop_whole zero xs = refl
take-drop_whole (suc n) [] = refl
take-drop_whole (suc n) (x ∷ xs) = ap (◌∷◌ x) (take-drop_whole n xs)

IsPrefix-append :
    (xs more ys : Bytes)
    → IsPrefix xs ys
    → IsPrefix more (drop (length xs) ys)
    → IsPrefix (xs ++ more) ys
IsPrefix-append xs more ys (rest, e) (rest2, e2) =
    let behind : more ++ rest2 ≡ rest = e2 ∙ ap (drop (length xs)) (sym e) ∙ drop-append xs rest in
    (rest2, append_assoc xs more rest2 ∙ ap (λ r. xs ++ r) behind ∙ e)

IsPrefix-take : (n : ℕ) (xs ys : Bytes) → IsPrefix xs ys → IsPrefix (take n xs) ys
IsPrefix-take n xs ys (rest, e) = (
  drop n xs ++ rest,
  sym (append_assoc (take n xs) (drop n xs) rest) ∙ rw (take-drop_whole n xs) e,
)

same_path→eq : (p q : TreePath) → same_path p q ≡ true → p ≡ q
unfolding same_path
same_path→eq [] [] h = refl
same_path→eq [] (y ∷ ys) h = cc
same_path→eq (x ∷ xs) [] h = cc
same_path→eq (x ∷ xs) (y ∷ ys) h = elim (Bool-cases (bytes_equal x y)) [
  | inl same ↦ cc (bytes_equal→eq x y same, same_path→eq xs ys (ground (arith, same, h)))
  | inr other ↦ absurd (ground (arith, other, h))
]

pub same_path_self : (p : TreePath) → same_path p p ≡ true
unfolding same_path
same_path_self [] = refl
same_path_self (x ∷ xs) = rw (bytes_equal_refl x) (same_path_self xs)

appended-file :
    (entry : Option Entry) (bs content : Bytes)
    → appended entry bs ≡ some (file content)
    → (old : Bytes) × (entry ≡ some (file old)) × (content ≡ old ++ bs)
unfolding appended
appended-file none bs content e = cc e
appended-file (some (file old)) bs content e = (old, refl, cc e)
appended-file (some directory) bs content e = cc e
appended-file (some (link target)) bs content e = cc e

-- `source` is what the sender's files hold, and `path_of` the path of the entry with an id.
module _ (source : TreePath → Bytes) (path_of : ℕ → TreePath) where
  -- Every file of the tree has the first bytes of the sender's file at its path, and the current
  -- path is that of the current id.
  pub record HoldsPrefixes (s : AppendStream) : Type 0 where
    pub files :
        (p : TreePath) (content : Bytes)
        → s.tree p ≡ some (file content)
        → IsPrefix content (source p)
    pub current : (p : TreePath) → s.current_path ≡ some p → p ≡ path_of s.current_file_id

  -- A message of the sender: a CREATE names the path of its entry, DATA has the bytes of the
  -- sender's file from its offset on. The manifest names an entry as the sender does.
  abbrev pub Honest : Event → Type 0
  Honest (creates a create) = parts_of create.name ≡ path_of create.file_id
  Honest (appends a m) =
      IsPrefix m.payload (drop m.offset (source (path_of m.file_id)))
      × (path_for_file a m.file_id ≡ path_of m.file_id)
  Honest (refreshes none) = Unit {0}
  Honest (refreshes (some latest)) = parts_of latest.name ≡ path_of latest.file_id

  -- The path that DATA is written to is that of its file.
  pub data_path-path_of :
      (a : Answers) (s : AppendStream) (m : Data)
      → HoldsPrefixes s
      → Honest (appends a m)
      → m.file_id ≡ s.current_file_id
      → data_path a s m ≡ path_of m.file_id
  data_path-path_of a s m h honest same = elim (Option-cases s.current_path) [
    | inl e ↦ rw e honest.1
    | inr (p, e) ↦ rw e (h.current p e ∙ ap path_of (sym same))
  ]

  append_at-prefixes :
      (s : AppendStream) (path : TreePath) (bs : Bytes)
      → HoldsPrefixes s
      → ((content : Bytes)
          → s.tree path ≡ some (file content)
          → IsPrefix bs (drop (length content) (source path)))
      → (p : TreePath) (content : Bytes) → append_at s.tree path bs p ≡ some (file content)
      → IsPrefix content (source p)
  append_at-prefixes s path bs h k p content e = elim (Bool-cases (same_path path p)) [
    | inl same ↦
        let q : path ≡ p = same_path→eq path p same in
        let (old, there, whole) = appended-file (s.tree path) bs content (rw same at e) in
        subst (λ r. IsPrefix content (source r)) q
          (rw whole (IsPrefix-append old bs (source path) (h.files path old there) (k old there)))
    | inr other ↦ h.files p content (rw other at e)
  ]

  apply_data-HoldsPrefixes :
      (a : Answers) (s : AppendStream) (m : Data)
      → HoldsPrefixes s
      → Honest (appends a m)
      → HoldsPrefixes (apply_data a s m).0
  unfolding file_size_or_zero
  apply_data-HoldsPrefixes a s m h honest = elim (apply_data-cases a s m) [
    | inl same ↦ rw same h
    | inr (fit, len, more) ↦
        let path = data_path a s m in
        let at_path = data_path-path_of a s m h honest fit.id in
        let next : (content : Bytes)
            → s.tree path ≡ some (file content)
            → IsPrefix m.payload (drop (length content) (source path)) =
          λ content there.
            let size : m.offset ≡ length content = rw there at fit.offset in
            rw (at_path, sym size) honest.0 in
        elim more [
          | inl part ↦ rw part (record {
            files =
                append_at-prefixes s path (take a.written m.payload) h
                  (λ content there. IsPrefix-take a.written m.payload _ (next content there));
            current = h.current;
          })
          | inr whole ↦
              rw whole
                (record { files = append_at-prefixes s path m.payload h next; current = h.current })
        ]
  ]

  created-file :
      (a : Answers) (create : Create) (entry : Option Entry) (content : Bytes)
      → exists a entry ≡ false
      → created create entry ≡ file content
      → content ≡ []
  unfolding created exists
  created-file a create none content h e = ground arith
  created-file a create (some (file old)) content h e = cc h
  created-file a create (some directory) content h e = cc e
  created-file a create (some (link target)) content h e = cc e

  apply_create-HoldsPrefixes :
      (a : Answers) (s : AppendStream) (create : Create)
      → HoldsPrefixes s
      → Honest (creates a create)
      → HoldsPrefixes (apply_create a s create).0
  apply_create-HoldsPrefixes a s create h honest = elim (apply_create-cases a s create) [
    | inl same ↦ rw same h
    | inr (fresh, seq, made) ↦
        let path = parts_of create.name in
        rw made (record {
          files = λ p content e. elim (Bool-cases (same_path path p)) [
            | inl same ↦
                let empty = created-file a create (s.tree path) content fresh (cc (rw same at e)) in
                rw empty (source p, refl)
            | inr other ↦ h.files p content (rw other at e)
          ];
          current = λ p e. let same : path ≡ p = cc e in sym same ∙ honest;
        })
  ]

  refresh-HoldsPrefixes :
      (s : AppendStream) (latest : Option ManifestEntry)
      → HoldsPrefixes s
      → Honest (refreshes latest)
      → HoldsPrefixes (refresh_committed_from_disk s latest)
  unfolding refresh_committed_from_disk
  refresh-HoldsPrefixes s none h honest = record { files = h.files; current = λ p e. cc e }
  refresh-HoldsPrefixes s (some latest) h honest = record {
    files = h.files;
    current = λ p e. let same : parts_of latest.name ≡ p = cc e in sym same ∙ honest;
  }

  step-HoldsPrefixes :
      (s : AppendStream) (e : Event) → HoldsPrefixes s → Honest e → HoldsPrefixes (step s e)
  step-HoldsPrefixes s (creates a create) h honest = apply_create-HoldsPrefixes a s create h honest
  step-HoldsPrefixes s (appends a m) h honest = apply_data-HoldsPrefixes a s m h honest
  step-HoldsPrefixes s (refreshes latest) h honest = refresh-HoldsPrefixes s latest h honest

  -- Over any history of CREATE, DATA and refreshes with the sender's bytes and names, with any
  -- answers of the disk and any failed writes: every file of the tree that held the first bytes
  -- of the sender's file at its path still does, and so does each new one; the current path
  -- stays that of the current id.
  pub run-HoldsPrefixes :
      (s : AppendStream) (es : List Event)
      → HoldsPrefixes s
      → All Honest es
      → HoldsPrefixes (run s es)
  unfolding run
  run-HoldsPrefixes s [] h honest = h
  run-HoldsPrefixes s (e ∷ es) h honest =
      run-HoldsPrefixes (step s e) es (step-HoldsPrefixes s e h honest.0) honest.1
