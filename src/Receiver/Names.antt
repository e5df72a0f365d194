-- ===== src/Receiver/Names.antt =====
-- The names that `final_path_for` of src/receiver/yisync_receiver.cpp takes from a message.
use yisync.Common.{
  ℕ, ◌≡◌, ◌≢◌, refl, inl, inr, List, [], ◌∷◌, some, true, false, arith, is_empty, Bool-cases, All,
}
use yisync.Protocol.Message.{Bytes}
use yisync.Sync.Diff.{bytes_equal-false}
use yisync.Receiver.Files.{
  named, split_name, path_parts, bad_part, all_good, is_safe_relative_name, final_path_for,
}

-- A part that stays in its directory: neither `.` nor `..`.
pub record Plain (part : Bytes) : Type 0 where
  pub not_dot : part ≢ 46 ∷ []
  pub not_dots : part ≢ 46 ∷ 46 ∷ []

good-Plain : (part : Bytes) → bad_part part ≡ false → Plain part
good-Plain part h = record {
  not_dot = bytes_equal-false part (46 ∷ []) (ground arith);
  not_dots = bytes_equal-false part (46 ∷ 46 ∷ []) (ground arith);
}

empty-Plain : (part : Bytes) → is_empty part ≡ true → Plain part
empty-Plain [] h = record { not_dot = λ e. cc e; not_dots = λ e. cc e }
empty-Plain (c ∷ cs) h = cc h

all_good-head :
    (part : Bytes) (parts : List Bytes)
    → all_good (part ∷ parts) ≡ true
    → (bad_part part ≡ false) × (all_good parts ≡ true)
unfolding all_good
all_good-head part parts h = ground arith

parts-Plain : (xs : List Bytes) → all_good (path_parts xs) ≡ true → All Plain xs
unfolding path_parts
parts-Plain [] h = tt
parts-Plain (x ∷ []) h = (good-Plain x (all_good-head x [] h).0, tt)
parts-Plain (x ∷ y ∷ more) h = elim (Bool-cases (is_empty x)) [
  | inl gap ↦ (empty-Plain x gap, parts-Plain (y ∷ more) (cc (gap, h)))
  | inr filled ↦
      let (good, rest) = all_good-head x (path_parts (y ∷ more)) (cc (filled, h)) in
      (good-Plain x good, parts-Plain (y ∷ more) rest)
]

-- A name below the root: it does not start with a separator, and no part of it leads upwards.
abbrev pub Inside : Bytes → Type 0
Inside [] = ⊥
Inside (c ∷ cs) = (c ≢ 47) × All Plain (split_name (c ∷ cs))

safe-Inside : (name : Bytes) → is_safe_relative_name name ≡ true → Inside name
unfolding is_safe_relative_name
safe-Inside [] h = cc h
safe-Inside (c ∷ cs) h = (ground (arith, h), parts-Plain (split_name (c ∷ cs)) (ground (arith, h)))

-- A path that `final_path_for` makes of a name is that name, it does not start with a
-- separator, and none of its parts is `.` or `..`.
pub final_path_for-Inside :
    (file_id : ℕ) (name path : Bytes)
    → final_path_for file_id name ≡ some (named path)
    → (path ≡ name) × Inside path
unfolding final_path_for
final_path_for-Inside file_id [] path e = cc e
final_path_for-Inside file_id (c ∷ cs) path e = elim (Bool-cases (is_safe_relative_name (c ∷ cs))) [
  | inl safe ↦
      let same : c ∷ cs ≡ path = cc (safe, e) in rw (← same) (refl, safe-Inside (c ∷ cs) safe)
  | inr unsafe ↦ cc (unsafe, e)
]
