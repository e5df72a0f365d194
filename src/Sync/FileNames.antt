-- ===== src/Sync/FileNames.antt =====
-- The numbered names of src/core/yisync_sync.cpp, `file_name_for_id` and `parse_file_id`.
use yisync.Common.{
  ℕ, zero, suc, ◌+◌, ◌-◌, ◌*◌, ◌/◌, ◌%◌, ◌^◌, ◌≤◌, ◌<◌, ◌≡◌, refl, ap, ◌∙◌, [], ◌∷◌, ◌++◌, Option,
  none, some, false, ◌&&◌, arith, Bool-cases, inl, inr, ltb, leb, if◌then◌else◌, length, take, drop,
  take-append, drop-append, length-append, u64_mod, IsU64,
}
use native.Mathlib.Nat.{pow-succ'}
use yisync.Protocol.Message.{Bytes}
use yisync.Sync.{bytes_equal}
use yisync.Sync.Diff.{bytes_equal_refl}

-- The decimal digits of a number in front of a text. As many rounds as a 64-bit number has digits
-- are enough.
unfoldable pub digits : ℕ → ℕ → Bytes → Bytes
digits zero n rest = rest
digits (suc fuel) n rest =
    let more = digits fuel (n / 10) ((48 + n % 10) ∷ rest) in
    if ltb n 10 then (48 + n % 10) ∷ rest else more

-- `std::to_string`.
abbrev pub to_string : ℕ → Bytes
to_string n = digits 20 n []

-- `.file`
abbrev pub suffix : Bytes
suffix = 46 ∷ 102 ∷ 105 ∷ 108 ∷ 101 ∷ []

unfoldable pub file_name_for_id : ℕ → Bytes
file_name_for_id file_id = to_string file_id ++ suffix

-- `std::from_chars` up to the end of the text: `none` where it stops at another character or where
-- the number does not fit.
unfoldable pub from_chars : Bytes → ℕ → Option ℕ
from_chars [] n = some n
from_chars (c ∷ cs) n =
    let rest = from_chars cs (n * 10 + (c - 48)) in
    if leb 48 c && leb c 57 && ltb (n * 10 + (c - 48)) u64_mod then rest else none

unfoldable pub parse_file_id : Bytes → Option ℕ
parse_file_id name =
    let stem = length name - length suffix in
    if leb (length name) (length suffix)
    then none
    else (if bytes_equal (drop stem name) suffix then from_chars (take stem name) 0 else none)

digits-append :
    (fuel n : ℕ) (rest more : Bytes) → digits fuel n rest ++ more ≡ digits fuel n (rest ++ more)
unfolding digits
digits-append zero n rest more = refl
digits-append (suc fuel) n rest more =
    ground (arith, digits-append fuel (n / 10) ((48 + n % 10) ∷ rest) more)

from_chars-digit :
    (m d r : ℕ) (rest : Bytes)
    → d < 10
    → m * 10 + d ≡ r
    → IsU64 r
    → from_chars ((48 + d) ∷ rest) m ≡ from_chars rest r
unfolding from_chars
from_chars-digit m d r rest h e u =
    let same : m * 10 + (48 + d - 48) ≡ r = omega (arith, e) in rw same (ground arith)

-- Reading the digits of `n` goes on behind them with the number `n`.
from_chars-digits :
    (fuel n : ℕ) (rest : Bytes)
    → n < 10 ^ fuel
    → IsU64 n
    → from_chars (digits fuel n rest) 0 ≡ from_chars rest n
unfolding digits
from_chars-digits zero n rest h u = ap (from_chars rest) (omega arith)
from_chars-digits (suc fuel) n rest h u = elim (Bool-cases (ltb n 10)) [
  | inl small ↦
      let e : n % 10 ≡ n = ground arith in
      rw (small, e) (from_chars-digit 0 n n rest (ground arith) (omega arith) u)
  | inr large ↦
      let tail = (48 + n % 10) ∷ rest in
      rw large (
        from_chars-digits fuel (n / 10) tail (omega (arith, pow-succ' 10 fuel)) (omega arith)
        ∙ from_chars-digit (n / 10) (n % 10) n rest (omega arith) (omega arith) u)
]

digits-grow : (fuel n : ℕ) (rest : Bytes) → length rest ≤ length (digits fuel n rest)
unfolding digits
digits-grow zero n rest = omega arith
digits-grow (suc fuel) n rest = ground (arith, digits-grow fuel (n / 10) ((48 + n % 10) ∷ rest))

to_string-some : (n : ℕ) → 0 < length (to_string n)
unfolding digits
to_string-some n = ground (arith, digits-grow 19 (n / 10) ((48 + n % 10) ∷ []))

parse_file_id-append :
    (stem : Bytes) → 0 < length stem → parse_file_id (stem ++ suffix) ≡ from_chars stem 0
unfolding parse_file_id
parse_file_id-append stem h =
    let len : length (stem ++ suffix) ≡ length stem + 5 = length-append stem suffix in
    let cut : length (stem ++ suffix) - 5 ≡ length stem = omega (arith, len) in
    let long : leb (length (stem ++ suffix)) 5 ≡ false = ground (arith, len) in
    rw (long, cut, drop-append stem suffix, take-append stem suffix, bytes_equal_refl suffix) refl

-- For every 64-bit id, `parse_file_id` returns it from the name that `file_name_for_id` makes.
pub parse_file_id-file_name_for_id :
    (file_id : ℕ) → IsU64 file_id → parse_file_id (file_name_for_id file_id) ≡ some file_id
unfolding file_name_for_id from_chars
parse_file_id-file_name_for_id n u =
    parse_file_id-append (to_string n) (to_string-some n)
    ∙ from_chars-digits 20 n [] (omega arith) u
