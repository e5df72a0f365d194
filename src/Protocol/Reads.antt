-- ===== src/Protocol/Reads.antt =====
-- When a `Reader` undoes a sequence of `Writer` calls, proved for each primitive and for sequences.
use yisync.Common.{
  ok, err, ◌⊎◌, inl, inr, ◌≢◌, ℕ, zero, suc, ◌+◌, ◌%◌, ◌≡◌, refl, ap, subst, List, [], ◌∷◌, ◌++◌,
  append_assoc, arith, length, All, take-append, drop-append, length-append, IsByte, IsU16, IsU32,
  IsU64, u32_mod,
}
use yisync.Protocol.Codes.{Enum, IsCode}
use yisync.Protocol.Codes
use yisync.Protocol.Message.{Bytes}
use yisync.Protocol.Writer
use yisync.Protocol.Writer.{◌⨟◌, shifted_bytes}
use yisync.Protocol.Reader
use yisync.Protocol.Reader.{Reader, truncated_body, pure, ◌>>=◌, take_bytes, joined}

-- `m` takes exactly `bs`, whatever follows, and returns `a`; on an input that ends inside `bs` it
-- reports a truncated body.
pub record Reads {A : Type 0} (m : Reader A) (bs : Bytes) (a : A) : Type 0 where
  pub run : (rest : Bytes) → m (bs ++ rest) ≡ ok (a, rest)
  pub cut :
      (front : Bytes) (x : ℕ) (back : Bytes)
      → bs ≡ front ++ (x ∷ back)
      → m front ≡ err truncated_body

-- Where a cut through `xs ++ ys` lies: inside `xs`, or behind it.
pub append_split :
    (xs ys front : Bytes) (x : ℕ) (back : Bytes)
    → xs ++ ys ≡ front ++ (x ∷ back)
    → ((z : ℕ) × (zs : Bytes) × (xs ≡ front ++ (z ∷ zs)))
      ⊎ ((mid : Bytes) × (front ≡ xs ++ mid) × (ys ≡ mid ++ (x ∷ back)))
append_split [] ys front x back e = inr (front, refl, e)
append_split (z ∷ xs) ys [] x back e = inl (z, xs, refl)
append_split (z ∷ xs) ys (y ∷ front) x back e = elim (append_split xs ys front x back (cc)) [
  | inl (w, ws, p) ↦ inl (w, ws, cc)
  | inr (mid, p, q) ↦ inr (mid, cc, q)
]

nil-ne-append : (front : Bytes) (x : ℕ) (back : Bytes) → [] ≢ front ++ (x ∷ back)
nil-ne-append [] x back e = cc
nil-ne-append (y ∷ front) x back e = cc

pub pure-Reads : {A : Type 0} (a : A) → Reads (pure a) [] a
unfolding pure
pure-Reads a = record {
  run = λ rest. refl;
  cut = λ front x back e. absurd (nil-ne-append front x back e);
}

module _ {A B : Type 0} {m : Reader A} where
  pub Reads-bind :
      (f : A → Reader B) {xs ys : Bytes} {a : A} {b : B}
      → Reads m xs a
      → Reads (f a) ys b
      → Reads (m >>= f) (xs ⨟ ys) b
  unfolding ◌>>=◌
  Reads-bind f {xs} {ys} p q = record {
    run = λ rest. rw (append_assoc xs ys rest, p.run (ys ++ rest)) (q.run rest);
    cut = λ front x back e. elim (append_split xs ys front x back e) [
      | inl (z, zs, inside) ↦ rw (p.cut front z zs inside)
      | inr (mid, behind, rest) ↦ rw (behind, p.run mid) (q.cut mid x back rest)
    ];
  }

  -- The last read, whose result goes into the value returned.
  pub Reads-last :
      (g : A → B) {xs : Bytes} {a : A} → Reads m xs a → Reads (m >>= λ x. pure (g x)) xs (g a)
  unfolding ◌>>=◌ pure
  Reads-last g p = record {
    run = λ rest. rw (p.run rest) refl;
    cut = λ front x back e. rw (p.cut front x back e);
  }

pub take_bytes-Reads : (n : ℕ) (bs : Bytes) → length bs ≡ n → Reads (take_bytes n) bs bs
unfolding take_bytes
take_bytes-Reads n bs e = record {
  run = λ rest.
      rw (← e) (ground (arith, length-append bs rest, take-append bs rest, drop-append bs rest));
  cut = λ front x back p. ground (arith, e, ap length p, length-append front (x ∷ back));
}

-- An integer of `n` bytes: the bytes have the right number, and joined again they are the value.
length-shifted_bytes : (n shift v : ℕ) → length (shifted_bytes n shift v) ≡ n
unfolding shifted_bytes
length-shifted_bytes zero shift v = refl
length-shifted_bytes (suc n) shift v = ap suc (length-shifted_bytes n (shift + 8) v)

joined-Reads :
    (n v : ℕ)
    → joined 0 0 (shifted_bytes n 0 v) ≡ v
    → Reads (take_bytes n >>= λ bs. pure (joined 0 0 bs)) (shifted_bytes n 0 v) v
joined-Reads n v e =
    subst (Reads (take_bytes n >>= λ bs. pure (joined 0 0 bs)) (shifted_bytes n 0 v)) e
      (Reads-last (joined 0 0) (take_bytes-Reads n _ (length-shifted_bytes n 0 v)))

pub u8-Reads : (v : ℕ) → IsByte v → Reads Reader.u8 (Writer.u8 v) v
unfolding Reader.u8 Writer.u8
u8-Reads v h =
    subst (Reads Reader.u8 (v % 256 ∷ [])) (omega arith)
      (Reads-last Reader.first_byte (take_bytes-Reads 1 (v % 256 ∷ []) refl))

pub u16-Reads : (v : ℕ) → IsU16 v → Reads Reader.u16 (Writer.u16 v) v
unfolding Reader.u16 Writer.u16
u16-Reads v h = joined-Reads 2 v (unfold joined shifted_bytes in omega arith)

pub u32-Reads : (v : ℕ) → IsU32 v → Reads Reader.u32 (Writer.u32 v) v
unfolding Reader.u32 Writer.u32
u32-Reads v h = joined-Reads 4 v (unfold joined shifted_bytes in omega arith)

pub u64-Reads : (v : ℕ) → IsU64 v → Reads Reader.u64 (Writer.u64 v) v
unfolding Reader.u64 Writer.u64
u64-Reads v h = joined-Reads 8 v (unfold joined shifted_bytes in omega arith)

-- A size below 2^32 passes its cast unchanged.
pub size-Reads : (n : ℕ) → IsU32 n → Reads Reader.u32 (Writer.u32 (n % u32_mod)) n
size-Reads n h =
    let e : n % u32_mod ≡ n = omega arith in
    subst (Reads Reader.u32 (Writer.u32 (n % u32_mod))) e (u32-Reads (n % u32_mod) (omega arith))

pub bytes-Reads : (v : Bytes) → IsU32 (length v) → Reads Reader.bytes (Writer.bytes v) v
unfolding Reader.bytes Writer.bytes
bytes-Reads v h = Reads-bind take_bytes (size-Reads _ h) (take_bytes-Reads _ v refl)

pub string-Reads : (v : Bytes) → IsU32 (length v) → Reads Reader.string (Writer.string v) v
unfolding Reader.string Writer.string
string-Reads v h = Reads-bind take_bytes (size-Reads _ h) (take_bytes-Reads _ v refl)

pub code-Reads : {A : Type 0} ⦃e : Enum A⦄ (v : A) → IsCode v → Reads Reader.code (Writer.code v) v
unfolding Reader.code Writer.code
code-Reads v h =
    subst (Reads Reader.code (Writer.u8 (Codes.to_u8 v))) h.1
      (Reads-last Codes.of_u8 (u8-Reads _ h.0))

module _ {A : Type 0} (P : A → Type 0) {read : Reader A} {write : A → Bytes} where
  items-Reads :
      ((a : A) → P a → Reads read (write a) a)
      → (xs : List A) → All P xs
      → Reads (Reader.items (length xs) read) (Writer.items write xs) xs
  unfolding Reader.items Writer.items
  items-Reads each [] h = pure-Reads []
  items-Reads each (x ∷ xs) (hx, hxs) =
      Reads-bind _ (each x hx) (Reads-last (◌∷◌ x) (items-Reads each xs hxs))

  pub counted-Reads :
      ((a : A) → P a → Reads read (write a) a)
      → (xs : List A) → IsU32 (length xs)
      → All P xs
      → Reads (Reader.counted read) (Writer.counted write xs) xs
  unfolding Reader.counted Writer.counted
  counted-Reads each xs small h = Reads-bind _ (size-Reads _ small) (items-Reads each xs h)
