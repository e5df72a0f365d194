-- ===== src/Protocol/Reader.antt =====
-- The class `Reader` of src/core/yisync_protocol.cpp. Its state is the input from `pos_` on, so
-- `pos_ + len > size` reads `length rest < len`; an exception is the error `err`.
use yisync.Common.{
  Result, ok, err, ℕ, zero, suc, ◌+◌, ◌*◌, ◌^◌, List, [], ◌∷◌, length, take, drop, ltb,
  if◌then◌else◌,
}
use yisync.Protocol.Codes.{Enum}
use yisync.Protocol.Codes
use yisync.Protocol.Message.{Bytes}

-- A constructor for each exception that the codec throws.
pub data Error : Type 0 where
  truncated_body trailing_bytes bad_magic unsupported_version unsupported_type : Error
  data_length_mismatch chunk_length_mismatch : Error
  truncated_header unsupported_header_length frame_length_mismatch : Error

abbrev pub Decoded : Type 0 → Type 0
Decoded A = Result Error A

abbrev pub Reader : Type 0 → Type 0
Reader A = Bytes → Decoded (A × Bytes)

unfoldable pub pure : {A : Type 0} → A → Reader A
pure a rest = ok (a, rest)

unfoldable pub throw : {A : Type 0} → Error → Reader A
throw e rest = err e

abbrev pub next : {A B : Type 0} → (A → Reader B) → Decoded (A × Bytes) → Decoded (B × Bytes)
next f (ok (a, rest)) = f a rest
next f (err e) = err e

infixl 5 ◌>>=◌
unfoldable pub ◌>>=◌ : {A B : Type 0} → Reader A → (A → Reader B) → Reader B
◌>>=◌ m f rest = next f (m rest)

-- `require(len)`, then `len` bytes from the input.
unfoldable pub take_bytes : ℕ → Reader Bytes
take_bytes len rest =
    if ltb (length rest) len then err truncated_body else ok (take len rest, drop len rest)

abbrev pub first_byte : Bytes → ℕ
first_byte [] = 0
first_byte (b ∷ bs) = b

unfoldable pub u8 : Reader ℕ
u8 = take_bytes 1 >>= λ bs. pure (first_byte bs)

-- `value |= byte << shift` over the bytes taken. The bits below `shift` are all that `value` has, so
-- the bitwise or is a sum.
unfoldable pub joined : ℕ → ℕ → Bytes → ℕ
joined shift value [] = value
joined shift value (b ∷ bs) = joined (shift + 8) (value + b * 2 ^ shift) bs

unfoldable pub u16 : Reader ℕ
u16 = take_bytes 2 >>= λ bs. pure (joined 0 0 bs)

unfoldable pub u32 : Reader ℕ
u32 = take_bytes 4 >>= λ bs. pure (joined 0 0 bs)

unfoldable pub u64 : Reader ℕ
u64 = take_bytes 8 >>= λ bs. pure (joined 0 0 bs)

unfoldable pub bytes : Reader Bytes
bytes = u32 >>= take_bytes

unfoldable pub string : Reader Bytes
string = u32 >>= take_bytes

-- `static_cast<Enum>(reader.u8())`.
unfoldable pub code : {A : Type 0} ⦃e : Enum A⦄ → Reader A
code = u8 >>= λ value. pure (Codes.of_u8 value)

-- The `for` loop that reads `n` elements.
unfoldable pub items : {A : Type 0} → ℕ → Reader A → Reader (List A)
items zero read = pure []
items (suc n) read = read >>= λ x. items n read >>= λ xs. pure (x ∷ xs)

unfoldable pub counted : {A : Type 0} → Reader A → Reader (List A)
counted read = u32 >>= λ count. items count read

-- `done()`: the whole input is used up.
unfoldable pub done : {A : Type 0} → Decoded (A × Bytes) → Decoded A
done (ok (a, [])) = ok a
done (ok (a, b ∷ bs)) = err trailing_bytes
done (err e) = err e
