-- ===== src/Protocol/Writer.antt =====
-- The class `Writer` of src/core/yisync_protocol.cpp. A call appends to `out_`: each function below
-- is what its call appends, and a sequence of calls on a fresh writer is their concatenation.
use yisync.Common.{ℕ, zero, suc, ◌+◌, ◌/◌, ◌%◌, ◌^◌, List, [], ◌∷◌, ◌++◌, length, u32_mod}
use yisync.Protocol.Codes.{Enum}
use yisync.Protocol.Codes
use yisync.Protocol.Message.{Bytes}

-- One call after another.
infixr 60 ◌⨟◌
abbrev pub ◌⨟◌ : Bytes → Bytes → Bytes
a ⨟ b = a ++ b

unfoldable pub u8 : ℕ → Bytes
u8 value = (value % 256) ∷ []

-- `for (shift = ..; ..; shift += 8) push((value >> shift) & 0xff)`, with `n` rounds left.
unfoldable pub shifted_bytes : ℕ → ℕ → ℕ → Bytes
shifted_bytes zero shift value = []
shifted_bytes (suc n) shift value = (value / 2 ^ shift % 256) ∷ shifted_bytes n (shift + 8) value

unfoldable pub u16 : ℕ → Bytes
unfolding shifted_bytes
u16 value = shifted_bytes 2 0 value

unfoldable pub u32 : ℕ → Bytes
unfolding shifted_bytes
u32 value = shifted_bytes 4 0 value

unfoldable pub u64 : ℕ → Bytes
unfolding shifted_bytes
u64 value = shifted_bytes 8 0 value

unfoldable pub bytes : Bytes → Bytes
bytes value = u32 (length value % u32_mod) ++ value

unfoldable pub string : Bytes → Bytes
string value = u32 (length value % u32_mod) ++ value

-- `writer.u8(to_u8(value))`.
unfoldable pub code : {A : Type 0} ⦃e : Enum A⦄ → A → Bytes
code value = u8 (Codes.to_u8 value)

-- A count, then each element.
unfoldable pub items {ℓ} : {A : Type ℓ} → (A → Bytes) → List A → Bytes
items write [] = []
items write (x ∷ xs) = write x ++ items write xs

unfoldable pub counted {ℓ} : {A : Type ℓ} → (A → Bytes) → List A → Bytes
counted write xs = u32 (length xs % u32_mod) ++ items write xs
