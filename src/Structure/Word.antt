-- ===== src/Structure/Word.antt =====
-- Machine words as the modules of src/structure use them: the shifts and `leading_zeros` of a u64,
-- `to_be_bytes`, and the crate `byteorder`, which is a parameter.
pub mod Bytes
pub mod Sample
use terminus_store.Prelude.{
  ℕ, zero, suc, ◌+◌, ◌-◌, ◌*◌, ◌/◌, ◌%◌, ◌^◌, ◌≤◌, ◌<◌, ◌≡◌, arith, Bool, ltb, leb, ◌==◌,
  if◌then◌else◌, List, [], ◌∷◌, ◌++◌, length, drop,
}
use terminus_store.Prelude.Outcome.{Outcome, ok, panic}

-- `x << s` and `x >> s` on a u64; a shift by 64 or more overflows.
unfoldable pub shl : ℕ → ℕ → Outcome ℕ
shl x s = if ltb s 64 then ok (x * 2 ^ s % 2 ^ 64) else panic

unfoldable pub shr : ℕ → ℕ → Outcome ℕ
shr x s = if ltb s 64 then ok (x / 2 ^ s) else panic

-- The number of binary digits of a number below `2 ^ fuel`.
unfoldable pub bit_length_loop : ℕ → ℕ → ℕ
bit_length_loop zero num = 0
bit_length_loop (suc fuel) num =
    let rest = bit_length_loop fuel (num / 2) in if num == 0 then 0 else rest + 1

-- `u64::leading_zeros`.
abbrev pub leading_zeros : ℕ → ℕ
leading_zeros num = 64 - bit_length_loop 64 num

-- `a + b` on an unsigned integer of `w` bits.
abbrev pub checked_add : ℕ → ℕ → ℕ → Outcome ℕ
checked_add w a b = if ltb (a + b) (2 ^ w) then ok (a + b) else panic

-- `a - b` on an unsigned integer.
abbrev pub checked_sub : ℕ → ℕ → Outcome ℕ
checked_sub a b = if leb b a then ok (a - b) else panic

-- `to_be_bytes` of an integer of `n` bytes.
unfoldable pub to_be_bytes : ℕ → ℕ → List ℕ
to_be_bytes zero x = []
to_be_bytes (suc n) x = (x / 256 ^ n % 256) ∷ to_be_bytes n x

-- The number that bytes denote, the most significant first.
unfoldable pub be_value : List ℕ → ℕ
be_value [] = 0
be_value (b ∷ bs) = b * 256 ^ length bs + be_value bs

abbrev pub AllBytes : List ℕ → Type 0
AllBytes [] = Unit {0}
AllBytes (b ∷ bs) = (b < 256) × AllBytes bs

-- `byteorder::BigEndian`: a read takes its bytes from the front of a slice that has as many, and
-- a write replaces the bytes at the front.
pub record ByteOrder : Type 0 where
  pub read_u64 : List ℕ → ℕ
  pub read_u32 : List ℕ → ℕ
  pub read_u64_front :
      (bs rest : List ℕ) → length bs ≡ 8 → AllBytes bs → read_u64 (bs ++ rest) ≡ be_value bs
  pub read_u32_front :
      (bs rest : List ℕ) → length bs ≡ 4 → AllBytes bs → read_u32 (bs ++ rest) ≡ be_value bs
  pub write_u32 : List ℕ → ℕ → List ℕ
  pub write_u32_front :
      (buf : List ℕ) (n : ℕ) → 4 ≤ length buf → write_u32 buf n ≡ to_be_bytes 4 n ++ drop 4 buf

-- `BigEndian::read_u64(&buf[i..])`, which panics where fewer than eight bytes are left.
unfoldable pub read_u64_at : ByteOrder → List ℕ → ℕ → Outcome ℕ
read_u64_at order buf i =
    if leb (i + 8) (length buf) then ok (order.read_u64 (drop i buf)) else panic

unfoldable pub read_u32_at : ByteOrder → List ℕ → ℕ → Outcome ℕ
read_u32_at order buf i =
    if leb (i + 4) (length buf) then ok (order.read_u32 (drop i buf)) else panic
