-- ===== src/Structure/VByte.antt =====
-- src/structure/vbyte.rs: the variable-byte encoding of a u64. A slice is a list of bytes; `&mut`
-- slices are passed on and returned. A u64 is a number below `2 ^ 64`.
pub mod Encode
pub mod Decode
pub mod RoundTrip
mod Examples
use terminus_store.Prelude.{
  ℕ, zero, suc, ◌+◌, ◌-◌, ◌*◌, ◌/◌, ◌%◌, ◌^◌, ◌≤◌, ◌<◌, ◌≡◌, bit_and, bit_or, arith, lt_wf, Bool,
  ◌&&◌, ltb, leb, ◌==◌, if◌then◌else◌, List, [], ◌∷◌, length, set, replicate, Option, none, some,
}
use terminus_store.Structure.Word.{bit_length_loop, leading_zeros}
use mathlib.Core.Logic.{dite}
use mathlib.Core.WellFounded.{Acc}
use native.Mathlib.Decide.{dec_le}

abbrev pub max_encoding_len : ℕ
max_encoding_len = 10

unfoldable pub encoding_len : ℕ → ℕ
unfolding bit_length_loop
encoding_len zero = 1
encoding_len (suc num) = (64 + 6 - leading_zeros (suc num)) / 7

pub data DecodeError : Type 0 where
  encoded_value_too_large unexpected_end_of_buffer unexpected_encoding_len : DecodeError

pub data Result {ℓ} (A : Type ℓ) : Type ℓ where
  ok : A → Result A
  err : DecodeError → Result A

abbrev pub is_last_encoded_byte : ℕ → Bool
is_last_encoded_byte byte = leb 0x80 byte

abbrev pub clear_msb : ℕ → ℕ
clear_msb byte = bit_and byte 0x7f

abbrev pub set_msb : ℕ → ℕ
set_msb byte = bit_or byte 0x80

abbrev pub max_byte_too_large : ℕ → ℕ → Bool
max_byte_too_large shift byte = shift == 63 && ltb 0x81 byte

-- `x << shift` on a u64.
abbrev pub shl64 : ℕ → ℕ → ℕ
shl64 x shift = x * 2 ^ shift % 2 ^ 64

-- The list is what the `for` loop has not reached, `i` the index of its head.
unfoldable pub decode_loop : List ℕ → ℕ → ℕ → ℕ → Result (ℕ × ℕ)
decode_loop [] i num shift = err unexpected_end_of_buffer
decode_loop (b ∷ buf) i num shift =
    let rest = decode_loop buf (i + 1) (bit_or num (shl64 b shift)) (shift + 7) in
    if is_last_encoded_byte b
    then (if max_byte_too_large shift b
        then err encoded_value_too_large
        else ok (bit_or num (shl64 (clear_msb b) shift), i + 1))
    else if ltb 64 (shift + 7)
    then err unexpected_encoding_len
    else rest

unfoldable pub decode : List ℕ → Result (ℕ × ℕ)
unfolding decode_loop
decode buf = decode_loop buf 0 0 0

pub shift_shrinks : (num : ℕ) → 0x80 ≤ num → num / 2 ^ 7 < num
shift_shrinks num h = omega arith

-- The `while` loop, on the buffer, the number and the buffer index; `num as u8` is `num % 256`.
-- A write out of bounds, which the source leaves undefined, changes nothing here.
encode_loop : List ℕ → (num : ℕ) → ℕ → Acc ◌<◌ num → List ℕ × ℕ
encode_loop buf num i (Acc.intro _ smaller) =
    dite (dec_le 0x80 num)
      (λ more.
        encode_loop (set buf i (clear_msb (num % 256))) (num / 2 ^ 7) (i + 1)
          (smaller _ (shift_shrinks num more)))
      (λ _. (set buf i (set_msb (num % 256)), i + 1))

unfoldable pub encode_unchecked : List ℕ → ℕ → List ℕ × ℕ
unfolding encode_loop lt_wf dec_le
encode_unchecked buf num = encode_loop buf num 0 (lt_wf.apply num)

-- The buffer after the call, and the encoding length if the buffer was large enough.
unfoldable pub encode_slice : List ℕ → ℕ → List ℕ × Option ℕ
unfolding encode_unchecked encoding_len
encode_slice buf num =
    if ltb (length buf) (encoding_len num)
    then (buf, none)
    else (let (buf', len) = encode_unchecked buf num in (buf', some len))

unfoldable pub encode_vec : ℕ → List ℕ
unfolding encode_unchecked encoding_len
encode_vec num = (encode_unchecked (replicate (encoding_len num) 0) num).0
