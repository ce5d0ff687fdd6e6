-- ===== src/Structure/BitArray.antt =====
-- src/structure/bitarray.rs and src/structure/bititer.rs: arrays of bits in 64-bit words, the most
-- significant bit first, with a control word that counts the bits.
pub mod Push
pub mod Get
pub mod Blocks
pub mod Bits
pub mod Stream
pub mod Iter
mod Examples
use terminus_store.Prelude.{
  ℕ, zero, suc, ◌+◌, ◌-◌, ◌*◌, ◌/◌, ◌%◌, ◌^◌, ◌≤◌, ◌<◌, ◌≡◌, bit_and, bit_or, arith, Bool, not,
  true, false, ltb, leb, ◌==◌, if◌then◌else◌, List, [], ◌∷◌, ◌++◌, length, get_or, drop, take,
  Option, none, some, map,
}
use terminus_store.Prelude.Outcome.{Outcome, ok, err, panic, ◌>>=◌, assert}
use terminus_store.Structure.Framed.{Decode, FramedRead, open_file, yields}
use terminus_store.Structure.Word.{to_be_bytes, ByteOrder, read_u64_at}

pub record BitArray : Type 0 where
  pub len : ℕ
  pub buf : List ℕ

pub data BitArrayError : Type 0 where
  input_buffer_too_small : ℕ → BitArrayError
  unexpected_input_buffer_size : ℕ → ℕ → ℕ → BitArrayError

pub data ParseResult {ℓ} (A : Type ℓ) : Type ℓ where
  parsed : A → ParseResult A
  rejected : BitArrayError → ParseResult A
  panicked : ParseResult A

abbrev pub validate_input_buf_size : ℕ → Option BitArrayError
validate_input_buf_size input_buf_size =
    if ltb input_buf_size 8 then some (input_buffer_too_small input_buf_size) else none

-- `len >> 6 << 3` and the control word, and one word more where bits are left over.
abbrev pub expected_buf_size : ℕ → ℕ
expected_buf_size len =
    let after_shifting = len / 2 ^ 6 * 2 ^ 3 in
    if bit_and len 63 == 0 then after_shifting + 8 else after_shifting + 16

abbrev pub validate_len : ℕ → ℕ → Option BitArrayError
validate_len input_buf_size len =
    if input_buf_size == expected_buf_size len
    then none
    else some (unexpected_input_buffer_size input_buf_size (expected_buf_size len) len)

unfoldable pub read_control_word : ByteOrder → List ℕ → ℕ → ParseResult ℕ
unfolding read_u64_at
read_control_word order buf input_buf_size = elim (read_u64_at order buf 0) [
  | ok len ↦ elim (validate_len input_buf_size len) [ none ↦ parsed len | some e ↦ rejected e ]
  | err e ↦ panicked
  | panic ↦ panicked
]

-- `split_off` leaves the part in front in `buf`.
unfoldable pub from_bits : ByteOrder → List ℕ → ParseResult BitArray
unfolding read_control_word
from_bits order buf =
    let input_buf_size = length buf in
    elim (validate_input_buf_size input_buf_size) [
      | some e ↦ rejected e
      | none ↦ elim (read_control_word order (drop (input_buf_size - 8) buf) input_buf_size) [
        | parsed len ↦ parsed (record { len = len; buf = take (input_buf_size - 8) buf })
        | rejected e ↦ rejected e
        | panicked ↦ panicked
      ]
    ]

-- `buf[i]`, which panics out of bounds.
abbrev pub index_byte : List ℕ → ℕ → Outcome ℕ
index_byte buf i = if ltb i (length buf) then ok (get_or buf i 0) else panic

unfoldable pub get : BitArray → ℕ → Outcome Bool
get self index = assert (ltb index self.len) (do
  byte ← index_byte self.buf (index / 8)
  let mask = 0b1000_0000 / 2 ^ (index % 8)
  ok (not (bit_and byte mask == 0)))

pub record BitArrayFileBuilder : Type 0 where
  pub dest : List ℕ
  pub current : ℕ
  pub count : ℕ

unfoldable pub new : List ℕ → BitArrayFileBuilder
new dest = record { dest = dest; current = 0; count = 0 }

-- The word with the bit, and the end of `push`: write the word if the count is at a boundary.
-- The count stays below `2 ^ 64`.
abbrev pub with_bit : BitArrayFileBuilder → Bool → ℕ
with_bit self bit =
    if bit
    then bit_or self.current (0x8000_0000_0000_0000 / 2 ^ bit_and self.count 0b11_1111)
    else self.current

unfoldable pub push : BitArrayFileBuilder → Bool → BitArrayFileBuilder
push self bit =
    let current = with_bit self bit in
    let count = self.count + 1 in
    if bit_and count 0b11_1111 == 0
    then record { dest = self.dest ++ to_be_bytes 8 current; current = 0; count = count }
    else record { dest = self.dest; current = current; count = count }

unfoldable pub push_all : BitArrayFileBuilder → List Bool → BitArrayFileBuilder
push_all self [] = self
push_all self (bit ∷ stream) = push_all (push self bit) stream

unfoldable pub finalize_data : BitArrayFileBuilder → List ℕ
finalize_data self =
    if bit_and self.count 0b11_1111 == 0 then self.dest else self.dest ++ to_be_bytes 8 self.current

-- The file at the end.
unfoldable pub finalize : BitArrayFileBuilder → List ℕ
unfolding finalize_data
finalize self = finalize_data self ++ to_be_bytes 8 self.count

-- What one call of `BitArrayBlockDecoder::decode` leaves: the decoder's `readahead`, the bytes not
-- read yet, and the block it returns.
pub record Decoded : Type 0 where
  pub readahead : Option ℕ
  pub bytes : List ℕ
  pub item : Option ℕ

-- The word the call reads and the bytes behind it, once there are eight.
abbrev split_word : ByteOrder → List ℕ → ℕ × List ℕ
split_word order bytes = (order.read_u64 (take 8 bytes), drop 8 bytes)

-- `decode` where `readahead` holds a word.
unfoldable pub decode_ahead : ByteOrder → ℕ → List ℕ → Decoded
decode_ahead order word bytes =
    if ltb (length bytes) 8
    then record { readahead = some word; bytes = bytes; item = none }
    else record {
      readahead = some (split_word order bytes).0;
      bytes = (split_word order bytes).1;
      item = some word;
    }

unfoldable pub decode : ByteOrder → Option ℕ → List ℕ → Decoded
unfolding decode_ahead
decode order (some word) bytes = decode_ahead order word bytes
decode order none bytes =
    if ltb (length bytes) 8
    then record { readahead = none; bytes = bytes; item = none }
    else decode_ahead order (split_word order bytes).0 (split_word order bytes).1

-- What `FramedRead` gets of a call, which does not fail.
abbrev pub block_decode : ByteOrder → Decode (Option ℕ)
block_decode order readahead bytes =
    let step = decode order readahead bytes in ok (step.item, step.readahead, step.bytes)

-- `bitarray_stream_blocks`: each block takes eight bytes, and the last call returns none.
unfoldable pub bitarray_stream_blocks : FramedRead → ByteOrder → List ℕ → List (Outcome ℕ)
unfolding yields
bitarray_stream_blocks framed order file =
    yields framed (block_decode order) (suc (length file)) (open_file none file)
