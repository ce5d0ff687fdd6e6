-- ===== src/Structure/LogArray.antt =====
-- src/structure/logarray.rs: arrays of integers of a fixed width, packed into 64-bit words. A file
-- that is written to is the list of its bytes, and takes every write.
pub mod Fields
pub mod Stream
pub mod Push
pub mod Step
pub mod Invariant
pub mod Entry
pub mod RoundTrip
pub mod Finalize
pub mod Slice
pub mod Correct
pub mod PushAll
mod Examples
use terminus_store.Prelude.{
  ℕ, zero, suc, ◌+◌, ◌-◌, ◌*◌, ◌/◌, ◌%◌, ◌^◌, ◌≤◌, ◌<◌, ◌≡◌, bit_and, bit_or, arith, Bool, not,
  true, false, ◌&&◌, ◌||◌, ltb, leb, ◌==◌, if◌then◌else◌, List, [], ◌∷◌, ◌++◌, length, get_or, drop,
  set, replicate, Option, none, some,
}
use terminus_store.Prelude.Outcome.{Outcome, ok, err, panic, ◌>>=◌, assert, invalid_data}
use terminus_store.Structure.Word.{
  shl, shr, leading_zeros, bit_length_loop, checked_add, checked_sub, to_be_bytes, ByteOrder,
  read_u64_at, read_u32_at,
}

pub record LogArray : Type 0 where
  pub first : ℕ
  pub len : ℕ
  pub width : ℕ
  pub input_buf : List ℕ

pub data LogArrayError : Type 0 where
  input_buffer_too_small : ℕ → LogArrayError
  width_too_large : ℕ → LogArrayError
  unexpected_input_buffer_size : ℕ → ℕ → ℕ → ℕ → LogArrayError

-- What `parse` comes to: an array, one of its errors, or a panic.
pub data ParseResult {ℓ} (A : Type ℓ) : Type ℓ where
  parsed : A → ParseResult A
  rejected : LogArrayError → ParseResult A
  panicked : ParseResult A

abbrev pub validate_input_buf_size : ℕ → Option LogArrayError
validate_input_buf_size input_buf_size =
    if ltb input_buf_size 8 then some (input_buffer_too_small input_buf_size) else none

-- The sizes are below `2 ^ 64`: `len` has 32 bits and `width` is at most 64.
abbrev pub expected_buf_size : ℕ → ℕ → ℕ
expected_buf_size len width = (len * width + 127) / 2 ^ 6 * 2 ^ 3

abbrev pub validate_len_and_width : ℕ → ℕ → ℕ → Option LogArrayError
validate_len_and_width input_buf_size len width =
    if ltb 64 width
    then some (width_too_large width)
    else (if input_buf_size == expected_buf_size len width
        then none
        else some
            (unexpected_input_buffer_size input_buf_size (expected_buf_size len width) len width))

-- `buf[i]` on a slice of bytes.
abbrev pub byte_at : List ℕ → ℕ → ℕ
byte_at buf i = get_or buf i 0

unfoldable pub read_control_word : ByteOrder → List ℕ → ℕ → ParseResult (ℕ × ℕ)
unfolding read_u32_at
read_control_word order buf input_buf_size = elim (read_u32_at order buf 0) [
  | ok len ↦
      let width = byte_at buf 4 in
      elim (validate_len_and_width input_buf_size len width) [
        | none ↦ parsed (len, width)
        | some e ↦ rejected e
      ]
  | err e ↦ panicked
  | panic ↦ panicked
]

unfoldable pub parse : ByteOrder → List ℕ → ParseResult LogArray
unfolding read_control_word
parse order input_buf =
    let input_buf_size = length input_buf in
    elim (validate_input_buf_size input_buf_size) [
      | some e ↦ rejected e
      | none ↦ elim (read_control_word order (drop (input_buf_size - 8) input_buf) input_buf_size) [
        | parsed (len, width) ↦
            parsed (record { first = 0; len = len; width = width; input_buf = input_buf })
        | rejected e ↦ rejected e
        | panicked ↦ panicked
      ]
    ]

-- The part of `entry` that reads two words; `offset` is at most 63.
unfoldable pub read_bits : ℕ → ℕ → ℕ → ℕ → Outcome ℕ
unfolding shl shr
read_bits first_word second_word offset width = checked_sub 64 width >>= λ leading_zeros.
    if leb (offset + width) 64
    then (do shifted ← shl first_word offset; shr shifted leading_zeros)
    else (do
      let first_width = 64 - offset
      let second_width = width - first_width
      high ← shl first_word offset
      low ← shr high offset
      first_part ← shl low second_width
      second_part ← shr second_word (64 - second_width)
      ok (bit_or first_part second_part))

unfoldable pub entry : ByteOrder → LogArray → ℕ → Outcome ℕ
unfolding read_bits read_u64_at
entry order self index = assert (ltb index self.len) (do
  let bit_index = self.width * (self.first + index)
  let byte_index = bit_index / 2 ^ 6 * 2 ^ 3
  first_word ← read_u64_at order self.input_buf byte_index
  second_word ← read_u64_at order self.input_buf (byte_index + 8)
  read_bits first_word second_word (bit_and bit_index 0b11_1111) self.width)

-- The arguments are below `2 ^ 32`, which the conversions check.
unfoldable pub slice : LogArray → ℕ → ℕ → Outcome LogArray
slice self offset len = assert (ltb offset (2 ^ 32) && ltb len (2 ^ 32)) (do
  slice_end ← checked_add 32 offset len
  assert (leb slice_end self.len) (
      ok (record {
        first = self.first + offset;
        len = len;
        width = self.width;
        input_buf = self.input_buf;
      })))

pub record LogArrayFileBuilder : Type 0 where
  pub file : List ℕ
  pub width : ℕ
  pub current : ℕ
  pub offset : ℕ
  pub count : ℕ

unfoldable pub new : List ℕ → ℕ → LogArrayFileBuilder
new w width = record { file = w; width = width; current = 0; offset = 0; count = 0 }

-- The end of `push`, `current` holding the new bits: write the word if it is full.
unfoldable pub write_full : LogArrayFileBuilder → ℕ → ℕ → ℕ → Outcome LogArrayFileBuilder
unfolding shl
write_full self val current count =
    let offset = self.offset + self.width in
    if leb 64 offset
    then (do
      let file = self.file ++ to_be_bytes 8 current
      let rest = offset - 64
      next ← (if rest == 0 then ok 0 else shl val (64 - rest))
      ok (record self { file = file; current = next; offset = rest; count = count }))
    else ok (record self { current = current; offset = offset; count = count })

unfoldable pub push : LogArrayFileBuilder → ℕ → Outcome LogArrayFileBuilder
unfolding write_full shl shr
push self val = checked_sub 64 self.width >>= λ unused.
    if ltb (leading_zeros val) unused then err invalid_data else (do
      count ← checked_add 32 self.count 1
      high ← shl val unused
      bits ← shr high self.offset
      write_full self val (bit_or self.current bits) count)

unfoldable pub push_vec : LogArrayFileBuilder → List ℕ → Outcome LogArrayFileBuilder
push_vec self [] = ok self
push_vec self (val ∷ vals) = do self' ← push self val; push_vec self' vals

unfoldable pub finalize_data : LogArrayFileBuilder → List ℕ
finalize_data self =
    if bit_and (self.count * self.width) 0b11_1111 == 0
    then self.file
    else self.file ++ to_be_bytes 8 self.current

-- The control word: `write_u32` fills the first four of eight zero bytes, the width is the fifth.
abbrev pub control_word : ByteOrder → ℕ → ℕ → List ℕ
control_word order len width = set (order.write_u32 (replicate 8 0) len) 4 width

-- The file at the end.
unfoldable pub finalize : ByteOrder → LogArrayFileBuilder → List ℕ
unfolding finalize_data
finalize order self = finalize_data self ++ control_word order self.count self.width
