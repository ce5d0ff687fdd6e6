-- ===== src/Structure/EntryStream.antt =====
-- src/structure/logarray.rs: `LogArrayDecoder` and the stream of entries of a file.
pub mod Decoder
pub mod Step
pub mod Expects
pub mod Correct
mod Examples
use terminus_store.Prelude.{
  ℕ, zero, suc, ◌+◌, ◌-◌, ◌<◌, ◌≡◌, bit_or, arith, Bool, ltb, leb, ◌==◌, if◌then◌else◌, List, [],
  ◌∷◌, length, drop, take, Option, none, some,
}
use terminus_store.Prelude.Outcome.{Outcome, ok, err, panic, invalid_data, ◌>>=◌}
use terminus_store.Structure.Framed.{FramedRead, open_file, yields}
use terminus_store.Structure.Word.{ByteOrder, shl, shr, checked_sub}
use terminus_store.Structure.LogArray.{
  ParseResult, parsed, rejected, panicked, validate_input_buf_size, read_control_word,
}

pub record LogArrayDecoder : Type 0 where
  pub current : ℕ
  pub width : ℕ
  pub offset : ℕ
  pub remaining : ℕ

abbrev pub new_unchecked : ℕ → ℕ → LogArrayDecoder
new_unchecked width remaining = record {
  current = 0;
  width = width;
  offset = 64;
  remaining = remaining;
}

-- The decoder after an element, with its new word and offset.
abbrev pub advance : LogArrayDecoder → ℕ → ℕ → LogArrayDecoder
advance self current offset = record {
  current = current;
  width = self.width;
  offset = offset;
  remaining = self.remaining - 1;
}

-- The end of `decode`, once a second word is read.
unfoldable pub decode_second :
    LogArrayDecoder → ℕ → ℕ → List ℕ → Outcome (Option ℕ × LogArrayDecoder × List ℕ)
decode_second self leading_zeros second_word bytes =
    if self.offset == 64
    then (do
      value ← shr second_word leading_zeros
      ok (some value, advance self second_word self.width, bytes))
    else (do
      let first_width = 64 - self.offset
      let second_width = self.width - first_width
      high ← shl self.current self.offset
      low ← shr high self.offset
      first_part ← shl low second_width
      second_part ← shr second_word (64 - second_width)
      ok (some (bit_or first_part second_part), advance self second_word second_width, bytes))

-- The decoder and the bytes that a call leaves stand beside the element it returns.
unfoldable pub decode :
    ByteOrder → LogArrayDecoder → List ℕ → Outcome (Option ℕ × LogArrayDecoder × List ℕ)
decode order self bytes =
    if self.remaining == 0
    then ok (none, self, [])
    else (checked_sub 64 self.width >>= λ leading_zeros.
        if leb (self.offset + self.width) 64
        then (do
          shifted ← shl self.current self.offset
          value ← shr shifted leading_zeros
          ok (some value, advance self self.current (self.offset + self.width), bytes))
        else if ltb (length bytes) 8
        then ok (none, self, bytes)
        else decode_second self leading_zeros (order.read_u64 (take 8 bytes)) (drop 8 bytes))

unfoldable pub logarray_file_get_length_and_width : ByteOrder → List ℕ → ParseResult (ℕ × ℕ)
logarray_file_get_length_and_width order file = elim (validate_input_buf_size (length file)) [
  | some e ↦ rejected e
  | none ↦ read_control_word order (drop (length file - 8) file) (length file)
]

-- `logarray_stream_entries`: each call but the last returns a value. A `LogArrayError` becomes an
-- `io::Error`.
unfoldable pub logarray_stream_entries :
    FramedRead → ByteOrder → List ℕ → Outcome (List (Outcome ℕ))
logarray_stream_entries framed order file = elim (logarray_file_get_length_and_width order file) [
  | parsed control ↦ ok (
      yields framed (decode order) (suc control.0)
        (open_file (new_unchecked control.1 control.0) file))
  | rejected e ↦ err invalid_data
  | panicked ↦ panic
]
