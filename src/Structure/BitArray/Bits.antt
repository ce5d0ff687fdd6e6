-- ===== src/Structure/BitArray/Bits.antt =====
-- src/structure/bititer.rs, and the stream of bits of src/structure/bitarray.rs.
use terminus_store.Prelude.{
  ℕ, zero, suc, ◌-◌, ◌/◌, bit_and, Bool, not, ◌==◌, if◌then◌else◌, List, [], ◌∷◌, ◌++◌, length,
  drop, take, map, Option, none, some,
}
use terminus_store.Prelude.Outcome.{Outcome, ok, err, panic, invalid_data}
use terminus_store.Structure.Framed.{FramedRead}
use terminus_store.Structure.Word.{ByteOrder}
use terminus_store.Structure.BitArray.{
  ParseResult, parsed, rejected, panicked, validate_input_buf_size, read_control_word,
  bitarray_stream_blocks,
}

pub record BitIter : Type 0 where
  pub value : ℕ
  pub mask : ℕ

abbrev pub new : ℕ → BitIter
new value = record { value = value; mask = 0x8000_0000_0000_0000 }

unfoldable pub next : BitIter → Option Bool × BitIter
next self = if self.mask == 0 then (none, self) else (
  some (not (bit_and self.value self.mask == 0)),
  record { value = self.value; mask = self.mask / 2 },
)

-- The items until `next` returns none, at most `fuel` of them.
unfoldable pub collect : ℕ → BitIter → List Bool
unfolding next
collect zero self = []
collect (suc fuel) self =
    let step = next self in elim step.0 [ none ↦ [] | some bit ↦ bit ∷ collect fuel step.1 ]

-- A mask of one bit is shifted out after at most 64 calls.
abbrev pub block_bits : ℕ → List Bool
block_bits block = collect 65 (new block)

-- `map_ok` and `try_flatten`: the bits of each block, and errors as they are.
unfoldable pub flatten : List (Outcome ℕ) → List (Outcome Bool)
unfolding collect
flatten [] = []
flatten (ok block ∷ blocks) = map ok (block_bits block) ++ flatten blocks
flatten (err e ∷ blocks) = err e ∷ flatten blocks
flatten (panic ∷ blocks) = panic ∷ []

-- `bitarray_len_from_file`, on the bytes of the file.
unfoldable pub bitarray_len_from_file : ByteOrder → List ℕ → ParseResult ℕ
unfolding read_control_word
bitarray_len_from_file order file = elim (validate_input_buf_size (length file)) [
  | some e ↦ rejected e
  | none ↦ read_control_word order (drop (length file - 8) file) (length file)
]

-- `bitarray_stream_bits`: the bits of the blocks, cut off after the length. A `BitArrayError` becomes
-- an `io::Error`.
unfoldable pub bitarray_stream_bits :
    FramedRead → ByteOrder → List ℕ → Outcome (List (Outcome Bool))
bitarray_stream_bits framed order file = elim (bitarray_len_from_file order file) [
  | parsed len ↦ ok (take len (flatten (bitarray_stream_blocks framed order file)))
  | rejected e ↦ err invalid_data
  | panicked ↦ panic
]
