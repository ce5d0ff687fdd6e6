-- ===== src/Structure/AdjacencyList.antt =====
-- src/structure/adjacencylist.rs: pairs of numbers as an array of right-hand sides and an index of
-- the bits that end the left-hand sides.
pub mod Builder
pub mod Layout
pub mod Pairs
pub mod Stream
pub mod Parsed
pub mod Iterate
pub mod Rows
pub mod RowLayout
pub mod Segment
pub mod Lookup
pub mod Unordered
pub mod Positions
mod Examples
use terminus_store.Prelude.{
  ℕ, zero, suc, ◌+◌, ◌-◌, ◌*◌, ◌^◌, ◌<◌, ◌≡◌, arith, Bool, true, false, not, ltb, leb, ◌==◌, ◌&&◌,
  ◌||◌, if◌then◌else◌, Option, none, some, List, [], ◌∷◌, length,
}
use terminus_store.Prelude.Outcome.{Outcome, ok, err, panic, ◌>>=◌, assert, unwrap, invalid_data}
use terminus_store.Structure.Framed.{FramedRead}
use terminus_store.Structure.Word.{checked_add, ByteOrder, checked_sub}
use terminus_store.Structure.LogArray
use terminus_store.Structure.LogArray.{LogArray, LogArrayFileBuilder}
use terminus_store.Structure.EntryStream.{logarray_stream_entries}
use terminus_store.Structure.BitArray
use terminus_store.Structure.BitArray.{BitArrayFileBuilder}
use terminus_store.Structure.BitArray.Bits.{bitarray_stream_bits}
use terminus_store.Structure.BitIndex
use terminus_store.Structure.BitIndex.Maps.{unwrap_log, unwrap_bits}
use terminus_store.Structure.BitIndex.{BitIndex, rank1, build_bitindex}
use terminus_store.Structure.Select.{select1}

pub record AdjacencyList : Type 0 where
  pub nums : LogArray
  pub bits : BitIndex

-- The lengths are compared by a debug assertion.
unfoldable pub from_parts : LogArray → BitIndex → Outcome AdjacencyList
from_parts nums bits =
    assert (nums.len == bits.array.len) (ok (record { nums = nums; bits = bits }))

unfoldable pub parse : ByteOrder → List ℕ → List ℕ → List ℕ → List ℕ → Outcome AdjacencyList
parse order nums_slice bits_slice bits_block_slice bits_sblock_slice = do
  nums ← unwrap_log (LogArray.parse order nums_slice)
  bit_array ← unwrap_bits (BitArray.from_bits order bits_slice)
  bits_block_array ← unwrap_log (LogArray.parse order bits_block_slice)
  bits_sblock_array ← unwrap_log (LogArray.parse order bits_sblock_slice)
  bits ← BitIndex.from_parts bit_array bits_block_array bits_sblock_array
  from_parts nums bits

unfoldable pub left_count : ByteOrder → AdjacencyList → Outcome ℕ
left_count order self =
    if self.bits.array.len == 0 then ok 0 else rank1 order self.bits (self.bits.array.len - 1)

abbrev pub right_count : AdjacencyList → ℕ
right_count self = self.bits.array.len

unfoldable pub offset_for : ByteOrder → AdjacencyList → ℕ → Outcome ℕ
offset_for order self index = if index == 1 then ok 0 else (do
  before ← checked_sub index 1
  found ← select1 order self.bits before
  position ← unwrap found
  ok (position + 1))

unfoldable pub left_at_pos : ByteOrder → AdjacencyList → ℕ → Outcome ℕ
left_at_pos order self pos =
    if pos == 0 then ok 1 else (do rank ← rank1 order self.bits (pos - 1); ok (rank + 1))

unfoldable pub pair_at_pos : ByteOrder → AdjacencyList → ℕ → Outcome (ℕ × ℕ)
pair_at_pos order self pos = do
  let before = rank1 order self.bits (pos - 1)
  rank ← (if pos == 0 then ok 0 else before)
  right ← LogArray.entry order self.nums pos
  ok (rank + 1, right)

abbrev pub bit_at_pos : AdjacencyList → ℕ → Outcome Bool
bit_at_pos self pos = BitArray.get self.bits.array pos

abbrev pub num_at_pos : ByteOrder → AdjacencyList → ℕ → Outcome ℕ
num_at_pos order self pos = LogArray.entry order self.nums pos

-- `get`, behind its checks.
unfoldable pub get_slice : ByteOrder → AdjacencyList → ℕ → Outcome LogArray
get_slice order self index = do
  start ← offset_for order self index
  found ← select1 order self.bits index
  end ← unwrap found
  rest ← checked_sub end start
  LogArray.slice self.nums start (rest + 1)

unfoldable pub get : ByteOrder → AdjacencyList → ℕ → Outcome LogArray
get order self index =
    assert (leb 1 index)
      (do count ← left_count order self; assert (leb index count) (get_slice order self index))

-- The iterator, without the array and the index that it shares.
pub record AdjacencyListIterator : Type 0 where
  pub pos : ℕ
  pub left : ℕ

abbrev pub iter : AdjacencyListIterator
iter = record { pos = 0; left = 1 }

-- The `loop` of `next`; a round of fuel is a pass. Out of fuel it panics.
unfoldable pub next_loop :
    ByteOrder
    → AdjacencyList
    → ℕ
    → AdjacencyListIterator
    → Outcome (Option (ℕ × ℕ) × AdjacencyListIterator)
next_loop order list zero self = panic
next_loop order list (suc fuel) self = elim (leb list.bits.array.len self.pos) [
  | true ↦ ok (none, self)
  | false ↦ BitArray.get list.bits.array self.pos >>= λ bit.
      LogArray.entry order list.nums self.pos >>= λ num.
      let left = if bit then self.left + 1 else self.left in
      let self' : AdjacencyListIterator = record { pos = self.pos + 1; left = left } in
      elim (num == 0) [
        | true ↦ next_loop order list fuel self'
        | false ↦ ok (some (self.left, num), self')
      ]
]

unfoldable pub next :
    ByteOrder
    → AdjacencyList
    → AdjacencyListIterator
    → Outcome (Option (ℕ × ℕ) × AdjacencyListIterator)
next order list self = next_loop order list (suc (list.bits.array.len - self.pos)) self

-- The pairs until `next` returns none, at most `fuel` of them.
unfoldable pub collect :
    ByteOrder → AdjacencyList → ℕ → AdjacencyListIterator → Outcome (List (ℕ × ℕ))
collect order list zero self = ok []
collect order list (suc fuel) self = next order list self >>= λ step. elim step.0 [
  | none ↦ ok []
  | some pair ↦ collect order list fuel step.1 >>= λ pairs. ok (pair ∷ pairs)
]

-- `AdjacencyBitCountStream`: the left-hand side at each bit, from its `count`.
unfoldable pub bit_count_stream : ℕ → List (Outcome Bool) → List (Outcome ℕ)
bit_count_stream count [] = []
bit_count_stream count (ok b ∷ stream) = elim (if b then checked_add 64 count 1 else ok count) [
  | ok next ↦ ok count ∷ bit_count_stream next stream
  | err e ↦ err e ∷ bit_count_stream count stream
  | panic ↦ panic ∷ []
]
bit_count_stream count (err e ∷ stream) = err e ∷ bit_count_stream count stream
bit_count_stream count (panic ∷ stream) = panic ∷ []

-- The items of both streams, which are asked for before `left?` and `right?`.
abbrev pub zipped : Outcome ℕ → Outcome ℕ → Outcome (ℕ × ℕ)
zipped panic right = panic
zipped (ok left) right = right >>= λ r. ok (left, r)
zipped (err e) panic = panic
zipped (err e) (ok right) = err e
zipped (err e) (err e') = err e

-- `try_filter` on the right-hand side, for an item and those behind it.
abbrev pub try_filter : Outcome (ℕ × ℕ) → List (Outcome (ℕ × ℕ)) → List (Outcome (ℕ × ℕ))
try_filter (ok pair) rest = if pair.1 == 0 then rest else ok pair ∷ rest
try_filter (err e) rest = err e ∷ rest
try_filter panic rest = panic ∷ []

-- `zip`, which ends with the shorter stream, and what is done to its items.
unfoldable pub zip_stream : List (Outcome ℕ) → List (Outcome ℕ) → List (Outcome (ℕ × ℕ))
zip_stream [] rights = []
zip_stream (left ∷ lefts) [] = []
zip_stream (left ∷ lefts) (right ∷ rights) =
    try_filter (zipped left right) (zip_stream lefts rights)

unfoldable pub adjacency_list_stream_pairs :
    FramedRead → ByteOrder → List ℕ → List ℕ → Outcome (List (Outcome (ℕ × ℕ)))
adjacency_list_stream_pairs framed order bits_file nums_file = do
  bits ← bitarray_stream_bits framed order bits_file
  nums ← logarray_stream_entries framed order nums_file
  ok (zip_stream (bit_count_stream 1 bits) nums)
