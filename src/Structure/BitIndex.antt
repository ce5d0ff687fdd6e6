-- ===== src/Structure/BitIndex.antt =====
-- src/structure/bitindex.rs: rank over a bit array, by the counts that `build_bitindex` stores for
-- each block of 64 bits and each superblock of 52 blocks.
pub mod Ones
pub mod Build
pub mod Counts
pub mod Rank
pub mod Maps
mod Examples
use terminus_store.Prelude.{
  ℕ, zero, suc, ◌+◌, ◌-◌, ◌*◌, ◌/◌, ◌%◌, ◌^◌, ◌≤◌, ◌<◌, ◌≡◌, arith, Bool, ltb, leb, ◌==◌, not, ◌&&◌,
  bit_and, if◌then◌else◌, List, [], ◌∷◌, ◌++◌, length, drop, take, map, Option, none, some,
}
use terminus_store.Prelude.Outcome.{Outcome, ok, err, panic, ◌>>=◌, assert}
use terminus_store.Structure.Word.{
  ByteOrder, read_u64_at, shr, checked_sub, leading_zeros, bit_length_loop,
}
use terminus_store.Structure.LogArray
use terminus_store.Structure.LogArray.{LogArray, LogArrayFileBuilder}
use terminus_store.Structure.BitArray.{BitArray}

abbrev pub sblock_size : ℕ
sblock_size = 52

pub record BitIndex : Type 0 where
  pub array : BitArray
  pub blocks : LogArray
  pub sblocks : LogArray

unfoldable pub from_parts : BitArray → LogArray → LogArray → Outcome BitIndex
from_parts array blocks sblocks =
    assert (sblocks.len == (blocks.len + sblock_size - 1) / sblock_size) (
      assert (blocks.len == (array.len + 63) / 64)
        (ok (record { array = array; blocks = blocks; sblocks = sblocks })))

-- `u64::count_ones`, on the lowest `fuel` bits.
unfoldable pub count_ones_loop : ℕ → ℕ → ℕ
count_ones_loop zero num = 0
count_ones_loop (suc fuel) num = num % 2 + count_ones_loop fuel (num / 2)

abbrev pub count_ones : ℕ → ℕ
count_ones num = count_ones_loop 64 num

-- `read_u64(self.block_bits(block_index))`: the slice has eight bytes or the code panics.
unfoldable pub block_num : ByteOrder → BitIndex → ℕ → Outcome ℕ
unfolding read_u64_at
block_num order self block_index = read_u64_at order self.array.buf (block_index * 8)

unfoldable pub rank1 : ByteOrder → BitIndex → ℕ → Outcome ℕ
unfolding block_num count_ones_loop shr
rank1 order self index = do
  let block_index = index / 64
  let sblock_index = block_index / sblock_size
  block_rank ← LogArray.entry order self.blocks block_index
  sblock_rank ← LogArray.entry order self.sblocks sblock_index
  bits_num ← block_num order self block_index
  shifted ← shr bits_num (63 - index % 64)
  before ← checked_sub sblock_rank block_rank
  ok (before + count_ones shifted)

unfoldable pub rank1_from_range : ByteOrder → BitIndex → ℕ → ℕ → Outcome ℕ
rank1_from_range order self start end = if start == end then ok 0 else (do
  last ← checked_sub end 1
  rank ← rank1 order self last
  let rest = (do before ← rank1 order self (start - 1); checked_sub rank before)
  if◌then◌else◌ (start == 0) (ok rank) rest)

unfoldable pub rank0 : ByteOrder → BitIndex → ℕ → Outcome ℕ
rank0 order self index = do r0 ← rank1 order self index; checked_sub (1 + index) r0

unfoldable pub rank0_from_range : ByteOrder → BitIndex → ℕ → ℕ → Outcome ℕ
rank0_from_range order self start end = if start == end then ok 0 else (do
  last ← checked_sub end 1
  rank ← rank0 order self last
  let rest = (do before ← rank0 order self (start - 1); checked_sub rank before)
  if◌then◌else◌ (start == 0) (ok rank) rest)

abbrev pub sum : List ℕ → ℕ
sum [] = 0
sum (x ∷ xs) = x + sum xs

-- The `for` loop over the ranks of a chunk: push what is left of the superblock's rank.
unfoldable pub push_blocks : LogArrayFileBuilder → ℕ → List ℕ → Outcome LogArrayFileBuilder
push_blocks blocks_builder sblock_subrank [] = ok blocks_builder
push_blocks blocks_builder sblock_subrank (block_rank ∷ block_ranks) = do
  blocks_builder' ← LogArray.push blocks_builder sblock_subrank
  rest ← checked_sub sblock_subrank block_rank
  push_blocks blocks_builder' rest block_ranks

-- The `while` loop over the chunks of at most `sblock_size` words.
unfoldable pub build_loop :
    List (List ℕ)
    → ℕ
    → LogArrayFileBuilder
    → LogArrayFileBuilder
    → Outcome (LogArrayFileBuilder × LogArrayFileBuilder)
unfolding push_blocks count_ones_loop
build_loop [] sblock_rank blocks_builder sblocks_builder = ok (blocks_builder, sblocks_builder)
build_loop (chunk ∷ stream) sblock_rank blocks_builder sblocks_builder = do
  let block_ranks = map (count_ones_loop 64) chunk
  let sblock_subrank = sum block_ranks
  let sblock_rank' = sblock_rank + sblock_subrank
  blocks_builder' ← push_blocks blocks_builder sblock_subrank block_ranks
  sblocks_builder' ← LogArray.push sblocks_builder sblock_rank'
  build_loop stream sblock_rank' blocks_builder' sblocks_builder'

-- The two files, from the chunks of the stream of words.
unfoldable pub build_bitindex : ByteOrder → List (List ℕ) → Outcome (List ℕ × List ℕ)
unfolding build_loop
build_bitindex order chunks = do
  (blocks_builder, sblocks_builder) ←
      build_loop chunks 0 (LogArray.new [] (64 - leading_zeros (sblock_size * 64)))
        (LogArray.new [] 64)
  ok (LogArray.finalize order blocks_builder, LogArray.finalize order sblocks_builder)
