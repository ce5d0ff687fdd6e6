-- ===== src/Structure/Select.antt =====
-- src/structure/bitindex.rs: `select1` and `select0`, the position of the bit with a given rank.
pub mod Search
pub mod Scan
pub mod Words
pub mod Find
pub mod Reads
pub mod Correct
pub mod Build
pub mod Range
mod Examples
use terminus_store.Prelude.{
  ℕ, zero, suc, ◌+◌, ◌-◌, ◌*◌, ◌/◌, ◌%◌, ◌^◌, ◌<◌, ◌≡◌, bit_and, arith, Bool, true, false, not, ltb,
  leb, ◌==◌, ◌&&◌, ◌||◌, if◌then◌else◌, Option, none, some,
}
use terminus_store.Prelude.Outcome.{Outcome, ok, err, panic, ◌>>=◌, assert}
use terminus_store.Structure.Word.{checked_add, ByteOrder, checked_sub}
use terminus_store.Structure.LogArray
use terminus_store.Structure.BitArray
use terminus_store.Structure.BitIndex.{BitIndex, sblock_size, block_num, rank1, rank0}

-- The loop of `select1_sblock` and of `select0_sblock`, which differ in the rank that they read of a
-- superblock. A round of fuel is a pass; out of fuel it panics, which the callers do not reach.
unfoldable pub sblock_loop : (ℕ → Outcome ℕ) → ℕ → ℕ → ℕ → ℕ → Outcome ℕ
sblock_loop rank_of rank zero start end = panic
sblock_loop rank_of rank (suc fuel) start end =
    let mid = (start + end) / 2 in
    elim (start == end) [
      | true ↦ ok mid
      | false ↦ rank_of mid >>= λ r. elim (ltb r rank) [
        | true ↦ sblock_loop rank_of rank fuel (mid + 1) end
        | false ↦ sblock_loop rank_of rank fuel start mid
      ]
    ]

-- The loop of `select1_block` and of `select0_block`.
unfoldable pub block_loop : (ℕ → Outcome ℕ) → ℕ → ℕ → ℕ → ℕ → Outcome ℕ
block_loop rank_of subrank zero start end = panic
block_loop rank_of subrank (suc fuel) start end =
    let mid = (start + end + 1) / 2 in
    elim (start == end) [
      | true ↦ ok mid
      | false ↦ rank_of mid >>= λ r. elim (ltb subrank r) [
        | true ↦ block_loop rank_of subrank fuel mid end
        | false ↦ block_loop rank_of subrank fuel start (mid - 1)
      ]
    ]

-- The superblock's ones up to its end, and the zeros up to there, as if it was full.
unfoldable pub sblock_rank1 : ByteOrder → BitIndex → ℕ → Outcome ℕ
sblock_rank1 order self mid = LogArray.entry order self.sblocks mid

unfoldable pub sblock_rank0 : ByteOrder → BitIndex → ℕ → Outcome ℕ
sblock_rank0 order self mid = do
  ones ← LogArray.entry order self.sblocks mid
  checked_sub ((1 + mid) * sblock_size * 64) ones

-- What is left of them at a block.
unfoldable pub block_rank1 : ByteOrder → BitIndex → ℕ → Outcome ℕ
block_rank1 order self mid = LogArray.entry order self.blocks mid

unfoldable pub block_rank0 : ByteOrder → BitIndex → ℕ → Outcome ℕ
block_rank0 order self mid = do
  ones ← LogArray.entry order self.blocks mid
  checked_sub ((sblock_size - mid % sblock_size) * 64) ones

unfoldable pub select_sblock : (ℕ → Outcome ℕ) → BitIndex → ℕ → Outcome ℕ
select_sblock rank_of self rank = do
  end ← checked_sub self.sblocks.len 1
  sblock_loop rank_of rank self.sblocks.len 0 end

unfoldable pub select_block : (ℕ → Outcome ℕ) → BitIndex → ℕ → ℕ → Outcome ℕ
select_block rank_of self sblock subrank = do
  last ← checked_sub self.blocks.len 1
  let start = sblock * sblock_size
  let end = start + sblock_size - 1
  block_loop rank_of subrank sblock_size start (if◌then◌else◌ (ltb last end) last end)

-- `for i in 0..64`, on the word whose bits up to `i` are shifted out; `wanted` is the bit that counts.
unfoldable pub scan_loop : Bool → ℕ → ℕ → ℕ → ℕ → ℕ → Outcome (Option ℕ)
scan_loop wanted block zero i bits_num tally = ok none
scan_loop wanted block (suc fuel) i bits_num tally =
    let set = not (bit_and bits_num 0x8000_0000_0000_0000 == 0) in
    elim (if wanted then set else not set) [
      | false ↦ scan_loop wanted block fuel (i + 1) (bits_num * 2 % 2 ^ 64) tally
      | true ↦ checked_sub tally 1 >>= λ left. elim (left == 0) [
        | true ↦ ok (some (block * 64 + i))
        | false ↦ scan_loop wanted block fuel (i + 1) (bits_num * 2 % 2 ^ 64) left
      ]
    ]

-- What `select1` and `select0` do with the ranks that each of them reads.
unfoldable pub select_with :
    ByteOrder → Bool → (ℕ → Outcome ℕ) → (ℕ → Outcome ℕ) → BitIndex → ℕ → Outcome (Option ℕ)
select_with order wanted sblock_rank_of block_rank_of self rank = do
  sblock ← select_sblock sblock_rank_of self rank
  sblock_rank ← sblock_rank_of sblock
  let rest = (do
    subrank ← checked_sub sblock_rank rank
    block ← select_block block_rank_of self sblock subrank
    block_subrank ← block_rank_of block
    before ← checked_sub sblock_rank block_subrank
    rank_in_block ← checked_sub rank before
    assert (leb rank_in_block 64) (do
      bits_num ← block_num order self block
      scan_loop wanted block 64 0 bits_num rank_in_block))
  if◌then◌else◌ (ltb sblock_rank rank) (ok none) rest

unfoldable pub select1 : ByteOrder → BitIndex → ℕ → Outcome (Option ℕ)
select1 order self rank =
    select_with order true (sblock_rank1 order self) (block_rank1 order self) self rank

unfoldable pub select0 : ByteOrder → BitIndex → ℕ → Outcome (Option ℕ)
select0 order self rank =
    select_with order false (sblock_rank0 order self) (block_rank0 order self) self rank

-- What a select by range does with the position that was found.
unfoldable pub in_range : Bool → BitIndex → ℕ → ℕ → ℕ → ℕ → Outcome (Option ℕ)
in_range wanted self subrank start end result =
    let starts = (do
      first ← BitArray.get self.array start
      ok (if◌then◌else◌ (if◌then◌else◌ wanted (not first) first) (some start) none)) in
    let outside = ltb result start || leb end result in
    if ltb result start && (ltb start end && subrank == 0)
    then starts
    else ok (if outside then none else some result)

unfoldable pub select1_from_range : ByteOrder → BitIndex → ℕ → ℕ → ℕ → Outcome (Option ℕ)
select1_from_range order self subrank start end = do
  let before = rank1 order self (start - 1)
  rank_offset ← if◌then◌else◌ (start == 0) (ok 0) before
  rank ← checked_add 64 rank_offset subrank
  result ← select1 order self rank
  elim result [ none ↦ ok none | some found ↦ in_range true self subrank start end found ]

unfoldable pub select0_from_range : ByteOrder → BitIndex → ℕ → ℕ → ℕ → Outcome (Option ℕ)
select0_from_range order self subrank start end = do
  let before = rank0 order self (start - 1)
  rank_offset ← if◌then◌else◌ (start == 0) (ok 0) before
  rank ← checked_add 64 rank_offset subrank
  result ← select0 order self rank
  elim result [ none ↦ ok none | some found ↦ in_range false self subrank start end found ]
