-- ===== src/Structure/AdjacencyList/Builder.antt =====
-- src/structure/adjacencylist.rs: `AdjacencyListBuilder`, over empty files.
use terminus_store.Prelude.{
  ℕ, zero, suc, ◌-◌, Bool, true, false, not, ltb, leb, ◌==◌, ◌&&◌, ◌||◌, if◌then◌else◌, List, [],
  ◌∷◌,
}
use terminus_store.Prelude.Outcome.{Outcome, ok, ◌>>=◌, assert}
use terminus_store.Structure.Word.{ByteOrder}
use terminus_store.Structure.LogArray
use terminus_store.Structure.LogArray.{LogArrayFileBuilder}
use terminus_store.Structure.BitArray
use terminus_store.Structure.BitArray.{BitArrayFileBuilder}
use terminus_store.Structure.BitIndex.{build_bitindex}

-- The files of the index stay empty until the end, so that they are left out.
pub record AdjacencyListBuilder : Type 0 where
  pub bitarray : BitArrayFileBuilder
  pub nums : LogArrayFileBuilder
  pub last_left : ℕ
  pub last_right : ℕ

abbrev pub new : ℕ → AdjacencyListBuilder
new width = record {
  bitarray = BitArray.new [];
  nums = LogArray.new [] width;
  last_left = 0;
  last_right = 0;
}

-- `for _ in 0..bitskip`
unfoldable pub push_ones : BitArrayFileBuilder → ℕ → BitArrayFileBuilder
push_ones bitarray zero = bitarray
push_ones bitarray (suc bitskip) = push_ones (BitArray.push bitarray true) bitskip

-- `for _ in 0..(skip - 1)`
unfoldable pub push_zeros : LogArrayFileBuilder → ℕ → Outcome LogArrayFileBuilder
push_zeros nums zero = ok nums
push_zeros nums (suc skip) = do nums' ← LogArray.push nums 0; push_zeros nums' skip

-- What `push` writes before the right-hand side, where `skip` is how far `left` is from the last one.
unfoldable pub push_skip :
    AdjacencyListBuilder → ℕ → Outcome (BitArrayFileBuilder × LogArrayFileBuilder)
unfolding push_ones push_zeros
push_skip self skip =
    if self.last_left == 0 && skip == 1
    then ok (self.bitarray, self.nums)
    else if skip == 0
    then ok (BitArray.push self.bitarray false, self.nums)
    else (do
      let bitskip = if self.last_left == 0 then skip - 1 else skip
      nums ← push_zeros self.nums (skip - 1)
      ok (push_ones self.bitarray bitskip, nums))

abbrev pub is_unordered : AdjacencyListBuilder → ℕ → ℕ → Bool
is_unordered self left right =
    ltb left self.last_left || (left == self.last_left && leb right self.last_right)

unfoldable pub push : AdjacencyListBuilder → ℕ → ℕ → Outcome AdjacencyListBuilder
unfolding push_skip
push self left right = assert (not (is_unordered self left right)) (do
  skipped ← push_skip self (left - self.last_left)
  nums ← LogArray.push skipped.1 right
  ok (record { bitarray = skipped.0; nums = nums; last_left = left; last_right = right }))

unfoldable pub push_all : AdjacencyListBuilder → List (ℕ × ℕ) → Outcome AdjacencyListBuilder
push_all self [] = ok self
push_all self (pair ∷ stream) = do self' ← push self pair.0 pair.1; push_all self' stream

-- The builder of the bits once the last bit is pushed.
unfoldable pub close : AdjacencyListBuilder → BitArrayFileBuilder
close self = if self.nums.count == 0 then self.bitarray else BitArray.push self.bitarray true

-- The files at the end, as they are named in a layer.
pub record AdjacencyListFiles : Type 0 where
  pub bitfile : List ℕ
  pub bitindex_blocks : List ℕ
  pub bitindex_sblocks : List ℕ
  pub nums_file : List ℕ

-- `chunks` are what `build_bitindex` makes of the blocks of the bit file.
unfoldable pub finalize :
    ByteOrder → AdjacencyListBuilder → List (List ℕ) → Outcome AdjacencyListFiles
unfolding close
finalize order self chunks = do
  index ← build_bitindex order chunks
  ok (record {
    bitfile = BitArray.finalize (close self);
    bitindex_blocks = index.0;
    bitindex_sblocks = index.1;
    nums_file = LogArray.finalize order self.nums;
  })

abbrev pub count : AdjacencyListBuilder → ℕ
count self = self.bitarray.count
