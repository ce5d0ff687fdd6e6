-- ===== src/Structure/BitIndex/Examples.antt =====
-- src/structure/bitindex.rs: runs of the functions, and the theorems at concrete inputs.
use terminus_store.Structure.BitIndex.Maps.{from_maps, iter, from_maps-build_bitindex}
use terminus_store.Prelude.{
  map, ℕ, suc, ◌≡◌, ◌<◌, ◌≤◌, ◌-◌, ◌∷◌, [], List, refl, arith, Bool, true, false,
}
use terminus_store.Prelude.Outcome.{ok}
use terminus_store.Structure.Framed.Sample.{byte_by_byte, ask_bytes, at_end}
use terminus_store.Structure.Framed.{yields}
use terminus_store.Structure.Word.{to_be_bytes, be_value}
use terminus_store.Structure.Word.Sample.{big_endian}
use terminus_store.Structure.LogArray
use terminus_store.Structure.LogArray.{LogArray}
use terminus_store.Structure.BitArray
use terminus_store.Structure.BitArray.{BitArray, bitarray_stream_blocks, decode, decode_ahead}
use terminus_store.Structure.BitIndex.{
  BitIndex, from_parts, rank1, rank0, rank1_from_range, rank0_from_range, build_bitindex,
}
use terminus_store.Structure.BitIndex.Ones.{count_true, count_false}
use terminus_store.Structure.BitIndex.Build.{concat}
use terminus_store.Structure.BitIndex.Rank.{rank-build_bitindex, rank_from_range-build_bitindex}

abbrev three : List Bool
three = true ∷ false ∷ true ∷ []

abbrev one_block : List (List ℕ)
one_block = (0xA000_0000_0000_0000 ∷ []) ∷ []

same_blocks :
    bitarray_stream_blocks byte_by_byte big_endian
      (BitArray.finalize (BitArray.push_all (BitArray.new []) three))
    ≡ map ok (concat one_block)
unfolding bitarray_stream_blocks decode decode_ahead yields ask_bytes at_end BitArray.finalize
    BitArray.push_all BitArray.push BitArray.new to_be_bytes be_value
same_blocks = refl

rank-build_bitindex_example :
    (array : BitArray) × (blocks : LogArray) × (sblocks : LogArray) × (files : List ℕ × List ℕ)
    × (index : BitIndex) × (BitArray.from_bits big_endian
          (BitArray.finalize (BitArray.push_all (BitArray.new []) three))
        ≡ BitArray.parsed array)
    × (build_bitindex big_endian one_block ≡ ok files)
    × (LogArray.parse big_endian files.0 ≡ LogArray.parsed blocks)
    × (LogArray.parse big_endian files.1 ≡ LogArray.parsed sblocks)
    × (from_parts array blocks sblocks ≡ ok index)
    × ((i : ℕ)
        → i < 3
        → (rank1 big_endian index i ≡ ok (count_true (suc i) three))
          × (rank0 big_endian index i ≡ ok (count_false (suc i) three)))
rank-build_bitindex_example =
    rank-build_bitindex big_endian three one_block (omega arith, omega arith) byte_by_byte
      same_blocks (omega arith)

rank_from_range-build_bitindex_example :
    (array : BitArray) × (blocks : LogArray) × (sblocks : LogArray) × (files : List ℕ × List ℕ)
    × (index : BitIndex) × (BitArray.from_bits big_endian
          (BitArray.finalize (BitArray.push_all (BitArray.new []) three))
        ≡ BitArray.parsed array)
    × (build_bitindex big_endian one_block ≡ ok files)
    × (LogArray.parse big_endian files.0 ≡ LogArray.parsed blocks)
    × (LogArray.parse big_endian files.1 ≡ LogArray.parsed sblocks)
    × (from_parts array blocks sblocks ≡ ok index)
    × ((start end : ℕ)
        → start ≤ end
        → end ≤ 3
        → (rank1_from_range big_endian index start end
            ≡ ok (count_true end three - count_true start three))
          × (rank0_from_range big_endian index start end
              ≡ ok (count_false end three - count_false start three)))
rank_from_range-build_bitindex_example =
    rank_from_range-build_bitindex big_endian three one_block (omega arith, omega arith)
      byte_by_byte same_blocks (omega arith)

from_maps-build_bitindex_example :
    (files : List ℕ × List ℕ) × (index : BitIndex) × (build_bitindex big_endian one_block
      ≡ ok files)
    × (from_maps big_endian
          (BitArray.finalize (BitArray.push_all (BitArray.new []) three))
          files.0
          files.1
        ≡ ok index)
    × (iter index ≡ ok three)
from_maps-build_bitindex_example =
    from_maps-build_bitindex byte_by_byte big_endian three one_block (omega arith, omega arith)
      same_blocks (omega arith)
