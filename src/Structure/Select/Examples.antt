-- ===== src/Structure/Select/Examples.antt =====
-- src/structure/bitindex.rs: the theorems on the selects at concrete inputs.
use terminus_store.Prelude.{
  map, ℕ, suc, ◌<◌, ◌≡◌, ◌∷◌, [], List, length, refl, arith, Bool, true, false, Option, some,
}
use terminus_store.Prelude.Outcome.{ok, panic}
use terminus_store.Structure.Framed.Sample.{byte_by_byte, ask_bytes, at_end}
use terminus_store.Structure.Framed.{yields}
use terminus_store.Structure.Word.{to_be_bytes, be_value}
use terminus_store.Structure.Word.Sample.{big_endian}
use terminus_store.Structure.BitArray
use terminus_store.Structure.BitArray.{BitArray, bitarray_stream_blocks, decode, decode_ahead}
use terminus_store.Structure.BitArray.Push.{bit_or_false}
use terminus_store.Structure.BitIndex.Ones.{count_true, count_false}
use terminus_store.Structure.BitIndex.Build.{AllChunks, concat}
use terminus_store.Structure.BitIndex.Rank.{file}
use terminus_store.Structure.Select.{select1, select0, select1_from_range}
use terminus_store.Structure.Select.Build.{
  OnIndex, IsSelected1, select1-build_bitindex, select0-build_bitindex, select0-panics,
}
use terminus_store.Structure.Select.Range.{IsSelectedInRange, select1_from_range-build_bitindex}

abbrev three : List Bool
three = true ∷ false ∷ true ∷ []

abbrev one_block : List (List ℕ)
one_block = (0xA000_0000_0000_0000 ∷ []) ∷ []

abbrev chunked : AllChunks one_block
chunked = (omega arith, omega arith)

same_blocks :
    bitarray_stream_blocks byte_by_byte big_endian (file big_endian three one_block chunked)
    ≡ map ok (concat one_block)
unfolding bitarray_stream_blocks decode decode_ahead yields ask_bytes at_end BitArray.finalize
    BitArray.push_all BitArray.push BitArray.new to_be_bytes be_value
same_blocks = refl

select1-build_bitindex_example : OnIndex big_endian three one_block chunked (λ index.
    (found : Option ℕ) × (select1 big_endian index 2 ≡ ok found) × IsSelected1 three 2 found)
select1-build_bitindex_example =
    select1-build_bitindex big_endian three one_block chunked byte_by_byte same_blocks (omega arith)
      (omega arith) 2 (omega arith)

select0-build_bitindex_example : OnIndex big_endian three one_block chunked (λ index.
    (p : ℕ) × (select0 big_endian index 1 ≡ ok (some p))
    × (p < length three)
    × (bit_or_false three p ≡ false)
    × (count_false (suc p) three ≡ 1))
unfolding count_false
select0-build_bitindex_example =
    select0-build_bitindex big_endian three one_block chunked byte_by_byte same_blocks (omega arith)
      (omega arith) 1 (omega arith) (omega arith)

select0-panics_example :
    OnIndex big_endian three one_block chunked (λ index. select0 big_endian index 100 ≡ panic)
unfolding count_true
select0-panics_example =
    select0-panics big_endian three one_block chunked byte_by_byte same_blocks (omega arith)
      (omega arith) 100 (omega arith) (omega arith) (omega arith)

select1_from_range-build_bitindex_example : OnIndex big_endian three one_block chunked (λ index.
    (found : Option ℕ) × (select1_from_range big_endian index 1 1 3 ≡ ok found)
    × IsSelectedInRange three 1 1 3 found)
select1_from_range-build_bitindex_example =
    select1_from_range-build_bitindex big_endian three one_block chunked byte_by_byte same_blocks
      (omega arith) (omega arith) 1 1 3 (omega arith) (omega arith) (omega arith)
      (unfold count_true in omega arith)
