-- ===== src/Structure/WaveletTree/Examples.antt =====
-- src/structure/wavelettree.rs: a run of the building, and the theorems at concrete inputs.
use terminus_store.Prelude.{map, ℕ, ◌≡◌, refl, arith, true, false, List, [], ◌∷◌, ◌++◌}
use terminus_store.Prelude.Outcome.{ok, panic}
use terminus_store.Structure.Framed.Sample.{byte_by_byte, ask_bytes, at_end}
use terminus_store.Structure.Framed.{yields}
use terminus_store.Structure.Word.{to_be_bytes, be_value}
use terminus_store.Structure.Word.Sample.{big_endian}
use terminus_store.Structure.LogArray.{LogArray}
use terminus_store.Structure.LogArray.Invariant.{AllFit}
use terminus_store.Structure.BitArray
use terminus_store.Structure.BitArray.{BitArray, bitarray_stream_blocks, decode, decode_ahead}
use terminus_store.Structure.BitIndex.Build.{AllChunks, concat}
use terminus_store.Structure.BitIndex.Rank.{Indexes, file}
use terminus_store.Structure.WaveletTree.{tree_bits, build_wavelet_tree_from_iter}
use terminus_store.Structure.WaveletTree.Fragments.{node_bits}
use terminus_store.Structure.WaveletTree.Layers.{layer_bits, layers_bits}
use terminus_store.Structure.WaveletTree.Build.{
  tree_bits-layers, tree_bits-panics, build_wavelet_tree_from_iter-layers,
}

abbrev four_nums : List ℕ
four_nums = 2 ∷ 0 ∷ 3 ∷ 1 ∷ []

abbrev one_block : List (List ℕ)
one_block = (0xA500_0000_0000_0000 ∷ []) ∷ []

abbrev chunked : AllChunks one_block
chunked = (omega arith, omega arith)

fits : AllFit 2 four_nums
fits = (omega arith, (omega arith, (omega arith, (omega arith, tt))))

bits_are :
    layers_bits 2 four_nums 2 ≡ true ∷ false ∷ true ∷ false ∷ false ∷ true ∷ false ∷ true ∷ []
unfolding layers_bits layer_bits node_bits
bits_are = refl

same_blocks :
    bitarray_stream_blocks byte_by_byte big_endian
      (file big_endian (layers_bits 2 four_nums 2) one_block chunked)
    ≡ map ok (concat one_block)
unfolding layers_bits layer_bits node_bits bitarray_stream_blocks decode decode_ahead yields
    ask_bytes at_end BitArray.finalize BitArray.push_all BitArray.push BitArray.new to_be_bytes
    be_value
same_blocks = refl

tree_bits-layers_example : tree_bits 2 four_nums ≡ ok (layers_bits 2 four_nums 2)
tree_bits-layers_example = tree_bits-layers 2 four_nums (omega arith) fits

tree_bits-panics_example : tree_bits 2 (four_nums ++ (4 ∷ 1 ∷ [])) ≡ panic
tree_bits-panics_example =
    tree_bits-panics 2 4 four_nums (1 ∷ []) (omega arith) (omega arith) fits (omega arith)

build_wavelet_tree_from_iter-layers_example :
    (array : BitArray) × (blocks : LogArray) × (sblocks : LogArray) × (files : List ℕ × List ℕ)
    × Indexes big_endian (layers_bits 2 four_nums 2) one_block chunked array blocks sblocks files
    × (build_wavelet_tree_from_iter big_endian 2 four_nums one_block
        ≡ ok (file big_endian (layers_bits 2 four_nums 2) one_block chunked, files.0, files.1))
unfolding layers_bits layer_bits node_bits
build_wavelet_tree_from_iter-layers_example =
    build_wavelet_tree_from_iter-layers byte_by_byte big_endian 2 four_nums one_block chunked
      (omega arith) fits same_blocks (omega arith)
