-- ===== src/Structure/AdjacencyList/Examples.antt =====
-- src/structure/adjacencylist.rs: runs of the functions, and the theorems at concrete inputs.
use terminus_store.Prelude.{
  map, ℕ, ◌<◌, ◌≡◌, ◌∷◌, ◌++◌, [], List, refl, arith, true, false, inl, inr, ◌⊎◌,
}
use mathlib.Core.List.{Mem}
use terminus_store.Prelude.Outcome.{ok, panic}
use terminus_store.Structure.Framed.Sample.{byte_by_byte, ask_bytes, at_end}
use terminus_store.Structure.Framed.{yields}
use terminus_store.Structure.Word.{to_be_bytes, be_value}
use terminus_store.Structure.Word.Sample.{big_endian}
use terminus_store.Structure.LogArray.{LogArray}
use terminus_store.Structure.BitArray
use terminus_store.Structure.BitArray.{bitarray_stream_blocks, decode, decode_ahead}
use terminus_store.Structure.AdjacencyList.{
  iter, collect, left_count, get, right_count, pair_at_pos, left_at_pos, num_at_pos,
  adjacency_list_stream_pairs,
}
use terminus_store.Structure.AdjacencyList.Builder.{AdjacencyListFiles, new, push_all}
use terminus_store.Structure.AdjacencyList.Layout.{IsOrdered, AllRightsFit, all_nums, all_bits}
use terminus_store.Structure.AdjacencyList.Stream.{
  IsInput, Leaves, adjacency_list_stream_pairs-push_all,
}
use terminus_store.Structure.AdjacencyList.Iterate.{collect-push_all}
use terminus_store.Structure.AdjacencyList.Lookup.{
  OnList, ReadsRow, left_count-push_all, get-row, get-panics,
}
use terminus_store.Structure.AdjacencyList.Unordered.{push_all-panics}
use terminus_store.Structure.AdjacencyList.Positions.{pair_at_pos-push_all}

-- No pair has the left-hand side 3.
abbrev four_pairs : List (ℕ × ℕ)
four_pairs = (1, 1) ∷ (1, 3) ∷ (2, 5) ∷ (4, 4) ∷ []

abbrev one_block : List (List ℕ)
one_block = (0x7800_0000_0000_0000 ∷ []) ∷ []

nums_are : all_nums 0 four_pairs ≡ 1 ∷ 3 ∷ 5 ∷ 0 ∷ 4 ∷ []
unfolding all_nums
nums_are = refl

bits_are : all_bits 0 four_pairs ≡ false ∷ true ∷ true ∷ true ∷ []
unfolding all_bits
bits_are = refl

ordered : IsOrdered 0 0 four_pairs
ordered =
    ((
      inl (omega arith),
      omega arith,
      omega arith,
      (
        inr (refl, omega arith),
        omega arith,
        omega arith,
        (
          inl (omega arith),
          omega arith,
          omega arith,
          (inl (omega arith), omega arith, omega arith, tt),
        ),
      ),
    ))

fits : AllRightsFit 8 four_pairs
fits = (omega arith, (omega arith, (omega arith, (omega arith, tt))))

four_pairs-IsInput : IsInput byte_by_byte big_endian 8 four_pairs one_block
unfolding all_nums all_bits bitarray_stream_blocks decode decode_ahead yields ask_bytes at_end
    BitArray.finalize BitArray.push_all BitArray.push BitArray.new to_be_bytes be_value
four_pairs-IsInput = record {
  ordered = ordered;
  fit = fits;
  wide = omega arith;
  narrow = omega arith;
  few = omega arith;
  chunked = (omega arith, omega arith);
  same = refl;
}

adjacency_list_stream_pairs-push_all_example :
    (files : AdjacencyListFiles) × Leaves big_endian 8 four_pairs one_block four_pairs-IsInput files
    × (adjacency_list_stream_pairs byte_by_byte big_endian files.bitfile files.nums_file
        ≡ ok (map ok four_pairs))
adjacency_list_stream_pairs-push_all_example =
    adjacency_list_stream_pairs-push_all big_endian 8 four_pairs one_block four_pairs-IsInput

collect-push_all_example :
    OnList big_endian 8 four_pairs one_block four_pairs-IsInput
      (λ list. collect big_endian list 5 iter ≡ ok four_pairs)
collect-push_all_example = collect-push_all big_endian 8 four_pairs one_block four_pairs-IsInput

left_count-push_all_example :
    OnList big_endian 8 four_pairs one_block four_pairs-IsInput
      (λ list. left_count big_endian list ≡ ok 4)
left_count-push_all_example =
    left_count-push_all big_endian 8 four_pairs one_block four_pairs-IsInput

get-row_example : OnList big_endian 8 four_pairs one_block four_pairs-IsInput (λ list.
    (cut : LogArray) × (get big_endian list 1 ≡ ok cut) × ReadsRow big_endian cut (1 ∷ 3 ∷ []))
get-row_example =
    get-row big_endian 8 four_pairs one_block four_pairs-IsInput 1 (omega arith) (omega arith)

get-panics_example :
    OnList big_endian 8 four_pairs one_block four_pairs-IsInput
      (λ list. get big_endian list 5 ≡ panic)
get-panics_example =
    get-panics big_endian 8 four_pairs one_block four_pairs-IsInput 5 (inr (omega arith))

pair_at_pos-push_all_example : OnList big_endian 8 four_pairs one_block four_pairs-IsInput (λ list.
    (p : ℕ)
    → p < right_count list
    → (left : ℕ) × (num : ℕ) × (pair_at_pos big_endian list p ≡ ok (left, num))
      × (left_at_pos big_endian list p ≡ ok left)
      × (num_at_pos big_endian list p ≡ ok num)
      × ((num ≡ 0) ⊎ Mem (left, num) four_pairs))
pair_at_pos-push_all_example =
    pair_at_pos-push_all big_endian 8 four_pairs one_block four_pairs-IsInput

push_all-panics_example : push_all (new 8) (four_pairs ++ ((4, 4) ∷ (5, 1) ∷ [])) ≡ panic
unfolding all_nums
push_all-panics_example =
    push_all-panics 8 four_pairs ((5, 1) ∷ []) (4, 4) (omega arith) (omega arith) ordered fits
      (omega arith) (inr (refl, omega arith))
