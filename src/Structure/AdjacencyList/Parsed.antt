-- ===== src/Structure/AdjacencyList/Parsed.antt =====
-- src/structure/adjacencylist.rs: the list that is parsed from the files that a builder left.
use terminus_store.Prelude.{
  ℕ, suc, ◌+◌, ◌-◌, ◌<◌, ◌≡◌, ap, ◌∙◌, sym, arith, Bool, true, ◌==◌, ltb, if◌then◌else◌, List,
  length, get_or, Bool-cases, inl, inr,
}
use terminus_store.Prelude.Outcome.{ok_injective, ok, panic}
use terminus_store.Structure.Framed.{FramedRead}
use terminus_store.Structure.Word.{ByteOrder}
use terminus_store.Structure.LogArray
use terminus_store.Structure.LogArray.{LogArray}
use terminus_store.Structure.LogArray.RoundTrip.{Stores, entry_lem}
use terminus_store.Structure.LogArray.Correct.{built}
use terminus_store.Structure.BitArray
use terminus_store.Structure.BitArray.{BitArray}
use terminus_store.Structure.BitArray.Push.{bit_or_false}
use terminus_store.Structure.BitArray.Get.{get-push_all}
use terminus_store.Structure.BitIndex.{BitIndex, from_parts}
use terminus_store.Structure.BitIndex.Ones.{count_true}
use terminus_store.Structure.BitIndex.Counts.{Counts, rank1_lem}
use terminus_store.Structure.BitIndex.Rank.{index-Counts}
use terminus_store.Structure.AdjacencyList
use terminus_store.Structure.AdjacencyList.{AdjacencyList, parse, pair_at_pos, left_at_pos}
use terminus_store.Structure.AdjacencyList.Builder.{AdjacencyListFiles}
use terminus_store.Structure.AdjacencyList.Layout.{all_nums, all_nums-AllFit}
use terminus_store.Structure.AdjacencyList.Pairs.{list_bits, length-list_bits}
use terminus_store.Structure.AdjacencyList.Stream.{IsInput, Leaves, leaves, few_bits}

-- A list whose parts hold the bits and the numbers.
pub record Represents (list : AdjacencyList) (bits : List Bool) (nums : List ℕ) : Type 0 where
  pub counted : list.bits.array.len ≡ length bits
  pub same_length : length bits ≡ length nums
  pub gets : (p : ℕ) → p < length bits → BitArray.get list.bits.array p ≡ ok (bit_or_false bits p)
  pub chunks : List (List ℕ)
  pub counts : Counts list.bits chunks bits
  pub words : List ℕ
  pub control : List ℕ
  pub holds : Stores list.nums words control nums

parse_lem :
    (order : ByteOrder) (files : AdjacencyListFiles) (nums : LogArray) (array : BitArray)
    (blocks sblocks : LogArray) (bits : BitIndex)
    → LogArray.parse order files.nums_file ≡ LogArray.parsed nums
    → BitArray.from_bits order files.bitfile ≡ BitArray.parsed array
    → LogArray.parse order files.bitindex_blocks ≡ LogArray.parsed blocks
    → LogArray.parse order files.bitindex_sblocks ≡ LogArray.parsed sblocks
    → from_parts array blocks sblocks ≡ ok bits
    → nums.len ≡ bits.array.len
    → parse order files.nums_file files.bitfile files.bitindex_blocks files.bitindex_sblocks
      ≡ ok (record { nums = nums; bits = bits })
unfolding parse AdjacencyList.from_parts
parse_lem order files nums array blocks sblocks bits e f g h k len =
    let same : (nums.len == bits.array.len) ≡ true = ground arith in rw (e, f, g, h, k, same)

parsed_injective : {a b : BitArray} → BitArray.parsed a ≡ BitArray.parsed b → a ≡ b
parsed_injective e = cc

module _ {framed : FramedRead} (order : ByteOrder) (width : ℕ) (pairs : List (ℕ × ℕ))
    (chunks : List (List ℕ)) (i : IsInput framed order width pairs chunks) where
  -- `parse` accepts the files of the pairs.
  pub parsed_list :
      (files : AdjacencyListFiles) × Leaves order width pairs chunks i files
      × (list : AdjacencyList) × (parse order files.nums_file files.bitfile files.bitindex_blocks
            files.bitindex_sblocks
          ≡ ok list)
      × Represents list (list_bits pairs) (all_nums 0 pairs)
  parsed_list =
      let (files, left, bitfile, b, pushed, nums_file, index_built) =
        leaves order width pairs chunks i in
      let bits = list_bits pairs in
      let small = few_bits order width pairs chunks i in
      let (b', nums, ws, control, pushed', accepted, sized, wid, holds) =
        built order width (all_nums 0 pairs) i.wide i.narrow (all_nums-AllFit width 0 pairs i.fit)
          i.few in
      let (
        array,
        blocks,
        sblocks,
        index,
        (from_bits, build, blocks_parsed, sblocks_parsed, parts),
        counts,
      ) =
        index-Counts order bits chunks i.chunked framed i.same (omega (arith, small)) in
      let (array', from_bits', len, get_all) = get-push_all order bits (omega (arith, small)) in
      let same_array : array' ≡ array = parsed_injective (sym from_bits' ∙ from_bits) in
      let same_b : b' ≡ b = ok_injective (sym pushed' ∙ pushed) in
      let same_index : index ≡ (files.bitindex_blocks, files.bitindex_sblocks) =
        ok_injective (sym build ∙ index_built) in
      let len' : array.len ≡ length bits = ap (λ a. a.len) (sym same_array) ∙ len in
      let same_length = length-list_bits pairs i.ordered in
      (
        files,
        left,
        record { nums = nums; bits = record { array = array; blocks = blocks; sblocks = sblocks } },
        parse_lem order files nums array blocks sblocks _
            (ap (LogArray.parse order) (nums_file ∙ ap (LogArray.finalize order) (sym same_b))
              ∙ accepted)
            (ap (BitArray.from_bits order) bitfile ∙ from_bits)
            (ap (λ t. LogArray.parse order t.0) (sym same_index) ∙ blocks_parsed)
            (ap (λ t. LogArray.parse order t.1) (sym same_index) ∙ sblocks_parsed) parts
            (omega (arith, sized, len', same_length)),
        record {
          counted = len';
          same_length = same_length;
          gets = λ p hp. ap (λ a. BitArray.get a p) (sym same_array) ∙ get_all p ∙ inside p hp;
          chunks = chunks;
          counts = counts;
          words = ws;
          control = control;
          holds = holds;
        },
      )
    where
      inside :
          (p : ℕ)
          → p < length (list_bits pairs)
          → (if ltb p (length (list_bits pairs))
              then ok (bit_or_false (list_bits pairs) p)
              else panic)
            ≡ ok (bit_or_false (list_bits pairs) p)
      inside p hp = ground arith

-- What is read at a position of such a list.
module _ (order : ByteOrder) (list : AdjacencyList) (bits : List Bool) (nums : List ℕ)
    (r : Represents list bits nums) (p : ℕ) (hp : p < length bits) where
  pub num_at : LogArray.entry order list.nums p ≡ ok (get_or nums p 0)
  num_at = entry_lem order list.nums r.words r.control nums r.holds p (omega (arith, r.same_length))

  pub left_at_pos_lem : left_at_pos order list p ≡ ok (count_true p bits + 1)
  unfolding left_at_pos count_true
  left_at_pos_lem = elim (Bool-cases (p == 0)) [
    | inl zeroth ↦ rw zeroth (ap (λ t. ok (count_true t bits + 1)) {x = 0} {y = p} (ground arith))
    | inr later ↦
        let pos : 0 < p = ground arith in
        rw (later, rank1_lem order list.bits r.chunks bits r.counts (p - 1) (omega arith))
          (ap (λ t. ok (count_true t bits + 1)) {x = suc (p - 1)} {y = p} (omega arith))
  ]

  pub pair_at_pos_lem : pair_at_pos order list p ≡ ok (count_true p bits + 1, get_or nums p 0)
  unfolding pair_at_pos count_true
  pair_at_pos_lem = elim (Bool-cases (p == 0)) [
    | inl zeroth ↦
        rw (zeroth, num_at)
          (ap (λ t. ok (count_true t bits + 1, get_or nums p 0)) {x = 0} {y = p} (ground arith))
    | inr later ↦
        let pos : 0 < p = ground arith in
        rw (later, rank1_lem order list.bits r.chunks bits r.counts (p - 1) (omega arith), num_at)
          (ap (λ t. ok (count_true t bits + 1, get_or nums p 0)) {x = suc (p - 1)} {y = p}
            (omega arith))
  ]
