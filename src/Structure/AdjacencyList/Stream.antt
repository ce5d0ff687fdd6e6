-- ===== src/Structure/AdjacencyList/Stream.antt =====
-- src/structure/adjacencylist.rs: the files that a builder leaves, and the stream of their pairs.
use terminus_store.Prelude.{
  ℕ, ◌-◌, ◌^◌, ◌≤◌, ◌<◌, ◌≡◌, ap, ◌∙◌, sym, arith, Bool, true, false, ◌==◌, List, [], ◌∷◌, length,
  length-append, replicate, map,
}
use terminus_store.Prelude.Outcome.{ok_injective, ok}
use terminus_store.Structure.Framed.{FramedRead}
use terminus_store.Structure.Word.{ByteOrder}
use terminus_store.Structure.LogArray
use terminus_store.Structure.LogArray.{LogArray, LogArrayFileBuilder}
use terminus_store.Structure.LogArray.Push.{new-Holds}
use terminus_store.Structure.LogArray.Invariant.{push_vec-Holds, AllFit}
use terminus_store.Structure.EntryStream.{logarray_stream_entries}
use terminus_store.Structure.EntryStream.Correct.{logarray_stream_entries-push_vec}
use terminus_store.Structure.BitArray
use terminus_store.Structure.BitArray.{BitArrayFileBuilder, bitarray_stream_blocks}
use terminus_store.Structure.BitArray.Bits.{bitarray_stream_bits}
use terminus_store.Structure.BitArray.Stream.{bitarray_stream_bits-push_all}
use terminus_store.Structure.BitIndex.{build_bitindex}
use terminus_store.Structure.BitIndex.Build.{AllChunks, concat}
use terminus_store.Structure.BitIndex.Rank.{file, index-Counts}
use terminus_store.Structure.AdjacencyList.{adjacency_list_stream_pairs}
use terminus_store.Structure.AdjacencyList.Builder.{
  AdjacencyListBuilder, AdjacencyListFiles, new, push_all, close, finalize,
}
use terminus_store.Structure.AdjacencyList.Layout.{
  IsOrdered, AllRightsFit, all_nums, all_bits, pair_nums, all_nums-AllFit, push_all_lem,
  push_all-append,
}
use terminus_store.Structure.AdjacencyList.Pairs.{
  list_bits, bit_counts, zip_filter, stream-ok, read_pairs-all, length-list_bits,
}

-- The count of a builder of numbers.
push_vec-count :
    (width : ℕ) (vals : List ℕ) (b : LogArrayFileBuilder)
    → 1 ≤ width
    → width ≤ 64
    → AllFit width vals
    → length vals < 2 ^ 32
    → LogArray.push_vec (LogArray.new [] width) vals ≡ ok b
    → b.count ≡ length vals
unfolding LogArray.new
push_vec-count width vals b wide narrow fit few e =
    let (b', ws, pushed, same, inv) =
      push_vec-Holds vals (LogArray.new [] width) [] [] (new-Holds width) wide narrow fit
        (omega arith) in
    let eq : b' ≡ b = ok_injective (sym pushed ∙ e) in ap (λ t. t.count) (sym eq) ∙ inv.counted

close_lem :
    (pairs : List (ℕ × ℕ)) (self : AdjacencyListBuilder)
    → self.bitarray ≡ BitArray.push_all (BitArray.new []) (all_bits 0 pairs)
    → self.nums.count ≡ length (all_nums 0 pairs)
    → close self ≡ BitArray.push_all (BitArray.new []) (list_bits pairs)
unfolding close all_nums all_bits BitArray.push_all
close_lem [] self bits count = ground arith
close_lem (pair ∷ pairs) self bits count =
    let some_nums : (self.nums.count == 0) ≡ false = ground (
      arith,
      length-append (pair_nums 0 pair) (all_nums pair.0 pairs),
      length-append (replicate (pair.0 - 0 - 1) 0) (pair.1 ∷ []),
    ) in
    rw (some_nums, bits)
      (sym (push_all-append (all_bits 0 (pair ∷ pairs)) (true ∷ []) (BitArray.new [])))

stream_pairs-ok :
    (framed : FramedRead) (order : ByteOrder) (bits_file nums_file : List ℕ) (bits : List Bool)
    (nums : List ℕ)
    → length bits < 2 ^ 32
    → bitarray_stream_bits framed order bits_file ≡ ok (map ok bits)
    → logarray_stream_entries framed order nums_file ≡ ok (map ok nums)
    → adjacency_list_stream_pairs framed order bits_file nums_file
      ≡ ok (map ok (zip_filter (bit_counts 1 bits) nums))
unfolding adjacency_list_stream_pairs
stream_pairs-ok framed order bits_file nums_file bits nums few e e' =
    rw (e, e') (ap ok (stream-ok 1 bits nums (omega arith)))

-- Pairs of positive numbers in increasing order that a list of a width takes, and the chunks of the
-- blocks of the bits that they become.
pub record IsInput (framed : FramedRead) (order : ByteOrder) (width : ℕ) (pairs : List (ℕ × ℕ))
    (chunks : List (List ℕ)) : Type 0 where
  pub ordered : IsOrdered 0 0 pairs
  pub fit : AllRightsFit width pairs
  pub wide : 1 ≤ width
  pub narrow : width ≤ 64
  pub few : length (all_nums 0 pairs) < 2 ^ 32
  pub chunked : AllChunks chunks
  pub same :
      bitarray_stream_blocks framed order (file order (list_bits pairs) chunks chunked)
      ≡ map ok (concat chunks)

module _ {framed : FramedRead} (order : ByteOrder) (width : ℕ) (pairs : List (ℕ × ℕ))
    (chunks : List (List ℕ)) (i : IsInput framed order width pairs chunks) where
  -- The files that a new builder leaves after the pairs.
  abbrev pub Leaves : AdjacencyListFiles → Type 0
  Leaves files =
      (self : AdjacencyListBuilder) × (push_all (new width) pairs ≡ ok self)
      × (finalize order self chunks ≡ ok files)

  pub few_bits : length (list_bits pairs) < 2 ^ 32
  few_bits = omega (arith, length-list_bits pairs i.ordered, i.few)

  index_files : (index : List ℕ × List ℕ) × (build_bitindex order chunks ≡ ok index)
  index_files =
      let (array, blocks, sblocks, files, (p, q, r, s, t), c) =
        index-Counts order (list_bits pairs) chunks i.chunked framed i.same
          (omega (arith, few_bits)) in
      (files, q)

  pub leaves :
      (files : AdjacencyListFiles) × Leaves files
      × (files.bitfile ≡ file order (list_bits pairs) chunks i.chunked)
      × (b : LogArrayFileBuilder) × (LogArray.push_vec (LogArray.new [] width) (all_nums 0 pairs)
          ≡ ok b)
      × (files.nums_file ≡ LogArray.finalize order b)
      × (build_bitindex order chunks ≡ ok (files.bitindex_blocks, files.bitindex_sblocks))
  unfolding finalize
  leaves =
      let fit = all_nums-AllFit width 0 pairs i.fit in
      let (b, pushed, read) =
        logarray_stream_entries-push_vec framed order width (all_nums 0 pairs) i.wide i.narrow fit
          i.few in
      let (self, pushed_all, bits, nums, last) =
        push_all_lem pairs (new width) b i.ordered pushed in
      let counted = push_vec-count width (all_nums 0 pairs) b i.wide i.narrow fit i.few pushed in
      let closed = close_lem pairs self bits (ap (λ t. t.count) nums ∙ counted) in
      let (index, built) = index_files in
      (
        record {
          bitfile = BitArray.finalize (close self);
          bitindex_blocks = index.0;
          bitindex_sblocks = index.1;
          nums_file = LogArray.finalize order self.nums;
        },
        (self, pushed_all, rw built),
        ap BitArray.finalize closed,
        b,
        pushed,
        ap (LogArray.finalize order) nums,
        built,
      )

  -- From the files that a builder leaves after pairs of positive numbers in increasing order, which
  -- all fit, the stream of `adjacency_list_stream_pairs` yields exactly those pairs, in their order
  -- and without an error, whatever chunks the `FramedRead` reads the files in.
  pub adjacency_list_stream_pairs-push_all :
      (files : AdjacencyListFiles) × Leaves files
      × (adjacency_list_stream_pairs framed order files.bitfile files.nums_file ≡ ok (map ok pairs))
  adjacency_list_stream_pairs-push_all =
      let (files, left, bitfile, b, pushed, nums_file, built) = leaves in
      let fit = all_nums-AllFit width 0 pairs i.fit in
      let (b', pushed', read) =
        logarray_stream_entries-push_vec framed order width (all_nums 0 pairs) i.wide i.narrow fit
          i.few in
      let same : b' ≡ b = ok_injective (sym pushed' ∙ pushed) in
      let bits =
        bitarray_stream_bits-push_all framed order (list_bits pairs) (omega (arith, few_bits)) in
      (
        files,
        left,
        stream_pairs-ok framed order files.bitfile files.nums_file (list_bits pairs)
              (all_nums 0 pairs) few_bits (ap (bitarray_stream_bits framed order) bitfile ∙ bits)
              (ap (logarray_stream_entries framed order)
                  (nums_file ∙ ap (LogArray.finalize order) (sym same))
                ∙ read)
            ∙ ap (λ t. ok (map ok t)) (read_pairs-all pairs i.ordered),
      )
