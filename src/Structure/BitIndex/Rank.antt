-- ===== src/Structure/BitIndex/Rank.antt =====
-- src/structure/bitindex.rs: `rank1` and `rank0` of an index that `build_bitindex` wrote.
use terminus_store.Prelude.{
  ℕ, suc, ◌+◌, ◌-◌, ◌*◌, ◌^◌, ◌≤◌, ◌<◌, ◌≡◌, refl, ap, ◌∙◌, sym, arith, Bool, List, [], ◌∷◌, map,
  length,
}
use terminus_store.Prelude.Bits.{bit_and_mask}
use terminus_store.Prelude.Outcome.{ok}
use terminus_store.Structure.Framed.{FramedRead}
use terminus_store.Structure.Word.{ByteOrder, leading_zeros, bit_length_loop}
use terminus_store.Structure.Word.Bytes.{word_bytes}
use terminus_store.Structure.LogArray
use terminus_store.Structure.LogArray.{LogArray, LogArrayFileBuilder}
use terminus_store.Structure.LogArray.Stream.{stream}
use terminus_store.Structure.LogArray.Correct.{built}
use terminus_store.Structure.BitArray
use terminus_store.Structure.BitArray.{BitArray, bitarray_stream_blocks}
use terminus_store.Structure.BitArray.Push.{new-Holds, push_all-Holds}
use terminus_store.Structure.BitArray.Get.{
  data_words, whole, words-stream, words-cover, finalize_data-words, length-words, words-AllWords,
  words-padded, from_bits-finalize,
}
use terminus_store.Structure.BitArray.Stream.{blocks-finalize}
use terminus_store.Structure.BitIndex.{
  BitIndex, from_parts, rank1, rank1_from_range, rank0, rank0_from_range, build_bitindex,
  sblock_size,
}
use terminus_store.Structure.BitIndex.Ones.{count_true, count_false}
use terminus_store.Structure.BitIndex.Build.{
  build_loop-push_vec, block_counts, sblock_counts, AllChunks, concat, block_counts-AllFit,
  sblock_counts-AllFit, length-block_counts, length-sblock_counts,
}
use terminus_store.Structure.BitIndex.Counts.{
  Counts, rank1_lem, rank0_lem, rank1_from_range_lem, rank0_from_range_lem,
}

map_ok-injective : (xs ys : List ℕ) → map ok xs ≡ map ok ys → xs ≡ ys
map_ok-injective [] [] e = refl
map_ok-injective [] (y ∷ ys) e = absurd cc
map_ok-injective (x ∷ xs) [] e = absurd cc
map_ok-injective (x ∷ xs) (y ∷ ys) e = let same = map_ok-injective xs ys cc in cc

twelve : 64 - leading_zeros (sblock_size * 64) ≡ 12
unfolding bit_length_loop
twelve = refl

module _ (order : ByteOrder) (bits : List Bool) (cs : List (List ℕ)) (chunked : AllChunks cs) where
  abbrev pub file : List ℕ
  file = BitArray.finalize (BitArray.push_all (BitArray.new []) bits)

  abbrev pub Indexes : BitArray → LogArray → LogArray → List ℕ × List ℕ → Type 0
  Indexes array blocks sblocks files =
      (BitArray.from_bits order file ≡ BitArray.parsed array)
      × (build_bitindex order cs ≡ ok files)
      × (LogArray.parse order files.0 ≡ LogArray.parsed blocks)
      × (LogArray.parse order files.1 ≡ LogArray.parsed sblocks)
      × (from_parts array blocks sblocks
          ≡ ok (record { array = array; blocks = blocks; sblocks = sblocks }))

  pub index-Counts :
      (framed : FramedRead)
      → bitarray_stream_blocks framed order file ≡ map ok (concat cs)
      → length bits + 64 ≤ 2 ^ 38
      → (array : BitArray) × (blocks : LogArray) × (sblocks : LogArray) × (files : List ℕ × List ℕ)
        × Indexes array blocks sblocks files
        × Counts (record { array = array; blocks = blocks; sblocks = sblocks }) cs bits
  unfolding build_bitindex from_parts
  index-Counts framed same few =
      let self = BitArray.push_all (BitArray.new []) bits in
      let (ws, inv) = push_all-Holds bits (BitArray.new []) [] [] new-Holds in
      let few' : length bits < 2 ^ 64 = omega arith in
      let words : concat cs ≡ data_words self ws =
        map_ok-injective (concat cs) (data_words self ws)
          (sym same ∙ blocks-finalize framed order self ws bits inv few') in
      let long : 64 * length (concat cs) < length bits + 64 = ground (
        arith,
        ap length words,
        length-words order self ws bits inv few',
        bit_and_mask 6 self.count,
        inv.counted,
      ) in
      let bfit = block_counts-AllFit cs chunked in
      let sfit = sblock_counts-AllFit cs 0 (omega arith) in
      let (b, blocks, bws, bcontrol, bpushed, bparsed, blen, bwidth, bs) =
        built order 12 (block_counts cs) (omega arith) (omega arith) bfit
          (omega (arith, length-block_counts cs)) in
      let (s, sblocks, sws, scontrol, spushed, sparsed, slen, swidth, ss) =
        built order 64 (sblock_counts 0 cs) (omega arith) (omega arith) sfit
          (omega (arith, length-sblock_counts cs 0 chunked)) in
      let accepted = from_bits-finalize order self ws bits inv few' in
      (
        whole self,
        blocks,
        sblocks,
        (LogArray.finalize order b, LogArray.finalize order s),
        (
          accepted,
          rw (
            twelve,
            build_loop-push_vec cs 0 (LogArray.new [] 12) (LogArray.new [] 64) bpushed spushed,
          ),
          bparsed,
          sparsed,
          ground (
            arith,
            blen,
            slen,
            length-block_counts cs,
            length-sblock_counts cs 0 chunked,
            inv.counted,
            long,
            ap length words,
            words-cover order self ws bits inv few',
          ),
        ),
        record {
          data_buf = finalize_data-words order self ws bits inv few' ∙ ap word_bytes (sym words);
          words = rw words (words-AllWords order self ws bits inv few');
          chunked = chunked;
          cover = rw words (words-cover order self ws bits inv few');
          tight = long;
          stored = λ p hp.
              ap (λ t. stream t p) words
              ∙ words-stream order self ws bits inv few' p hp
              ∙ inv.stored p hp;
          padded =
              λ p hp. ap (λ t. stream t p) words ∙ words-padded order self ws bits inv few' p hp;
          block_words = bws;
          block_control = bcontrol;
          blocks_hold = bs;
          sblock_words = sws;
          sblock_control = scontrol;
          sblocks_hold = ss;
        },
      )

  -- For fewer than 2 ^ 38 - 63 bits pushed to a file, with the chunks of its blocks, 52 blocks in each
  -- but the last: `build_bitindex` succeeds, the three files are accepted, `from_parts` does
  -- not panic, and at each index the `rank1` of the result is the number of ones and its `rank0` the
  -- number of zeros up to and including that bit.
  pub rank-build_bitindex :
      (framed : FramedRead)
      → bitarray_stream_blocks framed order file ≡ map ok (concat cs)
      → length bits + 64 ≤ 2 ^ 38
      → (array : BitArray) × (blocks : LogArray) × (sblocks : LogArray) × (files : List ℕ × List ℕ)
        × (index : BitIndex) × (BitArray.from_bits order file ≡ BitArray.parsed array)
        × (build_bitindex order cs ≡ ok files)
        × (LogArray.parse order files.0 ≡ LogArray.parsed blocks)
        × (LogArray.parse order files.1 ≡ LogArray.parsed sblocks)
        × (from_parts array blocks sblocks ≡ ok index)
        × ((i : ℕ)
            → i < length bits
            → (rank1 order index i ≡ ok (count_true (suc i) bits))
              × (rank0 order index i ≡ ok (count_false (suc i) bits)))
  rank-build_bitindex framed same few =
      let (array, blocks, sblocks, files, (p, q, r, s, t), c) = index-Counts framed same few in
      (
        array,
        blocks,
        sblocks,
        files,
        _,
        p,
        q,
        r,
        s,
        t,
        λ i hi. (rank1_lem order _ cs bits c i hi, rank0_lem order _ cs bits c i hi),
      )

  -- For the same index, `rank1_from_range` and `rank0_from_range` on a range that ends within the
  -- bits are the numbers of ones and of zeros in it: those before its end, less those before its start.
  pub rank_from_range-build_bitindex :
      (framed : FramedRead)
      → bitarray_stream_blocks framed order file ≡ map ok (concat cs)
      → length bits + 64 ≤ 2 ^ 38
      → (array : BitArray) × (blocks : LogArray) × (sblocks : LogArray) × (files : List ℕ × List ℕ)
        × (index : BitIndex) × (BitArray.from_bits order file ≡ BitArray.parsed array)
        × (build_bitindex order cs ≡ ok files)
        × (LogArray.parse order files.0 ≡ LogArray.parsed blocks)
        × (LogArray.parse order files.1 ≡ LogArray.parsed sblocks)
        × (from_parts array blocks sblocks ≡ ok index)
        × ((start end : ℕ)
            → start ≤ end
            → end ≤ length bits
            → (rank1_from_range order index start end
                ≡ ok (count_true end bits - count_true start bits))
              × (rank0_from_range order index start end
                  ≡ ok (count_false end bits - count_false start bits)))
  rank_from_range-build_bitindex framed same few =
      let (array, blocks, sblocks, files, (p, q, r, s, t), c) = index-Counts framed same few in
      (
        array,
        blocks,
        sblocks,
        files,
        _,
        p,
        q,
        r,
        s,
        t,
        λ a b h hb. (
          rank1_from_range_lem order _ cs bits c a b h hb,
          rank0_from_range_lem order _ cs bits c a b h hb,
        ),
      )
