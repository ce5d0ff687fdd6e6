-- ===== src/Structure/Select/Build.antt =====
-- src/structure/bitindex.rs: `select1` and `select0` of an index that `build_bitindex` wrote.
use terminus_store.Prelude.{
  map, ℕ, suc, ◌+◌, ◌^◌, ◌≤◌, ◌<◌, ◌≡◌, arith, Bool, true, false, List, length, Bool-cases, inl,
  inr, leb, Option, none, some,
}
use terminus_store.Prelude.Outcome.{ok, panic}
use terminus_store.Structure.Framed.{FramedRead}
use terminus_store.Structure.Word.{ByteOrder}
use terminus_store.Structure.LogArray.{LogArray}
use terminus_store.Structure.BitArray.{BitArray, bitarray_stream_blocks}
use terminus_store.Structure.BitArray.Push.{bit_or_false}
use terminus_store.Structure.BitIndex.{BitIndex}
use terminus_store.Structure.BitIndex.Ones.{count_true, count_false}
use terminus_store.Structure.BitIndex.Build.{AllChunks, concat}
use terminus_store.Structure.BitIndex.Rank.{Indexes, file, index-Counts}
use terminus_store.Structure.Select.{select1, select0}
use terminus_store.Structure.Select.Correct.{
  select1-some, select1-none, select0-some, select0_panic,
}

-- The position of the set bit that has the rank, or none where fewer bits are set.
abbrev pub IsSelected1 : List Bool → ℕ → Option ℕ → Type 0
IsSelected1 bits rank (some p) =
    (p < length bits) × (bit_or_false bits p ≡ true) × (count_true (suc p) bits ≡ rank)
IsSelected1 bits rank none = count_true (length bits) bits < rank

module _ (order : ByteOrder) (bits : List Bool) (cs : List (List ℕ)) (chunked : AllChunks cs) where
  -- What a query comes to on the index of the bits.
  abbrev pub OnIndex : (BitIndex → Type 0) → Type 0
  OnIndex P =
      (array : BitArray) × (blocks : LogArray) × (sblocks : LogArray) × (files : List ℕ × List ℕ)
      × Indexes order bits cs chunked array blocks sblocks files
      × P (record { array = array; blocks = blocks; sblocks = sblocks })

module _ (order : ByteOrder) (bits : List Bool) (cs : List (List ℕ)) (chunked : AllChunks cs)
    (framed : FramedRead)
    (same : bitarray_stream_blocks framed order (file order bits cs chunked) ≡ map ok (concat cs))
    (few : length bits + 64 ≤ 2 ^ 38) (there : 0 < length bits) (rank : ℕ) where
  -- For the index of a nonempty list of fewer than 2 ^ 38 - 63 bits and a positive rank, `select1`
  -- returns the position of the set bit up to and including which as many are set as the rank says,
  -- and none exactly where fewer bits are set.
  pub select1-build_bitindex :
      0 < rank
      → OnIndex order bits cs chunked (λ index.
        (found : Option ℕ) × (select1 order index rank ≡ ok found) × IsSelected1 bits rank found)
  select1-build_bitindex pos =
      let (array, blocks, sblocks, files, built, c) =
        index-Counts order bits cs chunked framed same few in
      (
        array,
        blocks,
        sblocks,
        files,
        built,
        elim (Bool-cases (leb rank (count_true (length bits) bits))) [
          | inl enough ↦
              (let (p, e, inside, set, count) =
                  select1-some order _ cs bits c there rank pos (ground arith) in
                (some p, e, (inside, set, count)))
          | inr short ↦
              (none, select1-none order _ cs bits c there rank (ground arith), ground arith)
        ],
      )

  -- For the same index and a positive rank of at most as many bits as are clear, `select0` returns
  -- the position of the clear bit up to and including which as many are clear as the rank says.
  pub select0-build_bitindex :
      0 < rank
      → rank ≤ count_false (length bits) bits
      → OnIndex order bits cs chunked (λ index.
        (p : ℕ) × (select0 order index rank ≡ ok (some p))
        × (p < length bits)
        × (bit_or_false bits p ≡ false)
        × (count_false (suc p) bits ≡ rank))
  select0-build_bitindex pos enough =
      let (array, blocks, sblocks, files, built, c) =
        index-Counts order bits cs chunked framed same few in
      (array, blocks, sblocks, files, built, select0-some order _ cs bits c there rank pos enough)

  -- For the index of 1 to 64 bits and a rank above 64 that with the set bits makes at most 3328,
  -- `select0` panics, although no bit has that rank.
  pub select0-panics :
      length bits ≤ 64
      → 64 < rank
      → rank + count_true (length bits) bits ≤ 3328
      → OnIndex order bits cs chunked (λ index. select0 order index rank ≡ panic)
  select0-panics short big high =
      let (array, blocks, sblocks, files, built, c) =
        index-Counts order bits cs chunked framed same few in
      (
        array,
        blocks,
        sblocks,
        files,
        built,
        select0_panic order _ cs bits c there rank short big high,
      )
