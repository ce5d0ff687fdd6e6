-- ===== src/Structure/BitIndex/Counts.antt =====
-- src/structure/bitindex.rs: the ranks of an index whose parts hold the words and their counts.
use terminus_store.Prelude.{
  ℕ, suc, ◌+◌, ◌-◌, ◌*◌, ◌/◌, ◌%◌, ◌≤◌, ◌<◌, ◌≡◌, refl, ap, ◌∙◌, sym, arith, Bool, List, [], ◌++◌,
  length, get_or, ◌==◌, if◌then◌else◌, append-nil, Bool-cases, inl, inr,
}
use terminus_store.Prelude.Outcome.{Outcome, ok, ◌>>=◌}
use terminus_store.Structure.Word.{ByteOrder, read_u64_at, checked_sub}
use terminus_store.Structure.Word.Bytes.{word_bytes, AllWords, read_u64_at-word_bytes}
use terminus_store.Structure.LogArray
use terminus_store.Structure.LogArray.{LogArray, LogArrayFileBuilder}
use terminus_store.Structure.LogArray.Stream.{stream}
use terminus_store.Structure.LogArray.RoundTrip.{Stores, entry_lem}
use terminus_store.Structure.BitArray.Push.{to_bit, bit_or_false}
use terminus_store.Structure.BitIndex.{
  BitIndex, block_num, rank1, rank1_from_range, rank0, rank0_from_range,
}
use terminus_store.Structure.BitIndex.Ones.{
  ones_upto, count_true, count_false, count_true-add-count_false, count_mono, ones_upto-count_true,
  ones_upto-words,
}
use terminus_store.Structure.BitIndex.Build.{
  block_counts, sblock_counts, AllChunks, concat, counts_lem, length-block_counts,
  length-sblock_counts,
}

-- An index whose parts hold the words of the bits and the counts of their chunks.
pub record Counts (index : BitIndex) (cs : List (List ℕ)) (bits : List Bool) : Type 0 where
  pub data_buf : index.array.buf ≡ word_bytes (concat cs)
  pub words : AllWords (concat cs)
  pub chunked : AllChunks cs
  pub cover : length bits ≤ 64 * length (concat cs)
  pub tight : 64 * length (concat cs) < length bits + 64
  pub stored : (p : ℕ) → p < length bits → stream (concat cs) p ≡ to_bit (bit_or_false bits p)
  pub padded : (p : ℕ) → length bits ≤ p → stream (concat cs) p ≡ 0
  pub block_words : List ℕ
  pub block_control : List ℕ
  pub blocks_hold : Stores index.blocks block_words block_control (block_counts cs)
  pub sblock_words : List ℕ
  pub sblock_control : List ℕ
  pub sblocks_hold : Stores index.sblocks sblock_words sblock_control (sblock_counts 0 cs)

module _ (order : ByteOrder) (index : BitIndex) (cs : List (List ℕ)) (bits : List Bool)
    (c : Counts index cs bits) (i : ℕ) (hi : i < length bits) where
  block-inside : i / 64 < length (concat cs)
  block-inside = omega (arith, c.cover)

  block-entry :
      LogArray.entry order index.blocks (i / 64) ≡ ok (get_or (block_counts cs) (i / 64) 0)
  block-entry =
      entry_lem order index.blocks c.block_words c.block_control (block_counts cs) c.blocks_hold
        (i / 64) (omega (arith, length-block_counts cs, block-inside))

  sblock-entry :
      LogArray.entry order index.sblocks (i / 64 / 52)
      ≡ ok (get_or (sblock_counts 0 cs) (i / 64 / 52) 0)
  sblock-entry =
      entry_lem order index.sblocks c.sblock_words c.sblock_control (sblock_counts 0 cs)
        c.sblocks_hold (i / 64 / 52)
        (omega (arith, length-sblock_counts cs 0 c.chunked, block-inside))

  block-word : block_num order index (i / 64) ≡ ok (get_or (concat cs) (i / 64) 0)
  unfolding block_num
  block-word =
      ap (λ buf. read_u64_at order buf (i / 64 * 8))
        (c.data_buf ∙ sym (append-nil (word_bytes (concat cs))))
      ∙ ap (read_u64_at order (word_bytes (concat cs) ++ [])) {x = i / 64 * 8} {y = 8 * (i / 64)}
          (omega arith)
      ∙ read_u64_at-word_bytes order (concat cs) [] (i / 64) c.words block-inside

  pub rank1_lem : rank1 order index i ≡ ok (count_true (suc i) bits)
  unfolding rank1
  rank1_lem = ground (
    arith,
    block-entry,
    sblock-entry,
    block-word,
    counts_lem cs 0 (i / 64) c.chunked block-inside,
    ones_upto-words (concat cs) (i / 64) (i % 64) c.words block-inside (omega arith),
    ap (ones_upto (concat cs)) {x = 64 * (i / 64) + i % 64 + 1} {y = suc i} (omega arith),
    ones_upto-count_true (concat cs) bits (suc i) (λ p hp. c.stored p (omega arith)),
  )

  pub rank0_lem : rank0 order index i ≡ ok (count_false (suc i) bits)
  unfolding rank0
  rank0_lem = ground (arith, rank1_lem, count_true-add-count_false (suc i) bits)

-- The difference of two ranks, for a rank that counts the positions below and at an index.
abbrev from_range : (ℕ → Outcome ℕ) → ℕ → ℕ → Outcome ℕ
from_range rank start end = if start == end then ok 0 else (do
  last ← checked_sub end 1
  r ← rank last
  let rest = (do before ← rank (start - 1); checked_sub r before)
  if◌then◌else◌ (start == 0) (ok r) rest)

module _ (rank : ℕ → Outcome ℕ) (g : ℕ → ℕ) (none_below : g 0 ≡ 0) (start end : ℕ)
    (ordered : start ≤ end) (mono : g start ≤ g end)
    (ranks : (i : ℕ) → i < end → rank i ≡ ok (g (suc i))) where
  from_range_lem : from_range rank start end ≡ ok (g end - g start)
  from_range_lem = elim (Bool-cases (start == end)) [
    | inl same ↦ ground (arith, ap g {x = start} {y = end} (ground arith))
    | inr apart ↦
        let lt : start < end = ground arith in
        let last = ranks (end - 1) (omega arith) in
        let last' = ap g {x = suc (end - 1)} {y = end} (omega arith) in
        elim (Bool-cases (start == 0)) [
          | inl zeroth ↦
              ground (arith, last, last', ap g {x = start} {y = 0} (ground arith), none_below)
          | inr later ↦
              let pos : 0 < start = ground arith in
              let before = ranks (start - 1) (omega arith) in
              let before' = ap g {x = suc (start - 1)} {y = start} (omega arith) in
              ground (arith, last, last', before, before')
        ]
  ]

module _ (order : ByteOrder) (index : BitIndex) (cs : List (List ℕ)) (bits : List Bool)
    (c : Counts index cs bits) (start end : ℕ) (ordered : start ≤ end)
    (he : end ≤ length bits) where
  mono :
      (count_true start bits ≤ count_true end bits)
      × (count_false start bits ≤ count_false end bits)
  mono = rw (total start end ordered) at (count_mono start (end - start) bits)
    where
      total : (a b : ℕ) → a ≤ b → a + (b - a) ≡ b
      total a b h = omega arith

  pub rank1_from_range_lem :
      rank1_from_range order index start end ≡ ok (count_true end bits - count_true start bits)
  unfolding rank1_from_range
  rank1_from_range_lem =
      from_range_lem (rank1 order index) (λ n. count_true n bits) (unfold count_true in refl) start
        end ordered mono.0 (λ i hi. rank1_lem order index cs bits c i (omega arith))

  pub rank0_from_range_lem :
      rank0_from_range order index start end ≡ ok (count_false end bits - count_false start bits)
  unfolding rank0_from_range
  rank0_from_range_lem =
      from_range_lem (rank0 order index) (λ n. count_false n bits) (unfold count_false in refl)
        start end ordered mono.1 (λ i hi. rank0_lem order index cs bits c i (omega arith))
