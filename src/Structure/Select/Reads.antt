-- ===== src/Structure/Select/Reads.antt =====
-- src/structure/bitindex.rs: what the selects read of an index whose parts hold the bits.
use terminus_store.Prelude.{
  ℕ, zero, suc, ◌+◌, ◌-◌, ◌*◌, ◌/◌, ◌%◌, ◌≤◌, ◌<◌, ◌≡◌, inl, inr, refl, ap, ◌∙◌, sym, arith, Bool,
  true, false, List, [], ◌∷◌, ◌++◌, length, get_or, append-nil, Bool-cases, ltb,
}
use terminus_store.Prelude.Bits.{bit}
use terminus_store.Prelude.Outcome.{ok}
use terminus_store.Structure.Word.{ByteOrder, read_u64_at}
use terminus_store.Structure.Word.Bytes.{word_bytes, read_u64_at-word_bytes}
use terminus_store.Structure.LogArray.RoundTrip.{entry_lem}
use terminus_store.Structure.LogArray.Stream.{stream}
use terminus_store.Structure.BitArray.Push.{to_bit, bit_or_false}
use terminus_store.Structure.BitIndex.{BitIndex, block_num}
use terminus_store.Structure.BitIndex.Ones.{
  ones_upto, count_true, count_false, ones_upto-count_true,
}
use terminus_store.Structure.BitIndex.Build.{
  sblock_counts, block_counts, concat, counts_lem, length-block_counts, length-sblock_counts,
}
use terminus_store.Structure.BitIndex.Counts.{Counts}
use terminus_store.Structure.Select.{sblock_rank1, sblock_rank0, block_rank1, block_rank0}
use terminus_store.Structure.Select.Scan.{hits}
use terminus_store.Structure.Select.Words.{
  before, before_mono, before-both, before-ones, sblock_counts-ones,
}

-- The ones before a position, by whole words and the bits of the last one.
pub ones_upto-hits :
    (ws : List ℕ) (k q : ℕ)
    → q ≤ 64
    → ones_upto ws (64 * k + q) ≡ ones_upto ws (64 * k) + hits true (get_or ws k 0) q
unfolding ones_upto hits stream
ones_upto-hits ws k zero h =
    omega (arith, ap (ones_upto ws) {x = 64 * k + 0} {y = 64 * k} (omega arith))
ones_upto-hits ws k (suc q) h = omega (
  arith,
  ones_upto-hits ws k q (omega arith),
  ap (ones_upto ws) {x = 64 * k + suc q} {y = suc (64 * k + q)} (omega arith),
  ap (λ t. bit (get_or ws t 0) (63 - (64 * k + q) % 64)) {x = (64 * k + q) / 64} {y = k}
      (omega arith),
  ap (bit (get_or ws k 0)) {x = 63 - (64 * k + q) % 64} {y = 63 - q} (omega arith),
)

pub ones_upto-before : (ws : List ℕ) (k : ℕ) → ones_upto ws (64 * k) ≡ before true ws k
unfolding before
ones_upto-before ws zero =
    ap (ones_upto ws) {x = 64 * 0} {y = 0} (omega arith) ∙ (unfold ones_upto in refl)
ones_upto-before ws (suc k) =
    ap (ones_upto ws) {x = 64 * suc k} {y = 64 * k + 64} (omega arith)
    ∙ omega (arith, ones_upto-hits ws k 64 (omega arith), ones_upto-before ws k)

pub bit_or_false-past : (bits : List Bool) (p : ℕ) → length bits ≤ p → bit_or_false bits p ≡ false
bit_or_false-past [] p h = refl
bit_or_false-past (b ∷ bits) zero h = absurd (omega arith)
bit_or_false-past (b ∷ bits) (suc p) h = bit_or_false-past bits p (omega arith)

pub count_false-unset :
    (p : ℕ) (bits : List Bool)
    → bit_or_false bits p ≡ false
    → count_false (suc p) bits ≡ count_false p bits + 1
unfolding count_false
count_false-unset p bits e = omega (arith, ap to_bit e)

module _ (order : ByteOrder) (index : BitIndex) (cs : List (List ℕ)) (bits : List Bool)
    (c : Counts index cs bits) (there : 0 < length bits) where
  abbrev ws : List ℕ
  ws = concat cs

  pub stored_all : (p : ℕ) → stream ws p ≡ to_bit (bit_or_false bits p)
  stored_all p = elim (Bool-cases (ltb p (length bits))) [
    | inl inside ↦ c.stored p (ground arith)
    | inr past ↦
        c.padded p (ground arith) ∙ ap to_bit (sym (bit_or_false-past bits p (ground arith)))
  ]

  pub ones-true : (n : ℕ) → ones_upto ws n ≡ count_true n bits
  ones-true n = ones_upto-count_true ws bits n (λ p hp. stored_all p)

  pub some_words : 0 < length ws
  some_words = omega (arith, c.cover)

  pub blocks_len : index.blocks.len ≡ length ws
  blocks_len = c.blocks_hold.sized ∙ length-block_counts cs

  pub sblocks_len : index.sblocks.len ≡ (length ws + 51) / 52
  sblocks_len = c.sblocks_hold.sized ∙ length-sblock_counts cs 0 c.chunked

  pub block_at :
      (k : ℕ)
      → k < length ws
      → block_rank1 order index k ≡ ok (before true ws (52 * (k / 52 + 1)) - before true ws k)
  unfolding block_rank1
  block_at k h =
      entry_lem order index.blocks c.block_words c.block_control (block_counts cs) c.blocks_hold k
        (omega (arith, length-block_counts cs))
      ∙ ap ok (
          omega (
            arith,
            counts_lem cs 0 k c.chunked h,
            sblock_counts-ones cs 0 (k / 52) c.chunked
                (omega (arith, length-sblock_counts cs 0 c.chunked)),
            before-ones ws c.words k,
            before-ones ws c.words (52 * (k / 52 + 1)),
          ))

  pub sblock_at :
      (j : ℕ)
      → j < (length ws + 51) / 52
      → sblock_rank1 order index j ≡ ok (before true ws (52 * (j + 1)))
  unfolding sblock_rank1
  sblock_at j h =
      let inside : j < length (sblock_counts 0 cs) =
        omega (arith, length-sblock_counts cs 0 c.chunked) in
      entry_lem order index.sblocks c.sblock_words c.sblock_control (sblock_counts 0 cs)
        c.sblocks_hold j inside
      ∙ ap ok (
          omega (
            arith,
            sblock_counts-ones cs 0 j c.chunked inside,
            before-ones ws c.words (52 * (j + 1)),
          ))

  pub word_at : (k : ℕ) → k < length ws → block_num order index k ≡ ok (get_or ws k 0)
  unfolding block_num
  word_at k h =
      ap (λ buf. read_u64_at order buf (k * 8)) (c.data_buf ∙ sym (append-nil (word_bytes ws)))
      ∙ ap (read_u64_at order (word_bytes ws ++ [])) {x = k * 8} {y = 8 * k} (omega arith)
      ∙ read_u64_at-word_bytes order ws [] k c.words h

  pub sblock_zeros :
      (j : ℕ)
      → j < (length ws + 51) / 52
      → sblock_rank0 order index j ≡ ok (before false ws (52 * (j + 1)))
  unfolding sblock_rank0 sblock_rank1
  sblock_zeros j h = ground (arith, sblock_at j h, before-both ws (52 * (j + 1)))

  pub block_zeros :
      (k : ℕ)
      → k < length ws
      → block_rank0 order index k ≡ ok (before false ws (52 * (k / 52 + 1)) - before false ws k)
  unfolding block_rank0 block_rank1
  block_zeros k h = ground (
    arith,
    block_at k h,
    before-both ws (52 * (k / 52 + 1)),
    before-both ws k,
    before_mono true ws k (52 * (k / 52 + 1)) (omega arith),
    before_mono false ws k (52 * (k / 52 + 1)) (omega arith),
  )
