-- ===== src/Structure/Select/Correct.antt =====
-- src/structure/bitindex.rs: `select1` and `select0` of an index invert the ranks.
use terminus_store.Prelude.{
  ℕ, zero, suc, ◌+◌, ◌-◌, ◌*◌, ◌/◌, ◌%◌, ◌≤◌, ◌<◌, ◌≡◌, inl, inr, refl, ap, ◌∙◌, sym, arith, Bool,
  true, false, List, length, get_or, Bool-cases, ltb, none, some,
}
use terminus_store.Prelude.Bits.{bit, bit-le-one}
use terminus_store.Prelude.Outcome.{ok, panic}
use terminus_store.Structure.Word.{ByteOrder}
use terminus_store.Structure.LogArray.Stream.{stream}
use terminus_store.Structure.BitArray.Push.{to_bit, bit_or_false}
use terminus_store.Structure.BitIndex.{BitIndex}
use terminus_store.Structure.BitIndex.Ones.{
  ones_upto, count_true, count_false, count_true-add-count_false, count_mono,
}
use terminus_store.Structure.BitIndex.Build.{concat}
use terminus_store.Structure.BitIndex.Counts.{Counts}
use terminus_store.Structure.Select.{
  sblock_rank1, sblock_rank0, block_rank1, block_rank0, select1, select0,
}
use terminus_store.Structure.Select.Scan.{hits}
use terminus_store.Structure.Select.Words.{before, before-both, hits-both}
use terminus_store.Structure.Select.Find.{select_with-some, select_with-none, select_with-panic}
use terminus_store.Structure.Select.Reads.{
  ones_upto-hits, ones_upto-before, bit_or_false-past, count_false-unset, stored_all, ones-true,
  some_words, blocks_len, sblocks_len, block_at, sblock_at, word_at, sblock_zeros, block_zeros,
}

module _ (order : ByteOrder) (index : BitIndex) (cs : List (List ℕ)) (bits : List Bool)
    (c : Counts index cs bits) (there : 0 < length bits) where
  abbrev ws : List ℕ
  ws = concat cs

  -- The bit that was found is the one in the list.
  position : (k q : ℕ) → q < 64 → stream ws (k * 64 + q) ≡ bit (get_or ws k 0) (63 - q)
  unfolding stream
  position k q h =
      ap (λ t. bit (get_or ws t 0) (63 - (k * 64 + q) % 64)) {x = (k * 64 + q) / 64} {y = k}
        (omega arith)
      ∙ ap (bit (get_or ws k 0)) (omega arith)

  ones_at :
      (k q : ℕ)
      → q < 64
      → count_true (suc (k * 64 + q)) bits
        ≡ before true ws k + hits true (get_or ws k 0) q + bit (get_or ws k 0) (63 - q)
  unfolding hits
  ones_at k q h = omega (
    arith,
    (ones-true order index cs bits c there) (suc (k * 64 + q)),
    ap (ones_upto ws) {x = 64 * k + suc q} {y = suc (k * 64 + q)} (omega arith),
    ones_upto-hits ws k (suc q) (omega arith),
    ones_upto-before ws k,
  )

  bit_there : (b : Bool) (x : ℕ) → x ≡ to_bit b → x ≡ 1 → b ≡ true
  bit_there true x e h = refl
  bit_there false x e h = absurd (omega arith)

  bit_clear : (b : Bool) (x : ℕ) → x ≡ to_bit b → x ≡ 0 → b ≡ false
  bit_clear true x e h = absurd (omega arith)
  bit_clear false x e h = refl

  count_true-past : (k : ℕ) → count_true (length bits + k) bits ≡ count_true (length bits) bits
  unfolding count_true
  count_true-past zero = ap (λ t. count_true t bits) (omega arith)
  count_true-past (suc k) = omega (
    arith,
    ap (λ t. count_true t bits) {x = length bits + suc k} {y = suc (length bits + k)} (omega arith),
    count_true-past k,
    ap to_bit (bit_or_false-past bits (length bits + k) (omega arith)),
  )

  all_ones : (k : ℕ) → length ws ≤ k → before true ws k ≡ count_true (length bits) bits
  all_ones k h =
      let e : 64 * k ≡ length bits + (64 * k - length bits) = omega (arith, c.cover) in
      sym (ones_upto-before ws k)
      ∙ (ones-true order index cs bits c there) (64 * k)
      ∙ ap (λ t. count_true t bits) e
      ∙ count_true-past (64 * k - length bits)

  -- A set bit stands inside the list.
  inside_true : (p : ℕ) → bit_or_false bits p ≡ true → p < length bits
  inside_true p e = elim (Bool-cases (ltb p (length bits))) [
    | inl inside ↦ ground arith
    | inr past ↦ let clash = sym e ∙ bit_or_false-past bits p (ground arith) in cc
  ]

  pub select1-some :
      (rank : ℕ)
      → 0 < rank
      → rank ≤ count_true (length bits) bits
      → (p : ℕ) × (select1 order index rank ≡ ok (some p))
        × (p < length bits)
        × (bit_or_false bits p ≡ true)
        × (count_true (suc p) bits ≡ rank)
  unfolding select1
  select1-some rank pos h =
      let (k, q, hk, hq, e, count, one) =
        select_with-some order true (sblock_rank1 order index) (block_rank1 order index) index ws
          c.words (some_words order index cs bits c there) (blocks_len order index cs bits c there)
          (sblocks_len order index cs bits c there) (sblock_at order index cs bits c there)
          (block_at order index cs bits c there) (word_at order index cs bits c there) rank pos
          (omega (arith, all_ones (length ws) (omega arith))) in
      let set : bit_or_false bits (k * 64 + q) ≡ true =
        bit_there (bit_or_false bits (k * 64 + q)) (stream ws (k * 64 + q))
          ((stored_all order index cs bits c there) (k * 64 + q)) (position k q hq ∙ one) in
      (k * 64 + q, e, inside_true (k * 64 + q) set, set, omega (arith, ones_at k q hq))

  pub select1-none :
      (rank : ℕ) → count_true (length bits) bits < rank → select1 order index rank ≡ ok none
  unfolding select1
  select1-none rank h =
      select_with-none order true (sblock_rank1 order index) (block_rank1 order index) index ws
        c.words (some_words order index cs bits c there) (blocks_len order index cs bits c there)
        (sblocks_len order index cs bits c there) (sblock_at order index cs bits c there)
        (block_at order index cs bits c there) (word_at order index cs bits c there) rank
        (omega (arith, all_ones (52 * ((length ws + 51) / 52)) (omega arith)))

  pub select0-some :
      (rank : ℕ)
      → 0 < rank
      → rank ≤ count_false (length bits) bits
      → (p : ℕ) × (select0 order index rank ≡ ok (some p))
        × (p < length bits)
        × (bit_or_false bits p ≡ false)
        × (count_false (suc p) bits ≡ rank)
  unfolding select0
  select0-some rank pos h =
      let zeros = before-both ws (length ws) in
      let all = count_true-add-count_false (length bits) bits in
      let (k, q, hk, hq, e, count, one) =
        select_with-some order false (sblock_rank0 order index) (block_rank0 order index) index ws
          c.words (some_words order index cs bits c there) (blocks_len order index cs bits c there)
          (sblocks_len order index cs bits c there) (sblock_zeros order index cs bits c there)
          (block_zeros order index cs bits c there) (word_at order index cs bits c there) rank pos
          (omega (arith, zeros, all, c.cover, all_ones (length ws) (omega arith))) in
      let clear : bit (get_or ws k 0) (63 - q) ≡ 0 =
        omega (arith, one, bit-le-one (get_or ws k 0) (63 - q)) in
      let unset : bit_or_false bits (k * 64 + q) ≡ false =
        bit_clear (bit_or_false bits (k * 64 + q)) (stream ws (k * 64 + q))
          ((stored_all order index cs bits c there) (k * 64 + q)) (position k q hq ∙ clear) in
      let counted : count_false (suc (k * 64 + q)) bits ≡ rank = omega (
        arith,
        ones_at k q hq,
        before-both ws k,
        hits-both (get_or ws k 0) q,
        count_true-add-count_false (suc (k * 64 + q)) bits,
      ) in
      (k * 64 + q, e, inside_false (k * 64 + q) rank counted unset h, unset, counted)
    where
      inside_false :
          (p rank : ℕ)
          → count_false (suc p) bits ≡ rank
          → bit_or_false bits p ≡ false
          → rank ≤ count_false (length bits) bits
          → p < length bits
      inside_false p rank e unset h = elim (Bool-cases (ltb p (length bits))) [
        | inl inside ↦ ground arith
        | inr past ↦
            let le : length bits ≤ p = ground arith in
            let last : count_false (suc p) bits ≡ count_false p bits + 1 =
              count_false-unset p bits unset in
            absurd (
              omega (
                arith,
                last,
                (count_mono (length bits) (p - length bits) bits).1,
                ap (λ t. count_false t bits) {x = length bits + (p - length bits)} {y = p}
                    (omega arith),
              ))
      ]

  pub select0_panic :
      (rank : ℕ)
      → length bits ≤ 64
      → 64 < rank
      → rank + count_true (length bits) bits ≤ 3328
      → select0 order index rank ≡ panic
  unfolding select0
  select0_panic rank short big high =
      select_with-panic order false (sblock_rank0 order index) (block_rank0 order index) index ws
        c.words (some_words order index cs bits c there) (blocks_len order index cs bits c there)
        (sblocks_len order index cs bits c there) (sblock_zeros order index cs bits c there)
        (block_zeros order index cs bits c there) (word_at order index cs bits c there) rank
        (omega (arith, c.tight, c.cover)) big
        (omega (arith, before-both ws 52, all_ones 52 (omega arith)))
