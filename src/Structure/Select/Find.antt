-- ===== src/Structure/Select/Find.antt =====
-- src/structure/bitindex.rs: a select finds the block and the bit, given the ranks that it reads.
use terminus_store.Prelude.{
  ℕ, suc, ◌+◌, ◌-◌, ◌*◌, ◌/◌, ◌≤◌, ◌<◌, ◌≡◌, ◌⊎◌, inl, inr, refl, ap, ◌∙◌, arith, Bool, true, false,
  if◌then◌else◌, List, length, get_or, Bool-cases, ltb, ◌==◌, Option, none, some,
}
use terminus_store.Prelude.Outcome.{Outcome, ok, panic}
use terminus_store.Structure.Word.{ByteOrder}
use terminus_store.Structure.Word.Bytes.{AllWords}
use terminus_store.Structure.BitIndex.{BitIndex, block_num}
use terminus_store.Structure.Select.{
  select_sblock, select_block, select_with, scan_loop, sblock_loop, block_loop,
}
use terminus_store.Structure.Select.Search.{
  IsFirst, sblock_loop-IsFirst, IsLastBelow, block_loop-IsLastBelow,
}
use terminus_store.Structure.Select.Scan.{hit, hits, IsHit, scan-word}
use terminus_store.Structure.Select.Words.{before, before_mono, hits-both, AllWords-get_or}

module _ (order : ByteOrder) (wanted : Bool) (sr br : ℕ → Outcome ℕ) (index : BitIndex)
    (ws : List ℕ) (all : AllWords ws) (some_words : 0 < length ws)
    (blocks_len : index.blocks.len ≡ length ws)
    (sblocks_len : index.sblocks.len ≡ (length ws + 51) / 52)
    (sreads : (j : ℕ) → j < (length ws + 51) / 52 → sr j ≡ ok (before wanted ws (52 * (j + 1))))
    (breads : (k : ℕ)
      → k < length ws
      → br k ≡ ok (before wanted ws (52 * (k / 52 + 1)) - before wanted ws k))
    (word : (k : ℕ) → k < length ws → block_num order index k ≡ ok (get_or ws k 0)) where
  abbrev g : ℕ → ℕ
  g k = before wanted ws k

  abbrev up_to : ℕ → ℕ
  up_to j = before wanted ws (52 * (j + 1))

  sblock-IsFirst :
      (rank : ℕ)
      → (r : ℕ) × (select_sblock sr index rank ≡ ok r)
        × IsFirst up_to ((length ws + 51) / 52 - 1) rank r
  unfolding select_sblock
  sblock-IsFirst rank =
      let last : ℕ = (length ws + 51) / 52 - 1 in
      let (r, e, found) =
        sblock_loop-IsFirst sr up_to last rank (λ j hj. sreads j (omega arith))
          (λ i j h. before_mono wanted ws (52 * (i + 1)) (52 * (j + 1)) (omega arith))
          index.sblocks.len 0 last (omega arith) (omega arith) (omega (arith, sblocks_len))
          (λ j hj. absurd (omega arith)) (inl refl) in
      let end : index.sblocks.len - 1 ≡ last = omega (arith, sblocks_len) in
      (r, ground (arith, sblocks_len, e, ap (sblock_loop sr rank index.sblocks.len 0) end), found)

  -- The last block of a superblock.
  abbrev last_of : ℕ → ℕ
  last_of j = if ltb (length ws - 1) (j * 52 + 52 - 1) then length ws - 1 else j * 52 + 52 - 1

  block-IsLastBelow :
      (j rank : ℕ)
      → j < (length ws + 51) / 52
      → g (52 * j) < rank
      → rank ≤ up_to j
      → (k : ℕ) × (select_block br index j (up_to j - rank) ≡ ok k)
        × IsLastBelow g (j * 52) (last_of j) rank k
  unfolding select_block
  block-IsLastBelow j rank hj low high =
      let inside : (last_of j < length ws) × (last_of j < j * 52 + 52) × (j * 52 ≤ last_of j) =
        ground arith in
      let (k, e, found) =
        block_loop-IsLastBelow br g (j * 52) (last_of j) (up_to j) rank
          (λ k hk hl.
            breads k (omega arith)
            ∙ ap (λ t. ok (before wanted ws (52 * (t + 1)) - before wanted ws k)) {x = k / 52}
                {y = j} (omega arith))
          high 52 (j * 52) (last_of j) (omega arith) (omega arith) (omega arith) (omega arith)
          (omega (arith, ap g {x = j * 52} {y = 52 * j} (omega arith))) (inl refl) in
      let end : (if ltb (index.blocks.len - 1) (j * 52 + 52 - 1)
            then index.blocks.len - 1
            else j * 52 + 52 - 1)
          ≡ last_of j =
        ap (λ n. if ltb (n - 1) (j * 52 + 52 - 1) then n - 1 else j * 52 + 52 - 1) blocks_len in
      (k, ground (arith, blocks_len, e, ap (block_loop br (up_to j - rank) 52 (j * 52)) end), found)

  -- Past all superblocks there is nothing to find.
  pub select_with-none :
      (rank : ℕ)
      → before wanted ws (52 * ((length ws + 51) / 52)) < rank
      → select_with order wanted sr br index rank ≡ ok none
  unfolding select_with
  select_with-none rank h =
      let (r, e, (in_sblocks, low, up)) = sblock-IsFirst rank in
      let total : ℕ = before wanted ws (52 * ((length ws + 51) / 52)) in
      let le : up_to r ≤ total =
        before_mono wanted ws (52 * (r + 1)) (52 * ((length ws + 51) / 52)) (omega arith) in
      rw (e, sreads r (omega arith)) (ground arith)

  -- The chosen superblock, block and word.
  assembled :
      (rank j k : ℕ) {found : Option ℕ}
      → select_sblock sr index rank ≡ ok j
      → j < (length ws + 51) / 52
      → rank ≤ up_to j
      → select_block br index j (up_to j - rank) ≡ ok k
      → k / 52 ≡ j
      → k < length ws
      → g k < rank
      → rank - g k ≤ 64
      → scan_loop wanted k 64 0 (get_or ws k 0) (rank - g k) ≡ ok found
      → select_with order wanted sr br index rank ≡ ok found
  unfolding select_with
  assembled rank j k ej hj high ek same hk low small e =
      let le : g k ≤ up_to j = before_mono wanted ws k (52 * (j + 1)) (omega arith) in
      let br_k : br k ≡ ok (up_to j - g k) =
        breads k hk ∙ ap (λ t. ok (before wanted ws (52 * (t + 1)) - g k)) same in
      let back : up_to j - (up_to j - g k) ≡ g k = omega arith in
      let tally : rank - (up_to j - (up_to j - g k)) ≡ rank - g k = omega arith in
      rw (ej, sreads j hj)
        (ground (arith, ek, br_k, word k hk, e, ap (scan_loop wanted k 64 0 (get_or ws k 0)) tally))

  none_before : g 0 ≡ 0
  unfolding before
  none_before = refl

  -- The superblock that the search finds has the bit of the rank.
  sblock_covers :
      (rank j : ℕ)
      → 0 < rank
      → rank ≤ before wanted ws (length ws)
      → IsFirst up_to ((length ws + 51) / 52 - 1) rank j
      → (j < (length ws + 51) / 52) × (g (52 * j) < rank) × (rank ≤ up_to j)
  sblock_covers rank j pos h (le, low, up) = (omega arith, starts, ends up)
    where
      starts : g (52 * j) < rank
      starts = elim (Bool-cases (j == 0)) [
        | inl zeroth ↦ omega (arith, none_before, ap g {x = 52 * j} {y = 0} (ground arith))
        | inr later ↦
            let at : 0 < j = ground arith in
            omega (
              arith,
              low (j - 1) (omega arith),
              ap g {x = 52 * (j - 1 + 1)} {y = 52 * j} (omega arith),
            )
      ]

      ends : ((j ≡ (length ws + 51) / 52 - 1) ⊎ (rank ≤ up_to j)) → rank ≤ up_to j
      ends (inr e) = e
      ends (inl e) = omega (arith, before_mono wanted ws (length ws) (52 * (j + 1)) (omega arith))

  -- So has the block.
  block_covers :
      (rank j k : ℕ)
      → j < (length ws + 51) / 52
      → rank ≤ up_to j
      → rank ≤ before wanted ws (length ws)
      → IsLastBelow g (j * 52) (last_of j) rank k
      → (k / 52 ≡ j) × (k < length ws) × (rank ≤ g (suc k))
  block_covers rank j k hj high h (lo, hi, less, up) =
      let inside : (last_of j < length ws) × (last_of j < j * 52 + 52) = ground arith in
      (omega arith, omega arith, ends up)
    where
      ends : ((k ≡ last_of j) ⊎ (rank ≤ g (k + 1))) → rank ≤ g (suc k)
      ends (inr e) = omega (arith, ap g {x = k + 1} {y = suc k} (omega arith))
      ends (inl e) = elim (Bool-cases (ltb (length ws - 1) (j * 52 + 52 - 1))) [
        | inl short ↦ omega (arith, ap g {x = suc k} {y = length ws} (ground arith))
        | inr full ↦ omega (arith, ap g {x = suc k} {y = 52 * (j + 1)} (ground arith))
      ]

  hits-le : (w : ℕ) → hits wanted w 64 ≤ 64
  hits-le w = polarity wanted
    where
      polarity : (b : Bool) → hits b w 64 ≤ 64
      polarity true = omega (arith, hits-both w 64)
      polarity false = omega (arith, hits-both w 64)

  next_before : (k : ℕ) → g (suc k) ≡ g k + hits wanted (get_or ws k 0) 64
  unfolding before
  next_before k = refl

  pub select_with-some :
      (rank : ℕ)
      → 0 < rank
      → rank ≤ before wanted ws (length ws)
      → (k : ℕ) × (q : ℕ) × (k < length ws)
        × (q < 64)
        × (select_with order wanted sr br index rank ≡ ok (some (k * 64 + q)))
        × (before wanted ws k + hits wanted (get_or ws k 0) q + 1 ≡ rank)
        × (hit wanted (get_or ws k 0) q ≡ 1)
  select_with-some rank pos h =
      let (j, ej, first) = sblock-IsFirst rank in
      let (hj, low, high) = sblock_covers rank j pos h first in
      let (k, ek, last) = block-IsLastBelow j rank hj low high in
      let (same, inside, next) = block_covers rank j k hj high h last in
      let less : g k < rank = last.2 in
      let w : ℕ = get_or ws k 0 in
      let bound : rank - g k ≤ hits wanted w 64 = omega (arith, next_before k) in
      let (found, e, hit_there) =
        scan-word wanted k w (rank - g k) (AllWords-get_or ws k all) (omega arith) in
      answer k inside less bound found hit_there
        (assembled rank j k ej hj high ek same inside less (omega (arith, hits-le w)) e)
    where
      answer :
          (k : ℕ)
          → k < length ws
          → g k < rank
          → rank - g k ≤ hits wanted (get_or ws k 0) 64
          → (found : Option ℕ) → IsHit wanted k (get_or ws k 0) (rank - g k) found
          → select_with order wanted sr br index rank ≡ ok found
          → (k : ℕ) × (q : ℕ) × (k < length ws)
            × (q < 64)
            × (select_with order wanted sr br index rank ≡ ok (some (k * 64 + q)))
            × (before wanted ws k + hits wanted (get_or ws k 0) q + 1 ≡ rank)
            × (hit wanted (get_or ws k 0) q ≡ 1)
      answer k inside less bound none few e = absurd (omega arith)
      answer k inside less bound (some p) (q, hq, place, count, one) e =
          (k, q, inside, hq, e ∙ ap (λ t. ok (some t)) place, omega arith, one)

  first_block : (k j : ℕ) → k ≡ 0 → j ≡ 0 → (g k ≡ 0) × (br k ≡ ok (up_to j))
  first_block k j k_zero j_zero =
      let none_yet : g k ≡ 0 = ap g {x = k} {y = 0} k_zero ∙ none_before in
      (
        none_yet,
        breads k (omega arith)
            ∙ ap ok {x = before wanted ws (52 * (k / 52 + 1)) - before wanted ws k} {y = up_to j}
                (omega (arith, none_yet, ap up_to {x = k / 52} {y = j} (omega arith))),
      )

  -- With one word, a rank above 64 that the superblock's count, as if full, still covers.
  pub select_with-panic :
      (rank : ℕ)
      → length ws ≡ 1
      → 64 < rank
      → rank ≤ before wanted ws 52
      → select_with order wanted sr br index rank ≡ panic
  unfolding select_with
  select_with-panic rank one big high =
      let (j, ej, (in_sblocks, low, up)) = sblock-IsFirst rank in
      let zeroth : j ≡ 0 = omega arith in
      let high' : rank ≤ up_to j = omega (arith, ap up_to {x = j} {y = 0} zeroth) in
      let start : g (52 * j) < rank =
        omega (arith, none_before, ap g {x = 52 * j} {y = 0} (omega arith)) in
      let (k, ek, (first, last, less, next)) = block-IsLastBelow j rank (omega arith) start high' in
      let inside : last_of j < length ws = ground arith in
      let k_zero : k ≡ 0 = omega arith in
      let (none_yet, br_k) = first_block k j k_zero zeroth in
      rw (ej, sreads j (omega arith)) (ground (arith, ek, br_k))
