-- ===== src/Structure/Select/Search.antt =====
-- src/structure/bitindex.rs: the two binary searches of a select.
use terminus_store.Prelude.{
  ℕ, zero, suc, ◌+◌, ◌-◌, ◌/◌, ◌≤◌, ◌<◌, ◌≡◌, ◌⊎◌, inl, inr, ap, ◌∙◌, arith, Bool-cases, ltb, ◌==◌,
}
use terminus_store.Prelude.Outcome.{Outcome, ok}
use terminus_store.Structure.Select.{sblock_loop, block_loop}

-- The first index whose value is at least the rank, or the last index.
abbrev pub IsFirst : (ℕ → ℕ) → ℕ → ℕ → ℕ → Type 0
IsFirst g last rank r = (r ≤ last) × ((j : ℕ) → j < r → g j < rank) × ((r ≡ last) ⊎ (rank ≤ g r))

module _ (rank_of : ℕ → Outcome ℕ) (g : ℕ → ℕ) (last rank : ℕ)
    (reads : (j : ℕ) → j ≤ last → rank_of j ≡ ok (g j)) (mono : (i j : ℕ) → i ≤ j → g i ≤ g j) where
  sblock-end : (fuel start : ℕ) → sblock_loop rank_of rank (suc fuel) start start ≡ ok start
  unfolding sblock_loop
  sblock-end fuel start = ground arith

  sblock-up :
      (fuel start end : ℕ)
      → start < end
      → end ≤ last
      → g ((start + end) / 2) < rank
      → sblock_loop rank_of rank (suc fuel) start end
        ≡ sblock_loop rank_of rank fuel ((start + end) / 2 + 1) end
  unfolding sblock_loop
  sblock-up fuel start end h he less = ground (arith, reads ((start + end) / 2) (omega arith))

  sblock-down :
      (fuel start end : ℕ)
      → start < end
      → end ≤ last
      → rank ≤ g ((start + end) / 2)
      → sblock_loop rank_of rank (suc fuel) start end
        ≡ sblock_loop rank_of rank fuel start ((start + end) / 2)
  unfolding sblock_loop
  sblock-down fuel start end h he more = ground (arith, reads ((start + end) / 2) (omega arith))

  pub sblock_loop-IsFirst :
      (fuel start end : ℕ)
      → start ≤ end
      → end ≤ last
      → end < start + fuel
      → ((j : ℕ) → j < start → g j < rank)
      → ((end ≡ last) ⊎ (rank ≤ g end))
      → (r : ℕ) × (sblock_loop rank_of rank fuel start end ≡ ok r) × IsFirst g last rank r
  sblock_loop-IsFirst zero start end h he hf low up = absurd (omega arith)
  sblock_loop-IsFirst (suc fuel) start end h he hf low up = elim (Bool-cases (start == end)) [
    | inl met ↦
        let e : end ≡ start = ground arith in
        (
          start,
          ap (sblock_loop rank_of rank (suc fuel) start) e ∙ sblock-end fuel start,
          (omega arith, low, rw e at up),
        )
    | inr apart ↦
        let lt : start < end = ground arith in
        let mid : ℕ = (start + end) / 2 in
        elim (Bool-cases (ltb (g mid) rank)) [
          | inl less ↦
              let l : g mid < rank = ground arith in
              let (r, e, found) =
                sblock_loop-IsFirst fuel (mid + 1) end (omega arith) he (omega arith)
                  (λ j hj. omega (arith, mono j mid (omega arith))) up in
              (r, sblock-up fuel start end lt he l ∙ e, found)
          | inr more ↦
              let l : rank ≤ g mid = ground arith in
              let (r, e, found) =
                sblock_loop-IsFirst fuel start mid (omega arith) (omega arith) (omega arith) low
                  (inr l) in
              (r, sblock-down fuel start end lt he l ∙ e, found)
        ]
  ]

-- The last index from `first` to `last` whose count of bits before it is below the rank. The search
-- reads, at each index, what is left of a total.
abbrev pub IsLastBelow : (ℕ → ℕ) → ℕ → ℕ → ℕ → ℕ → Type 0
IsLastBelow g first last rank k =
    (first ≤ k) × (k ≤ last) × (g k < rank) × ((k ≡ last) ⊎ (rank ≤ g (k + 1)))

module _ (rank_of : ℕ → Outcome ℕ) (g : ℕ → ℕ) (first last total rank : ℕ)
    (reads : (k : ℕ) → first ≤ k → k ≤ last → rank_of k ≡ ok (total - g k))
    (within : rank ≤ total) where
  abbrev left_of : ℕ
  left_of = total - rank

  block-end : (fuel start : ℕ) → block_loop rank_of left_of (suc fuel) start start ≡ ok start
  unfolding block_loop
  block-end fuel start = ground arith

  block-up :
      (fuel start end : ℕ)
      → first ≤ start
      → start < end
      → end ≤ last
      → g ((start + end + 1) / 2) < rank
      → block_loop rank_of left_of (suc fuel) start end
        ≡ block_loop rank_of left_of fuel ((start + end + 1) / 2) end
  unfolding block_loop
  block-up fuel start end hs h he less =
      ground (arith, reads ((start + end + 1) / 2) (omega arith) (omega arith))

  block-down :
      (fuel start end : ℕ)
      → first ≤ start
      → start < end
      → end ≤ last
      → rank ≤ g ((start + end + 1) / 2)
      → block_loop rank_of left_of (suc fuel) start end
        ≡ block_loop rank_of left_of fuel start ((start + end + 1) / 2 - 1)
  unfolding block_loop
  block-down fuel start end hs h he more =
      ground (arith, reads ((start + end + 1) / 2) (omega arith) (omega arith))

  pub block_loop-IsLastBelow :
      (fuel start end : ℕ)
      → first ≤ start
      → start ≤ end
      → end ≤ last
      → end < start + fuel
      → g start < rank
      → ((end ≡ last) ⊎ (rank ≤ g (end + 1)))
      → (k : ℕ) × (block_loop rank_of left_of fuel start end ≡ ok k)
        × IsLastBelow g first last rank k
  block_loop-IsLastBelow zero start end hs h he hf low up = absurd (omega arith)
  block_loop-IsLastBelow (suc fuel) start end hs h he hf low up = elim (Bool-cases (start == end)) [
    | inl met ↦
        let e : end ≡ start = ground arith in
        (
          start,
          ap (block_loop rank_of left_of (suc fuel) start) e ∙ block-end fuel start,
          (hs, omega arith, low, rw e at up),
        )
    | inr apart ↦
        let lt : start < end = ground arith in
        let mid : ℕ = (start + end + 1) / 2 in
        elim (Bool-cases (ltb (g mid) rank)) [
          | inl less ↦
              let l : g mid < rank = ground arith in
              let (k, e, found) =
                block_loop-IsLastBelow fuel mid end (omega arith) (omega arith) he (omega arith) l
                  up in
              (k, block-up fuel start end hs lt he l ∙ e, found)
          | inr more ↦
              let l : rank ≤ g mid = ground arith in
              let same : mid - 1 + 1 ≡ mid = omega arith in
              let (k, e, found) =
                block_loop-IsLastBelow fuel start (mid - 1) hs (omega arith) (omega arith)
                  (omega arith) low (inr (rw same l)) in
              (k, block-down fuel start end hs lt he l ∙ e, found)
        ]
  ]
