-- ===== src/Structure/AdjacencyList/RowLayout.antt =====
-- src/structure/adjacencylist.rs: the row of a left-hand side among the numbers that were written.
use terminus_store.Prelude.{
  ℕ, ◌+◌, ◌-◌, ◌≤◌, ◌<◌, ◌≡◌, ap, ◌∙◌, sym, arith, Bool, true, false, ◌==◌, ltb, ◌&&◌,
  if◌then◌else◌, List, [], ◌∷◌, ◌++◌, replicate, append_assoc, Bool-cases, inl, inr,
}
use mathlib.Core.Path.{ap₂}
use terminus_store.Structure.AdjacencyList.Layout.{
  IsOrdered, pair_nums, pair_bits, all_nums, all_bits,
}
use terminus_store.Structure.AdjacencyList.Pairs.{list_bits}
use terminus_store.Structure.AdjacencyList.Rows.{
  row, last_of, row_of, row_of-before, row_of-step, row_of-holes, nums-same, bits-same, nums-later,
  bits-later, rights-before,
}

-- The positions of a left-hand side, where the last number is written and its bit is not.
module _ (index : ℕ) where
  abbrev lagging : ℕ → ℕ → List (ℕ × ℕ) → List ℕ
  lagging left num pairs =
      row_of index left (all_bits left pairs ++ (true ∷ [])) (num ∷ all_nums left pairs)

  module _ (left num : ℕ) (pair : ℕ × ℕ) (pairs : List (ℕ × ℕ)) where
    row_of-same :
        pair.0 ≡ left
        → lagging left num (pair ∷ pairs) ≡ (
            if left == index
            then num ∷ lagging pair.0 pair.1 pairs
            else lagging pair.0 pair.1 pairs)
    unfolding all_bits all_nums
    row_of-same e =
        ap₂ (λ bs ns. row_of index left bs (num ∷ ns))
          (append_assoc (pair_bits left pair) (all_bits pair.0 pairs) (true ∷ [])
            ∙ bits-same left pair (all_bits pair.0 pairs ++ (true ∷ [])) (all_nums pair.0 pairs) e)
          (nums-same left pair (all_bits pair.0 pairs) (all_nums pair.0 pairs) e)
        ∙ row_of-step false index left num (all_bits pair.0 pairs ++ (true ∷ []))
            (pair.1 ∷ all_nums pair.0 pairs)
        ∙ ap
            (λ l.
              if left == index
              then num
                ∷ row_of index l (all_bits pair.0 pairs ++ (true ∷ []))
                    (pair.1 ∷ all_nums pair.0 pairs)
              else row_of index l (all_bits pair.0 pairs ++ (true ∷ []))
                  (pair.1 ∷ all_nums pair.0 pairs))
            (sym e)

    row_of-later :
        0 < left
        → left < pair.0
        → lagging left num (pair ∷ pairs) ≡ (
            if left == index
            then num ∷ []
            else if ltb left index && ltb index pair.0
            then 0 ∷ []
            else lagging pair.0 pair.1 pairs)
    unfolding all_bits all_nums
    row_of-later pos h =
        let k : ℕ = pair.0 - left - 1 in
        let bits : List Bool = all_bits pair.0 pairs ++ (true ∷ []) in
        let nums : List ℕ = pair.1 ∷ all_nums pair.0 pairs in
        let holes = row_of-holes k index (left + 1) bits nums in
        let same : row_of index (left + 1 + k) bits nums ≡ lagging pair.0 pair.1 pairs =
          ap (λ l. row_of index l bits nums) (omega arith) in
        let past =
          row_of-before (replicate k true ++ bits) (replicate k 0 ++ nums) index (left + 1) in
        ap₂ (λ bs ns. row_of index left bs (num ∷ ns))
          (append_assoc (pair_bits left pair) (all_bits pair.0 pairs) (true ∷ [])
            ∙ bits-later left pair bits nums pos h)
          (nums-later left pair bits (all_nums pair.0 pairs))
        ∙ row_of-step true index left num (replicate k true ++ bits) (replicate k 0 ++ nums)
        ∙ elim (Bool-cases (left == index)) [
          | inl here ↦ rw here (ap (λ t. num ∷ t) (past (ground arith)))
          | inr other ↦ rw other (holes ∙ ground (arith, same))
        ]

  row_of-lag :
      (pairs : List (ℕ × ℕ)) (left num right : ℕ)
      → 0 < left
      → IsOrdered left right pairs
      → left ≤ index
      → index ≤ last_of left pairs
      → lagging left num pairs ≡ row index ((left, num) ∷ pairs)
  unfolding all_bits all_nums
  row_of-lag [] left num right pos ordered low high =
      ground (arith, row_of-step true index left num [] [], row_of-before [] [] index (left + 1))
  row_of-lag (pair ∷ pairs) left num right pos (next, pos', positive, ordered) low high =
      let rest = row_of-lag pairs pair.0 pair.1 pair.1 pos' ordered in
      elim (Bool-cases (pair.0 == left)) [
        | inl same ↦
            let e : pair.0 ≡ left = ground arith in
            row_of-same left num pair pairs e ∙ elim (Bool-cases (left == index)) [
              | inl here ↦
                  rw here (ap (λ t. num ∷ t) (rest (omega (arith, e, low)) high) ∙ ground arith)
              | inr other ↦ rw other (rest (omega (arith, e, low)) high)
            ]
        | inr apart ↦
            row_of-later left num pair pairs pos (ground arith)
            ∙ elim (Bool-cases (left == index)) [
              | inl here ↦
                  ground (arith, rights-before pairs index pair.0 pair.1 (ground arith) ordered)
              | inr other ↦ elim (Bool-cases (ltb index pair.0)) [
                | inl hole ↦
                    ground (arith, rights-before pairs index pair.0 pair.1 (ground arith) ordered)
                | inr further ↦ ground (arith, rest (ground arith) high)
              ]
            ]
      ]

-- The positions of a left-hand side of a finished list are its row.
pub row_of-all :
    (index : ℕ) (pairs : List (ℕ × ℕ))
    → IsOrdered 0 0 pairs
    → 0 < index
    → index ≤ last_of 0 pairs
    → row_of index 1 (list_bits pairs) (all_nums 0 pairs) ≡ row index pairs
unfolding all_bits all_nums
row_of-all index [] ordered pos high = absurd (omega arith)
row_of-all index (pair ∷ pairs) (next, pos', positive, ordered) pos high =
    let k : ℕ = pair.0 - 0 - 1 in
    let bits : List Bool = all_bits pair.0 pairs ++ (true ∷ []) in
    let nums : List ℕ = pair.1 ∷ all_nums pair.0 pairs in
    let apart : (pair.0 == 0) ≡ false = ground arith in
    rw apart (
      ap
        (λ n.
          row_of index 1 ((replicate n true ++ all_bits pair.0 pairs) ++ (true ∷ []))
            (pair_nums 0 pair ++ all_nums pair.0 pairs))
        {x = pair.0 - 1} {y = k} (omega arith)
      ∙ ap₂ (row_of index 1) (append_assoc (replicate k true) (all_bits pair.0 pairs) (true ∷ []))
          (nums-later 0 pair bits (all_nums pair.0 pairs))
      ∙ row_of-holes k index 1 bits nums
      ∙ elim (Bool-cases (ltb index pair.0)) [
        | inl hole ↦ ground (arith, rights-before pairs index pair.0 pair.1 (ground arith) ordered)
        | inr further ↦
            let rest =
              row_of-lag index pairs pair.0 pair.1 pair.1 pos' ordered (ground arith) high in
            let same : row_of index (1 + k) bits nums ≡ row_of index pair.0 bits nums =
              ap (λ l. row_of index l bits nums) (omega arith) in
            ground (arith, rest, same)
      ])
