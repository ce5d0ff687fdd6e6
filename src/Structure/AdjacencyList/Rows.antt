-- ===== src/Structure/AdjacencyList/Rows.antt =====
-- src/structure/adjacencylist.rs: the right-hand sides that belong to a left-hand side.
use terminus_store.Prelude.{
  ℕ, zero, suc, ◌+◌, ◌-◌, ◌<◌, ◌≡◌, refl, ap, ◌∙◌, arith, Bool, true, false, ◌==◌, leb, ltb, ◌&&◌,
  ◌≢◌, if◌then◌else◌, List, [], ◌∷◌, ◌++◌, replicate, append_assoc, Bool-cases, inl, inr,
}
use terminus_store.Structure.AdjacencyList.Layout.{IsOrdered, pair_nums, pair_bits}

-- The right-hand sides of the pairs with a left-hand side.
abbrev pub rights : ℕ → List (ℕ × ℕ) → List ℕ
rights index [] = []
rights index (pair ∷ pairs) =
    let rest = rights index pairs in if pair.0 == index then pair.1 ∷ rest else rest

abbrev pub or_zero : List ℕ → List ℕ
or_zero [] = 0 ∷ []
or_zero (right ∷ rest) = right ∷ rest

-- A left-hand side without a pair has a zero.
abbrev pub row : ℕ → List (ℕ × ℕ) → List ℕ
row index pairs = or_zero (rights index pairs)

-- The largest left-hand side.
abbrev pub last_of : ℕ → List (ℕ × ℕ) → ℕ
last_of left [] = left
last_of left (pair ∷ pairs) = last_of pair.0 pairs

-- The numbers at the positions that belong to a left-hand side, where `left` is that of the first.
unfoldable pub row_of : ℕ → ℕ → List Bool → List ℕ → List ℕ
row_of index left [] nums = []
row_of index left (b ∷ bits) [] = []
row_of index left (b ∷ bits) (num ∷ nums) =
    let rest = row_of index (if b then left + 1 else left) bits nums in
    if left == index then num ∷ rest else rest

-- A later left-hand side has none of them.
pub row_of-before :
    (bits : List Bool) (nums : List ℕ) (index left : ℕ)
    → index < left
    → row_of index left bits nums ≡ []
unfolding row_of
row_of-before [] nums index left h = refl
row_of-before (b ∷ bits) [] index left h = refl
row_of-before (true ∷ bits) (num ∷ nums) index left h =
    ground (arith, row_of-before bits nums index (left + 1) (omega arith))
row_of-before (false ∷ bits) (num ∷ nums) index left h =
    ground (arith, row_of-before bits nums index left h)

pub row_of-holes :
    (n index left : ℕ) (bits : List Bool) (nums : List ℕ)
    → row_of index left (replicate n true ++ bits) (replicate n 0 ++ nums) ≡ (
        if leb left index && ltb index (left + n)
        then 0 ∷ []
        else row_of index (left + n) bits nums)
unfolding row_of
row_of-holes zero index left bits nums =
    ground (arith, ap (λ t. row_of index t bits nums) {x = left} {y = left + 0} (omega arith))
row_of-holes (suc n) index left bits nums =
    let rest = row_of-holes n index (left + 1) bits nums in
    let same : row_of index (left + 1 + n) bits nums ≡ row_of index (left + suc n) bits nums =
      ap (λ t. row_of index t bits nums) (omega arith) in
    elim (Bool-cases (left == index)) [
      | inl here ↦ rw here (
          ap (λ t. 0 ∷ t)
            (row_of-before (replicate n true ++ bits) (replicate n 0 ++ nums) index (left + 1)
              (ground arith))
          ∙ ground arith)
      | inr other ↦ rw other (ground (arith, rest, same))
    ]

pub row_of-step :
    (b : Bool) (index left num : ℕ) (bits : List Bool) (nums : List ℕ)
    → row_of index left (b ∷ bits) (num ∷ nums) ≡ (
        let rest = row_of index (if b then left + 1 else left) bits nums in
        if left == index then num ∷ rest else rest)
unfolding row_of
row_of-step b index left num bits nums = refl

-- The shape of a pair on the left-hand side before it, and of one on a later left-hand side.
module _ (left : ℕ) (pair : ℕ × ℕ) (bits : List Bool) (nums : List ℕ) where
  pub nums-same : pair.0 ≡ left → pair_nums left pair ++ nums ≡ pair.1 ∷ nums
  nums-same e =
      ap (λ n. (replicate n 0 ++ (pair.1 ∷ [])) ++ nums) {x = pair.0 - left - 1} {y = 0}
        (omega (arith, e))

  pub bits-same : pair.0 ≡ left → pair_bits left pair ++ bits ≡ false ∷ bits
  bits-same e = let now : (pair.0 == left) ≡ true = ground arith in rw now

  pub nums-later : pair_nums left pair ++ nums ≡ replicate (pair.0 - left - 1) 0 ++ (pair.1 ∷ nums)
  nums-later = append_assoc (replicate (pair.0 - left - 1) 0) (pair.1 ∷ []) nums

  pub bits-later :
      0 < left
      → left < pair.0
      → pair_bits left pair ++ bits ≡ true ∷ (replicate (pair.0 - left - 1) true ++ bits)
  bits-later pos h =
      let apart : (pair.0 == left) ≡ false = ground arith in
      let started : (left == 0) ≡ false = ground arith in
      rw (apart, started)
        (ap (λ n. replicate n true ++ bits) {x = pair.0 - left} {y = suc (pair.0 - left - 1)}
          (omega arith))

-- Nothing is on the left of an ordered list.
pub rights-before :
    (pairs : List (ℕ × ℕ)) (index left right : ℕ)
    → index < left
    → IsOrdered left right pairs
    → rights index pairs ≡ []
rights-before [] index left right h ordered = refl
rights-before (pair ∷ pairs) index left right h (next, pos, positive, ordered) =
    let low : index < pair.0 = ground arith in
    ground (arith, rights-before pairs index pair.0 pair.1 low ordered)

pub rights_here :
    (index : ℕ) (pair : ℕ × ℕ) (pairs : List (ℕ × ℕ))
    → pair.0 ≡ index
    → rights index (pair ∷ pairs) ≡ pair.1 ∷ rights index pairs
rights_here index pair pairs e = ground arith

pub rights_further :
    (index : ℕ) (pair : ℕ × ℕ) (pairs : List (ℕ × ℕ))
    → pair.0 ≢ index
    → rights index (pair ∷ pairs) ≡ rights index pairs
rights_further index pair pairs e = ground arith
