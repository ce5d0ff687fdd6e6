-- ===== src/Structure/AdjacencyList/Layout.antt =====
-- src/structure/adjacencylist.rs: the bits and the numbers that the pairs pushed to a builder become.
use terminus_store.Prelude.{
  ℕ, zero, suc, ◌-◌, ◌^◌, ◌≤◌, ◌<◌, ◌≡◌, refl, ap, ◌∙◌, sym, arith, Bool, true, false, ◌==◌, ◌&&◌,
  if◌then◌else◌, List, [], ◌∷◌, ◌++◌, replicate, ◌⊎◌, ◌≢◌, inl, inr, Bool-cases,
}
use native.Mathlib.Nat.{one-le-pow}
use terminus_store.Prelude.Outcome.{ok_injective, Outcome, ok, ◌>>=◌, >>=-eq-ok, >>=_ext}
use terminus_store.Structure.LogArray
use terminus_store.Structure.LogArray.{LogArrayFileBuilder}
use terminus_store.Structure.LogArray.Invariant.{AllFit}
use terminus_store.Structure.BitArray
use terminus_store.Structure.BitArray.{BitArrayFileBuilder}
use terminus_store.Structure.AdjacencyList.Builder.{
  AdjacencyListBuilder, push_ones, push_zeros, push_skip, is_unordered, push, push_all,
}

-- Pairs in increasing order after the last one, of positive numbers.
abbrev pub IsOrdered : ℕ → ℕ → List (ℕ × ℕ) → Type 0
IsOrdered last_left last_right [] = Unit {0}
IsOrdered last_left last_right (pair ∷ pairs) =
    ((last_left < pair.0) ⊎ ((last_left ≡ pair.0) × (last_right < pair.1)))
    × (0 < pair.0)
    × (0 < pair.1)
    × IsOrdered pair.0 pair.1 pairs

-- The numbers that a pair is laid out as: zeros for the left-hand sides that are left out, and the
-- right-hand side.
abbrev pub pair_nums : ℕ → ℕ × ℕ → List ℕ
pair_nums last_left pair = replicate (pair.0 - last_left - 1) 0 ++ (pair.1 ∷ [])

-- The bits that end the left-hand sides before the pair, or say that its left-hand side goes on.
abbrev pub pair_bits : ℕ → ℕ × ℕ → List Bool
pair_bits last_left pair =
    if pair.0 == last_left
    then false ∷ []
    else replicate (if last_left == 0 then pair.0 - 1 else pair.0 - last_left) true

unfoldable pub all_nums : ℕ → List (ℕ × ℕ) → List ℕ
all_nums last_left [] = []
all_nums last_left (pair ∷ pairs) = pair_nums last_left pair ++ all_nums pair.0 pairs

unfoldable pub all_bits : ℕ → List (ℕ × ℕ) → List Bool
all_bits last_left [] = []
all_bits last_left (pair ∷ pairs) = pair_bits last_left pair ++ all_bits pair.0 pairs

pub push_all-append :
    (bs cs : List Bool) (b : BitArrayFileBuilder)
    → BitArray.push_all b (bs ++ cs) ≡ BitArray.push_all (BitArray.push_all b bs) cs
unfolding BitArray.push_all
push_all-append [] cs b = refl
push_all-append (x ∷ bs) cs b = push_all-append bs cs (BitArray.push b x)

-- A list that can be pushed can be pushed in two parts.
pub push_vec-append :
    (vs ws : List ℕ) (b c : LogArrayFileBuilder)
    → LogArray.push_vec b (vs ++ ws) ≡ ok c
    → (d : LogArrayFileBuilder) × (LogArray.push_vec b vs ≡ ok d) × (LogArray.push_vec d ws ≡ ok c)
unfolding LogArray.push_vec
push_vec-append [] ws b c e = (b, refl, e)
push_vec-append (v ∷ vs) ws b c e =
    let (b', pushed, e') = >>=-eq-ok (LogArray.push b v) (λ n. LogArray.push_vec n (vs ++ ws)) e in
    let (d, first, second) = push_vec-append vs ws b' c e' in
    (d, ap (λ m. m >>= λ n. LogArray.push_vec n vs) pushed ∙ first, second)

push_ones-push_all :
    (n : ℕ) (b : BitArrayFileBuilder) → push_ones b n ≡ BitArray.push_all b (replicate n true)
unfolding push_ones BitArray.push_all
push_ones-push_all zero b = refl
push_ones-push_all (suc n) b = push_ones-push_all n (BitArray.push b true)

push_zeros-push_vec :
    (n : ℕ) (b : LogArrayFileBuilder) → push_zeros b n ≡ LogArray.push_vec b (replicate n 0)
unfolding push_zeros LogArray.push_vec
push_zeros-push_vec zero b = refl
push_zeros-push_vec (suc n) b = >>=_ext (LogArray.push b 0) (push_zeros-push_vec n)

-- What a builder is after `n` zeros and the bits.
abbrev written :
    AdjacencyListBuilder → ℕ → List Bool → Outcome (BitArrayFileBuilder × LogArrayFileBuilder)
written self n bs = LogArray.push_vec self.nums (replicate n 0) >>= λ nums.
    ok (BitArray.push_all self.bitarray bs, nums)

module _ (self : AdjacencyListBuilder) (left : ℕ) (h : self.last_left ≤ left) (pos : 0 < left) where
  skip_same :
      left ≡ self.last_left → push_skip self (left - self.last_left) ≡ written self 0 (false ∷ [])
  unfolding push_skip BitArray.push_all LogArray.push_vec
  skip_same e = ground arith

  skip_first :
      self.last_left ≡ 0 → left ≡ 1 → push_skip self (left - self.last_left) ≡ written self 0 []
  unfolding push_skip BitArray.push_all LogArray.push_vec
  skip_first e e' = ground arith

  skip_far :
      (bitskip : ℕ)
      → (self.last_left ≢ 0) ⊎ (1 < left)
      → self.last_left < left
      → bitskip ≡ (if self.last_left == 0 then left - self.last_left - 1 else left - self.last_left)
      → push_skip self (left - self.last_left)
        ≡ written self (left - self.last_left - 1) (replicate bitskip true)
  unfolding push_skip
  skip_far bitskip far lt e =
      let taken : (self.last_left == 0 && (left - self.last_left) == 1) ≡ false = ground arith in
      let moved : ((left - self.last_left) == 0) ≡ false = ground arith in
      rw (
        taken,
        moved,
        sym e,
        push_zeros-push_vec (left - self.last_left - 1) self.nums,
        push_ones-push_all bitskip self.bitarray,
      )

  -- What is written of the skipped left-hand sides.
  push_skip_lem :
      (right : ℕ)
      → push_skip self (left - self.last_left)
        ≡ written self (left - self.last_left - 1) (pair_bits self.last_left (left, right))
  push_skip_lem right = elim (Bool-cases (left == self.last_left)) [
    | inl same ↦ rw same (
        skip_same (ground arith)
        ∙ ap (λ n. written self n (false ∷ [])) {x = 0} {y = left - self.last_left - 1}
            (ground arith))
    | inr apart ↦ elim (Bool-cases (self.last_left == 0)) [
      | inl first ↦ elim (Bool-cases (left == 1)) [
        | inl one ↦
            rw (apart, first)
              (skip_first (ground arith) (ground arith)
                ∙ ap (λ n. written self n (replicate n true)) {x = 0}
                    {y = left - self.last_left - 1} (ground arith)
                ∙ ap (λ n. written self (left - self.last_left - 1) (replicate n true))
                    (ground arith))
        | inr more ↦
            rw (apart, first)
              (skip_far (left - 1) (inr (ground arith)) (ground arith) (ground arith))
      ]
      | inr later ↦
          rw (apart, later)
            (skip_far (left - self.last_left) (inl (ground arith)) (ground arith) (ground arith))
    ]
  ]

push_vec-one :
    (x : ℕ) (b c : LogArrayFileBuilder)
    → LogArray.push_vec b (x ∷ []) ≡ ok c
    → LogArray.push b x ≡ ok c
unfolding LogArray.push_vec
push_vec-one x b c e =
    let (d, pushed, same) = >>=-eq-ok (LogArray.push b x) (λ n. ok n) e in pushed ∙ same

-- A pair that comes after the last one is accepted.
abbrev after_pair : AdjacencyListBuilder → ℕ × ℕ → LogArrayFileBuilder → AdjacencyListBuilder
after_pair self pair nums = record {
  bitarray = BitArray.push_all self.bitarray (pair_bits self.last_left pair);
  nums = nums;
  last_left = pair.0;
  last_right = pair.1;
}

push_lem :
    (self : AdjacencyListBuilder) (pair : ℕ × ℕ) (nums : LogArrayFileBuilder)
    → (self.last_left < pair.0) ⊎ ((self.last_left ≡ pair.0) × (self.last_right < pair.1))
    → 0 < pair.0
    → LogArray.push_vec self.nums (pair_nums self.last_left pair) ≡ ok nums
    → push self pair.0 pair.1 ≡ ok (after_pair self pair nums)
unfolding push
push_lem self pair nums next pos e =
    let (z, zeros, one) =
      push_vec-append (replicate (pair.0 - self.last_left - 1) 0) (pair.1 ∷ []) self.nums nums e in
    let low : self.last_left ≤ pair.0 = ground arith in
    let allowed : is_unordered self pair.0 pair.1 ≡ false = ground arith in
    rw (allowed, push_skip_lem self pair.0 low pos pair.1, zeros, push_vec-one pair.1 z nums one)

-- The last pair of a list, or the one given where it is empty.
abbrev pub last_pair : ℕ × ℕ → List (ℕ × ℕ) → ℕ × ℕ
last_pair last [] = last
last_pair last (pair ∷ pairs) = last_pair pair pairs

-- The builder after the pairs: the bits lag behind the numbers by one.
pub push_all_lem :
    (pairs : List (ℕ × ℕ)) (self : AdjacencyListBuilder) (nums : LogArrayFileBuilder)
    → IsOrdered self.last_left self.last_right pairs
    → LogArray.push_vec self.nums (all_nums self.last_left pairs) ≡ ok nums
    → (self' : AdjacencyListBuilder) × (push_all self pairs ≡ ok self')
      × (self'.bitarray ≡ BitArray.push_all self.bitarray (all_bits self.last_left pairs))
      × (self'.nums ≡ nums)
      × (last_pair (self.last_left, self.last_right) pairs ≡ (self'.last_left, self'.last_right))
unfolding push_all all_nums all_bits LogArray.push_vec BitArray.push_all
push_all_lem [] self nums ordered e = (self, refl, refl, ok_injective e, refl)
push_all_lem (pair ∷ pairs) self nums (next, left, right, ordered) e =
    let (d, first, second) =
      push_vec-append (pair_nums self.last_left pair) (all_nums pair.0 pairs) self.nums nums e in
    let (self', pushed, bits, same, last) =
      push_all_lem pairs (after_pair self pair d) nums ordered second in
    (
      self',
      ap (λ m. m >>= λ s. push_all s pairs) (push_lem self pair d next left first) ∙ pushed,
      bits
          ∙ sym (
              push_all-append (pair_bits self.last_left pair) (all_bits pair.0 pairs)
                self.bitarray),
      same,
      last,
    )

-- Right-hand sides that fit the width leave numbers that do.
abbrev pub AllRightsFit : ℕ → List (ℕ × ℕ) → Type 0
AllRightsFit width [] = Unit {0}
AllRightsFit width (pair ∷ pairs) = (pair.1 < 2 ^ width) × AllRightsFit width pairs

append-AllFit :
    (width : ℕ) (xs ys : List ℕ) → AllFit width xs → AllFit width ys → AllFit width (xs ++ ys)
append-AllFit width [] ys fx fy = fy
append-AllFit width (x ∷ xs) ys (h, fx) fy = (h, append-AllFit width xs ys fx fy)

replicate-AllFit : (width n : ℕ) → AllFit width (replicate n 0)
replicate-AllFit width zero = tt
replicate-AllFit width (suc n) =
    (omega (arith, one-le-pow width 2 (omega arith)), replicate-AllFit width n)

pub all_nums-AllFit :
    (width last_left : ℕ) (pairs : List (ℕ × ℕ))
    → AllRightsFit width pairs
    → AllFit width (all_nums last_left pairs)
unfolding all_nums
all_nums-AllFit width last_left [] fit = tt
all_nums-AllFit width last_left (pair ∷ pairs) (h, fit) =
    append-AllFit width (pair_nums last_left pair) (all_nums pair.0 pairs)
      (append-AllFit width (replicate (pair.0 - last_left - 1) 0) (pair.1 ∷ [])
        (replicate-AllFit width _) (h, tt))
      (all_nums-AllFit width pair.0 pairs fit)
