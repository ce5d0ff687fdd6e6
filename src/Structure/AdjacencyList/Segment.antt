-- ===== src/Structure/AdjacencyList/Segment.antt =====
-- src/structure/adjacencylist.rs: the positions of a left-hand side are those between two set bits.
use terminus_store.Prelude.{
  ℕ, zero, suc, ◌+◌, ◌-◌, ◌≤◌, ◌<◌, ◌≡◌, refl, ap, ◌∙◌, arith, Bool, true, false, ◌==◌,
  if◌then◌else◌, List, [], ◌∷◌, ◌++◌, length, replicate, take, drop,
}
use mathlib.Core.Path.{ap₂}
use terminus_store.Structure.BitArray.Push.{to_bit}
use terminus_store.Structure.BitIndex.Ones.{count_true}
use terminus_store.Structure.AdjacencyList.Layout.{IsOrdered, pair_bits, all_bits}
use terminus_store.Structure.AdjacencyList.Pairs.{list_bits}
use terminus_store.Structure.AdjacencyList.Rows.{row_of, row_of-before, last_of}

count_true-cons :
    (p : ℕ) (b : Bool) (bits : List Bool)
    → count_true (suc p) (b ∷ bits) ≡ to_bit b + count_true p bits
unfolding count_true
count_true-cons zero b bits = omega arith
count_true-cons (suc p) b bits = omega (arith, count_true-cons p b bits)

-- The set bits of a list.
ones : List Bool → ℕ
ones [] = 0
ones (b ∷ bits) = to_bit b + ones bits

count_true-ones : (bits : List Bool) → count_true (length bits) bits ≡ ones bits
unfolding ones count_true
count_true-ones [] = refl
count_true-ones (b ∷ bits) =
    count_true-cons (length bits) b bits ∙ ap (λ n. to_bit b + n) (count_true-ones bits)

ones-append : (xs ys : List Bool) → ones (xs ++ ys) ≡ ones xs + ones ys
unfolding ones
ones-append [] ys = omega arith
ones-append (x ∷ xs) ys = omega (arith, ones-append xs ys)

ones-replicate : (n : ℕ) → ones (replicate n true) ≡ n
unfolding ones
ones-replicate zero = refl
ones-replicate (suc n) = omega (arith, ones-replicate n)

ones-lag :
    (pairs : List (ℕ × ℕ)) (left right : ℕ)
    → 0 < left
    → IsOrdered left right pairs
    → left + ones (all_bits left pairs) ≡ last_of left pairs
unfolding ones all_bits
ones-lag [] left right pos ordered = omega arith
ones-lag (pair ∷ pairs) left right pos (next, pos', positive, ordered) =
    let started : (left == 0) ≡ false = ground arith in
    ground (
      arith,
      started,
      ones-append (pair_bits left pair) (all_bits pair.0 pairs),
      ones-replicate (pair.0 - left),
      ones-lag pairs pair.0 pair.1 pos' ordered,
    )

-- As many bits are set as the largest left-hand side says.
pub count_true-list_bits :
    (pairs : List (ℕ × ℕ))
    → IsOrdered 0 0 pairs
    → count_true (length (list_bits pairs)) (list_bits pairs) ≡ last_of 0 pairs
unfolding all_bits ones
count_true-list_bits [] ordered = count_true-ones []
count_true-list_bits (pair ∷ pairs) (next, pos', positive, ordered) =
    let apart : (pair.0 == 0) ≡ false = ground arith in
    count_true-ones (list_bits (pair ∷ pairs))
    ∙ ground (
      arith,
      apart,
      ones-append (pair_bits 0 pair ++ all_bits pair.0 pairs) (true ∷ []),
      ones-append (pair_bits 0 pair) (all_bits pair.0 pairs),
      ones-replicate (pair.0 - 1),
      ones-lag pairs pair.0 pair.1 pos' ordered,
    )

-- The positions from `s` to before `e` belong to `index`, those before to less and those after to more.
pub record IsSegment (index left : ℕ) (bits : List Bool) (s e : ℕ) : Type 0 where
  pub ordered : s ≤ e
  pub inside : e ≤ length bits
  pub below : (p : ℕ) → p < s → left + count_true p bits < index
  pub within : (p : ℕ) → s ≤ p → p < e → left + count_true p bits ≡ index
  pub above : (p : ℕ) → e ≤ p → p < length bits → index < left + count_true p bits

pub shift :
    (left : ℕ) (b : Bool) (bits : List Bool) (p : ℕ)
    → (if b then left + 1 else left) + count_true p bits ≡ left + count_true (suc p) (b ∷ bits)
shift left true bits p = omega (arith, count_true-cons p true bits)
shift left false bits p = omega (arith, count_true-cons p false bits)

IsSegment-tail :
    (index left : ℕ) (b : Bool) (bits : List Bool) (s e : ℕ)
    → IsSegment index left (b ∷ bits) s (suc e)
    → IsSegment index (if b then left + 1 else left) bits (s - 1) e
IsSegment-tail index left b bits s e seg = record {
  ordered = omega (arith, seg.ordered);
  inside = omega (arith, seg.inside);
  below = λ p hp. omega (arith, shift left b bits p, seg.below (suc p) (omega arith));
  within =
      λ p hs he. omega (arith, shift left b bits p, seg.within (suc p) (omega arith) (omega arith));
  above =
      λ p he hp. omega (arith, shift left b bits p, seg.above (suc p) (omega arith) (omega arith));
}

part_eq :
    (nums : List ℕ) (a b c d : ℕ) → a ≡ b → c ≡ d → take a (drop c nums) ≡ take b (drop d nums)
part_eq nums a b c d e f = ap₂ (λ n m. take n (drop m nums)) e f

pub count_zero : (bits : List Bool) → count_true 0 bits ≡ 0
unfolding count_true
count_zero bits = refl

-- The row of a left-hand side is the part of the numbers on its segment.
pub row_of-segment :
    (bits : List Bool) (nums : List ℕ) (index left s e : ℕ)
    → length bits ≡ length nums
    → IsSegment index left bits s e
    → row_of index left bits nums ≡ take (e - s) (drop s nums)
unfolding row_of
row_of-segment [] nums index left s e same seg =
    ap (λ n. take n (drop s nums)) {x = 0} {y = e - s} (omega (arith, seg.inside))
row_of-segment (b ∷ bits) [] index left s e same seg = absurd (omega arith)
row_of-segment (b ∷ bits) (num ∷ nums) index left zero zero same seg =
    row_of-before (b ∷ bits) (num ∷ nums) index left
      (omega (arith, count_zero (b ∷ bits), seg.above 0 (omega arith) (omega arith)))
    ∙ ap (λ n. take n (num ∷ nums)) {x = 0} {y = 0 - 0} (omega arith)
row_of-segment (b ∷ bits) (num ∷ nums) index left zero (suc e) same seg =
    let here : (left == index) ≡ true =
      ground (arith, count_zero (b ∷ bits), seg.within 0 (omega arith) (omega arith)) in
    let rest =
      row_of-segment bits nums index (if b then left + 1 else left) (0 - 1) e (omega arith)
        (IsSegment-tail index left b bits 0 e seg) in
    rw here (
      ap (λ t. num ∷ t) (rest ∙ part_eq nums (e - (0 - 1)) e (0 - 1) 0 (omega arith) (omega arith))
      ∙ ap (λ n. take n (num ∷ nums)) {x = suc e} {y = suc e - 0} (omega arith))
row_of-segment (b ∷ bits) (num ∷ nums) index left (suc s) zero same seg =
    absurd (omega (arith, seg.ordered))
row_of-segment (b ∷ bits) (num ∷ nums) index left (suc s) (suc e) same seg =
    let later : (left == index) ≡ false =
      ground (arith, count_zero (b ∷ bits), seg.below 0 (omega arith)) in
    let rest =
      row_of-segment bits nums index (if b then left + 1 else left) (suc s - 1) e (omega arith)
        (IsSegment-tail index left b bits (suc s) e seg) in
    rw later (
      rest
      ∙ part_eq nums (e - (suc s - 1)) (suc e - suc s) (suc s - 1) s (omega arith) (omega arith))
