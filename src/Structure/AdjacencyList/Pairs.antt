-- ===== src/Structure/AdjacencyList/Pairs.antt =====
-- src/structure/adjacencylist.rs: the pairs that are read from the bits and the numbers.
use terminus_store.Prelude.{
  ℕ, zero, suc, ◌+◌, ◌-◌, ◌<◌, ◌≡◌, refl, ap, ◌∙◌, sym, arith, Bool, true, false, ◌==◌,
  if◌then◌else◌, List, [], ◌∷◌, ◌++◌, length, map, length-append, replicate, length-replicate,
  append_assoc, Bool-cases, inl, inr, ◌^◌,
}
use mathlib.Core.Path.{ap₂}
use terminus_store.Prelude.Outcome.{Outcome, ok, err, panic}
use terminus_store.Structure.Word.{checked_add}
use terminus_store.Structure.AdjacencyList.{bit_count_stream, zip_stream}
use terminus_store.Structure.AdjacencyList.Layout.{
  IsOrdered, pair_nums, pair_bits, all_nums, all_bits,
}

-- The left-hand side at each bit.
unfoldable pub bit_counts : ℕ → List Bool → List ℕ
bit_counts count [] = []
bit_counts count (b ∷ stream) = count ∷ bit_counts (if b then count + 1 else count) stream

-- The pairs of left-hand and right-hand sides, without those of which the latter is 0.
unfoldable pub zip_filter : List ℕ → List ℕ → List (ℕ × ℕ)
zip_filter [] rights = []
zip_filter (left ∷ lefts) [] = []
zip_filter (left ∷ lefts) (right ∷ rights) =
    let rest = zip_filter lefts rights in if right == 0 then rest else (left, right) ∷ rest

bit_count_stream-ok :
    (count : ℕ) (bits : List Bool)
    → count + length bits < 2 ^ 64
    → bit_count_stream count (map ok bits) ≡ map ok (bit_counts count bits)
unfolding bit_count_stream bit_counts
bit_count_stream-ok count [] h = refl
bit_count_stream-ok count (false ∷ bits) h =
    ap (λ t. ok count ∷ t) (bit_count_stream-ok count bits (omega arith))
bit_count_stream-ok count (true ∷ bits) h =
    let sum : checked_add 64 count 1 ≡ ok (count + 1) = ground arith in
    ap
      (λ (r : Outcome ℕ). elim r [
        | ok next ↦ ok count ∷ bit_count_stream next (map ok bits)
        | err e ↦ err e ∷ bit_count_stream count (map ok bits)
        | panic ↦ panic ∷ []
      ])
      sum
    ∙ ap (λ t. ok count ∷ t) (bit_count_stream-ok (count + 1) bits (omega arith))

zip_stream-ok :
    (lefts rights : List ℕ)
    → zip_stream (map ok lefts) (map ok rights) ≡ map ok (zip_filter lefts rights)
unfolding zip_stream zip_filter
zip_stream-ok [] rights = refl
zip_stream-ok (left ∷ lefts) [] = refl
zip_stream-ok (left ∷ lefts) (right ∷ rights) =
    let rest = zip_stream-ok lefts rights in ground (arith, rest)

-- Streams that yield no error.
pub stream-ok :
    (count : ℕ) (bits : List Bool) (nums : List ℕ)
    → count + length bits < 2 ^ 64
    → zip_stream (bit_count_stream count (map ok bits)) (map ok nums)
      ≡ map ok (zip_filter (bit_counts count bits) nums)
stream-ok count bits nums h =
    ap (λ t. zip_stream t (map ok nums)) (bit_count_stream-ok count bits h)
    ∙ zip_stream-ok (bit_counts count bits) nums

-- The bits of a finished list.
abbrev pub list_bits : List (ℕ × ℕ) → List Bool
list_bits [] = []
list_bits (pair ∷ pairs) = all_bits 0 (pair ∷ pairs) ++ (true ∷ [])

-- What is read from the bits and the numbers, the first of which belongs to a left-hand side.
abbrev pub read_pairs : ℕ → List Bool → List ℕ → List (ℕ × ℕ)
read_pairs left bits nums = zip_filter (bit_counts left bits) nums

read_pairs-holes :
    (n left : ℕ) (bits : List Bool) (nums : List ℕ)
    → read_pairs left (replicate n true ++ bits) (replicate n 0 ++ nums)
      ≡ read_pairs (left + n) bits nums
unfolding bit_counts zip_filter
read_pairs-holes zero left bits nums =
    ap (λ t. read_pairs t bits nums) {x = left} {y = left + 0} (omega arith)
read_pairs-holes (suc n) left bits nums =
    read_pairs-holes n (left + 1) bits nums
    ∙ ap (λ t. read_pairs t bits nums) {x = left + 1 + n} {y = left + suc n} (omega arith)

pub read_pairs-step :
    (b : Bool) (left num : ℕ) (bits : List Bool) (nums : List ℕ)
    → 0 < num
    → read_pairs left (b ∷ bits) (num ∷ nums)
      ≡ (left, num) ∷ read_pairs (if b then left + 1 else left) bits nums
unfolding bit_counts zip_filter
read_pairs-step b left num bits nums h = ground arith

-- The shape of a pair on the left-hand side before it, and of one on a later left-hand side.
module _ (left : ℕ) (pair : ℕ × ℕ) (bits : List Bool) (nums : List ℕ) (num : ℕ)
    (positive : 0 < num) where
  read_pairs-same :
      pair.0 ≡ left
      → read_pairs left (pair_bits left pair ++ bits) (num ∷ (pair_nums left pair ++ nums))
        ≡ (left, num) ∷ read_pairs left bits (pair.1 ∷ nums)
  read_pairs-same e =
      let now : (pair.0 == left) ≡ true = ground arith in
      rw now (
        ap (λ n. read_pairs left (false ∷ bits) (num ∷ ((replicate n 0 ++ (pair.1 ∷ [])) ++ nums)))
          {x = pair.0 - left - 1} {y = 0} (omega (arith, e))
        ∙ read_pairs-step false left num bits (pair.1 ∷ nums) positive)

  read_pairs-later :
      0 < left
      → left < pair.0
      → read_pairs left (pair_bits left pair ++ bits) (num ∷ (pair_nums left pair ++ nums))
        ≡ (left, num) ∷ read_pairs pair.0 bits (pair.1 ∷ nums)
  read_pairs-later pos h =
      let apart : (pair.0 == left) ≡ false = ground arith in
      let started : (left == 0) ≡ false = ground arith in
      let k : ℕ = pair.0 - left - 1 in
      rw (apart, started)
        (ap (λ n. read_pairs left (replicate n true ++ bits) (num ∷ (pair_nums left pair ++ nums)))
            {x = pair.0 - left} {y = suc k} (omega arith)
          ∙ read_pairs-step true left num (replicate k true ++ bits) (pair_nums left pair ++ nums)
              positive
          ∙ ap (λ t. (left, num) ∷ t)
              (ap (read_pairs (left + 1) (replicate k true ++ bits))
                  (append_assoc (replicate k 0) (pair.1 ∷ []) nums)
                ∙ read_pairs-holes k (left + 1) bits (pair.1 ∷ nums)
                ∙ ap (λ l. read_pairs l bits (pair.1 ∷ nums)) (omega arith)))

-- The last number is written, and the bit that says whether its left-hand side ends is not.
read_pairs-lag :
    (pairs : List (ℕ × ℕ)) (left num right : ℕ)
    → 0 < left
    → 0 < num
    → IsOrdered left right pairs
    → read_pairs left (all_bits left pairs ++ (true ∷ [])) (num ∷ all_nums left pairs)
      ≡ (left, num) ∷ pairs
unfolding all_bits all_nums
read_pairs-lag [] left num right hl hn ordered =
    read_pairs-step true left num [] [] hn ∙ (unfold bit_counts zip_filter in refl)
read_pairs-lag (pair ∷ pairs) left num right hl hn (next, pos, positive, ordered) =
    let bits : List Bool = all_bits pair.0 pairs ++ (true ∷ []) in
    let nums : List ℕ = all_nums pair.0 pairs in
    let rest = read_pairs-lag pairs pair.0 pair.1 pair.1 pos positive ordered in
    ap (λ bs. read_pairs left bs (num ∷ (pair_nums left pair ++ nums)))
      (append_assoc (pair_bits left pair) (all_bits pair.0 pairs) (true ∷ []))
    ∙ elim (Bool-cases (pair.0 == left)) [
      | inl same ↦
          let e : pair.0 ≡ left = ground arith in
          read_pairs-same left pair bits nums num hn e
          ∙ ap (λ t. (left, num) ∷ t) (ap (λ l. read_pairs l bits (pair.1 ∷ nums)) (sym e) ∙ rest)
      | inr apart ↦
          read_pairs-later left pair bits nums num hn hl (ground arith)
          ∙ ap (λ t. (left, num) ∷ t) rest
    ]

pub read_pairs-all :
    (pairs : List (ℕ × ℕ))
    → IsOrdered 0 0 pairs
    → read_pairs 1 (list_bits pairs) (all_nums 0 pairs) ≡ pairs
unfolding all_bits all_nums
read_pairs-all [] ordered = unfold bit_counts zip_filter in refl
read_pairs-all (pair ∷ pairs) (next, pos, positive, ordered) =
    let bits : List Bool = all_bits pair.0 pairs ++ (true ∷ []) in
    let nums : List ℕ = all_nums pair.0 pairs in
    let k : ℕ = pair.0 - 0 - 1 in
    let apart : (pair.0 == 0) ≡ false = ground arith in
    rw apart (
      ap
        (λ n.
          read_pairs 1 ((replicate n true ++ all_bits pair.0 pairs) ++ (true ∷ []))
            (pair_nums 0 pair ++ nums))
        {x = pair.0 - 1} {y = k} (omega arith)
      ∙ ap₂ (read_pairs 1) (append_assoc (replicate k true) (all_bits pair.0 pairs) (true ∷ []))
          (append_assoc (replicate k 0) (pair.1 ∷ []) nums)
      ∙ read_pairs-holes k 1 bits (pair.1 ∷ nums)
      ∙ ap (λ l. read_pairs l bits (pair.1 ∷ nums)) {x = 1 + k} {y = pair.0} (omega arith)
      ∙ read_pairs-lag pairs pair.0 pair.1 pair.1 pos positive ordered)

zeros : (n : ℕ) → length {A = ℕ} (replicate n 0) ≡ n
zeros n = length-replicate n 0

-- There are as many bits as numbers.
length-lag :
    (pairs : List (ℕ × ℕ)) (left right : ℕ)
    → 0 < left
    → IsOrdered left right pairs
    → length (all_bits left pairs) ≡ length (all_nums left pairs)
unfolding all_bits all_nums
length-lag [] left right h ordered = refl
length-lag (pair ∷ pairs) left right h (next, pos, positive, ordered) =
    let holes = length-append (replicate (pair.0 - left - 1) 0) (pair.1 ∷ []) in
    let started : (left == 0) ≡ false = ground arith in
    ground (
      arith,
      length-append (pair_bits left pair) (all_bits pair.0 pairs),
      length-append (pair_nums left pair) (all_nums pair.0 pairs),
      holes,
      zeros (pair.0 - left - 1),
      length-replicate (pair.0 - left) true,
      started,
      length-lag pairs pair.0 pair.1 pos ordered,
    )

pub length-list_bits :
    (pairs : List (ℕ × ℕ))
    → IsOrdered 0 0 pairs
    → length (list_bits pairs) ≡ length (all_nums 0 pairs)
unfolding all_bits all_nums
length-list_bits [] ordered = refl
length-list_bits (pair ∷ pairs) (next, pos, positive, ordered) =
    let apart : (pair.0 == 0) ≡ false = ground arith in
    ground (
      arith,
      length-append (pair_bits 0 pair ++ all_bits pair.0 pairs) (true ∷ []),
      length-append (pair_bits 0 pair) (all_bits pair.0 pairs),
      length-append (pair_nums 0 pair) (all_nums pair.0 pairs),
      length-append (replicate (pair.0 - 0 - 1) 0) (pair.1 ∷ []),
      zeros (pair.0 - 0 - 1),
      length-replicate (pair.0 - 1) true,
      apart,
      length-lag pairs pair.0 pair.1 pos ordered,
    )
