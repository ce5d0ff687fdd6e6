-- ===== src/Structure/AdjacencyList/Positions.antt =====
-- src/structure/adjacencylist.rs: what is read at the positions of a list that was parsed.
use terminus_store.Prelude.{
  ℕ, zero, suc, ◌+◌, ◌<◌, ◌≡◌, arith, Bool, ◌==◌, if◌then◌else◌, List, [], ◌∷◌, length, get_or,
  Bool-cases, inl, inr, ◌⊎◌,
}
use mathlib.Core.Path.{subst}
use mathlib.Core.List.{Mem, mem-cons_self, mem-cons_of_mem}
use terminus_store.Prelude.Outcome.{ok}
use terminus_store.Structure.Framed.{FramedRead}
use terminus_store.Structure.Word.{ByteOrder}
use terminus_store.Structure.BitIndex.Ones.{count_true}
use terminus_store.Structure.AdjacencyList.{
  AdjacencyList, right_count, pair_at_pos, left_at_pos, num_at_pos,
}
use terminus_store.Structure.AdjacencyList.Layout.{all_nums}
use terminus_store.Structure.AdjacencyList.Pairs.{
  list_bits, read_pairs, read_pairs-step, read_pairs-all,
}
use terminus_store.Structure.AdjacencyList.Iterate.{read_pairs_cons}
use terminus_store.Structure.AdjacencyList.Segment.{count_zero, shift}
use terminus_store.Structure.AdjacencyList.Stream.{IsInput}
use terminus_store.Structure.AdjacencyList.Parsed.{
  Represents, parsed_list, num_at, left_at_pos_lem, pair_at_pos_lem,
}
use terminus_store.Structure.AdjacencyList.Lookup.{OnList}

Mem-read_pairs :
    (bits : List Bool) (nums : List ℕ) (left p : ℕ)
    → p < length bits
    → length bits ≡ length nums
    → 0 < get_or nums p 0
    → Mem (left + count_true p bits, get_or nums p 0) (read_pairs left bits nums)
Mem-read_pairs [] nums left p h same pos = absurd (omega arith)
Mem-read_pairs (b ∷ bits) [] left p h same pos = absurd (omega arith)
Mem-read_pairs (b ∷ bits) (num ∷ nums) left zero h same pos =
    rw (read_pairs-step b left num bits nums pos) (
      subst (λ l. Mem (l, num) ((left, num) ∷ read_pairs (if b then left + 1 else left) bits nums))
        {x = left} {y = left + count_true 0 (b ∷ bits)} (omega (arith, count_zero (b ∷ bits)))
        mem-cons_self)
Mem-read_pairs (b ∷ bits) (num ∷ nums) left (suc p) h same pos =
    let later =
      Mem-read_pairs bits nums (if b then left + 1 else left) p (omega arith) (omega arith) pos in
    let found : Mem (left + count_true (suc p) (b ∷ bits), get_or nums p 0)
        (read_pairs (if b then left + 1 else left) bits nums) =
      subst (λ l. Mem (l, get_or nums p 0) (read_pairs (if b then left + 1 else left) bits nums))
        (shift left b bits p) later in
    rw (read_pairs_cons left b num bits nums) (elim (Bool-cases (num == 0)) [
      | inl hole ↦ rw hole found
      | inr number ↦ rw number (mem-cons_of_mem (left, num) found)
    ])

-- For pairs of positive numbers in increasing order, which all fit, and the list that is parsed from
-- the files that a builder leaves: at each position below `right_count`, `pair_at_pos` returns the
-- numbers that `left_at_pos` and `num_at_pos` return there; they are a pair that was pushed, or the
-- second is 0.
pub pair_at_pos-push_all :
    {framed : FramedRead} (order : ByteOrder) (width : ℕ) (pairs : List (ℕ × ℕ))
    (chunks : List (List ℕ)) (i : IsInput framed order width pairs chunks)
    → OnList order width pairs chunks i (λ list.
      (p : ℕ)
      → p < right_count list
      → (left : ℕ) × (num : ℕ) × (pair_at_pos order list p ≡ ok (left, num))
        × (left_at_pos order list p ≡ ok left)
        × (num_at_pos order list p ≡ ok num)
        × ((num ≡ 0) ⊎ Mem (left, num) pairs))
pair_at_pos-push_all order width pairs chunks i =
    let (files, left, list, parsed, r) = parsed_list order width pairs chunks i in
    (files, left, list, parsed, λ p h. found list r p (omega (arith, r.counted)))
  where
    found :
        (list : AdjacencyList)
        → (r : Represents list (list_bits pairs) (all_nums 0 pairs)) → (p : ℕ)
        → p < length (list_bits pairs)
        → (left : ℕ) × (num : ℕ) × (pair_at_pos order list p ≡ ok (left, num))
          × (left_at_pos order list p ≡ ok left)
          × (num_at_pos order list p ≡ ok num)
          × ((num ≡ 0) ⊎ Mem (left, num) pairs)
    found list r p h =
        let bits = list_bits pairs in
        let nums = all_nums 0 pairs in
        (
          count_true p bits + 1,
          get_or nums p 0,
          pair_at_pos_lem order list bits nums r p h,
          left_at_pos_lem order list bits nums r p h,
          num_at order list bits nums r p h,
          elim (Bool-cases (get_or nums p 0 == 0)) [
            | inl hole ↦ inl (ground arith)
            | inr number ↦ inr (
                subst (Mem (count_true p bits + 1, get_or nums p 0))
                  (read_pairs-all pairs i.ordered)
                  (subst (λ l. Mem (l, get_or nums p 0) (read_pairs 1 bits nums))
                    {x = 1 + count_true p bits} {y = count_true p bits + 1} (omega arith)
                    (Mem-read_pairs bits nums 1 p h r.same_length (ground arith))))
          ],
        )
