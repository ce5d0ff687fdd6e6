-- ===== src/Structure/AdjacencyList/Lookup.antt =====
-- src/structure/adjacencylist.rs: `left_count` and `get` of a list that was parsed.
use terminus_store.Prelude.{
  ℕ, suc, ◌+◌, ◌-◌, ◌^◌, ◌≤◌, ◌<◌, ◌≡◌, ap, ◌∙◌, sym, arith, Bool, true, ◌==◌, leb, ltb,
  if◌then◌else◌, List, [], ◌∷◌, length, length-append, ◌⊎◌, get_or, take, drop, Bool-cases, inl,
  inr,
}
use mathlib.Core.Path.{subst}
use terminus_store.Prelude.Outcome.{ok, panic}
use terminus_store.Structure.Framed.{FramedRead}
use terminus_store.Structure.Word.{ByteOrder}
use terminus_store.Structure.LogArray
use terminus_store.Structure.LogArray.{LogArray}
use terminus_store.Structure.LogArray.RoundTrip.{Stores}
use terminus_store.Structure.LogArray.Slice.{slice-Stores, part}
use terminus_store.Structure.LogArray.Correct.{entry-all}
use terminus_store.Structure.BitIndex.Ones.{count_true}
use terminus_store.Structure.BitIndex.Counts.{rank1_lem}
use terminus_store.Structure.Select.Correct.{select1-some}
use terminus_store.Structure.Select.Range.{mono_to, count_true-set}
use terminus_store.Structure.AdjacencyList.{
  AdjacencyList, parse, left_count, offset_for, get_slice, get,
}
use terminus_store.Structure.AdjacencyList.Builder.{AdjacencyListFiles}
use terminus_store.Structure.AdjacencyList.Layout.{all_nums, all_bits}
use terminus_store.Structure.AdjacencyList.Pairs.{list_bits}
use terminus_store.Structure.AdjacencyList.Stream.{IsInput, Leaves}
use terminus_store.Structure.AdjacencyList.Parsed.{Represents, parsed_list}
use terminus_store.Structure.AdjacencyList.Rows.{row, row_of, last_of}
use terminus_store.Structure.AdjacencyList.RowLayout.{row_of-all}
use terminus_store.Structure.AdjacencyList.Segment.{IsSegment, row_of-segment, count_true-list_bits}

module _ (order : ByteOrder) (list : AdjacencyList) (bits : List Bool) (nums : List ℕ)
    (r : Represents list bits nums) where
  left_count_lem : left_count order list ≡ ok (count_true (length bits) bits)
  unfolding left_count count_true
  left_count_lem = elim (Bool-cases (list.bits.array.len == 0)) [
    | inl empty ↦
        rw empty
          (ap (λ n. ok (count_true n bits)) {x = 0} {y = length bits} (ground (arith, r.counted)))
    | inr full ↦
        let last : list.bits.array.len - 1 < length bits = ground (arith, r.counted) in
        rw (full, rank1_lem order list.bits r.chunks bits r.counts (list.bits.array.len - 1) last)
          (ap (λ n. ok (count_true n bits)) {x = suc (list.bits.array.len - 1)} {y = length bits}
            (ground (arith, r.counted)))
  ]

  module _ (index : ℕ) (pos : 0 < index) (enough : index ≤ count_true (length bits) bits)
      (there : 0 < length bits) where
    -- A row starts behind the bit that ends the one before.
    offset_for_lem :
        (s : ℕ) × (offset_for order list index ≡ ok s)
        × (count_true s bits + 1 ≡ index)
        × ((p : ℕ) → p < s → 1 + count_true p bits < index)
    unfolding offset_for count_true
    offset_for_lem = elim (Bool-cases (index == 1)) [
      | inl first ↦ (0, rw first, ground arith, λ p h. absurd (omega arith))
      | inr later ↦
          let more : 1 < index = ground arith in
          let (q, e, inside, set, count) =
            select1-some order list.bits r.chunks bits r.counts there (index - 1) (omega arith)
              (omega arith) in
          (
            q + 1,
            ground (arith, e),
            omega (arith, count, ap (λ n. count_true n bits) {x = q + 1} {y = suc q} (omega arith)),
            λ p h. omega (arith, count, count_true-set q bits set, mono_to bits p q (omega arith)),
          )
    ]

    get_slice_lem :
        length nums < 2 ^ 32
        → (cut : LogArray) × (get_slice order list index ≡ ok cut)
          × Stores cut r.words r.control (row_of index 1 bits nums)
    unfolding get_slice
    get_slice_lem small =
        let (s, starts, count_s, below) = offset_for_lem in
        let (p, e, inside, set, count) =
          select1-some order list.bits r.chunks bits r.counts there index pos enough in
        let before = count_true-set p bits set in
        let ordered : s ≤ p = elim (Bool-cases (leb s p)) [
          | inl le ↦ ground arith
          | inr gt ↦ absurd (omega (arith, count, count_s, mono_to bits (suc p) s (ground arith)))
        ] in
        let segment : IsSegment index 1 bits s (suc p) = record {
          ordered = omega arith;
          inside = inside;
          below = below;
          within = λ q hs hp.
              omega (
                arith,
                count,
                before,
                count_s,
                mono_to bits s q hs,
                mono_to bits q p (omega arith),
              );
          above = λ q hp hq. omega (arith, count, mono_to bits (suc p) q hp);
        } in
        let (cut, sliced, holds) =
          slice-Stores list.nums r.words r.control nums r.holds s (p - s + 1)
            (omega (arith, r.holds.sized, r.same_length)) (omega (arith, r.same_length)) in
        let row_is : part nums s (p - s + 1) ≡ row_of index 1 bits nums =
          ap (λ n. take n (drop s nums)) {x = p - s + 1} {y = suc p - s} (omega arith)
          ∙ sym (row_of-segment bits nums index 1 s (suc p) r.same_length segment) in
        (cut, ground (arith, starts, e, sliced), subst (Stores cut r.words r.control) row_is holds)

-- A row is read by index, and panics past its end.
abbrev pub ReadsRow : ByteOrder → LogArray → List ℕ → Type 0
ReadsRow order cut nums =
    (k : ℕ)
    → LogArray.entry order cut k ≡ (if ltb k (length nums) then ok (get_or nums k 0) else panic)

-- Pairs with a left-hand side have bits.
some_bits : (pairs : List (ℕ × ℕ)) → 0 < last_of 0 pairs → 0 < length (list_bits pairs)
some_bits [] h = absurd (omega arith)
some_bits (pair ∷ pairs) h = omega (arith, length-append (all_bits 0 (pair ∷ pairs)) (true ∷ []))

module _ {framed : FramedRead} (order : ByteOrder) (width : ℕ) (pairs : List (ℕ × ℕ))
    (chunks : List (List ℕ)) (i : IsInput framed order width pairs chunks) where
  -- What a query comes to on the list that is parsed from the files that a builder leaves.
  abbrev pub OnList : (AdjacencyList → Type 0) → Type 0
  OnList P =
      (files : AdjacencyListFiles) × Leaves order width pairs chunks i files
      × (list : AdjacencyList) × (parse order files.nums_file files.bitfile files.bitindex_blocks
            files.bitindex_sblocks
          ≡ ok list)
      × P list

  -- For pairs of positive numbers in increasing order, which all fit, `parse` accepts the files that a
  -- builder leaves, and `left_count` of the list is the largest left-hand side.
  pub left_count-push_all : OnList (λ list. left_count order list ≡ ok (last_of 0 pairs))
  left_count-push_all =
      let (files, left, list, parsed, r) = parsed_list order width pairs chunks i in
      (
        files,
        left,
        list,
        parsed,
        left_count_lem order list (list_bits pairs) (all_nums 0 pairs) r
            ∙ ap ok (count_true-list_bits pairs i.ordered),
      )

  -- For such pairs and an index from 1 to the largest left-hand side, `get` returns an array whose
  -- entries are the right-hand sides of the pairs with that left-hand side, in their order, or the one
  -- entry 0 where no pair has it.
  pub get-row :
      (index : ℕ)
      → 0 < index
      → index ≤ last_of 0 pairs
      → OnList (λ list.
        (cut : LogArray) × (get order list index ≡ ok cut) × ReadsRow order cut (row index pairs))
  unfolding get
  get-row index pos high =
      let (files, left, list, parsed, r) = parsed_list order width pairs chunks i in
      let total = count_true-list_bits pairs i.ordered in
      let counted = left_count_lem order list (list_bits pairs) (all_nums 0 pairs) r in
      let (cut, sliced, holds) =
        get_slice_lem order list (list_bits pairs) (all_nums 0 pairs) r index pos
          (omega (arith, total)) (some_bits pairs (omega arith)) i.few in
      let row_is = row_of-all index pairs i.ordered pos high in
      (
        files,
        left,
        list,
        parsed,
        (
          cut,
          ground (arith, counted, total, sliced),
          entry-all order cut r.words r.control (row index pairs)
              (subst (Stores cut r.words r.control) row_is holds),
        ),
      )

  -- For such pairs and the index 0 or one above the largest left-hand side, `get` panics.
  pub get-panics :
      (index : ℕ)
      → (index ≡ 0) ⊎ (last_of 0 pairs < index)
      → OnList (λ list. get order list index ≡ panic)
  unfolding get
  get-panics index outside =
      let (files, left, list, parsed, r) = parsed_list order width pairs chunks i in
      let counted = left_count_lem order list (list_bits pairs) (all_nums 0 pairs) r in
      (files, left, list, parsed, ground (arith, counted, count_true-list_bits pairs i.ordered))
