-- ===== src/Structure/AdjacencyList/Iterate.antt =====
-- src/structure/adjacencylist.rs: the iterator over a list that was parsed.
use terminus_store.Prelude.{
  drop-cons, ℕ, zero, suc, ◌+◌, ◌-◌, ◌≤◌, ◌<◌, ◌≡◌, refl, ap, ◌∙◌, sym, arith, Bool, false, ◌==◌,
  leb, if◌then◌else◌, List, [], ◌∷◌, length, get_or, drop, length-drop, nil_of_length, Bool-cases,
  inl, inr, Option, none, some,
}
use mathlib.Core.Path.{ap₂, subst}
use terminus_store.Prelude.Outcome.{ok}
use terminus_store.Structure.Framed.{FramedRead}
use terminus_store.Structure.Word.{ByteOrder}
use terminus_store.Structure.BitArray.Push.{bit_or_false}
use terminus_store.Structure.AdjacencyList.{
  AdjacencyList, AdjacencyListIterator, parse, iter, next, next_loop, collect,
}
use terminus_store.Structure.AdjacencyList.Builder.{AdjacencyListFiles}
use terminus_store.Structure.AdjacencyList.Layout.{all_nums}
use terminus_store.Structure.AdjacencyList.Pairs.{
  bit_counts, zip_filter, list_bits, read_pairs, read_pairs-all,
}
use terminus_store.Structure.AdjacencyList.Stream.{IsInput, Leaves}
use terminus_store.Structure.AdjacencyList.Parsed.{Represents, parsed_list, num_at}

drop_past : {A : Type 0} (xs : List A) (p : ℕ) → length xs ≤ p → drop p xs ≡ []
drop_past xs p h = nil_of_length (drop p xs) (omega (arith, length-drop p xs))

pub read_pairs_cons :
    (left : ℕ) (b : Bool) (num : ℕ) (bits : List Bool) (nums : List ℕ)
    → read_pairs left (b ∷ bits) (num ∷ nums) ≡ (
        if num == 0
        then read_pairs (if b then left + 1 else left) bits nums
        else (left, num) ∷ read_pairs (if b then left + 1 else left) bits nums)
unfolding bit_counts zip_filter
read_pairs_cons left b num bits nums = refl

module _ (order : ByteOrder) (list : AdjacencyList) (bits : List Bool) (nums : List ℕ)
    (r : Represents list bits nums) where
  abbrev at : ℕ → ℕ → AdjacencyListIterator
  at pos left = record { pos = pos; left = left }

  -- The pairs that the iterator has before it.
  abbrev remaining : AdjacencyListIterator → List (ℕ × ℕ)
  remaining self = read_pairs self.left (drop self.pos bits) (drop self.pos nums)

  -- What a call may return where those are the pairs.
  abbrev Yields : Option (ℕ × ℕ) × AdjacencyListIterator → List (ℕ × ℕ) → Type 0
  Yields (none, self) pairs = pairs ≡ []
  Yields (some pair, self) pairs = pairs ≡ pair ∷ remaining self

  remaining-end : (pos left : ℕ) → length bits ≤ pos → remaining (at pos left) ≡ []
  remaining-end pos left h =
      ap (λ bs. read_pairs left bs (drop pos nums)) (drop_past bits pos h)
      ∙ (unfold bit_counts zip_filter in refl)

  remaining-step :
      (pos left : ℕ)
      → pos < length bits
      → remaining (at pos left) ≡ (
          if get_or nums pos 0 == 0
          then remaining (at (pos + 1) (if bit_or_false bits pos then left + 1 else left))
          else (left, get_or nums pos 0)
            ∷ remaining (at (pos + 1) (if bit_or_false bits pos then left + 1 else left)))
  remaining-step pos left h =
      ap₂ (read_pairs left) (drop-cons bits pos false h)
        (drop-cons nums pos 0 (omega (arith, r.same_length)))
      ∙ read_pairs_cons left (get_or bits pos false) (get_or nums pos 0) (drop (suc pos) bits)
          (drop (suc pos) nums)
      ∙ ap
          (λ k.
            if get_or nums pos 0 == 0
            then read_pairs (if bit_or_false bits pos then left + 1 else left) (drop k bits)
                (drop k nums)
            else (left, get_or nums pos 0)
              ∷ read_pairs (if bit_or_false bits pos then left + 1 else left) (drop k bits)
                  (drop k nums))
          {x = suc pos} {y = pos + 1} (omega arith)

  module _ (fuel pos left : ℕ) where
    loop-past :
        length bits ≤ pos → next_loop order list (suc fuel) (at pos left) ≡ ok (none, at pos left)
    unfolding next_loop
    loop-past h = ground (arith, r.counted)

    loop-inside :
        pos < length bits
        → next_loop order list (suc fuel) (at pos left) ≡ (
            if get_or nums pos 0 == 0
            then next_loop order list fuel
                (at (pos + 1) (if bit_or_false bits pos then left + 1 else left))
            else ok (
              some (left, get_or nums pos 0),
              at (pos + 1) (if bit_or_false bits pos then left + 1 else left),
            ))
    unfolding next_loop
    loop-inside h = ground (arith, r.counted, r.gets pos h, num_at order list bits nums r pos h)

  next_loop_lem :
      (fuel pos left : ℕ)
      → length bits - pos < fuel
      → (step : Option (ℕ × ℕ) × AdjacencyListIterator) × (next_loop order list fuel (at pos left)
          ≡ ok step)
        × Yields step (remaining (at pos left))
  next_loop_lem zero pos left h = absurd (omega arith)
  next_loop_lem (suc fuel) pos left h = elim (Bool-cases (leb (length bits) pos)) [
    | inl past ↦ (
      (none, at pos left),
      loop-past fuel pos left (ground arith),
      remaining-end pos left (ground arith),
    )
    | inr inside ↦
        let hp : pos < length bits = ground arith in
        let left' : ℕ = if bit_or_false bits pos then left + 1 else left in
        elim (Bool-cases (get_or nums pos 0 == 0)) [
          | inl hole ↦
              let (step, e, yields) = next_loop_lem fuel (pos + 1) left' (omega arith) in
              (
                step,
                loop-inside fuel pos left hp ∙ rw hole e,
                subst (Yields step) (sym (remaining-step pos left hp ∙ rw hole)) yields,
              )
          | inr number ↦ (
            (some (left, get_or nums pos 0), at (pos + 1) left'),
            loop-inside fuel pos left hp ∙ rw number,
            remaining-step pos left hp ∙ rw number,
          )
        ]
  ]

  collect_step :
      (fuel : ℕ) (self : AdjacencyListIterator) (step : Option (ℕ × ℕ) × AdjacencyListIterator)
      → next order list self ≡ ok step
      → Yields step (remaining self)
      → ((it : AdjacencyListIterator)
          → length (remaining it) < fuel
          → collect order list fuel it ≡ ok (remaining it))
      → length (remaining self) < suc fuel
      → collect order list (suc fuel) self ≡ ok (remaining self)
  unfolding collect
  collect_step fuel self (none, it) e yields further h = rw e (ap ok (sym yields))
  collect_step fuel self (some pair, it) e yields further h =
      rw (e, further it (omega (arith, ap length yields))) (ap ok (sym yields))

  collect_lem :
      (fuel : ℕ) (self : AdjacencyListIterator)
      → length (remaining self) < fuel
      → collect order list fuel self ≡ ok (remaining self)
  unfolding next
  collect_lem zero self h = absurd (omega arith)
  collect_lem (suc fuel) self h =
      let (step, e, yields) =
        next_loop_lem (suc (list.bits.array.len - self.pos)) self.pos self.left
          (omega (arith, r.counted)) in
      collect_step fuel self step e yields (collect_lem fuel) h

module _ {framed : FramedRead} (order : ByteOrder) (width : ℕ) (pairs : List (ℕ × ℕ))
    (chunks : List (List ℕ)) (i : IsInput framed order width pairs chunks) where
  -- `parse` accepts the files that a builder leaves after pairs of positive numbers in increasing
  -- order, which all fit, and calling `next` until it returns none gives exactly those pairs, in
  -- their order; no more calls than there are pairs and one are made.
  pub collect-push_all :
      (files : AdjacencyListFiles) × Leaves order width pairs chunks i files
      × (list : AdjacencyList) × (parse order files.nums_file files.bitfile files.bitindex_blocks
            files.bitindex_sblocks
          ≡ ok list)
      × (collect order list (suc (length pairs)) iter ≡ ok pairs)
  collect-push_all =
      let (files, left, list, parsed, r) = parsed_list order width pairs chunks i in
      let all = read_pairs-all pairs i.ordered in
      (
        files,
        left,
        list,
        parsed,
        collect_lem order list (list_bits pairs) (all_nums 0 pairs) r (suc (length pairs)) iter
              (omega (arith, ap length all))
            ∙ ap ok all,
      )
