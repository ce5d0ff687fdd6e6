-- ===== src/Structure/Select/Range.antt =====
-- src/structure/bitindex.rs: `select1_from_range` of an index that `build_bitindex` wrote.
use terminus_store.Prelude.{
  map, ℕ, suc, ◌+◌, ◌-◌, ◌^◌, ◌≤◌, ◌<◌, ◌≡◌, refl, ap, ◌∙◌, sym, arith, Bool, true, List, length,
  Bool-cases, inl, inr, leb, ◌==◌, if◌then◌else◌, Option, none, some,
}
use terminus_store.Prelude.Outcome.{ok}
use terminus_store.Structure.Framed.{FramedRead}
use terminus_store.Structure.Word.{checked_add, ByteOrder}
use terminus_store.Structure.BitArray.{bitarray_stream_blocks}
use terminus_store.Structure.BitArray.Push.{to_bit, bit_or_false}
use terminus_store.Structure.BitIndex.{BitIndex, rank1}
use terminus_store.Structure.BitIndex.Ones.{count_true, count_mono}
use terminus_store.Structure.BitIndex.Build.{AllChunks, concat}
use terminus_store.Structure.BitIndex.Counts.{Counts, rank1_lem}
use terminus_store.Structure.BitIndex.Rank.{file, index-Counts}
use terminus_store.Structure.Select.{select1, select1_from_range, in_range}
use terminus_store.Structure.Select.Correct.{select1-some, select1-none}
use terminus_store.Structure.Select.Build.{OnIndex}

-- The position in the range whose set bit is the one asked for, or none where the range has fewer.
abbrev pub IsSelectedInRange : List Bool → ℕ → ℕ → ℕ → Option ℕ → Type 0
IsSelectedInRange bits subrank start end (some p) =
    (start ≤ p)
    × (p < end)
    × (bit_or_false bits p ≡ true)
    × (count_true (suc p) bits ≡ count_true start bits + subrank)
IsSelectedInRange bits subrank start end none =
    count_true end bits < count_true start bits + subrank

pub mono_to : (bits : List Bool) (a b : ℕ) → a ≤ b → count_true a bits ≤ count_true b bits
mono_to bits a b h = omega (
  arith,
  (count_mono a (b - a) bits).0,
  ap (λ t. count_true t bits) {x = a + (b - a)} {y = b} (omega arith),
)

pub count_true-set :
    (p : ℕ) (bits : List Bool)
    → bit_or_false bits p ≡ true
    → count_true (suc p) bits ≡ count_true p bits + 1
unfolding count_true
count_true-set p bits e = omega (arith, ap to_bit e)

in_range-later :
    (index : BitIndex) (subrank start end p : ℕ)
    → start ≤ p
    → in_range true index subrank start end p ≡ ok (if leb end p then none else some p)
unfolding in_range
in_range-later index subrank start end p h = ground arith

module _ (order : ByteOrder) (index : BitIndex) (cs : List (List ℕ)) (bits : List Bool)
    (c : Counts index cs bits) (there : 0 < length bits) (subrank start end : ℕ) (pos : 0 < subrank)
    (ordered : start ≤ end) (inside : end ≤ length bits)
    (word : count_true start bits + subrank < 2 ^ 64) where
  offset : (if start == 0 then ok 0 else rank1 order index (start - 1)) ≡ ok (count_true start bits)
  offset = elim (Bool-cases (start == 0)) [
    | inl zeroth ↦ rw zeroth (
        ap ok (
          sym (
            ap (λ t. count_true t bits) {x = start} {y = 0} (ground arith)
            ∙ (unfold count_true in refl))))
    | inr later ↦
        let at : 0 < start = ground arith in
        rw later (
          rank1_lem order index cs bits c (start - 1) (omega arith)
          ∙ ap (λ t. ok (count_true t bits)) (omega arith))
  ]

  sum : checked_add 64 (count_true start bits) subrank ≡ ok (count_true start bits + subrank)
  sum = ground arith

  from_range-some :
      (p : ℕ)
      → select1 order index (count_true start bits + subrank) ≡ ok (some p)
      → start ≤ p
      → select1_from_range order index subrank start end ≡ ok (if leb end p then none else some p)
  unfolding select1_from_range
  from_range-some p e h = rw offset (rw sum (rw e (in_range-later index subrank start end p h)))

  from_range-none :
      select1 order index (count_true start bits + subrank) ≡ ok none
      → select1_from_range order index subrank start end ≡ ok none
  unfolding select1_from_range
  from_range-none e = rw offset (rw sum (rw e))

  from_range_lem :
      (found : Option ℕ) × (select1_from_range order index subrank start end ≡ ok found)
      × IsSelectedInRange bits subrank start end found
  from_range_lem =
      elim (Bool-cases (leb (count_true start bits + subrank) (count_true (length bits) bits))) [
        | inl enough ↦
            let (p, e, low, set, count) =
              select1-some order index cs bits c there (count_true start bits + subrank)
                (omega arith) (ground arith) in
            let after : start ≤ p = later_than p count in
            (
              if leb end p then none else some p,
              from_range-some p e after,
              chosen p after set count,
            )
        | inr short ↦ (
          none,
          from_range-none (
              select1-none order index cs bits c there (count_true start bits + subrank)
                (ground arith)),
          ground (arith, mono_to bits end (length bits) inside),
        )
      ]
    where
      later_than : (p : ℕ) → count_true (suc p) bits ≡ count_true start bits + subrank → start ≤ p
      later_than p count = elim (Bool-cases (leb start p)) [
        | inl le ↦ ground arith
        | inr gt ↦ absurd (omega (arith, mono_to bits (suc p) start (ground arith)))
      ]

      chosen :
          (p : ℕ)
          → start ≤ p
          → bit_or_false bits p ≡ true
          → count_true (suc p) bits ≡ count_true start bits + subrank
          → IsSelectedInRange bits subrank start end (if leb end p then none else some p)
      chosen p after set count = elim (Bool-cases (leb end p)) [
        | inl past ↦
            rw past (omega (arith, count_true-set p bits set, mono_to bits end p (ground arith)))
        | inr within ↦ rw within (after, ground arith, set, count)
      ]

-- For the index of a nonempty list of fewer than 2 ^ 38 - 63 bits, a range within it and a positive
-- subrank whose sum with the ones before the range is below 2 ^ 64, `select1_from_range` returns the position in the range up to and including which as many
-- bits of the range are set as the subrank says, and none exactly where the range has fewer.
pub select1_from_range-build_bitindex :
    (order : ByteOrder) (bits : List Bool) (cs : List (List ℕ)) (chunked : AllChunks cs)
    (framed : FramedRead)
    (same : bitarray_stream_blocks framed order (file order bits cs chunked) ≡ map ok (concat cs))
    (few : length bits + 64 ≤ 2 ^ 38) (there : 0 < length bits) (subrank start end : ℕ)
    → 0 < subrank
    → start ≤ end
    → end ≤ length bits
    → count_true start bits + subrank < 2 ^ 64
    → OnIndex order bits cs chunked (λ index.
      (found : Option ℕ) × (select1_from_range order index subrank start end ≡ ok found)
      × IsSelectedInRange bits subrank start end found)
select1_from_range-build_bitindex order bits cs chunked framed same few there subrank start end pos
      ordered inside word =
    let (array, blocks, sblocks, files, built, c) =
      index-Counts order bits cs chunked framed same few in
    (
      array,
      blocks,
      sblocks,
      files,
      built,
      from_range_lem order _ cs bits c there subrank start end pos ordered inside word,
    )
