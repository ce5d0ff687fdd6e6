-- ===== src/Structure/Monotonic/Correct.antt =====
-- src/structure/logarray.rs: `MonotonicLogArray` over an array that the builder wrote.
use terminus_store.Prelude.{ℕ, ◌+◌, ◌^◌, ◌≤◌, ◌<◌, ◌≡◌, arith, List, [], length, get_or, Option}
use terminus_store.Prelude.Outcome.{ok, panic}
use terminus_store.Structure.Word.{ByteOrder}
use terminus_store.Structure.LogArray.{
  LogArray, LogArrayFileBuilder, parse, parsed, push_vec, new, finalize, entry,
}
use terminus_store.Structure.LogArray.Invariant.{AllFit}
use terminus_store.Structure.LogArray.RoundTrip.{Stores, entry_lem}
use terminus_store.Structure.LogArray.Correct.{built}
use terminus_store.Structure.Monotonic.{nearest_index_of, index_of, from_logarray}
use terminus_store.Structure.Monotonic.Search.{
  IsSorted, IsPlace, IsIndex, nearest_index_of-IsPlace, index_of-IsIndex,
}
use terminus_store.Structure.Monotonic.Check.{from_logarray-ok, from_logarray-panic}

abbrev pub value_at : List ℕ → ℕ → ℕ
value_at vals i = get_or vals i 0

module _ (order : ByteOrder) (width : ℕ) (vals : List ℕ) (wide : 1 ≤ width) (narrow : width ≤ 64)
    (fit : AllFit width vals) (few : length vals < 2 ^ 32) where
  entries :
      (array : LogArray) (ws control : List ℕ)
      → Stores array ws control vals
      → (i : ℕ) → i < array.len
      → entry order array i ≡ ok (value_at vals i)
  entries array ws control s i hi =
      entry_lem order array ws control vals s i (omega (arith, s.sized))

  -- Values none of which is below an earlier one, pushed, parsed and passed to `from_logarray`,
  -- are accepted. On
  -- the result, `nearest_index_of` returns, for any element, an index of it, or where it is not
  -- there the number of values below it, all others being above; and `index_of` returns an index of
  -- it, or nothing, and then it is at no index.
  pub index_of-push_vec :
      IsSorted (value_at vals) (length vals)
      → (b : LogArrayFileBuilder) × (array : LogArray) × (push_vec (new [] width) vals ≡ ok b)
        × (parse order (finalize order b) ≡ parsed array)
        × (from_logarray order array ≡ ok array)
        × ((element : ℕ)
            → ((r : ℕ) × (nearest_index_of order array element ≡ ok r)
                × IsPlace (value_at vals) (length vals) element r)
              × ((found : Option ℕ) × (index_of order array element ≡ ok found)
                  × IsIndex (value_at vals) (length vals) element found))
  index_of-push_vec sorted =
      let (b, array, ws, control, pushed, accepted, sized, same, s) =
        built order width vals wide narrow fit few in
      let reads = entries array ws control s in
      let sorted' : IsSorted (value_at vals) array.len = rw sized sorted in
      (
        b,
        array,
        pushed,
        accepted,
        from_logarray-ok order array (value_at vals) reads sorted',
        λ element. (
          rw sized at (nearest_index_of-IsPlace order array (value_at vals) reads sorted' element),
          rw sized at (index_of-IsIndex order array (value_at vals) reads sorted' element),
        ),
      )

  -- Where some value is below the one before it, `from_logarray` panics on the array that they were
  -- written to.
  pub from_logarray-unsorted :
      (i : ℕ)
      → i + 1 < length vals
      → value_at vals (i + 1) < value_at vals i
      → (b : LogArrayFileBuilder) × (array : LogArray) × (push_vec (new [] width) vals ≡ ok b)
        × (parse order (finalize order b) ≡ parsed array)
        × (from_logarray order array ≡ panic)
  from_logarray-unsorted i hi drop =
      let (b, array, ws, control, pushed, accepted, sized, same, s) =
        built order width vals wide narrow fit few in
      (
        b,
        array,
        pushed,
        accepted,
        from_logarray-panic order array (value_at vals) (entries array ws control s) i
            (omega (arith, sized)) drop,
      )
