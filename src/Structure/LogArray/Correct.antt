-- ===== src/Structure/LogArray/Correct.antt =====
-- src/structure/logarray.rs: the array that is read back is the list that was pushed.
use terminus_store.Prelude.{
  ℕ, ◌+◌, ◌^◌, ◌≤◌, ◌<◌, ◌≡◌, ap, ◌∙◌, arith, List, [], length, get_or, ltb, Bool-cases, inl, inr,
  if◌then◌else◌,
}
use terminus_store.Prelude.Outcome.{Outcome, ok, panic}
use terminus_store.Structure.Word.{ByteOrder}
use terminus_store.Structure.LogArray.{
  LogArray, LogArrayFileBuilder, parsed, parse, entry, slice, push_vec, new, finalize,
}
use terminus_store.Structure.LogArray.Push.{new-Holds}
use terminus_store.Structure.LogArray.Invariant.{AllFit, push_vec-Holds}
use terminus_store.Structure.LogArray.RoundTrip.{Stores, entry_lem}
use terminus_store.Structure.LogArray.Finalize.{whole, words, parse-finalize, finalize-Stores}
use terminus_store.Structure.LogArray.Slice.{slice-Stores, part, length-part, part-get_or}

entry_outside :
    (order : ByteOrder) (self : LogArray) (i : ℕ) → self.len ≤ i → entry order self i ≡ panic
unfolding entry
entry_outside order self i h = ground arith

-- What an array of `n` values does at index `i`.
abbrev pub in_bounds : ℕ → ℕ → ℕ → Outcome ℕ
in_bounds i n x = if ltb i n then ok x else panic

pub entry-all :
    (order : ByteOrder) (self : LogArray) (ws control vals : List ℕ)
    → Stores self ws control vals
    → (i : ℕ) → entry order self i ≡ in_bounds i (length vals) (get_or vals i 0)
entry-all order self ws control vals s i = elim (Bool-cases (ltb i (length vals))) [
  | inl inside ↦ rw inside (entry_lem order self ws control vals s i (ground arith))
  | inr outside ↦ rw outside (entry_outside order self i (ground (arith, s.sized)))
]

-- The builder over an empty file, given values that fit the width.
module _ (order : ByteOrder) (width : ℕ) (vals : List ℕ) (wide : 1 ≤ width) (narrow : width ≤ 64)
    (fit : AllFit width vals) (few : length vals < 2 ^ 32) where
  pub built :
      (b : LogArrayFileBuilder) × (array : LogArray) × (ws : List ℕ) × (control : List ℕ)
      × (push_vec (new [] width) vals ≡ ok b)
      × (parse order (finalize order b) ≡ parsed array)
      × (array.len ≡ length vals)
      × (array.width ≡ width)
      × Stores array ws control vals
  unfolding new
  built =
      let (b, ws, pushed, same, inv) =
        push_vec-Holds vals (new [] width) [] [] (new-Holds width) wide narrow fit (omega arith) in
      let wide' : 1 ≤ b.width = omega (arith, same) in
      let narrow' : b.width ≤ 64 = omega (arith, same) in
      let few' : b.count < 2 ^ 32 = omega (arith, inv.counted) in
      let fit' : AllFit b.width vals = rw same fit in
      (
        b,
        whole b (finalize order b),
        words order b ws vals inv wide' narrow' few' fit',
        _,
        pushed,
        parse-finalize order b ws vals inv wide' narrow' few' fit',
        inv.counted,
        same,
        finalize-Stores order b ws vals inv wide' narrow' few' fit',
      )

  -- Values that fit the width of a new builder, 1 to 64 bits, and are fewer than 2 ^ 32, can all be
  -- pushed; `parse` accepts the finished file as an array of that length and width, and `entry`
  -- returns each value at its index and panics at any other.
  pub entry-push_vec :
      (b : LogArrayFileBuilder) × (array : LogArray) × (push_vec (new [] width) vals ≡ ok b)
      × (parse order (finalize order b) ≡ parsed array)
      × (array.len ≡ length vals)
      × (array.width ≡ width)
      × ((i : ℕ)
          → entry order array i ≡ (if ltb i (length vals) then ok (get_or vals i 0) else panic))
  entry-push_vec =
      let (b, array, ws, control, pushed, accepted, sized, same, s) = built in
      (b, array, pushed, accepted, sized, same, entry-all order array ws control vals s)

  -- A slice of that array, within its length, reads the values from its offset on, and
  -- panics past its own length.
  pub entry-slice :
      (offset len : ℕ)
      → offset + len ≤ length vals
      → (b : LogArrayFileBuilder) × (array : LogArray) × (cut : LogArray) × (push_vec
            (new [] width)
            vals
          ≡ ok b)
        × (parse order (finalize order b) ≡ parsed array)
        × (slice array offset len ≡ ok cut)
        × ((i : ℕ)
            → entry order cut i ≡ (if ltb i len then ok (get_or vals (offset + i) 0) else panic))
  entry-slice offset len h =
      let (b, array, ws, control, pushed, accepted, sized, same, s) = built in
      let inside : offset + len ≤ array.len = omega (arith, sized) in
      let (cut, sliced, s') =
        slice-Stores array ws control vals s offset len inside (omega arith) in
      (
        b,
        array,
        cut,
        pushed,
        accepted,
        sliced,
        λ i. entry-cut array ws control sized s cut s' inside i,
      )
    where
      entry-cut :
          (array : LogArray) (ws control : List ℕ)
          → array.len ≡ length vals
          → (s : Stores array ws control vals) → (cut : LogArray)
          → Stores cut ws control (part vals offset len)
          → offset + len ≤ array.len
          → (i : ℕ)
          → entry order cut i ≡ (if ltb i len then ok (get_or vals (offset + i) 0) else panic)
      entry-cut array ws control sized s cut s' inside i =
          let n = length-part array ws control vals s offset len inside in
          elim (Bool-cases (ltb i len)) [
            | inl low ↦ rw low (
                entry_lem order cut ws control (part vals offset len) s' i (ground (arith, n))
                ∙ ap ok (part-get_or array ws control vals s offset len inside i (ground arith)))
            | inr high ↦ rw high (entry_outside order cut i (ground (arith, n, s'.sized)))
          ]
