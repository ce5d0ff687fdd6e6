-- ===== src/Structure/Monotonic/Search.antt =====
-- src/structure/logarray.rs: the binary search finds an element, or the place where it belongs.
use terminus_store.Prelude.{
  ℕ, zero, suc, ◌+◌, ◌-◌, ◌/◌, ◌≤◌, ◌<◌, ◌≡◌, ◌⊎◌, ◌≢◌, inl, inr, ap, ◌∙◌, arith, Bool-cases, ltb,
  leb, ◌==◌, Option, none, some,
}
use terminus_store.Prelude.Outcome.{ok}
use terminus_store.Structure.Word.{ByteOrder}
use terminus_store.Structure.LogArray
use terminus_store.Structure.LogArray.{LogArray}
use terminus_store.Structure.Monotonic.{search, nearest_index_of, index_of}

-- Each value is at most the ones after it.
abbrev pub IsSorted : (ℕ → ℕ) → ℕ → Type 0
IsSorted g n = (i j : ℕ) → i < j → j < n → g i ≤ g j

-- `r` is the place of the element: it is there, or it would go there.
abbrev pub IsPlace : (ℕ → ℕ) → ℕ → ℕ → ℕ → Type 0
IsPlace g n element r =
    ((r < n) × (g r ≡ element))
    ⊎ ((r ≤ n) × ((i : ℕ) → i < r → g i < element) × ((i : ℕ) → r ≤ i → i < n → element < g i))

-- `some` index of the element, or `none` where it is at no index.
abbrev pub IsIndex : (ℕ → ℕ) → ℕ → ℕ → Option ℕ → Type 0
IsIndex g n element (some r) = (r < n) × (g r ≡ element)
IsIndex g n element none = (i : ℕ) → i < n → g i ≢ element

Ordering-cases : (a b : ℕ) → (a < b) ⊎ ((a ≡ b) ⊎ (b < a))
Ordering-cases a b = ground arith

module _ (order : ByteOrder) (self : LogArray) (g : ℕ → ℕ)
    (reads : (i : ℕ) → i < self.len → LogArray.entry order self i ≡ ok (g i))
    (sorted : IsSorted g self.len) (element : ℕ) where
  below : (mid : ℕ) → mid < self.len → g mid < element → (i : ℕ) → i < mid + 1 → g i < element
  below mid hm h i hi = elim (Bool-cases (i == mid)) [
    | inl same ↦ omega (arith, ap g {x = i} {y = mid} (ground arith))
    | inr apart ↦ omega (arith, sorted i mid (ground arith) hm)
  ]

  above :
      (mid : ℕ)
      → mid < self.len
      → element < g mid
      → (i : ℕ) → mid ≤ i
      → i < self.len
      → element < g i
  above mid hm h i hi hn = elim (Bool-cases (i == mid)) [
    | inl same ↦ omega (arith, ap g {x = i} {y = mid} (ground arith))
    | inr apart ↦ omega (arith, sorted mid i (ground arith) hn)
  ]

  abbrev middle : ℕ → ℕ → ℕ
  middle min max = (min + max) / 2

  search-end :
      (fuel min max : ℕ)
      → max < min
      → search order self element (suc fuel) min max ≡ ok ((min + max) / 2 + 1)
  unfolding search
  search-end fuel min max h = ground arith

  search-here :
      (fuel min max : ℕ)
      → min ≤ max
      → max < self.len
      → g (middle min max) ≡ element
      → search order self element (suc fuel) min max ≡ ok (middle min max)
  unfolding search
  search-here fuel min max h hm e = ground (arith, reads (middle min max) (omega arith))

  search-right :
      (fuel min max : ℕ)
      → min ≤ max
      → max < self.len
      → g (middle min max) < element
      → search order self element (suc fuel) min max
        ≡ search order self element fuel (middle min max + 1) max
  unfolding search
  search-right fuel min max h hm e = ground (arith, reads (middle min max) (omega arith))

  search-left :
      (fuel min max : ℕ)
      → min ≤ max
      → max < self.len
      → element < g (middle min max)
      → 0 < middle min max
      → search order self element (suc fuel) min max
        ≡ search order self element fuel min (middle min max - 1)
  unfolding search
  search-left fuel min max h hm e pos = ground (arith, reads (middle min max) (omega arith))

  search-first :
      (fuel min max : ℕ)
      → min ≤ max
      → max < self.len
      → element < g (middle min max)
      → middle min max ≡ 0
      → search order self element (suc fuel) min max ≡ ok 0
  unfolding search
  search-first fuel min max h hm e zeroth = ground (arith, reads (middle min max) (omega arith))

  search-IsPlace :
      (fuel min max : ℕ)
      → max < self.len
      → min ≤ max + 1
      → max + 1 < min + fuel
      → ((i : ℕ) → i < min → g i < element)
      → ((i : ℕ) → max < i → i < self.len → element < g i)
      → (r : ℕ) × (search order self element fuel min max ≡ ok r) × IsPlace g self.len element r
  search-IsPlace zero min max hm hi hf lo up = absurd (omega arith)
  search-IsPlace (suc fuel) min max hm hi hf lo up = elim (Bool-cases (leb min max)) [
    | inr done ↦
        let e : (min + max) / 2 + 1 ≡ min = ground arith in
        (
          min,
          search-end fuel min max (ground arith) ∙ ap ok e,
          inr (omega arith, lo, λ i a b. up i (ground arith) b),
        )
    | inl going ↦
        let mid : ℕ = middle min max in
        let h : min ≤ max = ground arith in
        let inside : mid < self.len = omega arith in
        elim (Ordering-cases (g mid) element) [
          | inl less ↦
              let (r, e, place) =
                search-IsPlace fuel (mid + 1) max hm (omega arith) (omega arith)
                  (below mid inside less) up in
              (r, search-right fuel min max h hm less ∙ e, place)
          | inr (inl same) ↦ (mid, search-here fuel min max h hm same, inl (inside, same))
          | inr (inr more) ↦ elim (Bool-cases (mid == 0)) [
            | inl zeroth ↦ (
              0,
              search-first fuel min max h hm more (ground arith),
              inr (
                omega arith,
                λ i a. absurd (omega arith),
                λ i a b. above mid inside more i (ground arith) b,
              ),
            )
            | inr later ↦
                let pos : 0 < mid = ground arith in
                let (r, e, place) =
                  search-IsPlace fuel min (mid - 1) (omega arith) (omega arith) (omega arith) lo
                    (λ i a b. above mid inside more i (omega arith) b) in
                (r, search-left fuel min max h hm more pos ∙ e, place)
          ]
        ]
  ]

  pub nearest_index_of-IsPlace :
      (r : ℕ) × (nearest_index_of order self element ≡ ok r) × IsPlace g self.len element r
  unfolding nearest_index_of
  nearest_index_of-IsPlace = elim (Bool-cases (self.len == 0)) [
    | inl none_there ↦
        let e : self.len ≡ 0 = ground arith in
        (
          0,
          rw none_there,
          inr (omega arith, λ i a. absurd (omega arith), λ i a b. absurd (omega arith)),
        )
    | inr some_there ↦
        let pos : 0 < self.len = ground arith in
        let (r, e, place) =
          search-IsPlace (suc self.len) 0 (self.len - 1) (omega arith) (omega arith) (omega arith)
            (λ i a. absurd (omega arith)) (λ i a b. absurd (omega arith)) in
        (r, rw some_there e, place)
  ]

  pub index_of-IsIndex :
      (found : Option ℕ) × (index_of order self element ≡ ok found)
      × IsIndex g self.len element found
  unfolding index_of
  index_of-IsIndex =
      let (r, e, place) = nearest_index_of-IsPlace in
      elim place [
        | inl (inside, same) ↦ (some r, ground (arith, reads r inside), (inside, same))
        | inr (le, lo, up) ↦ elim (Bool-cases (leb self.len r)) [
          | inl past ↦
              (none, ground arith, λ i hi. (λ same. absurd (omega (arith, lo i (ground arith)))))
          | inr within ↦
              let inside : r < self.len = ground arith in
              (
                none,
                ground (arith, reads r inside, up r (omega arith) inside),
                λ i hi. apart r lo up i hi,
              )
        ]
      ]
    where
      apart :
          (r : ℕ)
          → ((i : ℕ) → i < r → g i < element)
          → ((i : ℕ) → r ≤ i → i < self.len → element < g i)
          → (i : ℕ) → i < self.len
          → g i ≢ element
      apart r lo up i hi same = elim (Bool-cases (ltb i r)) [
        | inl before ↦ absurd (omega (arith, lo i (ground arith)))
        | inr after ↦ absurd (omega (arith, up i (ground arith) hi))
      ]
