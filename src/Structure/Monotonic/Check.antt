-- ===== src/Structure/Monotonic/Check.antt =====
-- src/structure/logarray.rs: `from_logarray` accepts the arrays whose entries increase.
use terminus_store.Prelude.{
  ℕ, zero, suc, ◌+◌, ◌≤◌, ◌<◌, ◌≡◌, refl, ap, arith, Bool-cases, ◌==◌, inl, inr, none, some,
}
use terminus_store.Prelude.Outcome.{ok, panic}
use terminus_store.Structure.Word.{ByteOrder}
use terminus_store.Structure.LogArray
use terminus_store.Structure.LogArray.{LogArray}
use terminus_store.Structure.Monotonic.{LogArrayIterator, next, check_loop, from_logarray}
use terminus_store.Structure.Monotonic.Search.{IsSorted}

module _ (order : ByteOrder) (self : LogArray) (g : ℕ → ℕ)
    (reads : (i : ℕ) → i < self.len → LogArray.entry order self i ≡ ok (g i)) where
  abbrev from : ℕ → LogArrayIterator
  from pos = record { logarray = self; pos = pos; end = self.len }

  next-within :
      (pos : ℕ) → pos < self.len → next order (from pos) ≡ ok (some (g pos), from (pos + 1))
  unfolding next
  next-within pos h = ground (arith, reads pos h)

  next-end : (pos : ℕ) → pos ≡ self.len → next order (from pos) ≡ ok (none, from pos)
  unfolding next
  next-end pos h = ground arith

  module _ (sorted : IsSorted g self.len) where
    check_loop-ok :
        (fuel pos pred : ℕ)
        → pos ≤ self.len
        → self.len < pos + fuel
        → ((i : ℕ) → pos ≤ i → i < self.len → pred ≤ g i)
        → check_loop order fuel pred (from pos) ≡ ok tt
    unfolding check_loop
    check_loop-ok zero pos pred h hf low = absurd (omega arith)
    check_loop-ok (suc fuel) pos pred h hf low = elim (Bool-cases (pos == self.len)) [
      | inl done ↦ rw (next-end pos (ground arith))
      | inr going ↦
          let inside : pos < self.len = ground arith in
          let rest =
            check_loop-ok fuel (pos + 1) (g pos) (omega arith) (omega arith)
              (λ i hi hn. sorted pos i (omega arith) hn) in
          rw (next-within pos inside) (ground (arith, low pos (omega arith) inside, rest))
    ]

    pub from_logarray-ok : from_logarray order self ≡ ok self
    unfolding from_logarray
    from_logarray-ok = elim (Bool-cases (self.len == 0)) [
      | inl empty ↦ rw (next-end 0 (ground arith))
      | inr full ↦
          let inside : 0 < self.len = ground arith in
          rw (
            next-within 0 inside,
            check_loop-ok self.len (0 + 1) (g 0) (omega arith) (omega arith)
                (λ i hi hn. sorted 0 i (omega arith) hn),
          )
    ]

  -- A pair that decreases stops the check.
  check_loop-panic :
      (fuel pos i : ℕ)
      → pos ≤ i
      → i + 1 < self.len
      → self.len < pos + 1 + fuel
      → g (i + 1) < g i
      → check_loop order fuel (g pos) (from (pos + 1)) ≡ panic
  unfolding check_loop
  check_loop-panic zero pos i hi hn hf drop = refl
  check_loop-panic (suc fuel) pos i hi hn hf drop =
      rw (next-within (pos + 1) (omega arith)) (elim (Bool-cases (pos == i)) [
        | inl here ↦ ground (
          arith,
          ap g {x = pos} {y = i} (ground arith),
          ap g {x = pos + 1} {y = i + 1} (ground arith),
        )
        | inr later ↦
            let rest = check_loop-panic fuel (pos + 1) i (ground arith) hn (omega arith) drop in
            ground (arith, rest)
      ])

  pub from_logarray-panic :
      (i : ℕ) → i + 1 < self.len → g (i + 1) < g i → from_logarray order self ≡ panic
  unfolding from_logarray
  from_logarray-panic i hn drop = rw (
    next-within 0 (omega arith),
    check_loop-panic self.len 0 i (omega arith) hn (omega arith) drop,
  )
