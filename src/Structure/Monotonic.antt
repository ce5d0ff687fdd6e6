-- ===== src/Structure/Monotonic.antt =====
-- src/structure/logarray.rs: `MonotonicLogArray`, binary search in an array whose entries increase.
pub mod Search
pub mod Check
pub mod Correct
mod Examples
use terminus_store.Prelude.{
  ℕ, zero, suc, ◌+◌, ◌-◌, ◌/◌, ◌<◌, ◌≡◌, arith, Bool, true, false, ltb, leb, ◌==◌, not, ◌||◌,
  if◌then◌else◌, Option, none, some,
}
use Prim.Native.Nat.{compare, Ordering}
use terminus_store.Prelude.Outcome.{Outcome, ok, panic, ◌>>=◌}
use terminus_store.Structure.Word.{ByteOrder}
use terminus_store.Structure.LogArray
use terminus_store.Structure.LogArray.{LogArray}

-- `while min <= max`, with a round of fuel for each pass; out of fuel it panics, which
-- `nearest_index_of` does not reach.
unfoldable pub search : ByteOrder → LogArray → ℕ → ℕ → ℕ → ℕ → Outcome ℕ
search order self element zero min max = panic
search order self element (suc fuel) min max = elim (leb min max) [
  | false ↦ ok ((min + max) / 2 + 1)
  | true ↦
      let mid = (min + max) / 2 in
      LogArray.entry order self mid >>= λ value. elim (compare element value) [
        | Ordering.eq ↦ ok mid
        | Ordering.gt ↦ search order self element fuel (mid + 1) max
        | Ordering.lt ↦ elim (mid == 0) [
          | true ↦ ok 0
          | false ↦ search order self element fuel min (mid - 1)
        ]
      ]
]

unfoldable pub nearest_index_of : ByteOrder → LogArray → ℕ → Outcome ℕ
nearest_index_of order self element =
    if self.len == 0 then ok 0 else search order self element (suc self.len) 0 (self.len - 1)

unfoldable pub index_of : ByteOrder → LogArray → ℕ → Outcome (Option ℕ)
index_of order self element = nearest_index_of order self element >>= λ index.
    let found =
      (LogArray.entry order self index >>= λ value.
      ok (if value == element then some index else none)) in
    if leb self.len index then ok none else found

pub record LogArrayIterator : Type 0 where
  pub logarray : LogArray
  pub pos : ℕ
  pub end : ℕ

unfoldable pub next : ByteOrder → LogArrayIterator → Outcome (Option ℕ × LogArrayIterator)
next order self =
    let result =
      (LogArray.entry order self.logarray self.pos >>= λ value.
      ok (some value, record { logarray = self.logarray; pos = self.pos + 1; end = self.end })) in
    if self.pos == self.end then ok (none, self) else result

abbrev pub iter : LogArray → LogArrayIterator
iter self = record { logarray = self; pos = 0; end = self.len }

-- `for succ in iter`, with a round of fuel for each call of `next`.
unfoldable pub check_loop : ByteOrder → ℕ → ℕ → LogArrayIterator → Outcome (Unit {0})
unfolding next
check_loop order zero pred it = panic
check_loop order (suc fuel) pred it = next order it >>= λ step. elim step.0 [
  | none ↦ ok tt
  | some value ↦ elim (leb pred value) [ false ↦ panic | true ↦ check_loop order fuel value step.1 ]
]

-- `from_logarray` with debug assertions: the array itself, if its entries increase.
unfoldable pub from_logarray : ByteOrder → LogArray → Outcome LogArray
unfolding check_loop
from_logarray order logarray = next order (iter logarray) >>= λ step. elim step.0 [
  | none ↦ ok logarray
  | some pred ↦ check_loop order logarray.len pred step.1 >>= λ checked. ok logarray
]
