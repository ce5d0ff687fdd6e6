-- ===== src/Structure/Sorted.antt =====
-- src/structure/util.rs: `SortedIterator`, which merges iterators by a function that picks one.
pub mod Step
pub mod Merge
pub mod Pick
mod Examples
use terminus_store.Prelude.{
  Bool, if◌then◌else◌, ℕ, zero, suc, ◌+◌, Option, none, some, List, [], ◌∷◌, map,
}
use terminus_store.Prelude.Outcome.{Outcome, ok, err, panic, ◌>>=◌}

module _ {ℓ} {A : Type ℓ} where
  -- An iterator is the list of what it has left; `peek` shows the first of them.
  abbrev pub peek : List A → Option A
  peek [] = none
  peek (item ∷ items) = some item

  abbrev pub rest : List A → List A
  rest [] = []
  rest (item ∷ items) = items

  -- `self.iters[ix].next()`, which panics where there is no such iterator.
  unfoldable pub next_at : List (List A) → ℕ → Outcome (Option A × List (List A))
  next_at [] ix = panic
  next_at (items ∷ iters) zero = ok (peek items, rest items ∷ iters)
  next_at (items ∷ iters) (suc ix) = next_at iters ix >>= λ step. ok (step.0, items ∷ step.1)

  unfoldable pub next :
      (List (Option A) → Option ℕ) → List (List A) → Outcome (Option A × List (List A))
  next pick_fn iters = elim (pick_fn (map peek iters)) [
    | none ↦ ok (none, iters)
    | some ix ↦ next_at iters ix
  ]

  -- `sorted_iterator`, until `next` returns none, at most `fuel` times.
  unfoldable pub sorted_iterator :
      (List (Option A) → Option ℕ) → ℕ → List (List A) → Outcome (List A)
  sorted_iterator pick_fn zero iters = ok []
  sorted_iterator pick_fn (suc fuel) iters = next pick_fn iters >>= λ step. elim step.0 [
    | none ↦ ok []
    | some item ↦ sorted_iterator pick_fn fuel step.1 >>= λ items. ok (item ∷ items)
  ]

  -- The first of what is shown in front and the least item behind it, with its index.
  abbrev pub better : (A → A → Bool) → Option A → Option (ℕ × A) → Option (ℕ × A)
  better leq none none = none
  better leq none (some (ix, b)) = some (suc ix, b)
  better leq (some a) none = some (0, a)
  better leq (some a) (some (ix, b)) = if leq a b then some (0, a) else some (suc ix, b)

  -- `min_by` on the items that are some, which takes the first of equal ones.
  unfoldable pub least : (A → A → Bool) → List (Option A) → Option (ℕ × A)
  least leq [] = none
  least leq (v ∷ vals) = better leq v (least leq vals)

  abbrev pub index_of_pair : Option (ℕ × A) → Option ℕ
  index_of_pair none = none
  index_of_pair (some (ix, a)) = some ix

  -- `pick_fn` of `merge_dictionaries`, where `leq` compares two entries.
  unfoldable pub pick_least : (A → A → Bool) → List (Option A) → Option ℕ
  unfolding least
  pick_least leq vals = index_of_pair (least leq vals)
