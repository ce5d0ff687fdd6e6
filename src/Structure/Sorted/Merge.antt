-- ===== src/Structure/Sorted/Merge.antt =====
-- src/structure/util.rs: what a `SortedIterator` over sorted iterators yields.
use terminus_store.Prelude.{
  ℕ, zero, suc, ◌<◌, ◌≡◌, refl, ap, arith, Option, none, some, List, [], ◌∷◌, map, length,
  get_elem?,
}
use mathlib.Core.Path.{subst}
use mathlib.Core.List.{Perm}
use mathlib.Core.List.Perm as Perm
use terminus_store.Prelude.Outcome.{ok}
use terminus_store.Structure.Sorted.{peek, next, next_at, sorted_iterator}
use terminus_store.Structure.Sorted.Step.{
  AtMost, IsSorted, AllAtMost, AllSorted, items_of, next_at_lem,
}

module _ {ℓ} {A : Type ℓ} (pick_fn : List (Option A) → Option ℕ) (iters : List (List A)) where
  next-none : pick_fn (map peek iters) ≡ none → next pick_fn iters ≡ ok (none, iters)
  unfolding next
  next-none e =
      ap (λ (p : Option ℕ). elim p [ none ↦ ok (none, iters) | some ix ↦ next_at iters ix ]) e

  next-some : (ix : ℕ) → pick_fn (map peek iters) ≡ some ix → next pick_fn iters ≡ next_at iters ix
  unfolding next
  next-some ix e =
      ap (λ (p : Option ℕ). elim p [ none ↦ ok (none, iters) | some ix ↦ next_at iters ix ]) e

module _ {ℓ} {A : Type ℓ} (le : A → A → Type ℓ) where
  -- The items that are shown are all none.
  abbrev pub AllNone : List (Option A) → Type ℓ
  AllNone [] = Unit {ℓ}
  AllNone (v ∷ vals) = (v ≡ none) × AllNone vals

  -- A picked index shows an item that is at most any other shown; none is picked where none is shown.
  abbrev pub IsLeast : List (Option A) → Option ℕ → Type ℓ
  IsLeast vals none = AllNone vals
  IsLeast vals (some ix) =
      (a : A) × (get_elem? vals ix ≡ some (some a))
      × ((j : ℕ) (b : A) → get_elem? vals j ≡ some (some b) → le a b)

  items-none : (iters : List (List A)) → AllNone (map peek iters) → items_of iters ≡ []
  items-none [] h = refl
  items-none ([] ∷ iters) h = items-none iters h.1
  items-none ((a ∷ items) ∷ iters) h = cc

  module _ (trans_le : (a b c : A) → le a b → le b c → le a c) where
    AtMost-trans : (a b : A) (items : List A) → le a b → AtMost le b items → AtMost le a items
    AtMost-trans a b [] h k = tt
    AtMost-trans a b (c ∷ items) h (k, ks) = (trans_le a b c h k, AtMost-trans a b items h ks)

    -- The least of the items shown is at most all that are left.
    AllAtMost-least :
        (a : A) (iters : List (List A))
        → ((j : ℕ) (b : A) → get_elem? (map peek iters) j ≡ some (some b) → le a b)
        → AllSorted le iters
        → AllAtMost le a iters
    AllAtMost-least a [] least sorted = tt
    AllAtMost-least a ([] ∷ iters) least sorted =
        (tt, AllAtMost-least a iters (λ j b e. least (suc j) b e) sorted.1)
    AllAtMost-least a ((b ∷ items) ∷ iters) least sorted =
        let first = least 0 b refl in
        (
          (first, AtMost-trans a b items first sorted.0.0),
          AllAtMost-least a iters (λ j c e. least (suc j) c e) sorted.1,
        )

    at_head :
        (c : A) (iters : List (List A)) (ix : ℕ) (a : A)
        → get_elem? (map peek iters) ix ≡ some (some a)
        → AllAtMost le c iters
        → le c a
    at_head c [] ix a e h = cc
    at_head c ([] ∷ iters) zero a e h = cc
    at_head c ((b ∷ items) ∷ iters) zero a e h = let eq : b ≡ a = cc in subst (le c) eq h.0.0
    at_head c (items ∷ iters) (suc ix) a e h = at_head c iters ix a e h.1

    module _ (pick_fn : List (Option A) → Option ℕ)
        (picks : (vals : List (Option A)) → IsLeast vals (pick_fn vals)) where
      -- What a merge yields.
      pub record Merges (iters : List (List A)) (items : List A) : Type ℓ where
        pub same : Perm (items_of iters) items
        pub sorted : IsSorted le items
        pub bounded : (c : A) → AllAtMost le c iters → AtMost le c items

      merge_step :
          (fuel : ℕ) (iters : List (List A)) (picked : Option ℕ)
          → pick_fn (map peek iters) ≡ picked
          → IsLeast (map peek iters) picked
          → AllSorted le iters
          → length (items_of iters) < suc fuel
          → ((iters' : List (List A))
              → AllSorted le iters'
              → length (items_of iters') < fuel
              → (items : List A) × (sorted_iterator pick_fn fuel iters' ≡ ok items)
                × Merges iters' items)
          → (items : List A) × (sorted_iterator pick_fn (suc fuel) iters ≡ ok items)
            × Merges iters items
      unfolding sorted_iterator
      merge_step fuel iters none e empty sorted few further = (
        [],
        rw (next-none pick_fn iters e),
        record {
          same =
              subst (λ t. Perm (items_of iters) t) (items-none iters empty)
                (Perm.refl (items_of iters));
          sorted = tt;
          bounded = λ c h. tt;
        },
      )
      merge_step fuel iters (some ix) e (a, at, least) sorted few further =
          let (iters', run, s) = next_at_lem le iters ix a at in
          let (items, rest, m) = further iters' (s.sorted sorted) (omega (arith, s.smaller)) in
          (
            a ∷ items,
            rw (next-some pick_fn iters ix e, run, rest),
            record {
              same = Perm.trans s.same (Perm.cons a m.same);
              sorted = (m.bounded a (s.bounded a (AllAtMost-least a iters least sorted)), m.sorted);
              bounded = λ c h. (at_head c iters ix a at h, m.bounded c (s.bounded c h));
            },
          )

      pub merge_lem :
          (fuel : ℕ) (iters : List (List A))
          → AllSorted le iters
          → length (items_of iters) < fuel
          → (items : List A) × (sorted_iterator pick_fn fuel iters ≡ ok items) × Merges iters items
      merge_lem zero iters sorted few = absurd (omega arith)
      merge_lem (suc fuel) iters sorted few =
          merge_step fuel iters (pick_fn (map peek iters)) refl (picks (map peek iters)) sorted few
            (merge_lem fuel)
