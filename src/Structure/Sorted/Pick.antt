-- ===== src/Structure/Sorted/Pick.antt =====
-- src/structure/util.rs and src/structure/pfc.rs: merging by the least item shown.
use terminus_store.Prelude.{
  ℕ, zero, suc, ◌≡◌, refl, ap, ◌∙◌, sym, arith, Option, none, some, List, [], ◌∷◌, length,
  get_elem?, Bool, true, false, ◌⊎◌, inl, inr, Bool-cases,
}
use mathlib.Core.List.{Perm}
use terminus_store.Prelude.Outcome.{ok}
use terminus_store.Structure.Sorted.{better, index_of_pair, least, pick_least, sorted_iterator}
use terminus_store.Structure.Sorted.Step.{IsSorted, AllSorted, items_of}
use terminus_store.Structure.Sorted.Merge.{AllNone, IsLeast, merge_lem}

module _ {A : Type 0} (leq : A → A → Bool) (total : (a b : A) → (leq a b ≡ true) ⊎ (leq b a ≡ true))
    (transitive : (a b c : A) → leq a b ≡ true → leq b c ≡ true → leq a c ≡ true) where
  abbrev pub Leq : A → A → Type 0
  Leq a b = leq a b ≡ true

  -- The pair that `least` finds.
  abbrev Finds : List (Option A) → Option (ℕ × A) → Type 0
  Finds vals none = AllNone Leq vals
  Finds vals (some (ix, a)) =
      (get_elem? vals ix ≡ some (some a))
      × ((j : ℕ) (b : A) → get_elem? vals j ≡ some (some b) → leq a b ≡ true)

  none-shows :
      (vals : List (Option A)) (j : ℕ) (b : A)
      → AllNone Leq vals
      → get_elem? vals j ≡ some (some b)
      → ⊥
  none-shows [] j b h e = cc
  none-shows (v ∷ vals) zero b h e = let f = h.0 in cc
  none-shows (v ∷ vals) (suc j) b h e = none-shows vals j b h.1 e

  reflexive : (a : A) → leq a a ≡ true
  reflexive a = elim (total a a) [ inl h ↦ h | inr h ↦ h ]

  better_lem :
      (v : Option A) (vals : List (Option A)) (found : Option (ℕ × A))
      → Finds vals found
      → Finds (v ∷ vals) (better leq v found)
  better_lem none vals none h = (refl, h)
  better_lem none vals (some (ix, b)) (shown, low) = (shown, λ j c e. behind j c e)
    where
      behind : (j : ℕ) (c : A) → get_elem? (none ∷ vals) j ≡ some (some c) → leq b c ≡ true
      behind zero c e = cc
      behind (suc j) c e = low j c e
  better_lem (some a) vals none h = (refl, λ j c e. alone j c e)
    where
      alone : (j : ℕ) (c : A) → get_elem? (some a ∷ vals) j ≡ some (some c) → leq a c ≡ true
      alone zero c e = let same : a ≡ c = cc in ap (leq a) (sym same) ∙ reflexive a
      alone (suc j) c e = absurd (none-shows vals j c h e)
  better_lem (some a) vals (some (ix, b)) (shown, low) = elim (Bool-cases (leq a b)) [
    | inl first ↦ rw first (refl, λ j c e. front first j c e)
    | inr other ↦ rw other (shown, λ j c e. back other j c e)
  ]
    where
      front :
          leq a b ≡ true
          → (j : ℕ) (c : A) → get_elem? (some a ∷ vals) j ≡ some (some c)
          → leq a c ≡ true
      front first zero c e = let same : a ≡ c = cc in ap (leq a) (sym same) ∙ reflexive a
      front first (suc j) c e = transitive a b c first (low j c e)

      back :
          leq a b ≡ false
          → (j : ℕ) (c : A) → get_elem? (some a ∷ vals) j ≡ some (some c)
          → leq b c ≡ true
      back other zero c e =
          let same : a ≡ c = cc in
          ap (leq b) (sym same) ∙ elim (total a b) [ inl h ↦ absurd cc | inr h ↦ h ]
      back other (suc j) c e = low j c e

  least_lem : (vals : List (Option A)) → Finds vals (least leq vals)
  unfolding least
  least_lem [] = tt
  least_lem (v ∷ vals) = better_lem v vals (least leq vals) (least_lem vals)

  pick_least-IsLeast : (vals : List (Option A)) → IsLeast Leq vals (pick_least leq vals)
  unfolding pick_least
  pick_least-IsLeast vals = picked (least leq vals) (least_lem vals)
    where
      picked : (found : Option (ℕ × A)) → Finds vals found → IsLeast Leq vals (index_of_pair found)
      picked none h = h
      picked (some (ix, a)) (shown, low) = (a, shown, low)

  -- For a comparison that is total and transitive, `sorted_iterator` over iterators that it orders,
  -- with the function that picks the first least item shown, yields an ordered list that is a
  -- permutation of the items of all of them; as many calls as there are items and one more suffice.
  pub sorted_iterator-merges :
      (iters : List (List A))
      → AllSorted Leq iters
      → (items : List A) × (sorted_iterator (pick_least leq) (suc (length (items_of iters))) iters
          ≡ ok items)
        × IsSorted Leq items
        × Perm (items_of iters) items
  sorted_iterator-merges iters sorted =
      let (items, run, m) =
        merge_lem Leq transitive (pick_least leq) pick_least-IsLeast (suc (length (items_of iters)))
          iters sorted (omega arith) in
      (items, run, m.sorted, m.same)
