-- ===== src/Structure/Sorted/Examples.antt =====
-- src/structure/util.rs: a run of a merge, and the theorem at a concrete input.
use terminus_store.Prelude.{
  ℕ, ◌≡◌, refl, arith, true, leb, Bool-cases, inl, inr, ◌⊎◌, List, [], ◌∷◌,
}
use mathlib.Core.List.{Perm}
use terminus_store.Prelude.Outcome.{ok}
use terminus_store.Structure.Sorted.{least, pick_least, next, next_at, sorted_iterator}
use terminus_store.Structure.Sorted.Step.{IsSorted, items_of}
use terminus_store.Structure.Sorted.Pick.{Leq, sorted_iterator-merges}

abbrev three_lists : List (List ℕ)
three_lists = (1 ∷ 3 ∷ 5 ∷ []) ∷ (7 ∷ []) ∷ (0 ∷ 1 ∷ []) ∷ []

merged : sorted_iterator (pick_least leb) 7 three_lists ≡ ok (0 ∷ 1 ∷ 1 ∷ 3 ∷ 5 ∷ 7 ∷ [])
unfolding sorted_iterator next next_at pick_least least
merged = refl

leb_total : (a b : ℕ) → (leb a b ≡ true) ⊎ (leb b a ≡ true)
leb_total a b = elim (Bool-cases (leb a b)) [ inl h ↦ inl h | inr h ↦ inr (ground arith) ]

leb_trans : (a b c : ℕ) → leb a b ≡ true → leb b c ≡ true → leb a c ≡ true
leb_trans a b c h k = ground arith

sorted_iterator-merges_example :
    (items : List ℕ) × (sorted_iterator (pick_least leb) 7 three_lists ≡ ok items)
    × IsSorted (Leq leb leb_total leb_trans) items
    × Perm (items_of three_lists) items
sorted_iterator-merges_example =
    sorted_iterator-merges leb leb_total leb_trans three_lists
      (((refl, (refl, tt)), ((refl, tt), (tt, tt))), ((tt, tt), (((refl, tt), (tt, tt)), tt)))
