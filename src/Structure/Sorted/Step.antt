-- ===== src/Structure/Sorted/Step.antt =====
-- src/structure/util.rs: one call of `next` on a `SortedIterator`.
use terminus_store.Prelude.{
  ℕ, zero, suc, ◌≡◌, refl, ap, arith, some, List, [], ◌∷◌, ◌++◌, map, length, length-append,
  get_elem?,
}
use mathlib.Core.Path.{subst}
use mathlib.Core.List.{Perm, perm_middle}
use mathlib.Core.List.Perm as Perm
use terminus_store.Prelude.Outcome.{ok}
use terminus_store.Structure.Sorted.{peek, next_at}

module _ {ℓ} {A : Type ℓ} where
  -- The items that are left.
  abbrev pub items_of : List (List A) → List A
  items_of [] = []
  items_of (items ∷ iters) = items ++ items_of iters

module _ {ℓ} {A : Type ℓ} (le : A → A → Type ℓ) where
  abbrev pub AtMost : A → List A → Type ℓ
  AtMost a [] = Unit {ℓ}
  AtMost a (b ∷ items) = le a b × AtMost a items

  abbrev pub IsSorted : List A → Type ℓ
  IsSorted [] = Unit {ℓ}
  IsSorted (a ∷ items) = AtMost a items × IsSorted items

  abbrev pub AllAtMost : A → List (List A) → Type ℓ
  AllAtMost a [] = Unit {ℓ}
  AllAtMost a (items ∷ iters) = AtMost a items × AllAtMost a iters

  abbrev pub AllSorted : List (List A) → Type ℓ
  AllSorted [] = Unit {ℓ}
  AllSorted (items ∷ iters) = IsSorted items × AllSorted iters

  -- What an iterator that has `a` before it loses by a call.
  pub record IsStep (iters : List (List A)) (a : A) (iters' : List (List A)) : Type ℓ where
    pub same : Perm (items_of iters) (a ∷ items_of iters')
    pub smaller : length (items_of iters) ≡ suc (length (items_of iters'))
    pub bounded : (c : A) → AllAtMost c iters → AllAtMost c iters'
    pub sorted : AllSorted iters → AllSorted iters'

  pub next_at_lem :
      (iters : List (List A)) (ix : ℕ) (a : A)
      → get_elem? (map peek iters) ix ≡ some (some a)
      → (iters' : List (List A)) × (next_at iters ix ≡ ok (some a, iters')) × IsStep iters a iters'
  unfolding next_at
  next_at_lem [] ix a e = cc
  next_at_lem ([] ∷ iters) zero a e = cc
  next_at_lem ((b ∷ items) ∷ iters) zero a e =
      let eq : b ≡ a = cc in
      (
        items ∷ iters,
        ap (λ t. ok (some t, items ∷ iters)) eq,
        record {
          same =
              subst (λ t. Perm (b ∷ (items ++ items_of iters)) (t ∷ (items ++ items_of iters))) eq
                (Perm.refl _);
          smaller = refl;
          bounded = λ c h. (h.0.1, h.1);
          sorted = λ h. (h.0.1, h.1);
        },
      )
  next_at_lem (items ∷ iters) (suc ix) a e =
      let (iters', run, s) = next_at_lem iters ix a e in
      (
        items ∷ iters',
        rw run,
        record {
          same = Perm.trans (Perm.append_left items s.same) (perm_middle items (items_of iters'));
          smaller = omega (
            arith,
            length-append items (items_of iters),
            length-append items (items_of iters'),
            s.smaller,
          );
          bounded = λ c h. (h.0, s.bounded c h.1);
          sorted = λ h. (h.0, s.sorted h.1);
        },
      )
