-- ===== src/Structure/WaveletTree/Fragments.antt =====
-- src/structure/wavelettree.rs: which numbers a fragment takes, and the bits it keeps of them.
use terminus_store.Prelude.{
  ℕ, zero, suc, ◌+◌, ◌*◌, ◌/◌, ◌%◌, ◌≤◌, ◌<◌, ◌≡◌, ◌≢◌, refl, ap, ◌∙◌, sym, arith, Bool, true,
  false, leb, ltb, ◌==◌, if◌then◌else◌, List, [], ◌∷◌, ◌++◌, length,
}
use mathlib.Core.Path.{ap₂}
use native.Mathlib.Nat.{div-add-mod, mod-lt}
use terminus_store.Prelude.Outcome.{ok}
use terminus_store.Structure.WaveletTree.{FragmentBuilder, new, push, push_at, layer_loop}

-- The numbers of a source that have `j` as quotient by the size of a fragment, each as whether it is
-- in the upper half of them.
unfoldable pub node_bits : ℕ → ℕ → List ℕ → List Bool
node_bits size j [] = []
node_bits size j (num ∷ source) =
    let rest = node_bits size j source in
    if num / size == j then leb (size / 2) (num % size) ∷ rest else rest

node_bits-append :
    (size j num : ℕ) (source : List ℕ)
    → node_bits size j (source ++ (num ∷ [])) ≡ (
        if num / size == j
        then node_bits size j source ++ (leb (size / 2) (num % size) ∷ [])
        else node_bits size j source)
unfolding node_bits
node_bits-append size j num [] = ground arith
node_bits-append size j num (n ∷ source) = ground (arith, node_bits-append size j num source)

pub mul_mono : (w a b : ℕ) → a ≤ b → w * a ≤ w * b
mul_mono w a b h = grind arith

module _ (size : ℕ) where
  -- The fragment of `j` after a source.
  abbrev pub fragment : List ℕ → ℕ → FragmentBuilder
  fragment source j = record {
    fragment_start = j * size;
    fragment_half = (j * size + (j + 1) * size) / 2;
    fragment_end = (j + 1) * size;
    bits = node_bits size j source;
  }

  -- The fragments of a layer, from `j` on.
  unfoldable pub layer : List ℕ → ℕ → ℕ → List FragmentBuilder
  layer source zero j = []
  layer source (suc n) j = fragment source j ∷ layer source n (j + 1)

  pub length-layer : (n : ℕ) (source : List ℕ) (j : ℕ) → length (layer source n j) ≡ n
  unfolding layer
  length-layer zero source j = refl
  length-layer (suc n) source j = ap suc (length-layer n source (j + 1))

  pub layer_loop-layer : (n j : ℕ) → layer_loop size n j ≡ layer [] n j
  unfolding layer layer_loop node_bits
  layer_loop-layer zero j = refl
  layer_loop-layer (suc n) j =
      ap (λ fs. new (j * size) ((j + 1) * size) ∷ fs) (layer_loop-layer n (j + 1))

module _ (size half : ℕ) (even : size ≡ 2 * half) (pos : 0 < half) where
  module _ (source : List ℕ) (num j : ℕ) where
    inside :
        num / size ≡ j → (j * size ≤ num) × (num < (j + 1) * size) × (num ≡ j * size + num % size)
    inside e =
        let whole = div-add-mod num size in
        let low : num % size < size = mod-lt num (omega arith) in
        let same = ap (λ t. size * t) e in grind arith

    fragment-other :
        num / size ≢ j → fragment size (source ++ (num ∷ [])) j ≡ fragment size source j
    fragment-other h =
        ap
          (λ bs. record {
            fragment_start = j * size;
            fragment_half = (j * size + (j + 1) * size) / 2;
            fragment_end = (j + 1) * size;
            bits = bs;
          })
          (node_bits-append size j num source ∙ ground arith)

    push_lem :
        num / size ≡ j → push (fragment size source j) num ≡ fragment size (source ++ (num ∷ [])) j
    unfolding push
    push_lem e =
        let (low, high, split) = inside e in
        let next : (j + 1) * size ≡ j * size + size = grind arith in
        let middle : (j * size + (j + 1) * size) / 2 ≡ j * size + half =
          omega (arith, next, even) in
        let halved : size / 2 ≡ half = omega (arith, even) in
        let upper : leb ((j * size + (j + 1) * size) / 2) num ≡ leb (size / 2) (num % size) =
          ground (arith, middle, halved, split) in
        let kept = node_bits-append size j num source in
        let now : (num / size == j) ≡ true = ground arith in
        let below : ltb num (j * size) ≡ false = ground arith in
        let above : leb ((j + 1) * size) num ≡ false = ground arith in
        rw (below, above, upper)
          (ap
            (λ bs. record {
              fragment_start = j * size;
              fragment_half = (j * size + (j + 1) * size) / 2;
              fragment_end = (j + 1) * size;
              bits = bs;
            })
            (sym (rw now at kept)))

  layer-other :
      (n : ℕ) (source : List ℕ) (num j : ℕ)
      → num / size < j
      → layer size (source ++ (num ∷ [])) n j ≡ layer size source n j
  unfolding layer
  layer-other zero source num j h = refl
  layer-other (suc n) source num j h =
      ap₂ (λ f fs. f ∷ fs) (fragment-other source num j (λ x. omega arith))
        (layer-other n source num (j + 1) (omega arith))

  pub push_at-layer :
      (n : ℕ) (source : List ℕ) (num j k : ℕ)
      → num / size ≡ j + k
      → k < n
      → push_at (layer size source n j) k num ≡ ok (layer size (source ++ (num ∷ [])) n j)
  unfolding layer push_at
  push_at-layer zero source num j k e h = absurd (omega arith)
  push_at-layer (suc n) source num j zero e h =
      ap₂ (λ f fs. ok (f ∷ fs)) (push_lem source num j (omega arith))
        (sym (layer-other n source num (j + 1) (omega arith)))
  push_at-layer (suc n) source num j (suc k) e h =
      rw (push_at-layer n source num (j + 1) k (omega arith) (omega arith)) (
        ap (λ f. ok (f ∷ layer size (source ++ (num ∷ [])) n (j + 1)))
          (sym (fragment-other source num j (λ x. omega arith))))
