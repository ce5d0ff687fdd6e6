-- ===== src/Structure/WaveletTree/Layers.antt =====
-- src/structure/wavelettree.rs: the layers of fragments, and the bits that they come to.
use terminus_store.Prelude.{
  ℕ, zero, suc, ◌+◌, ◌-◌, ◌*◌, ◌/◌, ◌^◌, ◌≤◌, ◌<◌, ◌≡◌, refl, ap, ◌∙◌, sym, arith, Bool, leb, List,
  [], ◌∷◌, ◌++◌, length, length-append, append-nil, append_assoc, Bool-cases, inl, inr,
}
use mathlib.Core.Path.{ap₂}
use native.Mathlib.Nat.{div-div-eq-div-mul, div-mul-le_self, mul-div_cancel, one-le-pow}
use terminus_store.Prelude.Bits.{half-two_pow-suc, two_pow-add}
use terminus_store.Prelude.Outcome.{ok, >>=-eq-ok, ok_injective}
use terminus_store.Structure.WaveletTree.{
  FragmentBuilder, push_at, push_loop, create_loop, layer_loop, flat_bits,
}
use terminus_store.Structure.WaveletTree.Fragments.{
  node_bits, layer, length-layer, layer_loop-layer, push_at-layer, mul_mono,
}

push_at-behind :
    (front back back' : List FragmentBuilder) (i num : ℕ)
    → push_at back i num ≡ ok back'
    → push_at (front ++ back) (length front + i) num ≡ ok (front ++ back')
unfolding push_at
push_at-behind [] back back' i num e =
    ap (λ n. push_at back n num) {x = 0 + i} {y = i} (omega arith) ∙ e
push_at-behind (f ∷ front) back back' i num e =
    ap (λ n. push_at (f ∷ (front ++ back)) n num) {x = suc (length front) + i}
      {y = suc (length front + i)} (omega arith)
    ∙ rw (push_at-behind front back back' i num e)

push_at-front :
    (front front' back : List FragmentBuilder) (i num : ℕ)
    → push_at front i num ≡ ok front'
    → push_at (front ++ back) i num ≡ ok (front' ++ back)
unfolding push_at
push_at-front [] front' back i num e = cc
push_at-front (f ∷ front) front' back zero num e =
    ap (λ (fs : List FragmentBuilder). ok (fs ++ back)) (ok_injective e)
push_at-front (f ∷ front) front' back (suc i) num e =
    let (rest, pushed, same) = >>=-eq-ok (push_at front i num) (λ rest. ok (f ∷ rest)) e in
    rw (push_at-front front rest back i num pushed)
      (ap (λ (fs : List FragmentBuilder). ok (fs ++ back)) (ok_injective same))

module _ (width : ℕ) where
  -- The fragments of the first layers after a source.
  unfoldable pub layers : List ℕ → ℕ → List FragmentBuilder
  layers source zero = []
  layers source (suc k) = layers source k ++ layer (2 ^ (width - k)) source (2 ^ k) 0

  pub length-layers : (source : List ℕ) (k : ℕ) → length (layers source k) + 1 ≡ 2 ^ k
  unfolding layers
  length-layers source zero = refl
  length-layers source (suc k) = omega (
    arith,
    length-append (layers source k) (layer (2 ^ (width - k)) source (2 ^ k) 0),
    length-layer (2 ^ (width - k)) (2 ^ k) source 0,
    length-layers source k,
    half-two_pow-suc k,
  )

  module _ (k : ℕ) (h : k < width) where
    size_split : 2 ^ (width - k) ≡ 2 * 2 ^ (width - suc k)
    size_split =
        ap (λ n. 2 ^ n) {x = width - k} {y = suc (width - suc k)} (omega arith)
        ∙ half-two_pow-suc (width - suc k)

    quotient : (num : ℕ) → num / 2 ^ (width - suc k) / 2 ≡ num / 2 ^ (width - k)
    quotient num =
        div-div-eq-div-mul num (2 ^ (width - suc k)) 2
        ∙ ap (λ n. num / n) (omega (arith, size_split))

    quotient_low : (num : ℕ) → num < 2 ^ width → num / 2 ^ (width - k) < 2 ^ k
    quotient_low num low =
        let whole : 2 ^ width ≡ 2 ^ (width - k) * 2 ^ k =
          ap (λ n. 2 ^ n) {x = width} {y = width - k + k} (omega arith)
          ∙ two_pow-add (width - k) k in
        let below = div-mul-le_self num (2 ^ (width - k)) in
        elim (Bool-cases (leb (2 ^ k) (num / 2 ^ (width - k)))) [
          | inl high ↦
              let more =
                mul_mono (2 ^ (width - k)) (2 ^ k) (num / 2 ^ (width - k)) (ground arith) in
              absurd (grind arith)
          | inr ok_low ↦ ground arith
        ]

    half_positive : 0 < 2 ^ (width - suc k)
    half_positive = omega (arith, one-le-pow (width - suc k) 2 (omega arith))

    -- The iteration of `push_to_fragments` on a layer pushes to the fragment of the number.
    push_at-layers :
        (source : List ℕ) (num : ℕ) (behind : List FragmentBuilder)
        → num < 2 ^ width
        → push_at (layers source (suc k) ++ behind) (num / 2 ^ (width - suc k) / 2 + 2 ^ k - 1) num
          ≡ ok (
              layers source k
              ++ (layer (2 ^ (width - k)) (source ++ (num ∷ [])) (2 ^ k) 0 ++ behind))
    unfolding layers
    push_at-layers source num behind low =
        let q = quotient num in
        let size = length-layers source k in
        let pushed =
          push_at-layer (2 ^ (width - k)) (2 ^ (width - suc k)) size_split half_positive (2 ^ k)
            source num 0 (num / 2 ^ (width - k)) (omega arith) (quotient_low num low) in
        let here : num / 2 ^ (width - suc k) / 2 + 2 ^ k - 1
            ≡ length (layers source k) + num / 2 ^ (width - k) =
          omega (arith, q, size) in
        ap₂ (λ fs i. push_at fs i num)
          (append_assoc (layers source k) (layer (2 ^ (width - k)) source (2 ^ k) 0) behind) here
        ∙ push_at-behind (layers source k) (layer (2 ^ (width - k)) source (2 ^ k) 0 ++ behind) _
            (num / 2 ^ (width - k)) num
            (push_at-front (layer (2 ^ (width - k)) source (2 ^ k) 0) _ behind
              (num / 2 ^ (width - k)) num pushed)

  pub push_loop_lem :
      (k : ℕ) (source : List ℕ) (num : ℕ) (behind : List FragmentBuilder)
      → k ≤ width
      → num < 2 ^ width
      → push_loop num k (num / 2 ^ (width - k)) (layers source k ++ behind)
        ≡ ok (layers (source ++ (num ∷ [])) k ++ behind)
  unfolding push_loop layers
  push_loop_lem zero source num behind h low = refl
  push_loop_lem (suc k) source num behind h low =
      let later = layer (2 ^ (width - k)) (source ++ (num ∷ [])) (2 ^ k) 0 in
      rw (push_at-layers k h source num behind low) (
        ap (λ n. push_loop num k n (layers source k ++ (later ++ behind))) (quotient k h num)
        ∙ push_loop_lem k source num (later ++ behind) (omega arith) low
        ∙ ap ok (sym (append_assoc (layers (source ++ (num ∷ [])) k) later behind)))

  pub create_loop_lem :
      (n i : ℕ) → i + n ≡ width → layers [] i ++ create_loop (2 ^ width) n i ≡ layers [] (i + n)
  unfolding create_loop layers
  create_loop_lem zero i h =
      append-nil (layers [] i) ∙ ap (layers []) {x = i} {y = i + 0} (omega arith)
  create_loop_lem (suc n) i h =
      let size : 2 ^ width / 2 ^ i ≡ 2 ^ (width - i) =
        ap (λ t. t / 2 ^ i)
          (ap (λ n. 2 ^ n) {x = width} {y = width - i + i} (omega arith)
            ∙ two_pow-add (width - i) i)
        ∙ mul-div_cancel (2 ^ (width - i)) (omega (arith, one-le-pow i 2 (omega arith))) in
      let rest = create_loop (2 ^ width) n (i + 1) in
      ap (λ s. layers [] i ++ (layer_loop s (2 ^ i) 0 ++ create_loop (2 ^ width) n (i + 1))) size
      ∙ ap (λ fs. layers [] i ++ (fs ++ rest)) (layer_loop-layer (2 ^ (width - i)) (2 ^ i) 0)
      ∙ sym (append_assoc (layers [] i) (layer (2 ^ (width - i)) [] (2 ^ i) 0) rest)
      ∙ ap (λ t. layers [] (suc i) ++ create_loop (2 ^ width) n t) {x = i + 1} {y = suc i}
          (omega arith)
      ∙ create_loop_lem n (suc i) (omega arith)
      ∙ ap (layers []) {x = suc i + n} {y = i + suc n} (omega arith)

-- The bits of the fragments of a layer, from `j` on, and those of the first layers.
unfoldable pub layer_bits : ℕ → List ℕ → ℕ → ℕ → List Bool
layer_bits size source zero j = []
layer_bits size source (suc n) j = node_bits size j source ++ layer_bits size source n (j + 1)

unfoldable pub layers_bits : ℕ → List ℕ → ℕ → List Bool
layers_bits width source zero = []
layers_bits width source (suc k) =
    layers_bits width source k ++ layer_bits (2 ^ (width - k)) source (2 ^ k) 0

flat_bits-append :
    (xs ys : List FragmentBuilder) → flat_bits (xs ++ ys) ≡ flat_bits xs ++ flat_bits ys
flat_bits-append [] ys = refl
flat_bits-append (x ∷ xs) ys =
    ap (λ t. x.bits ++ t) (flat_bits-append xs ys)
    ∙ sym (append_assoc x.bits (flat_bits xs) (flat_bits ys))

flat_bits-layer :
    (size n j : ℕ) (source : List ℕ)
    → flat_bits (layer size source n j) ≡ layer_bits size source n j
unfolding layer layer_bits
flat_bits-layer size zero j source = refl
flat_bits-layer size (suc n) j source =
    ap (λ t. node_bits size j source ++ t) (flat_bits-layer size n (j + 1) source)

pub flat_bits-layers :
    (width k : ℕ) (source : List ℕ) → flat_bits (layers width source k) ≡ layers_bits width source k
unfolding layers layers_bits
flat_bits-layers width zero source = refl
flat_bits-layers width (suc k) source =
    flat_bits-append (layers width source k) (layer (2 ^ (width - k)) source (2 ^ k) 0)
    ∙ ap₂ (λ a b. a ++ b) (flat_bits-layers width k source)
        (flat_bits-layer (2 ^ (width - k)) (2 ^ k) 0 source)
