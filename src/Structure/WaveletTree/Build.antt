-- ===== src/Structure/WaveletTree/Build.antt =====
-- src/structure/wavelettree.rs: the bits that a wavelet tree is built of.
use terminus_store.Prelude.{
  ℕ, zero, suc, ◌+◌, ◌-◌, ◌*◌, ◌/◌, ◌^◌, ◌≤◌, ◌<◌, ◌≡◌, refl, ap, ◌∙◌, sym, arith, true, false, ltb,
  leb, Bool-cases, inl, inr, List, [], ◌∷◌, ◌++◌, length, map, append-nil, append_assoc,
}
use native.Mathlib.Nat.{div-one}
use terminus_store.Prelude.Bits.{half-two_pow-suc, two_pow_mono}
use terminus_store.Prelude.Outcome.{ok, panic}
use terminus_store.Structure.Framed.{FramedRead}
use terminus_store.Structure.Word.{ByteOrder}
use terminus_store.Structure.LogArray.{LogArray}
use terminus_store.Structure.LogArray.Invariant.{AllFit}
use terminus_store.Structure.BitArray.{BitArray, bitarray_stream_blocks}
use terminus_store.Structure.BitIndex.Build.{AllChunks, concat}
use terminus_store.Structure.BitIndex.Rank.{Indexes, file, index-Counts}
use terminus_store.Structure.WaveletTree.{
  FragmentBuilder, push_at, push_loop, push_to_fragments, push_source, create_fragments, tree_bits,
  build_wavelet_tree_from_iter,
}
use terminus_store.Structure.WaveletTree.Layers.{
  layers, length-layers, push_loop_lem, create_loop_lem, layers_bits, flat_bits-layers,
}

module _ (width : ℕ) where
  create_lem :
      width < 64
      → (2 ^ width - 1) * 48 ≤ 2 ^ 63 - 1
      → create_fragments width ≡ ok (layers width [] width)
  unfolding create_fragments layers
  create_lem few fits =
      let narrow : ltb width 64 ≡ true = ground arith in
      let room : leb ((2 ^ width - 1) * 48) (2 ^ 63 - 1) ≡ true = ground arith in
      rw (narrow, room)
        (ap ok (
          create_loop_lem width width 0 (omega arith)
          ∙ ap (layers width []) {x = 0 + width} {y = width} (omega arith)))

  create-panics : leb ((2 ^ width - 1) * 48) (2 ^ 63 - 1) ≡ false → create_fragments width ≡ panic
  unfolding create_fragments
  create-panics high = ground arith

  room_below : width < 58 → (2 ^ width - 1) * 48 ≤ 2 ^ 63 - 1
  room_below h = omega (arith, two_pow_mono width 57 (omega arith))

  push_to_fragments_lem :
      (source : List ℕ) (num : ℕ)
      → num < 2 ^ width
      → push_to_fragments num width (layers width source width)
        ≡ ok (layers width (source ++ (num ∷ [])) width)
  unfolding push_to_fragments
  push_to_fragments_lem source num low =
      let whole : num ≡ num / 2 ^ (width - width) =
        sym (ap (λ n. num / 2 ^ n) {x = width - width} {y = 0} (omega arith) ∙ div-one num) in
      ap (λ n. push_loop num width n (layers width source width)) whole
      ∙ ap (push_loop num width (num / 2 ^ (width - width)))
          (sym (append-nil (layers width source width)))
      ∙ push_loop_lem width width source num [] (omega arith) low
      ∙ ap ok (append-nil (layers width (source ++ (num ∷ [])) width))

  push_source_lem :
      (nums source back : List ℕ)
      → AllFit width nums
      → push_source width (nums ++ back) (layers width source width)
        ≡ push_source width back (layers width (source ++ nums) width)
  unfolding push_source
  push_source_lem [] source back fit =
      ap (λ s. push_source width back (layers width s width)) (sym (append-nil source))
  push_source_lem (num ∷ nums) source back (low, fit) = rw (push_to_fragments_lem source num low) (
      push_source_lem nums (source ++ (num ∷ [])) back fit
      ∙ ap (λ s. push_source width back (layers width s width))
          (append_assoc source (num ∷ []) nums))

  -- The bits that a source of numbers of the width, below 58, comes to are, for each layer and each quotient in
  -- order, those of the numbers with that quotient by the size of the layer's fragments, each set
  -- where the number is in the upper half of them.
  pub tree_bits-layers :
      (source : List ℕ)
      → width < 58
      → AllFit width source
      → tree_bits width source ≡ ok (layers_bits width source width)
  unfolding tree_bits push_source
  tree_bits-layers source few fit =
      let all = push_source_lem source [] [] fit in
      let pushed : push_source width source (layers width [] width)
          ≡ ok (layers width source width) =
        ap (λ s. push_source width s (layers width [] width)) (sym (append-nil source)) ∙ all in
      rw (create_lem (omega arith) (room_below few), pushed)
        (ap ok (flat_bits-layers width width source))

  push_at-past :
      (fragments : List FragmentBuilder) (i num : ℕ)
      → length fragments ≤ i
      → push_at fragments i num ≡ panic
  unfolding push_at
  push_at-past [] i num h = refl
  push_at-past (f ∷ fragments) zero num h = absurd (omega arith)
  push_at-past (f ∷ fragments) (suc i) num h = rw (push_at-past fragments i num (omega arith))

push_wide :
    (k num : ℕ) (fragments : List FragmentBuilder)
    → 2 ^ suc k ≤ num
    → length fragments + 1 ≡ 2 ^ suc k
    → push_to_fragments num (suc k) fragments ≡ panic
unfolding push_to_fragments push_loop
push_wide k num fragments high size =
    let double = half-two_pow-suc k in
    rw (push_at-past (suc k) fragments (num / 2 + 2 ^ k - 1) num (omega (arith, double)))

-- A number that does not fit the width, 1 to 63, makes the building panic, whatever fits before it
-- and whatever would follow.
pub tree_bits-panics :
    (width num : ℕ) (front back : List ℕ)
    → 0 < width
    → width < 64
    → AllFit width front
    → 2 ^ width ≤ num
    → tree_bits width (front ++ (num ∷ back)) ≡ panic
unfolding tree_bits push_source
tree_bits-panics zero num front back pos small fit high = absurd (omega arith)
tree_bits-panics (suc k) num front back pos small fit high =
    elim (Bool-cases (leb ((2 ^ suc k - 1) * 48) (2 ^ 63 - 1))) [
      | inl room ↦ rw (
        create_lem (suc k) small (ground arith),
        push_source_lem (suc k) front [] (num ∷ back) fit,
        push_wide k num (layers (suc k) front (suc k)) high (length-layers (suc k) front (suc k)),
      )
      | inr crowded ↦ rw (create-panics (suc k) crowded)
    ]

-- For a width below 58, numbers that fit it, and the chunks of the blocks of the bits that
-- they come to, fewer than 2 ^ 38 - 63 of them,
-- `build_wavelet_tree_from_iter` succeeds: it leaves the file of the bits and the files that
-- `build_bitindex` makes of it, and all three are accepted as the parts of an index.
pub build_wavelet_tree_from_iter-layers :
    (framed : FramedRead) (order : ByteOrder) (width : ℕ) (source : List ℕ) (chunks : List (List ℕ))
    (chunked : AllChunks chunks)
    → width < 58
    → AllFit width source
    → bitarray_stream_blocks framed order
        (file order (layers_bits width source width) chunks chunked)
      ≡ map ok (concat chunks)
    → length (layers_bits width source width) + 64 ≤ 2 ^ 38
    → (array : BitArray) × (blocks : LogArray) × (sblocks : LogArray) × (files : List ℕ × List ℕ)
      × Indexes order (layers_bits width source width) chunks chunked array blocks sblocks files
      × (build_wavelet_tree_from_iter order width source chunks
          ≡ ok (file order (layers_bits width source width) chunks chunked, files.0, files.1))
unfolding build_wavelet_tree_from_iter
build_wavelet_tree_from_iter-layers framed order width source chunks chunked small fit same few =
    let (array, blocks, sblocks, files, (p, q, r, s, t), c) =
      index-Counts order (layers_bits width source width) chunks chunked framed same few in
    (
      array,
      blocks,
      sblocks,
      files,
      (p, q, r, s, t),
      rw (tree_bits-layers width source small fit, q),
    )
