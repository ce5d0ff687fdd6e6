-- ===== src/Structure/WaveletTree.antt =====
-- src/structure/wavelettree.rs: the fragments of bits that a wavelet tree is built from.
pub mod Fragments
pub mod Layers
pub mod Build
mod Examples
use terminus_store.Prelude.{
  ℕ, zero, suc, ◌+◌, ◌-◌, ◌*◌, ◌/◌, ◌^◌, Bool, true, false, leb, ltb, ◌||◌, if◌then◌else◌, List, [],
  ◌∷◌, ◌++◌, map,
}
use terminus_store.Prelude.Outcome.{Outcome, ok, err, panic, ◌>>=◌, assert}
use terminus_store.Structure.BitArray
use terminus_store.Structure.Word.{ByteOrder}
use terminus_store.Structure.BitIndex.{build_bitindex}

pub record FragmentBuilder : Type 0 where
  pub fragment_start : ℕ
  pub fragment_half : ℕ
  pub fragment_end : ℕ
  pub bits : List Bool

abbrev pub new : ℕ → ℕ → FragmentBuilder
new fragment_start fragment_end = record {
  fragment_start = fragment_start;
  fragment_half = (fragment_start + fragment_end) / 2;
  fragment_end = fragment_end;
  bits = [];
}

unfoldable pub push : FragmentBuilder → ℕ → FragmentBuilder
push self num =
    if ltb num self.fragment_start || leb self.fragment_end num
    then self
    else record self { bits = self.bits ++ (leb self.fragment_half num ∷ []) }

-- `for j in 0..num`, from `j` on.
unfoldable pub layer_loop : ℕ → ℕ → ℕ → List FragmentBuilder
layer_loop increment zero j = []
layer_loop increment (suc num) j =
    new (j * increment) ((j + 1) * increment) ∷ layer_loop increment num (j + 1)

-- `for i in 0..width`, from `i` on.
unfoldable pub create_loop : ℕ → ℕ → ℕ → List FragmentBuilder
create_loop upper zero i = []
create_loop upper (suc layers) i =
    layer_loop (upper / 2 ^ i) (2 ^ i) 0 ++ create_loop upper layers (i + 1)

-- `2_u64.pow(width)` overflows from 64 on, and `Vec::with_capacity` panics where the elements, of 48
-- bytes each, take more than `isize::MAX` bytes.
unfoldable pub create_fragments : ℕ → Outcome (List FragmentBuilder)
create_fragments width =
    assert (ltb width 64)
      (assert (leb ((2 ^ width - 1) * 48) (2 ^ 63 - 1)) (ok (create_loop (2 ^ width) width 0)))

-- `fragments[index].push(num)`, which panics out of bounds.
unfoldable pub push_at : List FragmentBuilder → ℕ → ℕ → Outcome (List FragmentBuilder)
push_at [] index num = panic
push_at (fragment ∷ fragments) zero num = ok (push fragment num ∷ fragments)
push_at (fragment ∷ fragments) (suc index) num =
    push_at fragments index num >>= λ rest. ok (fragment ∷ rest)

-- `for i in 0..width`; `layers` is `width - i`.
unfoldable pub push_loop : ℕ → ℕ → ℕ → List FragmentBuilder → Outcome (List FragmentBuilder)
push_loop num zero num_it fragments = ok fragments
push_loop num (suc layers) num_it fragments =
    push_at fragments (num_it / 2 + 2 ^ layers - 1) num >>= λ fragments'.
    push_loop num layers (num_it / 2) fragments'

unfoldable pub push_to_fragments : ℕ → ℕ → List FragmentBuilder → Outcome (List FragmentBuilder)
push_to_fragments num width fragments = push_loop num width num fragments

unfoldable pub push_source : ℕ → List ℕ → List FragmentBuilder → Outcome (List FragmentBuilder)
push_source width [] fragments = ok fragments
push_source width (num ∷ source) fragments = do
  fragments' ← push_to_fragments num width fragments
  push_source width source fragments'

abbrev pub flat_bits : List FragmentBuilder → List Bool
flat_bits [] = []
flat_bits (fragment ∷ fragments) = fragment.bits ++ flat_bits fragments

-- The bits that are pushed to the bit file, and the three files; `chunks` are what `build_bitindex`
-- makes of the blocks of the bit file.
unfoldable pub tree_bits : ℕ → List ℕ → Outcome (List Bool)
tree_bits width source = do
  empty ← create_fragments width
  fragments ← push_source width source empty
  ok (flat_bits fragments)

unfoldable pub build_wavelet_tree_from_iter :
    ByteOrder → ℕ → List ℕ → List (List ℕ) → Outcome (List ℕ × List ℕ × List ℕ)
build_wavelet_tree_from_iter order width source chunks = do
  bits ← tree_bits width source
  index ← build_bitindex order chunks
  ok (BitArray.finalize (BitArray.push_all (BitArray.new []) bits), index.0, index.1)
