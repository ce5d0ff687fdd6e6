-- ===== src/Structure/BitIndex/Maps.antt =====
-- src/structure/bitindex.rs: an index from the bytes of its files, and what it passes on to its bits.
use terminus_store.Prelude.{map, ℕ, ◌+◌, ◌^◌, ◌≤◌, ◌≡◌, ap, ◌∙◌, sym, arith, Bool, List, length}
use terminus_store.Prelude.Outcome.{Outcome, ok, panic, ◌>>=◌}
use terminus_store.Structure.Framed.{FramedRead}
use terminus_store.Structure.Word.{ByteOrder}
use terminus_store.Structure.LogArray
use terminus_store.Structure.LogArray.{LogArray}
use terminus_store.Structure.BitArray
use terminus_store.Structure.BitArray.{BitArray, bitarray_stream_blocks}
use terminus_store.Structure.BitArray.Iter.{iter-push_all}
use terminus_store.Structure.BitArray.Iter
use terminus_store.Structure.BitIndex.{BitIndex, from_parts, build_bitindex}
use terminus_store.Structure.BitIndex.Build.{AllChunks, concat}
use terminus_store.Structure.BitIndex.Rank.{file, index-Counts}

-- `Result::unwrap` of what `LogArray::parse` and `BitArray::from_bits` return.
abbrev pub unwrap_log {ℓ} : {A : Type ℓ} → LogArray.ParseResult A → Outcome A
unwrap_log (LogArray.parsed a) = ok a
unwrap_log (LogArray.rejected e) = panic
unwrap_log LogArray.panicked = panic

abbrev pub unwrap_bits {ℓ} : {A : Type ℓ} → BitArray.ParseResult A → Outcome A
unwrap_bits (BitArray.parsed a) = ok a
unwrap_bits (BitArray.rejected e) = panic
unwrap_bits BitArray.panicked = panic

unfoldable pub from_maps : ByteOrder → List ℕ → List ℕ → List ℕ → Outcome BitIndex
from_maps order bitarray_map blocks_map sblocks_map = do
  bitarray ← unwrap_bits (BitArray.from_bits order bitarray_map)
  blocks_logarray ← unwrap_log (LogArray.parse order blocks_map)
  sblocks_logarray ← unwrap_log (LogArray.parse order sblocks_map)
  from_parts bitarray blocks_logarray sblocks_logarray

abbrev pub len : BitIndex → ℕ
len self = self.array.len

abbrev pub get : BitIndex → ℕ → Outcome Bool
get self index = BitArray.get self.array index

unfoldable pub iter : BitIndex → Outcome (List Bool)
iter self = Iter.iter self.array

parsed_same : {a b : BitArray} → BitArray.parsed a ≡ BitArray.parsed b → a ≡ b
parsed_same e = cc

-- For fewer than 2 ^ 38 - 63 bits pushed to a file, with the chunks of its blocks, `build_bitindex`
-- succeeds, and `from_maps` on the three files does not panic: it returns an index whose iterator
-- yields exactly those bits, in the order in which they were pushed.
pub from_maps-build_bitindex :
    (framed : FramedRead) (order : ByteOrder) (bits : List Bool) (cs : List (List ℕ))
    (chunked : AllChunks cs)
    → bitarray_stream_blocks framed order (file order bits cs chunked) ≡ map ok (concat cs)
    → length bits + 64 ≤ 2 ^ 38
    → (files : List ℕ × List ℕ) × (index : BitIndex) × (build_bitindex order cs ≡ ok files)
      × (from_maps order (file order bits cs chunked) files.0 files.1 ≡ ok index)
      × (iter index ≡ ok bits)
unfolding from_maps iter
from_maps-build_bitindex framed order bits cs chunked same few =
    let (array, blocks, sblocks, files, (p, q, r, s, t), c) =
      index-Counts order bits cs chunked framed same few in
    let (array', accepted, yields) = iter-push_all order bits (omega arith) in
    let eq : array' ≡ array = parsed_same (sym accepted ∙ p) in
    (
      files,
      record { array = array; blocks = blocks; sblocks = sblocks },
      q,
      rw (p, r, s) t,
      ap Iter.iter (sym eq) ∙ yields,
    )
